-- ===== src/Wasm/Egress/Permitted.antt =====
-- wasm/host.rs: what a request that passes the check can reach.
use super_engine.Prelude.{
  ℕ, ◌≡◌, subst, Bool, true, false, not, ◌||◌, ◌&&◌, none, some, arith, List, [], ◌∷◌, Member,
  nat_eq, bytes_eq, Text, any, find, Option-cases, Bool-cases, inl, inr, ◌⊎◌, ok,
}
use super_engine.Wasm.Egress.{
  IpAddr, is_never_routable_ip, is_local_ip, is_loopback, EgressScope, public_only, user_authorized,
  is_egress_permitted, Net, ip_literal, check_resolved_addrs, guard_egress_host, check_host_allowed,
  same_name, authority_of,
}

-- The addresses that the check looks at for a host: itself, or what its name resolves to.
abbrev pub addresses_of : Net → Text → ℕ → List IpAddr
addresses_of net host port = elim (ip_literal net host) [
  | some ip ↦ (ip ∷ [])
  | none ↦ elim (net.to_socket_addrs host port) [ some l ↦ l | none ↦ [] ]
]

find-none :
    (p : IpAddr → Bool) (l : List IpAddr) (ip : IpAddr)
    → find (λ i. not (p i)) l ≡ none
    → Member ip l
    → p ip ≡ true
find-none p [] ip h m = elim m [ ]
find-none p (x ∷ l) ip h m = elim (Bool-cases (p x)) [
  | inl p1 ↦ elim m [
    | inl e ↦ subst (λ i. p i ≡ true) e p1
    | inr k ↦ ground (arith, find-none p l ip)
  ]
  | inr p0 ↦ ground arith
]

guard-permitted :
    (net : Net) (host : Text) (port : ℕ) (loopback : Bool) (scope : EgressScope) (ip : IpAddr)
    → guard_egress_host net host port loopback scope ≡ ok tt
    → Member ip (addresses_of net host port)
    → is_egress_permitted ip loopback scope ≡ true
unfolding guard_egress_host check_resolved_addrs
guard-permitted net host port loopback scope ip h m = elim (Option-cases (ip_literal net host)) [
  | inr (x, e) ↦ ground arith
  | inl e ↦ elim (Option-cases (net.to_socket_addrs host port)) [
    | inl g ↦ ground arith
    | inr (l, g) ↦ ground (arith, find-none (λ i. is_egress_permitted i loopback scope) l ip)
  ]
]

permitted-routable :
    (ip : IpAddr) (loopback : Bool) (scope : EgressScope)
    → is_egress_permitted ip loopback scope ≡ true
    → is_never_routable_ip ip ≡ false
unfolding is_egress_permitted
permitted-routable ip loopback scope h = ground arith

permitted-public :
    (ip : IpAddr) (loopback : Bool)
    → is_egress_permitted ip loopback public_only ≡ true
    → (is_local_ip ip ≡ false) ⊎ ((loopback && is_loopback ip) ≡ true)
unfolding is_egress_permitted
permitted-public ip loopback h = ground arith

-- If the check of a host and a port passes, then the user or the manifest listed that host, with
-- or without the port, and each address that the check looked at can be routed to; and it is not a
-- local one, unless the user listed the host with this very port, or it is a loopback address and
-- loopback is opted in.
pub check_host_allowed-reaches :
    (net : Net) (allowed user_allowed : List Text) (host : Text) (port : ℕ) (loopback : Bool)
    (ip : IpAddr)
    → check_host_allowed net allowed user_allowed host port loopback ≡ ok tt
    → Member ip (addresses_of net host port)
    → ((any (λ a. same_name a host || same_name a (authority_of host port)) allowed
          || any (λ a. same_name a host) user_allowed
          || any (λ a. same_name a (authority_of host port)) user_allowed)
        ≡ true)
      × (is_never_routable_ip ip ≡ false)
      × ((any (λ a. same_name a (authority_of host port)) user_allowed ≡ true)
          ⊎ (is_local_ip ip ≡ false)
          ⊎ ((loopback && is_loopback ip) ≡ true))
unfolding check_host_allowed
check_host_allowed-reaches net allowed user_allowed host port loopback ip h m =
    elim (Bool-cases (any (λ a. same_name a (authority_of host port)) user_allowed)) [
      | inl user ↦
          let p = guard-permitted net host port loopback user_authorized ip (ground arith) m in
          (ground arith, permitted-routable ip loopback user_authorized p, inl user)
      | inr other ↦
          let p = guard-permitted net host port loopback public_only ip (ground arith) m in
          (
            ground arith,
            permitted-routable ip loopback public_only p,
            inr (permitted-public ip loopback p),
          )
    ]
