-- ===== src/Wasm/Egress.antt =====
-- wasm/host.rs: the check in front of every outbound request of a backend, and `default_port` of
-- wasm/base_url.rs. An IPv4 address is its four octets, an IPv6 address its eight segments.
pub mod Embedded
pub mod Permitted
use super_engine.Prelude.{
  ℕ, ◌+◌, ◌*◌, ◌/◌, ◌%◌, Bool, true, false, not, ◌&&◌, ◌||◌, Option, none, some, List, [], ◌∷◌,
  ◌++◌, ◌==◌, nat_eq, bytes_eq, if◌then◌else◌, Text, text, decimal, to_ascii_lowercase, any, all,
  find, leb, Result, ok, err, strip_prefix, or_else,
}
use mathlib.Core.List.{reverse}

pub data IpAddr : Type 0 where
  v4 : (a b c d : ℕ) → IpAddr
  v6 : (s0 s1 s2 s3 s4 s5 s6 s7 : ℕ) → IpAddr

abbrev pub V4 : Type 0
V4 = ℕ × ℕ × ℕ × ℕ

unfoldable pub is_loopback_v4 : V4 → Bool
is_loopback_v4 (a, b, c, d) = a == 127

unfoldable pub is_private_v4 : V4 → Bool
is_private_v4 (a, b, c, d) =
    a == 10 || (a == 172 && (leb 16 b && leb b 31)) || (a == 192 && b == 168)

unfoldable pub is_never_routable_v4 : V4 → Bool
is_never_routable_v4 (a, b, c, d) =
    (a == 169 && b == 254)
    || (a == 0 && (b == 0 && (c == 0 && d == 0)))
    || (a == 255 && (b == 255 && (c == 255 && d == 255)))

unfoldable pub is_local_v4 : V4 → Bool
unfolding is_loopback_v4 is_private_v4
is_local_v4 v = is_loopback_v4 v || is_private_v4 v

-- The four octets of two segments.
abbrev octets : ℕ → ℕ → V4
octets hi lo = (hi / 256, hi % 256, lo / 256, lo % 256)

abbrev zeros : ℕ → ℕ → ℕ → ℕ → Bool
zeros s t u v = s == 0 && (t == 0 && (u == 0 && v == 0))

-- `is_loopback()`, `is_unspecified()`, `is_unicast_link_local()`, `is_unique_local()` and
-- `to_ipv4()` of an IPv6 address.
unfoldable pub is_loopback_v6 : IpAddr → Bool
is_loopback_v6 (v6 s0 s1 s2 s3 s4 s5 s6 s7) = zeros s0 s1 s2 s3 && zeros s4 s5 s6 0 && s7 == 1
is_loopback_v6 _ = false

unfoldable pub is_unspecified_v6 : IpAddr → Bool
is_unspecified_v6 (v6 s0 s1 s2 s3 s4 s5 s6 s7) = zeros s0 s1 s2 s3 && zeros s4 s5 s6 s7
is_unspecified_v6 _ = false

unfoldable pub to_ipv4 : IpAddr → Option V4
to_ipv4 (v6 s0 s1 s2 s3 s4 s5 s6 s7) =
    if zeros s0 s1 s2 s3 && (s4 == 0 && (s5 == 0 || s5 == 0xffff))
    then some (octets s6 s7)
    else none
to_ipv4 _ = none

unfoldable pub embedded_v4 : IpAddr → Option V4
unfolding is_loopback_v6 is_unspecified_v6 to_ipv4
embedded_v4 (v4 a b c d) = none
embedded_v4 (v6 s0 s1 s2 s3 s4 s5 s6 s7) =
    let ip = v6 s0 s1 s2 s3 s4 s5 s6 s7 in
    if is_loopback_v6 ip || is_unspecified_v6 ip
    then none
    else if s0 == 0x0064 && (s1 == 0xff9b && zeros s2 s3 s4 s5)
    then some (octets s6 s7)
    else if s0 == 0x2002
    then some (octets s1 s2)
    else to_ipv4 ip

abbrev never_routable_v6 : IpAddr → Option V4 → Bool
never_routable_v6 ip (some v) = is_never_routable_v4 v
never_routable_v6 (v6 s0 s1 s2 s3 s4 s5 s6 s7) none =
    is_unspecified_v6 (v6 s0 s1 s2 s3 s4 s5 s6 s7) || s0 / 64 == 0xfe80 / 64
never_routable_v6 (v4 a b c d) none = false

unfoldable pub is_never_routable_ip : IpAddr → Bool
unfolding is_never_routable_v4
is_never_routable_ip (v4 a b c d) = is_never_routable_v4 (a, b, c, d)
is_never_routable_ip ip = never_routable_v6 ip (embedded_v4 ip)

abbrev local_v6 : IpAddr → Option V4 → Bool
local_v6 ip (some v) = is_local_v4 v
local_v6 (v6 s0 s1 s2 s3 s4 s5 s6 s7) none =
    is_loopback_v6 (v6 s0 s1 s2 s3 s4 s5 s6 s7) || s0 / 512 == 0xfc00 / 512
local_v6 (v4 a b c d) none = false

unfoldable pub is_local_ip : IpAddr → Bool
unfolding is_local_v4
is_local_ip (v4 a b c d) = is_local_v4 (a, b, c, d)
is_local_ip ip = local_v6 ip (embedded_v4 ip)

-- `IpAddr::is_loopback`
unfoldable pub is_loopback : IpAddr → Bool
unfolding is_loopback_v4 is_loopback_v6
is_loopback (v4 a b c d) = is_loopback_v4 (a, b, c, d)
is_loopback ip = is_loopback_v6 ip

pub data EgressScope : Type 0 where
  public_only user_authorized : EgressScope

unfoldable pub is_egress_permitted : IpAddr → (allow_loopback : Bool) → EgressScope → Bool
unfolding is_loopback
is_egress_permitted ip allow_loopback scope =
    if is_never_routable_ip ip then false else elim scope [
      | user_authorized ↦ true
      | public_only ↦ (allow_loopback && is_loopback ip) || not (is_local_ip ip)
    ]

pub data EgressError : Type 0 where
  no_host : EgressError
  not_allowed : (host : Text) → EgressError
  disallowed_address : (host : Text) (ip : IpAddr) → EgressError
  cannot_resolve : (host : Text) → EgressError

-- The address parser and the resolver; the resolver's `none` is an error.
pub record Net : Type 0 where
  pub parse_ip : Text → Option IpAddr
  pub to_socket_addrs : Text → ℕ → Option (List IpAddr)

abbrev strip_suffix : Text → Text → Option Text
strip_suffix suffix s = elim (strip_prefix (reverse suffix) (reverse s)) [
  | none ↦ none
  | some r ↦ some (reverse r)
]

abbrev unbracketed : Text → Text
unbracketed host = elim (strip_prefix (text "[") host) [
  | none ↦ host
  | some inner ↦ elim (strip_suffix (text "]") inner) [ none ↦ host | some ip ↦ ip ]
]

unfoldable pub ip_literal : Net → Text → Option IpAddr
ip_literal net host = net.parse_ip (unbracketed host)

-- The first address that the check refuses.
unfoldable pub check_resolved_addrs :
    Net → Text → ℕ → (allow_loopback : Bool) → EgressScope → Result (Unit {0}) EgressError
check_resolved_addrs net host port allow_loopback scope = elim (net.to_socket_addrs host port) [
  | none ↦ err (cannot_resolve host)
  | some addrs ↦ elim (find (λ ip. not (is_egress_permitted ip allow_loopback scope)) addrs) [
    | some ip ↦ err (disallowed_address host ip)
    | none ↦ ok tt
  ]
]

unfoldable pub guard_egress_host :
    Net → Text → ℕ → (allow_loopback : Bool) → EgressScope → Result (Unit {0}) EgressError
unfolding check_resolved_addrs ip_literal
guard_egress_host net host port allow_loopback scope = elim (ip_literal net host) [
  | some ip ↦
      if is_egress_permitted ip allow_loopback scope
      then ok tt
      else err (disallowed_address host ip)
  | none ↦ check_resolved_addrs net host port allow_loopback scope
]

-- `eq_ignore_ascii_case`
abbrev pub same_name : Text → Text → Bool
same_name a b = to_ascii_lowercase a == to_ascii_lowercase b

abbrev pub authority_of : Text → ℕ → Text
authority_of host port = host ++ (text ":" ++ decimal port)

unfoldable pub check_host_allowed :
    Net
    → (allowed user_allowed : List Text) → (host : Text) → (port : ℕ) → (allow_loopback : Bool)
    → Result (Unit {0}) EgressError
check_host_allowed net allowed user_allowed host port allow_loopback =
    let authority = authority_of host port in
    if any (λ a. same_name a authority) user_allowed
    then guard_egress_host net host port allow_loopback user_authorized
    else if any (λ a. same_name a host || same_name a authority) allowed
        || any (λ a. same_name a host) user_allowed
    then guard_egress_host net host port allow_loopback public_only
    else err (not_allowed host)

unfoldable pub default_port : Option Text → ℕ
default_port none = 443
default_port (some s) = if same_name s (text "http") || same_name s (text "ws") then 80 else 443

-- The host, port and scheme of a request's URI, as the `hyper` parser reads them.
pub record Uri : Type 0 where
  pub host : Option Text
  pub port : Option ℕ
  pub scheme : Option Text

pub record AllowlistHooks : Type 0 where
  pub allowed_hosts : List Text
  pub user_allowed_hosts : List Text
  pub allow_loopback : Bool

-- The verdict of `send_request`: only on `ok` is the request sent.
unfoldable pub send_request : Net → AllowlistHooks → Uri → Result (Unit {0}) EgressError
unfolding check_host_allowed default_port
send_request net hooks uri = elim uri.host [
  | none ↦ err no_host
  | some host ↦
      let port : ℕ = elim uri.port [ some p ↦ p | none ↦ default_port uri.scheme ] in
      check_host_allowed net hooks.allowed_hosts hooks.user_allowed_hosts host port
        hooks.allow_loopback
]
