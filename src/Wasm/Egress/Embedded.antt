-- ===== src/Wasm/Egress/Embedded.antt =====
-- wasm/host.rs: the check of an IPv4 address inside an IPv6 one.
use super_engine.Prelude.{ℕ, ◌+◌, ◌*◌, ◌<◌, ◌≡◌, refl, false, some, arith, nat_eq}
use super_engine.Wasm.Egress.{
  v4, v6, embedded_v4, is_never_routable_ip, is_local_ip, EgressScope, public_only, user_authorized,
  is_egress_permitted,
}

module _ (s0 s1 s2 s3 s4 s5 s6 s7 a b c d : ℕ)
    (e : embedded_v4 (v6 s0 s1 s2 s3 s4 s5 s6 s7) ≡ some (a, b, c, d)) where
  never_of_embedded :
      is_never_routable_ip (v6 s0 s1 s2 s3 s4 s5 s6 s7) ≡ is_never_routable_ip (v4 a b c d)
  unfolding is_never_routable_ip
  never_of_embedded = rw (e) refl

  local_of_embedded : is_local_ip (v6 s0 s1 s2 s3 s4 s5 s6 s7) ≡ is_local_ip (v4 a b c d)
  unfolding is_local_ip
  local_of_embedded = rw (e) refl

  -- The verdict follows the embedded address, where loopback is not opted in.
  permitted_of_embedded :
      (scope : EgressScope)
      → is_egress_permitted (v6 s0 s1 s2 s3 s4 s5 s6 s7) false scope
        ≡ is_egress_permitted (v4 a b c d) false scope
  unfolding is_egress_permitted
  permitted_of_embedded public_only = rw (never_of_embedded, local_of_embedded) refl
  permitted_of_embedded user_authorized = rw (never_of_embedded) refl

module _ (a b c d : ℕ) (la : a < 256) (lb : b < 256) (lc : c < 256) (ld : d < 256) where
  mapped : embedded_v4 (v6 0 0 0 0 0 0xffff (a * 256 + b) (c * 256 + d)) ≡ some (a, b, c, d)
  unfolding embedded_v4
  mapped = ground arith

  nat64 : embedded_v4 (v6 0x64 0xff9b 0 0 0 0 (a * 256 + b) (c * 256 + d)) ≡ some (a, b, c, d)
  unfolding embedded_v4
  nat64 = ground arith

  six_to_four :
      (s3 s4 s5 s6 s7 : ℕ)
      → embedded_v4 (v6 0x2002 (a * 256 + b) (c * 256 + d) s3 s4 s5 s6 s7) ≡ some (a, b, c, d)
  unfolding embedded_v4
  six_to_four s3 s4 s5 s6 s7 = ground arith

  -- Wrapping an IPv4 address in IPv6, as a mapped, a NAT64 or a 6to4 address, never changes what
  -- the egress check says of it, in either scope, when loopback is not opted in.
  pub permitted_of_wrapped :
      (scope : EgressScope) (s3 s4 s5 s6 s7 : ℕ)
      → (is_egress_permitted (v6 0 0 0 0 0 0xffff (a * 256 + b) (c * 256 + d)) false scope
          ≡ is_egress_permitted (v4 a b c d) false scope)
        × (is_egress_permitted (v6 0x64 0xff9b 0 0 0 0 (a * 256 + b) (c * 256 + d)) false scope
            ≡ is_egress_permitted (v4 a b c d) false scope)
        × (is_egress_permitted (v6 0x2002 (a * 256 + b) (c * 256 + d) s3 s4 s5 s6 s7) false scope
            ≡ is_egress_permitted (v4 a b c d) false scope)
  permitted_of_wrapped scope s3 s4 s5 s6 s7 = (
    permitted_of_embedded 0 0 0 0 0 0xffff (a * 256 + b) (c * 256 + d) a b c d mapped scope,
    permitted_of_embedded 0x64 0xff9b 0 0 0 0 (a * 256 + b) (c * 256 + d) a b c d nat64 scope,
    permitted_of_embedded 0x2002 (a * 256 + b) (c * 256 + d) s3 s4 s5 s6 s7 a b c d
        (six_to_four s3 s4 s5 s6 s7) scope,
  )
