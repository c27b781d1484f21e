-- ===== src/Tests/Requests.antt =====
-- Requests of a backend to the outside.
use super_engine.Prelude.{
  ◌≡◌, ◌⊎◌, ◌||◌, refl, true, false, none, some, [], ◌∷◌, text, bytes_eq, nat_eq, ok, inl, any,
  list_beq,
}
use super_engine.Wasm.Egress.{
  v4, Net, is_egress_permitted, is_never_routable_ip, is_local_ip, check_host_allowed, same_name,
  authority_of, guard_egress_host, ip_literal,
}
use super_engine.Wasm.Egress.Permitted.{check_host_allowed-reaches}

-- A resolver that knows one public address for every name.
abbrev net : Net
net = record {
  parse_ip = λ host. none;
  to_socket_addrs = λ host port. some (v4 93 184 216 34 ∷ []);
}

allowed : check_host_allowed net (text "API.example" ∷ []) [] (text "api.example") 443 false ≡ ok tt
unfolding check_host_allowed list_beq guard_egress_host is_egress_permitted is_never_routable_ip
    is_local_ip
allowed = refl

check_host_allowed-reaches_example :
    (any
        (λ a.
          same_name a (text "api.example") || same_name a (authority_of (text "api.example") 443))
        (text "API.example" ∷ [])
      ≡ true)
    × (is_never_routable_ip (v4 93 184 216 34) ≡ false)
    × ((false ≡ true) ⊎ (is_local_ip (v4 93 184 216 34) ≡ false) ⊎ (false ≡ true))
unfolding ip_literal list_beq
check_host_allowed-reaches_example =
    check_host_allowed-reaches net (text "API.example" ∷ []) [] (text "api.example") 443 false
      (v4 93 184 216 34) allowed (inl refl)
