-- ===== src/Registry/Compat/Builds/Panics.antt =====
-- registry/compat.rs and super-engine-spec/src/arch.rs: targets on which the parser panics, and `select`.
use super_engine.Prelude.{
  ℕ, ◌<◌, ◌≤◌, ◌≡◌, refl, ◌∙◌, true, none, some, List, [], ◌∷◌, ◌++◌, nat_eq, bytes_eq, Text, text,
  any, get_elem?, Member, strip_prefix, inl, inr, arith,
}
use super_engine.Registry.Arch.{byte_len, split_at, panicked, gfx_from_str}
use super_engine.Registry.Host.{Host}
use super_engine.Registry.Compat.{IndexSubprocessAsset, from_asset_panics}
use super_engine.Registry.Compat.Builds.{
  IndexBackend, Daemon, Versions, is_for, by_target, select_asset, select,
}
use super_engine.Registry.Compat.Builds.Best.{Member-keep, to_select_asset}

-- A character of two bytes and one of one byte make three bytes, which are cut after the first.
two_bytes :
    (c d : ℕ) → 128 ≤ c → c < 2048 → d < 128 → gfx_from_str (text "gfx" ++ c ∷ d ∷ []) ≡ panicked
unfolding gfx_from_str strip_prefix byte_len split_at
two_bytes c d l u v = ground arith

select_asset-panics :
    (host : Host) (l : List (ℕ × IndexSubprocessAsset)) (x : ℕ × IndexSubprocessAsset)
    → Member x l
    → from_asset_panics x.1 ≡ true
    → select_asset host l ≡ none
select_asset-panics host [] x m p = elim m [ ]
select_asset-panics host (y ∷ l) x m p = ground (arith, any_panics (y ∷ l) x m p)
  where
    any_panics :
        (l : List (ℕ × IndexSubprocessAsset)) (x : ℕ × IndexSubprocessAsset)
        → Member x l
        → from_asset_panics x.1 ≡ true
        → any (λ p. from_asset_panics p.1) l ≡ true
    any_panics [] x m p = elim m [ ]
    any_panics (y ∷ l) x (inl e) p = ground arith
    any_panics (y ∷ l) x (inr m) p = ground (arith, any_panics l x m p)

-- If the daemon knows the contract of a subprocess backend and one build for the host's target
-- declares an AMD target `gfx` followed by a character of two bytes and one of one byte, then
-- `select` panics, whatever the host's hardware and whatever the other builds are.
pub select-panics :
    (v : Versions) (daemon : Daemon) (host : Host) (entry : IndexBackend) (j c d : ℕ)
    (b : IndexSubprocessAsset) (more : List Text)
    → v.knows_contract entry.contract ≡ true
    → entry.kind ≡ text "subprocess"
    → get_elem? entry.assets.subprocess j ≡ some b
    → is_for host b ≡ true
    → b.gfx ≡ (text "gfx" ++ c ∷ d ∷ []) ∷ more
    → 128 ≤ c
    → c < 2048
    → d < 128
    → select v daemon host entry ≡ none
unfolding by_target from_asset_panics
select-panics v daemon host entry j c d b more known kind g t e l u w =
    to_select_asset v daemon host entry known kind
    ∙ select_asset-panics host (by_target host entry) (j, b)
        (Member-keep (λ p. is_for host p.1) 0 j j entry.assets.subprocess b (omega arith) g t)
        (rw (e, two_bytes c d l u w) refl)
