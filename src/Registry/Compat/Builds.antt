-- ===== src/Registry/Compat/Builds.antt =====
-- registry/compat.rs: `select`, the build of a backend to install.
pub mod Best
pub mod Panics
use super_engine.Prelude.{
  ℕ, suc, zero, ◌+◌, ◌<◌, ◌≡◌, refl, ap, sym, subst, ◌∙◌, Bool, true, false, not, ◌&&◌, ◌||◌,
  Option, none, some, List, [], ◌∷◌, ◌++◌, ◌==◌, nat_eq, bytes_eq, if◌then◌else◌, Text, text, any,
  ltb, keep, get_elem?, Member, All, Option-cases, Bool-cases, inl, inr, ◌⊎◌, arith, is_empty, map,
}
use super_engine.Registry.Host.{Host}
use super_engine.Registry.Ranking.{
  Score, best_of, scored, FirstBest, best_of-FirstBest, best_of-some, is_better, is_as_good,
}
use super_engine.Registry.Compat.{IndexSubprocessAsset, from_asset, from_asset_panics, score}

pub record IndexAsset : Type 0 where
  pub url : Text
  pub size : ℕ
  pub sha256 : Text

pub record IndexAssets : Type 0 where
  pub wasm : Option IndexAsset
  pub subprocess : List IndexSubprocessAsset

-- What `select` reads of an index entry.
pub record IndexBackend : Type 0 where
  pub kind : Text
  pub contract : Text
  pub min_client : Option Text
  pub assets : IndexAssets

pub record Daemon : Type 0 where
  pub display_name : Text
  pub version : Text

-- What the product and the `semver` library answer: whether a contract generation is known, and
-- whether one version exceeds another; `none` is a text that is no version.
pub record Versions : Type 0 where
  pub knows_contract : Text → Bool
  pub exceeds : Text → Text → Option Bool

-- The sentences, by what they tell.
pub data Reason : Type 0 where
  needs_version : (min contract running : Text) → Reason
  needs_newer : (contract running : Text) → Reason
  missing_wasm_asset : Reason
  unknown_kind : Text → Reason
  no_target : Text → Reason
  no_compatible : Host → List (ℕ × IndexSubprocessAsset) → Reason

pub data Selection : Type 0 where
  wasm : Selection
  subprocess : (index : ℕ) → Selection
  incompatible : Reason → Selection
  needs_client_update : Reason → Selection

unfoldable pub first_chars : ℕ → Text → Text
first_chars zero s = []
first_chars (suc n) [] = []
first_chars (suc n) (c ∷ s) = c ∷ first_chars n s

abbrev pub max_echoed_contract : ℕ
max_echoed_contract = 16

abbrev floor_of : Versions → Text → Option Text → Option Text
floor_of v running none = none
floor_of v running (some min) = elim (v.exceeds min running) [ some true ↦ some min | _ ↦ none ]

unfoldable pub contract_block : Versions → Daemon → IndexBackend → Option Reason
unfolding first_chars
contract_block v daemon entry =
    if v.knows_contract entry.contract
    then none
    else let contract = first_chars max_echoed_contract entry.contract in
      elim (floor_of v daemon.version entry.min_client) [
        | some min ↦ some (needs_version min contract daemon.version)
        | none ↦ some (needs_newer contract daemon.version)
      ]

unfoldable pub enumerate_from : {A : Type 0} → ℕ → List A → List (ℕ × A)
enumerate_from n [] = []
enumerate_from n (x ∷ xs) = (n, x) ∷ enumerate_from (suc n) xs

abbrev pub is_for : Host → IndexSubprocessAsset → Bool
is_for host a = a.target == host.target_triple

abbrev pub asset_score : Host → ℕ × IndexSubprocessAsset → Option Score
asset_score host (n, a) = score host (from_asset a)

unfoldable pub by_target : Host → IndexBackend → List (ℕ × IndexSubprocessAsset)
unfolding enumerate_from
by_target host entry = keep (λ p. is_for host p.1) (enumerate_from 0 entry.assets.subprocess)

abbrev choose : Host → List (ℕ × IndexSubprocessAsset) → Selection
choose host candidates = elim (best_of (asset_score host) candidates) [
  | some (s, (n, a)) ↦ subprocess n
  | none ↦ incompatible (no_compatible host candidates)
]

-- The choice among the builds for the host's target; `none` is the panic on a malformed target.
abbrev select_asset : Host → List (ℕ × IndexSubprocessAsset) → Option Selection
select_asset host candidates =
    if is_empty candidates
    then some (incompatible (no_target host.target_triple))
    else if any (λ p. from_asset_panics p.1) candidates
    then none
    else some (choose host candidates)

unfoldable pub select : Versions → Daemon → Host → IndexBackend → Option Selection
unfolding contract_block
select v daemon host entry = elim (contract_block v daemon entry) [
  | some reason ↦ some (needs_client_update reason)
  | none ↦
      if entry.kind == text "wasm"
      then some (elim entry.assets.wasm [ some a ↦ wasm | none ↦ incompatible missing_wasm_asset ])
      else if not (entry.kind == text "subprocess")
      then some (incompatible (unknown_kind entry.kind))
      else select_asset host (by_target host entry)
]

pub record SelectedAsset : Type 0 where
  pub target : Text
  pub accel : List Text
  pub cuda_major : Option ℕ
  pub cuda_sm : Option ℕ
  pub cudnn : Bool

unfoldable pub to_selected_asset : IndexBackend → Selection → Option SelectedAsset
to_selected_asset entry wasm = elim entry.assets.wasm [
  | none ↦ none
  | some a ↦ some (record {
    target = [];
    accel = text "wasm" ∷ [];
    cuda_major = none;
    cuda_sm = none;
    cudnn = false;
  })
]
to_selected_asset entry (subprocess index) = elim (get_elem? entry.assets.subprocess index) [
  | none ↦ none
  | some a ↦ some (record {
    target = a.target;
    accel = a.accel;
    cuda_major = a.cuda_major;
    cuda_sm = a.cuda_sm;
    cudnn = a.cudnn;
  })
]
to_selected_asset entry (incompatible reason) = none
to_selected_asset entry (needs_client_update reason) = none
