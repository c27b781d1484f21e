-- ===== src/Install/Survivors.antt =====
-- registry/carry_over.rs: `declared` and `survivors`, the files that outlive a replacement.
pub mod Offers
use super_engine.Prelude.{
  ℕ, ◌≡◌, refl, Bool, true, false, not, ◌&&◌, ◌||◌, Option, none, some, List, [], ◌∷◌, ◌++◌, ◌==◌,
  bytes_eq, Eq, list_eq_of, option_eq_of, if◌then◌else◌, Text, is_empty, all, any, keep, map,
  lookup, insert,
}
use super_engine.Auth.Consent.{sort}
use super_engine.Registry.Compat.{FileSpec}
use super_engine.Registry.Compat.Files.{variants_of}
use super_engine.Spec.Manifest.{ModelEntry}

-- The URLs by destination of one model, in manifest order.
abbrev pub Urls : Type 0
Urls = List (Text × List Text)

-- A destination's URLs, or none of them where two models differ.
abbrev pub Declared : Type 0
Declared = List (Text × Option (List Text))

abbrev pub or_empty : Option (List Text) → List Text
or_empty none = []
or_empty (some urls) = urls

unfoldable pub per_model : Urls → List FileSpec → Urls
unfolding lookup insert
per_model table [] = table
per_model table (f ∷ files) =
    per_model (insert f.destination (or_empty (lookup f.destination table) ++ f.url ∷ []) table)
      files

abbrev pub urls_eq : Eq (List Text)
urls_eq = list_eq_of bytes_eq

abbrev pub same_slot : Option (List Text) → Option (List Text) → Bool
same_slot s t = (option_eq_of urls_eq).beq s t

-- What the entry of a destination becomes.
abbrev pub joined : Option (Option (List Text)) → List Text → Option (List Text)
joined none urls = some urls
joined (some slot) urls = if same_slot slot (some urls) then slot else none

unfoldable pub merge : Declared → Urls → Declared
unfolding lookup insert
merge out [] = out
merge out ((dest, urls) ∷ more) = merge (insert dest (joined (lookup dest out) urls) out) more

unfoldable pub declared_from : {M : Type 0} → Declared → List (ModelEntry M) → Declared
unfolding per_model merge
declared_from out [] = out
declared_from out (model ∷ models) = declared_from (merge out (per_model [] model.files)) models

unfoldable pub declared : {M : Type 0} → List (ModelEntry M) → Declared
unfolding declared_from
declared models = declared_from [] models

-- Whether an entry of the new manifest is the old one's too.
abbrev pub survives : Declared → Option (List Text) → Option (Option (List Text)) → Bool
survives old none there = false
survives old (some urls) none = false
survives old (some urls) (some slot) = same_slot slot (some urls)

unfoldable pub surviving : Declared → Declared → List Text
unfolding lookup
surviving old [] = []
surviving old ((dest, urls) ∷ more) =
    let rest = surviving old more in
    if survives old urls (lookup dest old) then dest ∷ rest else rest

unfoldable pub survivors : {M : Type 0} → (old new : List (ModelEntry M)) → List Text
unfolding declared surviving sort
survivors old new = sort (surviving (declared old) (declared new))
