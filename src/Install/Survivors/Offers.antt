-- ===== src/Install/Survivors/Offers.antt =====
-- registry/carry_over.rs: `declared` and `survivors` against what the models say of a destination.
use mathlib.Core.List.{append_assoc, append-nil}
use super_engine.Prelude.{
  ◌≡◌, refl, sym, ap, subst, ◌∙◌, ◌↔◌, Bool, true, false, not, ◌&&◌, ◌||◌, Option, none, some, List,
  [], ◌∷◌, ◌++◌, ◌==◌, bytes_eq, strings_eq, if◌then◌else◌, Text, all, any, map, lookup, insert,
  lookup-insert, contains, contains_iff, Member, Bool-cases, inl, inr, arith,
}
use super_engine.Auth.Consent.Scopes.Sorting.{Member-sort}
use super_engine.Registry.Compat.{FileSpec}
use super_engine.Registry.Compat.Files.{goes_to, variants_of}
use super_engine.Spec.Manifest.{ModelEntry}
use super_engine.Install.Survivors.{
  Urls, Declared, or_empty, per_model, joined, merge, declared_from, declared, urls_eq, survives,
  surviving, survivors,
}

-- The URLs of a destination in a model, in manifest order.
abbrev pub urls_of : List FileSpec → Text → List Text
urls_of files d = map (λ f. f.url) (variants_of files d)

-- A table with one entry for each key.
abbrev IsUnique : {V : Type 0} → List (Text × V) → Type 0
IsUnique [] = Unit {0}
IsUnique ((k, v) ∷ table) = (lookup k table ≡ none) × IsUnique table

insert-IsUnique :
    {V : Type 0} (k : Text) (v : V) (table : List (Text × V))
    → IsUnique table
    → IsUnique (insert k v table)
unfolding insert
insert-IsUnique k v [] h = (unfold lookup in refl, tt)
insert-IsUnique k v ((j, old) ∷ table) (free, h) = elim (Bool-cases (j == k)) [
  | inl e ↦ rw e (subst (λ x. lookup x table ≡ none) ((bytes_eq.beq_iff j k).0 e) free, h)
  | inr e ↦ rw e (
    lookup-insert k j v table ∙ ground (arith, e, free, bytes_eq.beq_iff j k, bytes_eq.beq_iff k j),
    insert-IsUnique k v table h,
  )
]

per_model-IsUnique :
    (files : List FileSpec) (table : Urls) → IsUnique table → IsUnique (per_model table files)
unfolding per_model
per_model-IsUnique [] table h = h
per_model-IsUnique (f ∷ files) table h =
    per_model-IsUnique files _ (insert-IsUnique f.destination _ table h)

no_urls : (files : List FileSpec) (d : Text) → any (goes_to d) files ≡ false → urls_of files d ≡ []
no_urls [] d h = refl
no_urls (f ∷ files) d h = ground (arith, no_urls files d)

either_way :
    (b : Bool) (xs ys : List Text)
    → (b ≡ false → ys ≡ [])
    → (if b then some (xs ++ ys) else some xs) ≡ some (xs ++ ys)
either_way true xs ys h = refl
either_way false xs ys h = ap some (sym (ap (λ l. xs ++ l) (h refl) ∙ append-nil xs))

-- The table of a model has, for each destination, the URLs of its files.
lookup-per_model :
    (files : List FileSpec) (table : Urls) (d : Text)
    → lookup d (per_model table files) ≡ (
        if any (goes_to d) files
        then some (or_empty (lookup d table) ++ urls_of files d)
        else lookup d table)
unfolding per_model
lookup-per_model [] table d = refl
lookup-per_model (f ∷ files) table d =
    let urls = or_empty (lookup f.destination table) ++ f.url ∷ [] in
    let later = lookup-per_model files (insert f.destination urls table) d in
    let here = lookup-insert f.destination d urls table in
    let flat = append_assoc (or_empty (lookup d table)) (f.url ∷ []) (urls_of files d) in
    elim (Bool-cases (goes_to d f)) [
      | inl e ↦
          let same = ap (λ k. or_empty (lookup k table)) ((bytes_eq.beq_iff f.destination d).0 e) in
          let seen : lookup d (insert f.destination urls table) ≡ some urls = here ∙ rw e refl in
          let moved = ap (λ l. l ++ f.url ∷ []) same in
          let whole = ap (λ l. l ++ urls_of files d) moved ∙ flat in
          let body =
            either_way (any (goes_to d) files) urls (urls_of files d) (no_urls files d)
            ∙ ap some whole in
          rw (later, seen, e) body
      | inr e ↦ rw (later, here, e) refl
    ]

-- What a model makes of the entry of a destination.
abbrev entered : Option (Option (List Text)) → Option (List Text) → Option (Option (List Text))
entered slot none = slot
entered slot (some urls) = some (joined slot urls)

lookup-merge :
    (entries : Urls) (out : Declared) (d : Text)
    → IsUnique entries
    → lookup d (merge out entries) ≡ entered (lookup d out) (lookup d entries)
unfolding merge
lookup-merge [] out d h = unfold lookup in refl
lookup-merge ((dest, urls) ∷ more) out d (free, h) =
    let slot = joined (lookup dest out) urls in
    let later = lookup-merge more (insert dest slot out) d h in
    let here = lookup-insert dest d slot out in
    let first : lookup d ((dest, urls) ∷ more) ≡ (if dest == d then some urls else lookup d more) =
      unfold lookup in refl in
    later ∙ elim (Bool-cases (dest == d)) [
      | inr e ↦ rw (first, here, e) refl
      | inl e ↦
          let same = (bytes_eq.beq_iff dest d).0 e in
          let gone = subst (λ k. lookup k more ≡ none) same free in
          rw (first, here, e, gone) (ap (λ k. some (joined (lookup k out) urls)) same)
    ]

-- Whether an entry has these URLs.
abbrev pub has_urls : Option (Option (List Text)) → List Text → Bool
has_urls (some (some v)) urls = urls_eq.beq v urls
has_urls _ urls = false

module _ {M : Type 0} (d : Text) where
  abbrev slot_after : Option (Option (List Text)) → ModelEntry M → Option (Option (List Text))
  slot_after slot m =
      if any (goes_to d) m.files then some (joined slot (urls_of m.files d)) else slot

  abbrev slot_of : Option (Option (List Text)) → List (ModelEntry M) → Option (Option (List Text))
  slot_of slot [] = slot
  slot_of slot (m ∷ models) = slot_of (slot_after slot m) models

  lookup-model :
      (m : ModelEntry M) (out : Declared)
      → lookup d (merge out (per_model [] m.files)) ≡ slot_after (lookup d out) m
  lookup-model m out =
      let unique = per_model-IsUnique m.files [] tt in
      let entries : lookup d (per_model [] m.files)
          ≡ (if any (goes_to d) m.files then some (urls_of m.files d) else none) =
        lookup-per_model m.files [] d ∙ unfold lookup in refl in
      lookup-merge (per_model [] m.files) out d unique
      ∙ ap (entered (lookup d out)) entries
      ∙ ground arith

  lookup-declared_from :
      (models : List (ModelEntry M)) (out : Declared)
      → lookup d (declared_from out models) ≡ slot_of (lookup d out) models
  unfolding declared_from
  lookup-declared_from [] out = refl
  lookup-declared_from (m ∷ models) out =
      lookup-declared_from models (merge out (per_model [] m.files))
      ∙ ap (λ slot. slot_of slot models) (lookup-model m out)

  -- Every model that declares the destination declares it with these URLs.
  abbrev agree : List Text → List (ModelEntry M) → Bool
  agree urls models =
      all (λ m. not (any (goes_to d) m.files) || urls_eq.beq (urls_of m.files d) urls) models

  abbrev declares_it : List (ModelEntry M) → Bool
  declares_it models = any (λ m. any (goes_to d) m.files) models

  abbrev pub offers : List (ModelEntry M) → List Text → Bool
  offers models urls = agree urls models && declares_it models

  ambiguous :
      (models : List (ModelEntry M)) (urls : List Text)
      → has_urls (slot_of (some none) models) urls ≡ false
  ambiguous [] urls = refl
  ambiguous (m ∷ models) urls = elim (Bool-cases (any (goes_to d) m.files)) [
    | inl e ↦ rw e (ambiguous models urls)
    | inr e ↦ rw e (ambiguous models urls)
  ]

  settled :
      (models : List (ModelEntry M)) (v urls : List Text)
      → has_urls (slot_of (some (some v)) models) urls ≡ (urls_eq.beq v urls && agree urls models)
  settled [] v urls = ground arith
  settled (m ∷ models) v urls = elim (Bool-cases (any (goes_to d) m.files)) [
    | inr e ↦ rw e (settled models v urls)
    | inl e ↦ elim (Bool-cases (urls_eq.beq v (urls_of m.files d))) [
      | inl same ↦
          let eq = (urls_eq.beq_iff v (urls_of m.files d)).0 same in
          rw (e, same)
            (settled models v urls
              ∙ ground
                  (arith, eq, urls_eq.beq_iff v urls, urls_eq.beq_iff (urls_of m.files d) urls))
      | inr other ↦
          rw (e, other)
            (ambiguous models urls
              ∙ ground (
                arith,
                other,
                urls_eq.beq_iff v urls,
                urls_eq.beq_iff (urls_of m.files d) urls,
                urls_eq.beq_iff v (urls_of m.files d),
              ))
    ]
  ]

  fresh :
      (models : List (ModelEntry M)) (urls : List Text)
      → has_urls (slot_of none models) urls ≡ offers models urls
  fresh [] urls = refl
  fresh (m ∷ models) urls = elim (Bool-cases (any (goes_to d) m.files)) [
    | inr e ↦ rw e (fresh models urls)
    | inl e ↦ rw e (settled models (urls_of m.files d) urls ∙ ground (arith, e))
  ]

merge-IsUnique : (entries : Urls) (out : Declared) → IsUnique out → IsUnique (merge out entries)
unfolding merge
merge-IsUnique [] out h = h
merge-IsUnique ((dest, urls) ∷ more) out h = merge-IsUnique more _ (insert-IsUnique dest _ out h)

declared_from-IsUnique :
    {M : Type 0} (models : List (ModelEntry M)) (out : Declared)
    → IsUnique out
    → IsUnique (declared_from out models)
unfolding declared_from
declared_from-IsUnique [] out h = h
declared_from-IsUnique (m ∷ models) out h =
    declared_from-IsUnique models _ (merge-IsUnique (per_model [] m.files) out h)

-- Whether a destination survives, from its entries in the old table and in the new one.
abbrev outlives : Option (Option (List Text)) → Option (Option (List Text)) → Bool
outlives there none = false
outlives there (some none) = false
outlives there (some (some urls)) = has_urls there urls

survives-has_urls :
    (old : Declared) (slot : Option (List Text)) (there : Option (Option (List Text)))
    → survives old slot there ≡ outlives there (some slot)
survives-has_urls old none there = refl
survives-has_urls old (some urls) none = refl
survives-has_urls old (some urls) (some none) = refl
survives-has_urls old (some urls) (some (some v)) = refl

contains-surviving :
    (old table : Declared) (d : Text)
    → IsUnique table
    → contains (surviving old table) d ≡ outlives (lookup d old) (lookup d table)
unfolding surviving
contains-surviving old [] d h = unfold lookup in refl
contains-surviving old ((dest, slot) ∷ more) d (free, h) =
    let later = contains-surviving old more d h in
    let here = survives-has_urls old slot (lookup dest old) in
    let first : lookup d ((dest, slot) ∷ more) ≡ (if dest == d then some slot else lookup d more) =
      unfold lookup in refl in
    elim (Bool-cases (dest == d)) [
      | inr e ↦ rw (first, e) (ground (arith, e, later))
      | inl e ↦
          let same = (bytes_eq.beq_iff dest d).0 e in
          let gone = subst (λ k. lookup k more ≡ none) same free in
          let moved = ap (λ k. outlives (lookup k old) (some slot)) same in
          let rest : contains (surviving old more) d ≡ false =
            later ∙ ap (outlives (lookup d old)) gone in
          rw (first, e) (ground (arith, e, rest, here, moved))
    ]

outlives-both :
    (there here : Option (Option (List Text)))
    → outlives there here ≡ true
    → (urls : List Text) × (has_urls there urls ≡ true) × (has_urls here urls ≡ true)
outlives-both there none h = cc
outlives-both there (some none) h = cc
outlives-both there (some (some urls)) h = (urls, h, (urls_eq.beq_iff urls urls).1 refl)

both-outlives :
    (there here : Option (Option (List Text))) (urls : List Text)
    → has_urls there urls ≡ true
    → has_urls here urls ≡ true
    → outlives there here ≡ true
both-outlives there none urls h k = cc
both-outlives there (some none) urls h k = cc
both-outlives there (some (some v)) urls h k =
    subst (λ u. has_urls there u ≡ true) (sym ((urls_eq.beq_iff v urls).0 k)) h

has_urls-declared :
    {M : Type 0} (models : List (ModelEntry M)) (d : Text) (urls : List Text)
    → has_urls (lookup d (declared models)) urls ≡ offers d models urls
unfolding declared
has_urls-declared models d urls =
    ap (λ s. has_urls s urls) (lookup-declared_from d models [])
    ∙ unfold lookup in fresh d models urls

-- A destination survives the replacement of one manifest by another exactly if there are URLs that
-- each of the two offers for it: some model declares it, and every model that does declares it with
-- these URLs, in this order.
pub survivors_iff :
    {M : Type 0} (old new : List (ModelEntry M)) (d : Text)
    → Member d (survivors old new)
      ↔ ((urls : List Text) × (offers d old urls ≡ true) × (offers d new urls ≡ true))
unfolding survivors
survivors_iff old new d =
    let table =
      contains-surviving (declared old) (declared new) d
        (unfold declared in declared_from-IsUnique new [] tt) in
    let kept = surviving (declared old) (declared new) in
    (
      (λ m.
          let c = (contains_iff kept d).1 ((Member-sort d kept).0 m) in
          let (urls, there, here) =
            outlives-both (lookup d (declared old)) (lookup d (declared new)) (sym table ∙ c) in
          (
            urls,
            sym (has_urls-declared old d urls) ∙ there,
            sym (has_urls-declared new d urls) ∙ here,
          )),
      (λ (urls, there, here). (Member-sort d kept).1 (
          (contains_iff kept d).0 (
            table
            ∙ both-outlives (lookup d (declared old)) (lookup d (declared new)) urls
                (has_urls-declared old d urls ∙ there) (has_urls-declared new d urls ∙ here)))),
    )
