-- ===== src/Spec/Manifest/Files/Agree.antt =====
-- super-engine-spec/src/manifest.rs: what a model whose files `validate_files` accepts is known to
-- keep, and what that gives the choice of files in registry/compat.rs.
use super_engine.Prelude.{
  ◌≡◌, refl, sym, ap, subst, ◌∙◌, Bool, true, false, not, ◌||◌, some, List, [], ◌∷◌, ◌==◌, nat_eq,
  bytes_eq, Text, any, find, find-none, Member, All, Option-cases, Bool-cases, inl, inr, arith, ok,
  Result-cases, lookup, insert, contains_key, lookup-insert, All-Member,
}
use super_engine.Registry.Host.{Host}
use super_engine.Registry.Compat.{FileSpec}
use super_engine.Registry.Compat.Files.{goes_to}
use super_engine.Spec.Manifest.{ModelEntry}
use super_engine.Spec.Manifest.Files.{
  record_files, record_files-cons, selector_error-IsCoherent, IsCoherent, validate_files, disagrees,
}

-- A file whose `optional` is the one recorded for its destination.
abbrev IsRecorded : List (Text × Bool) → FileSpec → Type 0
IsRecorded end file = lookup file.destination end ≡ some file.optional

disagrees-some :
    (first optional : Bool) → disagrees (some first) optional ≡ false → first ≡ optional
disagrees-some true true h = refl
disagrees-some true false h = cc
disagrees-some false true h = cc
disagrees-some false false h = refl

-- The first answer for a destination stays.
keeps_recorded :
    (model : Text) (seen end : List (Text × Bool)) (files : List FileSpec) (d : Text) (b : Bool)
    → record_files model seen files ≡ ok end
    → lookup d seen ≡ some b
    → lookup d end ≡ some b
keeps_recorded model seen end [] d b h l = unfold record_files in ground arith
keeps_recorded model seen end (file ∷ files) d b h l =
    let (fine, agree, more) = record_files-cons model seen end file files h in
    let later =
      keeps_recorded model (insert file.destination file.optional seen) end files d b more in
    later (
      lookup-insert file.destination d file.optional seen
      ∙ elim (Bool-cases (file.destination == d)) [
        | inr other ↦ rw other l
        | inl same ↦
            let e = (bytes_eq.beq_iff file.destination d).0 same in
            let known = subst (λ k. disagrees (lookup k seen) file.optional ≡ false) e agree in
            rw same (
              ap some (
                sym (
                  disagrees-some b file.optional
                    (subst (λ o. disagrees o file.optional ≡ false) l known))))
      ])

record_files-IsRecorded :
    (model : Text) (seen end : List (Text × Bool)) (files : List FileSpec)
    → record_files model seen files ≡ ok end
    → All (IsRecorded end) files × All IsCoherent files
record_files-IsRecorded model seen end [] h = (tt, tt)
record_files-IsRecorded model seen end (file ∷ files) h =
    let (fine, agree, more) = record_files-cons model seen end file files h in
    let seen' = insert file.destination file.optional seen in
    let (recorded, coherent) = record_files-IsRecorded model seen' end files more in
    let here = keeps_recorded model seen' end files file.destination file.optional more (
      ground (
        arith,
        lookup-insert file.destination file.destination file.optional seen,
        bytes_eq.beq_iff file.destination file.destination,
      )) in
    ((here, recorded), (selector_error-IsCoherent model file fine, coherent))

contains_key-record_files :
    (model : Text) (seen end : List (Text × Bool)) (files : List FileSpec) (d : Text)
    → record_files model seen files ≡ ok end
    → contains_key d end ≡ (contains_key d seen || any (goes_to d) files)
contains_key-record_files model seen end [] d h = unfold record_files in ground arith
contains_key-record_files model seen end (file ∷ files) d h =
    let (fine, agree, more) = record_files-cons model seen end file files h in
    let later =
      contains_key-record_files model (insert file.destination file.optional seen) end files d
        more in
    let added = lookup-insert file.destination d file.optional seen in ground (arith, later, added)

All-map : (P Q : Text → Type 0) (xs : List Text) → ((x : Text) → P x → Q x) → All P xs → All Q xs
All-map P Q [] f h = tt
All-map P Q (x ∷ xs) f (p, h) = (f x p, All-map P Q xs f h)

-- The map at the end of an accepted model's loop, and what it holds.
validate_files-ok :
    {M : Type 0} (model : ModelEntry M)
    → validate_files model ≡ ok tt
    → (end : List (Text × Bool)) × (record_files model.name [] model.files ≡ ok end)
      × All (λ p. contains_key p end ≡ true) model.prepare_files
unfolding validate_files
validate_files-ok model h = elim (Result-cases (record_files model.name [] model.files)) [
  | inr (e, bad) ↦ absurd (ground (arith, bad))
  | inl (end, good) ↦
      elim (Option-cases (find (λ file. not (contains_key file end)) model.prepare_files)) [
        | inr (file, missing) ↦ absurd (ground (arith, good, missing))
        | inl none_missing ↦ (
          end,
          good,
          All-map (λ p. not (contains_key p end) ≡ false) (λ p. contains_key p end ≡ true)
              model.prepare_files (λ p k. ground arith)
              (find-none (λ file. not (contains_key file end)) model.prepare_files none_missing),
        )
      ]
]

-- What holds of the files of a model.
abbrev pub AgreeOnOptional : List FileSpec → Type 0
AgreeOnOptional files =
    (f g : FileSpec)
    → Member f files
    → Member g files
    → f.destination ≡ g.destination
    → f.optional ≡ g.optional

-- Of a model whose files `validate_files` accepts, every file has a safe destination and names only
-- families that it declares, files with one destination agree on `optional`, and every prepare file
-- is the destination of a file of the model.
pub validate_files_sound :
    {M : Type 0} (model : ModelEntry M)
    → validate_files model ≡ ok tt
    → All IsCoherent model.files
      × AgreeOnOptional model.files
      × All (λ p. any (goes_to p) model.files ≡ true) model.prepare_files
validate_files_sound model h =
    let (end, loop, prepared) = validate_files-ok model h in
    let (recorded, coherent) = record_files-IsRecorded model.name [] end model.files loop in
    (
      coherent,
      (λ f g m n e.
          let of_f = All-Member (IsRecorded end) model.files f recorded m in
          let of_g = All-Member (IsRecorded end) model.files g recorded n in
          ground (arith, of_f, of_g, e)),
      All-map (λ p. contains_key p end ≡ true) (λ p. any (goes_to p) model.files ≡ true)
          model.prepare_files
          (λ p k.
            unfold lookup in
            ground (arith, contains_key-record_files model.name [] end model.files p loop))
          prepared,
    )
