-- ===== src/Registry/Compat/Files.antt =====
-- registry/compat.rs: `select_files`, the model files to download.
pub mod Refusal
use super_engine.Prelude.{
  ℕ, ◌≡◌, refl, ap, sym, subst, ◌∙◌, Bool, true, false, not, ◌&&◌, ◌||◌, Option, none, some, List,
  [], ◌∷◌, ◌++◌, ◌==◌, nat_eq, bytes_eq, if◌then◌else◌, Text, any, all, keep, contains, Member, All,
  Option-cases, Bool-cases, inl, inr, ◌⊎◌, arith, is_empty, Result, ok, err, Result-cases,
  contains_iff,
}
use super_engine.Registry.Host.{Host}
use super_engine.Registry.Ranking.{
  Score, scored, best_of, best_of-All, FirstBest, best_of-FirstBest, best_of-some,
}
use super_engine.Registry.Compat.{FileSpec, from_file, score, ranked}

abbrev pub is_conditional : FileSpec → Bool
is_conditional f = not (is_empty f.accel)

unfoldable pub score_file : Host → FileSpec → Option Score
score_file host f = if is_conditional f then score host (from_file f) else some (ranked 0)

-- The refusal: the destination, and the variants that it lists.
pub data Unusable : Type 0 where
  unusable : (destination : Text) (variants : List FileSpec) → Unusable

abbrev pub goes_to : Text → FileSpec → Bool
goes_to d f = f.destination == d

abbrev pub variants_of : List FileSpec → Text → List FileSpec
variants_of files d = keep (goes_to d) files

-- What settles one destination, in front of what settles the rest.
abbrev pub settle :
    Text
    → List FileSpec
    → Option (Score × FileSpec)
    → Result (List FileSpec) Unusable
    → Result (List FileSpec) Unusable
settle d variants (some (s, file)) (ok rest) = ok (file ∷ rest)
settle d variants (some (s, file)) (err e) = err e
settle d variants none rest =
    if all (λ f. f.optional) variants then rest else err (unusable d variants)

unfoldable pub select_from :
    Host
    → (files : List FileSpec) → (resolved : List Text) → List FileSpec
    → Result (List FileSpec) Unusable
select_from host files resolved [] = ok []
select_from host files resolved (entry ∷ more) =
    let d = entry.destination in
    let settled = contains resolved d in
    let rest = select_from host files (if settled then resolved else d ∷ resolved) more in
    if settled
    then rest
    else settle d (variants_of files d) (best_of (score_file host) (variants_of files d)) rest

unfoldable pub select_files : Host → List FileSpec → Result (List FileSpec) Unusable
unfolding select_from
select_files host files = select_from host files [] files

abbrev picked : Option (Score × FileSpec) → List FileSpec
picked none = []
picked (some (s, file)) = file ∷ []

-- The file of a destination: the best variant, or nothing if none can be used.
abbrev file_for : Host → List FileSpec → Text → List FileSpec
file_for host files d = picked (best_of (score_file host) (variants_of files d))

All-go_to : (d : Text) (files : List FileSpec) → All (λ f. goes_to d f ≡ true) (variants_of files d)
All-go_to d [] = tt
All-go_to d (f ∷ files) = elim (Bool-cases (goes_to d f)) [
  | inl e ↦ rw e (e, All-go_to d files)
  | inr e ↦ rw e (All-go_to d files)
]

best_goes_to :
    (host : Host) (files : List FileSpec) (d : Text) (s : Score) (file : FileSpec)
    → best_of (score_file host) (variants_of files d) ≡ some (s, file)
    → goes_to d file ≡ true
best_goes_to host files d s file e =
    best_of-All (score_file host) (λ f. goes_to d f ≡ true) (variants_of files d) s file
      (All-go_to d files) e

pub select_from-old :
    (host : Host) (files : List FileSpec) (resolved : List Text) (entry : FileSpec)
    (more : List FileSpec)
    → contains resolved entry.destination ≡ true
    → select_from host files resolved (entry ∷ more) ≡ select_from host files resolved more
unfolding select_from
select_from-old host files resolved entry more old = rw old refl

pub select_from-new :
    (host : Host) (files : List FileSpec) (resolved : List Text) (entry : FileSpec)
    (more : List FileSpec)
    → contains resolved entry.destination ≡ false
    → select_from host files resolved (entry ∷ more)
      ≡ settle entry.destination
          (variants_of files entry.destination)
          (best_of (score_file host) (variants_of files entry.destination))
          (select_from host files (entry.destination ∷ resolved) more)
unfolding select_from
select_from-new host files resolved entry more new = rw new refl

settle-ok :
    (d : Text) (variants : List FileSpec) (best : Option (Score × FileSpec))
    (rest : Result (List FileSpec) Unusable) (chosen : List FileSpec)
    → settle d variants best rest ≡ ok chosen
    → (out : List FileSpec) × (rest ≡ ok out) × (chosen ≡ picked best ++ out)
settle-ok d variants (some (s, file)) (ok rest) chosen h = (rest, refl, ground arith)
settle-ok d variants (some (s, file)) (err e) chosen h = absurd (ground arith)
settle-ok d variants none (ok rest) chosen h = (rest, refl, ground arith)
settle-ok d variants none (err e) chosen h = absurd (ground arith)

keep-picked :
    (host : Host) (files : List FileSpec) (d' d : Text) (out : List FileSpec)
    → keep (goes_to d) (picked (best_of (score_file host) (variants_of files d')) ++ out)
      ≡ (if d' == d then file_for host files d else []) ++ keep (goes_to d) out
keep-picked host files d' d out =
    elim (Option-cases (best_of (score_file host) (variants_of files d'))) [
      | inl e ↦ ground (arith, bytes_eq.beq_iff d' d)
      | inr ((s, file), e) ↦ ground (
        arith,
        best_goes_to host files d' s file e,
        bytes_eq.beq_iff d' d,
        bytes_eq.beq_iff file.destination d',
        bytes_eq.beq_iff file.destination d,
      )
    ]

file_for-append_nil :
    (host : Host) (files : List FileSpec) (d : Text)
    → file_for host files d ++ [] ≡ file_for host files d
file_for-append_nil host files d = ground arith

-- What the loop has chosen for a destination, by whether it was settled before.
chosen_for :
    (host : Host) (files : List FileSpec) (resolved : List Text) (entries chosen : List FileSpec)
    (d : Text)
    → select_from host files resolved entries ≡ ok chosen
    → keep (goes_to d) chosen ≡ (
        if contains resolved d
        then []
        else if any (goes_to d) entries
        then file_for host files d
        else [])
chosen_for host files resolved [] chosen d h = unfold select_from in ground arith
chosen_for host files resolved (entry ∷ more) chosen d h =
    elim (Bool-cases (contains resolved entry.destination)) [
      | inl old ↦
          let before =
            chosen_for host files resolved more chosen d
              (sym (select_from-old host files resolved entry more old) ∙ h) in
          ground (arith, before, bytes_eq.beq_iff entry.destination d)
      | inr new ↦
          let (out, e, c) =
            settle-ok entry.destination (variants_of files entry.destination)
              (best_of (score_file host) (variants_of files entry.destination))
              (select_from host files (entry.destination ∷ resolved) more) chosen
              (sym (select_from-new host files resolved entry more new) ∙ h) in
          let after = chosen_for host files (entry.destination ∷ resolved) more out d e in
          ap (keep (goes_to d)) c
          ∙ keep-picked host files entry.destination d out
          ∙ ground
              (arith, after, bytes_eq.beq_iff entry.destination d, file_for-append_nil host files d)
    ]

keep-none :
    (d : Text) (files : List FileSpec) → any (goes_to d) files ≡ false → variants_of files d ≡ []
keep-none d [] h = refl
keep-none d (f ∷ files) h = ground (arith, keep-none d files)

selected_for :
    (host : Host) (files chosen : List FileSpec) (d : Text)
    → select_files host files ≡ ok chosen
    → keep (goes_to d) chosen ≡ file_for host files d
unfolding select_files scored
selected_for host files chosen d h =
    let c = chosen_for host files [] files chosen d h in ground (arith, c, keep-none d files)

-- What may be chosen of the variants of a destination: none, of which none suits the host, or one, a
-- variant with no better one after it and none as good before it.
abbrev pub IsChoice : Host → List FileSpec → List FileSpec → Type 0
IsChoice host variants [] = (f : FileSpec) → Member f variants → score_file host f ≡ none
IsChoice host variants (file ∷ []) = (s : Score) × FirstBest (score_file host) s file variants
IsChoice host variants (file ∷ f ∷ fs) = ⊥

unlike : (r : Score × FileSpec) → none ≡ some r → ⊥
unlike r h = cc

file_for-IsChoice :
    (host : Host) (files : List FileSpec) (d : Text)
    → IsChoice host (variants_of files d) (file_for host files d)
file_for-IsChoice host files d =
    let variants = variants_of files d in
    let goal = λ (best : Option (Score × FileSpec)). IsChoice host variants (picked best) in
    elim (Option-cases (best_of (score_file host) variants)) [
      | inr ((s, file), e) ↦
          subst goal (sym e) (s, best_of-FirstBest (score_file host) variants s file e)
      | inl e ↦ subst goal (sym e) (λ f m. elim (Option-cases (score_file host f)) [
        | inl unfit ↦ unfit
        | inr (t, fit) ↦
            let (r, k) = best_of-some (score_file host) variants f t m fit in
            absurd (unlike r (sym e ∙ k))
      ])
    ]

-- Where `select_files` succeeds, it chooses for each destination exactly one of its variants, the
-- best by its score on the host and the first of equally good ones, or no file where none of them
-- can be used.
pub select_files-one_each :
    (host : Host) (files chosen : List FileSpec) (d : Text)
    → select_files host files ≡ ok chosen
    → IsChoice host (variants_of files d) (keep (goes_to d) chosen)
select_files-one_each host files chosen d h =
    subst (IsChoice host (variants_of files d)) (sym (selected_for host files chosen d h))
      (file_for-IsChoice host files d)
