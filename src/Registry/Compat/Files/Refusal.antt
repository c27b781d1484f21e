-- ===== src/Registry/Compat/Files/Refusal.antt =====
-- registry/compat.rs: when `select_files` refuses a model.
use super_engine.Prelude.{
  ◌≡◌, refl, ap, ◌∙◌, Bool, ◌&&◌, ◌||◌, Option, none, some, is_some, List, [], ◌∷◌, nat_eq,
  bytes_eq, Text, all, contains, Bool-cases, inl, inr, arith, Result, ok, err, is_ok,
}
use super_engine.Registry.Host.{Host}
use super_engine.Registry.Ranking.{Score, best_of}
use super_engine.Registry.Compat.{FileSpec}
use super_engine.Registry.Compat.Files.{
  score_file, Unusable, variants_of, settle, select_from, select_files, select_from-old,
  select_from-new,
}

-- A destination that does not stand in the way: some variant can be used, or all are optional.
abbrev pub acceptable : Host → List FileSpec → Text → Bool
acceptable host files d =
    is_some (best_of (score_file host) (variants_of files d))
    || all (λ f. f.optional) (variants_of files d)

all_cong :
    (p q : FileSpec → Bool) (files : List FileSpec)
    → ((f : FileSpec) → p f ≡ q f)
    → all p files ≡ all q files
all_cong p q [] h = refl
all_cong p q (f ∷ files) h = ground (arith, h f, all_cong p q files h)

settle-is_ok :
    (d : Text) (variants : List FileSpec) (best : Option (Score × FileSpec))
    (rest : Result (List FileSpec) Unusable)
    → is_ok (settle d variants best rest)
      ≡ ((is_some best || all (λ f. f.optional) variants) && is_ok rest)
settle-is_ok d variants (some (s, file)) (ok rest) = refl
settle-is_ok d variants (some (s, file)) (err e) = refl
settle-is_ok d variants none rest = ground arith

loop-is_ok :
    (host : Host) (files : List FileSpec) (resolved : List Text) (entries : List FileSpec)
    → is_ok (select_from host files resolved entries)
      ≡ all (λ f. contains resolved f.destination || acceptable host files f.destination) entries
loop-is_ok host files resolved [] = unfold select_from in refl
loop-is_ok host files resolved (entry ∷ more) =
    elim (Bool-cases (contains resolved entry.destination)) [
      | inl old ↦
          ap is_ok (select_from-old host files resolved entry more old)
          ∙ loop-is_ok host files resolved more
          ∙ ground (arith, old)
      | inr new ↦
          let d = entry.destination in
          let here =
            ap is_ok (select_from-new host files resolved entry more new)
            ∙ settle-is_ok d (variants_of files d) (best_of (score_file host) (variants_of files d))
                (select_from host files (d ∷ resolved) more) in
          let later = loop-is_ok host files (d ∷ resolved) more in
          here ∙ elim (Bool-cases (acceptable host files d)) [
            | inr bad ↦ ground (arith, new, bad)
            | inl fine ↦ rw fine (
                later
                ∙ all_cong
                    (λ f.
                      contains (d ∷ resolved) f.destination || acceptable host files f.destination)
                    (λ f. contains resolved f.destination || acceptable host files f.destination)
                    more (λ f. ground (arith, fine, bytes_eq.beq_iff d f.destination))
                ∙ ground (arith, new, fine))
          ]
    ]

-- `select_files` succeeds exactly if the destination of every file has a variant that the host can
-- use, or only optional ones.
pub select_files-is_ok :
    (host : Host) (files : List FileSpec)
    → is_ok (select_files host files) ≡ all (λ f. acceptable host files f.destination) files
unfolding select_files
select_files-is_ok host files = loop-is_ok host files [] files
