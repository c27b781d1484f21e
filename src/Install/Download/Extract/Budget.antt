-- ===== src/Install/Download/Extract/Budget.antt =====
-- registry/install.rs `extract_tarball`: which archives are unpacked, and what at most is written.
use super_engine.Prelude.{
  ℕ, ◌+◌, ◌*◌, ◌^◌, ◌≤◌, ◌<◌, ◌≡◌, refl, sym, ap, subst, ◌∙◌, max, Bool, true, false, not, ◌&&◌,
  Option, none, some, List, [], ◌∷◌, nat_eq, Result, ok, err, is_ok, is_none, leb, all, All,
  Result-cases, Option-cases, Bool-cases, inl, inr, arith,
}
use super_engine.Install.Download.{
  max_u64, unpack_cap, max_tarball_entry_bytes, tar_budget_step, PipelineError, OverBudget,
  tar_unsafe,
}
use super_engine.Install.Download.Extract.{
  ArchiveEntry, has_dots, starts_at_root, tar_entry_unsafe_reason, entry_error, check_entries,
  handed, unpack, unpack_checked, extract_tarball,
}

abbrev pub sum : List ArchiveEntry → ℕ
sum [] = 0
sum (e ∷ es) = e.size + sum es

abbrev pub total_size : List (Option ArchiveEntry) → ℕ
total_size [] = 0
total_size (none ∷ es) = total_size es
total_size (some e ∷ es) = e.size + total_size es

-- An entry that can be read, is no symbolic link, and has a relative path without two dots in a row.
abbrev pub is_harmless : Option ArchiveEntry → Bool
is_harmless none = false
is_harmless (some e) = elim e.path [
  | none ↦ false
  | some path ↦ not (starts_at_root path) && not (has_dots path) && not e.is_symlink
]

-- An entry that has at most 4 GiB and can be written.
abbrev pub is_writable : Option ArchiveEntry → Bool
is_writable none = false
is_writable (some e) = leb e.size max_tarball_entry_bytes && e.unpacks

abbrev pub max_output : ℕ → ℕ
max_output archive_size = max (archive_size * 5) max_tarball_entry_bytes

entry_error-is_harmless : (e : Option ArchiveEntry) → is_none (entry_error e) ≡ is_harmless e
unfolding tar_entry_unsafe_reason
entry_error-is_harmless none = refl
entry_error-is_harmless (some e) = elim (Option-cases e.path) [
  | inl lost ↦ ground (arith, lost)
  | inr (path, at) ↦ ground (arith, at)
]

check_entries-is_ok :
    (es : List (Option ArchiveEntry)) → is_ok (check_entries es) ≡ all is_harmless es
unfolding check_entries
check_entries-is_ok [] = refl
check_entries-is_ok (e ∷ es) = elim (Option-cases (entry_error e)) [
  | inl fine ↦ ground (arith, fine, entry_error-is_harmless e, check_entries-is_ok es)
  | inr (bad, at) ↦ ground (arith, at, entry_error-is_harmless e)
]

tar_budget_step-ok :
    (size total cap t : ℕ)
    → cap < max_u64
    → tar_budget_step size total cap ≡ ok t
    → (t ≡ total + size) × (t ≤ cap) × (size ≤ max_tarball_entry_bytes)
unfolding tar_budget_step
tar_budget_step-ok size total cap t l h = ground arith

tar_budget_step-is_ok :
    (size total cap : ℕ)
    → cap < max_u64
    → is_ok (tar_budget_step size total cap)
      ≡ (leb size max_tarball_entry_bytes && leb (total + size) cap)
unfolding tar_budget_step
tar_budget_step-is_ok size total cap l = ground arith

unpack-is_ok :
    (cap total : ℕ) (es : List (Option ArchiveEntry))
    → cap < max_u64
    → total ≤ cap
    → is_ok (unpack cap total es).0 ≡ (all is_writable es && leb (total + total_size es) cap)
unfolding unpack
unpack-is_ok cap total [] l k = ground arith
unpack-is_ok cap total (none ∷ es) l k = ground arith
unpack-is_ok cap total (some e ∷ es) l k =
    let step = tar_budget_step-is_ok e.size total cap l in
    elim (Result-cases (tar_budget_step e.size total cap)) [
      | inr (reason, bad) ↦ ground (arith, bad, step)
      | inl (u, good) ↦
          let (x, y, z) = tar_budget_step-ok e.size total cap u l good in
          let rest = unpack-is_ok cap u es l y in
          elim (Bool-cases e.unpacks) [
            | inl works ↦ ground (arith, good, works, step, x, y, rest)
            | inr fails ↦ ground (arith, good, fails)
          ]
    ]

-- What is written never goes over the budgets.
abbrev pub IsBounded : ℕ → List ArchiveEntry → Type 0
IsBounded cap es = (sum es ≤ cap) × All (λ e. e.size ≤ max_tarball_entry_bytes) es

abbrev Fits : (limit total : ℕ) → List ArchiveEntry → Type 0
Fits limit total es = (total + sum es ≤ limit) × All (λ e. e.size ≤ max_tarball_entry_bytes) es

handed-Fits :
    (limit total : ℕ) (e : ArchiveEntry) (r : Result Unit PipelineError × List ArchiveEntry)
    → total + e.size ≤ limit
    → e.size ≤ max_tarball_entry_bytes
    → Fits limit (total + e.size) r.1
    → Fits limit total (handed e r).1
handed-Fits limit total e (outcome, more) k small (below, each) = elim (Bool-cases e.unpacks) [
  | inl works ↦ (ground (arith, works, below), rw works (small, each))
  | inr fails ↦ (ground (arith, fails, k), rw fails (small, tt))
]

unpack-Fits :
    (limit total : ℕ) (es : List (Option ArchiveEntry))
    → limit < max_u64
    → total ≤ limit
    → Fits limit total (unpack limit total es).1
unfolding unpack
unpack-Fits limit total [] l k = (omega arith, tt)
unpack-Fits limit total (none ∷ es) l k = (omega arith, tt)
unpack-Fits limit total (some e ∷ es) l k =
    let goal = λ (r : Result Unit PipelineError × List ArchiveEntry). Fits limit total r.1 in
    elim (Result-cases (tar_budget_step e.size total limit)) [
      | inr (reason, bad) ↦ subst goal (sym (over reason bad)) (omega arith, tt)
      | inl (u, good) ↦
          let (x, y, z) = tar_budget_step-ok e.size total limit u l good in
          subst goal (sym (within u good)) (
            handed-Fits limit total e (unpack limit u es) (omega (arith, x, y)) z
              (subst (λ t. Fits limit t (unpack limit u es).1) x (unpack-Fits limit u es l y)))
    ]
  where
    over :
        (reason : OverBudget)
        → tar_budget_step e.size total limit ≡ err reason
        → unpack limit total (some e ∷ es) ≡ (err tar_unsafe, [])
    over reason bad = ground (arith, bad)

    within :
        (u : ℕ)
        → tar_budget_step e.size total limit ≡ ok u
        → unpack limit total (some e ∷ es) ≡ handed e (unpack limit u es)
    within u good = ground (arith, good)

abbrev pub IsWithin : ℕ → List (Option ArchiveEntry) → List ArchiveEntry → Type 0
IsWithin archive_size entries [] = Unit
IsWithin archive_size entries (e ∷ es) =
    (all is_harmless entries ≡ true) × IsBounded (max_output archive_size) (e ∷ es)

IsWithin-from :
    (archive_size : ℕ) (entries : List (Option ArchiveEntry)) (es : List ArchiveEntry)
    → all is_harmless entries ≡ true
    → IsBounded (max_output archive_size) es
    → IsWithin archive_size entries es
IsWithin-from archive_size entries [] h b = tt
IsWithin-from archive_size entries (e ∷ es) h b = (h, b)

-- For an archive of less than 2 ^ 61 bytes, extraction goes through exactly if every entry can be read,
-- is no symbolic link and has a relative path without two dots in a row, every entry has at most 4 GiB
-- and can be written, and all together have at most five times the archive's size or 4 GiB, whichever
-- is more. Whatever the outcome, the entries that are written, one that fails included, are none unless
-- all entries are harmless in that sense, and keep within the same two bounds.
pub extract_tarball-exact :
    (archive_size : ℕ) (entries : List (Option ArchiveEntry))
    → archive_size < 2 ^ 61
    → (is_ok (extract_tarball (some archive_size) (some entries)).0 ≡ (
        all is_harmless entries
        && (all is_writable entries && leb (total_size entries) (max_output archive_size))))
      × IsWithin archive_size entries (extract_tarball (some archive_size) (some entries)).1
unfolding extract_tarball unpack_cap
extract_tarball-exact archive_size entries l =
    let cap = unpack_cap archive_size in
    let same : cap ≡ max_output archive_size = omega arith in
    let small : cap < max_u64 = omega arith in
    let checked = check_entries-is_ok entries in
    elim (Result-cases (check_entries entries)) [
      | inr (e, bad) ↦ (ground (arith, bad, checked), rw bad tt)
      | inl (u, good) ↦
          let harmless : all is_harmless entries ≡ true = sym checked ∙ ap is_ok good in
          let exact = unpack-is_ok cap 0 entries small (omega arith) in
          let (below, each) = unpack-Fits cap 0 entries small (omega arith) in
          (
            ap (λ r. is_ok (unpack_checked cap entries r).0) good
                ∙ exact
                ∙ ground (arith, harmless, same),
            IsWithin-from archive_size entries
                (extract_tarball (some archive_size) (some entries)).1 harmless
                (rw good (omega (arith, below, same), each)),
          )
    ]
