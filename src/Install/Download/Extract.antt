-- ===== src/Install/Download/Extract.antt =====
-- registry/install.rs `extract_tarball`, and super-engine-spec/src/verify.rs `tar_entry_unsafe_reason`.
-- The archive is not changed between the two passes.
pub mod Budget
use super_engine.Prelude.{
  ℕ, Bool, true, false, ◌&&◌, ◌||◌, Option, none, some, List, [], ◌∷◌, ◌++◌, ◌==◌, nat_eq,
  if◌then◌else◌, Text, text, Result, ok, err, ltb,
}
use super_engine.Install.Download.{unpack_cap, tar_budget_step, PipelineError, io, tar_unsafe}

-- An entry that can be read: its path, if that can be, its size, and whether unpacking it works.
pub record ArchiveEntry : Type 0 where
  pub path : Option Text
  pub is_symlink : Bool
  pub size : ℕ
  pub unpacks : Bool

-- `contains("..")`
abbrev pub has_dots : Text → Bool
has_dots [] = false
has_dots (c ∷ []) = false
has_dots (c ∷ d ∷ s) = (c == b'.' && d == b'.') || has_dots (d ∷ s)

abbrev pub starts_at_root : Text → Bool
starts_at_root [] = false
starts_at_root (c ∷ s) = c == b'/'

unfoldable pub tar_entry_unsafe_reason : Text → Bool → Option Text
tar_entry_unsafe_reason path is_symlink =
    if starts_at_root path || has_dots path
    then some path
    else if is_symlink
    then some (text "symlink: " ++ path)
    else none

abbrev pub entry_error : Option ArchiveEntry → Option PipelineError
entry_error none = some io
entry_error (some e) = elim e.path [
  | none ↦ some io
  | some path ↦ elim (tar_entry_unsafe_reason path e.is_symlink) [
    | some reason ↦ some tar_unsafe
    | none ↦ none
  ]
]

-- The first pass.
unfoldable pub check_entries : List (Option ArchiveEntry) → Result Unit PipelineError
unfolding tar_entry_unsafe_reason
check_entries [] = ok tt
check_entries (e ∷ es) =
    let rest = check_entries es in elim (entry_error e) [ some bad ↦ err bad | none ↦ rest ]

abbrev pub handed :
    ArchiveEntry
    → Result Unit PipelineError × List ArchiveEntry
    → Result Unit PipelineError × List ArchiveEntry
handed e (outcome, more) = if e.unpacks then (outcome, e ∷ more) else (err io, e ∷ [])

-- The second pass: the outcome, and the entries that it gave to `unpack_in`.
unfoldable pub unpack :
    (cap total : ℕ) → List (Option ArchiveEntry) → Result Unit PipelineError × List ArchiveEntry
unfolding tar_budget_step
unpack cap total [] = (ok tt, [])
unpack cap total (none ∷ es) = (err io, [])
unpack cap total (some e ∷ es) = elim (tar_budget_step e.size total cap) [
  | err reason ↦ (err tar_unsafe, [])
  | ok t ↦ handed e (unpack cap t es)
]

abbrev pub unpack_checked :
    ℕ
    → List (Option ArchiveEntry)
    → Result Unit PipelineError
    → Result Unit PipelineError × List ArchiveEntry
unpack_checked cap es (err e) = (err e, [])
unpack_checked cap es (ok _) = unpack cap 0 es

-- `none` where the size of the file or the file itself cannot be read.
unfoldable pub extract_tarball :
    (archive_size : Option ℕ)
    → Option (List (Option ArchiveEntry))
    → Result Unit PipelineError × List ArchiveEntry
unfolding check_entries unpack unpack_cap
extract_tarball none entries = (err io, [])
extract_tarball (some size) none = (err io, [])
extract_tarball (some size) (some entries) =
    unpack_checked (unpack_cap size) entries (check_entries entries)
