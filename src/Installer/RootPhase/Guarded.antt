-- ===== src/Installer/RootPhase/Guarded.antt =====
-- root_phase.rs: what the root phase makes sure of before each change of the file system.
pub mod Validates
pub mod Applies
pub mod Runs
use super_engine.Prelude.{
  ℕ, ◌≡◌, ◌⊎◌, ◌↔◌, refl, sym, ap, subst, ◌∙◌, Bool, true, false, not, ◌&&◌, ◌||◌, Option, none,
  some, List, [], ◌∷◌, ◌++◌, ◌==◌, nat_eq, bytes_eq, list_eq_of, Text, text, Result, ok, err,
  if◌then◌else◌, Member, All, All-Member, Bool-cases, Option-cases, inl, inr, arith,
}
use super_engine.Installer.RootPhase.{
  located, FilePath, components, has_parent_dir, is_absolute, parent_of, path_beq, ManifestEntry,
  Manifest, Failure, Event, resolved, existed, statted, made_dirs, removed, copied, chmodded,
  renamed, measured, read, refreshed, Trace, Os, M, bound, ◌>>=◌, ◌>>◌, fail, answer, done, require,
  act, ask, in_roots, validate_dest, special_bits, validate_mode, real_match, canonicalized,
  same_file, self_exe, is_self_exe, is_staged, validate_source, same_dir,
  ensure_no_symlinked_ancestor, remove_file, try_remove, clean_up, put_file, tmp_name, written,
  install_in, install_entry, unlink_as, unlink_below, unlink, remove_replaced, each, validate_entry,
  apply_manifest, not_absolute, parent_component, outside_roots, outside_staging, special_mode,
  symlinked, not_made, not_copied, not_chmodded, not_renamed, not_removed, not_statted,
  is_directory, no_parent,
}

-- The text begins with that of a root.
abbrev pub IsUnder : List Text → Text → Type 0
IsUnder roots d = (root : Text) × (rest : Text) × Member root roots × (d ≡ root ++ rest)

-- Absolute, without `..`, and beginning with the text of a root.
abbrev pub IsDest : List Text → Text → Type 0
IsDest roots d = (is_absolute d ≡ true) × (has_parent_dir d ≡ false) × IsUnder roots d

-- Every event of one trace is in another.
abbrev pub Extends : Trace → Trace → Type 0
Extends h k = (e : Event) → Member e h → Member e k

-- What a run of the root phase works on.
pub record Phase : Type 0 where
  pub os : Os
  pub pid : Text
  pub manifest : Manifest
  pub roots : List Text
  pub staging_root : FilePath

module _ (phase : Phase) where
  -- A source that may be copied: in the staging directory, or the file that runs.
  abbrev pub IsSource : Trace → Text → Type 0
  IsSource h s =
      (has_parent_dir s ≡ false)
      × ((is_staged phase.os s phase.staging_root ≡ true)
          ⊎ ((exe : FilePath) × (real : FilePath) × (phase.os.current_exe ≡ some exe)
              × Member (resolved (located s) (some real)) h
              × Member (resolved exe (some real)) h))

  abbrev pub IsValidated : Type 0
  IsValidated =
      All (λ (e : ManifestEntry). IsDest phase.roots e.dest × (special_bits e.mode ≡ 0))
        phase.manifest.entries
      × All (IsDest phase.roots) phase.manifest.removals

  -- The temporary file for a destination, in a directory that resolved to itself.
  abbrev pub IsTemporary : Text → Trace → FilePath → Type 0
  IsTemporary d h x =
      (p : FilePath) × (name : Text) × (parent_of (components d) ≡ some (p, name))
      × (x ≡ p ++ tmp_name phase.os phase.pid name ∷ [])
      × Member (resolved p (some p)) h

  -- A file that the manifest removes, in a directory that resolved to itself.
  abbrev pub IsRemoval : Trace → FilePath → Type 0
  IsRemoval h x =
      (d : Text) × (p : FilePath) × (name : Text) × Member d phase.manifest.removals
      × (x ≡ components d)
      × (parent_of (components d) ≡ some (p, name))
      × Member (resolved p (some p)) h

  -- What has been made sure of, by the trace before an event.
  abbrev pub IsAllowed : Event → Trace → Type 0
  IsAllowed (resolved p q) h = Unit
  IsAllowed (existed p b) h = Unit
  IsAllowed (statted p o) h = Unit
  IsAllowed (measured len) h = Unit
  IsAllowed (read content) h = Unit
  IsAllowed refreshed h = IsValidated
  IsAllowed (made_dirs p b) h =
      IsValidated
      × ((e : ManifestEntry) × (name : Text) × Member e phase.manifest.entries
          × (parent_of (components e.dest) ≡ some (p, name)))
  IsAllowed (removed x b) h =
      IsValidated
      × (((e : ManifestEntry) × Member e phase.manifest.entries × IsTemporary e.dest h x)
          ⊎ IsRemoval h x)
  IsAllowed (copied s x b) h =
      IsValidated
      × ((e : ManifestEntry) × Member e phase.manifest.entries
          × (s ≡ e.source)
          × IsTemporary e.dest h x
          × IsSource h s)
  IsAllowed (chmodded x mode b) h =
      IsValidated
      × ((e : ManifestEntry) × Member e phase.manifest.entries
          × (mode ≡ e.mode)
          × IsTemporary e.dest h x)
  IsAllowed (renamed x y b) h =
      IsValidated
      × ((e : ManifestEntry) × Member e phase.manifest.entries
          × (y ≡ components e.dest)
          × IsTemporary e.dest h x)

  abbrev pub IsGuarded : Trace → Type 0
  IsGuarded [] = Unit
  IsGuarded (e ∷ h) = IsAllowed e h × IsGuarded h

  abbrev pub Post : {A : Type 0} → (A → Trace → Type 0) → Result A Failure × Trace → Type 0
  Post q (ok a, h) = q a h
  Post q (err e, h) = IsGuarded h

  pub bound-Post :
      {A B : Type 0} (q : A → Trace → Type 0) (r : B → Trace → Type 0)
      (m : Result A Failure × Trace) (f : A → M B)
      → Post q m
      → ((a : A) (h : Trace) → q a h → Post r (f a h))
      → Post r (bound m f)
  bound-Post q r (ok a, h) f p next = next a h p
  bound-Post q r (err e, h) f p next = p

  pub weaken-Post :
      {A : Type 0} (q r : A → Trace → Type 0) (m : Result A Failure × Trace)
      → Post q m
      → ((a : A) (h : Trace) → q a h → r a h)
      → Post r m
  weaken-Post q r (ok a, h) p next = next a h p
  weaken-Post q r (err e, h) p next = p

  -- Guarded, and no event of `h` is lost.
  abbrev pub From : Trace → Trace → Type 0
  From h k = IsGuarded k × Extends h k

  pub require-last :
      (q : Unit {0} → Trace → Type 0) (b : Bool) (e : Failure) (h : Trace)
      → IsGuarded h
      → (b ≡ true → q tt h)
      → Post q (require b e h)
  require-last q true e h g next = next refl
  require-last q false e h g next = g

  pub require-then :
      {B : Type 0} (r : B → Trace → Type 0) (b : Bool) (e : Failure) (h : Trace)
      (f : Unit {0} → M B)
      → IsGuarded h
      → (b ≡ true → Post r (f tt h))
      → Post r (bound (require b e h) f)
  require-then r true e h f g next = next refl
  require-then r false e h f g next = g

  pub act-Post :
      (works : Trace → Bool) (event : Bool → Event) (e : Failure) (h : Trace)
      → IsGuarded h
      → ((b : Bool) → IsAllowed (event b) h)
      → Post (λ a k. From h k) (act works event e h)
  act-Post works event e h g allowed = elim (Bool-cases (works h)) [
    | inl w ↦ rw w ((allowed true, g), (λ v m. inr m))
    | inr w ↦ rw w (allowed false, g)
  ]

  pub path_beq_iff : (p q : FilePath) → (path_beq p q ≡ true) ↔ (p ≡ q)
  path_beq_iff = (list_eq_of bytes_eq).beq_iff

  same_dir-Post :
      (p : FilePath) (real : Option FilePath) (h : Trace)
      → IsGuarded h
      → Member (resolved p real) h
      → Post (λ a k. From h k × Member (resolved p (some p)) k) (same_dir phase.os p real h)
  same_dir-Post p none h g m = g
  same_dir-Post p (some real) h g m =
      require-last (λ a k. From h k × Member (resolved p (some p)) k) (path_beq real p)
        (symlinked p real) h g
        (λ same. (
          (g, λ v n. n),
          subst (λ q. Member (resolved p (some q)) h) ((path_beq_iff real p).0 same) m,
        ))

  pub From-From : (h k l : Trace) → Extends h k → From k l → From h l
  From-From h k l before (g, after) = (g, λ v m. after v (before v m))

  pub ensure_no_symlinked_ancestor-Post :
      (p : FilePath) (h : Trace)
      → IsGuarded h
      → Post
          (λ a k. From h k × Member (resolved p (some p)) k)
          (ensure_no_symlinked_ancestor phase.os p h)
  unfolding ensure_no_symlinked_ancestor
  ensure_no_symlinked_ancestor-Post p h g =
      let k = resolved p (phase.os.canonicalize h p) ∷ h in
      weaken-Post (λ a l. From k l × Member (resolved p (some p)) l)
        (λ a l. From h l × Member (resolved p (some p)) l)
        (same_dir phase.os p (phase.os.canonicalize h p) k)
        (same_dir-Post p (phase.os.canonicalize h p) k (tt, g) (inl refl))
        (λ a l (from, m). (From-From h k l (λ v n. inr n) from, m))
