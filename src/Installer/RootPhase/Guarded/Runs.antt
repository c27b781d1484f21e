-- ===== src/Installer/RootPhase/Guarded/Runs.antt =====
-- root_phase.rs: a run of the root phase, from the path of its manifest to its exit code.
use super_engine.Prelude.{
  ℕ, ◌≡◌, ◌⊎◌, refl, false, Option, some, [], ◌∷◌, Text, Result, ok, err, All, ltb, Bool-cases,
  Option-cases, inl, inr,
}
use super_engine.Installer.RootPhase.{
  FilePath, Manifest, Failure, Event, resolved, existed, statted, measured, read, Trace, Os, bound,
  apply_manifest, allowed_roots,
}
use super_engine.Installer.RootPhase.Run.{
  max_manifest_bytes, icon_cache, dir_of, read_manifest, staging_root_of, exit_code, run,
}
use super_engine.Installer.RootPhase.Guarded.{Phase, IsGuarded, IsValidated, Post}
use super_engine.Installer.RootPhase.Guarded.Applies.{apply_manifest-Post}

-- A question to the system, not a change.
abbrev pub IsLook : Event → Type 0
IsLook (resolved p q) = Unit
IsLook (existed p b) = Unit
IsLook (statted p o) = Unit
IsLook (measured len) = Unit
IsLook (read content) = Unit
IsLook _ = ⊥

module _ (os : Os) (pid : Text) (from_json : Text → Option Manifest) (path : Text) where
  abbrev pub phase_of : Manifest → FilePath → Phase
  phase_of manifest root = record {
    os = os;
    pid = pid;
    manifest = manifest;
    roots = allowed_roots;
    staging_root = root;
  }

  -- The manifest is what the file at `path` has, within the bound on its length, and the staging
  -- directory is what the directory of that file resolves to.
  pub record IsStarted (manifest : Manifest) (root : FilePath) : Type 0 where
    pub len : ℕ
    pub measures : os.metadata_len [] path ≡ some len
    pub capped : ltb max_manifest_bytes len ≡ false
    pub content : Text
    pub reads : os.read_to_string (measured (some len) ∷ []) path ≡ some content
    pub parses : from_json content ≡ some manifest
    pub dir : FilePath
    pub name : Text
    pub beside : dir_of path ≡ some (dir, name)
    pub resolves : os.canonicalize (read (some content) ∷ measured (some len) ∷ []) dir ≡ some root

  abbrev pub IsRestrained : ℕ × Trace → Type 0
  IsRestrained (code, trace) =
      ((code ≡ 3) × All IsLook trace)
      ⊎ ((manifest : Manifest) × (root : FilePath) × IsStarted manifest root
          × ((code ≡ 0) ⊎ (code ≡ 3))
          × IsGuarded (phase_of manifest root) trace)

  exit_code-IsRestrained :
      (manifest : Manifest) (root : FilePath) (out : Result (Unit {0}) Failure × Trace)
      → IsStarted manifest root
      → Post
          (phase_of manifest root)
          (λ a k. IsGuarded (phase_of manifest root) k × IsValidated (phase_of manifest root))
          out
      → IsRestrained (exit_code os out)
  exit_code-IsRestrained manifest root (err e, k) started g =
      inr (manifest, root, started, inr refl, g)
  exit_code-IsRestrained manifest root (ok a, k) started (g, v) =
      elim (Bool-cases (os.is_file k icon_cache)) [
        | inl there ↦ rw there (inr (manifest, root, started, inl refl, (v, (tt, g))))
        | inr gone ↦ rw gone (inr (manifest, root, started, inl refl, (tt, g)))
      ]

  located-IsRestrained :
      (len : ℕ) (content : Text) (manifest : Manifest)
      → os.metadata_len [] path ≡ some len
      → ltb max_manifest_bytes len ≡ false
      → os.read_to_string (measured (some len) ∷ []) path ≡ some content
      → from_json content ≡ some manifest
      → IsRestrained (
          exit_code os (
            bound
              (staging_root_of os path (read (some content) ∷ measured (some len) ∷ []))
              (apply_manifest os pid manifest allowed_roots)))
  unfolding staging_root_of
  located-IsRestrained len content manifest measures capped reads parses =
      let h₂ = read (some content) ∷ measured (some len) ∷ [] in
      elim (Option-cases (dir_of path)) [
        | inl rootless ↦ rw rootless (inl (refl, (tt, (tt, tt))))
        | inr ((dir, name), beside) ↦ elim (Option-cases (os.canonicalize h₂ dir)) [
          | inl lost ↦ rw (beside, lost) (inl (refl, (tt, (tt, (tt, tt)))))
          | inr (root, resolves) ↦
              let h₃ = resolved dir (some root) ∷ h₂ in
              let started : IsStarted manifest root = record {
                len = len;
                measures = measures;
                capped = capped;
                content = content;
                reads = reads;
                parses = parses;
                dir = dir;
                name = name;
                beside = beside;
                resolves = resolves;
              } in
              rw (beside, resolves)
                (exit_code-IsRestrained manifest root
                  (apply_manifest os pid manifest allowed_roots root h₃) started
                  (apply_manifest-Post (phase_of manifest root) h₃ (tt, (tt, (tt, tt)))))
        ]
      ]

  -- A run of the root phase exits with 3 and changes nothing, or with 0 or 3 as follows. Its manifest
  -- is what the file at the path that it was given has, no longer than 256 KiB, and the staging
  -- directory is what the directory of that file resolves to. Nothing is changed unless every
  -- destination and removal is absolute, without `..`, and begins with `/usr/local/` or
  -- `/usr/lib/systemd/user/` (as these two do themselves), and every mode is without special bits. A
  -- directory is made only as that of an entry's destination. An entry's source is copied, its mode
  -- set and the result renamed only as the entry's temporary file and onto its destination; only such
  -- temporary files and the manifest's removals are removed; all of it in a directory that had
  -- resolved to itself before. A source that is copied is without `..`, and in the staging directory
  -- or resolved to what the running file resolved to.
  pub run-IsRestrained : IsRestrained (run os pid from_json path [])
  unfolding run read_manifest
  run-IsRestrained = elim (Option-cases (os.metadata_len [] path)) [
    | inl unmeasured ↦ rw unmeasured (inl (refl, (tt, tt)))
    | inr (len, measures) ↦ elim (Bool-cases (ltb max_manifest_bytes len)) [
      | inl long ↦ rw (measures, long) (inl (refl, (tt, tt)))
      | inr capped ↦ elim (Option-cases (os.read_to_string (measured (some len) ∷ []) path)) [
        | inl unread ↦ rw (measures, capped, unread) (inl (refl, (tt, (tt, tt))))
        | inr (content, reads) ↦ elim (Option-cases (from_json content)) [
          | inl refused ↦ rw (measures, capped, reads, refused) (inl (refl, (tt, (tt, tt))))
          | inr (manifest, parses) ↦
              rw (measures, capped, reads, parses)
                (located-IsRestrained len content manifest measures capped reads parses)
        ]
      ]
    ]
  ]
