-- ===== src/Installer/RootPhase/Guarded/Validates.antt =====
-- root_phase.rs: the checks of a manifest, before anything is changed.
use super_engine.Prelude.{
  ◌≡◌, refl, sym, ap, Bool, true, not, ◌||◌, Option, none, some, List, [], ◌∷◌, ◌==◌, nat_eq,
  bytes_eq, Text, ◌++◌, strip_prefix, Member, All, Bool-cases, Option-cases, inl, inr, arith,
}
use super_engine.Installer.RootPhase.{
  located, FilePath, has_parent_dir, is_absolute, ManifestEntry, resolved, Trace, ◌>>=◌, ◌>>◌,
  require, in_roots, validate_dest, special_bits, validate_mode, self_exe, is_self_exe, is_staged,
  validate_source, each, validate_entry, not_absolute, parent_component, outside_roots,
  outside_staging, special_mode,
}
use super_engine.Installer.RootPhase.Guarded.{
  IsUnder, IsDest, Extends, Phase, From, From-From, IsGuarded, IsSource, Post, bound-Post,
  path_beq_iff, require-last, require-then, weaken-Post,
}

strip_prefix-some : (p s rest : Text) → strip_prefix p s ≡ some rest → s ≡ p ++ rest
unfolding strip_prefix
strip_prefix-some [] s rest h = ground arith
strip_prefix-some (c ∷ p) [] rest h = absurd (ground arith)
strip_prefix-some (c ∷ p) (d ∷ s) rest h = elim (Bool-cases (c == d)) [
  | inl e ↦ ground (arith, e, nat_eq.beq_iff c d, strip_prefix-some p s rest)
  | inr e ↦ absurd (ground (arith, e))
]

in_roots-IsUnder : (roots : List Text) (d : Text) → in_roots roots d ≡ true → IsUnder roots d
unfolding in_roots
in_roots-IsUnder [] d h = absurd (ground arith)
in_roots-IsUnder (root ∷ roots) d h = elim (Option-cases (strip_prefix root d)) [
  | inr (rest, e) ↦ (root, rest, inl refl, strip_prefix-some root d rest e)
  | inl e ↦
      let (r, rest, m, is) = in_roots-IsUnder roots d (ground (arith, e)) in (r, rest, inr m, is)
]

module _ (phase : Phase) where
  -- Where the code finds that a source is the file that runs, both resolved to one path.
  self_exe-Post :
      (exe : Option FilePath) (source : FilePath) (h : Trace)
      → IsGuarded phase h
      → Post phase
          (λ own k.
            From phase h k
            × (own ≡ true
                → (x : FilePath) × (real : FilePath) × (exe ≡ some x)
                  × Member (resolved source (some real)) k
                  × Member (resolved x (some real)) k))
          (self_exe phase.os exe source h)
  self_exe-Post none source h g = ((g, λ v m. m), λ e. cc)
  self_exe-Post (some x) source h g = elim (Option-cases (phase.os.canonicalize h source)) [
    | inl gone ↦ rw gone (((tt, g), (λ v m. inr m)), (λ e. cc))
    | inr (real, e) ↦
        let k = resolved source (some real) ∷ h in
        elim (Option-cases (phase.os.canonicalize k x)) [
          | inl gone ↦ rw (e, gone) (((tt, (tt, g)), (λ v m. inr (inr m))), (λ e. cc))
          | inr (current, f) ↦
              rw (e, f)
                (
                  ((tt, (tt, g)), (λ v m. inr (inr m))),
                  λ same. (
                    x,
                    real,
                    refl,
                    inr (inl refl),
                    inl (
                        ap (λ q. resolved x (some q))
                          (sym ((path_beq_iff phase real current).0 same))),
                  ),
                )
        ]
  ]

  validate_source-Post :
      (s : Text) (h : Trace)
      → IsGuarded phase h
      → Post phase
          (λ a k. From phase h k × IsSource phase k s)
          (validate_source phase.os s phase.staging_root h)
  unfolding validate_source is_self_exe
  validate_source-Post s h g =
      let own_or_staged = λ (own : Bool).
        require (own || is_staged phase.os s phase.staging_root) (outside_staging s) in
      require-then phase (λ a k. From phase h k × IsSource phase k s) (not (has_parent_dir s))
        (parent_component s) h (λ _. is_self_exe phase.os s >>= own_or_staged) g
        (λ clean.
          bound-Post phase
            (λ own k.
              From phase h k
              × (own ≡ true
                  → (x : FilePath) × (real : FilePath) × (phase.os.current_exe ≡ some x)
                    × Member (resolved (located s) (some real)) k
                    × Member (resolved x (some real)) k))
            (λ a k. From phase h k × IsSource phase k s)
            (self_exe phase.os phase.os.current_exe (located s) h) own_or_staged
            (self_exe-Post phase.os.current_exe (located s) h g)
            (λ own k (from, own_file).
              require-last phase (λ a l. From phase h l × IsSource phase l s)
                (own || is_staged phase.os s phase.staging_root) (outside_staging s) k from.0
                (λ admitted. (
                  from,
                  (
                    ground (arith, clean),
                    elim (Bool-cases own) [
                      | inl is_own ↦ inr (own_file is_own)
                      | inr other ↦ inl (ground (arith, admitted, other))
                    ],
                  ),
                ))))

  -- Destinations and modes as they must be, at each entry.
  abbrev pub IsFit : ManifestEntry → Type 0
  IsFit e = IsDest phase.roots e.dest × (special_bits e.mode ≡ 0)

  validate_dest-Post :
      (d : Text) (h : Trace)
      → IsGuarded phase h
      → Post phase (λ a k. From phase h k × IsDest phase.roots d) (validate_dest d phase.roots h)
  unfolding validate_dest
  validate_dest-Post d h g =
      let q = λ (a : Unit {0}) (k : Trace). From phase h k × IsDest phase.roots d in
      require-then phase q (is_absolute d) (not_absolute d) h
        (λ _.
          require (not (has_parent_dir d)) (parent_component d)
          >> require (in_roots phase.roots d) (outside_roots d))
        g
        (λ absolute.
          require-then phase q (not (has_parent_dir d)) (parent_component d) h
            (λ _. require (in_roots phase.roots d) (outside_roots d)) g
            (λ clean. require-last phase q (in_roots phase.roots d) (outside_roots d) h g (λ within.
              (
                (g, λ v m. m),
                (absolute, ground (arith, clean), in_roots-IsUnder phase.roots d within),
              ))))

  pub IsSource-Extends :
      (h k : Trace) (s : Text) → Extends h k → IsSource phase h s → IsSource phase k s
  IsSource-Extends h k s up (clean, inl staged) = (clean, inl staged)
  IsSource-Extends h k s up (clean, inr (x, real, e, m, n)) = (
    clean,
    inr (x, real, e, up (resolved (located s) (some real)) m, up (resolved x (some real)) n),
  )

  abbrev pub IsReady : Trace → ManifestEntry → Type 0
  IsReady h e = IsFit e × IsSource phase h e.source

  validate_entry-Post :
      (e : ManifestEntry) (h : Trace)
      → IsGuarded phase h
      → Post phase
          (λ a k. From phase h k × IsReady k e)
          (validate_entry phase.os phase.roots phase.staging_root e h)
  unfolding validate_mode
  validate_entry-Post e h g =
      bound-Post phase (λ a k. From phase h k × IsDest phase.roots e.dest)
        (λ a k. From phase h k × IsReady k e) (validate_dest e.dest phase.roots h)
        (λ _. validate_mode e.mode >> validate_source phase.os e.source phase.staging_root)
        (validate_dest-Post e.dest h g)
        (λ a k (from, dest).
          require-then phase (λ a k. From phase h k × IsReady k e) (special_bits e.mode == 0)
            (special_mode e.mode) k (λ _. validate_source phase.os e.source phase.staging_root)
            from.0
            (λ plain.
              weaken-Post phase (λ a l. From phase k l × IsSource phase l e.source)
                (λ a l. From phase h l × IsReady l e)
                (validate_source phase.os e.source phase.staging_root k)
                (validate_source-Post e.source k from.0)
                (λ a l (up, source). (
                  From-From phase h k l from.1 up,
                  ((dest, (nat_eq.beq_iff (special_bits e.mode) 0).0 plain), source),
                ))))

  pub validate_entries-Post :
      (es : List ManifestEntry) (h : Trace)
      → IsGuarded phase h
      → Post phase
          (λ a k. From phase h k × All (IsReady k) es)
          (each phase.os (validate_entry phase.os phase.roots phase.staging_root) es h)
  validate_entries-Post [] h g = ((g, λ v m. m), tt)
  validate_entries-Post (e ∷ es) h g =
      bound-Post phase (λ a k. From phase h k × IsReady k e)
        (λ a k. From phase h k × All (IsReady k) (e ∷ es))
        (validate_entry phase.os phase.roots phase.staging_root e h)
        (λ _. each phase.os (validate_entry phase.os phase.roots phase.staging_root) es)
        (validate_entry-Post e h g)
        (λ a k (from, ready).
          weaken-Post phase (λ a l. From phase k l × All (IsReady l) es)
            (λ a l. From phase h l × All (IsReady l) (e ∷ es))
            (each phase.os (validate_entry phase.os phase.roots phase.staging_root) es k)
            (validate_entries-Post es k from.0)
            (λ a l (up, more). (
              From-From phase h k l from.1 up,
              ((ready.0, IsSource-Extends k l e.source up.1 ready.1), more),
            )))

  pub validate_removals-Post :
      (ds : List Text) (h : Trace)
      → IsGuarded phase h
      → Post phase
          (λ a k. From phase h k × All (IsDest phase.roots) ds)
          (each phase.os (λ d. validate_dest d phase.roots) ds h)
  validate_removals-Post [] h g = ((g, λ v m. m), tt)
  validate_removals-Post (d ∷ ds) h g =
      bound-Post phase (λ a k. From phase h k × IsDest phase.roots d)
        (λ a k. From phase h k × All (IsDest phase.roots) (d ∷ ds)) (validate_dest d phase.roots h)
        (λ _. each phase.os (λ x. validate_dest x phase.roots) ds) (validate_dest-Post d h g)
        (λ a k (from, fit).
          weaken-Post phase (λ a l. From phase k l × All (IsDest phase.roots) ds)
            (λ a l. From phase h l × All (IsDest phase.roots) (d ∷ ds))
            (each phase.os (λ x. validate_dest x phase.roots) ds k)
            (validate_removals-Post ds k from.0)
            (λ a l (up, more). (From-From phase h k l from.1 up, (fit, more))))
