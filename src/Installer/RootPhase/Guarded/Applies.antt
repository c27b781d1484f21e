-- ===== src/Installer/RootPhase/Guarded/Applies.antt =====
-- root_phase.rs: the changes of a manifest that passed the checks.
use super_engine.Prelude.{
  ◌≡◌, refl, sym, subst, Bool, true, false, Option, none, some, List, [], ◌∷◌, ◌++◌, nat_eq,
  bytes_eq, Text, Result, ok, err, Member, All, Option-cases, inl, inr,
}
use super_engine.Installer.RootPhase.{
  FilePath, components, parent_of, ManifestEntry, Failure, Event, resolved, existed, statted,
  made_dirs, removed, copied, chmodded, renamed, Trace, M, bound, ◌>>=◌, ◌>>◌, act, ask,
  validate_dest, ensure_no_symlinked_ancestor, try_remove, clean_up, put_file, tmp_name, written,
  install_in, install_entry, unlink_as, unlink_below, unlink, remove_replaced, each, validate_entry,
  apply_manifest, not_made, not_copied, not_chmodded, not_renamed, not_removed,
}
use super_engine.Installer.RootPhase.Guarded.{
  IsDest, Extends, Phase, From, From-From, IsAllowed, IsTemporary, IsRemoval, IsGuarded,
  IsValidated, Post, act-Post, bound-Post, ensure_no_symlinked_ancestor-Post, weaken-Post,
}
use super_engine.Installer.RootPhase.Guarded.Validates.{
  IsFit, IsReady, IsSource-Extends, validate_entries-Post, validate_removals-Post,
}

module _ (phase : Phase) where
  -- The same of a result and of an error.
  bound-From :
      {A B : Type 0} (h₀ : Trace) (m : Result A Failure × Trace) (f : A → M B)
      → From phase h₀ m.1
      → ((a : A) (h : Trace) → From phase h₀ h → From phase h₀ (f a h).1)
      → From phase h₀ (bound m f).1
  bound-From h₀ (ok a, h) f from next = next a h from
  bound-From h₀ (err e, h) f from next = from

  From-Post :
      {A : Type 0} (h : Trace) (m : Result A Failure × Trace)
      → From phase h m.1
      → Post phase (λ a k. From phase h k) m
  From-Post h (ok a, k) from = from
  From-Post h (err e, k) from = from.0

  act-From :
      (h₀ : Trace) (works : Trace → Bool) (event : Bool → Event) (e : Failure) (h : Trace)
      → From phase h₀ h
      → ((b : Bool) → IsAllowed phase (event b) h)
      → From phase h₀ (act works event e h).1
  act-From h₀ works event e h (g, up) allowed = ((allowed (works h), g), λ v m. inr (up v m))

  IsTemporary-Extends :
      (d : Text) (h k : Trace) (x : FilePath)
      → Extends h k
      → IsTemporary phase d h x
      → IsTemporary phase d k x
  IsTemporary-Extends d h k x up (p, name, parent, here, m) =
      (p, name, parent, here, up (resolved p (some p)) m)

  put_file-From :
      (v : IsValidated phase) (e : ManifestEntry) (tmp : FilePath) (h : Trace)
      → Member e phase.manifest.entries
      → IsGuarded phase h
      → IsReady phase h e
      → IsTemporary phase e.dest h tmp
      → From phase h (put_file phase.os e tmp (components e.dest) h).1
  put_file-From v e tmp h of g ready here =
      let dest = components e.dest in
      bound-From h
        (act (λ k. phase.os.copy k e.source tmp) (copied e.source tmp) (not_copied tmp) h)
        (λ _.
          act (λ k. phase.os.set_permissions k tmp e.mode) (chmodded tmp e.mode) (not_chmodded tmp)
          >> act (λ k. phase.os.rename k tmp dest) (renamed tmp dest) (not_renamed tmp))
        (act-From h (λ k. phase.os.copy k e.source tmp) (copied e.source tmp) (not_copied tmp) h
          (g, λ w m. m) (λ b. (v, (e, of, refl, here, ready.1))))
        (λ a k from.
          bound-From h
            (act (λ l. phase.os.set_permissions l tmp e.mode) (chmodded tmp e.mode)
              (not_chmodded tmp) k)
            (λ _. act (λ l. phase.os.rename l tmp dest) (renamed tmp dest) (not_renamed tmp))
            (act-From h (λ l. phase.os.set_permissions l tmp e.mode) (chmodded tmp e.mode)
              (not_chmodded tmp) k from
              (λ b. (v, (e, of, refl, IsTemporary-Extends e.dest h k tmp from.1 here))))
            (λ a l up.
              act-From h (λ t. phase.os.rename t tmp dest) (renamed tmp dest) (not_renamed tmp) l up
                (λ b. (v, (e, of, refl, IsTemporary-Extends e.dest h l tmp up.1 here)))))

  clean_up-From :
      (v : IsValidated phase) (e : ManifestEntry) (tmp : FilePath) (h : Trace)
      (m : Result (Unit {0}) Failure × Trace)
      → Member e phase.manifest.entries
      → IsTemporary phase e.dest h tmp
      → From phase h m.1
      → From phase h (clean_up phase.os tmp m).1
  clean_up-From v e tmp h (ok a, k) of here from = from
  clean_up-From v e tmp h (err failure, k) of here (g, up) =
      (((v, inl (e, of, IsTemporary-Extends e.dest h k tmp up here)), g), λ w m. inr (up w m))

  install_in-Post :
      (v : IsValidated phase) (e : ManifestEntry) (h : Trace) (p : FilePath) (name : Text)
      → Member e phase.manifest.entries
      → IsGuarded phase h
      → IsReady phase h e
      → parent_of (components e.dest) ≡ some (p, name)
      → Post phase (λ a k. From phase h k) (install_in phase.os phase.pid e (some (p, name)) h)
  install_in-Post v e h p name of g ready at =
      let tmp = p ++ tmp_name phase.os phase.pid name ∷ [] in
      let put = written phase.os e tmp (components e.dest) in
      bound-Post phase (λ a k. From phase h k) (λ a k. From phase h k)
        (act (λ k. phase.os.create_dir_all k p) (made_dirs p) (not_made p) h)
        (λ _. ensure_no_symlinked_ancestor phase.os p >> try_remove phase.os tmp >> put)
        (act-Post phase (λ k. phase.os.create_dir_all k p) (made_dirs p) (not_made p) h g
          (λ b. (v, (e, name, of, at))))
        (λ a k from.
          bound-Post phase (λ a l. From phase k l × Member (resolved p (some p)) l)
            (λ a l. From phase h l) (ensure_no_symlinked_ancestor phase.os p k)
            (λ _. try_remove phase.os tmp >> put)
            (ensure_no_symlinked_ancestor-Post phase p k from.0)
            (λ a l (up, m).
              let since = From-From phase h k l from.1 up in
              let here : IsTemporary phase e.dest l tmp = (p, name, at, refl, m) in
              let t = removed tmp (phase.os.remove_file l tmp) ∷ l in
              let gone : From phase l t = (((v, inl (e, of, here)), up.0), λ w n. inr n) in
              let ready' : IsReady phase t e =
                (ready.0, IsSource-Extends phase h t e.source (λ w n. inr (since.1 w n)) ready.1) in
              let here' = IsTemporary-Extends e.dest l t tmp gone.1 here in
              From-Post h (put t) (
                From-From phase h t (put t).1 (λ w n. inr (since.1 w n))
                  (clean_up-From v e tmp t (put_file phase.os e tmp (components e.dest) t) of here'
                    (put_file-From v e tmp t of gone.0 ready' here')))))

  install_entry-Post :
      (v : IsValidated phase) (e : ManifestEntry) (h : Trace)
      → Member e phase.manifest.entries
      → IsGuarded phase h
      → IsReady phase h e
      → Post phase (λ a k. From phase h k) (install_entry phase.os phase.pid e h)
  unfolding install_entry
  install_entry-Post v e h of g ready = elim (Option-cases (parent_of (components e.dest))) [
    | inl none_e ↦ rw none_e g
    | inr ((p, name), at) ↦
        subst (λ q. Post phase (λ a k. From phase h k) (install_in phase.os phase.pid e q h))
          (sym at) (install_in-Post v e h p name of g ready at)
  ]

  IsReady-Extends :
      (h k : Trace) (es : List ManifestEntry)
      → Extends h k
      → All (IsReady phase h) es
      → All (IsReady phase k) es
  IsReady-Extends h k [] up all = tt
  IsReady-Extends h k (e ∷ es) up ((fit, source), all) =
      ((fit, IsSource-Extends phase h k e.source up source), IsReady-Extends h k es up all)

  install_entries-Post :
      (v : IsValidated phase) (es : List ManifestEntry) (h : Trace)
      → ((e : ManifestEntry) → Member e es → Member e phase.manifest.entries)
      → IsGuarded phase h
      → All (IsReady phase h) es
      → Post phase (λ a k. From phase h k) (each phase.os (install_entry phase.os phase.pid) es h)
  install_entries-Post v [] h of g all = (g, λ w m. m)
  install_entries-Post v (e ∷ es) h of g (ready, all) =
      bound-Post phase (λ a k. From phase h k) (λ a k. From phase h k)
        (install_entry phase.os phase.pid e h)
        (λ _. each phase.os (install_entry phase.os phase.pid) es)
        (install_entry-Post v e h (of e (inl refl)) g ready)
        (λ a k from.
          weaken-Post phase (λ a l. From phase k l) (λ a l. From phase h l)
            (each phase.os (install_entry phase.os phase.pid) es k)
            (install_entries-Post v es k (λ d m. of d (inr m)) from.0
              (IsReady-Extends h k es from.1 all))
            (λ a l up. From-From phase h k l from.1 up))

  unlink_as-Post :
      (v : IsValidated phase) (x : FilePath) (status : Option (Option Bool)) (h : Trace)
      → IsGuarded phase h
      → IsRemoval phase h x
      → Post phase (λ a k. From phase h k) (unlink_as phase.os x status h)
  unlink_as-Post v x none h g here = g
  unlink_as-Post v x (some none) h g here = (g, λ w m. m)
  unlink_as-Post v x (some (some true)) h g here = g
  unlink_as-Post v x (some (some false)) h g here =
      act-Post phase (λ k. phase.os.remove_file k x) (removed x) (not_removed x) h g
        (λ b. (v, inr here))

  unlink_below-Post :
      (v : IsValidated phase) (d : Text) (p : FilePath) (name : Text) (there : Bool) (h : Trace)
      → IsGuarded phase h
      → Member d phase.manifest.removals
      → parent_of (components d) ≡ some (p, name)
      → Post phase (λ a k. From phase h k) (unlink_below phase.os p (components d) there h)
  unlink_below-Post v d p name false h g dest at = (g, λ w m. m)
  unlink_below-Post v d p name true h g dest at =
      bound-Post phase (λ a k. From phase h k × Member (resolved p (some p)) k)
        (λ a k. From phase h k) (ensure_no_symlinked_ancestor phase.os p h)
        (λ _.
          ask (λ k. phase.os.stat k (components d)) (statted (components d))
          >>= unlink_as phase.os (components d))
        (ensure_no_symlinked_ancestor-Post phase p h g)
        (λ a k (from, m).
          let status = phase.os.stat k (components d) in
          let l = statted (components d) status ∷ k in
          weaken-Post phase (λ a t. From phase l t) (λ a t. From phase h t)
            (unlink_as phase.os (components d) status l)
            (unlink_as-Post v (components d) status l (tt, from.0)
              (d, p, name, dest, refl, at, inr m))
            (λ a t up. From-From phase h l t (λ w n. inr (from.1 w n)) up))

  remove_replaced-Post :
      (v : IsValidated phase) (d : Text) (h : Trace)
      → IsGuarded phase h
      → Member d phase.manifest.removals
      → Post phase (λ a k. From phase h k) (remove_replaced phase.os d h)
  unfolding remove_replaced
  remove_replaced-Post v d h g dest = elim (Option-cases (parent_of (components d))) [
    | inl none_e ↦ rw none_e g
    | inr ((p, name), at) ↦
        let k = existed p (phase.os.exists h p) ∷ h in
        subst (λ q. Post phase (λ a k. From phase h k) (unlink phase.os d q h)) (sym at)
          (weaken-Post phase (λ a l. From phase k l) (λ a l. From phase h l)
            (unlink_below phase.os p (components d) (phase.os.exists h p) k)
            (unlink_below-Post v d p name (phase.os.exists h p) k (tt, g) dest at)
            (λ a l up. From-From phase h k l (λ w n. inr n) up))
  ]

  removals-Post :
      (v : IsValidated phase) (ds : List Text) (h : Trace)
      → IsGuarded phase h
      → ((d : Text) → Member d ds → Member d phase.manifest.removals)
      → Post phase (λ a k. From phase h k) (each phase.os (remove_replaced phase.os) ds h)
  removals-Post v [] h g of = (g, λ w m. m)
  removals-Post v (d ∷ ds) h g of =
      bound-Post phase (λ a k. From phase h k) (λ a k. From phase h k)
        (remove_replaced phase.os d h) (λ _. each phase.os (remove_replaced phase.os) ds)
        (remove_replaced-Post v d h g (of d (inl refl)))
        (λ a k from.
          weaken-Post phase (λ a l. From phase k l) (λ a l. From phase h l)
            (each phase.os (remove_replaced phase.os) ds k)
            (removals-Post v ds k from.0 (λ x m. of x (inr m)))
            (λ a l up. From-From phase h k l from.1 up))

  fits : (es : List ManifestEntry) (h : Trace) → All (IsReady phase h) es → All (IsFit phase) es
  fits [] h all = tt
  fits (e ∷ es) h ((fit, source), all) = (fit, fits es h all)

  pub apply_manifest-Post :
      (h : Trace)
      → IsGuarded phase h
      → Post phase
          (λ a k. IsGuarded phase k × IsValidated phase)
          (apply_manifest phase.os phase.pid phase.manifest phase.roots phase.staging_root h)
  unfolding apply_manifest
  apply_manifest-Post h₀ g =
      let q = λ (a : Unit {0}) (k : Trace). IsGuarded phase k × IsValidated phase in
      let installs = each phase.os (install_entry phase.os phase.pid) phase.manifest.entries in
      let removals = each phase.os (remove_replaced phase.os) phase.manifest.removals in
      let validated =
        each phase.os (λ path. validate_dest path phase.roots) phase.manifest.removals in
      bound-Post phase (λ a k. From phase h₀ k × All (IsReady phase k) phase.manifest.entries) q
        (each phase.os (validate_entry phase.os phase.roots phase.staging_root)
          phase.manifest.entries h₀)
        (λ _. validated >> installs >> removals)
        (validate_entries-Post phase phase.manifest.entries h₀ g)
        (λ a h (from, ready).
          bound-Post phase
            (λ a k. From phase h k × All (IsDest phase.roots) phase.manifest.removals) q
            (validated h) (λ _. installs >> removals)
            (validate_removals-Post phase phase.manifest.removals h from.0)
            (λ a k (up, dests).
              let v : IsValidated phase = (fits phase.manifest.entries h ready, dests) in
              bound-Post phase (λ a l. From phase k l) q (installs k) (λ _. removals)
                (install_entries-Post v phase.manifest.entries k (λ e m. m) up.0
                  (IsReady-Extends h k phase.manifest.entries up.1 ready))
                (λ a l from.
                  weaken-Post phase (λ a t. From phase l t) q (removals l)
                    (removals-Post v phase.manifest.removals l from.0 (λ d m. m))
                    (λ a t last. (last.0, v)))))
