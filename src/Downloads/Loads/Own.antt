-- ===== src/Downloads/Loads/Own.antt =====
-- download_progress.rs: each key answers for its own load.
use super_engine.Prelude.{
  ℕ, zero, suc, ◌≡◌, refl, sym, ap, subst, ◌∙◌, Option, none, some, List, [], ◌∷◌, ◌++◌, Eq, ◌==◌,
  nat_eq, option_nat_eq, lookup, contains_key, lookup-insert, lookup-remove, get_elem?, set,
  if◌then◌else◌, Bool-cases, Option-cases, inl, inr, arith,
}
use super_engine.Downloads.{
  Floats, Tracker, Operation, start_file, cancel, mark_verifying, mark_downloading, mark_loading,
  mark_completed, mark_error, set_load_progress, store_bytes, store_total, broadcast, operate,
  cancel_tracker, broadcast_progress, is_due,
}
use super_engine.Downloads.Loads.{
  Slot, DownloadStateManager, Call, create, start, progress, abandon, clear, empty, start_download,
  cancel_download, get_download, clear_download, call, calls,
}

-- No operation changes the slot of a tracker.
operate-slot :
    {S F : Type 0} (f : Floats F) (o : Operation F) (t : Tracker S F)
    → (operate f o t).slot ≡ t.slot
unfolding operate broadcast_progress
operate-slot f (start_file name i) t = refl
operate-slot f cancel t = refl
operate-slot f mark_verifying t = refl
operate-slot f mark_downloading t = refl
operate-slot f mark_loading t = refl
operate-slot f mark_completed t = refl
operate-slot f (mark_error e) t = refl
operate-slot f (set_load_progress l) t = refl
operate-slot f (store_bytes n) t = refl
operate-slot f (store_total n) t = refl
operate-slot f (broadcast elapsed) t = elim (Bool-cases (is_due f t)) [
  | inl due ↦ rw due refl
  | inr quiet ↦ rw quiet refl
]

module _ {K S F : Type 0} ⦃same : Eq K⦄ (sl : Slot S K) where
  abbrev key_of : Option (Tracker S F) → Option K
  key_of none = none
  key_of (some t) = some (sl.key t.slot)

  -- The key of the tracker at a place.
  abbrev key_at : List (Tracker S F) → ℕ → Option K
  key_at ts i = key_of (get_elem? ts i)

  key_at-set :
      (ts : List (Tracker S F)) (i j : ℕ) (t u : Tracker S F)
      → get_elem? ts i ≡ some t
      → u.slot ≡ t.slot
      → key_at (set ts i u) j ≡ key_at ts j
  key_at-set [] i j t u e h = cc
  key_at-set (x ∷ ts) zero zero t u e h = ground (arith, e, h)
  key_at-set (x ∷ ts) zero (suc j) t u e h = refl
  key_at-set (x ∷ ts) (suc i) zero t u e h = refl
  key_at-set (x ∷ ts) (suc i) (suc j) t u e h = key_at-set ts i j t u e h

  key_at-snoc :
      (ts : List (Tracker S F)) (t : Tracker S F) (j : ℕ) (k : K)
      → key_at ts j ≡ some k
      → key_at (ts ++ t ∷ []) j ≡ some k
  key_at-snoc [] t j k e = cc
  key_at-snoc (x ∷ ts) t zero k e = e
  key_at-snoc (x ∷ ts) t (suc j) k e = key_at-snoc ts t j k e

  -- The load of a key is in a slot of that key.
  abbrev IsKeyed : DownloadStateManager K S F → Type 0
  IsKeyed m = (k : K) (i : ℕ) → lookup k m.downloads ≡ some i → key_at m.trackers i ≡ some k

  set-IsKeyed :
      (m : DownloadStateManager K S F) (i : ℕ) (t u : Tracker S F)
      → get_elem? m.trackers i ≡ some t
      → u.slot ≡ t.slot
      → IsKeyed m
      → IsKeyed (record m { trackers = set m.trackers i u })
  set-IsKeyed m i t u e h keyed k j l = key_at-set m.trackers i j t u e h ∙ keyed k j l

  start_download-IsKeyed :
      (m : DownloadStateManager K S F) (i : ℕ) (t : Tracker S F)
      → get_elem? m.trackers i ≡ some t
      → IsKeyed m
      → IsKeyed (start_download sl m i t.slot).0
  unfolding start_download
  start_download-IsKeyed m i t e keyed =
      elim (Bool-cases (contains_key (sl.key t.slot) m.downloads)) [
        | inl taken ↦ rw taken keyed
        | inr free ↦ rw free (λ k j l.
            let inserted = sym (lookup-insert (sl.key t.slot) k i m.downloads) ∙ l in
            elim (Bool-cases (sl.key t.slot == k)) [
              | inl own ↦
                  ap key_of
                    (subst (λ x. get_elem? m.trackers x ≡ some t) (ground (arith, inserted, own)) e)
                  ∙ ap some ((same.beq_iff (sl.key t.slot) k).0 own)
              | inr other ↦ keyed k j (ground (arith, inserted, other))
            ])
      ]

  cancel_download-IsKeyed :
      (m : DownloadStateManager K S F) (k : K) → IsKeyed m → IsKeyed (cancel_download sl m k).0
  unfolding cancel_download
  cancel_download-IsKeyed m k keyed = elim (Option-cases (lookup k m.downloads)) [
    | inl e ↦ rw e keyed
    | inr (i, e) ↦ elim (Option-cases (get_elem? m.trackers i)) [
      | inl g ↦ rw (e, g) keyed
      | inr (t, g) ↦ rw (e, g) (set-IsKeyed m i t (cancel_tracker t) g refl keyed)
    ]
  ]

  clear_download-IsKeyed :
      (m : DownloadStateManager K S F) (k : K) → IsKeyed m → IsKeyed (clear_download m k)
  unfolding clear_download
  clear_download-IsKeyed m k keyed j i l =
      let removed = sym (lookup-remove k j m.downloads) ∙ l in keyed j i (ground (arith, removed))

  call-IsKeyed :
      (f : Floats F) (c : Call K S F) (m : DownloadStateManager K S F)
      → IsKeyed m
      → IsKeyed (call f sl c m)
  unfolding call
  call-IsKeyed f (create t) m keyed = λ k i l. key_at-snoc m.trackers t i k (keyed k i l)
  call-IsKeyed f (start i) m keyed = elim (Option-cases (get_elem? m.trackers i)) [
    | inl g ↦ rw g keyed
    | inr (t, g) ↦ rw g (start_download-IsKeyed m i t g keyed)
  ]
  call-IsKeyed f (progress i o) m keyed = elim (Option-cases (get_elem? m.trackers i)) [
    | inl g ↦ rw g keyed
    | inr (t, g) ↦ rw g (set-IsKeyed m i t (operate f o t) g (operate-slot f o t) keyed)
  ]
  call-IsKeyed f (abandon k) m keyed = cancel_download-IsKeyed m k keyed
  call-IsKeyed f (clear k) m keyed = clear_download-IsKeyed m k keyed

  calls-IsKeyed :
      (f : Floats F) (cs : List (Call K S F)) (m : DownloadStateManager K S F)
      → IsKeyed m
      → IsKeyed (calls f sl cs m)
  unfolding calls
  calls-IsKeyed f [] m keyed = keyed
  calls-IsKeyed f (c ∷ cs) m keyed = calls-IsKeyed f cs (call f sl c m) (call-IsKeyed f c m keyed)

  get_elem?-set :
      (ts : List (Tracker S F)) (i j : ℕ) (t u : Tracker S F)
      → get_elem? ts j ≡ some t
      → get_elem? (set ts i u) j ≡ some (if i == j then u else t)
  get_elem?-set [] i j t u e = cc
  get_elem?-set (x ∷ ts) zero zero t u e = ground arith
  get_elem?-set (x ∷ ts) zero (suc j) t u e = e ∙ ground arith
  get_elem?-set (x ∷ ts) (suc i) zero t u e = e ∙ ground arith
  get_elem?-set (x ∷ ts) (suc i) (suc j) t u e = get_elem?-set ts i j t u e ∙ ground arith

  cancel_download-at :
      (m : DownloadStateManager K S F) (k : K) (j : ℕ) (t : Tracker S F)
      → get_elem? m.trackers j ≡ some t
      → get_elem? (cancel_download sl m k).0.trackers j
        ≡ some (if get_download m k == some j then cancel_tracker t else t)
  unfolding cancel_download get_download
  cancel_download-at m k j t at = elim (Option-cases (lookup k m.downloads)) [
    | inl e ↦ rw e at
    | inr (i, e) ↦ elim (Option-cases (get_elem? m.trackers i)) [
      | inl g ↦ rw (e, g) (ground (arith, at, g, nat_eq.beq_iff i j, ap (get_elem? m.trackers)))
      | inr (r, g) ↦ elim (Bool-cases (i == j)) [
        | inr other ↦
            rw (e, g) (get_elem?-set m.trackers i j t (cancel_tracker r) at ∙ ground (arith, other))
        | inl own ↦
            rw (e, g) (get_elem?-set m.trackers i j t (cancel_tracker r) at ∙ ground (arith, own))
      ]
    ]
  ]

-- After any calls on a new manager, `cancel_download` for a key cancels the tracker of the load that
-- the key has in flight, changes no other tracker, and the tracker it cancels is in a slot of that key.
pub cancel_download-own :
    {K S F : Type 0} ⦃same : Eq K⦄ (f : Floats F) (sl : Slot S K) (cs : List (Call K S F))
    → (k : K) (j : ℕ) (t : Tracker S F) → get_elem? (calls f sl cs empty).trackers j ≡ some t
    → (get_elem? (cancel_download sl (calls f sl cs empty) k).0.trackers j
        ≡ some (if get_download (calls f sl cs empty) k == some j then cancel_tracker t else t))
      × (get_download (calls f sl cs empty) k ≡ some j → sl.key t.slot ≡ k)
unfolding get_download lookup
cancel_download-own f sl cs k j t at = (
  cancel_download-at sl (calls f sl cs empty) k j t at,
  (λ own.
      let keyed = calls-IsKeyed sl f cs empty (λ i n l. cc) k j own in
      ground (arith, keyed, ap (key_of sl) at)),
)
