-- ===== src/Downloads/Shown.antt =====
-- download_progress.rs: what clients know of a load is current after each broadcast.
use super_engine.Prelude.{
  ℕ, ◌+◌, ◌<◌, ◌≡◌, refl, sym, subst, ◌∙◌, Bool, true, false, Option, none, some, List, [], ◌∷◌,
  ◌==◌, nat_eq, bytes_eq, option_eq_of, beq_refl, if◌then◌else◌, Text, text, leb, ltb, Bool-cases,
  inl, inr, arith, not, ◌||◌, ◌&&◌,
}
use super_engine.Downloads.{
  Floats, LoadProgress, Progress, Tracker, text_beq, progress_moved, fixed_point, load_moved,
  percentage, is_due, broadcast_progress, new, Operation, start_file, cancel, mark_verifying,
  mark_downloading, mark_loading, mark_completed, mark_error, set_load_progress, store_bytes,
  store_total, broadcast, operate, run,
}

-- A float is not a hundredth away from itself; `NaN` is at no distance from anything.
abbrev pub IsCalm : {F : Type 0} → Floats F → Type 0
IsCalm {F} f = (x : F) → f.at_least (f.abs (f.sub x x)) f.hundredth ≡ false

text_beq_self : (t : Option Text) → text_beq t t ≡ true
text_beq_self t = ((option_eq_of bytes_eq).beq_iff t t).1 refl

progress_moved_self :
    {F : Type 0} (f : Floats F) → IsCalm f → (p : Option F) → progress_moved f p p ≡ false
progress_moved_self f calm none = refl
progress_moved_self f calm (some x) = calm x

-- The load report is the one that was sent, up to a percentage point.
pub load_moved_self :
    {F : Type 0} (f : Floats F)
    → IsCalm f
    → (l : Option (LoadProgress F)) → load_moved f l l ≡ false
load_moved_self f calm none = refl
load_moved_self f calm (some l) =
    ground
      (arith, text_beq_self l.phase, text_beq_self l.step, progress_moved_self f calm l.progress)

module _ {S F : Type 0} (f : Floats F) where
  -- The event has the current status, size and file, and the rest up to a percentage point.
  abbrev pub Shows : Progress S F → Tracker S F → Type 0
  Shows p t =
      (p.status ≡ t.status)
      × (p.total_bytes ≡ t.total_bytes)
      × (p.file_index ≡ t.file_index)
      × (load_moved f p.load t.load ≡ false)
      × (fixed_point f (percentage f t) < fixed_point f p.percentage + 100)

  abbrev IsShownBy : List (Progress S F) → Tracker S F → Type 0
  IsShownBy [] t = ⊥
  IsShownBy (p ∷ ps) t = Shows p t

  -- The newest event of a tracker shows it.
  abbrev pub IsShown : Tracker S F → Type 0
  IsShown t = IsShownBy t.published t

  -- The `last_broadcast` fields are those of the newest event: the status, size, file, load and
  -- percentage.
  abbrev Remembers : List (Progress S F) → Text → ℕ → ℕ → Option (LoadProgress F) → ℕ → Type 0
  Remembers [] status total file load pct = status ≡ text ""
  Remembers (p ∷ ps) status total file load pct =
      (p.status ≡ status)
      × (p.total_bytes ≡ total)
      × (p.file_index ≡ file)
      × (p.load ≡ load)
      × (fixed_point f p.percentage ≡ pct)

  abbrev RemembersLast : List (Progress S F) → Tracker S F → Type 0
  RemembersLast ps t =
      Remembers ps t.last_broadcast_status t.last_broadcast_total_bytes t.last_broadcast_file_index
        t.last_broadcast_load t.last_broadcast_percentage

  abbrev IsInStep : Tracker S F → Type 0
  IsInStep t = RemembersLast t.published t × ((t.status == text "") ≡ false)

  broadcast_progress-IsInStep :
      (t : Tracker S F) (elapsed : ℕ) → IsInStep t → IsInStep (broadcast_progress f t elapsed)
  unfolding broadcast_progress
  broadcast_progress-IsInStep t elapsed h = elim (Bool-cases (is_due f t)) [
    | inl due ↦ rw due ((refl, refl, refl, refl, refl), h.1)
    | inr calm ↦ rw calm h
  ]

  operate-IsInStep : (o : Operation F) (t : Tracker S F) → IsInStep t → IsInStep (operate f o t)
  unfolding operate super_engine.Prelude.list_beq
  operate-IsInStep (start_file name i) t h = h
  operate-IsInStep cancel t h = (h.0, refl)
  operate-IsInStep mark_verifying t h = (h.0, refl)
  operate-IsInStep mark_downloading t h = (h.0, refl)
  operate-IsInStep mark_loading t h = (h.0, refl)
  operate-IsInStep mark_completed t h = (h.0, refl)
  operate-IsInStep (mark_error e) t h = (h.0, refl)
  operate-IsInStep (set_load_progress l) t h = h
  operate-IsInStep (store_bytes n) t h = h
  operate-IsInStep (store_total n) t h = h
  operate-IsInStep (broadcast elapsed) t h = broadcast_progress-IsInStep t elapsed h

  run-IsInStep : (os : List (Operation F)) (t : Tracker S F) → IsInStep t → IsInStep (run f os t)
  unfolding run
  run-IsInStep [] t h = h
  run-IsInStep (o ∷ os) t h = run-IsInStep os (operate f o t) (operate-IsInStep o t h)

  -- Where nothing is due, the newest event still shows the tracker.
  remembered_shown :
      (ps : List (Progress S F)) (t : Tracker S F)
      → RemembersLast ps t
      → (t.status == text "") ≡ false
      → is_due f t ≡ false
      → IsShownBy ps t
  remembered_shown [] t h s due = absurd (
      ground (
        arith,
        bytes_eq.beq_iff t.last_broadcast_status t.status,
        bytes_eq.beq_iff t.status (text ""),
        h,
        s,
        due,
      ))
  remembered_shown (p ∷ ps) t (st, total, file, load, pct) s due = (
    st ∙ (bytes_eq.beq_iff t.last_broadcast_status t.status).0 (ground (arith, due)),
    ground (arith, total, due),
    ground (arith, file, due),
    subst (λ l. load_moved f l t.load ≡ false) (sym load) (ground (arith, due)),
    ground (arith, pct, due),
  )

  broadcast_progress-IsShown :
      IsCalm f
      → (t : Tracker S F) (elapsed : ℕ) → IsInStep t
      → IsShown (broadcast_progress f t elapsed)
  unfolding broadcast_progress
  broadcast_progress-IsShown calm t elapsed h = elim (Bool-cases (is_due f t)) [
    | inl due ↦ rw due (refl, refl, refl, load_moved_self f calm t.load, omega arith)
    | inr quiet ↦ rw quiet (remembered_shown t.published t h.0 h.1 quiet)
  ]

-- After any operations on a new tracker and then one broadcast, the newest event on the bus has the
-- tracker's status, its size and the number of its file, the load report as it is up to a percentage point, and a
-- percentage at most a point behind. No difference of a float and itself may count as a hundredth.
pub run-IsShown :
    {S F : Type 0} (f : Floats F)
    → IsCalm f
    → (model : Text) (slot : S) (total_files : ℕ) (is_cancelled : Bool) (now : Text)
    → (os : List (Operation F)) (elapsed : ℕ)
    → IsShown f
        (broadcast_progress f (run f os (new model slot total_files is_cancelled now)) elapsed)
unfolding super_engine.Prelude.list_beq
run-IsShown f calm model slot n c now os elapsed =
    broadcast_progress-IsShown f calm (run f os (new model slot n c now)) elapsed
      (run-IsInStep f os (new model slot n c now) (refl, refl))
