-- ===== src/Downloads/Throttle.antt =====
-- download_progress.rs: how many events the bytes of one file send.
use super_engine.Prelude.{
  ℕ, ◌+◌, ◌*◌, ◌-◌, ◌≤◌, ◌≡◌, true, false, List, [], ◌∷◌, ◌==◌, nat_eq, bytes_eq, length, beq_refl,
  Bool-cases, inl, inr, arith,
}
use super_engine.Downloads.{
  Floats, Tracker, fixed_point, load_moved, percentage, is_due, broadcast_progress, Operation,
  store_bytes, broadcast, operate, run,
}
use super_engine.Downloads.Shown.{IsCalm, load_moved_self}

-- A percentage that is clamped to 0 to 100, times 100, rounds to at most 10000.
abbrev pub IsClamped : {F : Type 0} → Floats F → Type 0
IsClamped {F} f =
    (x : F) → f.as_u64 (f.round (f.mul (f.clamp x f.zero f.hundred) f.hundred)) ≤ 10000

-- Chunks of a file as they arrive: the bytes so far, and the seconds since the load began.
abbrev pub ticks : {F : Type 0} → List (ℕ × ℕ) → List (Operation F)
ticks [] = []
ticks ((bytes, elapsed) ∷ cs) = store_bytes bytes ∷ broadcast elapsed ∷ ticks cs

module _ {S F : Type 0} (f : Floats F) where
  -- Only the percentage can make a broadcast due.
  abbrev IsQuiet : Tracker S F → Type 0
  IsQuiet t =
      ((t.last_broadcast_status == t.status) ≡ true)
      × ((t.last_broadcast_total_bytes == t.total_bytes) ≡ true)
      × ((t.last_broadcast_file_index == t.file_index) ≡ true)
      × (load_moved f t.last_broadcast_load t.load ≡ false)

  broadcast_progress-IsQuiet :
      IsCalm f → (t : Tracker S F) (elapsed : ℕ) → IsQuiet (broadcast_progress f t elapsed)
  unfolding broadcast_progress
  broadcast_progress-IsQuiet calm t elapsed = elim (Bool-cases (is_due f t)) [
    | inl due ↦ rw due (
      beq_refl t.status,
      beq_refl t.total_bytes,
      beq_refl t.file_index,
      load_moved_self f calm t.load,
    )
    | inr quiet ↦
        rw quiet (
          ground (arith, quiet),
          ground (arith, quiet),
          ground (arith, quiet),
          ground (arith, quiet),
        )
  ]

  -- One chunk sends an event only where the percentage has moved on by a point.
  tick-length :
      IsClamped f
      → (t : Tracker S F) (elapsed : ℕ) → IsQuiet t
      → 100 * length (broadcast_progress f t elapsed).published
          + (10000 - (broadcast_progress f t elapsed).last_broadcast_percentage)
        ≤ 100 * length t.published + (10000 - t.last_broadcast_percentage)
  unfolding broadcast_progress fixed_point
  tick-length clamped t elapsed (st, total, file, load) = elim (Bool-cases (is_due f t)) [
    | inl due ↦ rw due (ground (arith, due, st, total, file, load, clamped (percentage f t)))
    | inr quiet ↦ rw quiet (omega arith)
  ]

  run-ticks-length :
      IsCalm f
      → IsClamped f
      → (cs : List (ℕ × ℕ)) (t : Tracker S F) → IsQuiet t
      → 100 * length (run f (ticks cs) t).published
        ≤ 100 * length t.published + (10000 - t.last_broadcast_percentage)
  unfolding run operate
  run-ticks-length calm clamped [] t q = omega arith
  run-ticks-length calm clamped ((bytes, elapsed) ∷ cs) t q =
      let stored = record t { bytes_downloaded = bytes } in
      let rest =
        run-ticks-length calm clamped cs (broadcast_progress f stored elapsed)
          (broadcast_progress-IsQuiet calm stored elapsed) in
      omega (arith, rest, tick-length clamped stored elapsed q)

-- However many chunks of a file arrive after a broadcast, each with a broadcast of its own, at most a
-- hundred events are sent for them. The percentage is clamped, and no difference of a float and itself
-- may count as a hundredth.
pub length-run-ticks :
    {S F : Type 0} (f : Floats F)
    → IsCalm f
    → IsClamped f
    → (t : Tracker S F) (elapsed : ℕ) (chunks : List (ℕ × ℕ))
    → length (run f (ticks chunks) (broadcast_progress f t elapsed)).published
      ≤ length (broadcast_progress f t elapsed).published + 100
length-run-ticks f calm clamped t elapsed chunks = omega (
  arith,
  run-ticks-length f calm clamped chunks (broadcast_progress f t elapsed)
      (broadcast_progress-IsQuiet f calm t elapsed),
)
