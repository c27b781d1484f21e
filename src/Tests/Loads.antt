-- ===== src/Tests/Loads.antt =====
-- A load of one file of two hundred bytes, with whole numbers for floats: percentages are exact.
use super_engine.Prelude.{
  ℕ, ◌-◌, ◌+◌, ◌*◌, ◌/◌, ◌≤◌, ◌≡◌, refl, min, max, [], ◌∷◌, List, text, false, leb, arith, length,
  if◌then◌else◌, some, get_elem?, ◌==◌, nat_eq, option_nat_eq, lookup, insert,
}
use super_engine.Downloads.{
  Floats, Tracker, new, Operation, start_file, mark_downloading, store_bytes, store_total,
  broadcast, broadcast_progress, run, cancel_tracker,
}
use super_engine.Downloads.Loads.{
  Slot, Call, create, start, empty, start_download, get_download, cancel_download, call, calls,
}
use super_engine.Downloads.Loads.Own.{cancel_download-own}
use super_engine.Downloads.Shown.{IsCalm, IsShown, run-IsShown}
use super_engine.Downloads.Throttle.{IsClamped, ticks, length-run-ticks}

-- Hundredths.
abbrev whole : Floats ℕ
whole = record {
  from_u64 = λ n. n * 100;
  as_u64 = λ x. x / 100;
  div = λ a b. if leb b 0 then 0 else a * 100 / b;
  mul = λ a b. a * b / 100;
  sub = λ a b. a - b;
  abs = λ a. a;
  min = λ a b. min a b;
  clamp = λ x lo hi. min (max x lo) hi;
  round = λ x. x;
  as_f32 = λ x. x;
  at_least = λ a b. leb b a;
  zero = 0;
  hundredth = 1;
  hundred = 10000;
}

whole-IsCalm : IsCalm whole
whole-IsCalm x = ground arith

whole-IsClamped : IsClamped whole
whole-IsClamped x = ground arith

abbrev fresh : Tracker Unit ℕ
fresh = new (text "tiny") tt 1 false (text "2026-05-29T18:00:00Z")

abbrev fetching : List (Operation ℕ)
fetching =
    broadcast 0
    ∷ start_file (text "model.bin") 0
    ∷ store_total 200
    ∷ mark_downloading
    ∷ broadcast 1
    ∷ store_bytes 100
    ∷ []

run-IsShown_example : IsShown whole (
    broadcast_progress whole
      (run whole fetching (new (text "tiny") tt 1 false (text "2026-05-29T18:00:00Z")))
      2)
run-IsShown_example =
    run-IsShown whole whole-IsCalm (text "tiny") tt 1 false (text "2026-05-29T18:00:00Z") fetching 2

length-run-ticks_example :
    length
      (run whole
        (ticks ((50, 1) ∷ (51, 1) ∷ (200, 2) ∷ []))
        (broadcast_progress whole fresh 0)).published
    ≤ length (broadcast_progress whole fresh 0).published + 100
length-run-ticks_example =
    length-run-ticks whole whole-IsCalm whole-IsClamped fresh 0 ((50, 1) ∷ (51, 1) ∷ (200, 2) ∷ [])

-- Two loads of a product with two stages.
abbrev stages : Slot ℕ ℕ
stages = record { key = λ s. s; describe = λ s. some (text "stage") }

abbrev staged : ℕ → Tracker ℕ ℕ
staged s = new (text "tiny") s 1 false (text "2026-05-29T18:00:00Z")

abbrev two_stages : List (Call ℕ ℕ ℕ)
two_stages = create (staged 1) ∷ create (staged 2) ∷ start 0 ∷ start 1 ∷ []

cancel_download-own_example :
    (get_elem? (cancel_download stages (calls whole stages two_stages empty) 2).0.trackers 1
      ≡ some (
          if get_download (calls whole stages two_stages empty) 2 == some 1
          then cancel_tracker (staged 2)
          else staged 2))
    × (get_download (calls whole stages two_stages empty) 2 ≡ some 1
        → stages.key (staged 2).slot ≡ 2)
unfolding calls call start_download lookup insert
cancel_download-own_example = cancel_download-own whole stages two_stages 2 1 (staged 2) refl
