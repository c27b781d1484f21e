-- ===== src/Retry/Backoff.antt =====
-- retry.rs: the delay doubles up to its cap, within a tenth.
use super_engine.Prelude.{
  ℕ, zero, suc, ◌+◌, ◌*◌, ◌-◌, ◌/◌, ◌^◌, ◌≤◌, ◌<◌, ◌≡◌, refl, sym, ap, subst, min, true, false,
  ◌==◌, nat_eq, leb, Bool-cases, inl, inr, arith,
}
use super_engine.Retry.{
  max_u64, from_millis, duration_millis, RetryStrategy, capped_delay, jittered, next_delay,
  should_retry, reset, failures,
}

-- After `n` failures since the last reset, below the wrap of the counter.
failures-reset :
    (n : ℕ) (s : RetryStrategy) → n < 2 ^ 32 → failures n (reset s) ≡ record s { attempt = n }
unfolding failures reset should_retry
failures-reset zero s h = refl
failures-reset (suc n) s h =
    rw (failures-reset n s (omega arith)) (ap (λ a. record s { attempt = a }) (omega arith))

-- Saturation does not show below a cap that 64 bits hold.
saturated : (b p m c : ℕ) → c ≤ m → min (min (b * min p m) m) c ≡ min (b * p) c
saturated zero p m c h = omega arith
saturated (suc b) p m c h = elim (Bool-cases (leb p m)) [
  | inl fits ↦ let same : min p m ≡ p = ground (arith, fits) in rw same (omega arith)
  | inr over ↦ let same : min p m ≡ m = ground (arith, over) in rw same (ground (arith, over))
]

jittered-bounds :
    (c now : ℕ)
    → c < 2 ^ 63
    → (c / 10 == 0) ≡ false
    → (c - c / 10 ≤ jittered c (c / 10) now) × (jittered c (c / 10) now < c + c / 10)
jittered-bounds c now small range = ground (arith, range)

-- The delay doubles for each failure up to its cap, in milliseconds.
abbrev pub doubled : RetryStrategy → ℕ → ℕ
doubled s n = min (duration_millis s.initial_delay * 2 ^ n) (duration_millis s.max_delay)

capped_delay-doubled :
    (s : RetryStrategy) (n : ℕ) → capped_delay (record s { attempt = n }) ≡ doubled s n
unfolding capped_delay duration_millis
capped_delay-doubled s n =
    saturated (duration_millis s.initial_delay) (2 ^ n) max_u64 (duration_millis s.max_delay)
      (omega arith)

doubled-lt : (s : RetryStrategy) (n : ℕ) → s.max_delay < from_millis (2 ^ 63) → doubled s n < 2 ^ 63
unfolding duration_millis
doubled-lt s n h = ground (arith, h)

-- A delay near a number of milliseconds: at most a tenth away.
abbrev pub IsNear : ℕ → ℕ → Type 0
IsNear c delay = (from_millis (c - c / 10) ≤ delay) × (delay ≤ from_millis (c + c / 10))

next_delay_within_tenth :
    (s : RetryStrategy) (now : ℕ)
    → s.use_exponential_backoff ≡ true
    → capped_delay s < 2 ^ 63
    → IsNear (capped_delay s) (next_delay s now)
unfolding next_delay capped_delay
next_delay_within_tenth s now on small = elim (Bool-cases (capped_delay s / 10 == 0)) [
  | inl flat ↦ rw (on, flat) (omega arith, omega arith)
  | inr wide ↦
      let (low, high) = jittered-bounds (capped_delay s) now small wide in
      rw (on, wide) (omega (arith, low), omega (arith, high))
]

-- With exponential backoff, after `n` failures in a row since the last reset, the next delay is within a
-- tenth of the initial delay times `2 ^ n`, capped at the maximal delay, whatever the clock says. The
-- counter has not wrapped, and the maximal delay is below `2 ^ 63` milliseconds.
pub next_delay-IsNear :
    (s : RetryStrategy) (n now : ℕ)
    → s.use_exponential_backoff ≡ true
    → n < 2 ^ 32
    → s.max_delay < from_millis (2 ^ 63)
    → IsNear (doubled s n) (next_delay (failures n (reset s)) now)
next_delay-IsNear s n now on few small =
    let same = capped_delay-doubled s n in
    rw (failures-reset n s few) (
      subst (λ c. IsNear c (next_delay (record s { attempt = n }) now)) same
        (next_delay_within_tenth (record s { attempt = n }) now on
          (subst (λ c. c < 2 ^ 63) (sym same) (doubled-lt s n small))))
