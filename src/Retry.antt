-- ===== src/Retry.antt =====
-- super-engine-client/src/retry.rs: the delay before a client connects again. A duration is its count
-- of nanoseconds, and the clock is an argument. Arithmetic wraps, as it does in a release build.
pub mod Backoff
use super_engine.Prelude.{
  ℕ, zero, suc, ◌+◌, ◌*◌, ◌-◌, ◌/◌, ◌%◌, ◌^◌, min, Bool, true, false, ◌==◌, nat_eq, if◌then◌else◌,
}

abbrev pub max_u64 : ℕ
max_u64 = 2 ^ 64 - 1

abbrev pub from_millis : ℕ → ℕ
from_millis ms = ms * 1000000

-- Saturates where the milliseconds do not fit.
unfoldable pub duration_millis : ℕ → ℕ
duration_millis d = min (d / 1000000) max_u64

pub record RetryStrategy : Type 0 where
  pub attempt : ℕ
  pub initial_delay : ℕ
  pub max_delay : ℕ
  pub use_exponential_backoff : Bool

abbrev pub default : RetryStrategy
default = record {
  attempt = 0;
  initial_delay = from_millis 1000;
  max_delay = from_millis 15000;
  use_exponential_backoff = true;
}

abbrev pub for_initial_connection : RetryStrategy
for_initial_connection = record {
  attempt = 0;
  initial_delay = from_millis 500;
  max_delay = from_millis 15000;
  use_exponential_backoff = true;
}

unfoldable pub capped_delay : RetryStrategy → ℕ
capped_delay s =
    min (min (duration_millis s.initial_delay * min (2 ^ s.attempt) max_u64) max_u64)
      (duration_millis s.max_delay)

-- `capped_delay + jitter - jitter_range` on 64 bits.
abbrev pub jittered : ℕ → ℕ → ℕ → ℕ
jittered capped range now =
    ((capped + duration_millis now % (range * 2)) % 2 ^ 64 + 2 ^ 64 - range) % 2 ^ 64

-- `now` is the time since the epoch, zero where the clock is before it.
unfoldable pub next_delay : RetryStrategy → ℕ → ℕ
next_delay s now =
    if s.use_exponential_backoff
    then if capped_delay s / 10 == 0
      then from_millis (capped_delay s)
      else from_millis (jittered (capped_delay s) (capped_delay s / 10) now)
    else s.initial_delay

unfoldable pub should_retry : RetryStrategy → RetryStrategy × Bool
should_retry s = (record s { attempt = (s.attempt + 1) % 2 ^ 32 }, true)

unfoldable pub reset : RetryStrategy → RetryStrategy
reset s = record s { attempt = 0 }

-- Failed attempts in a row.
unfoldable pub failures : ℕ → RetryStrategy → RetryStrategy
failures zero s = s
failures (suc n) s = (should_retry (failures n s)).0
