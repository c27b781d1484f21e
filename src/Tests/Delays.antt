-- ===== src/Tests/Delays.antt =====
-- The third retry of the first connection, and the one that is capped.
use super_engine.Prelude.{◌≡◌, refl, arith}
use super_engine.Retry.{
  for_initial_connection, failures, reset, next_delay, duration_millis, should_retry, capped_delay,
}
use super_engine.Retry.Backoff.{IsNear, doubled, next_delay-IsNear}

third : next_delay (failures 2 (reset for_initial_connection)) 1000000 ≡ 1801000000
unfolding next_delay failures reset duration_millis should_retry capped_delay
third = refl

next_delay-IsNear_example :
    IsNear
      (doubled for_initial_connection 7)
      (next_delay (failures 7 (reset for_initial_connection)) 1000000)
next_delay-IsNear_example =
    next_delay-IsNear for_initial_connection 7 1000000 refl (omega arith) (omega arith)
