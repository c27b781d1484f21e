-- ===== src/Tests/Limits.antt =====
-- A client with three requests in ninety seconds, and a table with room for one.
use super_engine.Prelude.{ℕ, ◌*◌, ◌≡◌, refl, none, List, [], ◌∷◌, ◌++◌, nat_eq, arith}
use super_engine.Resources.{
  default, second, new_history, ConnectionInfo, new_connection, add_request_and_check_limits,
}
use super_engine.Resources.History.{record_all, add_request_and_check_limits_exact, in_log, verdict}

abbrev log : List ℕ
log = 10 * second ∷ 60 * second ∷ 100 * second ∷ []

abbrev logged : ConnectionInfo ℕ
logged = record (new_connection 7 none 0) { request_history = record_all (new_history 0) 60 log }

add_request_and_check_limits_exact_example :
    (add_request_and_check_limits logged default (110 * second)).1
    ≡ verdict default
        (in_log (110 * second) 60 (log ++ 110 * second ∷ []))
        (in_log (110 * second) 3600 (log ++ 110 * second ∷ []))
add_request_and_check_limits_exact_example =
    add_request_and_check_limits_exact logged default 0 (110 * second) log refl (omega arith)
      (omega arith) (omega arith, (omega arith, (omega arith, tt)))
