-- ===== src/Resources.antt =====
-- super-engine-daemon/src/resource_management: the request history of a client and its limits
-- (connection.rs), the table of clients (manager.rs), the limits and errors (mod.rs).
-- An instant of chrono is its count of nanoseconds, and each `Utc::now()` is an argument. A
-- difference of instants may be negative, so `a - b > d` is written `b + d < a`.
pub mod History
pub mod Manager
use super_engine.Prelude.{
  ℕ, ◌+◌, ◌*◌, ◌%◌, ◌^◌, ◌-◌, min, Bool, ◌||◌, Option, none, some, List, [], ◌∷◌, ◌++◌, length,
  keep, count, ltb, leb, ◌==◌, nat_eq, if◌then◌else◌, String, Eq, Result, ok, err, lookup, insert,
  remove, retain, contains_key, not,
}

pub record ResourceLimits : Type 0 where
  pub max_connections : ℕ
  pub max_requests_per_minute : ℕ
  pub max_requests_per_hour : ℕ
  pub connection_timeout_seconds : ℕ
  pub rate_limit_window_seconds : ℕ

abbrev pub default : ResourceLimits
default = record {
  max_connections = 100;
  max_requests_per_minute = 120;
  max_requests_per_hour = 3600;
  connection_timeout_seconds = 300;
  rate_limit_window_seconds = 60;
}

abbrev pub development : ResourceLimits
development = record {
  max_connections = 50;
  max_requests_per_minute = 300;
  max_requests_per_hour = 7200;
  connection_timeout_seconds = 600;
  rate_limit_window_seconds = 60;
}

abbrev pub production : ResourceLimits
production = record {
  max_connections = 20;
  max_requests_per_minute = 300;
  max_requests_per_hour = 7200;
  connection_timeout_seconds = 180;
  rate_limit_window_seconds = 60;
}

pub data ResourceError : Type 0 where
  connection_limit_exceeded : (current max : ℕ) → ResourceError
  rate_limit_exceeded : (requests window limit : ℕ) → ResourceError
  connection_timeout : (seconds : ℕ) → ResourceError
  resource_unavailable : ResourceError

-- One second in nanoseconds.
abbrev pub second : ℕ
second = 1000000000

-- `Duration::seconds(i64::try_from(n).unwrap_or(i64::MAX))`
abbrev pub seconds : ℕ → ℕ
seconds n = min n (2 ^ 63 - 1) * second

abbrev pub u32_max : ℕ
u32_max = 2 ^ 32 - 1

pub record RequestHistory : Type 0 where
  pub timestamps : List ℕ
  pub last_cleanup : ℕ

abbrev pub new_history : ℕ → RequestHistory
new_history now = record { timestamps = []; last_cleanup = now }

-- `timestamp > now - age`
abbrev pub is_recent : ℕ → ℕ → ℕ → Bool
is_recent now age t = ltb now (t + age)

-- The longest history that chrono can take from the clock: `now - Duration` panics where the result is
-- before the year -262143, which is more than this before 1970.
abbrev pub max_span_seconds : ℕ
max_span_seconds = 8000000000000

-- For at most `max_span_seconds`; beyond, the code panics.
unfoldable pub cleanup_old_entries : RequestHistory → ℕ → ℕ → RequestHistory
cleanup_old_entries h now max_age_seconds = record h {
  timestamps = keep (is_recent now (seconds max_age_seconds)) h.timestamps;
}

unfoldable pub add_request : RequestHistory → ℕ → ℕ → RequestHistory
unfolding cleanup_old_entries
add_request h now window_seconds =
    let pushed : RequestHistory = record h { timestamps = h.timestamps ++ now ∷ [] } in
    if length pushed.timestamps % 10 == 0 || ltb (h.last_cleanup + 300 * second) now
    then record (cleanup_old_entries pushed now ((window_seconds * 60) % 2 ^ 64)) {
      last_cleanup = now;
    }
    else pushed

unfoldable pub count_requests_in_window : RequestHistory → ℕ → ℕ → ℕ
count_requests_in_window h now window_seconds =
    min (count (is_recent now (seconds window_seconds)) h.timestamps) u32_max

pub record ConnectionInfo (K : Type 0) : Type 0 where
  pub connected_at : ℕ
  pub last_activity : ℕ
  pub request_history : RequestHistory
  pub client_id : K
  pub client_addr : Option String

module _ {K : Type 0} where
  unfoldable pub new_connection : K → Option String → ℕ → ConnectionInfo K
  new_connection client_id client_addr now = record {
    connected_at = now;
    last_activity = now;
    request_history = new_history now;
    client_id = client_id;
    client_addr = client_addr;
  }

  unfoldable pub is_timed_out : ConnectionInfo K → ℕ → ℕ → Bool
  is_timed_out c timeout_seconds now = ltb (c.last_activity + seconds timeout_seconds) now

  unfoldable pub add_request_and_check_limits :
      ConnectionInfo K → ResourceLimits → ℕ → ConnectionInfo K × Result (Unit {0}) ResourceError
  add_request_and_check_limits c limits now =
      let h = add_request c.request_history now limits.rate_limit_window_seconds in
      let c' : ConnectionInfo K = record c { request_history = h; last_activity = now } in
      let minute = count_requests_in_window h now 60 in
      let hour = count_requests_in_window h now 3600 in
      (
        c',
        if ltb limits.max_requests_per_minute minute
            then err (rate_limit_exceeded minute 60 limits.max_requests_per_minute)
            else if ltb limits.max_requests_per_hour hour
            then err (rate_limit_exceeded hour 3600 limits.max_requests_per_hour)
            else ok tt,
      )

pub record ResourceManager (K : Type 0) : Type 0 where
  pub limits : ResourceLimits
  pub connections : List (K × ConnectionInfo K)

pub record ResourceStats : Type 0 where
  pub total_connections : ℕ
  pub active_connections : ℕ
  pub total_requests_last_minute : ℕ
  pub total_requests_last_hour : ℕ
  pub max_connections : ℕ
  pub max_requests_per_minute : ℕ
  pub max_requests_per_hour : ℕ

module _ {K : Type 0} ⦃e : Eq K⦄ where
  abbrev pub with_limits : ResourceLimits → ResourceManager K
  with_limits limits = record { limits = limits; connections = [] }

  unfoldable pub register_connection :
      ResourceManager K
      → K
      → Option String
      → ℕ
      → ResourceManager K × Result (Unit {0}) ResourceError
  register_connection m client_id client_addr now =
      if contains_key client_id m.connections
      then (m, ok tt)
      else if leb m.limits.max_connections (length m.connections)
      then (m, err (connection_limit_exceeded (length m.connections) m.limits.max_connections))
      else (
        record m {
          connections = insert client_id (new_connection client_id client_addr now) m.connections;
        },
        ok tt,
      )

  unfoldable pub unregister_connection : ResourceManager K → K → ResourceManager K
  unregister_connection m client_id = record m { connections = remove client_id m.connections }

  unfoldable pub record_request :
      ResourceManager K → K → ℕ → ResourceManager K × Result (Unit {0}) ResourceError
  record_request m client_id now = elim (lookup client_id m.connections) [
    | some c ↦
        let (c', r) = add_request_and_check_limits c m.limits now in
        (record m { connections = insert client_id c' m.connections }, r)
    | none ↦ (m, err resource_unavailable)
  ]

  unfoldable pub connection_count : ResourceManager K → ℕ
  connection_count m = length m.connections

  -- One round of `cleanup_task`.
  unfoldable pub cleanup_round : ResourceManager K → ℕ → ResourceManager K
  cleanup_round m now = record m {
    connections =
        retain (λ c. not (is_timed_out c m.limits.connection_timeout_seconds now)) m.connections;
  }

  -- The loop of `get_stats`; the sums are of `u32`, which wraps in a release build.
  tally : ResourceLimits → ℕ → List (K × ConnectionInfo K) → ResourceStats → ResourceStats
  tally limits now [] stats = stats
  tally limits now ((k, c) ∷ rest) stats = tally limits now rest (
      if is_timed_out c limits.connection_timeout_seconds now then stats else record stats {
        active_connections = stats.active_connections + 1;
        total_requests_last_minute =
            (stats.total_requests_last_minute + count_requests_in_window c.request_history now 60)
            % 2 ^ 32;
        total_requests_last_hour =
            (stats.total_requests_last_hour + count_requests_in_window c.request_history now 3600)
            % 2 ^ 32;
      })

  unfoldable pub get_stats : ResourceManager K → ℕ → ResourceStats
  unfolding tally
  get_stats m now = tally m.limits now m.connections (record {
    total_connections = length m.connections;
    active_connections = 0;
    total_requests_last_minute = 0;
    total_requests_last_hour = 0;
    max_connections = m.limits.max_connections;
    max_requests_per_minute = m.limits.max_requests_per_minute;
    max_requests_per_hour = m.limits.max_requests_per_hour;
  })
