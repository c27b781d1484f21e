-- ===== src/Resources/History.antt =====
-- The request history (connection.rs) against the complete log of a client's requests.
use super_engine.Prelude.{
  ℕ, ◌+◌, ◌*◌, ◌%◌, ◌^◌, ◌≤◌, ◌≡◌, refl, min, Bool, true, List, [], ◌∷◌, ◌++◌, All, All-append,
  keep, count, count-append, ltb, if◌then◌else◌, arith, Result, ok, err, Bool-cases, inl, inr, ◌∙◌,
  ap, length, ◌||◌, ◌==◌, nat_eq,
}
use native.Mathlib.Nat.{zero-add}
use super_engine.Resources.{
  RequestHistory, new_history, is_recent, seconds, second, add_request, count_requests_in_window,
  max_span_seconds, u32_max, ConnectionInfo, ResourceLimits, ResourceError, rate_limit_exceeded,
  add_request_and_check_limits,
}

-- A client's requests at the given instants, one after another.
unfoldable pub record_all : RequestHistory → ℕ → List ℕ → RequestHistory
record_all h window [] = h
record_all h window (t ∷ ts) = record_all (add_request h t window) window ts

count-keep {ℓ} :
    {A : Type ℓ} (p q : A → Bool) (xs : List A)
    → ((x : A) → p x ≡ true → q x ≡ true)
    → count p (keep q xs) ≡ count p xs
count-keep p q [] imp = refl
count-keep p q (x ∷ xs) imp = ground (arith, imp x, count-keep p q xs imp)

-- How long `add_request` keeps a request at least, in nanoseconds.
abbrev pub kept : ℕ → ℕ
kept window = seconds ((window * 60) % 2 ^ 64)

is_recent_mono :
    (now t a b x : ℕ) → t ≤ now → a ≤ b → is_recent now a x ≡ true → is_recent t b x ≡ true
is_recent_mono now t a b x h k r = ground arith

module _ (now age window : ℕ) (fits : age ≤ kept window) where
  abbrev recent : List ℕ → ℕ
  recent xs = count (is_recent now age) xs

  recent-add_request :
      (h : RequestHistory) (t : ℕ)
      → t ≤ now
      → recent (add_request h t window).timestamps ≡ recent (h.timestamps ++ t ∷ [])
  unfolding add_request
  recent-add_request h t le =
      let pushed = h.timestamps ++ t ∷ [] in
      let same =
        count-keep (is_recent now age) (is_recent t (kept window)) pushed
          (λ x. is_recent_mono now t age (kept window) x le fits) in
      elim (Bool-cases (length pushed % 10 == 0 || ltb (h.last_cleanup + 300 * second) t)) [
        | inl e ↦ rw e same
        | inr e ↦ rw e refl
      ]

  pub recent-record_all :
      (h : RequestHistory) (ts : List ℕ)
      → All (λ t. t ≤ now) ts
      → recent (record_all h window ts).timestamps ≡ recent h.timestamps + recent ts
  unfolding record_all
  recent-record_all h [] les = omega arith
  recent-record_all h (t ∷ ts) (le, les) = omega (
    arith,
    recent-record_all (add_request h t window) ts les,
    recent-add_request h t le,
    count-append (is_recent now age) h.timestamps (t ∷ []),
  )

-- The clean-up never loses a request that still counts: over a window no longer than the history
-- that is kept, the count is that over the complete log, capped at `u32::MAX`.
pub count_requests_in_window-record_all :
    (start now age window : ℕ) (ts : List ℕ)
    → seconds age ≤ kept window
    → All (λ t. t ≤ now) ts
    → count_requests_in_window (record_all (new_history start) window ts) now age
      ≡ min (count (is_recent now (seconds age)) ts) u32_max
unfolding count_requests_in_window
count_requests_in_window-record_all start now age window ts fits les =
    let same = recent-record_all now (seconds age) window fits (new_history start) ts les in
    ap (λ n. min n u32_max) (same ∙ zero-add _)

record_all-append :
    (h : RequestHistory) (window : ℕ) (ts : List ℕ) (t : ℕ)
    → record_all h window (ts ++ t ∷ []) ≡ add_request (record_all h window ts) t window
unfolding record_all
record_all-append h window [] t = refl
record_all-append h window (s ∷ ts) t = record_all-append (add_request h s window) window ts t

-- How many requests of a complete log lie within the last `age` seconds, as a `u32`.
abbrev pub in_log : ℕ → ℕ → List ℕ → ℕ
in_log now age ts = min (count (is_recent now (seconds age)) ts) u32_max

-- The limits, applied to the two counts.
abbrev pub verdict : ResourceLimits → ℕ → ℕ → Result (Unit {0}) ResourceError
verdict limits minute hour =
    if ltb limits.max_requests_per_minute minute
    then err (rate_limit_exceeded minute 60 limits.max_requests_per_minute)
    else if ltb limits.max_requests_per_hour hour
    then err (rate_limit_exceeded hour 3600 limits.max_requests_per_hour)
    else ok tt

module _ (start now window : ℕ) (ts : List ℕ) (les : All (λ t. t ≤ now) ts) where
  after_request :
      (age : ℕ)
      → seconds age ≤ kept window
      → count_requests_in_window
          (add_request (record_all (new_history start) window ts) now window)
          now
          age
        ≡ in_log now age (ts ++ now ∷ [])
  after_request age fits = rw (← record_all-append (new_history start) window ts now) (
      count_requests_in_window-record_all start now age window (ts ++ now ∷ []) fits
        (All-append (λ t. t ≤ now) ts (now ∷ []) les (omega arith, tt)))

-- Where history is kept for an hour at least and for no longer than chrono can reckon, and where the
-- clock is not behind a request of the log, the verdict on a request is the one that the complete log
-- of the client's requests gives, this one included: refused over the minute limit first, over the
-- hour limit next, and accepted otherwise.
pub add_request_and_check_limits_exact :
    {K : Type 0} (c : ConnectionInfo K) (limits : ResourceLimits) (start now : ℕ) (ts : List ℕ)
    → c.request_history ≡ record_all (new_history start) limits.rate_limit_window_seconds ts
    → seconds 3600 ≤ kept limits.rate_limit_window_seconds
    → limits.rate_limit_window_seconds * 60 ≤ max_span_seconds
    → All (λ t. t ≤ now) ts
    → (add_request_and_check_limits c limits now).1
      ≡ verdict limits (in_log now 60 (ts ++ now ∷ [])) (in_log now 3600 (ts ++ now ∷ []))
unfolding add_request_and_check_limits
add_request_and_check_limits_exact c limits start now ts e fits span les =
    let w = limits.rate_limit_window_seconds in
    let minute = after_request start now w ts les 60 (omega (arith, fits)) in
    let hour = after_request start now w ts les 3600 fits in rw (e, minute, hour)
