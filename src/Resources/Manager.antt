-- ===== src/Resources/Manager.antt =====
-- The table of clients (manager.rs) over whole runs: the cap, and what a client's entry depends on.
use super_engine.Prelude.{
  ℕ, ◌≤◌, ◌≡◌, refl, sym, subst, ◌∙◌, false, Option, some, List, [], ◌∷◌, length, String, Eq, ◌==◌,
  if◌then◌else◌, arith, lookup, length-insert, length-remove-le, length-retain-le, lookup-insert,
  lookup-remove, Option-cases, inl, inr, not, ◌&&◌, is_ok, ◌||◌, ltb, contains_key, lookup-retain,
  Bool-cases,
}
use super_engine.Resources.{
  ResourceLimits, ResourceManager, ConnectionInfo, with_limits, register_connection,
  unregister_connection, record_request, cleanup_round, connection_count, is_timed_out,
  add_request_and_check_limits, new_connection,
}
use super_engine.Resources.History.{record_all}

pub data Op (K : Type 0) : Type 0 where
  register : K → Option String → ℕ → Op K
  unregister : K → Op K
  request : K → ℕ → Op K
  cleanup : ℕ → Op K

module _ {K : Type 0} ⦃e : Eq K⦄ where
  abbrev pub apply : ResourceManager K → Op K → ResourceManager K
  apply m (register k addr now) = (register_connection m k addr now).0
  apply m (unregister k) = unregister_connection m k
  apply m (request k now) = (record_request m k now).0
  apply m (cleanup now) = cleanup_round m now

  unfoldable pub run : ResourceManager K → List (Op K) → ResourceManager K
  run m [] = m
  run m (op ∷ ops) = run (apply m op) ops

  record WithinCap (limits : ResourceLimits) (m : ResourceManager K) : Type 0 where
    same : m.limits ≡ limits
    cap : length m.connections ≤ limits.max_connections

  apply-WithinCap :
      (limits : ResourceLimits) (m : ResourceManager K) (op : Op K)
      → WithinCap limits m
      → WithinCap limits (apply m op)
  unfolding register_connection unregister_connection record_request cleanup_round
  apply-WithinCap limits m (register k addr now) v =
      ground (arith, length-insert k (new_connection k addr now) m.connections)
  apply-WithinCap limits m (unregister k) v = ground (arith, length-remove-le k m.connections)
  apply-WithinCap limits m (request k now) v = elim (Option-cases (lookup k m.connections)) [
    | inl x ↦ ground arith
    | inr (c, x) ↦
        ground
          (arith, length-insert k (add_request_and_check_limits c m.limits now).0 m.connections)
  ]
  apply-WithinCap limits m (cleanup now) v = ground (
    arith,
    length-retain-le (λ c. not (is_timed_out c m.limits.connection_timeout_seconds now))
        m.connections,
  )

  run-WithinCap :
      (limits : ResourceLimits) (m : ResourceManager K) (ops : List (Op K))
      → WithinCap limits m
      → WithinCap limits (run m ops)
  unfolding run
  run-WithinCap limits m [] v = v
  run-WithinCap limits m (op ∷ ops) v =
      run-WithinCap limits (apply m op) ops (apply-WithinCap limits m op v)

  -- Whatever clients do, a manager that started empty never tracks more of them than its limit.
  pub run-cap :
      (limits : ResourceLimits) (ops : List (Op K))
      → connection_count (run (with_limits limits) ops) ≤ limits.max_connections
  unfolding connection_count
  run-cap limits ops =
      (run-WithinCap limits (with_limits limits) ops
        (record { same = refl; cap = omega arith })).cap

  -- A connection attempt succeeds exactly if the client is known or there is room for one more.
  -- After it, the client's own entry is the one it had, or a new one if it was let in, or none;
  -- and the entry of any other client is what it was.
  pub register_connection_outcome :
      (m : ResourceManager K) (k : K) (addr : Option String) (now : ℕ) (j : K)
      → (is_ok (register_connection m k addr now).1
          ≡ (contains_key k m.connections || ltb (length m.connections) m.limits.max_connections))
        × (lookup j (register_connection m k addr now).0.connections ≡ (
            if j == k
              && (not (contains_key k m.connections)
                  && ltb (length m.connections) m.limits.max_connections)
            then some (new_connection k addr now)
            else lookup j m.connections))
  unfolding register_connection
  register_connection_outcome m k addr now j = elim (Option-cases (lookup k m.connections)) [
    | inl x ↦ (
      ground arith,
      ground (
        arith,
        lookup-insert k j (new_connection k addr now) m.connections,
        e.beq_iff k j,
        e.beq_iff j k,
      ),
    )
    | inr (c, x) ↦ (ground arith, ground arith)
  ]

  -- What one operation does to the entry of client `k`, by what it is to that client alone.
  abbrev pub after : K → ResourceLimits → ConnectionInfo K → Op K → ConnectionInfo K
  after k limits c (request j t) = if j == k then (add_request_and_check_limits c limits t).0 else c
  after k limits c _ = c

  -- The operation does not take client `k` off the table.
  abbrev pub Spares : K → ResourceLimits → ConnectionInfo K → Op K → Type 0
  Spares k limits c (unregister j) = (j == k) ≡ false
  Spares k limits c (cleanup now) = is_timed_out c limits.connection_timeout_seconds now ≡ false
  Spares k limits c _ = Unit

  after_all : K → ResourceLimits → ConnectionInfo K → List (Op K) → ConnectionInfo K
  after_all k limits c [] = c
  after_all k limits c (op ∷ ops) = after_all k limits (after k limits c op) ops

  abbrev pub SparesAll : K → ResourceLimits → ConnectionInfo K → List (Op K) → Type 0
  SparesAll k limits c [] = Unit
  SparesAll k limits c (op ∷ ops) =
      Spares k limits c op × SparesAll k limits (after k limits c op) ops

  -- The instants of a client's own requests.
  abbrev pub own_requests : K → List (Op K) → List ℕ
  own_requests k [] = []
  own_requests k (request j t ∷ ops) =
      let rest = own_requests k ops in if j == k then t ∷ rest else rest
  own_requests k (_ ∷ ops) = own_requests k ops

  lookup-apply :
      (m : ResourceManager K) (k : K) (c : ConnectionInfo K) (op : Op K)
      → lookup k m.connections ≡ some c
      → Spares k m.limits c op
      → lookup k (apply m op).connections ≡ some (after k m.limits c op)
  unfolding register_connection unregister_connection record_request cleanup_round
  lookup-apply m k c (register j addr now) h s =
      ground (arith, lookup-insert j k (new_connection j addr now) m.connections, e.beq_iff j k)
  lookup-apply m k c (unregister j) h s = ground (arith, lookup-remove j k m.connections)
  lookup-apply m k c (request j t) h s = elim (Option-cases (lookup j m.connections)) [
    | inl x ↦ ground (arith, e.beq_iff j k)
    | inr (d, x) ↦ ground (
      arith,
      lookup-insert j k (add_request_and_check_limits d m.limits t).0 m.connections,
      e.beq_iff j k,
    )
  ]
  lookup-apply m k c (cleanup now) h s =
      lookup-retain (λ c'. not (is_timed_out c' m.limits.connection_timeout_seconds now)) k c
        m.connections h (rw s)

  history_after_all :
      (k : K) (limits : ResourceLimits) (c : ConnectionInfo K) (ops : List (Op K))
      → (after_all k limits c ops).request_history
        ≡ record_all c.request_history limits.rate_limit_window_seconds (own_requests k ops)
  unfolding after_all record_all add_request_and_check_limits
  history_after_all k limits c [] = refl
  history_after_all k limits c (register j addr t ∷ ops) = history_after_all k limits c ops
  history_after_all k limits c (unregister j ∷ ops) = history_after_all k limits c ops
  history_after_all k limits c (cleanup t ∷ ops) = history_after_all k limits c ops
  history_after_all k limits c (request j t ∷ ops) = elim (Bool-cases (j == k)) [
    | inl same ↦
        rw (same, after_all)
          (history_after_all k limits (add_request_and_check_limits c limits t).0 ops)
    | inr other ↦ rw (other, after_all) (history_after_all k limits c ops)
  ]

  limits-apply : (m : ResourceManager K) (op : Op K) → (apply m op).limits ≡ m.limits
  unfolding register_connection unregister_connection record_request cleanup_round
  limits-apply m (register j addr t) = ground arith
  limits-apply m (unregister j) = refl
  limits-apply m (request j t) = ground arith
  limits-apply m (cleanup t) = refl

  lookup-run :
      (m : ResourceManager K) (limits : ResourceLimits) (k : K) (c : ConnectionInfo K)
      (ops : List (Op K))
      → m.limits ≡ limits
      → lookup k m.connections ≡ some c
      → SparesAll k limits c ops
      → lookup k (run m ops).connections ≡ some (after_all k limits c ops)
  unfolding run after_all
  lookup-run m limits k c [] l h s = h
  lookup-run m limits k c (op ∷ ops) l h (s, ss) =
      let one = lookup-apply m k c op h (subst (λ r. Spares k r c op) (sym l) s) in
      lookup-run (apply m op) limits k (after k limits c op) ops (limits-apply m op ∙ l)
        (subst (λ r. lookup k (apply m op).connections ≡ some (after k r c op)) l one) ss

  -- A client that stays on the table has, after any sequence of operations, exactly the history
  -- that its own requests give: reconnecting does not reset it, and no other client adds to it.
  pub run-own_history :
      (m : ResourceManager K) (k : K) (c : ConnectionInfo K) (ops : List (Op K))
      → lookup k m.connections ≡ some c
      → SparesAll k m.limits c ops
      → (c' : ConnectionInfo K) × (lookup k (run m ops).connections ≡ some c')
        × (c'.request_history
            ≡ record_all c.request_history m.limits.rate_limit_window_seconds (own_requests k ops))
  run-own_history m k c ops h s = (
    after_all k m.limits c ops,
    lookup-run m m.limits k c ops refl h s,
    history_after_all k m.limits c ops,
  )
