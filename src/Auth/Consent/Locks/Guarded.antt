-- ===== src/Auth/Consent/Locks/Guarded.antt =====
-- auth/consent.rs: the map and the reference counts of the locks, in every state that is reached.
use super_engine.Prelude.{
  ℕ, ◌+◌, ◌≤◌, ◌≡◌, refl, sym, ap, subst, ◌∙◌, Bool, true, false, none, some, List, [], ◌∷◌, ◌==◌,
  nat_eq, ◌&&◌, count, count-set, get_elem?, if◌then◌else◌, leb, All, All-set, All-get_elem?,
  lookup, insert, remove, lookup-insert, lookup-remove, Option-cases, Bool-cases, inl, inr, arith,
}
use super_engine.Auth.Consent.{
  ConsentKey, key_eq, ConsentLocks, lock_for, lock_of, strong_count, release, drop_lock, remove_one,
  holds,
}
use super_engine.Auth.Consent.Locks.{
  Phase, waiting, asking, asked, released, gone, Request, Flows, is_asking, is_live, is_here,
  askers, at_phase, arrived, Step, arrive, acquire, answer, give_back, leave, Reach, start, next,
}

-- The map has a live request's lock under its key.
abbrev pub HasEntry : List (ConsentKey × ℕ) → Request → Type 0
HasEntry table r = is_live r.phase ≡ true → lookup r.key table ≡ some r.lock

abbrev here_at : ℕ → Request → Bool
here_at lock r = is_here r.phase && r.lock == lock

abbrev live_at : ℕ → Request → Bool
live_at lock r = is_live r.phase && r.lock == lock

abbrev pub asking_at : ℕ → Request → Bool
asking_at lock r = is_asking r.phase && r.lock == lock

-- Each request that is here holds one reference to its lock, and each lock has at most one asker.
abbrev pub IsGuarded : Flows → Type 0
IsGuarded f =
    All (HasEntry f.locks.locks) f.requests
    × ((l : ℕ) → count (λ h. h == l) f.locks.holders ≡ count (here_at l) f.requests)
    × ((l : ℕ) → askers f l ≤ 1)

All-imp :
    (P Q : Request → Type 0) (rs : List Request) → ((r : Request) → P r → Q r) → All P rs → All Q rs
All-imp P Q [] f h = tt
All-imp P Q (r ∷ rs) f (p, h) = (f r p, All-imp P Q rs f h)

All-both :
    (P Q S : Request → Type 0) (rs : List Request)
    → ((r : Request) → P r → Q r → S r)
    → All P rs
    → All Q rs
    → All S rs
All-both P Q S [] f h k = tt
All-both P Q S (r ∷ rs) f (p, h) (q, k) = (f r p q, All-both P Q S rs f h k)

live-le-here : (l : ℕ) (rs : List Request) → count (live_at l) rs ≤ count (here_at l) rs
live-le-here l [] = omega arith
live-le-here l (r ∷ rs) = ground (arith, live-le-here l rs)

count-none :
    (l : ℕ) (rs : List Request) → count (live_at l) rs ≡ 0 → All (λ r. live_at l r ≡ false) rs
count-none l [] h = tt
count-none l (r ∷ rs) h = (ground arith, count-none l rs (ground arith))

-- An entry counts for its lock.
lookup-count :
    (table : List (ConsentKey × ℕ)) (k : ConsentKey) (l : ℕ)
    → lookup k table ≡ some l
    → 1 ≤ count (holds l) table
unfolding lookup
lookup-count [] k l h = cc
lookup-count ((j, m) ∷ table) k l h = ground (arith, lookup-count table k l)

count-remove_one :
    (l m : ℕ) (hs : List ℕ)
    → 1 ≤ count (λ h. h == l) hs
    → count (λ h. h == m) (remove_one l hs) + (if l == m then 1 else 0) ≡ count (λ h. h == m) hs
unfolding remove_one
count-remove_one l m [] h = absurd (omega arith)
count-remove_one l m (x ∷ hs) h = ground (arith, count-remove_one l m hs)

lock_for-some :
    (c : ConsentLocks) (k : ConsentKey) (l : ℕ)
    → lookup k c.locks ≡ some l
    → lock_for c k ≡ (record c { holders = l ∷ c.holders }, l)
unfolding lock_for
lock_for-some c k l e = ap (lock_of c k) e

lock_for-none :
    (c : ConsentLocks) (k : ConsentKey)
    → lookup k c.locks ≡ none
    → lock_for c k ≡ (
      record {
        locks = insert k c.fresh c.locks;
        holders = c.fresh ∷ c.holders;
        fresh = c.fresh + 1;
      },
      c.fresh,
    )
unfolding lock_for
lock_for-none c k e = ap (lock_of c k) e

abbrev with_request : Flows → ConsentKey → ConsentLocks × ℕ → Flows
with_request f k (locks, lock) = record {
  locks = locks;
  requests = record { key = k; lock = lock; phase = waiting } ∷ f.requests;
}

arrive-IsGuarded : (f : Flows) (k : ConsentKey) → IsGuarded f → IsGuarded (arrived f k)
arrive-IsGuarded f k (entries, held, one) = elim (Option-cases (lookup k f.locks.locks)) [
  | inr (l, e) ↦
      subst (λ x. IsGuarded (with_request f k x)) (sym (lock_for-some f.locks k l e))
        (((λ live. e), entries), (λ m. ground (arith, held m)), (λ m. ground (arith, one m)))
  | inl e ↦
      subst (λ x. IsGuarded (with_request f k x)) (sym (lock_for-none f.locks k e))
        (
          (
            (λ live.
                lookup-insert k k f.locks.fresh f.locks.locks ∙ ground (arith, key_eq.beq_iff k k)),
            All-imp (HasEntry f.locks.locks) (HasEntry (insert k f.locks.fresh f.locks.locks))
                f.requests
                (λ r h live.
                  let other : (k == r.key) ≡ false = elim (Bool-cases (k == r.key)) [
                    | inr o ↦ o
                    | inl s ↦ absurd (
                        ground (
                          arith,
                          h live,
                          e,
                          ap (λ j. lookup j f.locks.locks) ((key_eq.beq_iff k r.key).0 s),
                        ))
                  ] in
                  lookup-insert k r.key f.locks.fresh f.locks.locks ∙ rw other (h live))
                entries,
          ),
          (λ m. ground (arith, held m)),
          (λ m. ground (arith, one m)),
        )
]

-- A change of phase of one request.
module _ (f : Flows) (i : ℕ) (r : Request) (at : get_elem? f.requests i ≡ some r) where
  counted :
      (p : Request → Bool) (q : Phase)
      → count p (at_phase f i r q) + (if p r then 1 else 0)
        ≡ count p f.requests + (if p (record r { phase = q }) then 1 else 0)
  counted p q = count-set p f.requests i r (record r { phase = q }) at

  acquire-IsGuarded :
      r.phase ≡ waiting
      → askers f r.lock ≡ 0
      → IsGuarded f
      → IsGuarded (record f { requests = at_phase f i r asking })
  acquire-IsGuarded ph free (entries, held, one) = (
    All-set (HasEntry f.locks.locks) f.requests i (record r { phase = asking }) entries
        (λ live. All-get_elem? (HasEntry f.locks.locks) f.requests i r entries at (ap is_live ph)),
    (λ m. ground (arith, held m, counted (here_at m) asking, ph)),
    (λ m. elim (Bool-cases (r.lock == m)) [
      | inl s ↦
          let none_yet = subst (λ l. askers f l ≡ 0) ((nat_eq.beq_iff r.lock m).0 s) free in
          ground (arith, none_yet, counted (asking_at m) asking, ph)
      | inr o ↦ ground (arith, one m, o, counted (asking_at m) asking, ph)
    ]),
  )

  answer-IsGuarded :
      r.phase ≡ asking → IsGuarded f → IsGuarded (record f { requests = at_phase f i r asked })
  answer-IsGuarded ph (entries, held, one) = (
    All-set (HasEntry f.locks.locks) f.requests i (record r { phase = asked }) entries
        (λ live. All-get_elem? (HasEntry f.locks.locks) f.requests i r entries at (ap is_live ph)),
    (λ m. ground (arith, held m, counted (here_at m) asked, ph)),
    (λ m. ground (arith, one m, counted (asking_at m) asked, ph)),
  )

  leave-IsGuarded :
      is_here r.phase ≡ true
      → IsGuarded f
      → IsGuarded (record { locks = drop_lock f.locks r.lock; requests = at_phase f i r gone })
  unfolding drop_lock
  leave-IsGuarded ph (entries, held, one) = (
    All-set (HasEntry f.locks.locks) f.requests i (record r { phase = gone }) entries (λ live. cc),
    (λ m.
        let some_holder : 1 ≤ count (λ h. h == r.lock) f.locks.holders =
          ground
            (arith, held r.lock, counted (here_at r.lock) gone, ph, nat_eq.beq_iff r.lock r.lock) in
        let dropped = count-remove_one r.lock m f.locks.holders some_holder in
        ground (arith, held m, counted (here_at m) gone, ph, dropped)),
    (λ m. ground (arith, one m, counted (asking_at m) gone)),
  )

  -- The entry goes only where no other request needs it.
  unneeded :
      r.phase ≡ asked
      → IsGuarded f
      → leb (strong_count f.locks r.lock) 2 ≡ true
      → All (λ q. live_at r.lock q ≡ false) (at_phase f i r released)
  unfolding strong_count
  unneeded ph (entries, held, one) few =
      let entry =
        All-get_elem? (HasEntry f.locks.locks) f.requests i r entries at (ap is_live ph) in
      let counts = lookup-count f.locks.locks r.key r.lock entry in
      let fewer = counted (live_at r.lock) released in
      let less = live-le-here r.lock f.requests in
      count-none r.lock (at_phase f i r released)
        (ground (arith, held r.lock, ph, few, counts, fewer, less, nat_eq.beq_iff r.lock r.lock))

  give_back-IsGuarded :
      r.phase ≡ asked
      → IsGuarded f
      → IsGuarded
          (record { locks = release f.locks r.key r.lock; requests = at_phase f i r released })
  unfolding release
  give_back-IsGuarded ph (entries, held, one) =
      let others =
        All-set (HasEntry f.locks.locks) f.requests i (record r { phase = released }) entries
          (λ live. cc) in
      let entry =
        All-get_elem? (HasEntry f.locks.locks) f.requests i r entries at (ap is_live ph) in
      let counts : ((m : ℕ)
          → count (λ h. h == m) f.locks.holders ≡ count (here_at m) (at_phase f i r released)) =
        λ m. ground (arith, held m, counted (here_at m) released, ph) in
      let asks : ((m : ℕ) → count (asking_at m) (at_phase f i r released) ≤ 1) =
        λ m. ground (arith, one m, counted (asking_at m) released, ph) in
      elim (Bool-cases (leb (strong_count f.locks r.lock) 2)) [
        | inr many ↦ rw many (others, counts, asks)
        | inl few ↦ rw few (
          All-both (HasEntry f.locks.locks) (λ q. live_at r.lock q ≡ false)
              (HasEntry (remove r.key f.locks.locks)) (at_phase f i r released)
              (λ q h idle live.
                let other : (r.key == q.key) ≡ false = elim (Bool-cases (r.key == q.key)) [
                  | inr o ↦ o
                  | inl s ↦
                      let same =
                        ap (λ k. lookup k f.locks.locks) ((key_eq.beq_iff r.key q.key).0 s) in
                      absurd (
                        ground (
                          arith,
                          sym (h live) ∙ sym same ∙ entry,
                          idle,
                          live,
                          nat_eq.beq_iff q.lock r.lock,
                        ))
                ] in
                lookup-remove r.key q.key f.locks.locks ∙ rw other (h live))
              others (unneeded ph (entries, held, one) few),
          counts,
          asks,
        )
      ]

Step-IsGuarded : {f g : Flows} → Step f g → IsGuarded f → IsGuarded g
Step-IsGuarded (arrive {f} k) h = arrive-IsGuarded f k h
Step-IsGuarded (acquire {f} i r at ph free) h = acquire-IsGuarded f i r at ph free h
Step-IsGuarded (answer {f} i r at ph) h = answer-IsGuarded f i r at ph h
Step-IsGuarded (give_back {f} i r at ph) h = give_back-IsGuarded f i r at ph h
Step-IsGuarded (leave {f} i r at ph) h = leave-IsGuarded f i r at ph h

pub Reach-IsGuarded : {f : Flows} → Reach f → IsGuarded f
Reach-IsGuarded start = (tt, (λ l. refl), (λ l. omega arith))
Reach-IsGuarded (next r s) = Step-IsGuarded s (Reach-IsGuarded r)
