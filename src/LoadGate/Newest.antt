-- ===== src/LoadGate/Newest.antt =====
-- load_gate.rs: which load starts. The counter wraps at 2 ^ 64, so the
-- statements are about fewer requests than that.
use super_engine.Prelude.{
  ℕ, zero, suc, ◌+◌, ◌%◌, ◌<◌, ◌≡◌, refl, false, some, List, [], ◌∷◌, ◌++◌, length, get_elem?, set,
  ap, subst, ◌∙◌, length-append, arith, ◌==◌, nat_eq, if◌then◌else◌, Option-cases, Bool-cases, inl,
  inr,
}
use super_engine.LoadGate.{
  Phase, waiting, locked, loading, superseded, done, Task, System, Event, arrive, acquire, check,
  finish, u64_mod, step, Reach, start, next,
}

-- Tickets are numbered in the order of arrival, from `n` on.
abbrev Numbered : ℕ → List Task → Type 0
Numbered n [] = Unit
Numbered n (t ∷ ts) = (t.ticket ≡ n) × Numbered (n + 1) ts

Numbered-append :
    (n : ℕ) (ts : List Task) (t : Task)
    → Numbered n ts
    → t.ticket ≡ n + length ts
    → Numbered n (ts ++ t ∷ [])
Numbered-append n [] t h e = (omega arith, tt)
Numbered-append n (x ∷ ts) t (p, h) e = (p, Numbered-append (n + 1) ts t h (omega arith))

Numbered-set :
    (n : ℕ) (ts : List Task) (i : ℕ) (t : Task) (p : Phase)
    → Numbered n ts
    → get_elem? ts i ≡ some t
    → Numbered n (set ts i (record t { phase = p }))
Numbered-set n [] i t p h e = tt
Numbered-set n (x ∷ ts) zero t p (q, h) e = (ground arith, h)
Numbered-set n (x ∷ ts) (suc i) t p (q, h) e = (q, Numbered-set (n + 1) ts i t p h e)

ticket_of_Numbered :
    (n : ℕ) (ts : List Task) (i : ℕ) (t : Task)
    → Numbered n ts
    → get_elem? ts i ≡ some t
    → t.ticket ≡ n + i
ticket_of_Numbered n [] i t h e = cc
ticket_of_Numbered n (x ∷ ts) zero t (q, h) e = ground arith
ticket_of_Numbered n (x ∷ ts) (suc i) t (q, h) e =
    omega (arith, ticket_of_Numbered (n + 1) ts i t h e)

length-set {ℓ} : {A : Type ℓ} (xs : List A) (i : ℕ) (v : A) → length (set xs i v) ≡ length xs
length-set [] i v = refl
length-set (x ∷ xs) zero v = refl
length-set (x ∷ xs) (suc i) v = ap suc (length-set xs i v)

get_elem?-set_self {ℓ} :
    {A : Type ℓ} (xs : List A) (i : ℕ) (x v : A)
    → get_elem? xs i ≡ some x
    → get_elem? (set xs i v) i ≡ some v
get_elem?-set_self [] i x v e = cc
get_elem?-set_self (y ∷ xs) zero x v e = refl
get_elem?-set_self (y ∷ xs) (suc i) x v e = get_elem?-set_self xs i x v e

record InOrder (s : System) : Type 0 where
  newest : s.gate.newest ≡ length s.tasks
  numbered : Numbered 1 s.tasks

-- A task that moves keeps its ticket, so the order is kept.
module _ (s u : System) (i : ℕ) (t : Task) (here : get_elem? s.tasks i ≡ some t) where
  moved-InOrder :
      (p : Phase)
      → set s.tasks i (record t { phase = p }) ≡ u.tasks
      → s.gate.newest ≡ u.gate.newest
      → length u.tasks < u64_mod
      → (length s.tasks < u64_mod → InOrder s)
      → InOrder u
  moved-InOrder p e g b v =
      let same = length-set s.tasks i (record t { phase = p }) in
      let w : InOrder s = v (omega (arith, same, ap length e)) in
      record {
        newest = cc (g, w.newest, ap length e, same);
        numbered = subst (Numbered 1) e (Numbered-set 1 s.tasks i t p w.numbered here);
      }

step-InOrder :
    (e : Event) (s u : System)
    → step e s ≡ some u
    → length u.tasks < u64_mod
    → (length s.tasks < u64_mod → InOrder s)
    → InOrder u
unfolding step
step-InOrder arrive s u h b v =
    let t : Task = record { ticket = (s.gate.newest + 1) % u64_mod; phase = waiting } in
    let e : s.tasks ++ t ∷ [] ≡ u.tasks = ground arith in
    let l = length-append s.tasks (t ∷ []) ∙ refl in
    let w : InOrder s = v (omega (arith, l, ap length e)) in
    record {
      newest = ground (arith, w.newest, l, ap length e);
      numbered =
          subst (Numbered 1) e
            (Numbered-append 1 s.tasks t w.numbered (omega (arith, w.newest, l, ap length e)));
    }
step-InOrder (acquire i) s u h b v = elim (Option-cases (get_elem? s.tasks i)) [
  | inl e ↦ absurd (ground arith)
  | inr (t, e) ↦ moved-InOrder s u i t e locked (ground arith) (ground arith) b v
]
step-InOrder (check i) s u h b v = elim (Option-cases (get_elem? s.tasks i)) [
  | inl e ↦ absurd (ground arith)
  | inr (t, e) ↦ elim (Bool-cases (s.gate.newest == t.ticket)) [
    | inl k ↦ moved-InOrder s u i t e loading (ground arith) (ground arith) b v
    | inr k ↦ moved-InOrder s u i t e superseded (ground arith) (ground arith) b v
  ]
]
step-InOrder (finish i) s u h b v = elim (Option-cases (get_elem? s.tasks i)) [
  | inl e ↦ absurd (ground arith)
  | inr (t, e) ↦ moved-InOrder s u i t e done (ground arith) (ground arith) b v
]

Reach-InOrder : {s : System} → Reach s → length s.tasks < u64_mod → InOrder s
Reach-InOrder start b = record { newest = refl; numbered = tt }
Reach-InOrder (next {s} {u} e r h) b = step-InOrder e s u h b (Reach-InOrder r)

-- With fewer than 2 ^ 64 requests so far, a task that holds the mutex and reads `newest` goes on to
-- load exactly if no request arrived after its own; otherwise it gives up, and the mutex is freed.
pub check-loads_iff_newest :
    (s : System) (i : ℕ) (t : Task)
    → Reach s
    → length s.tasks < u64_mod
    → get_elem? s.tasks i ≡ some t
    → t.phase ≡ locked
    → step (check i) s
      ≡ some (record {
        gate = if suc i == length s.tasks then s.gate else record s.gate { gate = false };
        tasks =
            set s.tasks i
              (record t { phase = if suc i == length s.tasks then loading else superseded });
      })
unfolding step
check-loads_iff_newest s i t r b e p =
    let v = Reach-InOrder r b in
    ground (arith, v.newest, ticket_of_Numbered 1 s.tasks i t v.numbered e)
