-- ===== src/Events/Topics/Opens.antt =====
-- events.rs: a stream that opens has the topics that were named, and the token's scopes grant each.
use super_engine.Prelude.{
  ◌≡◌, ◌≢◌, ◌↔◌, ◌⊎◌, refl, sym, ap, subst, ◌∙◌, true, false, not, ◌||◌, Option, none, some, List,
  [], ◌∷◌, ◌++◌, Text, Eq, ◌==◌, bytes_eq, Result, ok, map, any, contains, contains_iff, Member,
  All, Bool-cases, Option-cases, Result-cases, inl, inr, arith,
}
use super_engine.Auth.State.{passed}
use super_engine.Auth.Middleware.{AuthContext}
use super_engine.Events.Topics.{
  Topic, names, Subscription, answered, pushed, collect_one, collect, at_least_one, parse_topics,
  gate, stream_for, stream,
}

module _ {T : Type 0} ⦃same : Eq T⦄ where
  -- No topic twice.
  abbrev pub IsDistinct : List T → Type 0
  IsDistinct [] = Unit
  IsDistinct (t ∷ ts) = (contains ts t ≡ false) × IsDistinct ts

  contains-snoc : (ts : List T) (t u : T) → contains (ts ++ t ∷ []) u ≡ (contains ts u || t == u)
  contains-snoc [] t u = ground arith
  contains-snoc (x ∷ ts) t u = ground (arith, contains-snoc ts t u)

  IsDistinct-snoc :
      (ts : List T) (t : T) → contains ts t ≡ false → IsDistinct ts → IsDistinct (ts ++ t ∷ [])
  IsDistinct-snoc [] t h d = (refl, tt)
  IsDistinct-snoc (x ∷ ts) t h (other, d) = (
    ground (arith, contains-snoc ts t x, same.beq_iff x t, same.beq_iff t x, h, other),
    IsDistinct-snoc ts t (ground (arith, h)) d,
  )

  abbrev pub IsNamed : Topic T → List Text → T → Type 0
  IsNamed top raws t = Member (some t) (map top.from_wire raws)

  -- Distinct, and each one named before or by what is still to be read.
  abbrev Collected : Topic T → List T → List Text → List T → Type 0
  Collected top requested raws ts =
      IsDistinct ts × ((t : T) → Member t ts ↔ (Member t requested ⊎ IsNamed top raws t))

  pushed-IsDistinct : (ts : List T) (t : T) → IsDistinct ts → IsDistinct (pushed ts t)
  pushed-IsDistinct ts t d = elim (Bool-cases (contains ts t)) [
    | inl old ↦ rw old d
    | inr new ↦ rw new (IsDistinct-snoc ts t new d)
  ]

  contains-pushed : (ts : List T) (t u : T) → contains (pushed ts t) u ≡ (contains ts u || t == u)
  contains-pushed ts t u = elim (Bool-cases (contains ts t)) [
    | inl old ↦ rw old (elim (Bool-cases (t == u)) [
      | inl e ↦
          let there = subst (λ v. contains ts v ≡ true) ((same.beq_iff t u).0 e) old in
          ground (arith, there)
      | inr e ↦ ground (arith, e)
    ])
    | inr new ↦ rw new (contains-snoc ts t u)
  ]

  Member-pushed : (ts : List T) (t u : T) → Member u (pushed ts t) ↔ (Member u ts ⊎ (t ≡ u))
  Member-pushed ts t u = (
    (λ m.
        let there = (contains_iff (pushed ts t) u).1 m in
        let split = contains-pushed ts t u in
        elim (Bool-cases (contains ts u)) [
          | inl old ↦ inl ((contains_iff ts u).0 old)
          | inr new ↦ inr ((same.beq_iff t u).0 (ground (arith, there, split, new)))
        ]),
    (λ m.
        let split = contains-pushed ts t u in
        elim m [
          | inl old ↦
              let there = (contains_iff ts u).1 old in
              (contains_iff (pushed ts t) u).0 (ground (arith, there, split))
          | inr e ↦
              let equal = (same.beq_iff t u).1 e in
              (contains_iff (pushed ts t) u).0 (ground (arith, equal, split))
        ]),
  )

  collect-Collected :
      (top : Topic T) (requested : List T) (raws : List Text) (ts : List T)
      → collect top requested raws ≡ ok ts
      → IsDistinct requested
      → Collected top requested raws ts
  collect-Collected top requested [] ts h d =
      subst (λ us. Collected top requested [] us) (ground (arith, h))
        (d, λ t. ((λ m. inl m), (λ m. elim m [ inl old ↦ old | inr never ↦ absurd never ])))
  collect-Collected top requested (raw ∷ raws) ts h d =
      let one = λ (o : Option T). collect_one (λ us. collect top us raws) requested raw o in
      elim (Option-cases (top.from_wire raw)) [
        | inl e ↦ absurd (ground (arith, sym (ap one e) ∙ h))
        | inr (t, e) ↦
            let (distinct, all) =
              collect-Collected top (pushed requested t) raws ts (sym (ap one e) ∙ h)
                (pushed-IsDistinct requested t d) in
            (
              distinct,
              λ u. (
                (λ m. elim ((all u).0 m) [
                  | inr later ↦ inr (inr later)
                  | inl now ↦ elim ((Member-pushed requested t u).0 now) [
                    | inl old ↦ inl old
                    | inr is ↦ inr (inl (e ∙ ap some is))
                  ]
                ]),
                (λ m. elim m [
                  | inl old ↦ (all u).1 (inl ((Member-pushed requested t u).1 (inl old)))
                  | inr (inr later) ↦ (all u).1 (inr later)
                  | inr (inl first) ↦
                      (all u).1 (
                        inl ((Member-pushed requested t u).1 (inr (ground (arith, sym e ∙ first)))))
                ]),
              ),
            )
      ]

  any_not_granted :
      (top : Topic T) (scopes : List Text) (ts : List T)
      → any (λ t. not (contains scopes (top.required_scope t))) ts ≡ false
      → All (λ t. Member (top.required_scope t) scopes) ts
  any_not_granted top scopes [] h = tt
  any_not_granted top scopes (t ∷ ts) h = (
    (contains_iff scopes (top.required_scope t)).0 (ground (arith, h)),
    any_not_granted top scopes ts (ground (arith, h)),
  )

  -- What an open stream has: its topics are those that the query names, each once, and the scopes of
  -- the session grant each of them.
  pub record IsGranted (top : Topic T) (topics : Option Text) (ctx : Option AuthContext)
      (sub : Subscription T) : Type 0 where
    pub csv : Text
    pub query : topics ≡ some csv
    pub context : AuthContext
    pub session : ctx ≡ some context
    pub some_topic : sub.receivers ≢ []
    pub distinct : IsDistinct sub.receivers
    pub named : (t : T) → Member t sub.receivers ↔ IsNamed top (names csv) t
    pub granted : All (λ t. Member (top.required_scope t) context.meta.scopes) sub.receivers
    pub acknowledged : sub.subscribed_to ≡ map top.as_str sub.receivers

  gate-IsGranted :
      (top : Topic T) (csv : Text) (t : T) (ts : List T) (ctx : Option AuthContext)
      (sub : Subscription T)
      → Collected top [] (names csv) (t ∷ ts)
      → gate top (t ∷ ts) ctx ≡ answered (passed sub)
      → IsGranted top (some csv) ctx sub
  gate-IsGranted top csv t ts none sub c h = cc
  gate-IsGranted top csv t ts (some ctx) sub (distinct, all) h =
      elim (Bool-cases
        (any (λ u. not (contains ctx.meta.scopes (top.required_scope u))) (t ∷ ts))) [
          | inl denied ↦ absurd (ground (arith, h, denied))
          | inr fine ↦
              subst (λ s. IsGranted top (some csv) (some ctx) s) (ground (arith, h, fine))
                (record {
                  csv = csv;
                  query = refl;
                  context = ctx;
                  session = refl;
                  some_topic = λ (e : t ∷ ts ≡ []). cc;
                  distinct = distinct;
                  named = λ u. (
                    (λ m. elim ((all u).0 m) [ inl never ↦ absurd never | inr now ↦ now ]),
                    (λ m. (all u).1 (inr m)),
                  );
                  granted = any_not_granted top ctx.meta.scopes (t ∷ ts) fine;
                  acknowledged = refl;
                })
        ]

  -- A stream that opens has the topics that its query names, at least one and each once, and the
  -- scopes of the session that the guard attached grant every one of them. The names that it acknowledges are those of its topics, in their
  -- order.
  pub stream-IsGranted :
      (top : Topic T) (topics : Option Text) (ctx : Option AuthContext) (sub : Subscription T)
      → stream top topics ctx ≡ answered (passed sub)
      → IsGranted top topics ctx sub
  unfolding stream parse_topics
  stream-IsGranted top none ctx sub h = cc
  stream-IsGranted top (some []) ctx sub h = cc
  stream-IsGranted top (some (c ∷ csv)) ctx sub h =
      let answer = λ (r : Result (List T) Text). stream_for top (at_least_one r) ctx in
      elim (Result-cases (collect top [] (names (c ∷ csv)))) [
        | inr (e, r) ↦ absurd (ground (arith, sym (ap answer r) ∙ h))
        | inl ([], r) ↦ absurd (ground (arith, sym (ap answer r) ∙ h))
        | inl (t ∷ ts, r) ↦
            gate-IsGranted top (c ∷ csv) t ts ctx sub
              (collect-Collected top [] (names (c ∷ csv)) (t ∷ ts) r tt) (sym (ap answer r) ∙ h)
      ]
