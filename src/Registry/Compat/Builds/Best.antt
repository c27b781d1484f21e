-- ===== src/Registry/Compat/Builds/Best.antt =====
-- registry/compat.rs: which build `select` chooses.
use super_engine.Prelude.{
  ℕ, suc, zero, ◌+◌, ◌<◌, ◌≤◌, ◌≡◌, refl, sym, subst, ◌∙◌, Bool, true, false, Option, some, List,
  [], ◌∷◌, ◌==◌, nat_eq, bytes_eq, if◌then◌else◌, Text, text, any, ltb, keep, get_elem?, Member,
  All-Member, Option-cases, Bool-cases, inl, inr, arith, list_beq,
}
use super_engine.Registry.Host.{Host}
use super_engine.Registry.Ranking.{
  Score, beats_irrefl, best_of, FirstBest, best_of-FirstBest, best_of-some, is_better, is_as_good,
}
use super_engine.Registry.Compat.{IndexSubprocessAsset, from_asset, from_asset_panics, score}
use super_engine.Registry.Compat.Builds.{
  IndexBackend, Daemon, Versions, subprocess, enumerate_from, is_for, asset_score, by_target,
  select_asset, contract_block, select,
}

module _ {A : Type 0} (q : ℕ × A → Bool) where
  keep_yes : (p : ℕ × A) (l : List (ℕ × A)) → q p ≡ true → keep q (p ∷ l) ≡ p ∷ keep q l
  keep_yes p l e = ground arith

  keep_no : (p : ℕ × A) (l : List (ℕ × A)) → q p ≡ false → keep q (p ∷ l) ≡ keep q l
  keep_no p l e = ground arith

  -- An element at a place stands in the enumeration with that place.
  pub Member-keep :
      (k n j : ℕ) (xs : List A) (b : A)
      → n ≡ k + j
      → get_elem? xs j ≡ some b
      → q (n, b) ≡ true
      → Member (n, b) (keep q (enumerate_from k xs))
  unfolding enumerate_from
  Member-keep k n j [] b e g t = absurd (ground arith)
  Member-keep k n zero (x ∷ xs) b e g t =
      let same : (k, x) ≡ (n, b) = ground arith in
      subst (Member (n, b))
        (sym (keep_yes (k, x) (enumerate_from (suc k) xs) (subst (λ p. q p ≡ true) (sym same) t)))
        (inl same)
  Member-keep k n (suc j) (x ∷ xs) b e g t =
      let m = Member-keep (suc k) n j xs b (omega arith) g t in
      elim (Bool-cases (q (k, x))) [
        | inl y ↦
            subst (Member (n, b)) (sym (keep_yes (k, x) (enumerate_from (suc k) xs) y)) (inr m)
        | inr y ↦ subst (Member (n, b)) (sym (keep_no (k, x) (enumerate_from (suc k) xs) y)) m
      ]

  module _ (key : ℕ × A → Option Score) (s : Score) (i : ℕ) (a : A) where
    -- The chosen place lies in the list, and the chosen element stands there.
    placed :
        (k : ℕ) (xs : List A)
        → FirstBest key s (i, a) (keep q (enumerate_from k xs))
        → (d : ℕ) × (i ≡ k + d)
          × (get_elem? xs d ≡ some a)
          × (q (i, a) ≡ true)
          × (key (i, a) ≡ some s)
    unfolding enumerate_from
    placed k [] h = elim h [ ]
    placed k (x ∷ xs) h = elim (Bool-cases (q (k, x))) [
      | inr y ↦
          let (d, e, g, t, z) =
            placed (suc k) xs
              (subst (FirstBest key s (i, a)) (keep_no (k, x) (enumerate_from (suc k) xs) y) h) in
          (suc d, omega arith, g, t, z)
      | inl y ↦
          elim (subst (FirstBest key s (i, a)) (keep_yes (k, x) (enumerate_from (suc k) xs) y) h) [
            | inl (e, z, all) ↦ (
              0,
              ground arith,
              ground arith,
              subst (λ p. q p ≡ true) e y,
              subst (λ p. key p ≡ some s) e z,
            )
            | inr (z, later) ↦
                let (d, e, g, t, w) = placed (suc k) xs later in (suc d, omega arith, g, t, w)
          ]
    ]

    early :
        (n : ℕ) (b : A)
        → n < i
        → is_as_good (key (n, b)) s ≡ false
        → (if ltb n i then is_as_good (key (n, b)) s else is_better (key (n, b)) s) ≡ false
    early n b l h = ground arith

    late :
        (n : ℕ) (b : A)
        → i ≤ n
        → is_better (key (n, b)) s ≡ false
        → (if ltb n i then is_as_good (key (n, b)) s else is_better (key (n, b)) s) ≡ false
    late n b l h = ground arith

    itself : (n : ℕ) (b : A) → key (n, b) ≡ some s → is_better (key (n, b)) s ≡ false
    itself n b h = rw h (beats_irrefl s)

    -- Nothing before the chosen place is as good, and nothing is better.
    compared :
        (k n j : ℕ) (xs : List A) (b : A)
        → FirstBest key s (i, a) (keep q (enumerate_from k xs))
        → n ≡ k + j
        → get_elem? xs j ≡ some b
        → q (n, b) ≡ true
        → (if ltb n i then is_as_good (key (n, b)) s else is_better (key (n, b)) s) ≡ false
    unfolding enumerate_from
    compared k n j [] b h e g t = elim h [ ]
    compared k n zero (x ∷ xs) b h e g t =
        let same : ◌≡◌ {A = ℕ × A} (k, x) (n, b) = ground arith in
        let y : q (k, x) ≡ true = subst (λ p. q p ≡ true) (sym same) t in
        elim (subst (FirstBest key s (i, a)) (keep_yes (k, x) (enumerate_from (suc k) xs) y) h) [
          | inl (f, z, all) ↦
              late n b (ground arith) (itself n b (subst (λ p. key p ≡ some s) same z))
          | inr (z, later) ↦
              let (d, f, g', t', z') = placed (suc k) xs later in
              early n b (omega arith) (subst (λ p. is_as_good (key p) s ≡ false) same z)
        ]
    compared k n (suc j) (x ∷ xs) b h e g t = elim (Bool-cases (q (k, x))) [
      | inr y ↦
          compared (suc k) n j xs b
            (subst (FirstBest key s (i, a)) (keep_no (k, x) (enumerate_from (suc k) xs) y) h)
            (omega arith) g t
      | inl y ↦
          elim (subst (FirstBest key s (i, a)) (keep_yes (k, x) (enumerate_from (suc k) xs) y) h) [
            | inl (f, z, all) ↦ late n b (ground arith) (
                All-Member (λ p. is_better (key p) s ≡ false) (keep q (enumerate_from (suc k) xs))
                  (n, b) all (Member-keep (suc k) n j xs b (omega arith) g t))
            | inr (z, later) ↦ compared (suc k) n j xs b later (omega arith) g t
          ]
    ]

described :
    (host : Host) (assets : List IndexSubprocessAsset) (i j : ℕ) (a b : IndexSubprocessAsset)
    (s : Score)
    → FirstBest (asset_score host) s (i, a) (keep (λ p. is_for host p.1) (enumerate_from 0 assets))
    → get_elem? assets j ≡ some b
    → is_for host b ≡ true
    → (get_elem? assets i ≡ some a)
      × (is_for host a ≡ true)
      × (score host (from_asset a) ≡ some s)
      × ((if ltb j i
            then is_as_good (score host (from_asset b)) s
            else is_better (score host (from_asset b)) s)
          ≡ false)
described host assets i j a b s first g t =
    let q : ℕ × IndexSubprocessAsset → Bool = λ p. is_for host p.1 in
    let (d, at, ga, ta, ka) = placed q (asset_score host) s i a 0 assets first in
    let there : d ≡ i = omega (arith, at) in
    (
      subst (λ m. get_elem? assets m ≡ some a) there ga,
      ta,
      ka,
      compared q (asset_score host) s i a 0 j j assets b first (omega arith) g t,
    )

-- If `select` picks the build at `i`, then it is one for the host's target that the host can run;
-- and for any build `b` for that target, at a place `j`: if it stands before `i` it ranks lower or
-- cannot be run at all, and otherwise it does not rank higher. So the best build is picked, and of
-- equally good ones the first.
pub select-first_best :
    (v : Versions) (daemon : Daemon) (host : Host) (entry : IndexBackend) (i j : ℕ)
    (b : IndexSubprocessAsset)
    → select v daemon host entry ≡ some (subprocess i)
    → get_elem? entry.assets.subprocess j ≡ some b
    → is_for host b ≡ true
    → (a : IndexSubprocessAsset) × (s : Score) × (get_elem? entry.assets.subprocess i ≡ some a)
      × (is_for host a ≡ true)
      × (score host (from_asset a) ≡ some s)
      × ((if ltb j i
            then is_as_good (score host (from_asset b)) s
            else is_better (score host (from_asset b)) s)
          ≡ false)
unfolding select by_target
select-first_best v daemon host entry i j b h g t =
    elim (Option-cases (best_of (asset_score host) (by_target host entry))) [
      | inl e ↦ absurd (ground arith)
      | inr ((s, (n, a)), e) ↦
          let same : n ≡ i = ground arith in
          let first = best_of-FirstBest (asset_score host) (by_target host entry) s (n, a) e in
          let (there, fits, ranks, rest) =
            described host entry.assets.subprocess i j a b s
              (subst
                (λ m.
                  FirstBest (asset_score host) s (m, a)
                    (keep (λ p. is_for host p.1) (enumerate_from 0 entry.assets.subprocess)))
                same first)
              g t in
          (a, s, there, fits, ranks, rest)
    ]

select_asset-picks :
    (host : Host) (l : List (ℕ × IndexSubprocessAsset)) (x : ℕ × IndexSubprocessAsset)
    (r : Score × (ℕ × IndexSubprocessAsset))
    → Member x l
    → any (λ p. from_asset_panics p.1) l ≡ false
    → best_of (asset_score host) l ≡ some r
    → select_asset host l ≡ some (subprocess r.1.0)
select_asset-picks host [] x r m safe e = elim m [ ]
select_asset-picks host (y ∷ l) x r m safe e = ground arith

subprocess_kind :
    (kind : Text)
    → kind ≡ text "subprocess"
    → ((kind == text "wasm") ≡ false) × ((kind == text "subprocess") ≡ true)
unfolding list_beq
subprocess_kind kind e = rw e (refl, refl)

pub to_select_asset :
    (v : Versions) (daemon : Daemon) (host : Host) (entry : IndexBackend)
    → v.knows_contract entry.contract ≡ true
    → entry.kind ≡ text "subprocess"
    → select v daemon host entry ≡ select_asset host (by_target host entry)
unfolding select contract_block
to_select_asset v daemon host entry known kind =
    let (not_wasm, is_sub) = subprocess_kind entry.kind kind in ground (arith, not_wasm, is_sub)

-- If the daemon knows the contract of a subprocess backend, no declared target makes the parser
-- panic, and the host can run some build for its target, then a build is picked.
pub select-some :
    (v : Versions) (daemon : Daemon) (host : Host) (entry : IndexBackend) (j : ℕ)
    (b : IndexSubprocessAsset) (s : Score)
    → v.knows_contract entry.contract ≡ true
    → entry.kind ≡ text "subprocess"
    → any (λ p. from_asset_panics p.1) (by_target host entry) ≡ false
    → get_elem? entry.assets.subprocess j ≡ some b
    → is_for host b ≡ true
    → score host (from_asset b) ≡ some s
    → (i : ℕ) × (select v daemon host entry ≡ some (subprocess i))
unfolding by_target
select-some v daemon host entry j b s known kind safe g t e =
    let m = Member-keep (λ p. is_for host p.1) 0 j j entry.assets.subprocess b (omega arith) g t in
    let (r, p) = best_of-some (asset_score host) (by_target host entry) (j, b) s m e in
    (
      r.1.0,
      to_select_asset v daemon host entry known kind
          ∙ select_asset-picks host (by_target host entry) (j, b) r m safe p,
    )
