-- ===== src/Install/CarryOver/Arrives.antt =====
-- registry/carry_over.rs: what a `carry` that succeeds has moved.
use super_engine.Prelude.{
  ℕ, ◌+◌, ◌%◌, ◌^◌, ◌≡◌, refl, sym, ap, subst, ◌∙◌, true, false, Option, none, some, List, [], ◌∷◌,
  ◌==◌, bytes_eq, Text, all, is_some, is_ok, Member, Bool-cases, Option-cases, inl, inr, arith,
}
use super_engine.Spec.Paths.{is_safe_relative_path}
use super_engine.Install.FileSystem.{World, Fault, became, next_fault}
use super_engine.Install.CarryOver.{
  file_at, Carried, skipped, moved, stopped, carry_one, carry_from, carry, go_on, carried,
  after_rename, after_parent,
}
use super_engine.Install.CarryOver.Kept.{
  Keeps, CarriedKeeps, carry_one-Keeps, carry_from-Keeps, file_at-to,
}

module _ (from_dir to_dir : Text) (apart : (from_dir == to_dir) ≡ false) where
  -- The destination is in the target, if it was in the source.
  abbrev Arrived : Text → World → Carried → Type 0
  Arrived dest w skipped =
      (c : Text) → file_at w from_dir dest ≡ some c → is_some (file_at w to_dir dest) ≡ true
  Arrived dest w (moved n w') = is_some (file_at w' to_dir dest) ≡ true
  Arrived dest w (stopped w') = Unit {0}

  after_rename-Arrived :
      (dest content : Text) (w v : World) (f : Fault)
      → Arrived dest w (after_rename from_dir to_dir dest content v f)
  after_rename-Arrived dest content w v none =
      ground
        (arith, file_at-to from_dir to_dir apart dest content dest v, bytes_eq.beq_iff dest dest)
  after_rename-Arrived dest content w v (some left) = tt

  after_parent-Arrived :
      (dest content : Text) (w : World) (f : Fault)
      → Arrived dest w (after_parent from_dir to_dir dest content w f)
  after_parent-Arrived dest content w none =
      after_rename-Arrived dest content w (became w w.dirs) (next_fault (became w w.dirs).faults)
  after_parent-Arrived dest content w (some left) = tt

  carried-Arrived :
      (dest : Text) (w : World) (from to : Option Text)
      → file_at w from_dir dest ≡ from
      → file_at w to_dir dest ≡ to
      → Arrived dest w (carried from_dir to_dir dest w from to)
  carried-Arrived dest w none to here there = λ c h. absurd (ground (arith, sym h ∙ here))
  carried-Arrived dest w (some content) (some found) here there = λ c h. ap is_some there
  carried-Arrived dest w (some content) none here there =
      after_parent-Arrived dest content w (next_fault w.faults)

  carry_one-Arrived : (dest : Text) (w : World) → Arrived dest w (carry_one from_dir to_dir dest w)
  unfolding carry_one
  carry_one-Arrived dest w =
      carried-Arrived dest w (file_at w from_dir dest) (file_at w to_dir dest) refl refl

  stays :
      (w w' : World) (k : Text)
      → Keeps from_dir to_dir w w'
      → is_some (file_at w to_dir k) ≡ true
      → is_some (file_at w' to_dir k) ≡ true
  stays w w' k keeps h = elim (Option-cases (file_at w to_dir k)) [
    | inl n ↦ absurd (ground (arith, n))
    | inr (c, e) ↦ ap is_some (keeps.0 k c e)
  ]

  -- The rest of the loop, from what one move comes to.
  go_on-Arrived :
      (destinations : List Text) (dest : Text) (total : ℕ) (w : World) (r : Carried)
      → CarriedKeeps from_dir to_dir apart w r
      → Arrived dest w r
      → ((t : ℕ) (v : World) (d c : Text)
          → is_ok (carry_from from_dir to_dir t destinations v).0 ≡ true
          → Member d destinations
          → file_at v from_dir d ≡ some c
          → is_some (file_at (carry_from from_dir to_dir t destinations v).1 to_dir d) ≡ true)
      → (d c : Text)
      → is_ok (go_on (λ t v. carry_from from_dir to_dir t destinations v) total w r).0 ≡ true
      → Member d (dest ∷ destinations)
      → file_at w from_dir d ≡ some c
      → is_some (
          file_at (go_on (λ t v. carry_from from_dir to_dir t destinations v) total w r).1 to_dir d)
        ≡ true
  go_on-Arrived destinations dest total w skipped keeps here later d c h (inl e) f =
      stays w (carry_from from_dir to_dir total destinations w).1 d
        (carry_from-Keeps from_dir to_dir apart total destinations w)
        (subst (λ k. is_some (file_at w to_dir k) ≡ true) e
          (here c (subst (λ k. file_at w from_dir k ≡ some c) (sym e) f)))
  go_on-Arrived destinations dest total w skipped keeps here later d c h (inr m) f =
      later total w d c h m f
  go_on-Arrived destinations dest total w (moved n v) keeps here later d c h (inl e) f =
      let t = (total + n) % 2 ^ 64 in
      stays v (carry_from from_dir to_dir t destinations v).1 d
        (carry_from-Keeps from_dir to_dir apart t destinations v)
        (subst (λ k. is_some (file_at v to_dir k) ≡ true) e here)
  go_on-Arrived destinations dest total w (moved n v) keeps here later d c h (inr m) f =
      let t = (total + n) % 2 ^ 64 in
      elim (keeps.1 d c f) [
        | inl still ↦ later t v d c h m still
        | inr there ↦
            stays v (carry_from from_dir to_dir t destinations v).1 d
              (carry_from-Keeps from_dir to_dir apart t destinations v) (ap is_some there)
      ]
  go_on-Arrived destinations dest total w (stopped v) keeps here later d c h m f = cc

  carry_from-Arrived :
      (total : ℕ) (destinations : List Text) (w : World) (d c : Text)
      → is_ok (carry_from from_dir to_dir total destinations w).0 ≡ true
      → Member d destinations
      → file_at w from_dir d ≡ some c
      → is_some (file_at (carry_from from_dir to_dir total destinations w).1 to_dir d) ≡ true
  unfolding carry_from
  carry_from-Arrived total [] w d c h m f = elim m [ ]
  carry_from-Arrived total (dest ∷ destinations) w d c h m f =
      go_on-Arrived destinations dest total w (carry_one from_dir to_dir dest w)
        (carry_one-Keeps from_dir to_dir apart dest w) (carry_one-Arrived dest w)
        (λ t v d c. carry_from-Arrived t destinations v d c) d c h m f

  -- After a `carry` that succeeds, every destination that the source had is in the target.
  pub carry-arrives :
      (destinations : List Text) (w : World) (d c : Text)
      → is_ok (carry from_dir to_dir destinations w).0 ≡ true
      → Member d destinations
      → file_at w from_dir d ≡ some c
      → is_some (file_at (carry from_dir to_dir destinations w).1 to_dir d) ≡ true
  unfolding carry
  carry-arrives destinations w d c h m f =
      elim (Bool-cases (all is_safe_relative_path destinations)) [
        | inr bad ↦ absurd (ground (arith, bad))
        | inl safe ↦ rw safe (carry_from-Arrived 0 destinations w d c (ground (arith, safe)) m f)
      ]
