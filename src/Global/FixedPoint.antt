-- ===== src/Global/FixedPoint.antt =====
-- src/IntGlobal.cc: the iteration of a pass ends, at a state that no module changes.
use kint_test.Base.{
  ℕ, zero, suc, ◌<◌, ◌≡◌, refl, ◌∙◌, ap, ap₂, ◌⊎◌, inl, inr, Bool, true, false, ◌==◌, some, List,
  [], ◌∷◌, arith, Bool-cases,
}
use mathlib.Core.List.{Memᴰ}
use mathlib.Core.List.Memᴰ
use kint_test.Global.Driver.{initialize, sweep, iterate, finalize, run}

module _ {State Module : Type 0} (do_module_pass : Module → State → State × Bool)
    (Valid : State → Type 0)
    (keeps : (m : Module) (st : State) → Valid st → Valid ((do_module_pass m st).0))
    (quiet : (m : Module) (st : State)
      → Valid st
      → (do_module_pass m st).1 ≡ false
      → (do_module_pass m st).0 ≡ st)
    (measure : State → ℕ)
    (drops : (m : Module) (st : State)
      → Valid st
      → (do_module_pass m st).1 ≡ true
      → measure ((do_module_pass m st).0) < measure st) where
  abbrev round : List Module → State → State × ℕ
  round = sweep do_module_pass

  sweep_drops :
      (ms : List Module) (st : State)
      → Valid st
      → (((round ms st).1 ≡ 0) × ((round ms st).0 ≡ st))
        ⊎ ((0 < (round ms st).1) × (measure ((round ms st).0) < measure st))
  unfolding sweep
  sweep_drops [] st ok = inl (refl, refl)
  sweep_drops (m ∷ ms) st ok =
      let kept = keeps m st ok in
      let after = (do_module_pass m st).0 in
      elim (Bool-cases (do_module_pass m st).1) [
        | inl changes ↦
            let lower = drops m st ok changes in
            rw changes (
              inr (
                omega arith,
                elim (sweep_drops ms after kept) [
                  | inl (none_changed, same) ↦ rw same lower
                  | inr (many, less) ↦ omega arith
                ],
              ))
        | inr rests ↦
            let same = quiet m st ok rests in
            elim (sweep_drops ms after kept) [
              | inl (none_changed, last) ↦ inl (rw rests none_changed, last ∙ same)
              | inr (many, less) ↦ let level = ap measure same in inr (rw rests many, omega arith)
            ]
      ]

  sweep_quiet :
      (ms : List Module) (st : State)
      → Valid st
      → (round ms st).1 ≡ 0
      → (m : Module) → Memᴰ m ms
      → do_module_pass m st ≡ (st, false)
  unfolding sweep
  sweep_quiet [] st ok none_changed m i = absurd (Memᴰ.not-nil i)
  sweep_quiet (x ∷ ms) st ok none_changed m i = elim (Bool-cases (do_module_pass x st).1) [
    | inl changes ↦
        let positive : suc ((round ms ((do_module_pass x st).0)).1) ≡ 0 =
          rw changes at none_changed in
        absurd (omega arith)
    | inr rests ↦
        let same = quiet x st ok rests in
        let rest : (round ms ((do_module_pass x st).0)).1 ≡ 0 = rw rests at none_changed in
        elim (Memᴰ.cases_cons i) [
          | inl first ↦ rw first (ap₂ (λ a b. (a, b)) same rests)
          | inr later ↦ sweep_quiet ms st ok (rw same at rest) m later
        ]
  ]

  sweep_keeps : (ms : List Module) (st : State) → Valid st → Valid ((round ms st).0)
  unfolding sweep
  sweep_keeps [] st ok = ok
  sweep_keeps (m ∷ ms) st ok = sweep_keeps ms ((do_module_pass m st).0) (keeps m st ok)

  iterate-fixed_point :
      (fuel : ℕ) (ms : List Module) (st : State)
      → Valid st
      → measure st < fuel
      → (last : State) × (iterate do_module_pass fuel ms st ≡ some last)
        × Valid last
        × ((m : Module) → Memᴰ m ms → do_module_pass m last ≡ (last, false))
  unfolding iterate
  iterate-fixed_point zero ms st ok enough = absurd (omega arith)
  iterate-fixed_point (suc fuel) ms st ok enough = elim (sweep_drops ms st ok) [
    | inl (none_changed, same) ↦
        (st, rw (iterate, none_changed) (ap some same), ok, sweep_quiet ms st ok none_changed)
    | inr (many, less) ↦
        let again : ((round ms st).1 == 0) ≡ false = ground arith in
        let (last, found, valid, fixed) =
          iterate-fixed_point fuel ms ((round ms st).0) (sweep_keeps ms st ok) (omega arith) in
        (last, rw (iterate, again) found, valid, fixed)
  ]

  -- A pass that keeps states valid, lowers the measure where it says that it changed something, and
  -- else leaves a valid state as it was, comes to an end on any modules: with a valid state after
  -- the initialization and more fuel than its measure `run` gives a result, which is the
  -- finalization of a valid state that no module changes.
  pub run-fixed_point :
      (do_initialization : Module → State → State) (do_finalization : Module → State → State × Bool)
      (no_writeback : Bool) (fuel : ℕ) (ms : List Module) (st : State)
      → Valid (initialize do_initialization ms st)
      → measure (initialize do_initialization ms st) < fuel
      → (last : State) × (run do_initialization do_module_pass do_finalization no_writeback fuel ms
            st
          ≡ some (finalize do_finalization no_writeback ms last))
        × Valid last
        × ((m : Module) → Memᴰ m ms → do_module_pass m last ≡ (last, false))
  unfolding run
  run-fixed_point do_initialization do_finalization no_writeback fuel ms st ok enough =
      let (last, found, valid, fixed) =
        iterate-fixed_point fuel ms (initialize do_initialization ms st) ok enough in
      (last, rw (run, found), valid, fixed)
