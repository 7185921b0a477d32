-- ===== src/Taint/Ends.antt =====
-- src/Taint.cc: doModulePass ends, since every round but the last taints a further identifier.
use kint_test.Base.{
  ℕ, zero, suc, ◌<◌, ◌≡◌, refl, ap, inl, inr, Bool, true, false, Option, some, List, arith,
  Bool-cases,
}
use kint_test.Base.Slots.{slots, slots_bound, slots-lt}
use kint_test.Global.TaintMap.{TaintMap}
use kint_test.Taint.Pass.{Instr, run_on_functions, do_module_pass_from, do_module_pass}
use kint_test.Taint.Grows.{known, NonEmpty}
use kint_test.Taint.Steps.{FunctionsBelow, run_on_functions-Grows}

-- What doModulePass gives: a state in which every description set has a member, after a round that
-- tainted no further identifier.
abbrev pub Settles : List (List Instr) → Option (TaintMap × Bool) → Type 0
Settles functions result =
    (last : TaintMap) × (ret : Bool) × (before : TaintMap) × (result ≡ some (last, ret))
    × (run_on_functions before functions ≡ (last, false))
    × ((id : ℕ) → known last id ≡ known before id)
    × NonEmpty before
    × NonEmpty last

module _ (n : ℕ) (functions : List (List Instr)) (below : FunctionsBelow n functions) where
  loop :
      (fuel : ℕ) (ret : Bool) (tm : TaintMap)
      → NonEmpty tm
      → slots n (known tm) < fuel
      → Settles functions (do_module_pass_from fuel ret tm functions)
  unfolding do_module_pass_from
  loop zero ret tm ok enough = absurd (omega arith)
  loop (suc fuel) ret tm ok enough =
      let grows = run_on_functions-Grows n tm functions below ok in
      let after = (run_on_functions tm functions).0 in
      elim (Bool-cases (run_on_functions tm functions).1) [
        | inl changed ↦
            let (id, bound, before, now) = grows.some_change changed in
            let fewer = slots-lt n (known tm) (known after) id grows.keeps_known bound before now in
            rw (do_module_pass_from, changed) (loop fuel true after grows.non_empty (omega arith))
        | inr quiet ↦
            rw (do_module_pass_from, quiet)
              (
                after,
                ret,
                tm,
                refl,
                ap (λ b. (after, b)) quiet,
                grows.no_change quiet,
                ok,
                grows.non_empty,
              )
      ]

  -- doModulePass ends if the functions taint identifiers below n only, every description set has a
  -- member before, and the fuel is above n; then the last round tainted no further identifier, and
  -- every description set has a member still.
  pub do_module_pass-ends :
      (fuel : ℕ) (tm : TaintMap)
      → NonEmpty tm
      → n < fuel
      → Settles functions (do_module_pass fuel tm functions)
  unfolding do_module_pass
  do_module_pass-ends fuel tm ok enough =
      let bound = slots_bound n (known tm) in loop fuel false tm ok (omega arith)
