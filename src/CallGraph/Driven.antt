-- ===== src/CallGraph/Driven.antt =====
-- src/CallGraph.cc under src/IntGlobal.cc: IterativeModulePass::run of the call graph pass ends, at
-- sets that no function of a module changes.
use kint_test.Base.{
  ℕ, zero, suc, ◌*◌, ◌<◌, ◌≤◌, ◌≡◌, refl, ap, ◌∙◌, inl, inr, Bool, true, false, ◌||◌, Option, none,
  some, List, [], ◌∷◌, arith, Bool-cases, Option-cases,
}
use mathlib.Core.List.{Memᴰ}
use mathlib.Core.Option
use kint_test.Base.Slots.{slots, slots_bound}
use kint_test.Global.Driver.{initialize, finalize, run}
use kint_test.Global.FixedPoint.{run-fixed_point}
use kint_test.CallGraph.Find.{Node}
use kint_test.CallGraph.Init.{Constant, Ptrs, collect_pointers}
use kint_test.CallGraph.Pass.{Instr, Update, run_on_functions, do_module_pass_from, do_module_pass}
use kint_test.CallGraph.Grows.{Bounded, Grows, then-Grows}
use kint_test.CallGraph.Steps.{InstrsBelow, Program, run_on_functions-Updates}
use kint_test.CallGraph.Ends.{cells, fewer_cells, do_module_pass-fixed_point}

-- What the pass reads of a module: its global variables, and the instructions of its functions.
pub record Contents : Type 0 where
  pub variables : List (Option Constant × ℕ)
  pub instrs : List Instr

-- The state is what Ctx->FuncPtrs maps to, or none after a fatal error or without fuel.
abbrev pub updated : Update → Option Ptrs × Bool
updated none = (none, false)
updated (some (ptrs, ret)) = (some ptrs, ret)

module _ {Module : Type 0} (contents : Module → Contents) where
  abbrev pub initialize_module : Module → Option Ptrs → Option Ptrs
  initialize_module module_ st = Option.map (collect_pointers (contents module_).variables) st

  -- doFinalization leaves these sets as they are, and returns false.
  abbrev pub finalize_module : Module → Option Ptrs → Option Ptrs × Bool
  finalize_module module_ st = (st, false)

  module _ (node : ℕ → Node) (funcs : ℕ → Option ℕ) (fuel : ℕ) (arg_id : ℕ → ℕ → ℕ)
      (rounds : ℕ) where
    abbrev pub pass_module : Module → Option Ptrs → Option Ptrs × Bool
    pass_module module_ none = (none, false)
    pass_module module_ (some ptrs) =
        updated (do_module_pass node funcs fuel arg_id rounds ptrs (contents module_).instrs)

    -- IterativeModulePass::run of the pass
    unfoldable pub run_modules :
        (no_writeback : Bool)
        → (passes : ℕ) → List Module
        → Option Ptrs
        → Option (Option Ptrs × List Module)
    unfolding run
    run_modules no_writeback passes ms st =
        run initialize_module pass_module finalize_module no_writeback passes ms st

-- The sets have functions below m.
abbrev pub Valid : ℕ → Option Ptrs → Type 0
Valid m none = ⊥
Valid m (some ptrs) = Bounded m ptrs

abbrev missing : (n m : ℕ) → Option Ptrs → ℕ
missing n m none = 0
missing n m (some ptrs) = slots (n * m) (cells m ptrs)

module _ {Module : Type 0} (contents : Module → Contents) (node : ℕ → Node) (funcs : ℕ → Option ℕ)
    (fuel : ℕ) (arg_id : ℕ → ℕ → ℕ) (n m : ℕ) (program : Program node funcs arg_id n m)
    (enough : n < fuel) where
  -- What the rounds of doModulePass return is whether the sets have changed.
  rounds-Grows :
      (instrs : List Instr)
      → InstrsBelow n instrs
      → (rounds : ℕ) (ret : Bool) (ptrs last : Ptrs) (r : Bool) → Bounded m ptrs
      → do_module_pass_from node funcs fuel arg_id rounds ret ptrs instrs ≡ some (last, r)
      → (q : Bool) × (r ≡ (ret || q)) × Grows n m ptrs last q
  unfolding do_module_pass_from
  rounds-Grows instrs below zero ret ptrs last r ok e = absurd (cc)
  rounds-Grows instrs below (suc rounds) ret ptrs last r ok e =
      let (after, changed, found, grows) =
        run_on_functions-Updates node funcs fuel arg_id n m program enough instrs ptrs below ok in
      elim (Bool-cases changed) [
        | inl more ↦
            let (q, says, rest) =
              rounds-Grows instrs below rounds true after last r grows.bounded
                (rw (do_module_pass_from, found, more) at e) in
            (changed || q, ground arith, then-Grows n m changed q ptrs after last grows rest)
        | inr done ↦
            let end : some (after, ret) ≡ some (last, r) =
              rw (do_module_pass_from, found, done) at e in
            let same : after ≡ last = cc in
            let says : ret ≡ r = cc in (changed, ground arith, rw same at grows)
      ]

  module _ (below : (module_ : Module) → InstrsBelow n ((contents module_).instrs)) (rounds : ℕ)
      (long : n * m < rounds) where
    abbrev step : Module → Option Ptrs → Option Ptrs × Bool
    step = pass_module contents node funcs fuel arg_id rounds

    -- What a module does to sets with functions below m.
    step-Grows :
        (module_ : Module) (ptrs : Ptrs)
        → Bounded m ptrs
        → (last : Ptrs) × (ret : Bool) × (step module_ (some ptrs) ≡ (some last, ret))
          × Grows n m ptrs last ret
          × (run_on_functions node funcs fuel arg_id last ((contents module_).instrs)
              ≡ some (last, false))
    unfolding do_module_pass
    step-Grows module_ ptrs ok =
        let instrs = (contents module_).instrs in
        let (last, ret, found, fixed, bounded, keeps) =
          do_module_pass-fixed_point node funcs fuel arg_id n m program enough instrs
            (below module_) rounds ptrs ok long in
        let (q, says, grows) =
          rounds-Grows instrs (below module_) rounds false ptrs last ret ok found in
        let is_ret : q ≡ ret = ground arith in
        (last, ret, ap updated found, rw is_ret at grows, fixed)

    step_keeps : (module_ : Module) (st : Option Ptrs) → Valid m st → Valid m ((step module_ st).0)
    step_keeps module_ none ok = absurd ok
    step_keeps module_ (some ptrs) ok =
        let (last, ret, found, grows, fixed) = step-Grows module_ ptrs ok in
        rw found (grows.bounded)

    step_quiet :
        (module_ : Module) (st : Option Ptrs)
        → Valid m st
        → (step module_ st).1 ≡ false
        → (step module_ st).0 ≡ st
    step_quiet module_ none ok h = absurd ok
    step_quiet module_ (some ptrs) ok h =
        let (last, ret, found, grows, fixed) = step-Grows module_ ptrs ok in
        let says : ret ≡ false = rw found at h in rw found (ap some (grows.quiet says))

    step_drops :
        (module_ : Module) (st : Option Ptrs)
        → Valid m st
        → (step module_ st).1 ≡ true
        → missing n m ((step module_ st).0) < missing n m st
    step_drops module_ none ok h = absurd ok
    step_drops module_ (some ptrs) ok h =
        let (last, ret, found, grows, fixed) = step-Grows module_ ptrs ok in
        let says : ret ≡ true = rw found at h in
        rw found (
          fewer_cells node funcs fuel arg_id n m program enough ((contents module_).instrs)
            (below module_) ptrs last (rw says at grows))

    missing_bound : (st : Option Ptrs) → missing n m st ≤ n * m
    missing_bound none = omega arith
    missing_bound (some ptrs) = slots_bound (n * m) (cells m ptrs)

    nothing_written :
        (no_writeback : Bool) (ms : List Module) (st : Option Ptrs)
        → finalize (finalize_module contents) no_writeback ms st ≡ (st, [])
    unfolding finalize
    nothing_written no_writeback [] st = refl
    nothing_written no_writeback (module_ ∷ ms) st = rw (nothing_written no_writeback ms st) refl

    module_fixed :
        (last : Ptrs) (module_ : Module)
        → Bounded m last
        → step module_ (some last) ≡ (some last, false)
        → run_on_functions node funcs fuel arg_id last ((contents module_).instrs)
          ≡ some (last, false)
    module_fixed last module_ ok rests =
        let (end, ret, found, grows, fixed) = step-Grows module_ last ok in
        let same : end ≡ last = cc in rw same at fixed

    -- The call graph pass comes to an end on any modules, for values and identifiers below n and
    -- functions below m, if no value that findFunctions goes on to ends in the fatal error, the
    -- initializers give functions below m only, doModulePass has more than n * m rounds and the
    -- iteration too: it writes no module back, and ends with sets that no function of any module
    -- changes.
    pub run_modules-fixed_point :
        (no_writeback : Bool) (passes : ℕ) (ms : List Module) (ptrs : Ptrs)
        → Valid m (initialize (initialize_module contents) ms (some ptrs))
        → n * m < passes
        → (last : Ptrs) × (run_modules contents node funcs fuel arg_id rounds no_writeback passes ms
              (some ptrs)
            ≡ some (some last, []))
          × Bounded m last
          × ((module_ : Module)
              → Memᴰ module_ ms
              → run_on_functions node funcs fuel arg_id last ((contents module_).instrs)
                ≡ some (last, false))
    unfolding run_modules
    run_modules-fixed_point no_writeback passes ms ptrs ok many =
        let first = initialize (initialize_module contents) ms (some ptrs) in
        let most = missing_bound first in
        let (end, found, valid, fixed) =
          run-fixed_point step (Valid m) step_keeps step_quiet (missing n m) step_drops
            (initialize_module contents) (finalize_module contents) no_writeback passes ms
            (some ptrs) ok (omega arith) in
        elim (Option-cases end) [
          | inl nothing ↦ absurd (rw nothing at valid)
          | inr (last, is_last) ↦
              let bounded : Bounded m last = rw is_last at valid in
              (
                last,
                found ∙ ap some (nothing_written no_writeback ms end ∙ ap (λ t. (t, [])) is_last),
                bounded,
                λ module_ i. module_fixed last module_ bounded (rw is_last at (fixed module_ i)),
              )
        ]
