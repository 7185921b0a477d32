-- ===== src/Global/Driver.antt =====
-- src/IntGlobal.cc: IterativeModulePass::run. A pass is its three functions on the state that it
-- keeps; what doInitialization returns is not used. The result is the state at the end and the
-- modules that are written back.
use kint_test.Base.{
  ℕ, zero, suc, Bool, true, false, ◌&&◌, not, ◌==◌, if◌then◌else◌, Option, none, some, List, [],
  ◌∷◌,
}
use mathlib.Core.Option.{map}

module _ {State Module : Type 0} (do_initialization : Module → State → State) where
  unfoldable pub initialize : List Module → State → State
  initialize [] st = st
  initialize (m ∷ ms) st = initialize ms (do_initialization m st)

module _ {State Module : Type 0} (do_module_pass : Module → State → State × Bool) where
  -- One round over the modules, and how many of them changed.
  unfoldable pub sweep : List Module → State → State × ℕ
  sweep [] st = (st, 0)
  sweep (m ∷ ms) st =
      let (after, ret) = do_module_pass m st in
      let (last, changed) = sweep ms after in (last, if ret then suc changed else changed)

  -- The rounds, until one changes nothing; `none` if the fuel runs out before.
  unfoldable pub iterate : ℕ → List Module → State → Option State
  unfolding sweep
  iterate zero ms st = none
  iterate (suc fuel) ms st =
      let (after, changed) = sweep ms st in
      elim (changed == 0) [ true ↦ some after | false ↦ iterate fuel ms after ]

module _ {State Module : Type 0} (do_finalization : Module → State → State × Bool)
    (no_writeback : Bool) where
  unfoldable pub finalize : List Module → State → State × List Module
  finalize [] st = (st, [])
  finalize (m ∷ ms) st =
      let (after, ret) = do_finalization m st in
      let (last, written) = finalize ms after in
      (last, if ret && not no_writeback then m ∷ written else written)

module _ {State Module : Type 0} (do_initialization : Module → State → State)
    (do_module_pass do_finalization : Module → State → State × Bool) (no_writeback : Bool) where
  unfoldable pub run : ℕ → List Module → State → Option (State × List Module)
  unfolding initialize iterate finalize
  run fuel ms st =
      map (finalize do_finalization no_writeback ms)
        (iterate do_module_pass fuel ms (initialize do_initialization ms st))
