-- ===== src/Range/Pass.antt =====
-- src/Range.cc: the updates of blocks and functions, doModulePass and doFinalization.
use kint_test.Base.{
  ℕ, zero, suc, ltb, Bool, true, false, ◌||◌, ◌==◌, if◌then◌else◌, Option, none, some, List, [],
  ◌∷◌,
}
use kint_test.Global.TaintMap.{TaintMap}
use kint_test.Range.Algebra.{ConstantRange}
use kint_test.Range.State.{RangeState, put, join}
use kint_test.Range.Visits.{Instr, Edges, is_back_edge, update_instr}
use kint_test.Range.Refine.{Terminator, Vrm, visit_terminator}

-- A basic block, with its predecessors and their terminators.
pub record Block : Type 0 where
  pub number : ℕ
  pub preds : List (ℕ × Terminator)
  pub instrs : List Instr

-- A function, with the back edges that LLVM finds in it.
pub record Function : Type 0 where
  pub back_edges : Edges
  pub blocks : List Block

-- RangePass's MaxIterations
abbrev pub max_iterations : ℕ
max_iterations = 5

module _ (cr : ConstantRange) where
  open cr use {Range, bits, full_set, is_empty_set, is_full_set, lower, upper}

  abbrev pub merge : Option Range → Option Range → Option Range
  merge old none = old
  merge old (some r) = some ((join cr old r).0)

  -- The entries of the map joined to those of a block.
  unfoldable pub union_block : RangeState cr → ℕ → Vrm cr → RangeState cr
  unfolding join
  union_block st bb vrm = record st {
    func_vrms = λ b v. if b == bb then merge (st.func_vrms b v) (vrm v) else st.func_vrms b v;
  }

  module _ (taints : TaintMap) where
    unfoldable pub from_preds : RangeState cr → Edges → ℕ → List (ℕ × Terminator) → RangeState cr
    unfolding union_block visit_terminator is_back_edge
    from_preds st back_edges bb [] = st
    from_preds st back_edges bb ((pred, term) ∷ preds) = elim (is_back_edge back_edges pred bb) [
      | true ↦ from_preds st back_edges bb preds
      | false ↦
          let (vrm, after) = visit_terminator cr taints st bb term (st.func_vrms pred) in
          from_preds (union_block after bb vrm) back_edges bb preds
    ]

    unfoldable pub update_instrs : RangeState cr → Edges → ℕ → List Instr → RangeState cr × Bool
    unfolding update_instr
    update_instrs st back_edges bb [] = (st, false)
    update_instrs st back_edges bb (i ∷ instrs) =
        let (st₁, here) = update_instr cr taints back_edges st bb i in
        let (st₂, later) = update_instrs st₁ back_edges bb instrs in (st₂, here || later)

    -- updateRangeFor(BasicBlock *), over the blocks of a function
    unfoldable pub update_blocks : RangeState cr → Edges → List Block → RangeState cr × Bool
    unfolding from_preds update_instrs
    update_blocks st back_edges [] = (st, false)
    update_blocks st back_edges (block ∷ blocks) =
        let (st₁, here) =
          update_instrs (from_preds st back_edges block.number block.preds) back_edges block.number
            block.instrs in
        let (st₂, later) = update_blocks st₁ back_edges blocks in (st₂, here || later)

    abbrev pub clear_vrms : RangeState cr → RangeState cr
    clear_vrms st = record st { func_vrms = λ bb v. none }

    abbrev pub is_declaration : List Block → Bool
    is_declaration [] = true
    is_declaration (b ∷ blocks) = false

    -- updateRangeFor(Function *), over the functions of a module that are not empty
    unfoldable pub update_functions : RangeState cr → List Function → RangeState cr × Bool
    unfolding update_blocks
    update_functions st [] = (st, false)
    update_functions st (f ∷ functions) = elim (is_declaration f.blocks) [
      | true ↦ update_functions st functions
      | false ↦
          let (st₁, here) = update_blocks (clear_vrms st) f.back_edges f.blocks in
          let (st₂, later) = update_functions st₁ functions in (st₂, here || later)
    ]

    -- The ranges of the changed identifiers become full; `none` if one has no range, where the code
    -- goes through an iterator at the end.
    unfoldable pub widen : List ℕ → (ℕ → Option Range) → Option (ℕ → Option Range)
    widen [] ranges = some ranges
    widen (id ∷ ids) ranges = elim (ranges id) [
      | none ↦ none
      | some r ↦ widen ids (put cr ranges id (full_set (bits r)))
    ]

    unfoldable pub widen_after : (iteration : ℕ) → RangeState cr → Option (RangeState cr)
    unfolding widen
    widen_after iteration st =
        if ltb max_iterations iteration
        then elim (widen st.changes st.int_ranges) [
          | none ↦ none
          | some ranges ↦ some (record st { int_ranges = ranges })
        ]
        else some st

    -- One round of doModulePass.
    unfoldable pub round : RangeState cr → List Function → RangeState cr × Bool
    unfolding update_functions
    round st functions = update_functions (record st { changes = [] }) functions

    -- doModulePass, from the iteration on; `none` if the fuel runs out or `widen` fails.
    unfoldable pub do_module_pass_from :
        (fuel iteration : ℕ)
        → (ret : Bool) → RangeState cr
        → List Function
        → Option (RangeState cr × Bool)
    unfolding widen_after round
    do_module_pass_from zero iteration ret st functions = none
    do_module_pass_from (suc fuel) iteration ret st functions = elim (widen_after iteration st) [
      | none ↦ none
      | some widened ↦
          let (after, changed) = round widened functions in
          elim changed [
            | false ↦ some (after, ret)
            | true ↦ do_module_pass_from fuel (suc iteration) true after functions
          ]
    ]

    unfoldable pub do_module_pass :
        (fuel : ℕ) → RangeState cr → List Function → Option (RangeState cr × Bool)
    unfolding do_module_pass_from
    do_module_pass fuel st functions = do_module_pass_from fuel 1 false st functions

  abbrev interesting : Option Range → Option (ℕ × ℕ)
  interesting none = none
  interesting (some r) = if is_empty_set r || is_full_set r then none else some (lower r, upper r)

  -- The metadata that doFinalization gives to a load or call of an identifier.
  unfoldable pub intrange : (ℕ → Option Range) → ℕ → Option (ℕ × ℕ)
  intrange ranges id = if id == 0 then none else interesting (ranges id)

  -- doFinalization, over the metadata of the instructions, each with its identifier if it is a load
  -- or a call.
  unfoldable pub do_finalization :
      (ℕ → Option Range) → List (Option ℕ × Option (ℕ × ℕ)) → List (Option (ℕ × ℕ))
  unfolding intrange
  do_finalization ranges [] = []
  do_finalization ranges ((none, old) ∷ rest) = old ∷ do_finalization ranges rest
  do_finalization ranges ((some id, old) ∷ rest) = intrange ranges id ∷ do_finalization ranges rest
