-- ===== src/CallGraph/Pass.antt =====
-- src/CallGraph.cc: runOnFunction, doModulePass and doFinalization.
use kint_test.Base.{
  ℕ, zero, suc, ◌+◌, Bool, true, false, ◌||◌, ◌==◌, if◌then◌else◌, Option, none, some, List, [],
  ◌∷◌,
}
use kint_test.CallGraph.Find.{FuncSet, Node, merge_func_set, find_functions}
use kint_test.CallGraph.Init.{Ptrs, put_ptrs}

-- An instruction: a store of a function pointer with its getLoadStoreId, a return of one with
-- getRetId of the function, a call that is neither inline assembly nor of an intrinsic, with its
-- arguments, which are none where they are no function pointers, and others.
pub data Instr : Type 0 where
  store : (value id : ℕ) → Instr
  return_ : (value id : ℕ) → Instr
  call : (callee : ℕ) → List (Option ℕ) → Instr
  other : Instr

abbrev pub Update : Type 0
Update = Option (Ptrs × Bool)

-- What a function pointer may be, by the fuel; getArgId of a function and number.
module _ (node : ℕ → Node) (funcs : ℕ → Option ℕ) (fuel : ℕ) (arg_id : ℕ → ℕ → ℕ) where
  -- findFunctions(V, Ctx->FuncPtrs[Id])
  unfoldable pub find_into : Ptrs → (value id : ℕ) → Update
  unfolding find_functions
  find_into ptrs v id = elim (find_functions node funcs ptrs fuel (ptrs id) v) [
    | none ↦ none
    | some (s, changed) ↦ some (put_ptrs ptrs id s, changed)
  ]

  -- One parameter, of every callee.
  unfoldable pub update_callees : Ptrs → (number : ℕ) → (values callees : FuncSet) → Ptrs × Bool
  unfolding merge_func_set
  update_callees ptrs number values [] = (ptrs, false)
  update_callees ptrs number values (f ∷ callees) =
      let (s, here) = merge_func_set (ptrs (arg_id f number)) values in
      let (last, later) =
        update_callees (put_ptrs ptrs (arg_id f number) s) number values callees in
      (last, here || later)

  abbrev pub or_change : Bool → Update → Update
  or_change here none = none
  or_change here (some (ptrs, later)) = some (ptrs, here || later)

  abbrev pub and_update : (Ptrs → Update) → Update → Update
  and_update next none = none
  and_update next (some (ptrs, here)) = or_change here (next ptrs)

  -- One argument, for the callees, with what findFunctions finds for it.
  abbrev pub update_argument : Ptrs → (number : ℕ) → FuncSet → Option (FuncSet × Bool) → Update
  update_argument ptrs number callees none = none
  update_argument ptrs number callees (some (values, false)) = some (ptrs, false)
  update_argument ptrs number callees (some (values, true)) =
      some (update_callees ptrs number values callees)

  -- The arguments from a number on.
  unfoldable pub update_arguments : Ptrs → FuncSet → (number : ℕ) → List (Option ℕ) → Update
  unfolding update_callees find_functions
  update_arguments ptrs callees number [] = some (ptrs, false)
  update_arguments ptrs callees number (none ∷ args) =
      update_arguments ptrs callees (number + 1) args
  update_arguments ptrs callees number (some v ∷ args) =
      and_update (λ after. update_arguments after callees (number + 1) args)
        (update_argument ptrs number callees (find_functions node funcs ptrs fuel [] v))

  abbrev pub update_call : Ptrs → List (Option ℕ) → Option (FuncSet × Bool) → Update
  update_call ptrs args none = none
  update_call ptrs args (some (callees, false)) = some (ptrs, false)
  update_call ptrs args (some (callees, true)) = update_arguments ptrs callees 0 args

  unfoldable pub run_on_instr : Ptrs → Instr → Update
  unfolding find_into update_arguments find_functions
  run_on_instr ptrs (store v id) = if id == 0 then some (ptrs, false) else find_into ptrs v id
  run_on_instr ptrs (return_ v id) = find_into ptrs v id
  run_on_instr ptrs (call callee args) =
      update_call ptrs args (find_functions node funcs ptrs fuel [] callee)
  run_on_instr ptrs other = some (ptrs, false)

  -- runOnFunction, over the instructions of every function of a module
  unfoldable pub run_on_functions : Ptrs → List Instr → Update
  unfolding run_on_instr
  run_on_functions ptrs [] = some (ptrs, false)
  run_on_functions ptrs (i ∷ instrs) =
      and_update (λ after. run_on_functions after instrs) (run_on_instr ptrs i)

  -- doModulePass; `none` if the fuel of the rounds or of findFunctions runs out, or at a fatal
  -- error
  unfoldable pub do_module_pass_from : (rounds : ℕ) → (ret : Bool) → Ptrs → List Instr → Update
  unfolding run_on_functions
  do_module_pass_from zero ret ptrs instrs = none
  do_module_pass_from (suc rounds) ret ptrs instrs = elim (run_on_functions ptrs instrs) [
    | none ↦ none
    | some (after, changed) ↦ elim changed [
      | false ↦ some (after, ret)
      | true ↦ do_module_pass_from rounds true after instrs
    ]
  ]

  unfoldable pub do_module_pass : (rounds : ℕ) → Ptrs → List Instr → Update
  unfolding do_module_pass_from
  do_module_pass rounds ptrs instrs = do_module_pass_from rounds false ptrs instrs

  -- doFinalization, for the calls of a module: what Ctx->Callees has for each
  unfoldable pub do_finalization : Ptrs → (calls : List ℕ) → List (Option (FuncSet × Bool))
  unfolding find_functions
  do_finalization ptrs [] = []
  do_finalization ptrs (callee ∷ calls) =
      find_functions node funcs ptrs fuel [] callee ∷ do_finalization ptrs calls
