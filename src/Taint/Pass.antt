-- ===== src/Taint/Pass.antt =====
-- src/Taint.cc: the taint of values, the propagation in a function, doModulePass and
-- doFinalization. Values, descriptions and identifiers are numbers, and 0 is the empty identifier.
use kint_test.Base.{
  ℕ, zero, suc, ◌+◌, Bool, true, false, ◌||◌, if◌then◌else◌, Option, none, some, List, [], ◌∷◌,
}
use kint_test.Global.TaintMap.{
  TaintMap, DescSet, insert_all, is_empty, add_value, get_value, get_id, add_id,
}

-- What getTaint reads of a value: getValueId, and for a call that is in Callees the getRetId of its
-- possible callees.
pub record Value : Type 0 where
  pub number : ℕ
  -- the number of stripPointerCasts
  pub stripped : ℕ
  pub callees : List ℕ
  pub id : ℕ

-- TM.add(CI, ...) for each tainted result of a callee
unfoldable pub add_results : TaintMap → (number : ℕ) → List ℕ → TaintMap
add_results tm number [] = tm
add_results tm number (id ∷ ids) =
    add_results (elim (get_id tm id) [ none ↦ tm | some descs ↦ add_value tm number descs ]) number
      ids

abbrev pub add_global : TaintMap → (number : ℕ) → Option DescSet → TaintMap
add_global tm number none = tm
add_global tm number (some descs) = add_value tm number descs

-- The taint that a value takes from the identifiers.
unfoldable pub get_global_taint : TaintMap → Value → TaintMap
unfolding add_results
get_global_taint tm v =
    let called = add_results tm v.number v.callees in
    add_global called v.number (get_id called v.id)

-- getTaint
unfoldable pub get_taint : TaintMap → Value → Option DescSet × TaintMap
unfolding get_global_taint
get_taint tm v = elim (get_value tm v.number) [
  | some descs ↦ (some descs, tm)
  | none ↦ elim (get_value tm v.stripped) [
    | some descs ↦ (some descs, tm)
    | none ↦ let after = get_global_taint tm v in (get_value after v.number, after)
  ]
]

-- A possible callee of a call: its getArgId, by the number of the argument.
pub record Callee : Type 0 where
  pub skipped : Bool
  pub arg_id : ℕ → ℕ

pub data Kind : Type 0 where
  -- a call with its possible callees, none for inline assembly and calls that are not in Callees
  call : List Callee → List Value → Kind
  -- another instruction with its operands, and the identifier that it writes to: of a store the one
  -- of its metadata, of a return getRetId of the function, and 0 for others
  plain : List Value → (target : ℕ) → Kind

pub record Instr : Type 0 where
  pub number : ℕ
  -- the description of its taint source metadata
  pub source : Option ℕ
  -- getValueId
  pub id : ℕ
  -- getStructId of the fields of the struct that it points to
  pub struct_ids : List ℕ
  pub kind : Kind

unfoldable pub add_fields : TaintMap → DescSet → List ℕ → TaintMap × Bool
add_fields tm descs [] = (tm, false)
add_fields tm descs (id ∷ ids) =
    let (tm₁, here) = add_id tm id descs true in
    let (tm₂, later) = add_fields tm₁ descs ids in (tm₂, here || later)

abbrev pub descs_of : Option DescSet → DescSet
descs_of none = []
descs_of (some descs) = descs

-- checkTaintSource
unfoldable pub mark_source : TaintMap → Instr → Option ℕ → TaintMap × Bool
unfolding add_fields
mark_source tm i none = (tm, false)
mark_source tm i (some d) =
    let marked = add_value tm i.number (d ∷ []) in
    let descs = descs_of (get_value marked i.number) in
    let (tm₁, here) = add_id marked i.id descs true in
    let (tm₂, later) = add_fields tm₁ descs i.struct_ids in (tm₂, here || later)

abbrev pub taint_id : TaintMap → ℕ → Option DescSet → TaintMap × Bool
taint_id tm id none = (tm, false)
taint_id tm id (some descs) = add_id tm id descs false

-- The arguments from number a on, for one callee.
unfoldable pub taint_args : TaintMap → Callee → ℕ → List Value → TaintMap × Bool
unfolding get_taint
taint_args tm callee a [] = (tm, false)
taint_args tm callee a (v ∷ args) =
    let (taint, tm₁) = get_taint tm v in
    let (tm₂, here) = taint_id tm₁ (callee.arg_id a) taint in
    let (tm₃, later) = taint_args tm₂ callee (a + 1) args in (tm₃, here || later)

unfoldable pub taint_callees : TaintMap → List Value → List Callee → TaintMap × Bool
unfolding taint_args
taint_callees tm args [] = (tm, false)
taint_callees tm args (callee ∷ callees) = elim (callee.skipped) [
  | true ↦ taint_callees tm args callees
  | false ↦
      let (tm₁, here) = taint_args tm callee 0 args in
      let (tm₂, later) = taint_callees tm₁ args callees in (tm₂, here || later)
]

-- The descriptions of the operands.
unfoldable pub taint_operands : TaintMap → DescSet → List Value → DescSet × TaintMap
unfolding get_taint insert_all
taint_operands tm descs [] = (descs, tm)
taint_operands tm descs (v ∷ vs) =
    let (taint, after) = get_taint tm v in
    taint_operands after (insert_all descs (descs_of taint)) vs

unfoldable pub run_kind : TaintMap → (number : ℕ) → Kind → TaintMap × Bool
unfolding taint_callees taint_operands
run_kind tm number (Kind.call callees args) = taint_callees tm args callees
run_kind tm number (Kind.plain operands target) =
    let (descs, after) = taint_operands tm [] operands in
    if is_empty descs
    then (after, false)
    else add_id (add_value after number descs) target descs false

-- runOnFunction
unfoldable pub run_on_function : TaintMap → List Instr → TaintMap × Bool
unfolding mark_source run_kind
run_on_function tm [] = (tm, false)
run_on_function tm (i ∷ instrs) =
    let (tm₁, marked) = mark_source tm i i.source in
    let (tm₂, here) = run_kind tm₁ i.number i.kind in
    let (tm₃, later) = run_on_function tm₂ instrs in (tm₃, marked || here || later)

-- One round of doModulePass, over the instructions of each function.
unfoldable pub run_on_functions : TaintMap → List (List Instr) → TaintMap × Bool
unfolding run_on_function
run_on_functions tm [] = (tm, false)
run_on_functions tm (f ∷ functions) =
    let (tm₁, here) = run_on_function tm f in
    let (tm₂, later) = run_on_functions tm₁ functions in (tm₂, here || later)

-- doModulePass; `none` if the fuel runs out
unfoldable pub do_module_pass_from :
    (fuel : ℕ) → (ret : Bool) → TaintMap → List (List Instr) → Option (TaintMap × Bool)
unfolding run_on_functions
do_module_pass_from zero ret tm functions = none
do_module_pass_from (suc fuel) ret tm functions =
    let (after, changed) = run_on_functions tm functions in
    elim changed [
      | false ↦ some (after, ret)
      | true ↦ do_module_pass_from fuel true after functions
    ]

unfoldable pub do_module_pass : (fuel : ℕ) → TaintMap → List (List Instr) → Option (TaintMap × Bool)
unfolding do_module_pass_from
do_module_pass fuel tm functions = do_module_pass_from fuel false tm functions

-- doFinalization: the taint metadata of the instructions, as values.
unfoldable pub do_finalization : TaintMap → List Value → List (Option DescSet) × TaintMap
unfolding get_taint
do_finalization tm [] = ([], tm)
do_finalization tm (v ∷ vs) =
    let (taint, tm₁) = get_taint tm v in
    let (taints, tm₂) = do_finalization tm₁ vs in (taint ∷ taints, tm₂)
