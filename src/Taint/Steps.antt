-- ===== src/Taint/Steps.antt =====
-- src/Taint.cc: the steps of the pass are `Grows`, if their identifiers are below n.
use kint_test.Base.{
  ℕ, ◌+◌, ◌<◌, ◌≡◌, refl, inl, inr, true, false, not, ◌==◌, Option, none, some, List, [], ◌∷◌,
  arith, Bool-cases, Option-cases,
}
use kint_test.Global.TaintMap.{
  TaintMap, DescSet, insert_all, is_empty, add_value, get_value, get_id, add_id,
}
use kint_test.Taint.Pass.{
  Value, add_results, add_global, get_global_taint, get_taint, Callee, Kind, Instr, add_fields,
  descs_of, mark_source, taint_id, taint_args, taint_callees, taint_operands, run_kind,
  run_on_function, run_on_functions,
}
use kint_test.Taint.Grows.{
  value_ok, NonEmpty, Grows, same-Grows, then-Grows, add_id-Grows, add_value-Grows,
  is_empty-insert_all,
}

get_id-value_ok : (tm : TaintMap) (id : ℕ) → NonEmpty tm → value_ok (get_id tm id) ≡ true
unfolding get_id
get_id-value_ok tm id (entries, values) = elim (Option-cases (tm.gts id)) [
  | inl nothing ↦ rw (get_id, nothing) refl
  | inr ((descs, source), found) ↦
      let some_desc : not (is_empty descs) ≡ true = rw found at (entries id) in
      elim (Bool-cases (id == 0)) [
        | inl empty ↦ rw (get_id, found, empty) refl
        | inr named ↦ rw (get_id, found, named) some_desc
      ]
]

abbrev pub AllBelow : ℕ → List ℕ → Type 0
AllBelow n [] = Unit
AllBelow n (id ∷ ids) = (id < n) × AllBelow n ids

abbrev pub CalleesBelow : ℕ → List Callee → Type 0
CalleesBelow n [] = Unit
CalleesBelow n (callee ∷ callees) = ((a : ℕ) → callee.arg_id a < n) × CalleesBelow n callees

abbrev pub KindBelow : ℕ → Kind → Type 0
KindBelow n (Kind.call callees args) = CalleesBelow n callees
KindBelow n (Kind.plain operands target) = target < n

abbrev pub InstrsBelow : ℕ → List Instr → Type 0
InstrsBelow n [] = Unit
InstrsBelow n (i ∷ instrs) =
    ((i.id < n) × AllBelow n i.struct_ids × KindBelow n i.kind) × InstrsBelow n instrs

abbrev pub FunctionsBelow : ℕ → List (List Instr) → Type 0
FunctionsBelow n [] = Unit
FunctionsBelow n (f ∷ functions) = InstrsBelow n f × FunctionsBelow n functions

pub marked_descs :
    (tm : TaintMap) (v d : ℕ) → is_empty (descs_of (get_value (add_value tm v (d ∷ [])) v)) ≡ false
unfolding add_value get_value
marked_descs tm v d =
    let itself : (v == v) ≡ true = ground arith in rw itself (is_empty-insert_all _ (d ∷ []) refl)

module _ (n : ℕ) where
  add_global-Grows :
      (tm : TaintMap) (number : ℕ) (descs : Option DescSet)
      → value_ok descs ≡ true
      → NonEmpty tm
      → Grows n tm (add_global tm number descs) false
  add_global-Grows tm number none some_desc ok = same-Grows n tm ok
  add_global-Grows tm number (some descs) some_desc ok =
      add_value-Grows n tm number descs (ground arith) ok

  add_result-Grows :
      (tm : TaintMap) (number id : ℕ)
      → NonEmpty tm
      → Grows n tm
          (elim (get_id tm id) [ none ↦ tm | some descs ↦ add_value tm number descs ])
          false
  add_result-Grows tm number id ok =
      let some_desc = get_id-value_ok tm id ok in
      elim (Option-cases (get_id tm id)) [
        | inl nothing ↦ rw nothing (same-Grows n tm ok)
        | inr (descs, found) ↦
            let some_desc' : not (is_empty descs) ≡ true = rw found at some_desc in
            rw found (add_value-Grows n tm number descs (ground arith) ok)
      ]

  pub add_results-Grows :
      (tm : TaintMap) (number : ℕ) (ids : List ℕ)
      → NonEmpty tm
      → Grows n tm (add_results tm number ids) false
  unfolding add_results
  add_results-Grows tm number [] ok = same-Grows n tm ok
  add_results-Grows tm number (id ∷ ids) ok =
      let first = add_result-Grows tm number id ok in
      then-Grows n first (
        add_results-Grows
          (elim (get_id tm id) [ none ↦ tm | some descs ↦ add_value tm number descs ]) number ids
          first.non_empty)

  get_global_taint-Grows :
      (tm : TaintMap) (v : Value) → NonEmpty tm → Grows n tm (get_global_taint tm v) false
  unfolding get_global_taint
  get_global_taint-Grows tm v ok =
      let called = add_results-Grows tm v.number v.callees ok in
      then-Grows n called
        (add_global-Grows _ v.number _ (get_id-value_ok _ v.id called.non_empty) called.non_empty)

  pub get_taint-Grows :
      (tm : TaintMap) (v : Value)
      → NonEmpty tm
      → (value_ok ((get_taint tm v).0) ≡ true) × Grows n tm ((get_taint tm v).1) false
  unfolding get_taint get_value
  get_taint-Grows tm v (entries, values) = elim (Option-cases (tm.vts v.number)) [
    | inr (descs, found) ↦
        rw (get_taint, found) (rw found at (values v.number), same-Grows n tm (entries, values))
    | inl nothing ↦ elim (Option-cases (tm.vts v.stripped)) [
      | inr (descs, found) ↦
          rw (get_taint, nothing, found)
            (rw found at (values v.stripped), same-Grows n tm (entries, values))
      | inl nothing' ↦
          let grows = get_global_taint-Grows tm v (entries, values) in
          rw (get_taint, nothing, nothing') (grows.non_empty.1 v.number, grows)
    ]
  ]

  pub add_fields-Grows :
      (tm : TaintMap) (descs : DescSet) (ids : List ℕ)
      → is_empty descs ≡ false
      → AllBelow n ids
      → NonEmpty tm
      → Grows n tm ((add_fields tm descs ids).0) ((add_fields tm descs ids).1)
  unfolding add_fields
  add_fields-Grows tm descs [] some_desc below ok = same-Grows n tm ok
  add_fields-Grows tm descs (id ∷ ids) some_desc (here, below) ok =
      let first = add_id-Grows n tm id descs true here some_desc ok in
      then-Grows n first
        (add_fields-Grows ((add_id tm id descs true).0) descs ids some_desc below first.non_empty)

  pub mark_source-Grows :
      (tm : TaintMap) (i : Instr) (source : Option ℕ)
      → i.id < n
      → AllBelow n i.struct_ids
      → NonEmpty tm
      → Grows n tm ((mark_source tm i source).0) ((mark_source tm i source).1)
  unfolding mark_source
  mark_source-Grows tm i none here below ok = same-Grows n tm ok
  mark_source-Grows tm i (some d) here below ok =
      let marked = add_value-Grows n tm i.number (d ∷ []) refl ok in
      let some_desc = marked_descs tm i.number d in
      let first = add_id-Grows n _ i.id _ true here some_desc marked.non_empty in
      then-Grows n marked
        (then-Grows n first (add_fields-Grows _ _ i.struct_ids some_desc below first.non_empty))

  pub taint_id-Grows :
      (tm : TaintMap) (id : ℕ) (taint : Option DescSet)
      → id < n
      → value_ok taint ≡ true
      → NonEmpty tm
      → Grows n tm ((taint_id tm id taint).0) ((taint_id tm id taint).1)
  taint_id-Grows tm id none below some_desc ok = same-Grows n tm ok
  taint_id-Grows tm id (some descs) below some_desc ok =
      add_id-Grows n tm id descs false below (ground arith) ok

  pub taint_args-Grows :
      (tm : TaintMap) (callee : Callee) (a : ℕ) (args : List Value)
      → ((j : ℕ) → callee.arg_id j < n)
      → NonEmpty tm
      → Grows n tm ((taint_args tm callee a args).0) ((taint_args tm callee a args).1)
  unfolding taint_args
  taint_args-Grows tm callee a [] below ok = same-Grows n tm ok
  taint_args-Grows tm callee a (v ∷ args) below ok =
      let (some_desc, looked) = get_taint-Grows tm v ok in
      let tm₁ = (get_taint tm v).1 in
      let taint = (get_taint tm v).0 in
      let first = taint_id-Grows tm₁ (callee.arg_id a) taint (below a) some_desc looked.non_empty in
      let tm₂ = (taint_id tm₁ (callee.arg_id a) taint).0 in
      then-Grows n looked
        (then-Grows n first (taint_args-Grows tm₂ callee (a + 1) args below first.non_empty))

  pub taint_callees-Grows :
      (tm : TaintMap) (args : List Value) (callees : List Callee)
      → CalleesBelow n callees
      → NonEmpty tm
      → Grows n tm ((taint_callees tm args callees).0) ((taint_callees tm args callees).1)
  unfolding taint_callees
  taint_callees-Grows tm args [] below ok = same-Grows n tm ok
  taint_callees-Grows tm args (callee ∷ callees) (here, below) ok =
      elim (Bool-cases (callee.skipped)) [
        | inl skip ↦ rw (taint_callees, skip) (taint_callees-Grows tm args callees below ok)
        | inr visit ↦
            let first = taint_args-Grows tm callee 0 args here ok in
            rw (taint_callees, visit)
              (then-Grows n first (
                taint_callees-Grows ((taint_args tm callee 0 args).0) args callees below
                  first.non_empty))
      ]

  pub taint_operands-Grows :
      (tm : TaintMap) (descs : DescSet) (vs : List Value)
      → NonEmpty tm
      → Grows n tm ((taint_operands tm descs vs).1) false
  unfolding taint_operands
  taint_operands-Grows tm descs [] ok = same-Grows n tm ok
  taint_operands-Grows tm descs (v ∷ vs) ok =
      let (some_desc, looked) = get_taint-Grows tm v ok in
      then-Grows n looked (
        taint_operands-Grows ((get_taint tm v).1) (insert_all descs (descs_of (get_taint tm v).0))
          vs looked.non_empty)

  pub run_kind-Grows :
      (tm : TaintMap) (number : ℕ) (kind : Kind)
      → KindBelow n kind
      → NonEmpty tm
      → Grows n tm ((run_kind tm number kind).0) ((run_kind tm number kind).1)
  unfolding run_kind
  run_kind-Grows tm number (Kind.call callees args) below ok =
      taint_callees-Grows tm args callees below ok
  run_kind-Grows tm number (Kind.plain operands target) below ok =
      let looked = taint_operands-Grows tm [] operands ok in
      elim (Bool-cases (is_empty ((taint_operands tm [] operands).0))) [
        | inl clean ↦ rw (run_kind, clean) looked
        | inr some_desc ↦
            let valued = add_value-Grows n _ number _ some_desc looked.non_empty in
            rw (run_kind, some_desc)
              (then-Grows n looked (
                then-Grows n valued
                  (add_id-Grows n _ target _ false below some_desc valued.non_empty)))
      ]

  pub run_on_function-Grows :
      (tm : TaintMap) (instrs : List Instr)
      → InstrsBelow n instrs
      → NonEmpty tm
      → Grows n tm ((run_on_function tm instrs).0) ((run_on_function tm instrs).1)
  unfolding run_on_function
  run_on_function-Grows tm [] below ok = same-Grows n tm ok
  run_on_function-Grows tm (i ∷ instrs) ((here, fields, kind), below) ok =
      let marked = mark_source-Grows tm i i.source here fields ok in
      let tm₁ = (mark_source tm i i.source).0 in
      let ran = run_kind-Grows tm₁ i.number i.kind kind marked.non_empty in
      let tm₂ = (run_kind tm₁ i.number i.kind).0 in
      then-Grows n (then-Grows n marked ran) (run_on_function-Grows tm₂ instrs below ran.non_empty)

  pub run_on_functions-Grows :
      (tm : TaintMap) (functions : List (List Instr))
      → FunctionsBelow n functions
      → NonEmpty tm
      → Grows n tm ((run_on_functions tm functions).0) ((run_on_functions tm functions).1)
  unfolding run_on_functions
  run_on_functions-Grows tm [] below ok = same-Grows n tm ok
  run_on_functions-Grows tm (f ∷ functions) (here, below) ok =
      let first = run_on_function-Grows tm f here ok in
      then-Grows n first
        (run_on_functions-Grows ((run_on_function tm f).0) functions below first.non_empty)
