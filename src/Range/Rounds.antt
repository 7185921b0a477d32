-- ===== src/Range/Rounds.antt =====
-- src/Range.cc: a round over the functions of a module is a `Grows`, if its identifiers are below
-- n.
use kint_test.Base.{
  ℕ, ◌+◌, ◌<◌, refl, inl, inr, Bool, true, false, not, ◌==◌, Option, none, some, List, [], ◌∷◌,
  Bool-cases, Option-cases,
}
use kint_test.Global.TaintMap.{TaintMap}
use kint_test.Range.Algebra.{ConstantRange}
use kint_test.Range.State.{Operand, RangeState, union_id, union_value, found_or_global, get_range}
use kint_test.Range.Visits.{
  CastKind, Callee, Kind, Instr, Edges, is_back_edge, visit_binary_op, visit_cast_inst,
  visit_select_inst, visit_phi_from, visit_phi_node, visit_args, visit_callees, visit_call_inst,
  visit_store_inst, visit_return_inst, is_some, update_global, result_range, update_instr,
}
use kint_test.Range.Refine.{Terminator, Vrm, visit_terminator}
use kint_test.Range.Pass.{
  Block, Function, union_block, from_preds, update_instrs, update_blocks, clear_vrms,
  is_declaration, update_functions,
}
use kint_test.Range.Grows.{Grows, silent-Grows, then-Grows, then_silent-Grows, union_id-Grows}

-- The identifiers that a call, an instruction, a function may change are below n.
abbrev pub CalleesBelow : ℕ → List Callee → Type 0
CalleesBelow n [] = Unit
CalleesBelow n (callee ∷ callees) = ((j : ℕ) → callee.arg_id j < n) × CalleesBelow n callees

abbrev pub KindBelow : ℕ → Kind → Type 0
KindBelow n (Kind.store v integer pointer id) = id < n
KindBelow n (Kind.ret v id) = id < n
KindBelow n (Kind.call none args id self) = Unit
KindBelow n (Kind.call (some callees) args id self) = CalleesBelow n callees × (id < n)
KindBelow n kind = Unit

abbrev pub InstrsBelow : ℕ → List Instr → Type 0
InstrsBelow n [] = Unit
InstrsBelow n (i ∷ instrs) = KindBelow n (i.kind) × InstrsBelow n instrs

abbrev pub BlocksBelow : ℕ → List Block → Type 0
BlocksBelow n [] = Unit
BlocksBelow n (b ∷ blocks) = InstrsBelow n (b.instrs) × BlocksBelow n blocks

abbrev pub FunctionsBelow : ℕ → List Function → Type 0
FunctionsBelow n [] = Unit
FunctionsBelow n (f ∷ functions) = BlocksBelow n (f.blocks) × FunctionsBelow n functions

module _ (cr : ConstantRange) (taints : TaintMap) (n : ℕ) where
  abbrev State : Type 0
  State = RangeState cr

  found_or_global-Grows :
      (st : State) (bb v : ℕ) (r : cr.Range) (found : Option cr.Range)
      → Grows cr n st ((found_or_global cr taints st bb v r found).1) false
  found_or_global-Grows st bb v r (some old) = silent-Grows cr n st st refl refl
  found_or_global-Grows st bb v r none = elim (Bool-cases (cr.is_empty_set r)) [
    | inl nothing ↦ rw nothing (silent-Grows cr n st st refl refl)
    | inr members ↦ rw members (silent-Grows cr n st _ refl refl)
  ]

  get_range-Grows :
      (st : State) (bb : ℕ) (v : Operand) → Grows cr n st ((get_range cr taints st bb v).1) false
  unfolding get_range
  get_range-Grows st bb (Operand.const_int width value) = silent-Grows cr n st st refl refl
  get_range-Grows st bb (Operand.call_value v width callees) =
      found_or_global-Grows st bb v _ (st.func_vrms bb v)
  get_range-Grows st bb (Operand.other_value v width id) =
      found_or_global-Grows st bb v _ (st.func_vrms bb v)

  union_value-Grows :
      (st : State) (bb v : ℕ) (r : cr.Range) → Grows cr n st (union_value cr st bb v r) false
  unfolding union_value
  union_value-Grows st bb v r = elim (Bool-cases (cr.is_empty_set r)) [
    | inl nothing ↦ rw (union_value, nothing) (silent-Grows cr n st st refl refl)
    | inr members ↦ rw (union_value, members) (silent-Grows cr n st _ refl refl)
  ]

  module _ (back_edges : Edges) where
    visit_phi_from-Grows :
        (st : State) (bb : ℕ) (r : cr.Range) (incoming : List (ℕ × Operand))
        → Grows cr n st ((visit_phi_from cr taints back_edges st bb r incoming).1) false
    unfolding visit_phi_from
    visit_phi_from-Grows st bb r [] = silent-Grows cr n st st refl refl
    visit_phi_from-Grows st bb r ((pred, v) ∷ incoming) =
        elim (Bool-cases (is_back_edge back_edges pred bb)) [
          | inl back ↦ rw (visit_phi_from, back) (visit_phi_from-Grows st bb r incoming)
          | inr forward ↦
              rw (visit_phi_from, forward)
                (then-Grows cr n (get_range-Grows st pred v)
                  (visit_phi_from-Grows ((get_range cr taints st pred v).1) bb _ incoming))
        ]

    result_range-Grows :
        (st : State) (bb width : ℕ) (kind : Kind)
        → Grows cr n st ((result_range cr taints back_edges st bb width kind).1) false
    unfolding result_range visit_binary_op visit_cast_inst visit_select_inst visit_phi_node
    result_range-Grows st bb width (Kind.binary op l r) =
        then-Grows cr n (get_range-Grows st bb l) (get_range-Grows _ bb r)
    result_range-Grows st bb width (Kind.cast CastKind.other_cast v) =
        silent-Grows cr n st st refl refl
    result_range-Grows st bb width (Kind.cast kind v) = get_range-Grows st bb v
    result_range-Grows st bb width (Kind.select t f) =
        then-Grows cr n (get_range-Grows st bb t) (get_range-Grows _ bb f)
    result_range-Grows st bb width (Kind.phi incoming) = visit_phi_from-Grows st bb _ incoming
    result_range-Grows st bb width (Kind.load self) = get_range-Grows st bb self
    result_range-Grows st bb width (Kind.call callees args id self) = get_range-Grows st bb self
    result_range-Grows st bb width kind = silent-Grows cr n st st refl refl

    visit_args-Grows :
        (st : State) (bb : ℕ) (callee : Callee) (j : ℕ) (args : List (Bool × Operand))
        → ((k : ℕ) → callee.arg_id k < n)
        → Grows cr n st
            ((visit_args cr taints back_edges st bb callee j args).0)
            ((visit_args cr taints back_edges st bb callee j args).1)
    unfolding visit_args
    visit_args-Grows st bb callee j [] below = silent-Grows cr n st st refl refl
    visit_args-Grows st bb callee j ((false, v) ∷ args) below =
        visit_args-Grows st bb callee (j + 1) args below
    visit_args-Grows st bb callee j ((true, v) ∷ args) below =
        let (r, st₁) = get_range cr taints st bb v in
        let next = (union_id cr st₁ (callee.arg_id j) r).0 in
        then-Grows cr n (get_range-Grows st bb v) (
          then-Grows cr n (union_id-Grows cr n st₁ (callee.arg_id j) r (below j))
            (visit_args-Grows next bb callee (j + 1) args below))

    visit_callees-Grows :
        (st : State) (bb : ℕ) (args : List (Bool × Operand)) (callees : List Callee)
        → CalleesBelow n callees
        → Grows cr n st
            ((visit_callees cr taints back_edges st bb args callees).0)
            ((visit_callees cr taints back_edges st bb args callees).1)
    unfolding visit_callees
    visit_callees-Grows st bb args [] below = silent-Grows cr n st st refl refl
    visit_callees-Grows st bb args (callee ∷ callees) (below, rest) =
        elim (Bool-cases (callee.skipped)) [
          | inl skip ↦ rw (visit_callees, skip) (visit_callees-Grows st bb args callees rest)
          | inr visit ↦
              rw (visit_callees, visit)
                (then-Grows cr n (visit_args-Grows st bb callee 0 args below) (
                  visit_callees-Grows ((visit_args cr taints back_edges st bb callee 0 args).0) bb
                    args callees rest))
        ]

    update_global-Grows :
        (st : State) (bb : ℕ) (is_integer : Bool) (kind : Kind)
        → KindBelow n kind
        → Grows cr n st
            ((update_global cr taints back_edges st bb is_integer kind).0)
            ((update_global cr taints back_edges st bb is_integer kind).1)
    unfolding update_global visit_store_inst visit_return_inst visit_call_inst
    update_global-Grows st bb is_integer (Kind.store v true pointer id) below =
        elim (Bool-cases (not (id == 0))) [
          | inl named ↦
              rw (visit_store_inst, named)
                (then-Grows cr n (get_range-Grows st bb v) (
                  then-Grows cr n (union_value-Grows _ bb pointer _)
                    (union_id-Grows cr n _ id _ below)))
          | inr unnamed ↦ rw (visit_store_inst, unnamed) (silent-Grows cr n st st refl refl)
        ]
    update_global-Grows st bb is_integer (Kind.store v false pointer id) below =
        silent-Grows cr n st st refl refl
    update_global-Grows st bb is_integer (Kind.ret none id) below =
        silent-Grows cr n st st refl refl
    update_global-Grows st bb is_integer (Kind.ret (some v) id) below =
        then-Grows cr n (get_range-Grows st bb v) (union_id-Grows cr n _ id _ below)
    update_global-Grows st bb is_integer (Kind.call none args id self) below =
        silent-Grows cr n st st refl refl
    update_global-Grows st bb false (Kind.call (some callees) args id self) below =
        visit_callees-Grows st bb args callees below.0
    update_global-Grows st bb true (Kind.call (some callees) args id self) below =
        then-Grows cr n (visit_callees-Grows st bb args callees below.0)
          (then-Grows cr n (get_range-Grows _ bb self) (union_id-Grows cr n _ id _ below.1))
    update_global-Grows st bb is_integer kind below = silent-Grows cr n st st refl refl

    update_instr-Grows :
        (st : State) (bb : ℕ) (i : Instr)
        → KindBelow n (i.kind)
        → Grows cr n st
            ((update_instr cr taints back_edges st bb i).0)
            ((update_instr cr taints back_edges st bb i).1)
    unfolding update_instr
    update_instr-Grows st bb i below =
        let global =
          update_global-Grows st bb (is_some cr taints back_edges i.result_width) (i.kind) below in
        elim (Option-cases (i.result_width)) [
          | inl nothing ↦ rw (update_instr, nothing) global
          | inr (width, integer) ↦
              rw (update_instr, integer)
                (then_silent-Grows cr n _ global (
                  then-Grows cr n (result_range-Grows _ bb width i.kind)
                    (union_value-Grows _ bb i.number _)))
        ]

    update_instrs-Grows :
        (st : State) (bb : ℕ) (instrs : List Instr)
        → InstrsBelow n instrs
        → Grows cr n st
            ((update_instrs cr taints st back_edges bb instrs).0)
            ((update_instrs cr taints st back_edges bb instrs).1)
    unfolding update_instrs
    update_instrs-Grows st bb [] below = silent-Grows cr n st st refl refl
    update_instrs-Grows st bb (i ∷ instrs) (below, rest) =
        then-Grows cr n (update_instr-Grows st bb i below)
          (update_instrs-Grows ((update_instr cr taints back_edges st bb i).0) bb instrs rest)

    visit_terminator-Grows :
        (st : State) (bb : ℕ) (term : Terminator) (vrm : Vrm cr)
        → Grows cr n st ((visit_terminator cr taints st bb term vrm).1) false
    unfolding visit_terminator
    visit_terminator-Grows st bb (Terminator.branch p lhs rhs parent on_true) vrm =
        then-Grows cr n (get_range-Grows st parent lhs) (get_range-Grows _ parent rhs)
    visit_terminator-Grows st bb (Terminator.switch v width parent default cases) vrm =
        get_range-Grows st parent v
    visit_terminator-Grows st bb Terminator.other_terminator vrm = silent-Grows cr n st st refl refl

    from_preds-Grows :
        (st : State) (bb : ℕ) (preds : List (ℕ × Terminator))
        → Grows cr n st (from_preds cr taints st back_edges bb preds) false
    unfolding from_preds union_block
    from_preds-Grows st bb [] = silent-Grows cr n st st refl refl
    from_preds-Grows st bb ((pred, term) ∷ preds) =
        let (vrm, after) = visit_terminator cr taints st bb term (st.func_vrms pred) in
        elim (Bool-cases (is_back_edge back_edges pred bb)) [
          | inl back ↦ rw (from_preds, back) (from_preds-Grows st bb preds)
          | inr forward ↦
              rw (from_preds, forward)
                (then-Grows cr n (visit_terminator-Grows st bb term (st.func_vrms pred)) (
                  then-Grows cr n (silent-Grows cr n after (union_block cr after bb vrm) refl refl)
                    (from_preds-Grows (union_block cr after bb vrm) bb preds)))
        ]

    update_blocks-Grows :
        (st : State) (blocks : List Block)
        → BlocksBelow n blocks
        → Grows cr n st
            ((update_blocks cr taints st back_edges blocks).0)
            ((update_blocks cr taints st back_edges blocks).1)
    unfolding update_blocks
    update_blocks-Grows st [] below = silent-Grows cr n st st refl refl
    update_blocks-Grows st (b ∷ blocks) (below, rest) =
        let entered = from_preds cr taints st back_edges b.number b.preds in
        then-Grows cr n (from_preds-Grows st b.number b.preds) (
          then-Grows cr n (update_instrs-Grows entered b.number b.instrs below) (
            update_blocks-Grows ((update_instrs cr taints entered back_edges b.number b.instrs).0)
              blocks rest))

  pub update_functions-Grows :
      (st : State) (functions : List Function)
      → FunctionsBelow n functions
      → Grows cr n st
          ((update_functions cr taints st functions).0)
          ((update_functions cr taints st functions).1)
  unfolding update_functions
  update_functions-Grows st [] below = silent-Grows cr n st st refl refl
  update_functions-Grows st (f ∷ functions) (below, rest) =
      let cleared = clear_vrms cr taints st in
      elim (Bool-cases (is_declaration cr taints f.blocks)) [
        | inl empty ↦ rw (update_functions, empty) (update_functions-Grows st functions rest)
        | inr body ↦
            rw (update_functions, body)
              (then-Grows cr n (silent-Grows cr n st cleared refl refl) (
                then-Grows cr n (update_blocks-Grows f.back_edges cleared f.blocks below) (
                  update_functions-Grows ((update_blocks cr taints cleared f.back_edges f.blocks).0)
                    functions rest)))
      ]
