-- ===== src/Range/Visits.antt =====
-- src/Range.cc: the visits of instructions. What the pass does not look into is left out of them.
use kint_test.Base.{
  ℕ, ◌+◌, Bool, true, false, ◌&&◌, ◌||◌, not, ◌==◌, Option, none, some, List, [], ◌∷◌,
}
use kint_test.Ir.{BinaryOp}
use kint_test.Global.TaintMap.{TaintMap}
use kint_test.Range.Algebra.{ConstantRange}
use kint_test.Range.State.{
  Operand, RangeState, match_bits, safe_union, sdiv, union_id, union_value, get_range,
}

pub data CastKind : Type 0 where
  trunc zext sext bit_cast other_cast : CastKind

-- A possible callee of a call: its getArgId, by the number of the argument.
pub record Callee : Type 0 where
  pub skipped : Bool
  pub arg_id : ℕ → ℕ

-- An instruction that is none of the kinds below is `other`.
pub data Kind : Type 0 where
  -- the value, whether it is an integer, the number of the pointer, and getValueId
  store : Operand → (is_integer : Bool) → (pointer id : ℕ) → Kind
  -- the returned integer, if there is one, and getRetId of the function
  ret : Option Operand → (id : ℕ) → Kind
  -- the possible callees, `none` for inline assembly and calls that are not in Callees; the
  -- arguments, each with whether it is an integer; getRetId of the call; the call as a value
  call : Option (List Callee) → List (Bool × Operand) → (id : ℕ) → (self : Operand) → Kind
  binary : BinaryOp → Operand → Operand → Kind
  cast : CastKind → Operand → Kind
  select : Operand → Operand → Kind
  -- the predecessors with their values
  phi : List (ℕ × Operand) → Kind
  load : (self : Operand) → Kind
  other : Kind

pub record Instr : Type 0 where
  pub number : ℕ
  -- the width of the result, if it is an integer
  pub result_width : Option ℕ
  pub kind : Kind

abbrev pub Edges : Type 0
Edges = List (ℕ × ℕ)

unfoldable pub is_back_edge : Edges → ℕ → ℕ → Bool
is_back_edge [] src dst = false
is_back_edge ((s, d) ∷ edges) src dst = (s == src && d == dst) || is_back_edge edges src dst

module _ (cr : ConstantRange) where
  open cr use {
    Range, bits, full_set, empty_set, zext_or_trunc, sign_extend, add, sub, multiply, udiv, shl,
    lshr, binary_and, binary_or,
  }

  -- visitBinaryOp, on the ranges of the operands
  unfoldable pub binary_op : BinaryOp → Range → Range → Range
  unfolding match_bits sdiv
  binary_op BinaryOp.add l r = add l (match_bits cr r l)
  binary_op BinaryOp.sub l r = sub l (match_bits cr r l)
  binary_op BinaryOp.mul l r = multiply l (match_bits cr r l)
  binary_op BinaryOp.udiv l r = udiv l (match_bits cr r l)
  binary_op BinaryOp.sdiv l r = sdiv cr l (match_bits cr r l)
  binary_op BinaryOp.urem l r = match_bits cr r l
  binary_op BinaryOp.srem l r = match_bits cr r l
  binary_op BinaryOp.shl l r = shl l (match_bits cr r l)
  binary_op BinaryOp.lshr l r = lshr l (match_bits cr r l)
  binary_op BinaryOp.ashr l r = l
  binary_op BinaryOp.and_ l r = binary_and l (match_bits cr r l)
  binary_op BinaryOp.or_ l r = binary_or l (match_bits cr r l)
  binary_op BinaryOp.xor_ l r = l

  -- visitCastInst, on the range of the operand
  unfoldable pub cast_range : CastKind → (width : ℕ) → Range → Range
  cast_range CastKind.trunc width r = zext_or_trunc width r
  cast_range CastKind.zext width r = zext_or_trunc width r
  cast_range CastKind.sext width r = sign_extend width r
  cast_range CastKind.bit_cast width r = r
  cast_range CastKind.other_cast width r = full_set width

  module _ (taints : TaintMap) (back_edges : Edges) where
    abbrev State : Type 0
    State = RangeState cr

    unfoldable pub visit_binary_op : State → ℕ → BinaryOp → Operand → Operand → Range × State
    unfolding binary_op
    visit_binary_op st bb op l r =
        let (left, st₁) = get_range cr taints st bb l in
        let (right, st₂) = get_range cr taints st₁ bb r in (binary_op op left right, st₂)

    unfoldable pub visit_cast_inst : State → ℕ → CastKind → (width : ℕ) → Operand → Range × State
    unfolding cast_range
    visit_cast_inst st bb CastKind.other_cast width v = (full_set width, st)
    visit_cast_inst st bb kind width v =
        let (r, after) = get_range cr taints st bb v in (cast_range kind width r, after)

    unfoldable pub visit_select_inst : State → ℕ → Operand → Operand → Range × State
    unfolding safe_union
    visit_select_inst st bb t f =
        let (on_true, st₁) = get_range cr taints st bb t in
        let (on_false, st₂) = get_range cr taints st₁ bb f in
        ((safe_union cr on_true on_false).0, st₂)

    unfoldable pub visit_phi_from : State → ℕ → Range → List (ℕ × Operand) → Range × State
    unfolding safe_union is_back_edge
    visit_phi_from st bb r [] = (r, st)
    visit_phi_from st bb r ((pred, v) ∷ incoming) = elim (is_back_edge back_edges pred bb) [
      | true ↦ visit_phi_from st bb r incoming
      | false ↦
          let (value, after) = get_range cr taints st pred v in
          visit_phi_from after bb ((safe_union cr r value).0) incoming
    ]

    unfoldable pub visit_phi_node : State → ℕ → (width : ℕ) → List (ℕ × Operand) → Range × State
    unfolding visit_phi_from
    visit_phi_node st bb width incoming = visit_phi_from st bb (empty_set width) incoming

    -- The arguments from number j on, for one callee.
    unfoldable pub visit_args : State → ℕ → Callee → ℕ → List (Bool × Operand) → State × Bool
    visit_args st bb callee j [] = (st, false)
    visit_args st bb callee j ((false, v) ∷ args) = visit_args st bb callee (j + 1) args
    visit_args st bb callee j ((true, v) ∷ args) =
        let (r, st₁) = get_range cr taints st bb v in
        let (st₂, here) = union_id cr st₁ (callee.arg_id j) r in
        let (st₃, later) = visit_args st₂ bb callee (j + 1) args in (st₃, here || later)

    unfoldable pub visit_callees : State → ℕ → List (Bool × Operand) → List Callee → State × Bool
    unfolding visit_args
    visit_callees st bb args [] = (st, false)
    visit_callees st bb args (callee ∷ callees) = elim (callee.skipped) [
      | true ↦ visit_callees st bb args callees
      | false ↦
          let (st₁, here) = visit_args st bb callee 0 args in
          let (st₂, later) = visit_callees st₁ bb args callees in (st₂, here || later)
    ]

    -- `is_integer` is of the call's own type.
    unfoldable pub visit_call_inst :
        State
        → ℕ
        → (is_integer : Bool) → Option (List Callee)
        → List (Bool × Operand)
        → ℕ
        → Operand
        → State × Bool
    unfolding visit_callees union_id
    visit_call_inst st bb is_integer none args id self = (st, false)
    visit_call_inst st bb is_integer (some callees) args id self =
        let (st₁, arguments) = visit_callees st bb args callees in
        elim is_integer [
          | false ↦ (st₁, arguments)
          | true ↦
              let (r, st₂) = get_range cr taints st₁ bb self in
              let (st₃, here) = union_id cr st₂ id r in (st₃, arguments || here)
        ]

    unfoldable pub visit_store_inst : State → ℕ → Operand → Bool → ℕ → ℕ → State × Bool
    unfolding union_id union_value
    visit_store_inst st bb v is_integer pointer id = elim (is_integer && not (id == 0)) [
      | false ↦ (st, false)
      | true ↦
          let (r, st₁) = get_range cr taints st bb v in
          union_id cr (union_value cr st₁ bb pointer r) id r
    ]

    unfoldable pub visit_return_inst : State → ℕ → Option Operand → ℕ → State × Bool
    unfolding union_id
    visit_return_inst st bb none id = (st, false)
    visit_return_inst st bb (some v) id =
        let (r, st₁) = get_range cr taints st bb v in union_id cr st₁ id r

    abbrev pub is_some : Option ℕ → Bool
    is_some none = false
    is_some (some width) = true

    -- What store, return and call do to the global ranges.
    unfoldable pub update_global : State → ℕ → (is_integer : Bool) → Kind → State × Bool
    unfolding visit_store_inst visit_return_inst visit_call_inst
    update_global st bb is_integer (Kind.store v integer pointer id) =
        visit_store_inst st bb v integer pointer id
    update_global st bb is_integer (Kind.ret v id) = visit_return_inst st bb v id
    update_global st bb is_integer (Kind.call callees args id self) =
        visit_call_inst st bb is_integer callees args id self
    update_global st bb is_integer kind = (st, false)

    -- The range of the result of an instruction.
    unfoldable pub result_range : State → ℕ → (width : ℕ) → Kind → Range × State
    unfolding visit_binary_op visit_cast_inst visit_select_inst visit_phi_node
    result_range st bb width (Kind.binary op l r) = visit_binary_op st bb op l r
    result_range st bb width (Kind.cast kind v) = visit_cast_inst st bb kind width v
    result_range st bb width (Kind.select t f) = visit_select_inst st bb t f
    result_range st bb width (Kind.phi incoming) = visit_phi_node st bb width incoming
    result_range st bb width (Kind.load self) = get_range cr taints st bb self
    result_range st bb width (Kind.call callees args id self) = get_range cr taints st bb self
    result_range st bb width kind = (full_set width, st)

    -- updateRangeFor(Instruction *)
    unfoldable pub update_instr : State → ℕ → Instr → State × Bool
    unfolding update_global result_range union_value
    update_instr st bb i =
        let (st₁, changed) = update_global st bb (is_some i.result_width) i.kind in
        elim (i.result_width) [
          | none ↦ (st₁, changed)
          | some width ↦
              let (r, st₂) = result_range st₁ bb width i.kind in
              (union_value cr st₂ bb i.number r, changed)
        ]
