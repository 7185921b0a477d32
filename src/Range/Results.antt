-- ===== src/Range/Results.antt =====
-- src/Range.cc: the range that updateRangeFor computes for the result of an instruction holds the
-- result, with the ranges that getRange finds, and keeps, on the way.
use kint_test.Base.{
  ℕ, ◌%◌, ◌^◌, ◌≡◌, refl, sym, ap, ◌∙◌, ◌⊎◌, inl, inr, true, false, ◌==◌, Option, none, some, List,
  arith, Bool-cases,
}
use mathlib.Core.Path.{subst}
use kint_test.Word.{IsWord}
use kint_test.Ir.{BinaryOp, Env, calculate}
use kint_test.Global.TaintMap.{TaintMap}
use kint_test.Range.Algebra.{ConstantRange}
use kint_test.Range.State.{
  Operand, const_int, call_value, other_value, RangeState, match_bits, sdiv, found_or_global,
  global_range, get_range,
}
use kint_test.Range.Grows.{bits-match_bits}
use kint_test.Range.Visits.{
  CastKind, Kind, Edges, binary_op, visit_binary_op, visit_cast_inst, visit_select_inst,
  result_range,
}
use kint_test.Range.Sound.{
  tracks, defines, CastsTo, match_bits-same, contains-match_bits, contains-binary_op,
  contains-cast_range, contains-safe_union,
}

-- Two operands that are one value are one operand.
abbrev pub OneValue : Operand → Operand → Type 0
OneValue (call_value v w ids) (call_value u w' ids') =
    (u == v) ≡ true → call_value u w' ids' ≡ call_value v w ids
OneValue (call_value v w ids) (other_value u w' id) = (u == v) ≡ false
OneValue (other_value v w id) (call_value u w' ids) = (u == v) ≡ false
OneValue (other_value v w id) (other_value u w' id') =
    (u == v) ≡ true → other_value u w' id' ≡ other_value v w id
OneValue l r = Unit

module _ (cr : ConstantRange) where
  open cr use {Range, bits, contains, is_empty_set}

  match_bits-twice : (r l : Range) → match_bits cr (match_bits cr r l) l ≡ match_bits cr r l
  match_bits-twice r l = match_bits-same cr (match_bits cr r l) l (bits-match_bits cr r l)

  -- The right operand is cut or extended to the width of the left one.
  binary_op-match :
      (op : BinaryOp) (l r : Range) → binary_op cr op l (match_bits cr r l) ≡ binary_op cr op l r
  unfolding binary_op
  binary_op-match BinaryOp.add l r = ap (cr.add l) (match_bits-twice r l)
  binary_op-match BinaryOp.sub l r = ap (cr.sub l) (match_bits-twice r l)
  binary_op-match BinaryOp.mul l r = ap (cr.multiply l) (match_bits-twice r l)
  binary_op-match BinaryOp.udiv l r = ap (cr.udiv l) (match_bits-twice r l)
  binary_op-match BinaryOp.sdiv l r = ap (sdiv cr l) (match_bits-twice r l)
  binary_op-match BinaryOp.shl l r = ap (cr.shl l) (match_bits-twice r l)
  binary_op-match BinaryOp.lshr l r = ap (cr.lshr l) (match_bits-twice r l)
  binary_op-match BinaryOp.and_ l r = ap (cr.binary_and l) (match_bits-twice r l)
  binary_op-match BinaryOp.or_ l r = ap (cr.binary_or l) (match_bits-twice r l)
  binary_op-match BinaryOp.urem l r = match_bits-twice r l
  binary_op-match BinaryOp.srem l r = match_bits-twice r l
  binary_op-match BinaryOp.ashr l r = refl
  binary_op-match BinaryOp.xor_ l r = refl

  contains-binary_op_match :
      (env : Env) (op : BinaryOp) (l r : Range) (x y : ℕ)
      → tracks op ≡ true
      → defines (bits l) op (y % 2 ^ bits l) ≡ true
      → contains l x ≡ true
      → contains r y ≡ true
      → IsWord (bits r) y
      → contains (binary_op cr op l r) (calculate env (bits l) op x (y % 2 ^ bits l) % 2 ^ bits l)
        ≡ true
  contains-binary_op_match env op l r x y tracked defined left right word =
      rw (← binary_op-match op l r) (
        contains-binary_op cr env op l (match_bits cr r l) x (y % 2 ^ bits l) tracked defined
          (bits-match_bits cr r l) left (contains-match_bits cr r l y right word))

  module _ (taints : TaintMap) (back_edges : Edges) (st : RangeState cr) (bb : ℕ) where
    abbrev range_of : Operand → Range
    range_of v = (get_range cr taints st bb v).0

    abbrev next : ℕ → Range → Option Range → RangeState cr
    next v global found = (found_or_global cr taints st bb v global found).1

    next-other :
        (v u : ℕ) (global : Range) (found : Option Range)
        → (u == v) ≡ false
        → (next v global found).func_vrms bb u ≡ st.func_vrms bb u
    next-other v u global (some r) other = refl
    next-other v u global none other =
        let here : (bb == bb) ≡ true = ground arith in
        elim (Bool-cases (is_empty_set global)) [
          | inl empty ↦ rw (found_or_global, empty) refl
          | inr full ↦ rw (found_or_global, full) (rw (here, other) refl)
        ]

    next-int_ranges :
        (v : ℕ) (global : Range) (found : Option Range)
        → (next v global found).int_ranges ≡ st.int_ranges
    next-int_ranges v global (some r) = refl
    next-int_ranges v global none = elim (Bool-cases (is_empty_set global)) [
      | inl empty ↦ rw (found_or_global, empty) refl
      | inr full ↦ rw (found_or_global, full) refl
    ]

    abbrev found_in : RangeState cr → ℕ → Range → Range
    found_in s v global = (found_or_global cr taints s bb v global (s.func_vrms bb v)).0

    found_in-eq :
        (s : RangeState cr) (v : ℕ) (global : Range) (o : Option Range)
        → s.func_vrms bb v ≡ o
        → found_in s v global ≡ (found_or_global cr taints s bb v global o).0
    found_in-eq s v global o e = ap (λ t. (found_or_global cr taints s bb v global t).0) e

    next-stored :
        (v : ℕ) (global : Range)
        → is_empty_set global ≡ false
        → (next v global none).func_vrms bb v ≡ some global
    next-stored v global full =
        let here : (bb == bb) ≡ true = ground arith in
        let itself : (v == v) ≡ true = ground arith in
        rw (found_or_global, full) (rw (here, itself) refl)

    next-same :
        (v : ℕ) (global : Range) (found : Option Range)
        → st.func_vrms bb v ≡ found
        → found_in (next v global found) v global ≡ found_in st v global
    next-same v global (some r) e = refl
    next-same v global none e = elim (Bool-cases (is_empty_set global)) [
      | inl empty ↦ rw (found_or_global, empty) refl
      | inr full ↦
          found_in-eq (next v global none) v global (some global) (next-stored v global full)
          ∙ sym (found_in-eq st v global none e)
    ]

    same_result :
        (s : RangeState cr) (u : ℕ) (global : Range) (o : Option Range)
        → (found_or_global cr taints s bb u global o).0
          ≡ (found_or_global cr taints st bb u global o).0
    same_result s u global none = refl
    same_result s u global (some r) = refl

    found_other :
        (v u : ℕ) (other_global global : Range)
        → (u == v) ≡ false
        → found_in (next v other_global (st.func_vrms bb v)) u global ≡ found_in st u global
    found_other v u other_global global other =
        let after = next v other_global (st.func_vrms bb v) in
        found_in-eq after u global (st.func_vrms bb u)
          (next-other v u other_global (st.func_vrms bb v) other)
        ∙ same_result after u global (st.func_vrms bb u)

    -- The range of an operand is the same after getRange has looked at another.
    abbrev Looked : Operand → Operand → Type 0
    Looked l r = (get_range cr taints ((get_range cr taints st bb l).1) bb r).0 ≡ range_of r

    self_after : (l : Operand) → Looked l l
    unfolding get_range
    self_after (const_int w c) = refl
    self_after (call_value v w ids) =
        let g = global_range cr taints st.int_ranges (call_value v w ids) in
        let found = st.func_vrms bb v in
        ap (λ m. found_in (next v g found) v (global_range cr taints m (call_value v w ids)))
          (next-int_ranges v g found)
        ∙ next-same v g found refl
    self_after (other_value v w id) =
        let g = global_range cr taints st.int_ranges (other_value v w id) in
        let found = st.func_vrms bb v in
        ap (λ m. found_in (next v g found) v (global_range cr taints m (other_value v w id)))
          (next-int_ranges v g found)
        ∙ next-same v g found refl

    call_after :
        (v u w : ℕ) (ids : Option (List ℕ)) (g : Range)
        → (u == v) ≡ false
        → (get_range cr taints (next v g (st.func_vrms bb v)) bb (call_value u w ids)).0
          ≡ range_of (call_value u w ids)
    unfolding get_range
    call_after v u w ids g other =
        let found = st.func_vrms bb v in
        ap (λ m. found_in (next v g found) u (global_range cr taints m (call_value u w ids)))
          (next-int_ranges v g found)
        ∙ found_other v u g (global_range cr taints st.int_ranges (call_value u w ids)) other

    value_after :
        (v u w id : ℕ) (g : Range)
        → (u == v) ≡ false
        → (get_range cr taints (next v g (st.func_vrms bb v)) bb (other_value u w id)).0
          ≡ range_of (other_value u w id)
    unfolding get_range
    value_after v u w id g other =
        let found = st.func_vrms bb v in
        ap (λ m. found_in (next v g found) u (global_range cr taints m (other_value u w id)))
          (next-int_ranges v g found)
        ∙ found_other v u g (global_range cr taints st.int_ranges (other_value u w id)) other

    range_of-after : (l r : Operand) → OneValue l r → Looked l r
    unfolding get_range
    range_of-after (const_int w c) r one = refl
    range_of-after (call_value v w ids) (const_int w' c) one = refl
    range_of-after (other_value v w id) (const_int w' c) one = refl
    range_of-after (call_value v w ids) (call_value u w' ids') one = elim (Bool-cases (u == v)) [
      | inl same ↦
          subst (Looked (call_value v w ids)) (sym (one same)) (self_after (call_value v w ids))
      | inr other ↦ call_after v u w' ids' _ other
    ]
    range_of-after (call_value v w ids) (other_value u w' id) one = value_after v u w' id _ one
    range_of-after (other_value v w id) (call_value u w' ids) one = call_after v u w' ids _ one
    range_of-after (other_value v w id) (other_value u w' id') one = elim (Bool-cases (u == v)) [
      | inl same ↦
          subst (Looked (other_value v w id)) (sym (one same)) (self_after (other_value v w id))
      | inr other ↦ value_after v u w' id' _ other
    ]

    -- A word in the range that getRange finds for an operand.
    abbrev pub Holds : Operand → ℕ → Type 0
    Holds v x = (contains (range_of v) x ≡ true) × IsWord (bits (range_of v)) x

    -- What an instruction gives for words in the ranges of its operands, at the widths of the
    -- ranges; of a binary operator that is tracked, where the result is defined. A right operand is
    -- cut or extended to the width of the left one, as is the other value of a select.
    abbrev pub Gives : Env → (width : ℕ) → Kind → ℕ → Type 0
    Gives env w (Kind.binary op l r) z =
        let n = bits (range_of l) in
        (x : ℕ) × (y : ℕ) × Holds l x
        × Holds r y
        × OneValue l r
        × (tracks op ≡ true)
        × (defines n op (y % 2 ^ n) ≡ true)
        × (z ≡ calculate env n op x (y % 2 ^ n) % 2 ^ n)
    Gives env w (Kind.cast kind v) z = (x : ℕ) × Holds v x × CastsTo (bits (range_of v)) kind w x z
    Gives env w (Kind.select t f) z =
        Holds t z ⊎ ((y : ℕ) × Holds f y × OneValue t f × (z ≡ y % 2 ^ bits (range_of t)))
    Gives env w kind z = ⊥

    cast_holds :
        (w : ℕ) (kind : CastKind) (v : Operand) (x z : ℕ)
        → contains (range_of v) x ≡ true
        → CastsTo (bits (range_of v)) kind w x z
        → contains ((visit_cast_inst cr taints back_edges st bb kind w v).0) z ≡ true
    unfolding visit_cast_inst
    cast_holds w CastKind.trunc v x z h gives =
        contains-cast_range cr CastKind.trunc w _ x z h gives
    cast_holds w CastKind.zext v x z h gives = contains-cast_range cr CastKind.zext w _ x z h gives
    cast_holds w CastKind.sext v x z h gives = contains-cast_range cr CastKind.sext w _ x z h gives
    cast_holds w CastKind.bit_cast v x z h gives =
        contains-cast_range cr CastKind.bit_cast w _ x z h gives
    cast_holds w CastKind.other_cast v x z h gives =
        contains-cast_range cr CastKind.other_cast w (range_of v) x z h gives

    -- The range that is computed for the result of a binary operator, a cast or a select holds what the
    -- instruction gives for words in the ranges that getRange finds for its operands before, though it
    -- stores the range of the first operand before it looks for that of the second, and whatever the
    -- widths of the two ranges. The binary operators are those other than the remainders, the
    -- arithmetic shift and the exclusive or, where the result is defined; an extension is to a greater
    -- width; and operands with the number of one value are one operand.
    pub contains-result_range :
        (env : Env) (w : ℕ) (kind : Kind) (z : ℕ)
        → Gives env w kind z
        → contains ((result_range cr taints back_edges st bb w kind).0) z ≡ true
    unfolding result_range visit_binary_op visit_cast_inst visit_select_inst
    contains-result_range env w (Kind.binary op l r) z
          (x, y, (in_l, word_l), (in_r, word_r), one, tracked, defined, gives) =
        rw (range_of-after l r one, gives)
          (contains-binary_op_match env op (range_of l) (range_of r) x y tracked defined in_l in_r
            word_r)
    contains-result_range env w (Kind.cast kind v) z (x, (in_v, word), gives) =
        cast_holds w kind v x z in_v gives
    contains-result_range env w (Kind.select t f) z (inl (in_t, word)) =
        (contains-safe_union cr (range_of t) _).1 z in_t
    contains-result_range env w (Kind.select t f) z (inr (y, (in_f, word), one, gives)) =
        rw (range_of-after t f one, gives)
          ((contains-safe_union cr (range_of t) (range_of f)).2 y in_f word)
    contains-result_range env w _ z h = absurd h
