-- ===== src/Range/Edges.antt =====
-- src/Range.cc: what a terminator adds to the ranges of a successor holds on the edge.
use kint_test.Base.{
  ℕ, ◌%◌, ◌^◌, ◌≡◌, refl, sym, ap, inl, inr, Bool, true, false, not, ◌||◌, ◌&&◌, ◌==◌, ◌∙◌,
  if◌then◌else◌, Option, none, some, List, [], ◌∷◌, arith, Bool-cases, ==_iff,
}
use kint_test.Word.{IsWord, mod_small}
use kint_test.Ir.{Predicate, compares}
use kint_test.OverflowIdiom.{get_inverse_predicate}
use kint_test.Global.TaintMap.{TaintMap}
use kint_test.Range.Algebra.{ConstantRange}
use kint_test.Range.State.{Operand, RangeState, match_bits, safe_union, get_range}
use kint_test.Range.Refine.{
  Terminator, Vrm, insert, insert_operand, branch_regions, cases_range, switch_region,
  visit_terminator,
}
use kint_test.Range.Sound.{contains-safe_union, match_bits-same}

compares-get_inverse_predicate :
    (n : ℕ) (p : Predicate) (x y : ℕ)
    → compares n (get_inverse_predicate p) x y ≡ not (compares n p x y)
unfolding get_inverse_predicate
compares-get_inverse_predicate n Predicate.icmp_eq x y = refl
compares-get_inverse_predicate n Predicate.icmp_ne x y = ground arith
compares-get_inverse_predicate n Predicate.icmp_ugt x y = ground arith
compares-get_inverse_predicate n Predicate.icmp_uge x y = ground arith
compares-get_inverse_predicate n Predicate.icmp_ult x y = ground arith
compares-get_inverse_predicate n Predicate.icmp_ule x y = ground arith
compares-get_inverse_predicate n Predicate.icmp_sgt x y = refl
compares-get_inverse_predicate n Predicate.icmp_sge x y = ground arith
compares-get_inverse_predicate n Predicate.icmp_slt x y = refl
compares-get_inverse_predicate n Predicate.icmp_sle x y = ground arith

-- The number of a value that is not a constant.
abbrev pub number : Operand → Option ℕ
number (Operand.const_int width value) = none
number (Operand.call_value v width callees) = some v
number (Operand.other_value v width id) = some v

-- Whether a case of the switch leads a value to a block.
abbrev pub leads : (ℕ → Bool) → List (ℕ × ℕ) → ℕ → Bool
leads wanted [] x = false
leads wanted ((c, dest) ∷ cases) x = (c == x && wanted dest) || leads wanted cases x

module _ (cr : ConstantRange) where
  open cr use {Range, bits, contains, single, empty_set, intersect_with, inverse}

  -- What a map says of a value.
  abbrev pub holds_for : Option Range → ℕ → Bool
  holds_for none x = true
  holds_for (some r) x = contains r x

  some_number : {v w : ℕ} → some v ≡ some w → v ≡ w
  some_number h = cc

  insert_new :
      (vrm : Vrm cr) (w v : ℕ) (r : Range) → w ≡ v → vrm v ≡ none → insert cr vrm w r v ≡ some r
  insert_new vrm w v r same fresh =
      let here : (v == w) ≡ true = ground arith in rw (insert, fresh, here) refl

  insert_operand_new :
      (vrm : Vrm cr) (op : Operand) (v : ℕ) (r : Range)
      → number op ≡ some v
      → vrm v ≡ none
      → insert_operand cr vrm op r v ≡ some r
  unfolding insert_operand
  insert_operand_new vrm (Operand.const_int width value) v r numbered fresh = absurd (cc)
  insert_operand_new vrm (Operand.call_value w width callees) v r numbered fresh =
      insert_new vrm w v r (some_number numbered) fresh
  insert_operand_new vrm (Operand.other_value w width id) v r numbered fresh =
      insert_new vrm w v r (some_number numbered) fresh

  insert_operand_old :
      (vrm : Vrm cr) (op : Operand) (v : ℕ) (r old : Range)
      → vrm v ≡ some old
      → insert_operand cr vrm op r v ≡ some old
  unfolding insert_operand
  insert_operand_old vrm (Operand.const_int width value) v r old there = there
  insert_operand_old vrm (Operand.call_value w width callees) v r old there =
      rw (insert_operand, insert, there) refl
  insert_operand_old vrm (Operand.other_value w width id) v r old there =
      rw (insert_operand, insert, there) refl

  module _ (width : ℕ) (wanted : ℕ → Bool) where
    abbrev Covers : Range → List (ℕ × ℕ) → ℕ → Type 0
    Covers r cases x =
        (bits (cases_range cr width wanted r cases) ≡ width)
        × ((contains r x || leads wanted cases x) ≡ true
            → contains (cases_range cr width wanted r cases) x ≡ true)

    cases_range-Covers :
        (r : Range) (cases : List (ℕ × ℕ)) (x : ℕ)
        → bits r ≡ width
        → IsWord width x
        → Covers r cases x
    unfolding cases_range
    cases_range-Covers r [] x same word = (same, λ h. ground arith)
    cases_range-Covers r ((c, dest) ∷ cases) x same word = elim (Bool-cases (wanted dest)) [
      | inl here ↦
          let next = (safe_union cr r (single width c)).0 in
          let (width_kept, kept, added) = contains-safe_union cr r (single width c) in
          let (last, covers) = cases_range-Covers next cases x (width_kept ∙ same) word in
          rw here (
            last,
            λ h. covers (elim (Bool-cases (contains r x)) [
              | inl old ↦ let still = kept x old in ground arith
              | inr fresh ↦ elim (Bool-cases (c == x)) [
                | inl this ↦
                    let in_case = cr.contains-single width x word in
                    let now : contains next (x % 2 ^ bits r) ≡ true =
                      added x (rw ((==_iff c x).0 this) in_case)
                        (rw (cr.bits-single width c) word) in
                    let small : x % 2 ^ bits r ≡ x = rw same (mod_small x (2 ^ width) word) in
                    let now' : contains next x ≡ true = rw small at now in ground arith
                | inr other ↦ ground arith
              ]
            ]),
          )
      | inr skipped ↦
          let (last, covers) = cases_range-Covers r cases x same word in
          rw skipped (last, λ h. covers (ground arith))
    ]

  -- What the switch tells of a word on an edge to bb: on the default edge, that it is not in the
  -- joined range of the cases; on another, that a case for it leads to bb.
  abbrev pub takes : (width default bb : ℕ) → List (ℕ × ℕ) → ℕ → Bool
  takes width default bb cases x =
      if default == bb
      then not (contains (cases_range cr width (λ dest. true) (empty_set width) cases) x)
      else leads (λ dest. dest == bb) cases x

  contains-switch_region :
      (width default bb : ℕ) (cases : List (ℕ × ℕ)) (x : ℕ)
      → IsWord width x
      → takes width default bb cases x ≡ true
      → (bits (switch_region cr width default bb cases) ≡ width)
        × (contains (switch_region cr width default bb cases) x ≡ true)
  unfolding switch_region
  contains-switch_region width default bb cases x word taken = elim (Bool-cases (default == bb)) [
    | inl rest ↦
        let joined = cases_range cr width (λ dest. true) (empty_set width) cases in
        let (same, covers) =
          cases_range-Covers width (λ dest. true) (empty_set width) cases x
            (cr.bits-empty_set width) word in
        let outside : not (contains joined x) ≡ true = rw rest at taken in
        rw (switch_region, rest)
          (
            cr.bits-inverse joined ∙ same,
            cr.contains-inverse joined x (rw same word) (ground arith),
          )
    | inr case ↦
        let (same, covers) =
          cases_range-Covers width (λ dest. dest == bb) (empty_set width) cases x
            (cr.bits-empty_set width) word in
        let led : leads (λ dest. dest == bb) cases x ≡ true = rw case at taken in
        rw (switch_region, case) (same, covers (ground arith))
  ]

  module _ (taints : TaintMap) (st : RangeState cr) (bb : ℕ) (vrm : Vrm cr) where
    -- visitTerminator changes no entry that the predecessor's map has already, whatever the
    -- terminator tells of the value.
    pub visit_terminator-keeps :
        (term : Terminator) (v : ℕ) (old : Range)
        → vrm v ≡ some old
        → (visit_terminator cr taints st bb term vrm).0 v ≡ some old
    unfolding visit_terminator
    visit_terminator-keeps (Terminator.branch p lhs rhs parent on_true) v old there =
        insert_operand_old _ rhs v _ old (insert_operand_old vrm lhs v _ old there)
    visit_terminator-keeps (Terminator.switch w width parent default cases) v old there =
        insert_operand_old vrm w v _ old there
    visit_terminator-keeps Terminator.other_terminator v old there = there

    -- The range of an operand, of the state after the operands before it.
    abbrev pub left_range : Operand → (parent : ℕ) → Range
    left_range lhs parent = (get_range cr taints st parent lhs).0

    abbrev pub right_range : (lhs rhs : Operand) → (parent : ℕ) → Range
    right_range lhs rhs parent =
        (get_range cr taints ((get_range cr taints st parent lhs).1) parent rhs).0

    contains-left_region :
        (p : Predicate) (taken : Bool) (l r : Range) (x y : ℕ)
        → bits r ≡ bits l
        → IsWord (bits l) x
        → contains r y ≡ true
        → compares (bits l) p x y ≡ taken
        → (bits ((branch_regions cr p taken l r).0) ≡ bits l)
          × (contains ((branch_regions cr p taken l r).0) x ≡ true)
    unfolding branch_regions
    contains-left_region p true l r x y same word right goes = (
      cr.bits-make_icmp_region p r ∙ same,
      cr.contains-make_icmp_region p r x y (rw same word) right (rw same goes),
    )
    contains-left_region p false l r x y same word right goes =
        let inverse_p = get_inverse_predicate p in
        let inverted : compares (bits l) inverse_p x y ≡ true =
          compares-get_inverse_predicate (bits l) p x y ∙ ap not goes in
        (
          cr.bits-make_icmp_region inverse_p r ∙ same,
          cr.contains-make_icmp_region inverse_p r x y (rw same word) right (rw same inverted),
        )

    -- If a conditional branch on a comparison goes to bb, and the ranges of the operands have one
    -- width and contain them, then the range that visitTerminator gives to an operand on the left
    -- without an entry contains it.
    pub visit_terminator-branch :
        (p : Predicate) (lhs rhs : Operand) (parent on_true v x y : ℕ)
        → number lhs ≡ some v
        → vrm v ≡ none
        → bits (right_range lhs rhs parent) ≡ bits (left_range lhs parent)
        → IsWord (bits (left_range lhs parent)) x
        → contains (left_range lhs parent) x ≡ true
        → contains (right_range lhs rhs parent) y ≡ true
        → compares (bits (left_range lhs parent)) p x y ≡ (on_true == bb)
        → (r : Range) × ((visit_terminator cr taints st bb
                (Terminator.branch p lhs rhs parent on_true)
                vrm).0
              v
            ≡ some r)
          × (contains r x ≡ true)
    unfolding visit_terminator
    visit_terminator-branch p lhs rhs parent on_true v x y numbered fresh same word left right
          goes =
        let l = left_range lhs parent in
        let r = right_range lhs rhs parent in
        let (width, held) =
          contains-left_region p (on_true == bb) l (match_bits cr r l) x y
            (rw (match_bits-same cr r l same) same) word (rw (match_bits-same cr r l same) right)
            goes in
        (
          intersect_with l ((branch_regions cr p (on_true == bb) l (match_bits cr r l)).0),
          insert_operand_old _ rhs v _ _ (insert_operand_new vrm lhs v _ numbered fresh),
          cr.contains-intersect_with l _ x width left held,
        )

    -- If a switch goes to bb for a word of its width, which on the default edge is outside the
    -- joined range of the cases, and the range of the switched value has the width and contains the
    -- word, then the range that visitTerminator gives to a switched value without an entry contains
    -- the word.
    pub visit_terminator-switch :
        (operand : Operand) (width parent default : ℕ) (cases : List (ℕ × ℕ)) (v x : ℕ)
        → number operand ≡ some v
        → vrm v ≡ none
        → bits (left_range operand parent) ≡ width
        → IsWord width x
        → contains (left_range operand parent) x ≡ true
        → takes width default bb cases x ≡ true
        → (r : Range) × ((visit_terminator cr taints st bb
                (Terminator.switch operand width parent default cases)
                vrm).0
              v
            ≡ some r)
          × (contains r x ≡ true)
    unfolding visit_terminator
    visit_terminator-switch operand width parent default cases v x numbered fresh same word held
          taken =
        let r = left_range operand parent in
        let region = switch_region cr width default bb cases in
        let (fits, inside) = contains-switch_region width default bb cases x word taken in
        (
          intersect_with r region,
          insert_operand_new vrm operand v _ numbered fresh,
          cr.contains-intersect_with r region x (fits ∙ sym same) held inside,
        )
