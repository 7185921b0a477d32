-- ===== src/Range/Refine.antt =====
-- src/Range.cc: what a terminator tells of the values in a successor. The entries of constants,
-- which are never read, are left out.
use kint_test.Base.{ℕ, Bool, true, false, ◌==◌, if◌then◌else◌, Option, none, some, List, [], ◌∷◌}
use kint_test.Ir.{Predicate}
use kint_test.OverflowIdiom.{get_swapped_predicate, get_inverse_predicate}
use kint_test.Global.TaintMap.{TaintMap}
use kint_test.Range.Algebra.{ConstantRange}
use kint_test.Range.State.{Operand, RangeState, match_bits, safe_union, get_range}

-- A conditional branch on a comparison of integers, with the block of the comparison and the
-- successor on true; a switch on an integer, with its block; others.
pub data Terminator : Type 0 where
  branch : Predicate → (lhs rhs : Operand) → (parent on_true : ℕ) → Terminator
  switch : (condition : Operand) → (width parent default : ℕ) → List (ℕ × ℕ) → Terminator
  other_terminator : Terminator

module _ (cr : ConstantRange) where
  open cr use {Range, empty_set, single, intersect_with, inverse, make_icmp_region}

  abbrev pub Vrm : Type 0
  Vrm = ℕ → Option Range

  -- std::map's insert, which leaves an entry that is there
  abbrev pub insert : Vrm → ℕ → Range → Vrm
  insert vrm v r u = elim (vrm u) [ some old ↦ some old | none ↦ if u == v then some r else none ]

  unfoldable pub insert_operand : Vrm → Operand → Range → Vrm
  insert_operand vrm (Operand.const_int width value) r = vrm
  insert_operand vrm (Operand.call_value v width callees) r = insert vrm v r
  insert_operand vrm (Operand.other_value v width id) r = insert vrm v r

  -- The ranges that visitBranchInst intersects with LCR, for the operands on the left and the
  -- right.
  unfoldable pub branch_regions : Predicate → (taken_on_true : Bool) → Range → Range → Range × Range
  unfolding get_swapped_predicate get_inverse_predicate
  branch_regions p true l r = (make_icmp_region p r, make_icmp_region (get_swapped_predicate p) l)
  branch_regions p false l r = (
    make_icmp_region (get_inverse_predicate p) r,
    make_icmp_region (get_inverse_predicate (get_swapped_predicate p)) r,
  )

  -- The union of the constants of the cases that `wanted` accepts.
  unfoldable pub cases_range : (width : ℕ) → (ℕ → Bool) → Range → List (ℕ × ℕ) → Range
  unfolding safe_union
  cases_range width wanted r [] = r
  cases_range width wanted r ((c, dest) ∷ cases) =
      cases_range width wanted (if wanted dest then (safe_union cr r (single width c)).0 else r)
        cases

  unfoldable pub switch_region : (width default bb : ℕ) → List (ℕ × ℕ) → Range
  unfolding cases_range
  switch_region width default bb cases =
      if default == bb
      then inverse (cases_range width (λ dest. true) (empty_set width) cases)
      else cases_range width (λ dest. dest == bb) (empty_set width) cases

  module _ (taints : TaintMap) where
    -- visitTerminator, for the successor bb
    unfoldable pub visit_terminator : RangeState cr → ℕ → Terminator → Vrm → Vrm × RangeState cr
    unfolding branch_regions switch_region insert_operand match_bits
    visit_terminator st bb (Terminator.branch p lhs rhs parent on_true) vrm =
        let (l, st₁) = get_range cr taints st parent lhs in
        let (r, st₂) = get_range cr taints st₁ parent rhs in
        let (left, right) = branch_regions p (on_true == bb) l (match_bits cr r l) in
        (
          insert_operand (insert_operand vrm lhs (intersect_with l left)) rhs
              (intersect_with l right),
          st₂,
        )
    visit_terminator st bb (Terminator.switch v width parent default cases) vrm =
        let (r, st₁) = get_range cr taints st parent v in
        (insert_operand vrm v (intersect_with r (switch_region width default bb cases)), st₁)
    visit_terminator st bb Terminator.other_terminator vrm = (vrm, st)
