-- ===== src/IdealShift/Pass.antt =====
-- src/IdealShift.cc: the select that takes the place of a shift.
use kint_test.Base.{
  ◌-◌, Bool, true, false, ◌||◌, not, if◌then◌else◌, Option, none, some, List, [], ◌∷◌,
}
use kint_test.Ir.{Value, const, binary, icmp, select, BinaryOp, Predicate, width}

-- The shifts, and what they give for an oversized amount: zero, and the sign for ashr.
abbrev ideal_value : BinaryOp → Value → Option Value
ideal_value BinaryOp.shl l = some (const (width l) 0)
ideal_value BinaryOp.lshr l = some (const (width l) 0)
ideal_value BinaryOp.ashr l = some (binary BinaryOp.ashr l (const (width l) (width l - 1)))
ideal_value op l = none

-- `isa<Constant>` on the amount.
module _ (is_constant : Value → Bool) where
  -- What replaces the uses of an operation, if it is a shift of integers by a variable amount.
  unfoldable pub ideal_shift : (is_integer : Bool) → BinaryOp → Value → Value → Option Value
  ideal_shift is_integer op l r = elim (ideal_value op l) [
    | none ↦ none
    | some ideal ↦
        if not is_integer || is_constant r
        then none
        else some
            (select (icmp Predicate.icmp_uge r (const (width l) (width l))) ideal (binary op l r))
  ]

  -- The operations of a function, each with its value afterwards, and whether any was replaced.
  unfoldable pub run_on_function : List (Bool × BinaryOp × Value × Value) → List Value × Bool
  unfolding ideal_shift
  run_on_function [] = ([], false)
  run_on_function ((is_integer, op, l, r) ∷ rest) =
      let (values, changed) = run_on_function rest in
      elim (ideal_shift is_integer op l r) [
        | some v ↦ (v ∷ values, true)
        | none ↦ (binary op l r ∷ values, changed)
      ]
