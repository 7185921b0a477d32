-- ===== src/OverflowSimplify/Pass.antt =====
-- src/OverflowSimplify.cc: the six rewrites, and the walk over a function's instructions.
use kint_test.Base.{
  ℕ, Bool, true, false, ◌||◌, ◌/◌, if◌then◌else◌, ◌==◌, Option, none, some, List, [], ◌∷◌,
}
use kint_test.Word.{umax, smin, smax, is_negative, wadd, wsub, wsdiv}
use kint_test.Ir.{Value, const, binary, icmp, BinaryOp, Predicate, Intrinsic, width, as_constant}

-- What `canonicalize` leaves in X and C, and the flag that it returns: a constant operand, or the
-- operands in the order of their printed names.
pub data Canonical : Type 0 where
  constant : (x : Value) (c : ℕ) → Canonical
  ordered swapped : Canonical

-- What becomes of an intrinsic call; `replaced` holds Res and Cmp of `replace`.
pub data Outcome : Type 0 where
  unchanged : Outcome
  swapped_operands : Outcome
  replaced : (res cmp : Value) → Outcome

abbrev pub changes : Outcome → Bool
changes unchanged = false
changes _ = true

-- Builder->getInt
abbrev pub get_int : Value → ℕ → Value
get_int x c = const (width x) c

abbrev commuted : Canonical → Outcome
commuted swapped = swapped_operands
commuted _ = unchanged

-- `LS <= RS` for the printed operands.
module _ (operand_le : Value → Value → Bool) where
  unfoldable pub canonicalize : Value → Value → Canonical
  canonicalize l r = elim (as_constant r) [
    | some c ↦ constant l c
    | none ↦ elim (as_constant l) [
      | some c ↦ constant r c
      | none ↦ if operand_le l r then ordered else swapped
    ]
  ]

-- The rewrites, once the operands are in canonical form.
unfoldable pub sadd_by : Canonical → Outcome
sadd_by (constant x c) =
    let n = width x in
    replaced (binary BinaryOp.add x (get_int x c)) (
      if is_negative n c
      then icmp Predicate.icmp_slt x (get_int x (wsub n (smin n) c))
      else icmp Predicate.icmp_sgt x (get_int x (wsub n (smax n) c)))
sadd_by other = commuted other

unfoldable pub uadd_by : Canonical → Outcome
uadd_by (constant x c) =
    let n = width x in
    replaced (binary BinaryOp.add x (get_int x c))
      (icmp Predicate.icmp_ugt x (get_int x (wsub n (umax n) c)))
uadd_by other = commuted other

unfoldable pub smul_by : Canonical → Outcome
smul_by (constant x c) =
    let n = width x in
    let max = get_int x (wsdiv n (smax n) c) in
    let min = get_int x (wsdiv n (smin n) c) in
    replaced (binary BinaryOp.mul x (get_int x c)) (
      if c == 0
      then const 1 0
      else if is_negative n c
      then binary BinaryOp.or_ (icmp Predicate.icmp_slt x max) (icmp Predicate.icmp_sgt x min)
      else binary BinaryOp.or_ (icmp Predicate.icmp_sgt x max) (icmp Predicate.icmp_slt x min))
smul_by other = commuted other

unfoldable pub umul_by : Canonical → Outcome
umul_by (constant x c) =
    let n = width x in
    replaced (binary BinaryOp.mul x (get_int x c))
      (if c == 0 then const 1 0 else icmp Predicate.icmp_ugt x (get_int x (umax n / c)))
umul_by other = commuted other

unfoldable pub simplify_ssub : Value → Value → Outcome
simplify_ssub l r =
    let n = width l in
    let res = binary BinaryOp.sub l r in
    elim (as_constant r) [
      | some c ↦ replaced res (
          if is_negative n c
          then icmp Predicate.icmp_sgt l (get_int l (wadd n (smax n) c))
          else icmp Predicate.icmp_slt l (get_int l (wadd n (smin n) c)))
      | none ↦ elim (as_constant l) [
        | some c ↦ replaced res (
            if is_negative n c
            then icmp Predicate.icmp_sgt l (get_int l (wsub n c (smin n)))
            else icmp Predicate.icmp_slt l (get_int l (wsub n c (smax n))))
        | none ↦ unchanged
      ]
    ]

-- `isa<Constant>`, which holds of constant expressions too, and `LS <= RS` for the printed
-- operands.
module _ (is_constant : Value → Bool) where
  unfoldable pub simplify_usub : Value → Value → Outcome
  simplify_usub l r =
      replaced (binary BinaryOp.sub l r)
        (if is_constant l then icmp Predicate.icmp_ugt r l else icmp Predicate.icmp_ult l r)

module _ (is_constant : Value → Bool) (operand_le : Value → Value → Bool) where
  -- simplifySAdd and so on, by the intrinsic's id.
  unfoldable pub simplify : Intrinsic → Value → Value → Outcome
  unfolding canonicalize sadd_by uadd_by smul_by umul_by simplify_ssub simplify_usub
  simplify Intrinsic.sadd_with_overflow l r = sadd_by (canonicalize operand_le l r)
  simplify Intrinsic.uadd_with_overflow l r = uadd_by (canonicalize operand_le l r)
  simplify Intrinsic.ssub_with_overflow l r = simplify_ssub l r
  simplify Intrinsic.usub_with_overflow l r = simplify_usub is_constant l r
  simplify Intrinsic.smul_with_overflow l r = smul_by (canonicalize operand_le l r)
  simplify Intrinsic.umul_with_overflow l r = umul_by (canonicalize operand_le l r)

  -- The walk over the instructions, which are intrinsic calls or others; an intrinsic that has not
  -- two arguments, or is none of the six, is passed over.
  unfoldable pub simplify_call : Option Intrinsic → List Value → Outcome
  simplify_call (some k) (l ∷ r ∷ []) = simplify k l r
  simplify_call _ _ = unchanged

  unfoldable pub run_on_function : List (Option Intrinsic × List Value) → List Outcome × Bool
  unfolding simplify_call
  run_on_function [] = ([], false)
  run_on_function ((k, args) ∷ rest) =
      let outcome = simplify_call k args in
      let (outcomes, changed) = run_on_function rest in
      (outcome ∷ outcomes, changes outcome || changed)
