-- ===== src/OverflowIdiom/Pass.antt =====
-- src/OverflowIdiom.cc: the patterns, and the predicates under which they are tried.
use kint_test.Base.{
  ℕ, zero, suc, ◌+◌, ◌*◌, ◌/◌, ◌%◌, ◌^◌, Bool, true, false, ◌&&◌, ◌||◌, ◌==◌, if◌then◌else◌, Option,
  none, some, List, [], ◌∷◌,
}
use mathlib.Core.Option
use kint_test.Word.{umax}
use kint_test.Ir.{
  Value, const, binary, icmp, cast, overflow, BinaryOp, CastOp, Predicate, Intrinsic, width,
  as_constant,
}

-- CmpInst::getSwappedPredicate
unfoldable pub get_swapped_predicate : Predicate → Predicate
get_swapped_predicate Predicate.icmp_eq = Predicate.icmp_eq
get_swapped_predicate Predicate.icmp_ne = Predicate.icmp_ne
get_swapped_predicate Predicate.icmp_ugt = Predicate.icmp_ult
get_swapped_predicate Predicate.icmp_uge = Predicate.icmp_ule
get_swapped_predicate Predicate.icmp_ult = Predicate.icmp_ugt
get_swapped_predicate Predicate.icmp_ule = Predicate.icmp_uge
get_swapped_predicate Predicate.icmp_sgt = Predicate.icmp_slt
get_swapped_predicate Predicate.icmp_sge = Predicate.icmp_sle
get_swapped_predicate Predicate.icmp_slt = Predicate.icmp_sgt
get_swapped_predicate Predicate.icmp_sle = Predicate.icmp_sge

-- CmpInst::getInversePredicate
unfoldable pub get_inverse_predicate : Predicate → Predicate
get_inverse_predicate Predicate.icmp_eq = Predicate.icmp_ne
get_inverse_predicate Predicate.icmp_ne = Predicate.icmp_eq
get_inverse_predicate Predicate.icmp_ugt = Predicate.icmp_ule
get_inverse_predicate Predicate.icmp_uge = Predicate.icmp_ult
get_inverse_predicate Predicate.icmp_ult = Predicate.icmp_uge
get_inverse_predicate Predicate.icmp_ule = Predicate.icmp_ugt
get_inverse_predicate Predicate.icmp_sgt = Predicate.icmp_sle
get_inverse_predicate Predicate.icmp_sge = Predicate.icmp_slt
get_inverse_predicate Predicate.icmp_slt = Predicate.icmp_sge
get_inverse_predicate Predicate.icmp_sle = Predicate.icmp_sgt

-- APInt::countTrailingOnes, for at most n bits.
unfoldable pub count_trailing_ones : ℕ → ℕ → ℕ
count_trailing_ones zero v = 0
count_trailing_ones (suc n) v = elim (v % 2 == 1) [
  | true ↦ suc (count_trailing_ones n (v / 2))
  | false ↦ 0
]

-- Whether one of 2 ^ 0, …, 2 ^ (n - 1) is v: APInt::isPowerOf2 at n bits.
unfoldable pub is_power_of_2 : ℕ → ℕ → Bool
is_power_of_2 zero v = false
is_power_of_2 (suc n) v = v == 2 ^ n || is_power_of_2 n v

-- createOverflowBit
abbrev pub create_overflow_bit : Intrinsic → Value → Value → Value
create_overflow_bit k l r = overflow k l r

-- What a match gives: NULL, what takes the comparison's place, or a failed assertion of LLVM.
pub data Match : Type 0 where
  unmatched failed : Match
  replaced : Value → Match

-- The second pattern, x >u C /u y, at the constant C. For C = 0, where C + 1 is a power of two, the
-- type to truncate to would have no bits, and IntegerType::get asserts that it has some.
unfoldable pub match_quotient : Value → Value → ℕ → Match
unfolding count_trailing_ones is_power_of_2
match_quotient x y c =
    let n = width x in
    let k = count_trailing_ones n c in
    if c == umax n
    then replaced (create_overflow_bit Intrinsic.umul_with_overflow x y)
    else if is_power_of_2 n (c + 1)
    then if k == 0
      then failed
      else replaced (
          binary BinaryOp.or_
            (binary BinaryOp.or_ (icmp Predicate.icmp_ugt x (const n c))
              (icmp Predicate.icmp_ugt y (const n c)))
            (create_overflow_bit Intrinsic.umul_with_overflow (cast CastOp.trunc k x)
              (cast CastOp.trunc k y)))
    else replaced (
        icmp Predicate.icmp_ugt
          (binary BinaryOp.mul (cast CastOp.zext (n * 2) x) (cast CastOp.zext (n * 2) y))
          (cast CastOp.zext (n * 2) (const n c)))

-- Whether two operands are one object, as `==` on `Value *` says.
module _ (same : Value → Value → Bool) where
  unfoldable pub match_cmp : Predicate → Value → Value → Match
  unfolding match_quotient
  match_cmp Predicate.icmp_ne x (binary BinaryOp.udiv (binary BinaryOp.mul a b) y) =
      if (same a x && same b y) || (same a y && same b x)
      then replaced (create_overflow_bit Intrinsic.umul_with_overflow x y)
      else unmatched
  match_cmp Predicate.icmp_ugt x (binary BinaryOp.udiv d y) = elim (as_constant d) [
    | some c ↦ match_quotient x y c
    | none ↦ unmatched
  ]
  match_cmp pred l r = unmatched

  unfoldable pub match_cmp_with_inverse : Predicate → Value → Value → Match
  unfolding match_cmp get_inverse_predicate
  match_cmp_with_inverse pred l r = elim (match_cmp pred l r) [
    | replaced v ↦ replaced v
    | failed ↦ failed
    | unmatched ↦ elim (match_cmp (get_inverse_predicate pred) l r) [
      | replaced v ↦ replaced (binary BinaryOp.xor_ v (const 1 1))
      | failed ↦ failed
      | unmatched ↦ unmatched
    ]
  ]

  unfoldable pub match_cmp_with_swapped_and_inverse : Predicate → Value → Value → Match
  unfolding match_cmp_with_inverse get_swapped_predicate
  match_cmp_with_swapped_and_inverse pred l r = elim (match_cmp_with_inverse pred l r) [
    | replaced v ↦ replaced v
    | failed ↦ failed
    | unmatched ↦ match_cmp_with_inverse (get_swapped_predicate pred) r l
  ]

  -- The comparisons of a function, each with its value afterwards, and whether any was replaced.
  -- Only comparisons of integers are looked at. `none` is a failed assertion.
  unfoldable pub run_on_function :
      List (Bool × Predicate × Value × Value) → Option (List Value × Bool)
  unfolding match_cmp_with_swapped_and_inverse
  run_on_function [] = some ([], false)
  run_on_function ((is_integer, pred, l, r) ∷ rest) =
      let others = run_on_function rest in
      let kept = Option.map (λ (values, changed). (icmp pred l r ∷ values, changed)) others in
      if is_integer
      then elim (match_cmp_with_swapped_and_inverse pred l r) [
        | replaced v ↦ Option.map (λ (values, changed). (v ∷ values, true)) others
        | failed ↦ none
        | unmatched ↦ kept
      ]
      else kept
