-- ===== src/OverflowIdiom/Tests.antt =====
-- src/OverflowIdiom.cc: runs of the pass, and its theorems at concrete comparisons.
use kint_test.Base.{◌*◌, ◌≡◌, refl, Bool, true, false, ◌&&◌, ◌==◌, some, [], ◌∷◌, arith}
use kint_test.Ir.{
  Value, const, var, binary, icmp, overflow, BinaryOp, Predicate, Intrinsic, Env, eval,
}
use kint_test.OverflowIdiom.Pass.{
  replaced, failed, match_cmp_with_swapped_and_inverse, run_on_function,
}
use kint_test.OverflowIdiom.Correct.{match_cmp-eval, mask_idiom-wrong}

-- The variables of these tests are one object if they have one number.
abbrev same : Value → Value → Bool
same (var w x) (var v y) = w == v && x == y
same _ _ = false

same_sound : (a b : Value) → same a b ≡ true → a ≡ b
same_sound (var w x) (var v y) h = ground arith
same_sound (var w x) _ h = cc
same_sound _ b h = cc

abbrev env : Env
env = record { values = λ x. 7 * x; undefined = λ op a b. 0 }

-- (x * y) / y == x: no overflow.
abbrev product_check : Value
product_check = binary BinaryOp.udiv (binary BinaryOp.mul (var 8 1) (var 8 9)) (var 8 9)

inverse_test :
    run_on_function same ((true, Predicate.icmp_eq, product_check, var 8 1) ∷ [])
    ≡ some (
      binary BinaryOp.xor_ (overflow Intrinsic.umul_with_overflow (var 8 1) (var 8 9)) (const 1 1)
          ∷ [],
      true,
    )
unfolding run_on_function
inverse_test = refl

-- x >u 0 /u y
zero_test :
    match_cmp_with_swapped_and_inverse same Predicate.icmp_ugt
      (var 8 1)
      (binary BinaryOp.udiv (const 8 0) (var 8 9))
    ≡ failed
unfolding match_cmp_with_swapped_and_inverse
zero_test = refl

match_cmp-eval_example :
    eval env
      (binary BinaryOp.xor_ (overflow Intrinsic.umul_with_overflow (var 8 1) (var 8 9)) (const 1 1))
    ≡ eval env (icmp Predicate.icmp_eq product_check (var 8 1))
unfolding match_cmp_with_swapped_and_inverse eval
match_cmp-eval_example =
    match_cmp-eval same same_sound env Predicate.icmp_eq product_check (var 8 1)
      (binary BinaryOp.xor_ (overflow Intrinsic.umul_with_overflow (var 8 1) (var 8 9)) (const 1 1))
      refl (omega arith) tt (omega arith)

-- 0 > 15 / 16 at 8 bits.
mask_idiom-wrong_example :
    (v : Value) × (match_cmp_with_swapped_and_inverse same Predicate.icmp_ugt
        (var 8 0)
        (binary BinaryOp.udiv (const 8 15) (const 8 16))
      ≡ replaced v)
    × (eval env v ≡ 1)
    × (eval env (icmp Predicate.icmp_ugt (var 8 0) (binary BinaryOp.udiv (const 8 15) (const 8 16)))
        ≡ 0)
unfolding eval match_cmp_with_swapped_and_inverse
mask_idiom-wrong_example =
    mask_idiom-wrong same env (var 8 0) (const 8 16) 15 (omega arith) (omega arith) refl refl
      (omega arith)
