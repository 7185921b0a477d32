-- ===== src/OverflowSimplify/Tests.antt =====
-- src/OverflowSimplify.cc: runs of the pass, and its theorems at concrete calls.
use kint_test.Base.{◌-◌, ◌≡◌, refl, Bool, true, false, ltb, bit, ◌==◌, some, none, [], ◌∷◌, arith}
use kint_test.Word.{smin, wsub, wsdiv, wneg}
use kint_test.Ir.{Value, const, var, binary, icmp, BinaryOp, Predicate, Intrinsic, Env, eval}
use kint_test.OverflowSimplify.Pass.{
  replaced, unchanged, swapped_operands, simplify, run_on_function,
}
use kint_test.OverflowSimplify.Constants.{returns, returns_after}
use kint_test.OverflowSimplify.Correct.{
  simplify-returns, ssub_left-misses, smul_minus_one-overreports,
}

-- Variables are printed %0, %1, and so on.
abbrev by_slot : Value → Value → Bool
by_slot (var w x) (var v y) = ltb x y
by_slot _ _ = true

abbrev no_constant : Value → Bool
no_constant v = false

abbrev env : Env
env = record { values = λ x. 128 - x; undefined = λ op a b. 0 }

-- sadd(x, 100) at 8 bits: x >s 27.
sadd_test :
    simplify no_constant by_slot Intrinsic.sadd_with_overflow (const 8 100) (var 8 0)
    ≡ replaced
        (binary BinaryOp.add (var 8 0) (const 8 100))
        (icmp Predicate.icmp_sgt (var 8 0) (const 8 27))
unfolding simplify wsub
sadd_test = refl

-- smul(x, -2) at 8 bits: x <s -63 || x >s 64.
smul_test :
    simplify no_constant by_slot Intrinsic.smul_with_overflow (var 8 0) (const 8 254)
    ≡ replaced (binary BinaryOp.mul (var 8 0) (const 8 254)) (
        binary BinaryOp.or_
          (icmp Predicate.icmp_slt (var 8 0) (const 8 193))
          (icmp Predicate.icmp_sgt (var 8 0) (const 8 64)))
unfolding simplify wsdiv wneg
smul_test = refl

walk_test :
    run_on_function no_constant by_slot
      ((some Intrinsic.uadd_with_overflow, var 8 1 ∷ var 8 0 ∷ []) ∷ (none, var 8 0 ∷ []) ∷ [])
    ≡ (swapped_operands ∷ unchanged ∷ [], true)
unfolding run_on_function simplify
walk_test = refl

simplify-returns_example :
    returns_after env Intrinsic.smul_with_overflow
      (var 8 0)
      (const 8 254)
      (simplify no_constant by_slot Intrinsic.smul_with_overflow (var 8 0) (const 8 254))
    ≡ returns env Intrinsic.smul_with_overflow (var 8 0) (const 8 254)
simplify-returns_example =
    simplify-returns no_constant by_slot env Intrinsic.smul_with_overflow (var 8 0) (const 8 254)
      refl (omega arith) ((λ e. cc), (λ e. ground arith))

ssub_left-misses_example :
    ((returns env Intrinsic.ssub_with_overflow (const 8 1) (var 8 0)).1 ≡ 1)
    × ((any : Env)
        → (returns_after any Intrinsic.ssub_with_overflow
            (const 8 1)
            (var 8 0)
            (simplify no_constant by_slot Intrinsic.ssub_with_overflow (const 8 1) (var 8 0))).1
          ≡ 0)
unfolding eval
ssub_left-misses_example =
    ssub_left-misses no_constant by_slot env (const 8 1) (var 8 0) 1 refl (omega arith) refl refl
      (omega arith) refl

smul_minus_one-overreports_example :
    ((returns_after env Intrinsic.smul_with_overflow
        (var 8 3)
        (const 8 255)
        (simplify no_constant by_slot Intrinsic.smul_with_overflow (var 8 3) (const 8 255))).1
      ≡ 1)
    × ((returns env Intrinsic.smul_with_overflow (var 8 3) (const 8 255)).1
        ≡ bit (eval env (var 8 3) == smin 8))
smul_minus_one-overreports_example =
    smul_minus_one-overreports no_constant by_slot env (var 8 3) (const 8 255) refl (omega arith)
      refl
