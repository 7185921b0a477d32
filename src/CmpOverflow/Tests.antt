-- ===== src/CmpOverflow/Tests.antt =====
-- src/CmpOverflow.cc: a comparison that guards 16 + x * 4 at 8 bits badly, and one that does well.
use kint_test.Base.{
  ◌+◌, ◌*◌, ◌^◌, ◌≤◌, ◌≡◌, refl, Bool, true, false, ◌==◌, some, none, [], ◌∷◌, arith,
}
use kint_test.CmpOverflow.Pass.{
  Scev, unknown, constant, add_expr, mul_expr, CmpStatus, AxBs, collect, check_mul, check, judge,
}
use kint_test.CmpOverflow.Bounds.{Reported, check_sound, judge-axb_0-overflows}

abbrev same : Scev → Scev → Bool
same (unknown i) (unknown j) = i == j
same _ _ = false

abbrev collected : AxBs
collected = (unknown 7, 16, 4) ∷ []

collect_test :
    collect []
      ((true, add_expr (constant 16) (mul_expr (constant 4) (unknown 7))) ∷ (true, unknown 2) ∷ [])
    ≡ collected
unfolding collect
collect_test = refl

-- 63 is UMAX / 4; the exact guard is (UMAX - 16) / 4 = 59.
judge_test : (judge 8 16 4 63 ≡ some CmpStatus.cmp_axb_0) × (judge 8 16 4 59 ≡ none)
unfolding judge kint_test.Word.wsub
judge_test = (refl, refl)

check_sound_example : Reported same collected 8 (constant 63) (unknown 7)
unfolding check kint_test.Word.wsub
check_sound_example =
    check_sound same collected true 8 (constant 63) (unknown 7) CmpStatus.cmp_axb_0
      (omega arith, omega arith, tt) refl

judge-axb_0-overflows_example : 2 ^ 8 ≤ 16 + 63 * 4
judge-axb_0-overflows_example =
    judge-axb_0-overflows 8 16 4 63 (omega arith) (omega arith) judge_test.0

-- x * y against x is recognised, and not reported.
product_test :
    (check_mul same (mul_expr (unknown 1) (unknown 2)) (unknown 1) ≡ some CmpStatus.cmp_xy_x)
    × (check same [] true 8 (mul_expr (unknown 1) (unknown 2)) (unknown 1) ≡ none)
unfolding check_mul check
product_test = (refl, refl)
