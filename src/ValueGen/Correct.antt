-- ===== src/ValueGen/Correct.antt =====
-- src/ValueGen.cc: an expression has the value of what it stands for.
use kint_test.Base.{ℕ, ◌-◌, ◌/◌, ◌+◌, ◌<◌, ◌%◌, ◌^◌, ◌≡◌, bit, arith}
use native.Mathlib.Nat.{div-one}
use kint_test.Word.{wadd-mod, wsub-mod, wmul-mod}
use kint_test.Ir.{
  Value, const, var, binary, icmp, cast, select, result, overflow, width, BinaryOp, Predicate,
  CastOp, Intrinsic, Env, eval, WellTyped, calculate, compares, converts, operation, overflows,
}
use kint_test.Solver.{WordSolver}
use kint_test.ValueGen.Translate.{
  visit_binary_operator, visit_icmp_inst, visit_cast, visit_result, visit_overflow, analyze,
}
use kint_test.ValueGen.Widths.{OperandOk, Extends, Defined, bvwidth-analyze}

module _ (s : WordSolver) (m : s.Model) where
  open s use {Expr, bvwidth, value}

  value-visit_binary_operator :
      (env : Env) (op : BinaryOp) (a b : Expr)
      → OperandOk op (bvwidth a) (value m b)
      → value m (visit_binary_operator s op a b)
        ≡ calculate env (bvwidth a) op (value m a) (value m b) % 2 ^ bvwidth a
  unfolding visit_binary_operator
  value-visit_binary_operator env BinaryOp.add a b ok = rw (s.value-bvadd, wadd-mod)
  value-visit_binary_operator env BinaryOp.sub a b ok = rw (s.value-bvsub, wsub-mod)
  value-visit_binary_operator env BinaryOp.mul a b ok = rw (s.value-bvmul, wmul-mod)
  value-visit_binary_operator env BinaryOp.udiv a b ok =
      let law = s.value-bvudiv m a b ok in ground arith
  value-visit_binary_operator env BinaryOp.sdiv a b ok =
      let law = s.value-bvsdiv m a b ok in ground arith
  value-visit_binary_operator env BinaryOp.urem a b ok =
      let law = s.value-bvurem m a b ok in ground arith
  value-visit_binary_operator env BinaryOp.srem a b ok =
      let law = s.value-bvsrem m a b ok in ground arith
  value-visit_binary_operator env BinaryOp.shl a b ok =
      let law = s.value-bvshl m a b (ok.0) (ok.1) in ground arith
  value-visit_binary_operator env BinaryOp.lshr a b ok =
      let law = s.value-bvlshr m a b (ok.0) (ok.1) in ground arith
  value-visit_binary_operator env BinaryOp.ashr a b ok =
      let law = s.value-bvashr m a b (ok.0) (ok.1) in ground arith
  value-visit_binary_operator env BinaryOp.and_ a b ok = s.value-bvand m a b
  value-visit_binary_operator env BinaryOp.or_ a b ok = s.value-bvor m a b
  value-visit_binary_operator env BinaryOp.xor_ a b ok = s.value-bvxor m a b

  value-visit_icmp_inst :
      (p : Predicate) (a b : Expr)
      → value m (visit_icmp_inst s p a b) ≡ bit (compares (bvwidth a) p (value m a) (value m b))
  unfolding visit_icmp_inst
  value-visit_icmp_inst Predicate.icmp_eq a b = s.value-eq m a b
  value-visit_icmp_inst Predicate.icmp_ne a b = s.value-ne m a b
  value-visit_icmp_inst Predicate.icmp_ugt a b = s.value-bvugt m a b
  value-visit_icmp_inst Predicate.icmp_uge a b = s.value-bvuge m a b
  value-visit_icmp_inst Predicate.icmp_ult a b = s.value-bvult m a b
  value-visit_icmp_inst Predicate.icmp_ule a b = s.value-bvule m a b
  value-visit_icmp_inst Predicate.icmp_sgt a b = s.value-bvsgt m a b
  value-visit_icmp_inst Predicate.icmp_sge a b = s.value-bvsge m a b
  value-visit_icmp_inst Predicate.icmp_slt a b = s.value-bvslt m a b
  value-visit_icmp_inst Predicate.icmp_sle a b = s.value-bvsle m a b

  value-visit_result :
      (env : Env) (k : Intrinsic) (a b : Expr)
      → value m (visit_result s k a b)
        ≡ calculate env (bvwidth a) (operation k) (value m a) (value m b) % 2 ^ bvwidth a
  unfolding visit_result
  value-visit_result env Intrinsic.sadd_with_overflow a b = rw (s.value-bvadd, wadd-mod)
  value-visit_result env Intrinsic.uadd_with_overflow a b = rw (s.value-bvadd, wadd-mod)
  value-visit_result env Intrinsic.ssub_with_overflow a b = rw (s.value-bvsub, wsub-mod)
  value-visit_result env Intrinsic.usub_with_overflow a b = rw (s.value-bvsub, wsub-mod)
  value-visit_result env Intrinsic.smul_with_overflow a b = rw (s.value-bvmul, wmul-mod)
  value-visit_result env Intrinsic.umul_with_overflow a b = rw (s.value-bvmul, wmul-mod)

  value-visit_overflow :
      (k : Intrinsic) (a b : Expr)
      → value m (visit_overflow s k a b) ≡ bit (overflows (bvwidth a) k (value m a) (value m b))
  unfolding visit_overflow
  value-visit_overflow Intrinsic.sadd_with_overflow a b = s.value-bvsadd_overflow m a b
  value-visit_overflow Intrinsic.uadd_with_overflow a b = s.value-bvuadd_overflow m a b
  value-visit_overflow Intrinsic.ssub_with_overflow a b = s.value-bvssub_overflow m a b
  value-visit_overflow Intrinsic.usub_with_overflow a b = s.value-bvusub_overflow m a b
  value-visit_overflow Intrinsic.smul_with_overflow a b = s.value-bvsmul_overflow m a b
  value-visit_overflow Intrinsic.umul_with_overflow a b = s.value-bvumul_overflow m a b

  value-visit_cast :
      (op : CastOp) (w n : ℕ) (a : Expr)
      → bvwidth a ≡ n
      → 0 < w
      → Extends op w n
      → value m (visit_cast s op w n a) ≡ converts n w op (value m a) % 2 ^ w
  unfolding visit_cast
  value-visit_cast CastOp.trunc w n a same some_bits ok =
      let size : w - 1 - 0 + 1 ≡ w = omega arith in
      let whole : value m a / 1 ≡ value m a = div-one (value m a) in
      rw (s.value-extract, size, whole)
  value-visit_cast CastOp.zext w n a same some_bits ok =
      let size : n + (w - n) ≡ w = omega arith in rw (s.value-zero_extend, same, size)
  value-visit_cast CastOp.sext w n a same some_bits ok =
      let size : n + (w - n) ≡ w = omega arith in rw (s.value-sign_extend, same, size)

  -- In every model that gives the variables their values, the expression of a well typed value has
  -- the value that the IR gives, if every division in it is by another number than 0, every shift
  -- by less than the width at more than one bit, every arithmetic shift to the right at a width
  -- that is a power of two, and no extension narrows.
  pub value-analyze :
      (env : Env)
      → ((w x : ℕ) → value m (s.bvvar w x) ≡ env.values x % 2 ^ w)
      → (v : Value) → WellTyped v
      → Defined env v
      → value m (analyze s v) ≡ eval env v
  unfolding analyze eval
  value-analyze env vars (const w c) typed ok = s.value-bvconst m w c
  value-analyze env vars (var w x) typed ok = vars w x
  value-analyze env vars (binary op l r) typed ok =
      let size = bvwidth-analyze s env l typed.0 ok.0 in
      let left = value-analyze env vars l typed.0 ok.0 in
      let right = value-analyze env vars r typed.1 ok.1 in
      rw (
        value-visit_binary_operator env op (analyze s l) (analyze s r) (rw (size, right) ok.2),
        size,
        left,
        right,
      )
  value-analyze env vars (icmp p l r) typed ok =
      let size = bvwidth-analyze s env l typed.0 ok.0 in
      let left = value-analyze env vars l typed.0 ok.0 in
      let right = value-analyze env vars r typed.1 ok.1 in
      rw (value-visit_icmp_inst, size, left, right)
  value-analyze env vars (cast op w v) typed ok =
      let size = bvwidth-analyze s env v typed.0 ok.0 in
      let operand = value-analyze env vars v typed.0 ok.0 in
      rw (value-visit_cast op w (width v) (analyze s v) size typed.1 ok.1, operand)
  value-analyze env vars (select c t f) typed ok =
      let size = bvwidth-analyze s env t typed.1 ok.1 in
      let condition = value-analyze env vars c typed.0 ok.0 in
      let on_true = value-analyze env vars t typed.1 ok.1 in
      let on_false = value-analyze env vars f typed.2 ok.2 in
      rw (s.value-ite, size, condition, on_true, on_false)
  value-analyze env vars (result k l r) typed ok =
      let size = bvwidth-analyze s env l typed.0 ok.0 in
      let left = value-analyze env vars l typed.0 ok.0 in
      let right = value-analyze env vars r typed.1 ok.1 in
      rw (value-visit_result env, size, left, right)
  value-analyze env vars (overflow k l r) typed ok =
      let size = bvwidth-analyze s env l typed.0 ok.0 in
      let left = value-analyze env vars l typed.0 ok.0 in
      let right = value-analyze env vars r typed.1 ok.1 in
      rw (value-visit_overflow, size, left, right)
