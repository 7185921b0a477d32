-- ===== src/ValueGen/Widths.antt =====
-- src/ValueGen.cc: an expression has the width of what it stands for.
use kint_test.Base.{ℕ, ◌-◌, ◌≤◌, ◌<◌, ◌≡◌, ◌≢◌, arith}
use kint_test.Ir.{
  Value, const, var, binary, icmp, cast, select, result, overflow, width, BinaryOp, Predicate,
  CastOp, Intrinsic, Env, eval, WellTyped,
}
use kint_test.Solver.{WordSolver, PowerOf2}
use kint_test.ValueGen.Translate.{
  visit_binary_operator, visit_icmp_inst, visit_cast, visit_result, visit_overflow, analyze,
}

-- Where the result of an operation with the right operand b at n bits is defined by the language
-- reference and given by the solver: no division by 0, no shift by n or more, no shift at one bit,
-- and an arithmetic shift to the right only where n is a power of two.
abbrev pub OperandOk : BinaryOp → (width b : ℕ) → Type 0
OperandOk BinaryOp.udiv n b = b ≢ 0
OperandOk BinaryOp.sdiv n b = b ≢ 0
OperandOk BinaryOp.urem n b = b ≢ 0
OperandOk BinaryOp.srem n b = b ≢ 0
OperandOk BinaryOp.shl n b = (1 < n) × (b < n)
OperandOk BinaryOp.lshr n b = (1 < n) × (b < n)
OperandOk BinaryOp.ashr n b = PowerOf2 n × (b < n)
OperandOk _ n b = Unit

-- An extension does not narrow.
abbrev pub Extends : CastOp → (to from : ℕ) → Type 0
Extends CastOp.trunc to from = Unit
Extends CastOp.zext to from = from ≤ to
Extends CastOp.sext to from = from ≤ to

abbrev pub Defined : Env → Value → Type 0
Defined env (const w c) = Unit
Defined env (var w x) = Unit
Defined env (binary op l r) = Defined env l × Defined env r × OperandOk op (width l) (eval env r)
Defined env (icmp p l r) = Defined env l × Defined env r
Defined env (cast op w v) = Defined env v × Extends op w (width v)
Defined env (select c t f) = Defined env c × Defined env t × Defined env f
Defined env (result k l r) = Defined env l × Defined env r
Defined env (overflow k l r) = Defined env l × Defined env r

module _ (s : WordSolver) where
  open s use {Expr, bvwidth, value}

  bvwidth-visit_binary_operator :
      (op : BinaryOp) (a b : Expr) → bvwidth (visit_binary_operator s op a b) ≡ bvwidth a
  unfolding visit_binary_operator
  bvwidth-visit_binary_operator BinaryOp.add a b = s.bvwidth-bvadd a b
  bvwidth-visit_binary_operator BinaryOp.sub a b = s.bvwidth-bvsub a b
  bvwidth-visit_binary_operator BinaryOp.mul a b = s.bvwidth-bvmul a b
  bvwidth-visit_binary_operator BinaryOp.udiv a b = s.bvwidth-bvudiv a b
  bvwidth-visit_binary_operator BinaryOp.sdiv a b = s.bvwidth-bvsdiv a b
  bvwidth-visit_binary_operator BinaryOp.urem a b = s.bvwidth-bvurem a b
  bvwidth-visit_binary_operator BinaryOp.srem a b = s.bvwidth-bvsrem a b
  bvwidth-visit_binary_operator BinaryOp.shl a b = s.bvwidth-bvshl a b
  bvwidth-visit_binary_operator BinaryOp.lshr a b = s.bvwidth-bvlshr a b
  bvwidth-visit_binary_operator BinaryOp.ashr a b = s.bvwidth-bvashr a b
  bvwidth-visit_binary_operator BinaryOp.and_ a b = s.bvwidth-bvand a b
  bvwidth-visit_binary_operator BinaryOp.or_ a b = s.bvwidth-bvor a b
  bvwidth-visit_binary_operator BinaryOp.xor_ a b = s.bvwidth-bvxor a b

  bvwidth-visit_icmp_inst : (p : Predicate) (a b : Expr) → bvwidth (visit_icmp_inst s p a b) ≡ 1
  unfolding visit_icmp_inst
  bvwidth-visit_icmp_inst Predicate.icmp_eq a b = s.bvwidth-eq a b
  bvwidth-visit_icmp_inst Predicate.icmp_ne a b = s.bvwidth-ne a b
  bvwidth-visit_icmp_inst Predicate.icmp_ugt a b = s.bvwidth-bvugt a b
  bvwidth-visit_icmp_inst Predicate.icmp_uge a b = s.bvwidth-bvuge a b
  bvwidth-visit_icmp_inst Predicate.icmp_ult a b = s.bvwidth-bvult a b
  bvwidth-visit_icmp_inst Predicate.icmp_ule a b = s.bvwidth-bvule a b
  bvwidth-visit_icmp_inst Predicate.icmp_sgt a b = s.bvwidth-bvsgt a b
  bvwidth-visit_icmp_inst Predicate.icmp_sge a b = s.bvwidth-bvsge a b
  bvwidth-visit_icmp_inst Predicate.icmp_slt a b = s.bvwidth-bvslt a b
  bvwidth-visit_icmp_inst Predicate.icmp_sle a b = s.bvwidth-bvsle a b

  bvwidth-visit_result : (k : Intrinsic) (a b : Expr) → bvwidth (visit_result s k a b) ≡ bvwidth a
  unfolding visit_result
  bvwidth-visit_result Intrinsic.sadd_with_overflow a b = s.bvwidth-bvadd a b
  bvwidth-visit_result Intrinsic.uadd_with_overflow a b = s.bvwidth-bvadd a b
  bvwidth-visit_result Intrinsic.ssub_with_overflow a b = s.bvwidth-bvsub a b
  bvwidth-visit_result Intrinsic.usub_with_overflow a b = s.bvwidth-bvsub a b
  bvwidth-visit_result Intrinsic.smul_with_overflow a b = s.bvwidth-bvmul a b
  bvwidth-visit_result Intrinsic.umul_with_overflow a b = s.bvwidth-bvmul a b

  bvwidth-visit_overflow : (k : Intrinsic) (a b : Expr) → bvwidth (visit_overflow s k a b) ≡ 1
  unfolding visit_overflow
  bvwidth-visit_overflow Intrinsic.sadd_with_overflow a b = s.bvwidth-bvsadd_overflow a b
  bvwidth-visit_overflow Intrinsic.uadd_with_overflow a b = s.bvwidth-bvuadd_overflow a b
  bvwidth-visit_overflow Intrinsic.ssub_with_overflow a b = s.bvwidth-bvssub_overflow a b
  bvwidth-visit_overflow Intrinsic.usub_with_overflow a b = s.bvwidth-bvusub_overflow a b
  bvwidth-visit_overflow Intrinsic.smul_with_overflow a b = s.bvwidth-bvsmul_overflow a b
  bvwidth-visit_overflow Intrinsic.umul_with_overflow a b = s.bvwidth-bvumul_overflow a b

  bvwidth-visit_cast :
      (op : CastOp) (w n : ℕ) (a : Expr)
      → bvwidth a ≡ n
      → 0 < w
      → Extends op w n
      → bvwidth (visit_cast s op w n a) ≡ w
  unfolding visit_cast
  bvwidth-visit_cast CastOp.trunc w n a same some_bits ok =
      let law = s.bvwidth-extract (w - 1) 0 a in omega arith
  bvwidth-visit_cast CastOp.zext w n a same some_bits ok =
      let law = s.bvwidth-zero_extend (w - n) a in omega arith
  bvwidth-visit_cast CastOp.sext w n a same some_bits ok =
      let law = s.bvwidth-sign_extend (w - n) a in omega arith

  pub bvwidth-analyze :
      (env : Env) (v : Value) → WellTyped v → Defined env v → bvwidth (analyze s v) ≡ width v
  unfolding analyze
  bvwidth-analyze env (const w c) typed ok = s.bvwidth-bvconst w c
  bvwidth-analyze env (var w x) typed ok = s.bvwidth-bvvar w x
  bvwidth-analyze env (binary op l r) typed ok =
      rw (bvwidth-visit_binary_operator, bvwidth-analyze env l typed.0 ok.0)
  bvwidth-analyze env (icmp p l r) typed ok = bvwidth-visit_icmp_inst p _ _
  bvwidth-analyze env (cast op w v) typed ok =
      bvwidth-visit_cast op w (width v) _ (bvwidth-analyze env v typed.0 ok.0) typed.1 ok.1
  bvwidth-analyze env (select c t f) typed ok =
      rw (s.bvwidth-ite, bvwidth-analyze env t typed.1 ok.1)
  bvwidth-analyze env (result k l r) typed ok =
      rw (bvwidth-visit_result, bvwidth-analyze env l typed.0 ok.0)
  bvwidth-analyze env (overflow k l r) typed ok = bvwidth-visit_overflow k _ _
