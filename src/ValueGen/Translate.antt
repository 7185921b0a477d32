-- ===== src/ValueGen/Translate.antt =====
-- src/ValueGen.cc: ValueVisitor, for integer values. A value that the visitor does not look into is
-- a fresh variable. The cache of expressions is not modelled.
use kint_test.Base.{ℕ, ◌-◌}
use kint_test.Ir.{
  Value, const, var, binary, icmp, cast, select, result, overflow, width, BinaryOp, Predicate,
  CastOp, Intrinsic,
}
use kint_test.Solver.{WordSolver}

module _ (s : WordSolver) where
  open s use {
    Expr, bvconst, bvvar, ite, extract, zero_extend, sign_extend, bvadd, bvsub, bvmul, bvudiv,
    bvsdiv, bvurem, bvsrem, bvshl, bvlshr, bvashr, bvand, bvor, bvxor, eq, ne, bvugt, bvuge, bvult,
    bvule, bvsgt, bvsge, bvslt, bvsle, bvsadd_overflow, bvuadd_overflow, bvssub_overflow,
    bvusub_overflow, bvsmul_overflow, bvumul_overflow,
  }

  unfoldable pub visit_binary_operator : BinaryOp → Expr → Expr → Expr
  visit_binary_operator BinaryOp.add l r = bvadd l r
  visit_binary_operator BinaryOp.sub l r = bvsub l r
  visit_binary_operator BinaryOp.mul l r = bvmul l r
  visit_binary_operator BinaryOp.udiv l r = bvudiv l r
  visit_binary_operator BinaryOp.sdiv l r = bvsdiv l r
  visit_binary_operator BinaryOp.urem l r = bvurem l r
  visit_binary_operator BinaryOp.srem l r = bvsrem l r
  visit_binary_operator BinaryOp.shl l r = bvshl l r
  visit_binary_operator BinaryOp.lshr l r = bvlshr l r
  visit_binary_operator BinaryOp.ashr l r = bvashr l r
  visit_binary_operator BinaryOp.and_ l r = bvand l r
  visit_binary_operator BinaryOp.or_ l r = bvor l r
  visit_binary_operator BinaryOp.xor_ l r = bvxor l r

  unfoldable pub visit_icmp_inst : Predicate → Expr → Expr → Expr
  visit_icmp_inst Predicate.icmp_eq l r = eq l r
  visit_icmp_inst Predicate.icmp_ne l r = ne l r
  visit_icmp_inst Predicate.icmp_sge l r = bvsge l r
  visit_icmp_inst Predicate.icmp_sgt l r = bvsgt l r
  visit_icmp_inst Predicate.icmp_sle l r = bvsle l r
  visit_icmp_inst Predicate.icmp_slt l r = bvslt l r
  visit_icmp_inst Predicate.icmp_uge l r = bvuge l r
  visit_icmp_inst Predicate.icmp_ugt l r = bvugt l r
  visit_icmp_inst Predicate.icmp_ule l r = bvule l r
  visit_icmp_inst Predicate.icmp_ult l r = bvult l r

  -- visitTruncInst, visitZExtInst and visitSExtInst
  unfoldable pub visit_cast : CastOp → (dst_width src_width : ℕ) → Expr → Expr
  visit_cast CastOp.trunc dst_width src_width e = extract (dst_width - 1) 0 e
  visit_cast CastOp.zext dst_width src_width e = zero_extend (dst_width - src_width) e
  visit_cast CastOp.sext dst_width src_width e = sign_extend (dst_width - src_width) e

  -- visitExtractValueInst of an overflow intrinsic: index 0 and index 1
  unfoldable pub visit_result : Intrinsic → Expr → Expr → Expr
  visit_result Intrinsic.sadd_with_overflow l r = bvadd l r
  visit_result Intrinsic.uadd_with_overflow l r = bvadd l r
  visit_result Intrinsic.ssub_with_overflow l r = bvsub l r
  visit_result Intrinsic.usub_with_overflow l r = bvsub l r
  visit_result Intrinsic.smul_with_overflow l r = bvmul l r
  visit_result Intrinsic.umul_with_overflow l r = bvmul l r

  unfoldable pub visit_overflow : Intrinsic → Expr → Expr → Expr
  visit_overflow Intrinsic.sadd_with_overflow l r = bvsadd_overflow l r
  visit_overflow Intrinsic.uadd_with_overflow l r = bvuadd_overflow l r
  visit_overflow Intrinsic.ssub_with_overflow l r = bvssub_overflow l r
  visit_overflow Intrinsic.usub_with_overflow l r = bvusub_overflow l r
  visit_overflow Intrinsic.smul_with_overflow l r = bvsmul_overflow l r
  visit_overflow Intrinsic.umul_with_overflow l r = bvumul_overflow l r

  unfoldable pub analyze : Value → Expr
  unfolding visit_binary_operator visit_icmp_inst visit_cast visit_result visit_overflow
  analyze (const w c) = bvconst w c
  analyze (var w x) = bvvar w x
  analyze (binary op l r) = visit_binary_operator op (analyze l) (analyze r)
  analyze (icmp p l r) = visit_icmp_inst p (analyze l) (analyze r)
  analyze (cast op w v) = visit_cast op w (width v) (analyze v)
  analyze (select c t f) = ite (analyze c) (analyze t) (analyze f)
  analyze (result k l r) = visit_result k (analyze l) (analyze r)
  analyze (overflow k l r) = visit_overflow k (analyze l) (analyze r)
