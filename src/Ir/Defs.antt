-- ===== src/Ir/Defs.antt =====
-- The part of LLVM's IR that the passes of this directory read and build: integer values as trees,
-- with the meaning that LLVM's language reference gives to the instructions. A value that the
-- passes do not look into (an argument, a load, a call) is a `var`, by its number.
use Prim.Native.Nat.{bit_and, bit_or, bit_xor}
use kint_test.Base.{
  ℕ, ◌<◌, ◌≡◌, ◌+◌, ◌*◌, ◌/◌, ◌%◌, ◌^◌, ◌-◌, Bool, ltb, leb, ◌==◌, bit, if◌then◌else◌, not, Option,
  none, some,
}
use kint_test.Word.{
  is_negative, magnitude, wadd, wsub, wmul, wneg, wsdiv, wslt, uadd_overflow, usub_overflow,
  umul_overflow, sadd_overflow, ssub_overflow, smul_overflow,
}

pub data BinaryOp : Type 0 where
  add sub mul udiv sdiv urem srem shl lshr ashr and_ or_ xor_ : BinaryOp

pub data Predicate : Type 0 where
  icmp_eq icmp_ne icmp_ugt icmp_uge icmp_ult icmp_ule : Predicate
  icmp_sgt icmp_sge icmp_slt icmp_sle : Predicate

pub data CastOp : Type 0 where
  trunc zext sext : CastOp

pub data Intrinsic : Type 0 where
  sadd_with_overflow uadd_with_overflow ssub_with_overflow : Intrinsic
  usub_with_overflow smul_with_overflow umul_with_overflow : Intrinsic

pub data Value : Type 0 where
  const : (width value : ℕ) → Value
  var : (width id : ℕ) → Value
  binary : BinaryOp → Value → Value → Value
  icmp : Predicate → Value → Value → Value
  cast : CastOp → (width : ℕ) → Value → Value
  select : Value → Value → Value → Value
  -- extractvalue 0 and 1 of a call of an overflow intrinsic
  result overflow : Intrinsic → Value → Value → Value

abbrev pub width : Value → ℕ
width (const w c) = w
width (var w x) = w
width (binary op l r) = width l
width (icmp p l r) = 1
width (cast op w v) = w
width (select c t f) = width t
width (result k l r) = width l
width (overflow k l r) = 1

-- dyn_cast<ConstantInt>, with its value.
abbrev pub as_constant : Value → Option ℕ
as_constant (const w c) = some (c % 2 ^ w)
as_constant _ = none

-- What the variables hold, and what an operation gives where the reference leaves its result
-- undefined: a division by zero, and a shift by the width or more.
pub record Env : Type 0 where
  pub values : ℕ → ℕ
  pub undefined : BinaryOp → ℕ → ℕ → ℕ

-- The remainder has the sign of the dividend.
abbrev pub wsrem : ℕ → ℕ → ℕ → ℕ
wsrem n a b =
    if is_negative n a
    then wneg n (magnitude n a % magnitude n b)
    else magnitude n a % magnitude n b

-- An arithmetic shift fills with the sign.
abbrev pub wsra : ℕ → ℕ → ℕ → ℕ
wsra n a b = if is_negative n a then 2 ^ n - 1 - (2 ^ n - 1 - a) / 2 ^ b else a / 2 ^ b

abbrev pub calculate : Env → ℕ → BinaryOp → ℕ → ℕ → ℕ
calculate env n BinaryOp.add a b = wadd n a b
calculate env n BinaryOp.sub a b = wsub n a b
calculate env n BinaryOp.mul a b = wmul n a b
calculate env n BinaryOp.udiv a b = if b == 0 then env.undefined BinaryOp.udiv a b else a / b
calculate env n BinaryOp.sdiv a b = if b == 0 then env.undefined BinaryOp.sdiv a b else wsdiv n a b
calculate env n BinaryOp.urem a b = if b == 0 then env.undefined BinaryOp.urem a b else a % b
calculate env n BinaryOp.srem a b = if b == 0 then env.undefined BinaryOp.srem a b else wsrem n a b
calculate env n BinaryOp.shl a b = if ltb b n then a * 2 ^ b else env.undefined BinaryOp.shl a b
calculate env n BinaryOp.lshr a b = if ltb b n then a / 2 ^ b else env.undefined BinaryOp.lshr a b
calculate env n BinaryOp.ashr a b = if ltb b n then wsra n a b else env.undefined BinaryOp.ashr a b
calculate env n BinaryOp.and_ a b = bit_and a b
calculate env n BinaryOp.or_ a b = bit_or a b
calculate env n BinaryOp.xor_ a b = bit_xor a b

abbrev pub compares : ℕ → Predicate → ℕ → ℕ → Bool
compares n Predicate.icmp_eq a b = a == b
compares n Predicate.icmp_ne a b = not (a == b)
compares n Predicate.icmp_ugt a b = ltb b a
compares n Predicate.icmp_uge a b = leb b a
compares n Predicate.icmp_ult a b = ltb a b
compares n Predicate.icmp_ule a b = leb a b
compares n Predicate.icmp_sgt a b = wslt n b a
compares n Predicate.icmp_sge a b = not (wslt n a b)
compares n Predicate.icmp_slt a b = wslt n a b
compares n Predicate.icmp_sle a b = not (wslt n b a)

abbrev pub converts : (from to : ℕ) → CastOp → ℕ → ℕ
converts from to CastOp.trunc a = a
converts from to CastOp.zext a = a
converts from to CastOp.sext a = if is_negative from a then a + (2 ^ to - 2 ^ from) else a

abbrev pub operation : Intrinsic → BinaryOp
operation Intrinsic.sadd_with_overflow = BinaryOp.add
operation Intrinsic.uadd_with_overflow = BinaryOp.add
operation Intrinsic.ssub_with_overflow = BinaryOp.sub
operation Intrinsic.usub_with_overflow = BinaryOp.sub
operation Intrinsic.smul_with_overflow = BinaryOp.mul
operation Intrinsic.umul_with_overflow = BinaryOp.mul

abbrev pub overflows : ℕ → Intrinsic → ℕ → ℕ → Bool
overflows n Intrinsic.sadd_with_overflow a b = sadd_overflow n a b
overflows n Intrinsic.uadd_with_overflow a b = uadd_overflow n a b
overflows n Intrinsic.ssub_with_overflow a b = ssub_overflow n a b
overflows n Intrinsic.usub_with_overflow a b = usub_overflow n a b
overflows n Intrinsic.smul_with_overflow a b = smul_overflow n a b
overflows n Intrinsic.umul_with_overflow a b = umul_overflow n a b

-- Every value is a word of its width.
unfoldable pub eval : Env → Value → ℕ
eval env (const w c) = c % 2 ^ w
eval env (var w x) = env.values x % 2 ^ w
eval env (binary op l r) = calculate env (width l) op (eval env l) (eval env r) % 2 ^ width l
eval env (icmp p l r) = bit (compares (width l) p (eval env l) (eval env r))
eval env (cast op w v) = converts (width v) w op (eval env v) % 2 ^ w
eval env (select c t f) = (if eval env c == 0 then eval env f else eval env t) % 2 ^ width t
eval env (result k l r) =
    calculate env (width l) (operation k) (eval env l) (eval env r) % 2 ^ width l
eval env (overflow k l r) = bit (overflows (width l) k (eval env l) (eval env r))

-- What LLVM's verifier grants of a value.
abbrev pub WellTyped : Value → Type 0
WellTyped (const w c) = 0 < w
WellTyped (var w x) = 0 < w
WellTyped (binary op l r) = WellTyped l × WellTyped r × (width r ≡ width l)
WellTyped (icmp p l r) = WellTyped l × WellTyped r × (width r ≡ width l)
WellTyped (cast op w v) = WellTyped v × (0 < w)
WellTyped (select c t f) =
    WellTyped c × WellTyped t × WellTyped f × (width c ≡ 1) × (width f ≡ width t)
WellTyped (result k l r) = WellTyped l × WellTyped r × (width r ≡ width l)
WellTyped (overflow k l r) = WellTyped l × WellTyped r × (width r ≡ width l)
