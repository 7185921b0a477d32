-- ===== src/Solver/Words.antt =====
-- src/SMTSolver.h: the operations of the solver that build the expressions of values, with what the
-- theory of bit vectors says of them. Nothing is said of a division by zero and of a shift by the
-- width or more, on which the solvers differ, and of two shifts that src/SMTBoolector.cc builds
-- from others: a shift at one bit, for which it counts the leading zeros of 0, and an arithmetic
-- shift to the right at a width that is no power of two, which it extends with zeros first.
use Prim.Native.Nat.{bit_and, bit_or, bit_xor}
use kint_test.Base.{
  ℕ, ◌+◌, ◌-◌, ◌*◌, ◌/◌, ◌%◌, ◌^◌, ◌<◌, ◌≡◌, ◌≢◌, ltb, leb, ◌==◌, bit, not, if◌then◌else◌,
}
use kint_test.Word.{
  is_negative, wadd, wsub, wmul, wsdiv, wslt, uadd_overflow, usub_overflow, umul_overflow,
  sadd_overflow, ssub_overflow, smul_overflow,
}
use kint_test.Ir.{wsrem, wsra}

-- The widths of words whose shifts need no extension.
abbrev pub PowerOf2 : ℕ → Type 0
PowerOf2 n = (k : ℕ) × (n ≡ 2 ^ (k + 1))

pub record WordSolver : Type 1 where
  pub Expr : Type 0
  pub Model : Type 0
  pub value : Model → Expr → ℕ
  pub bvwidth : Expr → ℕ
  pub bvconst : (width value : ℕ) → Expr
  -- a variable, by its name
  pub bvvar : (width name : ℕ) → Expr
  pub ite : Expr → Expr → Expr → Expr
  pub extract : (high low : ℕ) → Expr → Expr
  pub zero_extend : (i : ℕ) → Expr → Expr
  pub sign_extend : (i : ℕ) → Expr → Expr
  pub bvadd : Expr → Expr → Expr
  pub bvsub : Expr → Expr → Expr
  pub bvmul : Expr → Expr → Expr
  pub bvudiv : Expr → Expr → Expr
  pub bvsdiv : Expr → Expr → Expr
  pub bvurem : Expr → Expr → Expr
  pub bvsrem : Expr → Expr → Expr
  pub bvshl : Expr → Expr → Expr
  pub bvlshr : Expr → Expr → Expr
  pub bvashr : Expr → Expr → Expr
  pub bvand : Expr → Expr → Expr
  pub bvor : Expr → Expr → Expr
  pub bvxor : Expr → Expr → Expr
  pub eq : Expr → Expr → Expr
  pub ne : Expr → Expr → Expr
  pub bvugt : Expr → Expr → Expr
  pub bvuge : Expr → Expr → Expr
  pub bvult : Expr → Expr → Expr
  pub bvule : Expr → Expr → Expr
  pub bvsgt : Expr → Expr → Expr
  pub bvsge : Expr → Expr → Expr
  pub bvslt : Expr → Expr → Expr
  pub bvsle : Expr → Expr → Expr
  pub bvsadd_overflow : Expr → Expr → Expr
  pub bvuadd_overflow : Expr → Expr → Expr
  pub bvssub_overflow : Expr → Expr → Expr
  pub bvusub_overflow : Expr → Expr → Expr
  pub bvsmul_overflow : Expr → Expr → Expr
  pub bvumul_overflow : Expr → Expr → Expr
  pub bvwidth-bvconst : (w c : ℕ) → bvwidth (bvconst w c) ≡ w
  pub bvwidth-bvvar : (w x : ℕ) → bvwidth (bvvar w x) ≡ w
  pub bvwidth-ite : (c t f : Expr) → bvwidth (ite c t f) ≡ bvwidth t
  pub bvwidth-extract : (high low : ℕ) (a : Expr) → bvwidth (extract high low a) ≡ high - low + 1
  pub bvwidth-zero_extend : (i : ℕ) (a : Expr) → bvwidth (zero_extend i a) ≡ bvwidth a + i
  pub bvwidth-sign_extend : (i : ℕ) (a : Expr) → bvwidth (sign_extend i a) ≡ bvwidth a + i
  pub bvwidth-bvadd : (a b : Expr) → bvwidth (bvadd a b) ≡ bvwidth a
  pub bvwidth-bvsub : (a b : Expr) → bvwidth (bvsub a b) ≡ bvwidth a
  pub bvwidth-bvmul : (a b : Expr) → bvwidth (bvmul a b) ≡ bvwidth a
  pub bvwidth-bvudiv : (a b : Expr) → bvwidth (bvudiv a b) ≡ bvwidth a
  pub bvwidth-bvsdiv : (a b : Expr) → bvwidth (bvsdiv a b) ≡ bvwidth a
  pub bvwidth-bvurem : (a b : Expr) → bvwidth (bvurem a b) ≡ bvwidth a
  pub bvwidth-bvsrem : (a b : Expr) → bvwidth (bvsrem a b) ≡ bvwidth a
  pub bvwidth-bvshl : (a b : Expr) → bvwidth (bvshl a b) ≡ bvwidth a
  pub bvwidth-bvlshr : (a b : Expr) → bvwidth (bvlshr a b) ≡ bvwidth a
  pub bvwidth-bvashr : (a b : Expr) → bvwidth (bvashr a b) ≡ bvwidth a
  pub bvwidth-bvand : (a b : Expr) → bvwidth (bvand a b) ≡ bvwidth a
  pub bvwidth-bvor : (a b : Expr) → bvwidth (bvor a b) ≡ bvwidth a
  pub bvwidth-bvxor : (a b : Expr) → bvwidth (bvxor a b) ≡ bvwidth a
  pub bvwidth-eq : (a b : Expr) → bvwidth (eq a b) ≡ 1
  pub bvwidth-ne : (a b : Expr) → bvwidth (ne a b) ≡ 1
  pub bvwidth-bvugt : (a b : Expr) → bvwidth (bvugt a b) ≡ 1
  pub bvwidth-bvuge : (a b : Expr) → bvwidth (bvuge a b) ≡ 1
  pub bvwidth-bvult : (a b : Expr) → bvwidth (bvult a b) ≡ 1
  pub bvwidth-bvule : (a b : Expr) → bvwidth (bvule a b) ≡ 1
  pub bvwidth-bvsgt : (a b : Expr) → bvwidth (bvsgt a b) ≡ 1
  pub bvwidth-bvsge : (a b : Expr) → bvwidth (bvsge a b) ≡ 1
  pub bvwidth-bvslt : (a b : Expr) → bvwidth (bvslt a b) ≡ 1
  pub bvwidth-bvsle : (a b : Expr) → bvwidth (bvsle a b) ≡ 1
  pub bvwidth-bvsadd_overflow : (a b : Expr) → bvwidth (bvsadd_overflow a b) ≡ 1
  pub bvwidth-bvuadd_overflow : (a b : Expr) → bvwidth (bvuadd_overflow a b) ≡ 1
  pub bvwidth-bvssub_overflow : (a b : Expr) → bvwidth (bvssub_overflow a b) ≡ 1
  pub bvwidth-bvusub_overflow : (a b : Expr) → bvwidth (bvusub_overflow a b) ≡ 1
  pub bvwidth-bvsmul_overflow : (a b : Expr) → bvwidth (bvsmul_overflow a b) ≡ 1
  pub bvwidth-bvumul_overflow : (a b : Expr) → bvwidth (bvumul_overflow a b) ≡ 1
  pub value-bvconst : (m : Model) (w c : ℕ) → value m (bvconst w c) ≡ c % 2 ^ w
  pub value-ite :
      (m : Model) (c t f : Expr)
      → value m (ite c t f) ≡ ((if value m c == 0 then value m f else value m t) % 2 ^ bvwidth t)
  pub value-extract :
      (m : Model) (high low : ℕ) (a : Expr)
      → value m (extract high low a) ≡ (value m a / 2 ^ low) % 2 ^ (high - low + 1)
  pub value-zero_extend :
      (m : Model) (i : ℕ) (a : Expr) → value m (zero_extend i a) ≡ value m a % 2 ^ (bvwidth a + i)
  pub value-sign_extend :
      (m : Model) (i : ℕ) (a : Expr)
      → value m (sign_extend i a)
        ≡ (if is_negative (bvwidth a) (value m a)
            then value m a + (2 ^ (bvwidth a + i) - 2 ^ bvwidth a)
            else value m a)
          % 2 ^ (bvwidth a + i)
  pub value-bvadd :
      (m : Model) (a b : Expr) → value m (bvadd a b) ≡ wadd (bvwidth a) (value m a) (value m b)
  pub value-bvsub :
      (m : Model) (a b : Expr) → value m (bvsub a b) ≡ wsub (bvwidth a) (value m a) (value m b)
  pub value-bvmul :
      (m : Model) (a b : Expr) → value m (bvmul a b) ≡ wmul (bvwidth a) (value m a) (value m b)
  pub value-bvudiv :
      (m : Model) (a b : Expr)
      → value m b ≢ 0
      → value m (bvudiv a b) ≡ (value m a / value m b) % 2 ^ bvwidth a
  pub value-bvsdiv :
      (m : Model) (a b : Expr)
      → value m b ≢ 0
      → value m (bvsdiv a b) ≡ wsdiv (bvwidth a) (value m a) (value m b) % 2 ^ bvwidth a
  pub value-bvurem :
      (m : Model) (a b : Expr)
      → value m b ≢ 0
      → value m (bvurem a b) ≡ (value m a % value m b) % 2 ^ bvwidth a
  pub value-bvsrem :
      (m : Model) (a b : Expr)
      → value m b ≢ 0
      → value m (bvsrem a b) ≡ wsrem (bvwidth a) (value m a) (value m b) % 2 ^ bvwidth a
  pub value-bvshl :
      (m : Model) (a b : Expr)
      → 1 < bvwidth a
      → value m b < bvwidth a
      → value m (bvshl a b) ≡ (value m a * 2 ^ value m b) % 2 ^ bvwidth a
  pub value-bvlshr :
      (m : Model) (a b : Expr)
      → 1 < bvwidth a
      → value m b < bvwidth a
      → value m (bvlshr a b) ≡ (value m a / 2 ^ value m b) % 2 ^ bvwidth a
  pub value-bvashr :
      (m : Model) (a b : Expr)
      → PowerOf2 (bvwidth a)
      → value m b < bvwidth a
      → value m (bvashr a b) ≡ wsra (bvwidth a) (value m a) (value m b) % 2 ^ bvwidth a
  pub value-bvand :
      (m : Model) (a b : Expr)
      → value m (bvand a b) ≡ bit_and (value m a) (value m b) % 2 ^ bvwidth a
  pub value-bvor :
      (m : Model) (a b : Expr) → value m (bvor a b) ≡ bit_or (value m a) (value m b) % 2 ^ bvwidth a
  pub value-bvxor :
      (m : Model) (a b : Expr)
      → value m (bvxor a b) ≡ bit_xor (value m a) (value m b) % 2 ^ bvwidth a
  pub value-eq : (m : Model) (a b : Expr) → value m (eq a b) ≡ bit (value m a == value m b)
  pub value-ne : (m : Model) (a b : Expr) → value m (ne a b) ≡ bit (not (value m a == value m b))
  pub value-bvugt :
      (m : Model) (a b : Expr) → value m (bvugt a b) ≡ bit (ltb (value m b) (value m a))
  pub value-bvuge :
      (m : Model) (a b : Expr) → value m (bvuge a b) ≡ bit (leb (value m b) (value m a))
  pub value-bvult :
      (m : Model) (a b : Expr) → value m (bvult a b) ≡ bit (ltb (value m a) (value m b))
  pub value-bvule :
      (m : Model) (a b : Expr) → value m (bvule a b) ≡ bit (leb (value m a) (value m b))
  pub value-bvsgt :
      (m : Model) (a b : Expr)
      → value m (bvsgt a b) ≡ bit (wslt (bvwidth a) (value m b) (value m a))
  pub value-bvsge :
      (m : Model) (a b : Expr)
      → value m (bvsge a b) ≡ bit (not (wslt (bvwidth a) (value m a) (value m b)))
  pub value-bvslt :
      (m : Model) (a b : Expr)
      → value m (bvslt a b) ≡ bit (wslt (bvwidth a) (value m a) (value m b))
  pub value-bvsle :
      (m : Model) (a b : Expr)
      → value m (bvsle a b) ≡ bit (not (wslt (bvwidth a) (value m b) (value m a)))
  pub value-bvsadd_overflow :
      (m : Model) (a b : Expr)
      → value m (bvsadd_overflow a b) ≡ bit (sadd_overflow (bvwidth a) (value m a) (value m b))
  pub value-bvuadd_overflow :
      (m : Model) (a b : Expr)
      → value m (bvuadd_overflow a b) ≡ bit (uadd_overflow (bvwidth a) (value m a) (value m b))
  pub value-bvssub_overflow :
      (m : Model) (a b : Expr)
      → value m (bvssub_overflow a b) ≡ bit (ssub_overflow (bvwidth a) (value m a) (value m b))
  pub value-bvusub_overflow :
      (m : Model) (a b : Expr)
      → value m (bvusub_overflow a b) ≡ bit (usub_overflow (bvwidth a) (value m a) (value m b))
  pub value-bvsmul_overflow :
      (m : Model) (a b : Expr)
      → value m (bvsmul_overflow a b) ≡ bit (smul_overflow (bvwidth a) (value m a) (value m b))
  pub value-bvumul_overflow :
      (m : Model) (a b : Expr)
      → value m (bvumul_overflow a b) ≡ bit (umul_overflow (bvwidth a) (value m a) (value m b))
