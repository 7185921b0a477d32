-- ===== src/Solver.antt =====
-- src/SMTSolver.h: the Boolean part of the solver's interface that the guards and the range
-- constraints use, with what the theory of bit vectors says of it. An expression of one bit `holds`
-- in a model if its value is 1.
mod Words
mod Meanings
pub use Words.*
pub use Meanings.*
use kint_test.Base.{ℕ, ◌≡◌, refl, Bool, true, false, not, ◌&&◌, ◌||◌, ◌==◌, ltb, leb, bit}

pub record Solver : Type 1 where
  pub Expr : Type 0
  pub Model : Type 0
  pub value : Model → Expr → ℕ
  pub holds : Model → Expr → Bool
  pub bvtrue : Expr
  pub bvfalse : Expr
  pub bvconst : ℕ → Expr
  pub bvand : Expr → Expr → Expr
  pub bvor : Expr → Expr → Expr
  pub bvnot : Expr → Expr
  pub eq : Expr → Expr → Expr
  pub bvuge : Expr → Expr → Expr
  pub bvult : Expr → Expr → Expr
  pub holds-value : (m : Model) (a : Expr) → holds m a ≡ (value m a == 1)
  pub holds-bvtrue : (m : Model) → holds m bvtrue ≡ true
  pub holds-bvfalse : (m : Model) → holds m bvfalse ≡ false
  pub value-bvconst : (m : Model) (c : ℕ) → value m (bvconst c) ≡ c
  pub holds-bvand : (m : Model) (a b : Expr) → holds m (bvand a b) ≡ (holds m a && holds m b)
  pub holds-bvor : (m : Model) (a b : Expr) → holds m (bvor a b) ≡ (holds m a || holds m b)
  pub holds-bvnot : (m : Model) (a : Expr) → holds m (bvnot a) ≡ not (holds m a)
  pub holds-eq : (m : Model) (a b : Expr) → holds m (eq a b) ≡ (value m a == value m b)
  pub holds-bvuge : (m : Model) (a b : Expr) → holds m (bvuge a b) ≡ leb (value m b) (value m a)
  pub holds-bvult : (m : Model) (a b : Expr) → holds m (bvult a b) ≡ ltb (value m a) (value m b)

-- Formulas with variables for the values, which meet the interface.
pub data Formula : Type 0 where
  truth falsity : Formula
  number variable : ℕ → Formula
  both either equal at_least below : Formula → Formula → Formula
  negation : Formula → Formula

abbrev pub denotes : (ℕ → ℕ) → Formula → ℕ
denotes m truth = 1
denotes m falsity = 0
denotes m (number c) = c
denotes m (variable x) = m x
denotes m (both a b) = bit ((denotes m a == 1) && (denotes m b == 1))
denotes m (either a b) = bit ((denotes m a == 1) || (denotes m b == 1))
denotes m (equal a b) = bit (denotes m a == denotes m b)
denotes m (at_least a b) = bit (leb (denotes m b) (denotes m a))
denotes m (below a b) = bit (ltb (denotes m a) (denotes m b))
denotes m (negation a) = bit (not (denotes m a == 1))

pub bit-one : (b : Bool) → (bit b == 1) ≡ b
bit-one true = refl
bit-one false = refl

abbrev pub formulas : Solver
formulas = record {
  Expr = Formula;
  Model = ℕ → ℕ;
  value = denotes;
  holds = λ m a. denotes m a == 1;
  bvtrue = truth;
  bvfalse = falsity;
  bvconst = number;
  bvand = both;
  bvor = either;
  bvnot = negation;
  eq = equal;
  bvuge = at_least;
  bvult = below;
  holds-value = λ m a. refl;
  holds-bvtrue = λ m. refl;
  holds-bvfalse = λ m. refl;
  value-bvconst = λ m c. refl;
  holds-bvand = λ m a b. bit-one _;
  holds-bvor = λ m a b. bit-one _;
  holds-bvnot = λ m a. bit-one _;
  holds-eq = λ m a b. bit-one _;
  holds-bvuge = λ m a b. bit-one _;
  holds-bvult = λ m a b. bit-one _;
}
