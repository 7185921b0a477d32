-- ===== src/ValueGen/Ranges.antt =====
-- src/ValueGen.cc: addRangeConstraints, the assumptions for the ranges of a value.
use kint_test.Base.{
  ℕ, ◌<◌, ◌≤◌, ◌≡◌, refl, Bool, true, false, ◌&&◌, ◌||◌, ltb, leb, ◌==◌, if◌then◌else◌, Option,
  none, some, inl, inr, List, [], ◌∷◌, arith, Bool-cases,
}
use kint_test.Word.{wsub, IsWord, wsub_cases}
use kint_test.Solver.{Solver}

-- LLVM's ConstantRange [Lo, Hi) of width n, which wraps around.
abbrev pub in_range : ℕ → ℕ → ℕ → ℕ → Bool
in_range n lo hi x = ltb (wsub n x lo) (wsub n hi lo)

-- The value is in every range but the empty and full ones, which have Lo == Hi.
abbrev pub in_ranges : ℕ → List (ℕ × ℕ) → ℕ → Bool
in_ranges n [] x = true
in_ranges n ((lo, hi) ∷ ranges) x = (lo == hi || in_range n lo hi x) && in_ranges n ranges x

abbrev pub AreWords : ℕ → List (ℕ × ℕ) → Type 0
AreWords n [] = Unit
AreWords n ((lo, hi) ∷ ranges) = IsWord n lo × IsWord n hi × AreWords n ranges

module _ (s : Solver) where
  open s use {Expr, Model, value, holds, bvconst, bvuge, bvult, bvand, bvor}

  -- The condition for one pair: Cmp0 is e >= Lo and Cmp1 is e < Hi, and both are NULL only for
  -- Lo == Hi == 0.
  unfoldable pub range_condition : Expr → (lo hi : ℕ) → Option Expr
  range_condition e lo hi =
      let cmp0 = bvuge e (bvconst lo) in
      let cmp1 = bvult e (bvconst hi) in
      if lo == hi
      then none
      else if lo == 0
      then some cmp1
      else if hi == 0
      then some cmp0
      else if leb lo hi
      then some (bvand cmp0 cmp1)
      else some (bvor cmp0 cmp1)

  abbrev assume : Option Expr → List Expr → List Expr
  assume none conds = conds
  assume (some cond) conds = cond ∷ conds

  -- The assumptions, in the order of the pairs.
  unfoldable pub add_range_constraints : Expr → List (ℕ × ℕ) → List Expr
  unfolding range_condition
  add_range_constraints e [] = []
  add_range_constraints e ((lo, hi) ∷ ranges) =
      let rest = add_range_constraints e ranges in assume (range_condition e lo hi) rest

  abbrev pub all_hold : Model → List Expr → Bool
  all_hold m [] = true
  all_hold m (cond ∷ conds) = holds m cond && all_hold m conds

  abbrev assumed : Model → Option Expr → Bool
  assumed m none = true
  assumed m (some cond) = holds m cond

  all_hold-assume :
      (m : Model) (cond : Option Expr) (conds : List Expr)
      → all_hold m (assume cond conds) ≡ (assumed m cond && all_hold m conds)
  all_hold-assume m none conds = refl
  all_hold-assume m (some cond) conds = refl

  assumed-range_condition :
      (m : Model) (n : ℕ) (e : Expr) (lo hi : ℕ)
      → IsWord n lo
      → IsWord n hi
      → IsWord n (value m e)
      → assumed m (range_condition e lo hi) ≡ (lo == hi || in_range n lo hi (value m e))
  unfolding range_condition
  assumed-range_condition m n e lo hi low high word =
      let at_lo = s.value-bvconst m lo in
      let at_hi = s.value-bvconst m hi in
      let least = s.holds-bvuge m e (bvconst lo) in
      let below = s.holds-bvult m e (bvconst hi) in
      let inside = s.holds-bvand m (bvuge e (bvconst lo)) (bvult e (bvconst hi)) in
      let outside = s.holds-bvor m (bvuge e (bvconst lo)) (bvult e (bvconst hi)) in
      let from_lo = wsub_cases n (value m e) lo word low in
      let length = wsub_cases n hi lo high low in
      elim (Bool-cases (lo == hi)) [
        | inl same ↦ rw (range_condition, same)
        | inr differ ↦ elim (Bool-cases (lo == 0)) [
          | inl from_0 ↦ rw (range_condition, differ, from_0) ground arith
          | inr later ↦ elim (Bool-cases (hi == 0)) [
            | inl to_end ↦ rw (range_condition, differ, later, to_end) ground arith
            | inr ends ↦ elim (Bool-cases (leb lo hi)) [
              | inl plain ↦ rw (range_condition, differ, later, ends, plain) ground arith
              | inr wraps ↦ rw (range_condition, differ, later, ends, wraps) ground arith
            ]
          ]
        ]
      ]

  -- For words, the assumptions hold in a model exactly if the value is in every range, as
  -- ConstantRange reads them, but those with Lo == Hi.
  pub add_range_constraints-exact :
      (m : Model) (n : ℕ) (e : Expr) (ranges : List (ℕ × ℕ))
      → AreWords n ranges
      → IsWord n (value m e)
      → all_hold m (add_range_constraints e ranges) ≡ in_ranges n ranges (value m e)
  unfolding add_range_constraints
  add_range_constraints-exact m n e [] words word = refl
  add_range_constraints-exact m n e ((lo, hi) ∷ ranges) (low, high, words) word =
      let ih = add_range_constraints-exact m n e ranges words word in
      let this = assumed-range_condition m n e lo hi low high word in rw (all_hold-assume, this, ih)

  -- The assumptions for two ranges that do not wrap and are apart hold in no model.
  pub add_range_constraints-disjoint :
      (m : Model) (n : ℕ) (e : Expr) (lo hi lo' hi' : ℕ)
      → IsWord n hi'
      → IsWord n (value m e)
      → lo < hi
      → hi ≤ lo'
      → lo' < hi'
      → all_hold m (add_range_constraints e ((lo, hi) ∷ (lo', hi') ∷ [])) ≡ false
  add_range_constraints-disjoint m n e lo hi lo' hi' high word first apart second =
      let exact =
        add_range_constraints-exact m n e ((lo, hi) ∷ (lo', hi') ∷ [])
          (omega arith, omega arith, (omega arith, high, tt)) word in
      let from_lo = wsub_cases n (value m e) lo word (omega arith) in
      let length = wsub_cases n hi lo (omega arith) (omega arith) in
      let from_lo' = wsub_cases n (value m e) lo' word (omega arith) in
      let length' = wsub_cases n hi' lo' high (omega arith) in ground arith
