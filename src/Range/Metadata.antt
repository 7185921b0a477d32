-- ===== src/Range/Metadata.antt =====
-- src/Range.cc and src/ValueGen.cc: the metadata that doFinalization writes, and the assumptions
-- that addRangeConstraints reads from it.
use kint_test.Base.{
  ℕ, ◌≡◌, refl, sym, inl, inr, true, false, ◌==◌, ◌∙◌, Option, none, some, List, [], ◌∷◌, arith,
  Bool-cases,
}
use kint_test.Word.{IsWord}
use kint_test.Solver.{Solver}
use kint_test.ValueGen.Ranges.{
  in_range, all_hold, add_range_constraints, add_range_constraints-exact,
}
use kint_test.Range.Algebra.{ConstantRange}
use kint_test.Range.Pass.{intrange}

module _ (cr : ConstantRange) (s : Solver) where
  open cr use {Range, bits, contains, lower, upper}

  abbrev pub bounds : Option (ℕ × ℕ) → List (ℕ × ℕ)
  bounds none = []
  bounds (some pair) = pair ∷ []

  in_range-holds :
      (r : Range) (x : ℕ)
      → contains r x ≡ true
      → cr.is_full_set r ≡ false
      → IsWord (bits r) x
      → in_range (bits r) (lower r) (upper r) x ≡ true
  in_range-holds r x inside part word =
      sym (cr.contains-lower-upper r x (cr.contains-is_empty_set r x inside) part word) ∙ inside

  no_bounds : (m : s.Model) (e : s.Expr) → all_hold s m (add_range_constraints s e []) ≡ true
  unfolding add_range_constraints
  no_bounds m e = refl

  one_bound :
      (m : s.Model) (n : ℕ) (e : s.Expr) (lo hi : ℕ)
      → IsWord n lo
      → IsWord n hi
      → IsWord n (s.value m e)
      → in_range n lo hi (s.value m e) ≡ true
      → all_hold s m (add_range_constraints s e ((lo, hi) ∷ [])) ≡ true
  one_bound m n e lo hi low high word held =
      add_range_constraints-exact s m n e ((lo, hi) ∷ []) (low, high, tt) word
      ∙ rw held (ground arith)

  -- If the global range of an identifier contains the value of an expression, which is a word of
  -- its width, then the assumptions that the metadata of the identifier gives for the expression
  -- hold.
  pub all_hold-intrange :
      (ranges : ℕ → Option Range) (id : ℕ) (r : Range) (m : s.Model) (e : s.Expr)
      → ranges id ≡ some r
      → contains r (s.value m e) ≡ true
      → IsWord (bits r) (s.value m e)
      → all_hold s m (add_range_constraints s e (bounds (intrange cr ranges id))) ≡ true
  unfolding intrange
  all_hold-intrange ranges id r m e found inside word =
      let x = s.value m e in
      let nonempty = cr.contains-is_empty_set r x inside in
      elim (Bool-cases (id == 0)) [
        | inl empty ↦ rw (intrange, empty) (no_bounds m e)
        | inr named ↦ elim (Bool-cases (cr.is_full_set r)) [
          | inl full ↦ rw (intrange, named, found, full, nonempty) (no_bounds m e)
          | inr part ↦
              rw (intrange, named, found, part, nonempty)
                (one_bound m (bits r) e (lower r) (upper r) (cr.IsWord-lower r) (cr.IsWord-upper r)
                  word (in_range-holds r x inside part word))
        ]
      ]
