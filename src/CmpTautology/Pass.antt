-- ===== src/CmpTautology/Pass.antt =====
-- src/CmpTautology.cc: the check of a comparison. ScalarEvolution is a parameter: its expressions,
-- the tests of their kind, and isKnownPredicate.
use kint_test.Base.{Bool, not, ◌&&◌, ◌||◌, if◌then◌else◌, Option, none, some}
use kint_test.Ir.{Predicate}
use kint_test.OverflowIdiom.{get_inverse_predicate}

pub data CmpStatus : Type 0 where
  cmp_false cmp_true : CmpStatus

module _ {Scev : Type 0} (is_constant is_add_rec : Scev → Bool)
    (is_known_predicate : Predicate → Scev → Scev → Bool) where
  -- The reason that is reported, if any; `is_scevable` is of the type of the operands.
  unfoldable pub check : (is_scevable : Bool) → Predicate → Scev → Scev → Option CmpStatus
  unfolding get_inverse_predicate
  check is_scevable pred l r =
      if not is_scevable
      then none
      else if is_constant l && is_constant r
      then none
      else if is_add_rec l || is_add_rec r
      then none
      else if is_known_predicate pred l r
      then some cmp_true
      else if is_known_predicate (get_inverse_predicate pred) l r
      then some cmp_false
      else none
