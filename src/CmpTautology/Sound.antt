-- ===== src/CmpTautology/Sound.antt =====
-- src/CmpTautology.cc: what is reported of a comparison is true of it.
use kint_test.Base.{
  ℕ, ◌≡◌, sym, Bool, true, false, not, ◌&&◌, ◌||◌, if◌then◌else◌, none, some, inl, inr, arith,
  Bool-cases,
}
use mathlib.Core.Option.{none-ne-some, some_inj}
use kint_test.Ir.{Predicate, compares}
use kint_test.OverflowIdiom.{get_inverse_predicate, compares_inverse}
use kint_test.CmpTautology.Pass.{CmpStatus, cmp_false, cmp_true, check}

abbrev pub outcome : CmpStatus → Bool
outcome cmp_false = false
outcome cmp_true = true

module _ {Scev State : Type 0} (is_constant is_add_rec : Scev → Bool)
    (is_known_predicate : Predicate → Scev → Scev → Bool) (n : ℕ) (value : State → Scev → ℕ)
    (known : (p : Predicate) (l r : Scev)
      → is_known_predicate p l r ≡ true
      → (st : State) → compares n p (value st l) (value st r) ≡ true) where
  -- If what isKnownPredicate says holds in every state, then a comparison that is reported as
  -- always true, or always false, is so in every state; and neither both operands are constants nor
  -- is one a loop variable.
  pub check-holds :
      (is_scevable : Bool) (p : Predicate) (l r : Scev) (reason : CmpStatus)
      → check is_constant is_add_rec is_known_predicate is_scevable p l r ≡ some reason
      → ((st : State) → compares n p (value st l) (value st r) ≡ outcome reason)
        × ((is_constant l && is_constant r) ≡ false)
        × ((is_add_rec l || is_add_rec r) ≡ false)
  unfolding check
  check-holds is_scevable p l r reason h = elim (Bool-cases (not is_scevable)) [
    | inl unable ↦ absurd (none-ne-some reason (rw (check, unable) at h))
    | inr able ↦ elim (Bool-cases (is_constant l && is_constant r)) [
      | inl constants ↦ absurd (none-ne-some reason (rw (check, able, constants) at h))
      | inr variable ↦ elim (Bool-cases (is_add_rec l || is_add_rec r)) [
        | inl looping ↦ absurd (none-ne-some reason (rw (check, able, variable, looping) at h))
        | inr plain ↦ (reported (rw (check, able, variable, plain) at h), variable, plain)
      ]
    ]
  ]
    where
      reported :
          (if is_known_predicate p l r
              then some cmp_true
              else if is_known_predicate (get_inverse_predicate p) l r
              then some cmp_false
              else none)
            ≡ some reason
          → (st : State) → compares n p (value st l) (value st r) ≡ outcome reason
      reported e st = elim (Bool-cases (is_known_predicate p l r)) [
        | inl holds ↦
            let always : some cmp_true ≡ some reason = rw holds at e in
            rw (sym (some_inj.0 always)) (known p l r holds st)
        | inr unclear ↦ elim (Bool-cases (is_known_predicate (get_inverse_predicate p) l r)) [
          | inl fails ↦
              let never : some cmp_false ≡ some reason = rw (unclear, fails) at e in
              let inverse = compares_inverse n p (value st l) (value st r) in
              let inverse_holds = known (get_inverse_predicate p) l r fails st in
              rw (sym (some_inj.0 never)) (ground arith)
          | inr unknown ↦ absurd (none-ne-some reason (rw (unclear, unknown) at e))
        ]
      ]
