-- ===== src/IntRewrite/OverflowTests.antt =====
-- src/IntRewrite.cc: the deferred check of an addition that is stored in two blocks.
use kint_test.Base.{
  ℕ, zero, suc, ◌≡◌, refl, Bool, true, false, ◌==◌, some, List, [], ◌∷◌, arith, contains,
}
use kint_test.IntRewrite.Overflow.{
  User, UserKind, is_observable, Placement, at_operation, at_ends, checked, insert_overflow_check,
}
use kint_test.IntRewrite.Covers.{FlowsTo, UsersBelow, insert_overflow_check-covers}

-- The sum 0 is doubled, as 1, and 1 is doubled in turn and stored in the blocks 3 and 4.
abbrev users : ℕ → List User
users zero =
    record { number = 1; block = 0; kind = UserKind.instruction true; use_empty = false } ∷ []
users (suc zero) =
    record { number = 1; block = 2; kind = UserKind.instruction true; use_empty = false }
    ∷ record { number = 2; block = 3; kind = UserKind.instruction false; use_empty = true }
    ∷ record { number = 3; block = 4; kind = UserKind.instruction false; use_empty = true }
    ∷ []
users (suc (suc v)) = []

abbrev dominates : ℕ → ℕ → Bool
dominates a b = a == 0

insert_overflow_check_test :
    insert_overflow_check users dominates 0 false false false 6 0
    ≡ some (checked false false (at_ends (4 ∷ 3 ∷ [])))
unfolding insert_overflow_check
insert_overflow_check_test = refl

loop_test :
    insert_overflow_check users (λ a b. b == 3) 0 false true true 6 0
    ≡ some (checked true true at_operation)
unfolding insert_overflow_check
loop_test = refl

users-UsersBelow : (v : ℕ) → UsersBelow users dominates 0 4 (users v)
users-UsersBelow zero = (omega arith, tt)
users-UsersBelow (suc zero) = (omega arith, (omega arith, (omega arith, tt)))
users-UsersBelow (suc (suc v)) = tt

insert_overflow_check-covers_example :
    (placement : Placement) × (insert_overflow_check users dominates 0 false false false 6 0
      ≡ some (checked false false placement))
    × ((points : List ℕ) (rest : List User) (u : User)
        → placement ≡ at_ends points
        → FlowsTo users dominates 0 4 0 rest u
        → is_observable u.kind ≡ true
        → (contains points u.block ≡ true)
          × ((u.block == 0) ≡ false)
          × (dominates 0 u.block ≡ true))
insert_overflow_check-covers_example =
    insert_overflow_check-covers users dominates 0 4 false false 6 0 users-UsersBelow refl
      (omega arith)
