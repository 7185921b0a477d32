-- ===== src/CmpTautology/Tests.antt =====
-- src/CmpTautology.cc: expressions that are numbers or one variable.
use kint_test.Base.{ℕ, ◌≡◌, refl, Bool, true, false, ◌==◌, ◌&&◌, ◌||◌, Option, none, some, arith}
use kint_test.Ir.{Predicate, compares}
use kint_test.CmpTautology.Pass.{cmp_false, check}
use kint_test.CmpTautology.Sound.{check-holds}

-- `none` is the variable.
abbrev value : ℕ → Option ℕ → ℕ
value st none = st
value st (some c) = c

abbrev is_constant : Option ℕ → Bool
is_constant none = false
is_constant (some c) = true

abbrev is_add_rec : Option ℕ → Bool
is_add_rec s = false

-- It is only known that nothing is below 0.
abbrev is_known_predicate : Predicate → Option ℕ → Option ℕ → Bool
is_known_predicate Predicate.icmp_uge l (some c) = c == 0
is_known_predicate p l r = false

known :
    (p : Predicate) (l r : Option ℕ)
    → is_known_predicate p l r ≡ true
    → (st : ℕ) → compares 8 p (value st l) (value st r) ≡ true
known Predicate.icmp_uge l (some c) h st = ground arith
known p l r h st = absurd (cc)

check_test :
    check is_constant is_add_rec is_known_predicate true Predicate.icmp_ult none (some 0)
    ≡ some cmp_false
unfolding check
check_test = refl

check-holds_example :
    ((st : ℕ) → compares 8 Predicate.icmp_ult st 0 ≡ false)
    × ((false && true) ≡ false)
    × ((false || false) ≡ false)
check-holds_example =
    check-holds is_constant is_add_rec is_known_predicate 8 value known true Predicate.icmp_ult none
      (some 0) cmp_false check_test
