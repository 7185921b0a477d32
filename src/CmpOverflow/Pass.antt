-- ===== src/CmpOverflow/Pass.antt =====
-- src/CmpOverflow.cc: the expressions collected from call arguments, and the check of a comparison.
use kint_test.Base.{
  ℕ, ◌/◌, Bool, true, false, ◌==◌, ◌||◌, if◌then◌else◌, Option, none, some, List, [], ◌∷◌,
}
use kint_test.Word.{umax, wsub}

-- A SCEV, as far as the pass looks into it. Sums and products of other than two operands, and all
-- other expressions, are `unknown`.
pub data Scev : Type 0 where
  constant : ℕ → Scev
  add_expr mul_expr : Scev → Scev → Scev
  zero_extend : Scev → Scev
  unknown : ℕ → Scev

pub data CmpStatus : Type 0 where
  cmp_axb_0 cmp_axb_1 cmp_xy_x cmp_xy_ext : CmpStatus

-- AxBs: from x to the constants of the last a + x * b that a call was given.
abbrev pub AxBs : Type 0
AxBs = List (Scev × ℕ × ℕ)

unfoldable pub collect_argument : AxBs → Scev → AxBs
collect_argument axbs (add_expr (constant a) (mul_expr (constant b) x)) = (x, a, b) ∷ axbs
collect_argument axbs s = axbs

-- The call's arguments, each with whether its type is SCEVable.
unfoldable pub collect : AxBs → List (Bool × Scev) → AxBs
unfolding collect_argument
collect axbs [] = axbs
collect axbs ((able, s) ∷ args) = collect (if able then collect_argument axbs s else axbs) args

-- What checkAxB says of a comparison of x with the constant C, at the width n.
unfoldable pub judge : ℕ → ℕ → ℕ → ℕ → Option CmpStatus
judge n a b c =
    if c == wsub n (umax n) a / b
    then none
    else if c == umax n / b
    then some cmp_axb_0
    else if c == wsub n (umax n / b) a
    then some cmp_axb_1
    else none

-- SCEVs are unique, so equality is that of pointers.
module _ (same : Scev → Scev → Bool) where
  -- AxBs.lookup
  unfoldable pub lookup : AxBs → Scev → Option (ℕ × ℕ)
  lookup [] s = none
  lookup ((x, a, b) ∷ axbs) s = if same x s then some (a, b) else lookup axbs s

  -- The comparison with the constant, if there is one, on the right.
  unfoldable pub check_constant : AxBs → ℕ → Scev → Scev → Option CmpStatus
  unfolding lookup judge
  check_constant axbs n l (constant c) = elim (lookup axbs l) [
    | none ↦ none
    | some (a, b) ↦ judge n a b c
  ]
  check_constant axbs n l r = none

  -- `is_integer` and n are the type of L, and its width.
  unfoldable pub check_axb : AxBs → Bool → ℕ → Scev → Scev → Option CmpStatus
  unfolding check_constant
  check_axb axbs false n l r = none
  check_axb axbs true n (constant c) r = check_constant axbs n r (constant c)
  check_axb axbs true n l r = check_constant axbs n l r

  unfoldable pub check_mul : Scev → Scev → Option CmpStatus
  check_mul (zero_extend (mul_expr x y)) s = some cmp_xy_ext
  check_mul (mul_expr x y) s = if same s x || same s y then some cmp_xy_x else none
  check_mul m s = none

  -- checkXY computes a status and returns NULL.
  unfoldable pub check_xy : Scev → Scev → Option CmpStatus
  unfolding check_mul
  check_xy l r =
      let status : Option CmpStatus = elim (check_mul l r) [
        | some t ↦ some t
        | none ↦ check_mul r l
      ] in
      none

  -- What `check` reports of a comparison.
  unfoldable pub check : AxBs → Bool → ℕ → Scev → Scev → Option CmpStatus
  unfolding check_axb check_xy
  check axbs is_integer n l r = elim (check_axb axbs is_integer n l r) [
    | some t ↦ some t
    | none ↦ check_xy l r
  ]
