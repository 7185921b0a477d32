-- ===== src/OverflowSimplify/Correct.antt =====
-- src/OverflowSimplify.cc: what the users of an intrinsic call see before and after the pass.
use kint_test.Base.{
  ℕ, ◌<◌, ◌^◌, ◌≡◌, ◌≢◌, refl, sym, ap, ◌∙◌, ◌⊎◌, inl, inr, Bool, true, false, bit, ◌==◌, none,
  some, Option-cases, Bool-cases, arith,
}
use kint_test.Word.{
  umax, smin, smax, ssub_overflow_least, smul_overflow_minus_one, smin-gt-one, pow-half, pow_pos,
  usub_overflow, is_negative, ssub_left_never, wsub-mod, IsWord, smul_minus_one_always,
  sadd_overflow_comm, uadd_overflow_comm, smul_overflow_comm, umul_overflow_comm, wadd_comm,
  wmul_comm, mod_small, wsdiv, wsdiv-lt,
}
use kint_test.Ir.{
  Value, const, Intrinsic, width, as_constant, Env, eval, eval-lt, eval-as_constant, bit_or-bit,
  calculate, overflows, operation,
}
use kint_test.OverflowSimplify.Pass.{
  Canonical, constant, ordered, swapped, Outcome, unchanged, swapped_operands, replaced,
  canonicalize, sadd_by, uadd_by, smul_by, umul_by, simplify_ssub, simplify_usub, simplify,
}
use kint_test.OverflowSimplify.Constants.{
  returns, returns_after, Keeps, sadd_by-constant, uadd_by-constant, ssub-constant,
  umul_by-constant, smul_by-constant,
}

-- Only the operands' values and widths matter.
returns_of_values :
    (env : Env) (k : Intrinsic) (l r r' : Value) (o : Outcome)
    → eval env r ≡ eval env r'
    → width r ≡ width r'
    → returns_after env k l r o ≡ returns_after env k l r' o
unfolding eval
returns_of_values env k l r r' unchanged h w = rw h
returns_of_values env k l r r' swapped_operands h w = rw (h, w)
returns_of_values env k l r r' (replaced res cmp) h w = refl

-- The rewrite of a commutative intrinsic, from that of a value and a constant.
module _ (operand_le : Value → Value → Bool) (env : Env) (k : Intrinsic) (f : Canonical → Outcome)
    (comm : (l r : Value) → width r ≡ width l → returns env k l r ≡ returns env k r l)
    (keeps_order : f ordered ≡ unchanged) (keeps_swap : f swapped ≡ swapped_operands)
    (replaces : (x : Value) (c : ℕ)
      → (res : Value) × (cmp : Value) × (f (constant x c) ≡ replaced res cmp))
    (P : Value → ℕ → Type 0)
    (at_constant : (x : Value) (c : ℕ) (h : 0 < width x) (hc : IsWord (width x) c)
      → P x c
      → Keeps env x c h hc k (f (constant x c))) where
  constant_keeps :
      (x y : Value) (c : ℕ)
      → width y ≡ width x
      → 0 < width x
      → as_constant y ≡ some c
      → P x c
      → returns_after env k x y (f (constant x c)) ≡ returns env k x y
  unfolding eval
  constant_keeps x y c same h e p =
      let value = eval-as_constant env y e in
      let hc : IsWord (width x) c = rw (← value, ← same) (eval-lt env y) in
      let held : eval env y ≡ eval env (const (width x) c) = value ∙ sym (mod_small c _ hc) in
      returns_of_values env k x y (const (width x) c) (f (constant x c)) held same
      ∙ at_constant x c h hc p
      ∙ sym (returns_of_values env k x y (const (width x) c) unchanged held same)

  canonicalize_keeps :
      (l r : Value)
      → width r ≡ width l
      → 0 < width l
      → ((c : ℕ) → as_constant r ≡ some c → P l c)
      → ((c : ℕ) → as_constant l ≡ some c → P r c)
      → returns_after env k l r (f (canonicalize operand_le l r)) ≡ returns env k l r
  unfolding canonicalize
  canonicalize_keeps l r same h pr pl = elim (Option-cases (as_constant r)) [
    | inr (c, e) ↦ rw (e, canonicalize) (constant_keeps l r c same h e (pr c e))
    | inl none_r ↦ elim (Option-cases (as_constant l)) [
      | inr (c, e) ↦
          let (res, cmp, shape) = replaces r c in
          let kept = constant_keeps r l c (sym same) (rw same h) e (pl c e) in
          rw (none_r, e, canonicalize) (rw shape ((rw shape at kept) ∙ sym (comm l r same)))
      | inl none_l ↦ elim (Bool-cases (operand_le l r)) [
        | inl le ↦ rw (none_r, none_l, le, canonicalize) (rw keeps_order)
        | inr gt ↦ rw (none_r, none_l, gt, canonicalize) (rw keeps_swap (sym (comm l r same)))
      ]
    ]
  ]

-- The operands at which the pass is exact: a difference with a constant on the right or with
-- none, and a product with no constant -1.
abbrev pub SparesDefects : Intrinsic → Value → Value → Type 0
SparesDefects Intrinsic.ssub_with_overflow l r =
    (as_constant l ≡ none) ⊎ ((c : ℕ) × (as_constant r ≡ some c))
SparesDefects Intrinsic.smul_with_overflow l r =
    (as_constant l ≢ some (umax (width l))) × (as_constant r ≢ some (umax (width r)))
SparesDefects _ l r = Unit

-- The intrinsics that `canonicalize` may turn round.
commutes :
    (env : Env) (k : Intrinsic)
    → ((n a b : ℕ) → calculate env n (operation k) a b ≡ calculate env n (operation k) b a)
    → ((n a b : ℕ) → overflows n k a b ≡ overflows n k b a)
    → (l r : Value) → width r ≡ width l
    → returns env k l r ≡ returns env k r l
unfolding eval
commutes env k result_comm overflow_comm l r same = rw (
  same,
  result_comm (width l) (eval env l) (eval env r),
  overflow_comm (width l) (eval env l) (eval env r),
)

ssub_right :
    (env : Env) (l r : Value) (c : ℕ)
    → width r ≡ width l
    → 0 < width l
    → as_constant r ≡ some c
    → returns_after env Intrinsic.ssub_with_overflow l r (simplify_ssub l r)
      ≡ returns env Intrinsic.ssub_with_overflow l r
unfolding simplify_ssub eval
ssub_right env l r c same h e =
    let value = eval-as_constant env r e in
    let hc : IsWord (width l) c = rw (← value, ← same) (eval-lt env r) in
    rw (e, value, simplify_ssub) (rw (mod_small c (2 ^ width l) hc) at (ssub-constant env l c h hc))

usub_keeps :
    (is_constant : Value → Bool) (env : Env) (l r : Value)
    → width r ≡ width l
    → returns_after env Intrinsic.usub_with_overflow l r (simplify_usub is_constant l r)
      ≡ returns env Intrinsic.usub_with_overflow l r
unfolding simplify_usub eval usub_overflow
usub_keeps is_constant env l r same = elim (Bool-cases (is_constant l)) [
  | inl e ↦ rw e
  | inr e ↦ rw e
]

module _ (is_constant : Value → Bool) (operand_le : Value → Value → Bool) (env : Env) where
  -- Simplifying a call of an overflow intrinsic leaves both of its results as they were, the
  -- wrapped value and the overflow bit, for operands of one positive width: for every intrinsic,
  -- constant operands on either side or none, except for a difference with a constant on the left
  -- only and for a product with the constant -1.
  pub simplify-returns :
      (k : Intrinsic) (l r : Value)
      → width r ≡ width l
      → 0 < width l
      → SparesDefects k l r
      → returns_after env k l r (simplify is_constant operand_le k l r) ≡ returns env k l r
  unfolding simplify
  simplify-returns Intrinsic.sadd_with_overflow l r same h _ =
      canonicalize_keeps operand_le env Intrinsic.sadd_with_overflow sadd_by
        (commutes env Intrinsic.sadd_with_overflow wadd_comm sadd_overflow_comm) refl refl
        (λ x c. (_, _, refl)) (λ _ _. Unit {0}) (λ x c h' hc _. sadd_by-constant env x c h' hc) l r
        same h (λ _ _. tt) (λ _ _. tt)
  simplify-returns Intrinsic.uadd_with_overflow l r same h _ =
      canonicalize_keeps operand_le env Intrinsic.uadd_with_overflow uadd_by
        (commutes env Intrinsic.uadd_with_overflow wadd_comm uadd_overflow_comm) refl refl
        (λ x c. (_, _, refl)) (λ _ _. Unit {0}) (λ x c h' hc _. uadd_by-constant env x c h' hc) l r
        same h (λ _ _. tt) (λ _ _. tt)
  simplify-returns Intrinsic.ssub_with_overflow l r same h (inr (c, e)) =
      ssub_right env l r c same h e
  simplify-returns Intrinsic.ssub_with_overflow l r same h (inl e) =
      elim (Option-cases (as_constant r)) [
        | inr (c, right) ↦ ssub_right env l r c same h right
        | inl right ↦ rw (right, e, simplify_ssub)
      ]
  simplify-returns Intrinsic.usub_with_overflow l r same h _ = usub_keeps is_constant env l r same
  simplify-returns Intrinsic.smul_with_overflow l r same h spare =
      canonicalize_keeps operand_le env Intrinsic.smul_with_overflow smul_by
        (commutes env Intrinsic.smul_with_overflow wmul_comm smul_overflow_comm) refl refl
        (λ x c. (_, _, refl)) (λ x c. c ≢ umax (width x))
        (λ x c h' hc ne. smul_by-constant env x c h' hc ne) l r same h
        (λ c e ne. spare.1 (e ∙ ap some (ne ∙ ap umax (sym same))))
        (λ c e ne. spare.0 (e ∙ ap some (ne ∙ ap umax same)))
  simplify-returns Intrinsic.umul_with_overflow l r same h _ =
      canonicalize_keeps operand_le env Intrinsic.umul_with_overflow umul_by
        (commutes env Intrinsic.umul_with_overflow wmul_comm umul_overflow_comm) refl refl
        (λ x c. (_, _, refl)) (λ _ _. Unit {0}) (λ x c h' hc _. umul_by-constant env x c h' hc) l r
        same h (λ _ _. tt) (λ _ _. tt)

ssub_left_zero :
    (env : Env) (l r : Value) (c : ℕ)
    → 0 < width l
    → as_constant l ≡ some c
    → as_constant r ≡ none
    → IsWord (width l) c
    → eval env l ≡ c
    → (returns_after env Intrinsic.ssub_with_overflow l r (simplify_ssub l r)).1 ≡ 0
unfolding simplify_ssub eval
ssub_left_zero env l r c h el er hc value =
    let never = ssub_left_never (width l) c h hc in
    let low = wsub-mod (width l) c (smin (width l)) in
    let high = wsub-mod (width l) c (smax (width l)) in
    elim (Bool-cases (is_negative (width l) c)) [
      | inl e ↦ rw (er, el, simplify_ssub) (rw e (rw (low, value, rw e at never)))
      | inr e ↦ rw (er, el, simplify_ssub) (rw e (rw (high, value, rw e at never)))
    ]

smul_minus_one_bit :
    (operand_le : Value → Value → Bool) (env : Env) (l r : Value)
    → 1 < width l
    → as_constant r ≡ some (umax (width l))
    → (returns_after env Intrinsic.smul_with_overflow l r (smul_by (canonicalize operand_le l r))).1
      ≡ 1
unfolding canonicalize smul_by eval
smul_minus_one_bit operand_le env l r h e =
    let n = width l in
    let half = pow-half n (omega arith) in
    let quotient = λ (b : ℕ) (hb : IsWord n b).
      mod_small (wsdiv n b (umax n)) (2 ^ n) (wsdiv-lt n b (umax n) (omega arith) hb) in
    let high = quotient (smax n) (omega (arith, pow_pos n)) in
    let low = quotient (smin n) (omega (arith, pow_pos n)) in
    let big = smin-gt-one n h in
    let zero : (umax n == 0) ≡ false = ground arith in
    let negative : is_negative n (umax n) ≡ true = ground arith in
    rw (e, canonicalize)
      (rw (zero, negative)
        (rw (high, low, bit_or-bit, smul_minus_one_always n (eval env l) h (eval-lt env l))))

-- Defect: for a constant C on the left that is not negative, C - x overflows at x = SMIN, and the
-- rewritten overflow bit is 0 there; it is 0 whatever x is.
pub ssub_left-misses :
    (is_constant : Value → Bool) (operand_le : Value → Value → Bool) (env : Env) (l r : Value)
    (c : ℕ)
    → width r ≡ width l
    → 0 < width l
    → as_constant l ≡ some c
    → as_constant r ≡ none
    → c < smin (width l)
    → eval env r ≡ smin (width l)
    → ((returns env Intrinsic.ssub_with_overflow l r).1 ≡ 1)
      × ((any : Env)
          → (returns_after any Intrinsic.ssub_with_overflow l r
              (simplify is_constant operand_le Intrinsic.ssub_with_overflow l r)).1
            ≡ 0)
unfolding simplify eval
ssub_left-misses is_constant operand_le env l r c same h el er small least = (
  rw (least, eval-as_constant env l el, ssub_overflow_least (width l) c h small),
  λ any.
      let value = eval-as_constant any l el in
      let hc : IsWord (width l) c = rw (← value) (eval-lt any l) in
      ssub_left_zero any l r c h el er hc value,
)

-- Defect: for a constant -1 the rewritten overflow bit of x * -1 is 1 whatever x is, though the
-- product overflows at x = SMIN alone.
pub smul_minus_one-overreports :
    (is_constant : Value → Bool) (operand_le : Value → Value → Bool) (env : Env) (l r : Value)
    → width r ≡ width l
    → 1 < width l
    → as_constant r ≡ some (umax (width l))
    → ((returns_after env Intrinsic.smul_with_overflow l r
          (simplify is_constant operand_le Intrinsic.smul_with_overflow l r)).1
        ≡ 1)
      × ((returns env Intrinsic.smul_with_overflow l r).1 ≡ bit (eval env l == smin (width l)))
unfolding simplify eval
smul_minus_one-overreports is_constant operand_le env l r same h e =
    let value = eval-as_constant env r e in
    (
      smul_minus_one_bit operand_le env l r h e,
      rw (value, smul_overflow_minus_one (width l) (eval env l) h (eval-lt env l)),
    )
