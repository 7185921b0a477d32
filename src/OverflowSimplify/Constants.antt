-- ===== src/OverflowSimplify/Constants.antt =====
-- src/OverflowSimplify.cc: the rewrites of a value and a constant, intrinsic by intrinsic.
use kint_test.Base.{
  ℕ, ◌<◌, ◌^◌, ◌%◌, ◌/◌, ◌≡◌, ◌≢◌, sym, ap, ◌∙◌, inl, inr, bit, ◌==◌, ==_iff, Bool-cases, arith,
}
use kint_test.Word.{
  umax, smin, smax, is_negative, wmul, wsdiv, umul_overflow, smul_overflow, mod_small, pow_pos,
  sadd_overflow_constant, IsWord, uadd_overflow_constant, ssub_overflow_constant,
  umul_overflow_constant, smul_overflow_positive, smul_overflow_negative, wadd-mod, wsub-mod,
  umax-div-lt, umul_overflow_zero, smul_overflow_zero, pow-half, wsdiv-lt,
}
use kint_test.Ir.{Value, const, result, overflow, Intrinsic, width, Env, eval, eval-lt, bit_or-bit}
use kint_test.OverflowSimplify.Pass.{
  constant, Outcome, unchanged, swapped_operands, replaced, sadd_by, uadd_by, smul_by, umul_by,
  simplify_ssub,
}

-- The two components of the intrinsic's result.
abbrev pub returns : Env → Intrinsic → Value → Value → ℕ × ℕ
returns env k l r = (eval env (result k l r), eval env (overflow k l r))

-- What the users of the call see afterwards.
abbrev pub returns_after : Env → Intrinsic → Value → Value → Outcome → ℕ × ℕ
returns_after env k l r unchanged = returns env k l r
returns_after env k l r swapped_operands = returns env k r l
returns_after env k l r (replaced res cmp) = (eval env res, eval env cmp)

-- The operands as `canonicalize` presents them.
module _ (env : Env) (x : Value) (c : ℕ) (h : 0 < width x) (hc : IsWord (width x) c) where
  abbrev pub n : ℕ
  n = width x

  abbrev pub a : ℕ
  a = eval env x

  abbrev pub Keeps : Intrinsic → Outcome → Type 0
  Keeps k o = returns_after env k x (const n c) o ≡ returns env k x (const n c)

  const_value : c % 2 ^ n ≡ c
  const_value = mod_small c (2 ^ n) hc

  pub sadd_by-constant : Keeps Intrinsic.sadd_with_overflow (sadd_by (constant x c))
  unfolding sadd_by eval
  sadd_by-constant =
      let flag = sadd_overflow_constant n a c h (eval-lt env x) hc in
      let low = wsub-mod n (smin n) c in
      let high = wsub-mod n (smax n) c in
      elim (Bool-cases (is_negative n c)) [
        | inl e ↦ rw (const_value, flag, e) (rw low)
        | inr e ↦ rw (const_value, flag, e) (rw high)
      ]

  pub uadd_by-constant : Keeps Intrinsic.uadd_with_overflow (uadd_by (constant x c))
  unfolding uadd_by eval
  uadd_by-constant =
      rw (const_value, uadd_overflow_constant n a c (eval-lt env x) hc) (rw (wsub-mod n (umax n) c))

  pub ssub-constant : Keeps Intrinsic.ssub_with_overflow (simplify_ssub x (const n c))
  unfolding simplify_ssub eval
  ssub-constant =
      let flag = ssub_overflow_constant n a c h (eval-lt env x) hc in
      let low = wadd-mod n (smin n) c in
      let high = wadd-mod n (smax n) c in
      elim (Bool-cases (is_negative n c)) [
        | inl e ↦ rw (const_value, flag, e) (rw high)
        | inr e ↦ rw (const_value, flag, e) (rw low)
      ]

  pub umul_by-constant : Keeps Intrinsic.umul_with_overflow (umul_by (constant x c))
  unfolding umul_by eval
  umul_by-constant = elim (Bool-cases (c == 0)) [
    | inl e ↦
        let zero_c = (==_iff c 0).0 e in
        rw (const_value, e)
          (ap (λ t. (wmul n a c % 2 ^ n, bit t))
            (sym (ap (umul_overflow n a) zero_c ∙ umul_overflow_zero n a)))
    | inr e ↦
        rw (const_value, e)
          (rw (
            umul_overflow_constant n a c (ground arith),
            mod_small (umax n / c) (2 ^ n) (umax-div-lt n c),
          ))
  ]

  pub smul_by-constant : c ≢ umax n → Keeps Intrinsic.smul_with_overflow (smul_by (constant x c))
  unfolding smul_by eval
  smul_by-constant ne =
      let pos_bits = pow_pos n in
      let half = pow-half n h in
      let quotient =
        λ (b : ℕ) (hb : IsWord n b). mod_small (wsdiv n b c) (2 ^ n) (wsdiv-lt n b c h hb) in
      let high = quotient (smax n) (omega arith) in
      let low = quotient (smin n) (omega arith) in
      elim (Bool-cases (c == 0)) [
        | inl e ↦
            let zero_c = (==_iff c 0).0 e in
            rw (const_value, e)
              (ap (λ t. (wmul n a c % 2 ^ n, bit t))
                (sym (ap (smul_overflow n a) zero_c ∙ smul_overflow_zero n a h)))
        | inr e ↦ elim (Bool-cases (is_negative n c)) [
          | inl negative ↦
              let flag =
                smul_overflow_negative n c h (ground arith) (ground arith) a (eval-lt env x) hc in
              rw (const_value, e, negative) (rw (high, low, bit_or-bit, flag))
          | inr positive ↦
              let flag =
                smul_overflow_positive n c h (ground arith) (ground arith) a (eval-lt env x) in
              rw (const_value, e, positive) (rw (high, low, bit_or-bit, flag))
        ]
      ]
