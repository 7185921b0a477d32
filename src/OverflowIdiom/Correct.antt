-- ===== src/OverflowIdiom/Correct.antt =====
-- src/OverflowIdiom.cc: a comparison and what replaces it have the same value.
use kint_test.Base.{
  ℕ, ◌+◌, ◌/◌, ◌%◌, ◌^◌, ◌<◌, ◌≡◌, ◌≢◌, ◌⊎◌, inl, inr, refl, sym, ◌∙◌, ap, Bool, true, ◌&&◌, ◌||◌,
  not, bit, ◌==◌, ltb, Bool-cases, Option-cases, arith,
}
use kint_test.Word.{umax, IsWord, mod_small}
use kint_test.Ir.{
  Value, const, binary, icmp, BinaryOp, Predicate, width, as_constant, WellTyped, Env, eval,
  width-pos, bit_xor-one, compares,
}
use kint_test.OverflowIdiom.Pass.{
  get_swapped_predicate, get_inverse_predicate, is_power_of_2, Match, unmatched, failed, replaced,
  match_quotient, match_cmp, count_trailing_ones, match_cmp_with_inverse,
  match_cmp_with_swapped_and_inverse,
}
use kint_test.OverflowIdiom.Values.{
  is_mask, eval-match_quotient, match_quotient-mask, replaced_injective, Safe, quotient_case,
  product_case, compares_inverse, compares_swapped, not-not,
}

operands :
    (same : Value → Value → Bool)
    → ((a b : Value) → same a b ≡ true → a ≡ b)
    → (a b x y : Value) → ((same a x && same b y) || (same a y && same b x)) ≡ true
    → (a ≡ x) × (b ≡ y) ⊎ (a ≡ y) × (b ≡ x)
operands same sound a b x y h = ground (arith, sound a x, sound b y, sound a y, sound b x)

inverted :
    (env : Env) (pred : Predicate) (l r u : Value)
    → width u ≡ 1
    → eval env u ≡ eval env (icmp (get_inverse_predicate pred) l r)
    → eval env (binary BinaryOp.xor_ u (const 1 1)) ≡ eval env (icmp pred l r)
unfolding eval
inverted env pred l r u u_bit h =
    rw (h, compares_inverse (width l) pred (eval env l) (eval env r), u_bit)
      (bit_xor-one (not (compares (width l) pred (eval env l) (eval env r))) ∙ ap bit (not-not _))

turned :
    (env : Env) (pred : Predicate) (l r : Value)
    → width r ≡ width l
    → eval env (icmp (get_swapped_predicate pred) r l) ≡ eval env (icmp pred l r)
unfolding eval
turned env pred l r h = rw (h, compares_swapped (width l) pred (eval env l) (eval env r))

unmatched≢replaced : {v : Value} → unmatched ≡ replaced v → ⊥
unmatched≢replaced h = cc

failed≢replaced : {v : Value} → failed ≡ replaced v → ⊥
failed≢replaced h = cc

Match-cases : (r : Match) → (r ≡ unmatched) ⊎ (r ≡ failed) ⊎ ((v : Value) × (r ≡ replaced v))
Match-cases unmatched = inl refl
Match-cases failed = inr (inl refl)
Match-cases (replaced v) = inr (inr (v, refl))

match_quotient-width :
    (x y : Value) (c : ℕ) (v : Value) → match_quotient x y c ≡ replaced v → width v ≡ 1
unfolding match_quotient
match_quotient-width x y c v h = elim (Bool-cases (c == umax (width x))) [
  | inl e ↦ ap width (sym (replaced_injective (rw (e, match_quotient) at h)))
  | inr e ↦ elim (Bool-cases (is_power_of_2 (width x) (c + 1))) [
    | inl p ↦ elim (Bool-cases (count_trailing_ones (width x) c == 0)) [
      | inl no_bits ↦ absurd (failed≢replaced (rw (e, p, no_bits, match_quotient) at h))
      | inr bits ↦ ap width (sym (replaced_injective (rw (e, p, bits, match_quotient) at h)))
    ]
    | inr p ↦ ap width (sym (replaced_injective (rw (e, p, match_quotient) at h)))
  ]
]

match_cmp-width :
    (same : Value → Value → Bool) (pred : Predicate) (l r v : Value)
    → match_cmp same pred l r ≡ replaced v
    → width v ≡ 1
unfolding match_cmp
match_cmp-width same Predicate.icmp_ne x (binary BinaryOp.udiv (binary BinaryOp.mul a b) y) v h =
    elim (Bool-cases ((same a x && same b y) || (same a y && same b x))) [
      | inl e ↦ ap width (sym (replaced_injective (rw (e, match_cmp) at h)))
      | inr e ↦ absurd (unmatched≢replaced (rw (e, match_cmp) at h))
    ]
match_cmp-width same Predicate.icmp_ugt x (binary BinaryOp.udiv d y) v h =
    elim (Option-cases (as_constant d)) [
      | inl e ↦ absurd (unmatched≢replaced (rw (e, match_cmp) at h))
      | inr (c, e) ↦ match_quotient-width x y c v (rw (e, match_cmp) at h)
    ]
match_cmp-width same _ l r v h = cc

bit_or-true : (p : Bool) → bit (p || true) ≡ 1
bit_or-true p = ground arith

never_above :
    (env : Env) (x q : Value) → eval env x ≡ 0 → eval env (icmp Predicate.icmp_ugt x q) ≡ 0
unfolding eval
never_above env x q h = rw h (ground arith)

module _ (same : Value → Value → Bool) (same_sound : (a b : Value) → same a b ≡ true → a ≡ b)
    (env : Env) where
  match_cmp_sound :
      (pred : Predicate) (l r v : Value)
      → match_cmp same pred l r ≡ replaced v
      → WellTyped (icmp pred l r)
      → Safe env l r
      → eval env v ≡ eval env (icmp pred l r)
  unfolding match_cmp
  match_cmp_sound Predicate.icmp_ne x (binary BinaryOp.udiv (binary BinaryOp.mul a b) y) v h typed
        safe =
      elim (Bool-cases ((same a x && same b y) || (same a y && same b x))) [
        | inl e ↦
            ap (eval env) (sym (replaced_injective (rw (e, match_cmp) at h)))
            ∙ product_case env x a b y (operands same same_sound a b x y e) typed safe
        | inr e ↦ absurd (unmatched≢replaced (rw (e, match_cmp) at h))
      ]
  match_cmp_sound Predicate.icmp_ugt x (binary BinaryOp.udiv d y) v h typed safe =
      elim (Option-cases (as_constant d)) [
        | inl e ↦ absurd (unmatched≢replaced (rw (e, match_cmp) at h))
        | inr (c, e) ↦ quotient_case env x d y c e v (rw (e, match_cmp) at h) typed safe
      ]
  match_cmp_sound _ l r v h typed safe = cc

  with_inverse_sound :
      (pred : Predicate) (l r v : Value)
      → match_cmp_with_inverse same pred l r ≡ replaced v
      → WellTyped (icmp pred l r)
      → Safe env l r
      → eval env v ≡ eval env (icmp pred l r)
  unfolding match_cmp_with_inverse
  with_inverse_sound pred l r v h typed safe = elim (Match-cases (match_cmp same pred l r)) [
    | inr (inl e) ↦ absurd (failed≢replaced (rw (e, match_cmp_with_inverse) at h))
    | inr (inr (u, e)) ↦
        match_cmp_sound pred l r v (e ∙ (rw (e, match_cmp_with_inverse) at h)) typed safe
    | inl e ↦ elim (Match-cases (match_cmp same (get_inverse_predicate pred) l r)) [
      | inr (inl e') ↦ absurd (failed≢replaced (rw (e, e', match_cmp_with_inverse) at h))
      | inl e' ↦ absurd (unmatched≢replaced (rw (e, e', match_cmp_with_inverse) at h))
      | inr (inr (u, e')) ↦
          ap (eval env) (sym (replaced_injective (rw (e, e', match_cmp_with_inverse) at h)))
          ∙ inverted env pred l r u (match_cmp-width same (get_inverse_predicate pred) l r u e')
              (match_cmp_sound (get_inverse_predicate pred) l r u e' typed safe)
    ]
  ]

  -- What the pass puts in place of a well-typed comparison of integers has the comparison's value,
  -- whatever the predicate and on whichever side the quotient stands, if operands that are one
  -- object are equal, no divisor of a quotient that is compared is 0 and, for a constant C other
  -- than the largest and 0 with C + 1 a power of two, the comparison is not of 0 with C / y for a y
  -- that exceeds C. For C = 0 nothing takes its place, since an assertion of LLVM fails.
  pub match_cmp-eval :
      (pred : Predicate) (l r v : Value)
      → match_cmp_with_swapped_and_inverse same pred l r ≡ replaced v
      → WellTyped (icmp pred l r)
      → Safe env l r
      → Safe env r l
      → eval env v ≡ eval env (icmp pred l r)
  unfolding match_cmp_with_swapped_and_inverse
  match_cmp-eval pred l r v h typed safe safe' =
      elim (Match-cases (match_cmp_with_inverse same pred l r)) [
        | inr (inl e) ↦ absurd (failed≢replaced (rw (e, match_cmp_with_swapped_and_inverse) at h))
        | inr (inr (u, e)) ↦
            with_inverse_sound pred l r v (e ∙ (rw (e, match_cmp_with_swapped_and_inverse) at h))
              typed safe
        | inl e ↦
            with_inverse_sound (get_swapped_predicate pred) r l v
              (rw (e, match_cmp_with_swapped_and_inverse) at h) (typed.1, typed.0, sym typed.2)
              safe'
            ∙ turned env pred l r typed.2
      ]

-- Defect: for a mask C that is neither 0 nor the largest constant, `0 >u C /u y` is false and what
-- the pass puts in its place is true, for every y that exceeds C.
pub mask_idiom-wrong :
    (same : Value → Value → Bool) (env : Env) (x y : Value) (c : ℕ)
    → WellTyped (icmp Predicate.icmp_ugt x (binary BinaryOp.udiv (const (width x) c) y))
    → IsWord (width x) c
    → is_mask (width x) c ≡ true
    → eval env x ≡ 0
    → c < eval env y
    → (v : Value) × (match_cmp_with_swapped_and_inverse same Predicate.icmp_ugt x
          (binary BinaryOp.udiv (const (width x) c) y)
        ≡ replaced v)
      × (eval env v ≡ 1)
      × (eval env (icmp Predicate.icmp_ugt x (binary BinaryOp.udiv (const (width x) c) y)) ≡ 0)
unfolding match_cmp_with_swapped_and_inverse match_cmp_with_inverse match_cmp
mask_idiom-wrong same env x y c typed hc mask zero_x above =
    let value : c % 2 ^ width x ≡ c = mod_small c (2 ^ width x) hc in
    let divides : eval env y ≢ 0 = omega arith in
    let (v, found) = match_quotient-mask x y c mask in
    let found' : match_quotient x y (c % 2 ^ width x) ≡ replaced v = rw value found in
    let test = eval-match_quotient env x y c (width-pos x typed.0) (typed.1.2) hc divides v found in
    let above_test : ltb c (eval env y) ≡ true = ground arith in
    (
      v,
      rw (match_cmp_with_swapped_and_inverse, match_cmp_with_inverse, match_cmp, found') refl,
      (rw (mask, above_test) at test) ∙ bit_or-true (ltb (c / eval env y) (eval env x)),
      never_above env x (binary BinaryOp.udiv (const (width x) c) y) zero_x,
    )
