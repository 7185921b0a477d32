-- ===== src/IdealShift/Meaning.antt =====
-- src/IdealShift.cc: the value of a rewritten shift.
use kint_test.Base.{
  ℕ, zero, suc, ◌+◌, ◌-◌, ◌*◌, ◌/◌, ◌%◌, ◌^◌, ◌<◌, ◌≤◌, ◌≡◌, inl, inr, sym, ap, ◌∙◌, Bool, true,
  bit, ◌==◌, ltb, leb, if◌then◌else◌, Bool-cases, none, some, arith,
}
use native.Mathlib.Nat.{
  zero-add, pow-zero, one-mul, two-pow-succ, pow-le-pow_right, mul_assoc, mul-mod_left, div-le_self,
  div-eq_of_lt, mod-mod,
}
use kint_test.Word.{is_negative, smin, IsWord, pow_pos, pow-half, mod_small, lt-two-pow}
use kint_test.Ir.{Value, binary, BinaryOp, width, WellTyped, Env, eval, eval-lt, width-pos, wsra}
use kint_test.IdealShift.Pass.{ideal_shift}

-- A shift over the integers, cut to n bits: bits that leave the word are lost, and an arithmetic
-- shift to the right fills with the sign however far it goes.
abbrev pub ideal : ℕ → BinaryOp → ℕ → ℕ → ℕ
ideal n BinaryOp.shl a b = a * 2 ^ b % 2 ^ n
ideal n BinaryOp.lshr a b = a / 2 ^ b
ideal n BinaryOp.ashr a b =
    if is_negative n a then 2 ^ n - 1 - (2 ^ n - 1 - a) / 2 ^ b else a / 2 ^ b
ideal n op a b = 0

none≢some : {v : Value} → none ≡ some v → ⊥
none≢some h = cc

some_injective : {v w : Value} → some v ≡ some w → v ≡ w
some_injective h = cc

-- The value of the select, from those of its parts.
abbrev selected : ℕ → ℕ → ℕ → ℕ → ℕ
selected n b ideal_part shift_part =
    (if bit (leb (n % 2 ^ n) b) == 0 then shift_part else ideal_part) % 2 ^ n

select_value :
    (n b i s t : ℕ) → (n ≤ b → i % 2 ^ n ≡ t) → (b < n → s % 2 ^ n ≡ t) → selected n b i s ≡ t
select_value n b i s t over under =
    rw (mod_small n (2 ^ n) (lt-two-pow n)) (ground (arith, over, under))

pow-add : (k n : ℕ) → 2 ^ (k + n) ≡ 2 ^ k * 2 ^ n
pow-add zero n = simp (zero-add, pow-zero, one-mul)
pow-add (suc k) n =
    let e : suc k + n ≡ suc (k + n) = omega arith in
    rw (e, two-pow-succ (k + n), two-pow-succ k) (omega (arith, pow-add k n))

shifted_out : (n a b : ℕ) → n ≤ b → a * 2 ^ b % 2 ^ n ≡ 0
shifted_out n a b h =
    let e : b ≡ (b - n) + n = omega arith in rw e (rw pow-add (rw (← mul_assoc) (mul-mod_left _ _)))

in_range : (n b s u : ℕ) → b < n → (if ltb b n then s else u) ≡ s
in_range n b s u h = ground arith

shl_value :
    (env : Env) (n a b : ℕ)
    → selected n b
        (0 % 2 ^ n)
        ((if ltb b n then a * 2 ^ b else env.undefined BinaryOp.shl a b) % 2 ^ n)
      ≡ a * 2 ^ b % 2 ^ n
shl_value env n a b =
    select_value n b _ _ _
      (λ h. mod-mod 0 (2 ^ n) ∙ mod_small 0 _ (pow_pos n) ∙ sym (shifted_out n a b h))
      (λ h. mod-mod _ (2 ^ n) ∙ ap (λ t. t % 2 ^ n) (in_range n b _ _ h))

below_pow : (n a b : ℕ) → IsWord n a → n ≤ b → a < 2 ^ b
below_pow n a b ha h = omega (arith, pow-le-pow_right {n = 2} (omega arith) h)

lshr_value :
    (env : Env) (n a b : ℕ)
    → IsWord n a
    → selected n b
        (0 % 2 ^ n)
        ((if ltb b n then a / 2 ^ b else env.undefined BinaryOp.lshr a b) % 2 ^ n)
      ≡ a / 2 ^ b
lshr_value env n a b ha =
    select_value n b _ _ _
      (λ h.
        mod-mod 0 (2 ^ n) ∙ mod_small 0 _ (pow_pos n) ∙ sym (div-eq_of_lt (below_pow n a b ha h)))
      (λ h.
        mod-mod _ (2 ^ n)
        ∙ ap (λ t. t % 2 ^ n) (in_range n b _ _ h)
        ∙ mod_small _ _ (omega (arith, div-le_self a (2 ^ b))))

wsra-lt : (n a b : ℕ) → IsWord n a → wsra n a b < 2 ^ n
wsra-lt n a b ha = ground (arith, div-le_self a (2 ^ b), pow_pos n)

-- From n - 1 on an arithmetic shift leaves the sign alone.
sign_only : (n a b : ℕ) → 0 < n → IsWord n a → n ≤ b → wsra n a (n - 1) ≡ wsra n a b
sign_only n a b h ha over =
    let half = pow-half n h in
    let near : smin n ≤ 2 ^ b = omega (arith, half, pow-le-pow_right {n = 2} (omega arith) over) in
    let zero_near : (t : ℕ) → t < smin n → t / smin n ≡ 0 = λ t q. div-eq_of_lt q in
    let zero_far : (t : ℕ) → t < smin n → t / 2 ^ b ≡ 0 = λ t q. div-eq_of_lt (omega arith) in
    ground
      (arith, half, zero_near a, zero_far a, zero_near (2 ^ n - 1 - a), zero_far (2 ^ n - 1 - a))

ashr_value :
    (env : Env) (n a b : ℕ)
    → 0 < n
    → IsWord n a
    → selected n b
        ((if ltb ((n - 1) % 2 ^ n) n
            then wsra n a ((n - 1) % 2 ^ n)
            else env.undefined BinaryOp.ashr a ((n - 1) % 2 ^ n))
          % 2 ^ n)
        ((if ltb b n then wsra n a b else env.undefined BinaryOp.ashr a b) % 2 ^ n)
      ≡ ideal n BinaryOp.ashr a b
ashr_value env n a b h ha =
    let amount : (n - 1) % 2 ^ n ≡ n - 1 = mod_small (n - 1) _ (omega (arith, lt-two-pow n)) in
    select_value n b _ _ _
      (λ over.
        mod-mod _ (2 ^ n)
        ∙ rw amount (
            ap (λ t. t % 2 ^ n) (in_range n (n - 1) _ _ (omega arith))
            ∙ mod_small _ _ (wsra-lt n a (n - 1) ha)
            ∙ sign_only n a b h ha over))
      (λ under.
        mod-mod _ (2 ^ n)
        ∙ ap (λ t. t % 2 ^ n) (in_range n b _ _ under)
        ∙ mod_small _ _ (wsra-lt n a b ha))

-- A shift that the pass rewrites has the result of the shift over the integers for every amount,
-- and no longer depends on what the machine does with amounts of the width or more.
pub eval-ideal_shift :
    (is_constant : Value → Bool) (env : Env) (op : BinaryOp) (l r v : Value)
    → WellTyped (binary op l r)
    → ideal_shift is_constant true op l r ≡ some v
    → eval env v ≡ ideal (width l) op (eval env l) (eval env r)
unfolding ideal_shift eval
eval-ideal_shift is_constant env BinaryOp.shl l r v typed h = elim (Bool-cases (is_constant r)) [
  | inl e ↦ absurd (none≢some (rw (e, ideal_shift) at h))
  | inr e ↦
      ap (eval env) (sym (some_injective (rw (e, ideal_shift) at h)))
      ∙ shl_value env (width l) (eval env l) (eval env r)
]
eval-ideal_shift is_constant env BinaryOp.lshr l r v typed h = elim (Bool-cases (is_constant r)) [
  | inl e ↦ absurd (none≢some (rw (e, ideal_shift) at h))
  | inr e ↦
      ap (eval env) (sym (some_injective (rw (e, ideal_shift) at h)))
      ∙ lshr_value env (width l) (eval env l) (eval env r) (eval-lt env l)
]
eval-ideal_shift is_constant env BinaryOp.ashr l r v typed h = elim (Bool-cases (is_constant r)) [
  | inl e ↦ absurd (none≢some (rw (e, ideal_shift) at h))
  | inr e ↦
      ap (eval env) (sym (some_injective (rw (e, ideal_shift) at h)))
      ∙ ashr_value env (width l) (eval env l) (eval env r) (width-pos l typed.0) (eval-lt env l)
]
eval-ideal_shift is_constant env _ l r v typed h = cc
