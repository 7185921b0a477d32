-- ===== src/OverflowIdiom/Values.antt =====
-- src/OverflowIdiom.cc: the values of what the two patterns build.
use Prim.Native.Nat.{bit_or}
use kint_test.Base.{
  refl, zero, suc, ℕ, ◌+◌, ◌*◌, ◌/◌, ◌%◌, ◌^◌, ◌<◌, ◌≡◌, ◌≢◌, ◌⊎◌, inl, inr, sym, ◌∙◌, ap, Bool,
  true, false, ◌&&◌, ◌||◌, not, bit, ◌==◌, ltb, if◌then◌else◌, Bool-cases, some, arith,
}
use native.Mathlib.Nat.{div-le_self, div-eq_of_lt, two-pow-succ}
use kint_test.Word.{
  umax, IsWord, pow_pos, mod_small, wmul, wmul-mod, wmul-lt, wmul_comm, umul_overflow,
}
use kint_test.Ir.{
  Value, const, binary, icmp, overflow, BinaryOp, Predicate, Intrinsic, width, as_constant,
  WellTyped, Env, eval, eval-lt, width-pos, bit_or-bit, compares,
}
use kint_test.OverflowIdiom.Pass.{
  get_swapped_predicate, get_inverse_predicate, is_power_of_2, failed, replaced, match_quotient,
  count_trailing_ones,
}
use kint_test.OverflowIdiom.Masks.{
  is_power_of_2_sound, count_trailing_ones-mask, quotient-ltb, mask_test, pow_square,
  wrapped_quotient,
}

pub compares_inverse :
    (n : ℕ) (p : Predicate) (a b : ℕ)
    → compares n (get_inverse_predicate p) a b ≡ not (compares n p a b)
unfolding get_inverse_predicate
compares_inverse n p a b = ground arith

pub compares_swapped :
    (n : ℕ) (p : Predicate) (a b : ℕ) → compares n (get_swapped_predicate p) b a ≡ compares n p a b
unfolding get_swapped_predicate
compares_swapped n p a b = ground arith

-- Where C + 1 is a power of two, and C is neither 0 nor the largest constant, the second pattern
-- tests for more than the comparison does.
abbrev pub is_mask : ℕ → ℕ → Bool
is_mask n c = not (c == umax n) && is_power_of_2 n (c + 1) && not (c == 0)

below_square : (t m : ℕ) → t < m → t < m * m
below_square t m h = grind arith

product_below : (a b m : ℕ) → a < m → b < m → a * b < m * m
product_below a b m h k = grind arith

max_case :
    (n a b c : ℕ)
    → (c == umax n) ≡ true
    → IsWord n c
    → ltb (c / b) a ≡ ltb c (a * b)
    → bit (umul_overflow n a b)
      ≡ bit (ltb (c / b) a || (not true && is_power_of_2 n (c + 1) && not (c == 0) && ltb c b))
unfolding umul_overflow
max_case n a b c e h test = ground (arith, pow_pos n)

mask_case :
    (k c a b : ℕ)
    → c + 1 ≡ 2 ^ k
    → b ≢ 0
    → bit_or
          (bit_or (bit (ltb c a)) (bit (ltb c b)) % 2 ^ 1)
          (bit (umul_overflow k (a % 2 ^ k) (b % 2 ^ k)))
        % 2 ^ 1
      ≡ bit (ltb (c / b) a || true && ltb c b)
unfolding umul_overflow
mask_case k c a b e h = rw bit_or-bit (rw bit_or-bit (ap bit (mask_test k c a b e h)))

wide_case :
    (n a b c : ℕ)
    → IsWord n a
    → IsWord n b
    → IsWord n c
    → ltb (c / b) a ≡ ltb c (a * b)
    → bit (
        ltb
          (c % 2 ^ n % 2 ^ (n * 2))
          (wmul (n * 2) (a % 2 ^ (n * 2)) (b % 2 ^ (n * 2)) % 2 ^ (n * 2)))
      ≡ bit (ltb (c / b) a || false)
unfolding wmul
wide_case n a b c ha hb hc test =
    let square = pow_square n in
    let wide = λ (t : ℕ) (ht : IsWord n t).
      mod_small t (2 ^ (n * 2)) (rw square (below_square t (2 ^ n) ht)) in
    let product : a * b % 2 ^ (n * 2) ≡ a * b =
      mod_small (a * b) _ (rw square (product_below a b (2 ^ n) ha hb)) in
    rw (mod_small c (2 ^ n) hc, wide a ha, wide b hb)
      (rw (wide c hc, product) (rw product (rw test (ground arith))))

pow_above : (k : ℕ) → k ≢ 0 → 2 ^ k ≢ 1
pow_above zero h e = h refl
pow_above (suc k) h e = let half = two-pow-succ k in omega arith

failed≢replaced : {v : Value} → failed ≡ replaced v → ⊥
failed≢replaced h = cc

pub replaced_injective : {v w : Value} → replaced v ≡ replaced w → v ≡ w
replaced_injective h = cc

-- A mask that is not 0 has a trailing one.
some_ones : (n c : ℕ) → is_power_of_2 n (c + 1) ≡ true → (count_trailing_ones n c == 0) ≡ (c == 0)
some_ones n c p =
    let (k, lt, eq) = is_power_of_2_sound n (c + 1) p in
    let ones = count_trailing_ones-mask n k c (omega arith) eq in
    let one : k ≡ 0 → 2 ^ k ≡ 1 = λ e. rw e refl in
    let more : k ≢ 0 → 2 ^ k ≢ 1 = λ e. pow_above k e in rw ones (ground arith)

-- For a mask the second pattern gives a value.
pub match_quotient-mask :
    (x y : Value) (c : ℕ)
    → is_mask (width x) c ≡ true
    → (v : Value) × (match_quotient x y c ≡ replaced v)
unfolding match_quotient
match_quotient-mask x y c mask =
    let n = width x in
    let proper : (c == umax n) ≡ false = ground arith in
    let power : is_power_of_2 n (c + 1) ≡ true = ground arith in
    let some_bits : (count_trailing_ones n c == 0) ≡ false = some_ones n c power ∙ ground arith in
    rw (proper, power, some_bits) (_, refl)

module _ (env : Env) (x y : Value) (c : ℕ) (h : 0 < width x) (same : width y ≡ width x)
    (fits : IsWord (width x) c) (divides : eval env y ≢ 0) where
  -- The value of what the second pattern builds, for every constant.
  pub eval-match_quotient :
      (v : Value)
      → match_quotient x y c ≡ replaced v
      → eval env v
        ≡ bit (ltb (c / eval env y) (eval env x) || (is_mask (width x) c && ltb c (eval env y)))
  unfolding match_quotient eval
  eval-match_quotient v found =
      let n = width x in
      let a = eval env x in
      let b = eval env y in
      let test = quotient-ltb c a b divides in
      let ha = eval-lt env x in
      let hb : IsWord n b = rw (← same) (eval-lt env y) in
      let value : c % 2 ^ n ≡ c = mod_small c (2 ^ n) fits in
      elim (Bool-cases (c == umax n)) [
        | inl e ↦
            ap (eval env) (sym (replaced_injective (rw (e, match_quotient) at found)))
            ∙ rw e (max_case n a b c e fits test)
        | inr e ↦ elim (Bool-cases (is_power_of_2 n (c + 1))) [
          | inl p ↦
              let (k, lt, eq) = is_power_of_2_sound n (c + 1) p in
              let ones = count_trailing_ones-mask n k c (omega arith) eq in
              elim (Bool-cases (count_trailing_ones n c == 0)) [
                | inl no_bits ↦
                    absurd (failed≢replaced (rw (e, p, no_bits, match_quotient) at found))
                | inr bits ↦
                    let nonzero : (c == 0) ≡ false = sym (some_ones n c p) ∙ bits in
                    ap (eval env)
                      (sym (replaced_injective (rw (e, p, bits, match_quotient) at found)))
                    ∙ rw (e, p, nonzero) (rw (value, ones) (mask_case k c a b eq divides))
              ]
          | inr p ↦
              ap (eval env) (sym (replaced_injective (rw (e, p, match_quotient) at found)))
              ∙ rw (e, p) (wide_case n a b c ha hb fits test)
        ]
      ]

-- What the rewrites rest on: no division by zero, and for a mask C no comparison of 0 with a
-- quotient whose divisor exceeds C.
abbrev pub Safe : Env → Value → Value → Type 0
Safe env x (binary BinaryOp.udiv (const w c) y) =
    (eval env y ≢ 0)
    × ((is_mask (width x) (c % 2 ^ w) && ltb (c % 2 ^ w) (eval env y) && (eval env x == 0)) ≡ false)
Safe env x (binary BinaryOp.udiv d y) = eval env y ≢ 0
Safe env x _ = Unit

mask_spared :
    (mask : Bool) (c b a : ℕ)
    → b ≢ 0
    → (mask && ltb c b && (a == 0)) ≡ false
    → (ltb (c / b) a || (mask && ltb c b)) ≡ ltb (c / b) a
mask_spared true c b a h safe =
    let small : c < b → c / b ≡ 0 = div-eq_of_lt in ground (arith, small)
mask_spared false c b a h safe = ground arith

-- The second pattern, at a division that the hypotheses spare.
pub quotient_case :
    (env : Env) (x d y : Value) (c : ℕ)
    → as_constant d ≡ some c
    → (v : Value) → match_quotient x y c ≡ replaced v
    → WellTyped (icmp Predicate.icmp_ugt x (binary BinaryOp.udiv d y))
    → Safe env x (binary BinaryOp.udiv d y)
    → eval env v ≡ eval env (icmp Predicate.icmp_ugt x (binary BinaryOp.udiv d y))
unfolding eval
quotient_case env x (const w k) y c e v found typed safe =
    let n = width x in
    let a = eval env x in
    let b = eval env y in
    let value : k % 2 ^ w ≡ c = cc in
    let same_y : width y ≡ n = omega arith in
    let hc : IsWord n c = rw (← value, ← typed.2) (eval-lt env (const w k)) in
    let divides : eval env y ≢ 0 = safe.0 in
    let nonzero : (b == 0) ≡ false = ground arith in
    let quotient : c / b % 2 ^ w ≡ c / b =
      mod_small (c / b) (2 ^ w) (omega (arith, div-le_self c b, ap (λ t. 2 ^ t) typed.2)) in
    let zero_only = rw value at (safe.1) in
    eval-match_quotient env x y c (width-pos x typed.0) same_y hc divides v found
    ∙ rw (nonzero, value) (rw quotient (ap bit (mask_spared (is_mask n c) c b a divides zero_only)))
quotient_case env x _ y c e v found typed safe = cc

pub not-not : (p : Bool) → not (not p) ≡ p
not-not p = ground arith

product_test :
    (env : Env) (n a b : ℕ)
    → IsWord n a
    → IsWord n b
    → b ≢ 0
    → bit (umul_overflow n a b)
      ≡ bit (
          not (
            a
            == (if b == 0
                then env.undefined BinaryOp.udiv (wmul n a b % 2 ^ n) b
                else wmul n a b % 2 ^ n / b)
              % 2 ^ n))
unfolding umul_overflow
product_test env n a b ha hb h =
    let nonzero : (b == 0) ≡ false = ground arith in
    let once : wmul n a b % 2 ^ n ≡ wmul n a b = wmul-mod n a b in
    let small : wmul n a b / b % 2 ^ n ≡ wmul n a b / b =
      mod_small _ (2 ^ n) (omega (arith, div-le_self (wmul n a b) b, wmul-lt n a b)) in
    rw nonzero (rw once (rw (small, wrapped_quotient n a b ha hb h) (ap bit (sym (not-not _)))))

-- The first pattern.
pub product_case :
    (env : Env) (x a b y : Value)
    → (a ≡ x) × (b ≡ y) ⊎ (a ≡ y) × (b ≡ x)
    → WellTyped (icmp Predicate.icmp_ne x (binary BinaryOp.udiv (binary BinaryOp.mul a b) y))
    → eval env y ≢ 0
    → eval env (overflow Intrinsic.umul_with_overflow x y)
      ≡ eval env (icmp Predicate.icmp_ne x (binary BinaryOp.udiv (binary BinaryOp.mul a b) y))
unfolding eval
product_case env x a b y (inl (p, q)) typed h =
    let word_y : IsWord (width x) (eval env y) =
      omega (arith, eval-lt env y, ap (λ t. 2 ^ t) (typed.1.2 ∙ typed.2)) in
    rw (ap (eval env) p, ap (eval env) q, typed.2)
      (product_test env (width x) (eval env x) (eval env y) (eval-lt env x) word_y h)
product_case env x a b y (inr (p, q)) typed h =
    let word_y : IsWord (width x) (eval env y) =
      omega (arith, eval-lt env y, ap (λ t. 2 ^ t) (typed.1.2 ∙ typed.2)) in
    rw (ap (eval env) p, ap (eval env) q, typed.2, wmul_comm (width x) (eval env y) (eval env x))
      (product_test env (width x) (eval env x) (eval env y) (eval-lt env x) word_y h)
