-- ===== src/Word/Products.antt =====
-- Overflow of products by a constant: the division tests that stand for it.
use kint_test.Base.{
  ℕ, false, true, ◌+◌, ◌-◌, ◌*◌, ◌/◌, ◌%◌, ◌^◌, ◌<◌, ◌≤◌, ◌≡◌, ◌↔◌, ltb, arith, if◌then◌else◌, ◌||◌,
  ap, ap₂, ◌==◌,
}
use native.Mathlib.Nat.{mod-lt, pow-le-pow_right, div-lt_iff_lt-mul, div-le_self, mod_self}
use kint_test.Word.Defs.{umax, smin, smax, IsWord, wneg, magnitude, wsdiv, wslt}
use kint_test.Word.Signed.{umul_overflow, smul_overflow}
use kint_test.Word.Laws.{pow_pos, pow-half, mod_small}

pub umul_overflow_constant : (n x c : ℕ) → 0 < c → umul_overflow n x c ≡ ltb (umax n / c) x
unfolding umul_overflow
umul_overflow_constant n x c hc =
    ground (arith, div-lt_iff_lt-mul {k = c} {x = umax n} {y = x} hc, pow_pos n)

pub umul_overflow_comm : (n a b : ℕ) → umul_overflow n a b ≡ umul_overflow n b a
unfolding umul_overflow
umul_overflow_comm n a b = ground arith

pub smul_overflow_comm : (n a b : ℕ) → smul_overflow n a b ≡ smul_overflow n b a
unfolding smul_overflow
smul_overflow_comm n a b = ground arith

pub div_lt : (k a x : ℕ) → 0 < k → (a / k < x) ↔ (a < x * k)
div_lt k a x h = div-lt_iff_lt-mul h

div_le : (k a b : ℕ) → 0 < k → (a / k ≤ b) ↔ (a < (b + 1) * k)
div_le k a b h =
    let iff = div_lt k a (b + 1) h in (λ q. iff.0 (omega arith), λ q. omega (arith, iff.1 q))

pub lt_scaled : (a k : ℕ) → 0 < a → 1 < k → a < a * k
lt_scaled a k h hk = grind arith

-- The quotients by a positive constant.
module _ (n c : ℕ) (h : 0 < n) (pc : 0 < c) (hc : c < smin n) where
  smax-div : wsdiv n (smax n) c ≡ smax n / c
  unfolding wsdiv
  smax-div = ground (arith, pow-half n h)

  smin-div : (wsdiv n (smin n) c ≡ 2 ^ n - smin n / c) × (0 < smin n / c) × (smin n / c ≤ smin n)
  unfolding wsdiv wneg
  smin-div =
      let some_part : 0 < smin n / c = ground (arith, div_le c (smin n) 0 pc) in
      let part : smin n / c ≤ smin n = div-le_self (smin n) c in
      let half = pow-half n h in
      let small = mod_small (2 ^ n - smin n / c) (2 ^ n) in
      let same : 2 ^ n - smin n ≡ smin n = omega (arith, half) in
      (ground (arith, small, ap (λ t. t / c) same), some_part, part)

  pub smul_overflow_positive :
      (x : ℕ)
      → IsWord n x
      → smul_overflow n x c ≡ (wslt n (wsdiv n (smax n) c) x || wslt n x (wsdiv n (smin n) c))
  unfolding smul_overflow wslt
  smul_overflow_positive x hx =
      let (low, _, _) = smin-div in
      let half = pow-half n h in
      let high = smax-div in
      let part : smax n / c ≤ smax n = div-le_self (smax n) c in
      rw (low, high)
        (ground (
          arith,
          smin-div.1,
          smin-div.2,
          half,
          part,
          div_lt c (smax n) x pc,
          div_lt c (smin n) (2 ^ n - x) pc,
        ))

-- The quotients by a negative constant other than -1.
module _ (n c : ℕ) (h : 0 < n) (hc : smin n ≤ c) (ne : c < umax n) where
  smin-div_neg : (wsdiv n (smin n) c ≡ smin n / (2 ^ n - c)) × (smin n / (2 ^ n - c) < smin n)
  unfolding wsdiv
  smin-div_neg =
      let half = pow-half n h in
      let same : 2 ^ n - smin n ≡ smin n = omega (arith, half) in
      (
        ground (arith, ap (λ t. t / (2 ^ n - c)) same),
        ground (
          arith,
          half,
          pow_pos n,
          div_lt (2 ^ n - c) (smin n) (smin n),
          lt_scaled (smin n) (2 ^ n - c),
        ),
      )

  smax-div_neg :
      (wsdiv n (smax n) c ≡ (if smax n / (2 ^ n - c) == 0 then 0 else 2 ^ n - smax n / (2 ^ n - c)))
      × (smax n / (2 ^ n - c) ≤ smax n)
  unfolding wsdiv wneg
  smax-div_neg =
      let half = pow-half n h in
      let part : smax n / (2 ^ n - c) ≤ smax n = div-le_self (smax n) (2 ^ n - c) in
      let small = mod_small (2 ^ n - smax n / (2 ^ n - c)) (2 ^ n) in
      (ground (arith, half, small, mod_self (2 ^ n)), part)

  pub smul_overflow_negative :
      (x : ℕ)
      → IsWord n x
      → IsWord n c
      → smul_overflow n x c ≡ (wslt n x (wsdiv n (smax n) c) || wslt n (wsdiv n (smin n) c) x)
  unfolding smul_overflow wslt
  smul_overflow_negative x hx fit =
      let half = pow-half n h in
      rw (smax-div_neg.0, smin-div_neg.0)
        (ground (
          arith,
          smin-div_neg.1,
          smax-div_neg.1,
          half,
          div_lt (2 ^ n - c) (smax n) (2 ^ n - x),
          div_lt (2 ^ n - c) (smin n) x,
        ))

minus_one_quotients :
    (n : ℕ)
    → 0 < n
    → (wsdiv n (smax n) (umax n) ≡ (2 ^ n - smax n) % 2 ^ n) × (wsdiv n (smin n) (umax n) ≡ smin n)
unfolding wsdiv wneg
minus_one_quotients n h =
    let half = pow-half n h in
    let one : 2 ^ n - umax n ≡ 1 = omega (arith, pow_pos n) in
    let same : 2 ^ n - smin n ≡ smin n = omega (arith, half) in
    (
      ground (arith, half, pow_pos n, ap (λ t. smax n / t) one),
      ground (arith, half, pow_pos n, ap₂ (λ t u. t / u) same one),
    )

pub smin-gt-one : (n : ℕ) → 1 < n → 1 < smin n
smin-gt-one n h = pow-le-pow_right {n = 2} (omega arith) {i = 1} {j = n - 1} (omega arith)

-- SMIN / -1 wraps to SMIN, so the tests for the constant -1 hold of every x.
pub smul_minus_one_always :
    (n x : ℕ)
    → 1 < n
    → IsWord n x
    → (wslt n x (wsdiv n (smax n) (umax n)) || wslt n (wsdiv n (smin n) (umax n)) x) ≡ true
unfolding wslt
smul_minus_one_always n x h hx =
    let half = pow-half n (omega arith) in
    let (high, low) = minus_one_quotients n (omega arith) in
    let big : 1 < smin n = smin-gt-one n h in
    let small = mod_small (2 ^ n - smax n) (2 ^ n) in
    rw (high, low) (ground (arith, half, big, small))

pub wsdiv-lt : (n a b : ℕ) → 0 < n → IsWord n a → wsdiv n a b < 2 ^ n
unfolding wsdiv wneg
wsdiv-lt n a b h ha =
    let half = pow-half n h in
    let by_magnitude = div-le_self (magnitude n a) (magnitude n b) in
    let mod_lt = λ (t : ℕ). mod-lt (2 ^ n - t) (pow_pos n) in
    ground (
      arith,
      half,
      pow_pos n,
      by_magnitude,
      mod_lt (magnitude n a / b),
      mod_lt (a / magnitude n b),
      div-le_self a b,
    )

pub umul_overflow_zero : (n x : ℕ) → umul_overflow n x 0 ≡ false
unfolding umul_overflow
umul_overflow_zero n x = ground (arith, pow_pos n)

pub smul_overflow_zero : (n x : ℕ) → 0 < n → smul_overflow n x 0 ≡ false
unfolding smul_overflow
smul_overflow_zero n x h = ground (arith, pow_pos n, pow-half n h)

pub umax-div-lt : (n c : ℕ) → umax n / c < 2 ^ n
umax-div-lt n c = omega (arith, div-le_self (umax n) c, pow_pos n)

pub smul_overflow_minus_one :
    (n x : ℕ) → 1 < n → IsWord n x → smul_overflow n x (umax n) ≡ (x == smin n)
unfolding smul_overflow
smul_overflow_minus_one n x h hx =
    let half = pow-half n (omega arith) in
    let big : 1 < smin n = smin-gt-one n h in
    let one : 2 ^ n - umax n - 1 ≡ 0 = omega (arith, half) in rw one (ground (arith, half, big))
