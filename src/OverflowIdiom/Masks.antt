-- ===== src/OverflowIdiom/Masks.antt =====
-- src/OverflowIdiom.cc: constants of the form 2 ^ k - 1, and the division tests as products.
use kint_test.Base.{
  ℕ, zero, suc, ◌+◌, ◌*◌, ◌/◌, ◌%◌, ◌^◌, ◌<◌, ◌≤◌, ◌≡◌, ◌≢◌, inl, inr, refl, ◌∙◌, ap, true, ◌||◌,
  not, ◌==◌, ==_iff, ltb, leb, Bool-cases, arith,
}
use native.Mathlib.Nat.{mod-lt, div-lt_iff_lt-mul, two-pow-succ, mul-div_cancel}
use kint_test.Word.{IsWord, pow_pos, mod_small, wmul}
use kint_test.OverflowIdiom.Pass.{count_trailing_ones, is_power_of_2}

pub is_power_of_2_sound : (n v : ℕ) → is_power_of_2 n v ≡ true → (k : ℕ) × (k < n) × (v ≡ 2 ^ k)
unfolding is_power_of_2
is_power_of_2_sound zero v h = cc
is_power_of_2_sound (suc n) v h = elim (Bool-cases (v == 2 ^ n)) [
  | inl e ↦ (n, omega arith, (==_iff v (2 ^ n)).0 e)
  | inr e ↦ let (k, lt, eq) = is_power_of_2_sound n v (rw e at h) in (k, omega arith, eq)
]

pub count_trailing_ones-mask : (n k c : ℕ) → k ≤ n → c + 1 ≡ 2 ^ k → count_trailing_ones n c ≡ k
unfolding count_trailing_ones
count_trailing_ones-mask zero k c h e = omega arith
count_trailing_ones-mask (suc n) zero c h e = ground arith
count_trailing_ones-mask (suc n) (suc k) c h e =
    let twice = two-pow-succ k in
    let odd : (c % 2 == 1) ≡ true = ground arith in
    rw (odd, count_trailing_ones)
      (ap suc (count_trailing_ones-mask n k (c / 2) (omega arith) (omega arith)))

-- x > c / y tests whether the product exceeds c.
pub quotient-ltb : (c x y : ℕ) → y ≢ 0 → ltb (c / y) x ≡ ltb c (x * y)
quotient-ltb c x y h = ground (arith, div-lt_iff_lt-mul {k = y} {x = c} {y = x})

pub product_mono : (x y z : ℕ) → x < z → y ≢ 0 → x < z * y
product_mono x y z h k = grind arith

-- The mask test differs from the quotient's where x is 0 and y exceeds the mask.
pub mask_test :
    (k c x y : ℕ)
    → c + 1 ≡ 2 ^ k
    → y ≢ 0
    → (ltb c x || ltb c y || leb (2 ^ k) (x % 2 ^ k * (y % 2 ^ k))) ≡ (ltb (c / y) x || ltb c y)
mask_test k c x y e h =
    ground
      (arith, quotient-ltb c x y h, mod_small x (2 ^ k), mod_small y (2 ^ k), product_mono c y x)

pub pow_square : (n : ℕ) → 2 ^ (n * 2) ≡ 2 ^ n * 2 ^ n
pow_square zero = refl
pow_square (suc n) =
    let e : suc n * 2 ≡ suc (suc (n * 2)) = omega arith in
    rw (e, two-pow-succ n)
      (omega (arith, two-pow-succ (suc (n * 2)), two-pow-succ (n * 2), pow_square n))

-- x is the product's quotient by y exactly if the product did not wrap.
pub wrapped_quotient :
    (n x y : ℕ)
    → IsWord n x
    → IsWord n y
    → y ≢ 0
    → (x == wmul n x y / y) ≡ not (leb (2 ^ n) (x * y))
unfolding wmul
wrapped_quotient n x y hx hy h =
    let small = mod_small (x * y) (2 ^ n) in
    let wraps = mod-lt (x * y) (pow_pos n) in
    let below = div-lt_iff_lt-mul {k = y} {x = x * y % 2 ^ n} {y = x} (omega arith) in
    elim (Bool-cases (leb (2 ^ n) (x * y))) [
      | inl over ↦ rw over (ground (arith, wraps, below))
      | inr fits ↦
          let exact : x * y % 2 ^ n / y ≡ x =
            ap (λ t. t / y) (small (ground arith)) ∙ mul-div_cancel x (omega arith) in
          rw fits (rw exact (ground arith))
    ]
