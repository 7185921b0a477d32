-- ===== src/Word/Laws.antt =====
-- The laws of words that the passes' proofs use.
use kint_test.Base.{
  ℕ, zero, suc, true, false, ◌+◌, ◌-◌, ◌*◌, ◌%◌, ◌^◌, ◌<◌, ◌≤◌, ◌≡◌, ◌∙◌, ltb, leb, arith,
  if◌then◌else◌,
}
use native.Mathlib.Numerals.{sub-one}
use native.Mathlib.Nat.{
  add_comm, mul_comm, mod-mod, mod-lt, two-pow-succ, one-le-pow, mod-eq_of_lt, mod-eq-sub-mod,
}
use kint_test.Word.Defs.{umax, smin, smax, IsWord, wadd, wsub, wmul, is_negative, wslt}
use kint_test.Word.Signed.{uadd_overflow, sadd_overflow, ssub_overflow}

pub pow_pos : (n : ℕ) → 1 ≤ 2 ^ n
pow_pos n = one-le-pow n 2 (omega arith)

-- The sign bit is half of the range.
pub pow-half : (n : ℕ) → 0 < n → 2 ^ n ≡ smin n + smin n
pow-half zero h = elim h [ ]
pow-half (suc n) h = rw sub-one (two-pow-succ n)

pub mod_small : (a m : ℕ) → a < m → a % m ≡ a
mod_small a m h = mod-eq_of_lt h

mod_once : (a m : ℕ) → m ≤ a → a - m < m → a % m ≡ a - m
mod_once a m h k = mod-eq-sub-mod h ∙ mod-eq_of_lt k

pub wsub_cases :
    (n a b : ℕ) → IsWord n a → IsWord n b → wsub n a b ≡ (if leb b a then a - b else a + 2 ^ n - b)
unfolding wsub
wsub_cases n a b ha hb =
    ground (arith, mod_small (a + 2 ^ n - b) (2 ^ n), mod_once (a + 2 ^ n - b) (2 ^ n))

pub wadd_cases :
    (n a b : ℕ)
    → IsWord n a
    → IsWord n b
    → wadd n a b ≡ (if ltb (a + b) (2 ^ n) then a + b else a + b - 2 ^ n)
unfolding wadd
wadd_cases n a b ha hb = ground (arith, mod_small (a + b) (2 ^ n), mod_once (a + b) (2 ^ n))

pub uadd_overflow_constant :
    (n x c : ℕ) → IsWord n x → IsWord n c → uadd_overflow n x c ≡ ltb (wsub n (umax n) c) x
unfolding uadd_overflow
uadd_overflow_constant n x c hx hc = ground (arith, wsub_cases n (umax n) c, pow_pos n)

pub sadd_overflow_constant :
    (n x c : ℕ)
    → 0 < n
    → IsWord n x
    → IsWord n c
    → sadd_overflow n x c
      ≡ (if is_negative n c then wslt n x (wsub n (smin n) c) else wslt n (wsub n (smax n) c) x)
unfolding sadd_overflow wslt
sadd_overflow_constant n x c h hx hc =
    ground (arith, wsub_cases n (smin n) c, wsub_cases n (smax n) c, pow-half n h, pow_pos n)

pub sadd_overflow_comm : (n a b : ℕ) → sadd_overflow n a b ≡ sadd_overflow n b a
unfolding sadd_overflow
sadd_overflow_comm n a b = ground arith

pub uadd_overflow_comm : (n a b : ℕ) → uadd_overflow n a b ≡ uadd_overflow n b a
unfolding uadd_overflow
uadd_overflow_comm n a b = ground arith

pub ssub_overflow_constant :
    (n x c : ℕ)
    → 0 < n
    → IsWord n x
    → IsWord n c
    → ssub_overflow n x c
      ≡ (if is_negative n c then wslt n (wadd n (smax n) c) x else wslt n x (wadd n (smin n) c))
unfolding ssub_overflow wslt
ssub_overflow_constant n x c h hx hc =
    ground (arith, wadd_cases n (smin n) c, wadd_cases n (smax n) c, pow-half n h, pow_pos n)

-- What the pass emits for `C - x` compares C with a bound of its own, and never holds.
pub ssub_left_never :
    (n c : ℕ)
    → 0 < n
    → IsWord n c
    → (if is_negative n c then wslt n (wsub n c (smin n)) c else wslt n c (wsub n c (smax n)))
      ≡ false
unfolding wslt
ssub_left_never n c h hc =
    ground (arith, wsub_cases n c (smin n), wsub_cases n c (smax n), pow-half n h, pow_pos n)

pub wadd-mod : (n a b : ℕ) → wadd n a b % 2 ^ n ≡ wadd n a b
unfolding wadd
wadd-mod n a b = mod-mod (a + b) (2 ^ n)

pub wsub-mod : (n a b : ℕ) → wsub n a b % 2 ^ n ≡ wsub n a b
unfolding wsub
wsub-mod n a b = mod-mod (a + 2 ^ n - b) (2 ^ n)

pub wadd_comm : (n a b : ℕ) → wadd n a b ≡ wadd n b a
unfolding wadd
wadd_comm n a b = rw (add_comm a b)

pub wmul_comm : (n a b : ℕ) → wmul n a b ≡ wmul n b a
unfolding wmul
wmul_comm n a b = rw (mul_comm a b)

pub ssub_overflow_least : (n c : ℕ) → 0 < n → c < smin n → ssub_overflow n c (smin n) ≡ true
unfolding ssub_overflow
ssub_overflow_least n c h hc = ground (arith, pow-half n h)

pub wmul-mod : (n a b : ℕ) → wmul n a b % 2 ^ n ≡ wmul n a b
unfolding wmul
wmul-mod n a b = mod-mod (a * b) (2 ^ n)

pub wmul-lt : (n a b : ℕ) → wmul n a b < 2 ^ n
unfolding wmul
wmul-lt n a b = mod-lt (a * b) (pow_pos n)

pub lt-two-pow : (n : ℕ) → n < 2 ^ n
lt-two-pow zero = omega arith
lt-two-pow (suc n) = omega (arith, lt-two-pow n, two-pow-succ n)
