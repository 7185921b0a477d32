-- ===== src/Base/Slots.antt =====
-- Counting the numbers below n that a test does not hold of.
use kint_test.Base.{
  ℕ, zero, suc, ◌+◌, ◌<◌, ◌≤◌, ◌≡◌, inl, inr, Bool, true, false, ◌==◌, if◌then◌else◌, arith,
  Bool-cases, ==_iff,
}

abbrev pub slots : ℕ → (ℕ → Bool) → ℕ
slots zero f = 0
slots (suc k) f = (if f k then 0 else 1) + slots k f

pub slots_bound : (n : ℕ) (f : ℕ → Bool) → slots n f ≤ n
slots_bound zero f = omega arith
slots_bound (suc k) f = let ih = slots_bound k f in ground arith

pub slots-le :
    (n : ℕ) (f g : ℕ → Bool) → ((id : ℕ) → f id ≡ true → g id ≡ true) → slots n g ≤ slots n f
slots-le zero f g keeps = omega arith
slots-le (suc k) f g keeps =
    let ih = slots-le k f g keeps in
    elim (Bool-cases (f k)) [
      | inl holds ↦ let later = keeps k holds in ground arith
      | inr fails ↦ ground arith
    ]

pub slots-lt :
    (n : ℕ) (f g : ℕ → Bool) (id : ℕ)
    → ((k : ℕ) → f k ≡ true → g k ≡ true)
    → id < n
    → f id ≡ false
    → g id ≡ true
    → slots n g < slots n f
slots-lt zero f g id keeps bound fails holds = absurd (omega arith)
slots-lt (suc k) f g id keeps bound fails holds = elim (Bool-cases (id == k)) [
  | inl last ↦
      let same = (==_iff id k).0 last in
      let before = slots-le k f g keeps in
      let fails_last : f k ≡ false = rw same at fails in
      let holds_last : g k ≡ true = rw same at holds in ground arith
  | inr earlier ↦
      let ih = slots-lt k f g id keeps (ground arith) fails holds in
      elim (Bool-cases (f k)) [
        | inl kept ↦ let later = keeps k kept in ground arith
        | inr lost ↦ ground arith
      ]
]
