-- ===== src/Word/Signed.antt =====
-- The integer that a word stands for in two's complement, and the overflow bits of LLVM's
-- `llvm.[s|u][add|sub|mul].with.overflow` as its language reference states them: the bit is set
-- exactly if the result over the integers has no representation in n bits.
use kint_test.Base.{ℕ, suc, ◌+◌, ◌-◌, ◌*◌, ◌^◌, Bool, ltb, leb, if◌then◌else◌, ◌&&◌, not}
use kint_test.Word.Defs.{smin, smax, is_negative}

-- `negsuc n` is -(n + 1).
pub data ℤ : Type 0 where
  pos : ℕ → ℤ
  negsuc : ℕ → ℤ

abbrev pub pos_part : ℤ → ℕ
pos_part (pos n) = n
pos_part (negsuc n) = 0

abbrev pub neg_part : ℤ → ℕ
neg_part (pos n) = 0
neg_part (negsuc n) = suc n

abbrev pub sub_ℕ : ℕ → ℕ → ℤ
sub_ℕ a b = if leb b a then pos (a - b) else negsuc (b - a - 1)

infixl 65 ◌+ℤ◌ ◌-ℤ◌
infixl 70 ◌*ℤ◌
unfoldable pub ◌+ℤ◌ : ℤ → ℤ → ℤ
a +ℤ b = sub_ℕ (pos_part a + pos_part b) (neg_part a + neg_part b)

unfoldable pub ◌-ℤ◌ : ℤ → ℤ → ℤ
a -ℤ b = sub_ℕ (pos_part a + neg_part b) (neg_part a + pos_part b)

unfoldable pub ◌*ℤ◌ : ℤ → ℤ → ℤ
a *ℤ b =
    sub_ℕ (pos_part a * pos_part b + neg_part a * neg_part b)
      (pos_part a * neg_part b + neg_part a * pos_part b)

abbrev pub signed : ℕ → ℕ → ℤ
signed n a = if is_negative n a then negsuc (2 ^ n - a - 1) else pos a

abbrev pub fits : ℕ → ℤ → Bool
fits n z = leb (pos_part z) (smax n) && leb (neg_part z) (smin n)

unfoldable pub uadd_overflow : ℕ → ℕ → ℕ → Bool
uadd_overflow n a b = leb (2 ^ n) (a + b)

unfoldable pub usub_overflow : ℕ → ℕ → ℕ → Bool
usub_overflow n a b = ltb a b

unfoldable pub umul_overflow : ℕ → ℕ → ℕ → Bool
umul_overflow n a b = leb (2 ^ n) (a * b)

unfoldable pub sadd_overflow : ℕ → ℕ → ℕ → Bool
unfolding ◌+ℤ◌
sadd_overflow n a b = not (fits n (signed n a +ℤ signed n b))

unfoldable pub ssub_overflow : ℕ → ℕ → ℕ → Bool
unfolding ◌-ℤ◌
ssub_overflow n a b = not (fits n (signed n a -ℤ signed n b))

unfoldable pub smul_overflow : ℕ → ℕ → ℕ → Bool
unfolding ◌*ℤ◌
smul_overflow n a b = not (fits n (signed n a *ℤ signed n b))
