-- ===== src/Word/Defs.antt =====
-- Machine integers of any width, as LLVM's `APInt` and its iN instructions have them: a value of
-- width n is a number below 2 ^ n, read as unsigned or in two's complement.
use kint_test.Base.{
  ℕ, ◌+◌, ◌-◌, ◌*◌, ◌/◌, ◌%◌, ◌^◌, ◌<◌, Bool, true, false, ltb, leb, if◌then◌else◌,
}

-- APInt::getMaxValue, getSignedMinValue, getSignedMaxValue
abbrev pub umax : ℕ → ℕ
umax n = 2 ^ n - 1

abbrev pub smin : ℕ → ℕ
smin n = 2 ^ (n - 1)

abbrev pub smax : ℕ → ℕ
smax n = smin n - 1

abbrev pub IsWord : ℕ → ℕ → Type 0
IsWord n a = a < 2 ^ n

unfoldable pub wadd : ℕ → ℕ → ℕ → ℕ
wadd n a b = (a + b) % 2 ^ n

unfoldable pub wsub : ℕ → ℕ → ℕ → ℕ
wsub n a b = (a + 2 ^ n - b) % 2 ^ n

unfoldable pub wmul : ℕ → ℕ → ℕ → ℕ
wmul n a b = a * b % 2 ^ n

unfoldable pub wneg : ℕ → ℕ → ℕ
wneg n a = (2 ^ n - a) % 2 ^ n

abbrev pub is_negative : ℕ → ℕ → Bool
is_negative n a = leb (smin n) a

-- The magnitude of the two's complement value.
abbrev pub magnitude : ℕ → ℕ → ℕ
magnitude n a = if is_negative n a then 2 ^ n - a else a

-- APInt::wsdiv: the quotient of the magnitudes, with the sign; it rounds towards zero, and wraps.
unfoldable pub wsdiv : ℕ → ℕ → ℕ → ℕ
wsdiv n a b =
    if is_negative n a
    then if is_negative n b then magnitude n a / magnitude n b else wneg n (magnitude n a / b)
    else if is_negative n b
    then wneg n (a / magnitude n b)
    else a / b

-- Signed order.
unfoldable pub wslt : ℕ → ℕ → ℕ → Bool
wslt n a b =
    if is_negative n a
    then if is_negative n b then ltb a b else true
    else if is_negative n b
    then false
    else ltb a b
