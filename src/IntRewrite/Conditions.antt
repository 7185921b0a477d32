-- ===== src/IntRewrite/Conditions.antt =====
-- src/IntRewrite.cc: the inserted conditions hold exactly where the operation goes wrong.
use kint_test.Base.{
  ℕ, ◌-◌, ◌/◌, ◌%◌, ◌^◌, ◌<◌, ◌≤◌, ◌≡◌, ◌⊎◌, Bool-cases, inl, inr, refl, sym, ap, ◌∙◌, Bool, true,
  false, bit, ◌&&◌, ◌||◌, not, ◌==◌, ltb, leb, if◌then◌else◌, Option, none, some, List, [], ◌∷◌,
  arith,
}
use native.Mathlib.Nat.{div-le_self}
use kint_test.Word.{
  umax, smin, smax, is_negative, magnitude, IsWord, pow_pos, pow-half, mod_small, div_lt, lt_scaled,
  lt-two-pow,
}
use kint_test.Ir.{
  Value, const, binary, icmp, BinaryOp, Predicate, width, WellTyped, Env, eval, eval-lt, width-pos,
  bit_or-bit, bit_and-bit,
}
use kint_test.IntRewrite.Checks.{
  insert_div_check, insert_shift_check, upper_bound, array_check_from, insert_array_check,
}

-- The quotient of two signed words over the integers has no representation, or does not exist.
abbrev pub sdiv_undefined : ℕ → ℕ → ℕ → Bool
sdiv_undefined n a b =
    b == 0
    || ((if is_negative n a then is_negative n b else not (is_negative n b))
        && ltb (smax n) (magnitude n a / magnitude n b))

sdiv_undefined_cases :
    (n a b : ℕ)
    → 0 < n
    → IsWord n a
    → IsWord n b
    → sdiv_undefined n a b ≡ ((b == 0) || ((a == smin n) && (b == umax n)))
sdiv_undefined_cases n a b h ha hb =
    let half = pow-half n h in
    let least = pow_pos (n - 1) in
    ground (
      arith,
      half,
      least,
      div-le_self a b,
      div_lt (2 ^ n - b) (2 ^ n - a) (smin n),
      lt_scaled (smin n) (2 ^ n - b),
    )

zero_word : (n : ℕ) → 0 % 2 ^ n ≡ 0
zero_word n = mod_small 0 (2 ^ n) (pow_pos n)

-- The check before a division is 1 exactly if the divisor is 0 or, for a signed one, the quotient
-- over the integers does not fit.
pub eval-insert_div_check :
    (env : Env) (signed : Bool) (l r : Value)
    → WellTyped l
    → width r ≡ width l
    → eval env (insert_div_check signed l r)
      ≡ bit (if signed then sdiv_undefined (width l) (eval env l) (eval env r) else eval env r == 0)
unfolding insert_div_check eval
eval-insert_div_check env true l r h same =
    let n = width l in
    let pos_n = width-pos l h in
    let half = pow-half n pos_n in
    let least = pow_pos (n - 1) in
    let hb : IsWord n (eval env r) = rw (← same) (eval-lt env r) in
    rw
      (
        zero_word (width r),
        mod_small (smin n) (2 ^ n) (omega arith),
        mod_small (umax n) (2 ^ n) (omega (arith, pow_pos n)),
      )
      (rw bit_and-bit (
        rw bit_or-bit (
          ap bit
            (sym (sdiv_undefined_cases n (eval env l) (eval env r) pos_n (eval-lt env l) hb)))))
eval-insert_div_check env false l r h same = rw (zero_word (width r))

-- The check before a shift is 1 exactly if the amount is at least the width, for every width that
-- an amount can denote.
pub eval-insert_shift_check :
    (env : Env) (amount : Value)
    → eval env (insert_shift_check amount) ≡ bit (leb (width amount) (eval env amount))
unfolding insert_shift_check eval
eval-insert_shift_check env amount = rw (mod_small (width amount) _ (lt-two-pow (width amount)))

-- Whether an index is beyond the elements of an array, where arrays of one element or none stand
-- for ones without a declared end, for which an `int` bounds the index. The index one past the end
-- is not beyond.
abbrev pub beyond : (elements index : ℕ) → Bool
beyond n i = if ltb 1 n then ltb n i else ltb 2147483647 i

-- Some index of a step into an array is beyond its elements.
abbrev pub some_index_exceeds : Env → List (Option ℕ × Value) → Bool
some_index_exceeds env [] = false
some_index_exceeds env ((none, index) ∷ steps) = some_index_exceeds env steps
some_index_exceeds env ((some n, index) ∷ steps) =
    beyond n (eval env index) || some_index_exceeds env steps

-- The bound of each step is a word of the type of its index.
abbrev pub BoundsFit : List (Option ℕ × Value) → Type 0
BoundsFit [] = Unit
BoundsFit ((none, index) ∷ steps) = BoundsFit steps
BoundsFit ((some n, index) ∷ steps) =
    (1 < n → n < 2 ^ width index) × (n ≤ 1 → 2147483647 < 2 ^ width index) × BoundsFit steps

bound_test :
    (n w i : ℕ)
    → (1 < n → n < 2 ^ w)
    → (n ≤ 1 → 2147483647 < 2 ^ w)
    → ltb (upper_bound n % 2 ^ w) i ≡ beyond n i
unfolding upper_bound
bound_test n w i large small = elim (Bool-cases (leb n 1)) [
  | inl few ↦
      let other : ltb 1 n ≡ false = ground arith in
      rw (few, other, mod_small 2147483647 (2 ^ w) (small (ground arith))) refl
  | inr many ↦
      let other : ltb 1 n ≡ true = ground arith in
      rw (many, other, mod_small n (2 ^ w) (large (ground arith))) refl
]

-- Whether some step is into an array.
abbrev pub enters_array : List (Option ℕ × Value) → Bool
enters_array [] = false
enters_array ((none, index) ∷ steps) = enters_array steps
enters_array ((some n, index) ∷ steps) = true

or-false : (p : Bool) → p ≡ (p || false)
or-false p = ground arith

or_assoc : (p q r : Bool) → (p || q || r) ≡ (p || (q || r))
or_assoc p q r = ground arith

or_check :
    (env : Env) (u index : Value) (n : ℕ) (p : Bool)
    → eval env u ≡ bit p
    → width u ≡ 1
    → eval env (
        binary BinaryOp.or_ u (icmp Predicate.icmp_ugt index (const (width index) (upper_bound n))))
      ≡ bit (p || ltb (upper_bound n % 2 ^ width index) (eval env index))
unfolding eval
or_check env u index n p h w = rw (h, w) (bit_or-bit p _)

array_check_more :
    (env : Env) (steps : List (Option ℕ × Value)) (u : Value) (p : Bool)
    → BoundsFit steps
    → eval env u ≡ bit p
    → width u ≡ 1
    → (v : Value) × (array_check_from (some u) steps ≡ some v)
      × (eval env v ≡ bit (p || some_index_exceeds env steps))
unfolding array_check_from
array_check_more env [] u p fit h w = (u, refl, h ∙ ap bit (or-false p))
array_check_more env ((none, index) ∷ steps) u p fit h w = array_check_more env steps u p fit h w
array_check_more env ((some n, index) ∷ steps) u p (large, small, fit) h w =
    let test = bound_test n (width index) (eval env index) large small in
    let (v, found, value) =
      array_check_more env steps _ _ fit
        (or_check env u index n p h w ∙ ap (λ t. bit (p || t)) test) w in
    (v, found, value ∙ ap bit (or_assoc p _ _))

-- The check of a GEP, if each bound is a word of the type of the index: without a step into an
-- array there is none; otherwise it is 1 exactly if the index of such a step exceeds, as an
-- unsigned word, the number of elements, or 2 ^ 31 - 1 for an array of one element or none.
pub eval-insert_array_check :
    (env : Env) (steps : List (Option ℕ × Value))
    → BoundsFit steps
    → (enters_array steps ≡ false) × (insert_array_check steps ≡ none)
      ⊎ ((v : Value) × (enters_array steps ≡ true)
          × (insert_array_check steps ≡ some v)
          × (eval env v ≡ bit (some_index_exceeds env steps)))
unfolding insert_array_check eval
eval-insert_array_check env [] fit = inl (refl, refl)
eval-insert_array_check env ((none, index) ∷ steps) fit = eval-insert_array_check env steps fit
eval-insert_array_check env ((some n, index) ∷ steps) (large, small, fit) =
    let test = bound_test n (width index) (eval env index) large small in
    let (v, found, value) =
      array_check_more env steps
        (icmp Predicate.icmp_ugt index (const (width index) (upper_bound n)))
        (beyond n (eval env index)) fit (ap bit test) refl in
    inr (v, refl, found, value)
