-- ===== src/Range/Sound.antt =====
-- src/Range.cc: the ranges of results hold the results, for the operations that the pass tracks.
use kint_test.Base.{
  ℕ, ◌%◌, ◌^◌, ◌<◌, ◌≡◌, refl, inl, inr, Bool, true, false, not, ltb, ◌==◌, arith, Bool-cases,
  ==_iff,
}
use native.Mathlib.Nat.{mod-lt}
use kint_test.Word.{IsWord, pow_pos, mod_small, wadd-mod, wsub-mod, wmul-mod}
use kint_test.Ir.{BinaryOp, CastOp, Env, calculate, converts}
use kint_test.Range.Algebra.{ConstantRange}
use kint_test.Range.State.{match_bits, safe_union, sdiv}
use kint_test.Range.Grows.{bits-match_bits}
use kint_test.Range.Visits.{CastKind, binary_op, cast_range}

-- The operations of which visitBinaryOp gives the range.
abbrev pub tracks : BinaryOp → Bool
tracks BinaryOp.urem = false
tracks BinaryOp.srem = false
tracks BinaryOp.ashr = false
tracks BinaryOp.xor_ = false
tracks op = true

-- Whether the result is defined, by the right operand.
abbrev pub defines : ℕ → BinaryOp → ℕ → Bool
defines n BinaryOp.udiv y = not (y == 0)
defines n BinaryOp.sdiv y = not (y == 0)
defines n BinaryOp.shl y = ltb y n
defines n BinaryOp.lshr y = ltb y n
defines n op y = true

-- What a cast gives for a word of n bits.
abbrev pub CastsTo : ℕ → CastKind → ℕ → ℕ → ℕ → Type 0
CastsTo n CastKind.trunc w x z = z ≡ x % 2 ^ w
CastsTo n CastKind.zext w x z = (n < w) × (z ≡ x % 2 ^ w)
CastsTo n CastKind.sext w x z = (n < w) × (z ≡ converts n w CastOp.sext x % 2 ^ w)
CastsTo n CastKind.bit_cast w x z = (w ≡ n) × (z ≡ x)
CastsTo n CastKind.other_cast w x z = IsWord w z

module _ (cr : ConstantRange) where
  open cr use {Range, bits, contains}

  pub match_bits-same : (r l : Range) → bits r ≡ bits l → match_bits cr r l ≡ r
  unfolding match_bits
  match_bits-same r l same =
      let equal : (bits r == bits l) ≡ true = ground arith in rw (match_bits, equal) refl

  contains-sdiv :
      (l r : Range) (x y z : ℕ)
      → contains l x ≡ true
      → contains r y ≡ true
      → contains (sdiv cr l r) (z % 2 ^ bits l) ≡ true
  unfolding sdiv
  contains-sdiv l r x y z left right =
      rw (sdiv, cr.contains-is_empty_set l x left, cr.contains-is_empty_set r y right)
        (cr.contains-full_set (bits l) (z % 2 ^ bits l) (mod-lt z (pow_pos (bits l))))

  -- visitBinaryOp: if the ranges of the operands have one width and contain them, then the range of
  -- the result contains the result, for the operations other than the remainders, the arithmetic
  -- shift and the exclusive or, where the result is defined: the divisor is not 0, and the shift is
  -- below the width.
  pub contains-binary_op :
      (env : Env) (op : BinaryOp) (l r : Range) (x y : ℕ)
      → tracks op ≡ true
      → defines (bits l) op y ≡ true
      → bits r ≡ bits l
      → contains l x ≡ true
      → contains r y ≡ true
      → contains (binary_op cr op l r) (calculate env (bits l) op x y % 2 ^ bits l) ≡ true
  unfolding binary_op
  contains-binary_op env BinaryOp.add l r x y _ _ same left right =
      rw (binary_op, match_bits-same r l same, wadd-mod) (cr.contains-add l r x y same left right)
  contains-binary_op env BinaryOp.sub l r x y _ _ same left right =
      rw (binary_op, match_bits-same r l same, wsub-mod) (cr.contains-sub l r x y same left right)
  contains-binary_op env BinaryOp.mul l r x y _ _ same left right =
      rw (binary_op, match_bits-same r l same, wmul-mod)
        (cr.contains-multiply l r x y same left right)
  contains-binary_op env BinaryOp.udiv l r x y _ defined same left right =
      let divides : (y == 0) ≡ false = ground arith in
      rw (binary_op, match_bits-same r l same, divides)
        (cr.contains-udiv l r x y same (ground arith) left right)
  contains-binary_op env BinaryOp.sdiv l r x y _ defined same left right =
      rw (binary_op, match_bits-same r l same) (contains-sdiv l r x y _ left right)
  contains-binary_op env BinaryOp.shl l r x y _ defined same left right =
      rw (binary_op, match_bits-same r l same, defined)
        (cr.contains-shl l r x y same (ground arith) left right)
  contains-binary_op env BinaryOp.lshr l r x y _ defined same left right =
      rw (binary_op, match_bits-same r l same, defined)
        (cr.contains-lshr l r x y same (ground arith) left right)
  contains-binary_op env BinaryOp.and_ l r x y _ _ same left right =
      rw (binary_op, match_bits-same r l same) (cr.contains-binary_and l r x y same left right)
  contains-binary_op env BinaryOp.or_ l r x y _ _ same left right =
      rw (binary_op, match_bits-same r l same) (cr.contains-binary_or l r x y same left right)
  contains-binary_op env BinaryOp.urem l r x y tracked _ _ _ _ = absurd (cc)
  contains-binary_op env BinaryOp.srem l r x y tracked _ _ _ _ = absurd (cc)
  contains-binary_op env BinaryOp.ashr l r x y tracked _ _ _ _ = absurd (cc)
  contains-binary_op env BinaryOp.xor_ l r x y tracked _ _ _ _ = absurd (cc)

  -- visitCastInst: if the range of the operand contains a word, then the range of the cast contains
  -- what the cast gives for the word; a sign extension is to a greater width, and a cast that is
  -- none of the four kinds gives any word of the width.
  pub contains-cast_range :
      (kind : CastKind) (w : ℕ) (r : Range) (x z : ℕ)
      → contains r x ≡ true
      → CastsTo (bits r) kind w x z
      → contains (cast_range cr kind w r) z ≡ true
  unfolding cast_range
  contains-cast_range CastKind.trunc w r x z h gives = rw gives (cr.contains-zext_or_trunc w r x h)
  contains-cast_range CastKind.zext w r x z h (wider, gives) =
      rw gives (cr.contains-zext_or_trunc w r x h)
  contains-cast_range CastKind.sext w r x z h (wider, gives) =
      rw gives (cr.contains-sign_extend w r x wider h)
  contains-cast_range CastKind.bit_cast w r x z h (same, gives) = rw gives h
  contains-cast_range CastKind.other_cast w r x z h word = cr.contains-full_set w z word

  pub contains-match_bits :
      (r old : Range) (x : ℕ)
      → contains r x ≡ true
      → IsWord (bits r) x
      → contains (match_bits cr r old) (x % 2 ^ bits old) ≡ true
  unfolding match_bits
  contains-match_bits r old x h word = elim (Bool-cases (bits r == bits old)) [
    | inl same ↦
        let fits : x < 2 ^ bits old = rw ((==_iff (bits r) (bits old)).0 same) at word in
        rw (match_bits, same, mod_small x (2 ^ bits old) fits) h
    | inr differs ↦ rw (match_bits, differs) (cr.contains-zext_or_trunc (bits old) r x h)
  ]

  -- safeUnion: the new range contains every word of the old one, and every word of the other range,
  -- which is cut to the old width if its width differs; and the old width is kept.
  pub contains-safe_union :
      (old r : Range)
      → (bits ((safe_union cr old r).0) ≡ bits old)
        × ((x : ℕ) → contains old x ≡ true → contains ((safe_union cr old r).0) x ≡ true)
        × ((x : ℕ)
            → contains r x ≡ true
            → IsWord (bits r) x
            → contains ((safe_union cr old r).0) (x % 2 ^ bits old) ≡ true)
  unfolding safe_union
  contains-safe_union old r = (
    cr.bits-union_with old (match_bits cr r old),
    λ x h. cr.contains-union_left old (match_bits cr r old) x (bits-match_bits cr r old) h,
    λ x h word.
        cr.contains-union_right old (match_bits cr r old) (x % 2 ^ bits old)
          (bits-match_bits cr r old) (contains-match_bits r old x h word),
  )
