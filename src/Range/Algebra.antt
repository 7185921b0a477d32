-- ===== src/Range/Algebra.antt =====
-- llvm::ConstantRange, on which src/CRange.h and src/Range.cc rest: the operations that they call,
-- with what LLVM's documentation says of them. A range of width w is a set of words of w bits, and
-- an operation gives a range that holds at least the results for the members of its operands.
use kint_test.Base.{ℕ, ◌*◌, ◌/◌, ◌%◌, ◌^◌, ◌<◌, ◌≡◌, ◌≢◌, Bool, true, false, ltb}
use Prim.Native.Nat.{bit_and, bit_or}
use kint_test.Word.{IsWord, wadd, wsub, wmul}
use kint_test.Ir.{Predicate, compares, CastOp, converts}

pub record ConstantRange : Type 1 where
  pub Range : Type 0
  pub bits : Range → ℕ
  pub contains : Range → ℕ → Bool
  pub lower : Range → ℕ
  pub upper : Range → ℕ
  pub full_set : (width : ℕ) → Range
  pub empty_set : (width : ℕ) → Range
  pub single : (width value : ℕ) → Range
  pub is_full_set : Range → Bool
  pub is_empty_set : Range → Bool
  pub same_range : Range → Range → Bool
  pub union_with : Range → Range → Range
  pub intersect_with : Range → Range → Range
  pub inverse : Range → Range
  pub zext_or_trunc : (width : ℕ) → Range → Range
  pub sign_extend : (width : ℕ) → Range → Range
  pub make_icmp_region : Predicate → Range → Range
  pub add : Range → Range → Range
  pub sub : Range → Range → Range
  pub multiply : Range → Range → Range
  pub udiv : Range → Range → Range
  pub shl : Range → Range → Range
  pub lshr : Range → Range → Range
  pub binary_and : Range → Range → Range
  pub binary_or : Range → Range → Range
  pub bits-full_set : (w : ℕ) → bits (full_set w) ≡ w
  pub bits-empty_set : (w : ℕ) → bits (empty_set w) ≡ w
  pub bits-single : (w x : ℕ) → bits (single w x) ≡ w
  pub bits-inverse : (r : Range) → bits (inverse r) ≡ bits r
  pub bits-union_with : (r s : Range) → bits (union_with r s) ≡ bits r
  pub bits-zext_or_trunc : (w : ℕ) (r : Range) → bits (zext_or_trunc w r) ≡ w
  pub is_full_set-full_set : (w : ℕ) → is_full_set (full_set w) ≡ true
  pub union_with-full : (r s : Range) → is_full_set r ≡ true → bits s ≡ bits r → union_with r s ≡ r
  pub same_range-refl : (r : Range) → same_range r r ≡ true
  pub same_range-eq : (r s : Range) → same_range r s ≡ true → r ≡ s
  pub contains-full_set : (w x : ℕ) → IsWord w x → contains (full_set w) x ≡ true
  pub contains-single : (w x : ℕ) → IsWord w x → contains (single w x) x ≡ true
  pub contains-is_empty_set : (r : Range) (x : ℕ) → contains r x ≡ true → is_empty_set r ≡ false
  pub contains-lower-upper :
      (r : Range) (x : ℕ)
      → is_empty_set r ≡ false
      → is_full_set r ≡ false
      → IsWord (bits r) x
      → contains r x ≡ ltb (wsub (bits r) x (lower r)) (wsub (bits r) (upper r) (lower r))
  pub IsWord-lower : (r : Range) → IsWord (bits r) (lower r)
  pub IsWord-upper : (r : Range) → IsWord (bits r) (upper r)
  pub contains-union_left :
      (r s : Range) (x : ℕ)
      → bits s ≡ bits r
      → contains r x ≡ true
      → contains (union_with r s) x ≡ true
  pub contains-union_right :
      (r s : Range) (x : ℕ)
      → bits s ≡ bits r
      → contains s x ≡ true
      → contains (union_with r s) x ≡ true
  pub contains-intersect_with :
      (r s : Range) (x : ℕ)
      → bits s ≡ bits r
      → contains r x ≡ true
      → contains s x ≡ true
      → contains (intersect_with r s) x ≡ true
  pub contains-inverse :
      (r : Range) (x : ℕ) → IsWord (bits r) x → contains r x ≡ false → contains (inverse r) x ≡ true
  pub contains-zext_or_trunc :
      (w : ℕ) (r : Range) (x : ℕ)
      → contains r x ≡ true
      → contains (zext_or_trunc w r) (x % 2 ^ w) ≡ true
  pub contains-sign_extend :
      (w : ℕ) (r : Range) (x : ℕ)
      → bits r < w
      → contains r x ≡ true
      → contains (sign_extend w r) (converts (bits r) w CastOp.sext x % 2 ^ w) ≡ true
  pub bits-make_icmp_region : (p : Predicate) (r : Range) → bits (make_icmp_region p r) ≡ bits r
  pub contains-make_icmp_region :
      (p : Predicate) (r : Range) (x y : ℕ)
      → IsWord (bits r) x
      → contains r y ≡ true
      → compares (bits r) p x y ≡ true
      → contains (make_icmp_region p r) x ≡ true
  pub contains-add :
      (r s : Range) (x y : ℕ)
      → bits s ≡ bits r
      → contains r x ≡ true
      → contains s y ≡ true
      → contains (add r s) (wadd (bits r) x y) ≡ true
  pub contains-sub :
      (r s : Range) (x y : ℕ)
      → bits s ≡ bits r
      → contains r x ≡ true
      → contains s y ≡ true
      → contains (sub r s) (wsub (bits r) x y) ≡ true
  pub contains-multiply :
      (r s : Range) (x y : ℕ)
      → bits s ≡ bits r
      → contains r x ≡ true
      → contains s y ≡ true
      → contains (multiply r s) (wmul (bits r) x y) ≡ true
  pub contains-udiv :
      (r s : Range) (x y : ℕ)
      → bits s ≡ bits r
      → y ≢ 0
      → contains r x ≡ true
      → contains s y ≡ true
      → contains (udiv r s) (x / y % 2 ^ bits r) ≡ true
  pub contains-shl :
      (r s : Range) (x y : ℕ)
      → bits s ≡ bits r
      → y < bits r
      → contains r x ≡ true
      → contains s y ≡ true
      → contains (shl r s) (x * 2 ^ y % 2 ^ bits r) ≡ true
  pub contains-lshr :
      (r s : Range) (x y : ℕ)
      → bits s ≡ bits r
      → y < bits r
      → contains r x ≡ true
      → contains s y ≡ true
      → contains (lshr r s) (x / 2 ^ y % 2 ^ bits r) ≡ true
  pub contains-binary_and :
      (r s : Range) (x y : ℕ)
      → bits s ≡ bits r
      → contains r x ≡ true
      → contains s y ≡ true
      → contains (binary_and r s) (bit_and x y % 2 ^ bits r) ≡ true
  pub contains-binary_or :
      (r s : Range) (x y : ℕ)
      → bits s ≡ bits r
      → contains r x ≡ true
      → contains s y ≡ true
      → contains (binary_or r s) (bit_or x y % 2 ^ bits r) ≡ true
