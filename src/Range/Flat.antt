-- ===== src/Range/Flat.antt =====
-- The smallest ranges that give what Range/Algebra asks for: no word, one word, or all of them.
use kint_test.Base.{
  ℕ, zero, suc, ◌+◌, ◌-◌, ◌*◌, ◌/◌, ◌^◌, ◌<◌, ◌≡◌, refl, inl, inr, true, if◌then◌else◌, arith,
  Bool-cases, ==_iff,
}
use Prim.Native.Nat.{bit_and, bit_or}
use kint_test.Word.{wadd, wsub, wmul, mod_small}
use kint_test.Ir.{CastOp, converts}
use kint_test.Range.Algebra.{ConstantRange}
use kint_test.Range.Shapes.{
  Shape, FlatRange, same_flat, has, is_all, is_nothing, join_shapes, meet_shapes, first, after_last,
  complement, map_shape, both, mod_lt, has-map_shape, has-both, same_shape_refl, same_shape_eq,
  has-join_left, has-join_right, has-meet, has-complement, has-is_nothing, first-lt, after_last-lt,
  has-first-after_last, nothing, one, all,
}

abbrev pub join_flat : FlatRange → FlatRange → FlatRange
join_flat r s =
    if is_all r.width r.shape
    then r
    else record { width = r.width; shape = join_shapes r.shape s.shape }

pub has-lt : (w : ℕ) (s : Shape) (x : ℕ) → has w s x ≡ true → x < 2 ^ w
has-lt w nothing x h = absurd (cc)
has-lt w (one c) x h = let bound = mod_lt w c in ground arith
has-lt w all x h = ground arith

pub is_all-has : (w : ℕ) (s : Shape) (x : ℕ) → is_all w s ≡ true → x < 2 ^ w → has w s x ≡ true
is_all-has w nothing x whole word = absurd (cc)
is_all-has zero (one c) x whole word = let bound = mod_lt 0 c in ground arith
is_all-has (suc w) (one c) x whole word = absurd (ground arith)
is_all-has w all x whole word = ground arith

pub has-join_flat_left :
    (r s : FlatRange) (x : ℕ)
    → has r.width r.shape x ≡ true
    → has ((join_flat r s).width) ((join_flat r s).shape) x ≡ true
has-join_flat_left r s x h = elim (Bool-cases (is_all r.width r.shape)) [
  | inl whole ↦ rw whole h
  | inr part ↦ rw part (has-join_left r.width r.shape s.shape x h)
]

pub has-join_flat_right :
    (r s : FlatRange) (x : ℕ)
    → s.width ≡ r.width
    → has s.width s.shape x ≡ true
    → has ((join_flat r s).width) ((join_flat r s).shape) x ≡ true
has-join_flat_right r s x same h =
    let word = has-lt s.width s.shape x h in
    elim (Bool-cases (is_all r.width r.shape)) [
      | inl whole ↦ rw whole (is_all-has r.width r.shape x whole (rw same at word))
      | inr part ↦ rw part (has-join_right r.width r.shape s.shape x (rw same at h))
    ]

abbrev pub flat_single : ℕ → ℕ → FlatRange
flat_single w c = record { width = w; shape = one c }

abbrev pub flat_map : (ℕ → ℕ) → ℕ → FlatRange → FlatRange
flat_map f w r = record { width = w; shape = map_shape f r.width r.shape }

pub width-join_flat : (r s : FlatRange) → (join_flat r s).width ≡ r.width
width-join_flat r s = elim (Bool-cases (is_all r.width r.shape)) [
  | inl whole ↦ rw whole refl
  | inr part ↦ rw part refl
]

pub same_flat_eq : (r s : FlatRange) → same_flat r s ≡ true → r ≡ s
same_flat_eq r s h =
    let shapes = same_shape_eq r.shape s.shape (ground arith) in
    let widths = (==_iff r.width s.width).0 (ground arith) in
    λ i. record { width = widths i; shape = shapes i }

unfoldable pub Flat : ConstantRange
unfolding wadd wsub wmul
Flat = record {
  Range = FlatRange;
  bits = λ r. r.width;
  contains = λ r. has r.width r.shape;
  lower = λ r. first r.width r.shape;
  upper = λ r. after_last r.width r.shape;
  full_set = λ w. record { width = w; shape = all };
  empty_set = λ w. record { width = w; shape = nothing };
  single = flat_single;
  is_full_set = λ r. is_all r.width r.shape;
  is_empty_set = λ r. is_nothing r.shape;
  same_range = same_flat;
  union_with = join_flat;
  intersect_with = λ r s. record { width = r.width; shape = meet_shapes r.shape s.shape };
  inverse = λ r. record { width = r.width; shape = complement r.shape };
  zext_or_trunc = flat_map (λ c. c);
  sign_extend = λ w r. flat_map (converts r.width w CastOp.sext) w r;
  make_icmp_region = λ p r. record { width = r.width; shape = all };
  add = both (λ w c d. c + d);
  sub = both (λ w c d. c + 2 ^ w - d);
  multiply = both (λ w c d. c * d);
  udiv = both (λ w c d. c / d);
  shl = both (λ w c d. c * 2 ^ d);
  lshr = both (λ w c d. c / 2 ^ d);
  binary_and = both (λ w. bit_and);
  binary_or = both (λ w. bit_or);
  bits-full_set = λ w. refl;
  bits-empty_set = λ w. refl;
  bits-single = λ w x. refl;
  bits-inverse = λ r. refl;
  bits-union_with = width-join_flat;
  bits-zext_or_trunc = λ w r. refl;
  is_full_set-full_set = λ w. refl;
  union_with-full = λ r s h _. rw h refl;
  same_range-refl = λ r. let shapes = same_shape_refl r.shape in ground arith;
  same_range-eq = same_flat_eq;
  contains-full_set = λ w x h. ground arith;
  contains-single = λ w x h. let small = mod_small x (2 ^ w) h in ground arith;
  contains-is_empty_set = λ r x h. has-is_nothing r.width r.shape x h;
  contains-lower-upper = λ r x. has-first-after_last r.width r.shape x;
  IsWord-lower = λ r. first-lt r.width r.shape;
  IsWord-upper = λ r. after_last-lt r.width r.shape;
  contains-union_left = λ r s x _ h. has-join_flat_left r s x h;
  contains-union_right = λ r s x. has-join_flat_right r s x;
  contains-intersect_with = λ r s x same h k. has-meet r.width r.shape s.shape x h (rw same at k);
  contains-inverse = λ r x. has-complement r.width r.shape x;
  contains-zext_or_trunc = λ w r x. has-map_shape (λ c. c) w r.width r.shape x;
  contains-sign_extend =
      λ w r x _. has-map_shape (converts r.width w CastOp.sext) w r.width r.shape x;
  bits-make_icmp_region = λ p r. refl;
  contains-make_icmp_region = λ p r x y word _ _. ground arith;
  contains-add = has-both (λ w c d. c + d);
  contains-sub = has-both (λ w c d. c + 2 ^ w - d);
  contains-multiply = has-both (λ w c d. c * d);
  contains-udiv = λ r s x y same _. has-both (λ w c d. c / d) r s x y same;
  contains-shl = λ r s x y same _. has-both (λ w c d. c * 2 ^ d) r s x y same;
  contains-lshr = λ r s x y same _. has-both (λ w c d. c / 2 ^ d) r s x y same;
  contains-binary_and = has-both (λ w. bit_and);
  contains-binary_or = has-both (λ w. bit_or);
}
