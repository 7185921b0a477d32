-- ===== src/Range/Shapes.antt =====
-- Sets of words with no member, one, or all: the shapes of the ranges in Range/Flat.
use kint_test.Base.{
  ℕ, ◌+◌, ◌%◌, ◌^◌, ◌<◌, ◌≡◌, ◌≢◌, refl, sym, ap, inl, inr, Bool, true, false, ltb, ◌&&◌, ◌==◌,
  if◌then◌else◌, arith, Bool-cases, ==_iff,
}
use mathlib.Core.Logic.{◌⊎◌}
use native.Mathlib.Nat.{mod_self}
use kint_test.Word.{IsWord, wsub, pow_pos, mod_small, wsub_cases, lt-two-pow}

pub data Shape : Type 0 where
  nothing : Shape
  one : ℕ → Shape
  all : Shape

pub record FlatRange : Type 0 where
  pub width : ℕ
  pub shape : Shape

abbrev pub same_shape : Shape → Shape → Bool
same_shape nothing nothing = true
same_shape (one c) (one d) = c == d
same_shape all all = true
same_shape s t = false

abbrev pub same_flat : FlatRange → FlatRange → Bool
same_flat r s = r.width == s.width && same_shape r.shape s.shape

abbrev pub has : ℕ → Shape → ℕ → Bool
has w nothing x = false
has w (one c) x = x == c % 2 ^ w
has w all x = ltb x (2 ^ w)

-- There is one word of no bits.
abbrev pub is_all : ℕ → Shape → Bool
is_all w nothing = false
is_all w (one c) = w == 0
is_all w all = true

abbrev pub is_nothing : Shape → Bool
is_nothing nothing = true
is_nothing (one c) = false
is_nothing all = false

abbrev pub join_shapes : Shape → Shape → Shape
join_shapes nothing t = t
join_shapes (one c) nothing = one c
join_shapes (one c) (one d) = if c == d then one c else all
join_shapes (one c) all = all
join_shapes all t = all

abbrev pub meet_shapes : Shape → Shape → Shape
meet_shapes all t = t
meet_shapes s t = s

abbrev pub first : ℕ → Shape → ℕ
first w nothing = 0
first w (one c) = c % 2 ^ w
first w all = 0

abbrev pub after_last : ℕ → Shape → ℕ
after_last w nothing = 0
after_last w (one c) = (c % 2 ^ w + 1) % 2 ^ w
after_last w all = 0

abbrev pub complement : Shape → Shape
complement nothing = all
complement (one c) = all
complement all = nothing

abbrev pub map_shape : (ℕ → ℕ) → ℕ → Shape → Shape
map_shape f w nothing = nothing
map_shape f w (one c) = one (f (c % 2 ^ w))
map_shape f w all = all

abbrev pub map_shapes : (ℕ → ℕ → ℕ) → ℕ → Shape → Shape → Shape
map_shapes f w (one c) (one d) = one (f (c % 2 ^ w) (d % 2 ^ w))
map_shapes f w s t = all

abbrev pub both : (ℕ → ℕ → ℕ → ℕ) → FlatRange → FlatRange → FlatRange
both f r s = record { width = r.width; shape = map_shapes (f r.width) r.width r.shape s.shape }

pub mod_lt : (w x : ℕ) → x % 2 ^ w < 2 ^ w
mod_lt w x = let positive = pow_pos w in omega arith

pub has-map_shape :
    (f : ℕ → ℕ) (v w : ℕ) (s : Shape) (x : ℕ)
    → has w s x ≡ true
    → has v (map_shape f w s) (f x % 2 ^ v) ≡ true
has-map_shape f v w nothing x h = absurd (cc)
has-map_shape f v w (one c) x h = let same = (==_iff x (c % 2 ^ w)).0 h in rw same (ground arith)
has-map_shape f v w all x h = let bound = mod_lt v (f x) in ground arith

pub has-map_shapes :
    (f : ℕ → ℕ → ℕ) (w : ℕ) (s t : Shape) (x y : ℕ)
    → has w s x ≡ true
    → has w t y ≡ true
    → has w (map_shapes f w s t) (f x y % 2 ^ w) ≡ true
has-map_shapes f w (one c) (one d) x y h k =
    let same = (==_iff x (c % 2 ^ w)).0 h in
    let same' = (==_iff y (d % 2 ^ w)).0 k in rw (same, same') (ground arith)
has-map_shapes f w nothing t x y h k = absurd (cc)
has-map_shapes f w all t x y h k = let bound = mod_lt w (f x y) in ground arith
has-map_shapes f w (one c) nothing x y h k = absurd (cc)
has-map_shapes f w (one c) all x y h k = let bound = mod_lt w (f x y) in ground arith

pub has-both :
    (f : ℕ → ℕ → ℕ → ℕ) (r s : FlatRange) (x y : ℕ)
    → s.width ≡ r.width
    → has r.width r.shape x ≡ true
    → has s.width s.shape y ≡ true
    → has r.width ((both f r s).shape) (f r.width x y % 2 ^ r.width) ≡ true
has-both f r s x y same h k =
    has-map_shapes (f r.width) r.width r.shape s.shape x y h (rw same at k)

pub same_shape_refl : (s : Shape) → same_shape s s ≡ true
same_shape_refl nothing = refl
same_shape_refl (one c) = ground arith
same_shape_refl all = refl

pub same_shape_eq : (s t : Shape) → same_shape s t ≡ true → s ≡ t
same_shape_eq nothing nothing h = refl
same_shape_eq (one c) (one d) h = ap one ((==_iff c d).0 h)
same_shape_eq all all h = refl
same_shape_eq nothing (one d) h = absurd (cc)
same_shape_eq nothing all h = absurd (cc)
same_shape_eq (one c) nothing h = absurd (cc)
same_shape_eq (one c) all h = absurd (cc)
same_shape_eq all nothing h = absurd (cc)
same_shape_eq all (one d) h = absurd (cc)

pub has-join_left :
    (w : ℕ) (s t : Shape) (x : ℕ) → has w s x ≡ true → has w (join_shapes s t) x ≡ true
has-join_left w nothing t x h = absurd (cc)
has-join_left w (one c) nothing x h = h
has-join_left w (one c) (one d) x h =
    let bound = mod_lt w c in
    elim (Bool-cases (c == d)) [ inl same ↦ rw same h | inr differ ↦ rw differ (ground arith) ]
has-join_left w (one c) all x h = let bound = mod_lt w c in ground arith
has-join_left w all t x h = h

pub has-join_right :
    (w : ℕ) (s t : Shape) (x : ℕ) → has w t x ≡ true → has w (join_shapes s t) x ≡ true
has-join_right w nothing t x h = h
has-join_right w s nothing x h = absurd (cc)
has-join_right w (one c) (one d) x h =
    let bound = mod_lt w d in
    elim (Bool-cases (c == d)) [
      | inl same ↦ rw same (rw (sym ((==_iff c d).0 same)) at h)
      | inr differ ↦ rw differ (ground arith)
    ]
has-join_right w (one c) all x h = h
has-join_right w all (one d) x h = let bound = mod_lt w d in ground arith
has-join_right w all all x h = h

pub has-meet :
    (w : ℕ) (s t : Shape) (x : ℕ)
    → has w s x ≡ true
    → has w t x ≡ true
    → has w (meet_shapes s t) x ≡ true
has-meet w nothing t x h k = h
has-meet w (one c) t x h k = h
has-meet w all t x h k = k

pub has-complement :
    (w : ℕ) (s : Shape) (x : ℕ) → x < 2 ^ w → has w s x ≡ false → has w (complement s) x ≡ true
has-complement w nothing x word h = ground arith
has-complement w (one c) x word h = ground arith
has-complement w all x word h = absurd (ground arith)

pub has-is_nothing : (w : ℕ) (s : Shape) (x : ℕ) → has w s x ≡ true → is_nothing s ≡ false
has-is_nothing w nothing x h = absurd (cc)
has-is_nothing w (one c) x h = refl
has-is_nothing w all x h = refl

pub first-lt : (w : ℕ) (s : Shape) → first w s < 2 ^ w
first-lt w nothing = let positive = pow_pos w in omega arith
first-lt w (one c) = mod_lt w c
first-lt w all = let positive = pow_pos w in omega arith

pub after_last-lt : (w : ℕ) (s : Shape) → after_last w s < 2 ^ w
after_last-lt w nothing = let positive = pow_pos w in omega arith
after_last-lt w (one c) = mod_lt w (c % 2 ^ w + 1)
after_last-lt w all = let positive = pow_pos w in omega arith

pub next_cases :
    (m x : ℕ) → x < m → ((x + 1 < m) × ((x + 1) % m ≡ x + 1)) ⊎ ((x + 1 ≡ m) × ((x + 1) % m ≡ 0))
next_cases m x h = elim (Bool-cases (ltb (x + 1) m)) [
  | inl inside ↦ inl (ground arith, mod_small (x + 1) m (ground arith))
  | inr outside ↦ let same : x + 1 ≡ m = ground arith in inr (same, rw same (mod_self m))
]

pub has-first-after_last :
    (w : ℕ) (s : Shape) (x : ℕ)
    → is_nothing s ≡ false
    → is_all w s ≡ false
    → IsWord w x
    → has w s x ≡ ltb (wsub w x (first w s)) (wsub w (after_last w s) (first w s))
has-first-after_last w nothing x some_word plain word = absurd (cc)
has-first-after_last w all x some_word plain word = absurd (cc)
has-first-after_last w (one c) x some_word plain word =
    let bound = mod_lt w c in
    let positive : w ≢ 0 = ground arith in
    let wide = lt-two-pow w in
    let big : 1 < 2 ^ w = omega arith in
    let from = wsub_cases w x (c % 2 ^ w) word bound in
    let length =
      wsub_cases w ((c % 2 ^ w + 1) % 2 ^ w) (c % 2 ^ w) (mod_lt w (c % 2 ^ w + 1)) bound in
    let next = next_cases (2 ^ w) (c % 2 ^ w) bound in ground arith
