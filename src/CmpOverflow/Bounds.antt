-- ===== src/CmpOverflow/Bounds.antt =====
-- src/CmpOverflow.cc: what the reported comparisons let through.
use kint_test.Base.{
  ℕ, ltb, ltb→lt, ◌+◌, ◌*◌, ◌/◌, ◌^◌, ◌<◌, ◌≤◌, ◌≡◌, ◌≢◌, ◌⊎◌, ◌↔◌, inl, inr, refl, ap, ◌∙◌, Bool,
  true, false, Bool-cases, Option, none, some, Option-cases, [], ◌∷◌, arith,
}
use native.Mathlib.Nat.{div-mul-le_self}
use kint_test.Word.{umax, wsub, wsub_cases, IsWord, pow_pos, div_lt}
use kint_test.CmpOverflow.Pass.{
  Scev, constant, CmpStatus, AxBs, lookup, judge, check_constant, check_axb, check_xy, check,
}

-- The exact guard: a + x * b fits exactly if x is at most (UMAX - a) / b.
pub guard_exact :
    (n a b x : ℕ) → IsWord n a → b ≢ 0 → (a + x * b < 2 ^ n) ↔ (x ≤ wsub n (umax n) a / b)
guard_exact n a b x ha hb =
    let room = wsub_cases n (umax n) a (omega (arith, pow_pos n)) ha in
    let over = div_lt b (wsub n (umax n) a) x (omega arith) in
    (λ fits. ground (arith, room, over), λ h. ground (arith, room, over))

past_guard : (n a b c : ℕ) → IsWord n a → b ≢ 0 → wsub n (umax n) a / b < c → 2 ^ n ≤ a + c * b
past_guard n a b c ha hb h =
    let (stops, _) = guard_exact n a b c ha hb in
    elim (Bool-cases (ltb (a + c * b) (2 ^ n))) [
      | inl fits ↦ absurd (omega (arith, stops (ltb→lt _ _ fits)))
      | inr over ↦ ground arith
    ]

guard_le : (n a b : ℕ) → IsWord n a → b ≢ 0 → wsub n (umax n) a / b ≤ umax n / b
guard_le n a b ha hb =
    let room = wsub_cases n (umax n) a (omega (arith, pow_pos n)) ha in
    let over = div_lt b (umax n) (wsub n (umax n) a / b) (omega arith) in
    ground (arith, room, over, div-mul-le_self (wsub n (umax n) a) b)

judge-ne : (n a b c : ℕ) (t : CmpStatus) → judge n a b c ≡ some t → c ≢ wsub n (umax n) a / b
unfolding judge
judge-ne n a b c t h = ground arith

judge-axb_0 : (n a b c : ℕ) → judge n a b c ≡ some CmpStatus.cmp_axb_0 → c ≡ umax n / b
unfolding judge
judge-axb_0 n a b c h = ground arith

-- What a comparison with C that is meant to guard a + x * b gets wrong: an x that it passes and
-- that overflows, or one that it stops and that does not.
abbrev pub Misjudges : ℕ → ℕ → ℕ → ℕ → ℕ → Type 0
Misjudges n a b c x = (x ≤ c) × (2 ^ n ≤ a + x * b) ⊎ (c < x) × (a + x * b < 2 ^ n)

fst_some : {p q : ℕ × ℕ} → some p ≡ some q → p.0 ≡ q.0
fst_some h = ap (λ (o : Option (ℕ × ℕ)). elim o [ none ↦ 0 | some r ↦ r.0 ]) h

snd_some : {p q : ℕ × ℕ} → some p ≡ some q → p.1 ≡ q.1
snd_some h = ap (λ (o : Option (ℕ × ℕ)). elim o [ none ↦ 0 | some r ↦ r.1 ]) h

none≢some : {t : CmpStatus} → none ≡ some t → ⊥
none≢some h = cc

from_axb :
    (o : Option CmpStatus) (t : CmpStatus)
    → elim o [ some u ↦ some u | none ↦ none ] ≡ some t
    → o ≡ some t
from_axb (some u) t h = h
from_axb none t h = h

judge_sound :
    (n a b c : ℕ) (t : CmpStatus)
    → IsWord n a
    → b ≢ 0
    → judge n a b c ≡ some t
    → (x : ℕ) × Misjudges n a b c x
judge_sound n a b c t ha hb h =
    let guard = wsub n (umax n) a / b in
    let wrong = judge-ne n a b c t h in
    elim (Bool-cases (ltb c guard)) [
      | inl below ↦
          (guard, inr (ltb→lt c guard below, (guard_exact n a b guard ha hb).1 (omega arith)))
      | inr above ↦
          let past : guard < c = ground arith in
          (c, inl (omega arith, past_guard n a b c ha hb past))
    ]

-- Every a + x * b that was collected has a word for a, and a factor b that is not 0.
abbrev pub Usable : ℕ → AxBs → Type 0
Usable n [] = Unit
Usable n ((x, a, b) ∷ axbs) = IsWord n a × (b ≢ 0) × Usable n axbs

lookup-Usable :
    (same : Scev → Scev → Bool) (n : ℕ) (axbs : AxBs) (s : Scev) (a b : ℕ)
    → Usable n axbs
    → lookup same axbs s ≡ some (a, b)
    → IsWord n a × (b ≢ 0)
unfolding lookup
lookup-Usable same n [] s a b h e = cc
lookup-Usable same n ((x, a', b') ∷ axbs) s a b h e = elim (Bool-cases (same x s)) [
  | inl found ↦
      let entry : some (a', b') ≡ some (a, b) = rw (found, lookup) at e in
      (rw (fst_some entry) at h.0, λ z. h.1 (snd_some entry ∙ z))
  | inr other ↦ lookup-Usable same n axbs s a b h.2 (rw (other, lookup) at e)
]

-- The comparison of s with the constant c, in either order.
abbrev pub Compares : Scev → Scev → Scev → ℕ → Type 0
Compares l r s c = (l ≡ s) × (r ≡ constant c) ⊎ (l ≡ constant c) × (r ≡ s)

-- What a report says: the compared expression s has been multiplied and added to in a call's
-- argument, and the constant is a wrong guard for that sum.
abbrev pub Reported : (Scev → Scev → Bool) → AxBs → ℕ → Scev → Scev → Type 0
Reported same axbs n l r =
    (s : Scev) × (a : ℕ) × (b : ℕ) × (c : ℕ) × (x : ℕ) × Compares l r s c
    × (lookup same axbs s ≡ some (a, b))
    × Misjudges n a b c x

constant_sound :
    (same : Scev → Scev → Bool) (axbs : AxBs) (n : ℕ) (l r : Scev) (t : CmpStatus)
    → Usable n axbs
    → check_constant same axbs n l r ≡ some t
    → Reported same axbs n l r
unfolding check_constant
constant_sound same axbs n l (constant c) t usable h = elim (Option-cases (lookup same axbs l)) [
  | inl e ↦ absurd (none≢some (rw (e, check_constant) at h))
  | inr ((a, b), e) ↦
      let (word, factor) = lookup-Usable same n axbs l a b usable e in
      let (x, wrong) = judge_sound n a b c t word factor (rw (e, check_constant) at h) in
      (l, a, b, c, x, inl (refl, refl), e, wrong)
]
constant_sound same axbs n l _ t usable h = cc

turn_round :
    (same : Scev → Scev → Bool) (axbs : AxBs) (n : ℕ) (l r : Scev)
    → Reported same axbs n r l
    → Reported same axbs n l r
turn_round same axbs n l r (s, a, b, c, x, inl (p, q), e, wrong) =
    (s, a, b, c, x, inr (q, p), e, wrong)
turn_round same axbs n l r (s, a, b, c, x, inr (p, q), e, wrong) =
    (s, a, b, c, x, inl (q, p), e, wrong)

-- A comparison is reported only if it is one, in either order, of a collected expression x with a
-- constant C that is a wrong guard for a + x * b: some x is passed by the comparison and overflows,
-- or is stopped and does not. This is for collected sums with a word for a and b not 0.
pub check_sound :
    (same : Scev → Scev → Bool) (axbs : AxBs) (is_integer : Bool) (n : ℕ) (l r : Scev)
    (t : CmpStatus)
    → Usable n axbs
    → check same axbs is_integer n l r ≡ some t
    → Reported same axbs n l r
unfolding check check_axb check_xy
check_sound same axbs false n l r t usable h = cc
check_sound same axbs true n (constant c) r t usable h =
    turn_round same axbs n (constant c) r
      (constant_sound same axbs n r (constant c) t usable (from_axb _ t h))
check_sound same axbs true n l r t usable h =
    constant_sound same axbs n l r t usable (from_axb _ t h)

-- A comparison that is judged to be of the first kind passes its own constant, for which the sum
-- overflows.
pub judge-axb_0-overflows :
    (n a b c : ℕ)
    → IsWord n a
    → b ≢ 0
    → judge n a b c ≡ some CmpStatus.cmp_axb_0
    → 2 ^ n ≤ a + c * b
judge-axb_0-overflows n a b c ha hb h =
    let at_most = guard_le n a b ha hb in
    let bound = judge-axb_0 n a b c h in
    let wrong = judge-ne n a b c CmpStatus.cmp_axb_0 h in past_guard n a b c ha hb (omega arith)
