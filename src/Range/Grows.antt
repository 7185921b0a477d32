-- ===== src/Range/Grows.antt =====
-- src/Range.cc: how the global ranges change. Every step of the pass is a `Grows`.
use kint_test.Base.{
  ℕ, ◌<◌, ◌≡◌, refl, sym, ap, ◌∙◌, ◌⊎◌, inl, inr, Bool, true, false, ◌||◌, ◌==◌, if◌then◌else◌,
  Option, none, some, ◌∷◌, arith, Bool-cases, ==_iff, not_before, contains,
}
use kint_test.Range.Algebra.{ConstantRange}
use kint_test.Range.State.{RangeState, match_bits, safe_union, join, union_id, put}

module _ (cr : ConstantRange) where
  open cr use {Range, bits, is_full_set, is_empty_set, same_range, union_with}

  abbrev pub is_full : Option Range → Bool
  is_full none = false
  is_full (some r) = is_full_set r

  abbrev pub is_present : Option Range → Bool
  is_present none = false
  is_present (some r) = true

  -- The identifiers are below n. The flag is whether something changed.
  pub record Grows (n : ℕ) (st st' : RangeState cr) (changed : Bool) : Type 0 where
    pub keeps_full :
        (id : ℕ) → is_full (st.int_ranges id) ≡ true → is_full (st'.int_ranges id) ≡ true
    pub keeps_present :
        (id : ℕ) → is_present (st.int_ranges id) ≡ true → is_present (st'.int_ranges id) ≡ true
    pub keeps_changes : (id : ℕ) → contains st.changes id ≡ true → contains st'.changes id ≡ true
    pub new_present :
        (id : ℕ)
        → contains st'.changes id ≡ true
        → (contains st.changes id ≡ true) ⊎ (is_present (st'.int_ranges id) ≡ true)
    pub some_change :
        changed ≡ true
        → (id : ℕ) × (id < n)
          × (contains st'.changes id ≡ true)
          × (is_full (st.int_ranges id) ≡ false)
    pub no_change : changed ≡ false → (id : ℕ) → st'.int_ranges id ≡ st.int_ranges id

  pub bits-match_bits : (r old : Range) → bits (match_bits cr r old) ≡ bits old
  unfolding match_bits
  bits-match_bits r old = elim (Bool-cases (bits r == bits old)) [
    | inl same ↦ rw (match_bits, same) ((==_iff (bits r) (bits old)).0 same)
    | inr differs ↦ rw (match_bits, differs) (cr.bits-zext_or_trunc (bits old) r)
  ]

  module _ (n : ℕ) where
    -- A step that touches neither the global ranges nor the changes.
    pub silent-Grows :
        (st st' : RangeState cr)
        → st'.int_ranges ≡ st.int_ranges
        → st'.changes ≡ st.changes
        → Grows n st st' false
    silent-Grows st st' same_ranges same_changes = record {
      keeps_full = λ id h. rw same_ranges h;
      keeps_present = λ id h. rw same_ranges h;
      keeps_changes = λ id h. rw same_changes h;
      new_present = λ id h. inl (rw same_changes at h);
      some_change = λ h. absurd (cc);
      no_change = λ _. λ id. rw same_ranges refl;
    }

    pub then-Grows :
        {p q : Bool} {a b c : RangeState cr} → Grows n a b p → Grows n b c q → Grows n a c (p || q)
    then-Grows {p} {q} {a} {b} {c} f g = record {
      keeps_full = λ id h. g.keeps_full id (f.keeps_full id h);
      keeps_present = λ id h. g.keeps_present id (f.keeps_present id h);
      keeps_changes = λ id h. g.keeps_changes id (f.keeps_changes id h);
      new_present = λ id h. elim (g.new_present id h) [
        | inl before ↦ elim (f.new_present id before) [
          | inl first ↦ inl first
          | inr present ↦ inr (g.keeps_present id present)
        ]
        | inr present ↦ inr present
      ];
      some_change = λ h. elim (Bool-cases p) [
        | inl early ↦
            let (id, bound, changed, plain) = f.some_change early in
            (id, bound, g.keeps_changes id changed, plain)
        | inr quiet ↦
            let late : q ≡ true = ground arith in
            let (id, bound, changed, plain) = g.some_change late in
            (id, bound, changed, not_before _ _ (f.keeps_full id) plain)
      ];
      no_change = λ h. λ id.
          let first : p ≡ false = ground arith in
          let second : q ≡ false = ground arith in g.no_change second id ∙ f.no_change first id;
    }

    pub then_silent-Grows :
        (p : Bool) {a b c : RangeState cr} → Grows n a b p → Grows n b c false → Grows n a c p
    then_silent-Grows true f g = then-Grows f g
    then_silent-Grows false f g = then-Grows f g

    join-full :
        (old : Option Range) (r : Range)
        → is_full old ≡ true
        → (is_full_set ((join cr old r).0) ≡ true) × ((join cr old r).1 ≡ false)
    unfolding join safe_union
    join-full none r h = absurd (cc)
    join-full (some old) r h =
        let stays = cr.union_with-full old (match_bits cr r old) h (bits-match_bits r old) in
        rw stays (h, rw (cr.same_range-refl))

    join-same :
        (old : Option Range) (r : Range)
        → (join cr old r).1 ≡ false
        → some ((join cr old r).0) ≡ old
    unfolding join safe_union
    join-same none r h = absurd (cc)
    join-same (some old) r h =
        ap some (sym (cr.same_range-eq old (union_with old (match_bits cr r old)) (ground arith)))

    put-Grows :
        (st : RangeState cr) (id : ℕ) (new : Range) (changed : Bool)
        → id < n
        → (is_full (st.int_ranges id) ≡ true → (is_full_set new ≡ true) × (changed ≡ false))
        → (changed ≡ false → some new ≡ st.int_ranges id)
        → Grows n st
            (record st {
              int_ranges = put cr st.int_ranges id new;
              changes = if changed then id ∷ st.changes else st.changes;
            })
            changed
    put-Grows st id new changed bound full same = record {
      keeps_full = λ k h. elim (Bool-cases (k == id)) [
        | inl here ↦ rw here ((full (rw ((==_iff k id).0 here) at h)).0)
        | inr other ↦ rw other h
      ];
      keeps_present =
          λ k h. elim (Bool-cases (k == id)) [ inl here ↦ rw here refl | inr other ↦ rw other h ];
      keeps_changes = λ k h. elim (Bool-cases changed) [
        | inl grown ↦ rw (grown, h) (ground arith)
        | inr kept ↦ rw kept h
      ];
      new_present = λ k h. elim (Bool-cases (k == id)) [
        | inl here ↦ inr (rw here refl)
        | inr other ↦ inl (elim (Bool-cases changed) [
          | inl grown ↦
              let listed : contains (id ∷ st.changes) k ≡ true = rw grown at h in ground arith
          | inr kept ↦ rw kept at h
        ])
      ];
      some_change = λ h. (
        id,
        bound,
        rw h (ground arith),
        elim (Bool-cases (is_full (st.int_ranges id))) [
          | inl already ↦ let still = (full already).1 in absurd (cc)
          | inr plain ↦ plain
        ],
      );
      no_change = λ h k. elim (Bool-cases (k == id)) [
        | inl here ↦ rw (here, (==_iff k id).0 here) (same h)
        | inr other ↦ rw other refl
      ];
    }

    pub union_id-Grows :
        (st : RangeState cr) (id : ℕ) (r : Range)
        → id < n
        → Grows n st ((union_id cr st id r).0) ((union_id cr st id r).1)
    unfolding union_id
    union_id-Grows st id r bound = elim (Bool-cases (is_empty_set r)) [
      | inl nothing ↦ rw (union_id, nothing) (silent-Grows st st refl refl)
      | inr members ↦
          rw (union_id, members)
            (put-Grows st id _ _ bound (join-full (st.int_ranges id) r)
              (join-same (st.int_ranges id) r))
    ]
