-- ===== src/Taint/Grows.antt =====
-- src/Taint.cc: how the taint of identifiers and values changes. Every step of the pass is a
-- `Grows`.
use kint_test.Base.{
  ℕ, ◌<◌, ◌≡◌, refl, ◌∙◌, inl, inr, Bool, true, false, ◌||◌, ◌&&◌, not, ◌==◌, if◌then◌else◌, Option,
  none, some, [], ◌∷◌, arith, Bool-cases, Option-cases, ==_iff, not_before, contains,
}
use kint_test.Global.TaintMap.{
  TaintMap, DescSet, insert_all, is_empty, add_value, get_id, add_id, entry_or_empty,
}

abbrev pub is_some {ℓ} : {A : Type ℓ} → Option A → Bool
is_some none = false
is_some (some x) = true

abbrev pub entry_ok : Option (DescSet × Bool) → Bool
entry_ok none = true
entry_ok (some (descs, source)) = not (is_empty descs)

abbrev pub value_ok : Option DescSet → Bool
value_ok none = true
value_ok (some descs) = not (is_empty descs)

-- Whether an identifier, or a value itself, is tainted.
abbrev pub known : TaintMap → ℕ → Bool
known tm id = not (id == 0) && is_some (tm.gts id)

abbrev pub has_value : TaintMap → ℕ → Bool
has_value tm v = is_some (tm.vts v)

-- What is in the map has a description.
abbrev pub NonEmpty : TaintMap → Type 0
NonEmpty tm = ((id : ℕ) → entry_ok (tm.gts id) ≡ true) × ((v : ℕ) → value_ok (tm.vts v) ≡ true)

-- The identifiers are below n. The flag is whether a further identifier is tainted.
pub record Grows (n : ℕ) (tm tm' : TaintMap) (changed : Bool) : Type 0 where
  pub non_empty : NonEmpty tm'
  pub keeps_known : (id : ℕ) → known tm id ≡ true → known tm' id ≡ true
  pub keeps_values : (v : ℕ) → has_value tm v ≡ true → has_value tm' v ≡ true
  pub some_change :
      changed ≡ true → (id : ℕ) × (id < n) × (known tm id ≡ false) × (known tm' id ≡ true)
  pub no_change : changed ≡ false → (id : ℕ) → known tm' id ≡ known tm id

pub is_empty-insert_all_left :
    (descs ds : DescSet) → is_empty descs ≡ false → is_empty (insert_all descs ds) ≡ false
unfolding insert_all
is_empty-insert_all_left descs [] h = h
is_empty-insert_all_left descs (d ∷ ds) h = elim (Bool-cases (contains descs d)) [
  | inl there ↦ rw (insert_all, there) (is_empty-insert_all_left descs ds h)
  | inr fresh ↦ rw (insert_all, fresh) (is_empty-insert_all_left (d ∷ descs) ds refl)
]

contains-nonempty : (descs : DescSet) (d : ℕ) → contains descs d ≡ true → is_empty descs ≡ false
contains-nonempty [] d h = absurd (cc)
contains-nonempty (e ∷ descs) d h = refl

pub is_empty-insert_all :
    (descs ds : DescSet) → is_empty ds ≡ false → is_empty (insert_all descs ds) ≡ false
unfolding insert_all
is_empty-insert_all descs [] h = absurd (cc)
is_empty-insert_all descs (d ∷ ds) h = elim (Bool-cases (contains descs d)) [
  | inl there ↦
      rw (insert_all, there) (is_empty-insert_all_left descs ds (contains-nonempty descs d there))
  | inr fresh ↦ rw (insert_all, fresh) (is_empty-insert_all_left (d ∷ descs) ds refl)
]

pub is_some-get_id : (tm : TaintMap) (id : ℕ) → is_some (get_id tm id) ≡ known tm id
unfolding get_id
is_some-get_id tm id = elim (Option-cases (tm.gts id)) [
  | inl nothing ↦ rw (get_id, nothing) (ground arith)
  | inr ((descs, source), found) ↦ elim (Bool-cases (id == 0)) [
    | inl empty ↦ rw (get_id, found, empty) refl
    | inr named ↦ rw (get_id, found, named) refl
  ]
]

is_new_entry :
    (o : Option (DescSet × Bool))
    → entry_ok o ≡ true
    → is_empty ((entry_or_empty o).0) ≡ not (is_some o)
is_new_entry none ok = refl
is_new_entry (some (descs, source)) ok = ground arith

module _ (n : ℕ) where
  pub same-Grows : (tm : TaintMap) → NonEmpty tm → Grows n tm tm false
  same-Grows tm ok = record {
    non_empty = ok;
    keeps_known = λ id h. h;
    keeps_values = λ v h. h;
    some_change = λ h. absurd (cc);
    no_change = λ _ id. refl;
  }

  pub then-Grows :
      {p q : Bool} {a b c : TaintMap} → Grows n a b p → Grows n b c q → Grows n a c (p || q)
  then-Grows {p} {q} {a} {b} {c} f g = record {
    non_empty = g.non_empty;
    keeps_known = λ id h. g.keeps_known id (f.keeps_known id h);
    keeps_values = λ v h. g.keeps_values v (f.keeps_values v h);
    some_change = λ h. elim (Bool-cases p) [
      | inl early ↦
          let (id, bound, before, after) = f.some_change early in
          (id, bound, before, g.keeps_known id after)
      | inr quiet ↦
          let (id, bound, before, after) = g.some_change (ground arith) in
          (id, bound, not_before _ _ (f.keeps_known id) before, after)
    ];
    no_change = λ h id. g.no_change (ground arith) id ∙ f.no_change (ground arith) id;
  }

  put_entry-Grows :
      (tm : TaintMap) (id : ℕ) (descs : DescSet) (source new : Bool)
      → id < n
      → (id == 0) ≡ false
      → is_empty descs ≡ false
      → new ≡ not (is_some (tm.gts id))
      → NonEmpty tm
      → Grows n tm
          (record { gts = λ i. if i == id then some (descs, source) else tm.gts i; vts = tm.vts })
          new
  put_entry-Grows tm id descs source new bound named some_desc is_new (entries, values) = record {
    non_empty = (
      λ k. elim (Bool-cases (k == id)) [
        | inl here ↦ rw (here, some_desc) refl
        | inr other ↦ rw other (entries k)
      ],
      values,
    );
    keeps_known = λ k h. elim (Bool-cases (k == id)) [
      | inl here ↦ rw here (ground arith)
      | inr other ↦ rw other h
    ];
    keeps_values = λ v h. h;
    some_change = λ changed.
        let itself : (id == id) ≡ true = ground arith in
        let before : is_some (tm.gts id) ≡ false = ground arith in
        (id, bound, rw (named, before) refl, rw (named, itself) refl);
    no_change = λ unchanged k. elim (Bool-cases (k == id)) [
      | inl here ↦
          let before : is_some (tm.gts id) ≡ true = ground arith in
          rw (here, (==_iff k id).0 here, before) refl
      | inr other ↦ rw other refl
    ];
  }

  pub add_id-Grows :
      (tm : TaintMap) (id : ℕ) (descs : DescSet) (source : Bool)
      → id < n
      → is_empty descs ≡ false
      → NonEmpty tm
      → Grows n tm ((add_id tm id descs source).0) ((add_id tm id descs source).1)
  unfolding add_id
  add_id-Grows tm id descs source bound some_desc (entries, values) = elim (Bool-cases (id == 0)) [
    | inl empty ↦ rw (add_id, empty) (same-Grows tm (entries, values))
    | inr named ↦
        rw (add_id, named)
          (put_entry-Grows tm id _ _ _ bound named (is_empty-insert_all _ descs some_desc)
            (is_new_entry (tm.gts id) (entries id)) (entries, values))
  ]

  pub add_value-Grows :
      (tm : TaintMap) (v : ℕ) (descs : DescSet)
      → is_empty descs ≡ false
      → NonEmpty tm
      → Grows n tm (add_value tm v descs) false
  unfolding add_value
  add_value-Grows tm v descs some_desc (entries, values) = record {
    non_empty = (
      entries,
      λ u. elim (Bool-cases (u == v)) [
        | inl here ↦ rw (here, is_empty-insert_all _ descs some_desc)
        | inr other ↦ rw other (values u)
      ],
    );
    keeps_known = λ id h. h;
    keeps_values =
        λ u h. elim (Bool-cases (u == v)) [ inl here ↦ rw here refl | inr other ↦ rw other h ];
    some_change = λ h. absurd (cc);
    no_change = λ _ id. refl;
  }
