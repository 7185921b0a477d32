-- ===== src/Global/TaintMap.antt =====
-- src/IntGlobal.h: TaintMap. Values, descriptions and identifiers are numbers, and 0 is the empty
-- identifier; a map is a function that gives `none` for a missing key, and a set is a list.
use kint_test.Base.{
  ℕ, ◌≡◌, ◌≢◌, ◌↔◌, refl, Bool, true, false, ◌||◌, ◌&&◌, not, ◌==◌, if◌then◌else◌, Option, none,
  some, inl, inr, List, [], ◌∷◌, arith, Bool-cases, ==_iff, contains,
}

abbrev pub DescSet : Type 0
DescSet = List ℕ

-- std::set's insert of a range
unfoldable pub insert_all : DescSet → DescSet → DescSet
insert_all descs [] = descs
insert_all descs (d ∷ ds) = insert_all (if contains descs d then descs else d ∷ descs) ds

abbrev pub is_empty : DescSet → Bool
is_empty [] = true
is_empty (d ∷ descs) = false

pub record TaintMap : Type 0 where
  -- GTS: the descriptions of an identifier, and whether it is a source
  pub gts : ℕ → Option (DescSet × Bool)
  -- VTS
  pub vts : ℕ → Option DescSet

abbrev descs_or_empty : Option DescSet → DescSet
descs_or_empty none = []
descs_or_empty (some descs) = descs

abbrev pub entry_or_empty : Option (DescSet × Bool) → DescSet × Bool
entry_or_empty none = ([], false)
entry_or_empty (some entry) = entry

-- add(Value *, const DescSet &)
unfoldable pub add_value : TaintMap → ℕ → DescSet → TaintMap
unfolding insert_all
add_value tm v descs = record {
  gts = tm.gts;
  vts = λ u. if u == v then some (insert_all (descs_or_empty (tm.vts v)) descs) else tm.vts u;
}

-- get(Value *)
unfoldable pub get_value : TaintMap → ℕ → Option DescSet
get_value tm v = tm.vts v

abbrev pub entry_descs : ℕ → Option (DescSet × Bool) → Option DescSet
entry_descs id none = none
entry_descs id (some (descs, source)) = if id == 0 then none else some descs

-- get(const std::string &)
unfoldable pub get_id : TaintMap → ℕ → Option DescSet
get_id tm id = entry_descs id (tm.gts id)

-- add(const std::string &, const DescSet &, bool)
unfoldable pub add_id : TaintMap → ℕ → DescSet → (is_source : Bool) → TaintMap × Bool
unfolding insert_all
add_id tm id descs is_source =
    let entry = entry_or_empty (tm.gts id) in
    if id == 0 then (tm, false) else (
      record {
        gts = λ i.
            if i == id then some (insert_all entry.0 descs, entry.1 || is_source) else tm.gts i;
        vts = tm.vts;
      },
      is_empty entry.0,
    )

-- isSource
unfoldable pub is_source : TaintMap → ℕ → Bool
is_source tm id = if id == 0 then false else (entry_or_empty (tm.gts id)).1

-- Whether an identifier has a description, and which.
abbrev pub described : TaintMap → ℕ → ℕ → Bool
unfolding get_id
described tm id d = contains (descs_or_empty (get_id tm id)) d

is_empty-contains : (descs : DescSet) (d : ℕ) → is_empty descs ≡ true → contains descs d ≡ false
is_empty-contains [] d h = refl
is_empty-contains (e ∷ descs) d h = cc

contains-is_empty : (descs : DescSet) → ((d : ℕ) → contains descs d ≡ false) → is_empty descs ≡ true
contains-is_empty [] h = refl
contains-is_empty (e ∷ descs) h = let first = h e in ground arith

contains-insert_all :
    (descs ds : DescSet) (d : ℕ)
    → contains (insert_all descs ds) d ≡ (contains descs d || contains ds d)
unfolding insert_all
contains-insert_all descs [] d = ground arith
contains-insert_all descs (e ∷ ds) d = elim (Bool-cases (contains descs e)) [
  | inl there ↦
      let ih = contains-insert_all descs ds d in
      rw (insert_all, there)
        (elim (Bool-cases (e == d)) [
          | inl same ↦
              let here : contains descs d ≡ true = rw ((==_iff e d).0 same) at there in ground arith
          | inr other ↦ ground arith
        ])
  | inr fresh ↦ let ih = contains-insert_all (e ∷ descs) ds d in rw (insert_all, fresh) ground arith
]

described-entry :
    (tm : TaintMap) (i d : ℕ)
    → described tm i d ≡ (not (i == 0) && contains ((entry_or_empty (tm.gts i)).0) d)
unfolding get_id
described-entry tm i d = go (tm.gts i)
  where
    go :
        (o : Option (DescSet × Bool))
        → contains (descs_or_empty (entry_descs i o)) d
          ≡ (not (i == 0) && contains ((entry_or_empty o).0) d)
    go none = ground arith
    go (some (descs, source)) = elim (Bool-cases (i == 0)) [
      | inl empty ↦ rw (empty)
      | inr named ↦ rw (named)
    ]

module _ (tm : TaintMap) (id : ℕ) (descs : DescSet) (source : Bool) (named : id ≢ 0) where
  abbrev added : TaintMap × Bool
  added = add_id tm id descs source

  added-gts :
      (i : ℕ)
      → added.0.gts i ≡ (
          if i == id
          then some (
            insert_all ((entry_or_empty (tm.gts id)).0) descs,
            (entry_or_empty (tm.gts id)).1 || source,
          )
          else tm.gts i)
  unfolding add_id
  added-gts i = let filled : (id == 0) ≡ false = ground arith in rw (add_id, filled)

  add_id-described :
      (i d : ℕ) → described (added.0) i d ≡ (described tm i d || (i == id && contains descs d))
  unfolding add_id
  add_id-described i d = elim (Bool-cases (i == id)) [
    | inl same ↦
        let at_id = (==_iff i id).0 same in
        rw
          (
            described-entry (added.0),
            described-entry tm,
            added-gts,
            same,
            at_id,
            contains-insert_all,
          )
          (ground arith)
    | inr other ↦
        rw (described-entry (added.0), described-entry tm, added-gts, other) (ground arith)
  ]

  add_id-is_source : (i : ℕ) → is_source (added.0) i ≡ (is_source tm i || (i == id && source))
  unfolding add_id is_source
  add_id-is_source i = elim (Bool-cases (i == id)) [
    | inl same ↦
        let at_id = (==_iff i id).0 same in rw (is_source, added-gts, same, at_id) (ground arith)
    | inr other ↦ rw (is_source, added-gts, other) (ground arith)
  ]

  add_id-is_new : (added.1 ≡ true) ↔ ((e : ℕ) → described tm id e ≡ false)
  unfolding add_id
  add_id-is_new =
      let filled : (id == 0) ≡ false = ground arith in
      (
        λ new. λ e.
            let bare : is_empty ((entry_or_empty (tm.gts id)).0) ≡ true =
              rw (add_id, filled) at new in
            let entry = described-entry tm id e in
            let nothing = is_empty-contains ((entry_or_empty (tm.gts id)).0) e bare in ground arith,
        λ bare.
            rw (add_id, filled)
              (contains-is_empty ((entry_or_empty (tm.gts id)).0)
                (λ e. let entry = described-entry tm id e in let nothing = bare e in ground arith)),
      )

-- After `add` of descriptions to an identifier that is not empty, it has the old ones and the new
-- ones, and the other identifiers have what they had; it is a source if it was one or is added as
-- one; and `add` says that it is new exactly if it had no description.
pub add_id_lem :
    (tm : TaintMap) (id : ℕ) (descs : DescSet) (source : Bool)
    → id ≢ 0
    → ((i d : ℕ)
        → described ((add_id tm id descs source).0) i d
          ≡ (described tm i d || (i == id && contains descs d)))
      × ((i : ℕ)
          → is_source ((add_id tm id descs source).0) i ≡ (is_source tm i || (i == id && source)))
      × (((add_id tm id descs source).1 ≡ true) ↔ ((e : ℕ) → described tm id e ≡ false))
add_id_lem tm id descs source named = (
  add_id-described tm id descs source named,
  add_id-is_source tm id descs source named,
  add_id-is_new tm id descs source named,
)
