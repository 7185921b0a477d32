-- ===== src/Range/Held.antt =====
-- src/Range.cc: after doInitialization the ranges hold the integers of the initializers.
use kint_test.Base.{
  ℕ, ◌%◌, ◌^◌, ◌≡◌, refl, sym, ◌∙◌, ap, inl, inr, Bool, true, false, ◌==◌, if◌then◌else◌, Option,
  none, some, List, [], ◌∷◌, ◌++◌, arith, Bool-cases, ==_iff,
}
use kint_test.Word.{IsWord, mod_small}
use kint_test.Range.Algebra.{ConstantRange}
use kint_test.Range.State.{RangeState, join, union_id}
use kint_test.Range.Sound.{contains-safe_union}
use kint_test.Range.Init.{
  Constant, constant_int, constant_struct, constant_array, other_constant, Fields, end,
  struct_field, int_field, other_field, Elements, nil, element, GlobalVariable, union_int,
  union_field, collect_initializers, collect_fields, collect_elements, collect_variable,
  do_initialization,
}

-- The integers of a constant, each with its identifier, in the order of their places.
abbrev pub Ints : Type 0
Ints = List (ℕ × ℕ × ℕ)

abbrev pub field_ints : (id : ℕ) → Option (ℕ × ℕ) → Ints
field_ints id none = []
field_ints id (some (width, value)) = if id == 0 then [] else (id, width, value) ∷ []

unfoldable mutual
  pub constant_ints : (gv : ℕ) → Constant → Ints
  constant_ints gv (constant_int width value) = (gv, width, value) ∷ []
  constant_ints gv (constant_struct anonymous fields) =
      if anonymous then [] else fields_ints gv fields
  constant_ints gv (constant_array searched elements) =
      if searched then elements_ints gv elements else []
  constant_ints gv other_constant = []

  pub fields_ints : (gv : ℕ) → Fields → Ints
  fields_ints gv end = []
  fields_ints gv (struct_field c fields) = constant_ints gv c ++ fields_ints gv fields
  fields_ints gv (int_field id c fields) = field_ints id c ++ fields_ints gv fields
  fields_ints gv (other_field fields) = fields_ints gv fields

  pub elements_ints : (gv : ℕ) → Elements → Ints
  elements_ints gv nil = []
  elements_ints gv (element c elements) = constant_ints gv c ++ elements_ints gv elements

abbrev pub initial_ints : Bool → (gv : ℕ) → Option Constant → Ints
initial_ints dotted gv none = []
initial_ints dotted gv (some c) = if dotted then [] else constant_ints gv c

abbrev pub variables_ints : List GlobalVariable → Ints
variables_ints [] = []
variables_ints (v ∷ vs) = initial_ints v.dotted v.var_id v.initializer ++ variables_ints vs

module _ (cr : ConstantRange) where
  open cr use {Range, bits, contains, single}

  abbrev union_ints : Ints → RangeState cr → RangeState cr
  union_ints [] st = st
  union_ints ((id, w, c) ∷ ints) st = union_ints ints (union_int cr st id (w, c))

  union_ints_append :
      (xs ys : Ints) (st : RangeState cr)
      → union_ints (xs ++ ys) st ≡ union_ints ys (union_ints xs st)
  union_ints_append [] ys st = refl
  union_ints_append ((id, w, c) ∷ xs) ys st = union_ints_append xs ys (union_int cr st id (w, c))

  union_field-ints :
      (id : ℕ) (c : Option (ℕ × ℕ)) (st : RangeState cr)
      → union_field cr st id c ≡ union_ints (field_ints id c) st
  union_field-ints id none st = refl
  union_field-ints id (some (width, value)) st = elim (Bool-cases (id == 0)) [
    | inl empty ↦ rw empty refl
    | inr named ↦ rw named refl
  ]

  mutual
    unfolding collect_initializers constant_ints

    collect_constant :
        (c : Constant) (gv : ℕ) (st : RangeState cr)
        → collect_initializers cr gv c st ≡ union_ints (constant_ints gv c) st
    collect_constant (constant_int width value) gv st = refl
    collect_constant (constant_struct anonymous fields) gv st = elim (Bool-cases anonymous) [
      | inl skipped ↦ rw skipped refl
      | inr named ↦ rw named (collect_struct fields gv st)
    ]
    collect_constant (constant_array searched elements) gv st = elim (Bool-cases searched) [
      | inl looked ↦ rw looked (collect_array elements gv st)
      | inr skipped ↦ rw skipped refl
    ]
    collect_constant other_constant gv st = refl

    collect_struct :
        (fields : Fields) (gv : ℕ) (st : RangeState cr)
        → collect_fields cr gv fields st ≡ union_ints (fields_ints gv fields) st
    collect_struct end gv st = refl
    collect_struct (struct_field c fields) gv st =
        collect_struct fields gv (collect_initializers cr gv c st)
        ∙ ap (union_ints (fields_ints gv fields)) (collect_constant c gv st)
        ∙ sym (union_ints_append (constant_ints gv c) (fields_ints gv fields) st)
    collect_struct (int_field id c fields) gv st =
        collect_struct fields gv (union_field cr st id c)
        ∙ ap (union_ints (fields_ints gv fields)) (union_field-ints id c st)
        ∙ sym (union_ints_append (field_ints id c) (fields_ints gv fields) st)
    collect_struct (other_field fields) gv st = collect_struct fields gv st

    collect_array :
        (elements : Elements) (gv : ℕ) (st : RangeState cr)
        → collect_elements cr gv elements st ≡ union_ints (elements_ints gv elements) st
    collect_array nil gv st = refl
    collect_array (element c elements) gv st =
        collect_array elements gv (collect_initializers cr gv c st)
        ∙ ap (union_ints (elements_ints gv elements)) (collect_constant c gv st)
        ∙ sym (union_ints_append (constant_ints gv c) (elements_ints gv elements) st)

  collect_variable-ints :
      (v : GlobalVariable) (c : Option Constant) (st : RangeState cr)
      → collect_variable cr v c st ≡ union_ints (initial_ints v.dotted v.var_id c) st
  collect_variable-ints v none st = refl
  collect_variable-ints v (some c) st = elim (Bool-cases v.dotted) [
    | inl skipped ↦ rw skipped refl
    | inr taken ↦ rw taken (collect_constant c v.var_id st)
  ]

  -- doInitialization is unionRange for the integers of the initializers, in the order of their
  -- places.
  do_initialization-union_ints :
      (vs : List GlobalVariable) (st : RangeState cr)
      → do_initialization cr vs st ≡ union_ints (variables_ints vs) st
  unfolding do_initialization
  do_initialization-union_ints [] st = refl
  do_initialization-union_ints (v ∷ vs) st =
      do_initialization-union_ints vs (collect_variable cr v v.initializer st)
      ∙ ap (union_ints (variables_ints vs)) (collect_variable-ints v v.initializer st)
      ∙ sym
          (union_ints_append (initial_ints v.dotted v.var_id v.initializer) (variables_ints vs) st)

  abbrev holds : Option Range → (x : ℕ) → Bool
  holds none x = false
  holds (some r) x = contains r x

  -- Whether the global range of an identifier has a word.
  abbrev pub in_global : RangeState cr → (id x : ℕ) → Bool
  in_global st id x = holds (st.int_ranges id) x

  abbrev width_of : Option Range → ℕ
  width_of none = 0
  width_of (some r) = bits r

  module _ (width : ℕ → ℕ) where
    abbrev pub HasWidths : RangeState cr → Type 0
    HasWidths st = (id : ℕ) (r : Range) → st.int_ranges id ≡ some r → bits r ≡ width id

    abbrev pub Fit : Ints → Type 0
    Fit [] = Unit
    Fit ((id, w, c) ∷ ints) = (w ≡ width id) × IsWord w c × Fit ints

    abbrev pub Held : Ints → RangeState cr → Type 0
    Held [] st = Unit
    Held ((id, w, c) ∷ ints) st = (in_global st id c ≡ true) × Held ints st

    join_lem :
        (old : Option Range) (w c : ℕ)
        → ((r : Range) → old ≡ some r → bits r ≡ w)
        → IsWord w c
        → (bits ((join cr old (single w c)).0) ≡ w)
          × (contains ((join cr old (single w c)).0) c ≡ true)
          × ((x : ℕ) → holds old x ≡ true → contains ((join cr old (single w c)).0) x ≡ true)
    unfolding join
    join_lem none w c fits word =
        (cr.bits-single w c, cr.contains-single w c word, λ x h. absurd (cc))
    join_lem (some old) w c fits word =
        let same = fits old refl in
        let (kept_width, kept, added) = contains-safe_union cr old (single w c) in
        let small : c % 2 ^ bits old ≡ c = rw same (mod_small c (2 ^ w) word) in
        let now = added c (cr.contains-single w c word) (rw (cr.bits-single w c) word) in
        (kept_width ∙ same, rw small at now, kept)

    union_id_holds :
        (st : RangeState cr) (id c : ℕ)
        → HasWidths st
        → IsWord (width id) c
        → HasWidths (union_int cr st id (width id, c))
          × (in_global (union_int cr st id (width id, c)) id c ≡ true)
          × ((i x : ℕ)
              → in_global st i x ≡ true
              → in_global (union_int cr st id (width id, c)) i x ≡ true)
    unfolding union_id
    union_id_holds st id c widths word =
        let held = cr.contains-single (width id) c word in
        let some_word = cr.contains-is_empty_set (single (width id) c) c held in
        let (fits, now, kept) = join_lem (st.int_ranges id) (width id) c (widths id) word in
        rw (union_int, union_id, some_word)
          (
            λ i r found. elim (Bool-cases (i == id)) [
              | inl here ↦
                  let same_range : some ((join cr (st.int_ranges id) (single (width id) c)).0)
                      ≡ some r =
                    rw here at found in
                  sym (ap width_of same_range) ∙ fits ∙ ap width (sym ((==_iff i id).0 here))
              | inr other ↦ widths i r (rw other at found)
            ],
            (let itself : (id == id) ≡ true = ground arith in rw itself now),
            λ i x h. elim (Bool-cases (i == id)) [
              | inl here ↦ rw here (kept x (rw ((==_iff i id).0 here) at h))
              | inr other ↦ rw other h
            ],
          )

    union_ints_holds :
        (ints : Ints) (st : RangeState cr)
        → HasWidths st
        → Fit ints
        → Held ints (union_ints ints st)
          × HasWidths (union_ints ints st)
          × ((i x : ℕ) → in_global st i x ≡ true → in_global (union_ints ints st) i x ≡ true)
    union_ints_holds [] st widths fit = (tt, widths, λ i x h. h)
    union_ints_holds ((id, w, c) ∷ ints) st widths (same, word, fit) =
        let (widths', now, kept) = union_id_holds st id c widths (rw same at word) in
        let (held, last, kept') =
          union_ints_holds ints (union_int cr st id (width id, c)) widths' fit in
        rw same ((kept' id c now, held), last, λ i x h. kept' i x (kept i x h))

  -- After doInitialization, the global ranges hold every integer of the initializers that it looks
  -- into, under its identifier, and what they held before; the ranges keep their widths. It does not
  -- look into variables with a dotted name, anonymous structs, and arrays inside structs or of other
  -- elements than structs and integers. The integers are words, and their widths are those of their
  -- identifiers, as are the widths of the ranges before.
  pub do_initialization-Held :
      (width : ℕ → ℕ) (vs : List GlobalVariable) (st : RangeState cr)
      → HasWidths width st
      → Fit width (variables_ints vs)
      → Held width (variables_ints vs) (do_initialization cr vs st)
        × HasWidths width (do_initialization cr vs st)
        × ((i x : ℕ) → in_global st i x ≡ true → in_global (do_initialization cr vs st) i x ≡ true)
  do_initialization-Held width vs st widths fit =
      rw (do_initialization-union_ints vs st)
        (union_ints_holds width (variables_ints vs) st widths fit)
