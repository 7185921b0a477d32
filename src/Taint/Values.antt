-- ===== src/Taint/Values.antt =====
-- src/Taint.cc: what getTaint looks at, and that taint stays.
use kint_test.Base.{
  ℕ, ◌≡◌, refl, sym, ap, ◌∙◌, inl, inr, Bool, true, false, ◌||◌, ◌==◌, List, [], ◌∷◌, arith,
  Bool-cases, Option-cases,
}
use kint_test.Global.TaintMap.{TaintMap, DescSet, add_value, get_value, get_id}
use kint_test.Taint.Pass.{Value, add_results, add_global, get_global_taint, get_taint}
use kint_test.Taint.Grows.{is_some, known, has_value, Grows, is_some-get_id}

-- Whether a value is tainted: itself, the pointer under its casts, a result or its identifier.
abbrev any_known : TaintMap → List ℕ → Bool
any_known tm [] = false
any_known tm (id ∷ ids) = known tm id || any_known tm ids

abbrev pub tainted : TaintMap → Value → Bool
tainted tm v =
    (has_value tm v.number || has_value tm v.stripped) || (any_known tm v.callees || known tm v.id)

abbrev pub any_tainted : TaintMap → List Value → Bool
any_tainted tm [] = false
any_tainted tm (v ∷ vs) = tainted tm v || any_tainted tm vs

add_results-known :
    (tm : TaintMap) (number : ℕ) (ids : List ℕ) (id : ℕ)
    → known (add_results tm number ids) id ≡ known tm id
unfolding add_results add_value
add_results-known tm number [] id = refl
add_results-known tm number (r ∷ ids) id = elim (Option-cases (get_id tm r)) [
  | inl nothing ↦ rw (add_results, nothing) (add_results-known tm number ids id)
  | inr (descs, found) ↦
      rw (add_results, found) (add_results-known (add_value tm number descs) number ids id)
]

pub add_value-has_value :
    (tm : TaintMap) (v : ℕ) (descs : DescSet) → has_value (add_value tm v descs) v ≡ true
unfolding add_value
add_value-has_value tm v descs = let itself : (v == v) ≡ true = ground arith in rw itself refl

any_known-add_value :
    (tm : TaintMap) (v : ℕ) (descs : DescSet) (ids : List ℕ)
    → any_known (add_value tm v descs) ids ≡ any_known tm ids
unfolding add_value
any_known-add_value tm v descs [] = refl
any_known-add_value tm v descs (id ∷ ids) =
    let ih = any_known-add_value tm v descs ids in rw ih refl

add_results-has_value :
    (tm : TaintMap) (number : ℕ) (ids : List ℕ)
    → has_value (add_results tm number ids) number ≡ (has_value tm number || any_known tm ids)
unfolding add_results
add_results-has_value tm number [] = ground arith
add_results-has_value tm number (r ∷ ids) =
    let present = is_some-get_id tm r in
    elim (Option-cases (get_id tm r)) [
      | inl nothing ↦
          let unknown : known tm r ≡ false = sym present ∙ ap is_some nothing in
          rw (add_results, nothing, unknown) (add_results-has_value tm number ids)
      | inr (descs, found) ↦
          let known_r : known tm r ≡ true = sym present ∙ ap is_some found in
          let ih = add_results-has_value (add_value tm number descs) number ids in
          let here = add_value-has_value tm number descs in
          rw (add_results, found, known_r) (ih ∙ ground arith)
    ]

add_global-has_value :
    (tm : TaintMap) (number id : ℕ)
    → has_value (add_global tm number (get_id tm id)) number ≡ (has_value tm number || known tm id)
add_global-has_value tm number id =
    let present = is_some-get_id tm id in
    elim (Option-cases (get_id tm id)) [
      | inl nothing ↦
          let unknown : known tm id ≡ false = sym present ∙ ap is_some nothing in
          rw (nothing, unknown) (ground arith)
      | inr (descs, found) ↦
          let known_id : known tm id ≡ true = sym present ∙ ap is_some found in
          let here = add_value-has_value tm number descs in
          rw (found, known_id) (here ∙ ground arith)
    ]

get_global_taint-has_value :
    (tm : TaintMap) (v : Value)
    → has_value (get_global_taint tm v) v.number
      ≡ (has_value tm v.number || (any_known tm v.callees || known tm v.id))
unfolding get_global_taint
get_global_taint-has_value tm v =
    let called = add_results tm v.number v.callees in
    let by_id = add_global-has_value called v.number v.id in
    let by_calls = add_results-has_value tm v.number v.callees in
    let same = add_results-known tm v.number v.callees v.id in ground arith

pub get_taint-tainted : (tm : TaintMap) (v : Value) → is_some ((get_taint tm v).0) ≡ tainted tm v
unfolding get_taint get_value
get_taint-tainted tm v = elim (Option-cases (tm.vts v.number)) [
  | inr (descs, found) ↦ rw (get_taint, found) (ground arith)
  | inl nothing ↦ elim (Option-cases (tm.vts v.stripped)) [
    | inr (descs, found) ↦ rw (get_taint, nothing, found) (ground arith)
    | inl nothing' ↦
        let global = get_global_taint-has_value tm v in
        let bare : has_value tm v.number ≡ false = rw nothing refl in
        rw (get_taint, nothing, nothing') (global ∙ rw bare refl)
  ]
]

module _ {n : ℕ} {a b : TaintMap} {changed : Bool} (grows : Grows n a b changed) where
  any_known-Grows : (ids : List ℕ) → any_known a ids ≡ true → any_known b ids ≡ true
  any_known-Grows [] h = absurd (cc)
  any_known-Grows (id ∷ ids) h = elim (Bool-cases (known a id)) [
    | inl here ↦ let now = grows.keeps_known id here in ground arith
    | inr later ↦ let ih = any_known-Grows ids (ground arith) in ground arith
  ]

  pub tainted-Grows : (v : Value) → tainted a v ≡ true → tainted b v ≡ true
  tainted-Grows v h = elim (Bool-cases (has_value a v.number)) [
    | inl itself ↦ let now = grows.keeps_values v.number itself in ground arith
    | inr not_itself ↦ elim (Bool-cases (has_value a v.stripped)) [
      | inl below ↦ let now = grows.keeps_values v.stripped below in ground arith
      | inr not_below ↦ elim (Bool-cases (any_known a v.callees)) [
        | inl called ↦ let now = any_known-Grows v.callees called in ground arith
        | inr uncalled ↦ let now = grows.keeps_known v.id (ground arith) in ground arith
      ]
    ]
  ]
