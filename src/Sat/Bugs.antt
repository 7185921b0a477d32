-- ===== src/Sat/Bugs.antt =====
-- src/IntSat.cc: runOnFunction and check, which report a condition once.
use kint_test.Base.{
  ℕ, ◌≡◌, refl, inl, inr, Bool, true, false, not, ◌&&◌, ◌||◌, ◌==◌, List, [], ◌∷◌, Bool-cases,
  arith, if◌then◌else◌, ==_iff, contains,
}

-- A call of int.sat: its condition, whether that is a constant, whether its place in the source is
-- known, whether it has the metadata of the bug, and whether the query is satisfiable.
pub record Call : Type 0 where
  pub value : ℕ
  pub is_constant : Bool
  pub is_located : Bool
  pub has_bug : Bool
  pub is_sat : Bool

-- IntSat::check: the ReportedBugs after it
unfoldable pub check : List ℕ → Call → List ℕ
check reported c =
    if c.is_constant
    then reported
    else if contains reported c.value
    then reported
    else if not c.is_located
    then reported
    else if not c.has_bug
    then reported
    else if c.is_sat
    then c.value ∷ reported
    else reported

unfoldable pub check_all : List ℕ → List Call → List ℕ
unfolding check
check_all reported [] = reported
check_all reported (c ∷ calls) = check_all (check reported c) calls

-- IntSat::runOnFunction, over the calls of int.sat in the function
unfoldable pub run_on_function : List Call → List ℕ
unfolding check_all
run_on_function calls = check_all [] calls

abbrev pub is_bug : Call → Bool
is_bug c = not c.is_constant && c.is_located && c.has_bug && c.is_sat

abbrev pub any_bug : List Call → ℕ → Bool
any_bug [] v = false
any_bug (c ∷ calls) v = (is_bug c && c.value == v) || any_bug calls v

abbrev pub no_repeat : List ℕ → Bool
no_repeat [] = true
no_repeat (v ∷ vs) = not (contains vs v) && no_repeat vs

contains-check :
    (reported : List ℕ) (c : Call) (v : ℕ)
    → contains (check reported c) v ≡ (contains reported v || (is_bug c && c.value == v))
unfolding check
contains-check reported c v = elim (Bool-cases (contains reported c.value)) [
  | inl there ↦ elim (Bool-cases (c.value == v)) [
    | inl same ↦
        let at_v : contains reported v ≡ true = rw ((==_iff c.value v).0 same) at there in
        ground arith
    | inr other ↦ ground arith
  ]
  | inr fresh ↦ ground arith
]

no_repeat-check :
    (reported : List ℕ) (c : Call) → no_repeat reported ≡ true → no_repeat (check reported c) ≡ true
unfolding check
no_repeat-check reported c h = ground arith

check_all_lem :
    (reported : List ℕ) (calls : List Call)
    → no_repeat reported ≡ true
    → (no_repeat (check_all reported calls) ≡ true)
      × ((v : ℕ) → contains (check_all reported calls) v ≡ (contains reported v || any_bug calls v))
unfolding check_all
check_all_lem reported [] h = (h, λ v. ground arith)
check_all_lem reported (c ∷ calls) h =
    let (once, same) = check_all_lem (check reported c) calls (no_repeat-check reported c h) in
    (once, λ v. let here = contains-check reported c v in let later = same v in ground arith)

-- runOnFunction reports every condition at most once, and exactly the conditions of the calls that
-- are no constants, have a place in the source and the metadata of the bug, and a satisfiable
-- query.
pub run_on_function-reports :
    (calls : List Call)
    → (no_repeat (run_on_function calls) ≡ true)
      × ((v : ℕ) → contains (run_on_function calls) v ≡ any_bug calls v)
unfolding run_on_function
run_on_function-reports calls = check_all_lem [] calls refl
