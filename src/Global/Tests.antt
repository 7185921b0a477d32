-- ===== src/Global/Tests.antt =====
-- src/IntGlobal.cc and src/IntGlobal.h: a pass that counts down, and a map with one source.
use kint_test.Base.{
  ℕ, ◌+◌, ◌-◌, ◌≡◌, ◌↔◌, refl, Bool, true, false, ltb, ◌==◌, ◌||◌, ◌&&◌, if◌then◌else◌, none, some,
  [], ◌∷◌, arith, contains,
}
use kint_test.Global.Driver.{run}
use kint_test.Global.TaintMap.{TaintMap, add_id, get_id, is_source, described, add_id_lem}

-- A module lowers the state down to its number.
abbrev count_down : ℕ → ℕ → ℕ × Bool
count_down m st = if ltb m st then (st - 1, true) else (st, false)

abbrev start_up : ℕ → ℕ → ℕ
start_up m st = st + 1

abbrev keep : ℕ → ℕ → ℕ × Bool
keep m st = (st, m == 5)

run_test : run start_up count_down keep false 13 (3 ∷ 5 ∷ []) 10 ≡ some (3, 5 ∷ [])
unfolding run
run_test = refl

abbrev one_source : TaintMap
one_source = record { gts = λ id. if id == 4 then some (9 ∷ [], true) else none; vts = λ v. none }

get_id_test : get_id ((add_id one_source 4 (9 ∷ 2 ∷ []) false).0) 4 ≡ some (2 ∷ 9 ∷ [])
unfolding get_id add_id
get_id_test = refl

add_id_lem_example :
    ((i d : ℕ)
      → described ((add_id one_source 4 (9 ∷ 2 ∷ []) false).0) i d
        ≡ (described one_source i d || (i == 4 && contains (9 ∷ 2 ∷ []) d)))
    × ((i : ℕ)
        → is_source ((add_id one_source 4 (9 ∷ 2 ∷ []) false).0) i
          ≡ (is_source one_source i || (i == 4 && false)))
    × (((add_id one_source 4 (9 ∷ 2 ∷ []) false).1 ≡ true)
        ↔ ((e : ℕ) → described one_source 4 e ≡ false))
add_id_lem_example = add_id_lem one_source 4 (9 ∷ 2 ∷ []) false (omega arith)
