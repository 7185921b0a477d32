-- ===== src/CallGraph/Ends.antt =====
-- src/CallGraph.cc: doModulePass ends, at sets that no function changes.
use kint_test.Base.{
  ℕ, zero, suc, ◌+◌, ◌*◌, ◌/◌, ◌%◌, ◌<◌, ◌≤◌, ◌≡◌, refl, ◌∙◌, inl, inr, Bool, true, false, Option,
  some, List, arith, Bool-cases, contains,
}
use native.Mathlib.Nat.{
  mul-add-div_right, mul-add-mod_self_right, mod-eq_of_lt, div-eq_of_lt, mul-le-mul_right, suc-mul,
}
use kint_test.Base.Slots.{slots, slots_bound, slots-lt}
use kint_test.CallGraph.Find.{Node}
use kint_test.CallGraph.Init.{Ptrs}
use kint_test.CallGraph.Pass.{Instr, Update, run_on_functions, do_module_pass_from, do_module_pass}
use kint_test.CallGraph.Grows.{Bounded, Grows}
use kint_test.CallGraph.Steps.{InstrsBelow, Program, run_on_functions-Updates}

-- Whether a function is in the set of an identifier, by the number of the pair.
abbrev pub cells : ℕ → Ptrs → ℕ → Bool
cells m ptrs k = contains (ptrs (k / m)) (k % m)

cell-lt : (n m id f : ℕ) → id < n → f < m → id * m + f < n * m
cell-lt n m id f below bound =
    let rows : suc id * m ≤ n * m = mul-le-mul_right m below in
    let row = suc-mul id m in omega arith

cell-div : (m id f : ℕ) → f < m → (id * m + f) / m ≡ id
cell-div m id f bound =
    let positive : 0 < m = omega arith in
    let split : (id * m + f) / m ≡ id + f / m = mul-add-div_right positive id f in
    let none_left : f / m ≡ 0 = div-eq_of_lt bound in omega arith

cell-mod : (m id f : ℕ) → f < m → (id * m + f) % m ≡ f
cell-mod m id f bound = mul-add-mod_self_right id m f ∙ mod-eq_of_lt bound

module _ (node : ℕ → Node) (funcs : ℕ → Option ℕ) (fuel : ℕ) (arg_id : ℕ → ℕ → ℕ) (n m : ℕ)
    (program : Program node funcs arg_id n m) (enough : n < fuel) (instrs : List Instr)
    (below : InstrsBelow n instrs) where
  abbrev round : Ptrs → Update
  round ptrs = run_on_functions node funcs fuel arg_id ptrs instrs

  -- The last round changes nothing, and no function is lost since the sets `first`.
  abbrev Fixed : (first : Ptrs) → Update → Type 0
  Fixed first result =
      (last : Ptrs) × (ret : Bool) × (result ≡ some (last, ret))
      × (round last ≡ some (last, false))
      × Bounded m last
      × ((id f : ℕ) → contains (first id) f ≡ true → contains (last id) f ≡ true)

  pub fewer_cells :
      (ptrs after : Ptrs)
      → Grows n m ptrs after true
      → slots (n * m) (cells m after) < slots (n * m) (cells m ptrs)
  fewer_cells ptrs after grows =
      let (id, f, id_below, bound, fresh, there) = grows.changes refl in
      let row = cell-div m id f bound in
      let column = cell-mod m id f bound in
      slots-lt (n * m) (cells m ptrs) (cells m after) (id * m + f)
        (λ k h. grows.keeps (k / m) (k % m) h) (cell-lt n m id f id_below bound)
        (rw (row, column) fresh) (rw (row, column) there)

  loop :
      (rounds : ℕ) (ret : Bool) (ptrs : Ptrs)
      → Bounded m ptrs
      → slots (n * m) (cells m ptrs) < rounds
      → Fixed ptrs (do_module_pass_from node funcs fuel arg_id rounds ret ptrs instrs)
  unfolding do_module_pass_from
  loop zero ret ptrs ok short = absurd (omega arith)
  loop (suc rounds) ret ptrs ok short =
      let (after, changed, found, grows) =
        run_on_functions-Updates node funcs fuel arg_id n m program enough instrs ptrs below ok in
      elim (Bool-cases changed) [
        | inl more ↦
            let grows' : Grows n m ptrs after true = rw more at grows in
            let fewer = fewer_cells ptrs after grows' in
            let (last, result, is_result, fixed, bounded, keeps) =
              loop rounds true after grows.bounded (omega arith) in
            (
              last,
              result,
              rw (do_module_pass_from, found, more) is_result,
              fixed,
              bounded,
              λ id f h. keeps id f (grows.keeps id f h),
            )
        | inr done ↦
            let same = grows.quiet done in
            let again : round ptrs ≡ some (after, false) = rw done at found in
            (
              after,
              ret,
              rw (do_module_pass_from, found, done) refl,
              rw same (rw same at again),
              grows.bounded,
              grows.keeps,
            )
      ]

  -- doModulePass ends for a program with values and identifiers below n and functions below m, if
  -- the sets have functions below m only before, and there are more than n * m rounds: the sets at
  -- the end are those that a further round over the functions leaves as they are, and no function
  -- of a set is lost.
  pub do_module_pass-fixed_point :
      (rounds : ℕ) (ptrs : Ptrs)
      → Bounded m ptrs
      → n * m < rounds
      → (last : Ptrs) × (ret : Bool) × (do_module_pass node funcs fuel arg_id rounds ptrs instrs
          ≡ some (last, ret))
        × (run_on_functions node funcs fuel arg_id last instrs ≡ some (last, false))
        × Bounded m last
        × ((id f : ℕ) → contains (ptrs id) f ≡ true → contains (last id) f ≡ true)
  unfolding do_module_pass
  do_module_pass-fixed_point rounds ptrs ok long =
      let most = slots_bound (n * m) (cells m ptrs) in loop rounds false ptrs ok (omega arith)
