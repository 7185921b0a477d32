-- ===== src/Range/Ends.antt =====
-- src/Range.cc: doModulePass ends, since a range that changes in a late round becomes full.
use kint_test.Base.{
  ℕ, zero, suc, ◌+◌, ◌<◌, ◌≤◌, ◌≡◌, refl, ap, inl, inr, Bool, true, false, ◌||◌, ltb, ◌==◌, Option,
  none, some, List, [], ◌∷◌, arith, Bool-cases, contains,
}
use kint_test.Global.TaintMap.{TaintMap}
use kint_test.Range.Algebra.{ConstantRange}
use kint_test.Range.State.{RangeState, put}
use kint_test.Range.Pass.{
  Function, max_iterations, widen, widen_after, round, do_module_pass_from, do_module_pass,
}
use kint_test.Range.Grows.{is_full, is_present, Grows}
use kint_test.Range.Rounds.{FunctionsBelow, update_functions-Grows}
use kint_test.Base.Slots.{slots, slots_bound, slots-le, slots-lt}

module _ (cr : ConstantRange) (taints : TaintMap) where
  abbrev Ranges : Type 0
  Ranges = ℕ → Option cr.Range

  present_some : (o : Option cr.Range) → is_present cr o ≡ true → (r : cr.Range) × (o ≡ some r)
  present_some none h = absurd (cc)
  present_some (some r) h = (r, refl)

  -- Widening reaches every changed identifier, and keeps what is full.
  widen_lem :
      (ids : List ℕ) (ranges : Ranges)
      → ((id : ℕ) → contains ids id ≡ true → is_present cr (ranges id) ≡ true)
      → (wide : Ranges) × (widen cr taints ids ranges ≡ some wide)
        × ((id : ℕ) → is_full cr (ranges id) ≡ true → is_full cr (wide id) ≡ true)
        × ((id : ℕ) → contains ids id ≡ true → is_full cr (wide id) ≡ true)
  unfolding widen
  widen_lem [] ranges present = (ranges, refl, λ id h. h, λ id h. absurd (cc))
  widen_lem (id ∷ ids) ranges present =
      let (r, found) = present_some (ranges id) (present id (ground arith)) in
      let full = cr.full_set (cr.bits r) in
      let next = put cr ranges id full in
      let is_now_full : (k : ℕ) → (k == id) ≡ true → is_full cr (next k) ≡ true =
        λ k here. rw here (cr.is_full_set-full_set (cr.bits r)) in
      let (wide, widened, keeps, reaches) = widen_lem ids next (λ k listed.
        elim (Bool-cases (k == id)) [
          | inl here ↦ rw here refl
          | inr other ↦ rw other (present k (ground arith))
        ]) in
      (
        wide,
        rw (widen, found) widened,
        λ k h. elim (Bool-cases (k == id)) [
          | inl here ↦ keeps k (is_now_full k here)
          | inr other ↦ keeps k (rw other h)
        ],
        λ k h. elim (Bool-cases (k == id)) [
          | inl here ↦ keeps k (is_now_full k here)
          | inr other ↦ reaches k (ground arith)
        ],
      )

  module _ (n : ℕ) (functions : List Function) (below : FunctionsBelow n functions) where
    abbrev State : Type 0
    State = RangeState cr

    -- What is full after the next widening.
    abbrev settled : State → ℕ → Bool
    settled st id = is_full cr (st.int_ranges id) || contains st.changes id

    abbrev ChangesPresent : State → Type 0
    ChangesPresent st =
        (id : ℕ) → contains st.changes id ≡ true → is_present cr (st.int_ranges id) ≡ true

    round-Grows :
        (st : State)
        → Grows cr n
            (record st { changes = [] })
            ((round cr taints st functions).0)
            ((round cr taints st functions).1)
    unfolding round
    round-Grows st = update_functions-Grows cr taints n (record st { changes = [] }) functions below

    round-ChangesPresent : (st : State) → ChangesPresent ((round cr taints st functions).0)
    round-ChangesPresent st id h = elim ((round-Grows st).new_present id h) [
      | inl before ↦ absurd (cc)
      | inr present ↦ present
    ]

    -- A round that changes something settles an identifier more.
    round_settles :
        (st : State)
        → (round cr taints st functions).1 ≡ true
        → slots n (settled ((round cr taints st functions).0))
          < slots n (λ id. is_full cr (st.int_ranges id))
    round_settles st changed =
        let grows = round-Grows st in
        let (id, bound, listed, plain) = grows.some_change changed in
        slots-lt n (λ k. is_full cr (st.int_ranges k)) (settled ((round cr taints st functions).0))
          id (λ k h. let kept = grows.keeps_full k h in ground arith) bound plain (ground arith)

    -- What doModulePass gives: the last round changed no range.
    abbrev pub Settles : Option (State × Bool) → Type 0
    Settles result =
        (last : State) × (ret : Bool) × (before : State) × (result ≡ some (last, ret))
        × (round cr taints before functions ≡ (last, false))
        × ((id : ℕ) → last.int_ranges id ≡ before.int_ranges id)

    round_quiet :
        (st : State) (ret : Bool)
        → (round cr taints st functions).1 ≡ false
        → Settles (some ((round cr taints st functions).0, ret))
    round_quiet st ret quiet = (
      (round cr taints st functions).0,
      ret,
      st,
      refl,
      ap (λ b. ((round cr taints st functions).0, b)) quiet,
      (round-Grows st).no_change quiet,
    )

    widen_after_late :
        (iteration : ℕ) (st : State)
        → ltb max_iterations iteration ≡ true
        → ChangesPresent st
        → (wide : State) × (widen_after cr taints iteration st ≡ some wide)
          × (slots n (λ id. is_full cr (wide.int_ranges id)) ≤ slots n (settled st))
    unfolding widen_after
    widen_after_late iteration st late present =
        let (ranges, widened, keeps, reaches) = widen_lem st.changes st.int_ranges present in
        (
          record st { int_ranges = ranges },
          rw (widen_after, late, widened),
          slots-le n (settled st) (λ id. is_full cr (ranges id))
              (λ id h. elim (Bool-cases (contains st.changes id)) [
                | inl listed ↦ reaches id listed
                | inr unlisted ↦ keeps id (ground arith)
              ]),
        )

    loop_late :
        (fuel iteration : ℕ) (ret : Bool) (st : State)
        → ltb max_iterations iteration ≡ true
        → ChangesPresent st
        → slots n (settled st) < fuel
        → Settles (do_module_pass_from cr taints fuel iteration ret st functions)
    unfolding do_module_pass_from
    loop_late zero iteration ret st late present enough = absurd (omega arith)
    loop_late (suc fuel) iteration ret st late present enough =
        let (wide, widened, less) = widen_after_late iteration st late present in
        elim (Bool-cases (round cr taints wide functions).1) [
          | inl changed ↦
              let settles = round_settles wide changed in
              rw (do_module_pass_from, widened, changed)
                (loop_late fuel (suc iteration) true ((round cr taints wide functions).0)
                  (ground arith) (round-ChangesPresent wide) (omega arith))
          | inr quiet ↦ rw (do_module_pass_from, widened, quiet) (round_quiet wide ret quiet)
        ]

    loop_early :
        (fuel iteration : ℕ) (ret : Bool) (st : State)
        → (ltb max_iterations iteration ≡ true → ChangesPresent st)
        → n + 6 < fuel + iteration
        → n < fuel
        → Settles (do_module_pass_from cr taints fuel iteration ret st functions)
    unfolding do_module_pass_from widen_after
    loop_early zero iteration ret st present enough some_fuel = absurd (omega arith)
    loop_early (suc fuel) iteration ret st present enough some_fuel =
        elim (Bool-cases (ltb max_iterations iteration)) [
          | inl late ↦
              let bound = slots_bound n (settled st) in
              loop_late (suc fuel) iteration ret st late (present late) (omega arith)
          | inr early ↦ elim (Bool-cases (round cr taints st functions).1) [
            | inl changed ↦
                rw (do_module_pass_from, widen_after, early, changed)
                  (loop_early fuel (suc iteration) true ((round cr taints st functions).0)
                    (λ _. round-ChangesPresent st) (omega arith) (ground arith))
            | inr quiet ↦
                rw (do_module_pass_from, widen_after, early, quiet) (round_quiet st ret quiet)
          ]
        ]

    -- doModulePass ends, and never widens an identifier without a range, if its functions change
    -- identifiers below n only and the fuel is above n + 5: in the last round no range changed.
    pub do_module_pass-Settles :
        (fuel : ℕ) (st : State)
        → n + 5 < fuel
        → Settles (do_module_pass cr taints fuel st functions)
    unfolding do_module_pass
    do_module_pass-Settles fuel st enough =
        loop_early fuel 1 false st (λ late. absurd (ground arith)) (omega arith) (omega arith)
