-- ===== src/CallGraph/Steps.antt =====
-- src/CallGraph.cc: the steps of runOnFunction are `Grows`.
use kint_test.Base.{
  ℕ, ◌+◌, ◌<◌, ◌≡◌, refl, ◌⊎◌, inl, inr, Bool, true, false, ◌||◌, ◌==◌, Option, none, some, List,
  [], ◌∷◌, arith, Bool-cases, ==_iff, contains,
}
use kint_test.CallGraph.Find.{
  FuncSet, Node, function, cast, phi, select, by_id, ignored, unhandled, merge_func_set, resolve,
  find_functions,
}
use kint_test.CallGraph.Init.{Ptrs, put_ptrs}
use kint_test.CallGraph.Pass.{
  Instr, store, return_, call, other, Update, find_into, update_callees, and_update,
  update_argument, update_arguments, run_on_instr, run_on_functions,
}
use kint_test.CallGraph.Sets.{merge_func_set-Extends}
use kint_test.CallGraph.Exact.{gives, NodeBelow}
use kint_test.CallGraph.Walks.{walk, find_functions-exact}
use kint_test.CallGraph.Grows.{Bounded, Grows, same-Grows, then-Grows, put_ptrs-Grows, Updates}

-- The values and identifiers of an instruction.
abbrev pub ArgsBelow : ℕ → List (Option ℕ) → Type 0
ArgsBelow n [] = Unit
ArgsBelow n (none ∷ args) = ArgsBelow n args
ArgsBelow n (some v ∷ args) = (v < n) × ArgsBelow n args

abbrev pub InstrBelow : ℕ → Instr → Type 0
InstrBelow n (store v id) = (v < n) × (id < n)
InstrBelow n (return_ v id) = (v < n) × (id < n)
InstrBelow n (call callee args) = (callee < n) × ArgsBelow n args
InstrBelow n other = Unit

abbrev pub InstrsBelow : ℕ → List Instr → Type 0
InstrsBelow n [] = Unit
InstrsBelow n (i ∷ instrs) = InstrBelow n i × InstrsBelow n instrs

-- A program with values and identifiers below n and functions below m, in which findFunctions meets
-- no fatal error.
pub record Program (node : ℕ → Node) (funcs : ℕ → Option ℕ) (arg_id : ℕ → ℕ → ℕ) (n m : ℕ)
    : Type 0 where
  pub nodes : (v : ℕ) → v < n → NodeBelow n (node v)
  pub functions :
      (v : ℕ) (is_empty : Bool) (name : ℕ)
      → node v ≡ function is_empty name
      → resolve node funcs v is_empty name < m
  pub arg_ids : (f i : ℕ) → arg_id f i < n

module _ (node : ℕ → Node) (funcs : ℕ → Option ℕ) (fuel : ℕ) (arg_id : ℕ → ℕ → ℕ) (n m : ℕ)
    (program : Program node funcs arg_id n m) (enough : n < fuel) where
  gives_fits :
      (ptrs : Ptrs) (v f : ℕ) (nd : Node)
      → Bounded m ptrs
      → node v ≡ nd
      → gives node funcs ptrs v nd f ≡ true
      → f < m
  gives_fits ptrs v f (function is_empty name) ok is h =
      let bound = program.functions v is_empty name is in
      rw ((==_iff f (resolve node funcs v is_empty name)).0 h) bound
  gives_fits ptrs v f (by_id id) ok is h = ok id f h
  gives_fits ptrs v f (cast w) ok is h = absurd (cc)
  gives_fits ptrs v f (phi vs) ok is h = absurd (cc)
  gives_fits ptrs v f (select t u) ok is h = absurd (cc)
  gives_fits ptrs v f ignored ok is h = absurd (cc)
  gives_fits ptrs v f unhandled ok is h = absurd (cc)

  walk_fits :
      (ptrs : Ptrs) (v f : ℕ) (rest : List ℕ)
      → Bounded m ptrs
      → walk node funcs ptrs v rest f ≡ true
      → f < m
  walk_fits ptrs v f [] ok h = gives_fits ptrs v f (node v) ok refl h
  walk_fits ptrs v f (w ∷ rest) ok h = walk_fits ptrs w f rest ok (ground arith)

  found_fits :
      (ptrs : Ptrs) (s after : FuncSet) (v : ℕ)
      → Bounded m ptrs
      → ((f : ℕ) → contains s f ≡ true → f < m)
      → ((f : ℕ)
          → contains after f ≡ true
          → (contains s f ≡ true) ⊎ ((rest : List ℕ) × (walk node funcs ptrs v rest f ≡ true)))
      → (f : ℕ) → contains after f ≡ true
      → f < m
  found_fits ptrs s after v ok fits only f h = elim (only f h) [
    | inl old ↦ fits f old
    | inr (rest, walks) ↦ walk_fits ptrs v f rest ok walks
  ]

  find_into-Updates :
      (ptrs : Ptrs) (v id : ℕ)
      → v < n
      → id < n
      → Bounded m ptrs
      → Updates n m ptrs (find_into node funcs fuel arg_id ptrs v id)
  unfolding find_into
  find_into-Updates ptrs v id v_below below ok =
      let (after, changed, found, keeps, adds, only, changes, quiet) =
        find_functions-exact node funcs ptrs n fuel (ptrs id) v program.nodes v_below enough in
      (
        put_ptrs ptrs id after,
        changed,
        rw (find_into, found) refl,
        put_ptrs-Grows n m ptrs id after changed below ok
            (found_fits ptrs (ptrs id) after v ok (ok id) only) keeps changes quiet,
      )

  and_update-Updates :
      (ptrs : Ptrs) (next : Ptrs → Update) (u : Update)
      → Updates n m ptrs u
      → ((a : Ptrs) → Bounded m a → Updates n m a (next a))
      → Updates n m ptrs (and_update node funcs fuel arg_id next u)
  and_update-Updates ptrs next u (a, p, is_a, x) later =
      let (b, q, is_b, y) = later a x.bounded in
      (b, p || q, rw (is_a, and_update, is_b) refl, then-Grows n m p q ptrs a b x y)

  update_callees-Grows :
      (ptrs : Ptrs) (number : ℕ) (values callees : FuncSet)
      → ((f : ℕ) → contains values f ≡ true → f < m)
      → Bounded m ptrs
      → Grows n m ptrs
          ((update_callees node funcs fuel arg_id ptrs number values callees).0)
          ((update_callees node funcs fuel arg_id ptrs number values callees).1)
  unfolding update_callees
  update_callees-Grows ptrs number values [] fits ok = same-Grows n m ptrs ok
  update_callees-Grows ptrs number values (g ∷ callees) fits ok =
      let id = arg_id g number in
      let merged = merge_func_set-Extends (ptrs id) values in
      let s = (merge_func_set (ptrs id) values).0 in
      let here = (merge_func_set (ptrs id) values).1 in
      let first =
        put_ptrs-Grows n m ptrs id s here (program.arg_ids g number) ok
          (λ f h. elim (merged.only f h) [ inl old ↦ ok id f old | inr fresh ↦ fits f fresh ])
          merged.keeps merged.changes merged.quiet in
      let next = put_ptrs ptrs id s in
      then-Grows n m here _ ptrs next _ first
        (update_callees-Grows next number values callees fits first.bounded)

  update_argument-Updates :
      (ptrs : Ptrs) (number v : ℕ) (callees : FuncSet)
      → v < n
      → Bounded m ptrs
      → Updates n m ptrs (
          update_argument node funcs fuel arg_id ptrs number callees
            (find_functions node funcs ptrs fuel [] v))
  update_argument-Updates ptrs number v callees below ok =
      let (values, changed, found, keeps, adds, only, changes, quiet) =
        find_functions-exact node funcs ptrs n fuel [] v program.nodes below enough in
      elim (Bool-cases changed) [
        | inr none_new ↦ rw (found, none_new) (ptrs, false, refl, same-Grows n m ptrs ok)
        | inl some_new ↦
            rw (found, some_new)
              (
                (update_callees node funcs fuel arg_id ptrs number values callees).0,
                (update_callees node funcs fuel arg_id ptrs number values callees).1,
                refl,
                update_callees-Grows ptrs number values callees
                    (found_fits ptrs [] values v ok (λ f h. absurd (cc)) only) ok,
              )
      ]

  update_arguments-Updates :
      (callees : FuncSet) (args : List (Option ℕ)) (number : ℕ) (ptrs : Ptrs)
      → ArgsBelow n args
      → Bounded m ptrs
      → Updates n m ptrs (update_arguments node funcs fuel arg_id ptrs callees number args)
  unfolding update_arguments
  update_arguments-Updates callees [] number ptrs below ok =
      (ptrs, false, refl, same-Grows n m ptrs ok)
  update_arguments-Updates callees (none ∷ args) number ptrs below ok =
      update_arguments-Updates callees args (number + 1) ptrs below ok
  update_arguments-Updates callees (some v ∷ args) number ptrs (here, below) ok =
      and_update-Updates ptrs
        (λ after. update_arguments node funcs fuel arg_id after callees (number + 1) args)
        (update_argument node funcs fuel arg_id ptrs number callees
          (find_functions node funcs ptrs fuel [] v))
        (update_argument-Updates ptrs number v callees here ok)
        (λ a a_ok. update_arguments-Updates callees args (number + 1) a below a_ok)

  run_on_instr-Updates :
      (ptrs : Ptrs) (i : Instr)
      → InstrBelow n i
      → Bounded m ptrs
      → Updates n m ptrs (run_on_instr node funcs fuel arg_id ptrs i)
  unfolding run_on_instr
  run_on_instr-Updates ptrs (store v id) (v_below, below) ok = elim (Bool-cases (id == 0)) [
    | inl unnamed ↦ rw (run_on_instr, unnamed) (ptrs, false, refl, same-Grows n m ptrs ok)
    | inr named ↦ rw (run_on_instr, named) (find_into-Updates ptrs v id v_below below ok)
  ]
  run_on_instr-Updates ptrs (return_ v id) (v_below, below) ok =
      find_into-Updates ptrs v id v_below below ok
  run_on_instr-Updates ptrs (call callee args) (v_below, below) ok =
      let (callees, changed, found, keeps, adds, only, changes, quiet) =
        find_functions-exact node funcs ptrs n fuel [] callee program.nodes v_below enough in
      elim (Bool-cases changed) [
        | inr none_new ↦
            rw (run_on_instr, found, none_new) (ptrs, false, refl, same-Grows n m ptrs ok)
        | inl some_new ↦
            rw (run_on_instr, found, some_new)
              (update_arguments-Updates callees args 0 ptrs below ok)
      ]
  run_on_instr-Updates ptrs other below ok = (ptrs, false, refl, same-Grows n m ptrs ok)

  pub run_on_functions-Updates :
      (instrs : List Instr) (ptrs : Ptrs)
      → InstrsBelow n instrs
      → Bounded m ptrs
      → Updates n m ptrs (run_on_functions node funcs fuel arg_id ptrs instrs)
  unfolding run_on_functions
  run_on_functions-Updates [] ptrs below ok = (ptrs, false, refl, same-Grows n m ptrs ok)
  run_on_functions-Updates (i ∷ instrs) ptrs (here, below) ok =
      and_update-Updates ptrs (λ after. run_on_functions node funcs fuel arg_id after instrs)
        (run_on_instr node funcs fuel arg_id ptrs i) (run_on_instr-Updates ptrs i here ok)
        (λ a a_ok. run_on_functions-Updates instrs a below a_ok)
