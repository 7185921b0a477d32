-- ===== src/CallGraph/Tests.antt =====
-- src/CallGraph.cc: concrete values and a module.
use kint_test.Base.{
  ℕ, zero, suc, ◌<◌, ◌≡◌, refl, ◌⊎◌, Bool, true, false, ◌==◌, if◌then◌else◌, Option, none, some,
  List, [], ◌∷◌, arith, Bool-cases, inl, inr, contains,
}
use kint_test.CallGraph.Find.{
  FuncSet, Node, function, cast, phi, by_id, ignored, find_functions, resolve,
}
use kint_test.CallGraph.Init.{Constant, Fields, do_initialization}
use kint_test.CallGraph.Pass.{Instr, run_on_functions, do_module_pass, do_finalization}
use mathlib.Core.List.{Memᴰ}
use kint_test.Global.Driver.{initialize}
use kint_test.CallGraph.Init.{collect_pointers}
use kint_test.CallGraph.Driven.{
  Contents, Valid, initialize_module, run_modules, run_modules-fixed_point,
}
use kint_test.CallGraph.Grows.{Bounded}
use kint_test.CallGraph.Steps.{InstrsBelow, Program}
use kint_test.CallGraph.Ends.{do_module_pass-fixed_point}
use kint_test.CallGraph.Exact.{NodeBelow}
use kint_test.CallGraph.Walks.{walk, find_functions-exact}

-- p = phi(c, f), where c is a cast of p and f a declaration; q is loaded from the identifier 4.
abbrev node_of : ℕ → Node
node_of zero = phi (1 ∷ 2 ∷ [])
node_of (suc zero) = cast 0
node_of (suc (suc zero)) = function true 5
node_of (suc (suc (suc zero))) = by_id 4
node_of v = ignored

-- The name 5 is defined by the function 9.
abbrev definitions : ℕ → Option ℕ
definitions name = if name == 5 then some 9 else none

abbrev ptrs : ℕ → FuncSet
ptrs id = if id == 4 then 8 ∷ [] else []

find_functions_test : find_functions node_of definitions ptrs 5 [] 0 ≡ some (9 ∷ [], true)
unfolding find_functions
find_functions_test = refl

node_of-NodeBelow : (v : ℕ) → v < 4 → NodeBelow 4 (node_of v)
node_of-NodeBelow zero h = (omega arith, (omega arith, tt))
node_of-NodeBelow (suc zero) h = omega arith
node_of-NodeBelow (suc (suc zero)) h = tt
node_of-NodeBelow (suc (suc (suc zero))) h = tt
node_of-NodeBelow (suc (suc (suc (suc v)))) h = tt

node_of-NodeBelow' : (v : ℕ) → NodeBelow 7 (node_of v)
node_of-NodeBelow' zero = (omega arith, (omega arith, tt))
node_of-NodeBelow' (suc zero) = omega arith
node_of-NodeBelow' (suc (suc zero)) = tt
node_of-NodeBelow' (suc (suc (suc zero))) = tt
node_of-NodeBelow' (suc (suc (suc (suc v)))) = tt

node_of-bound :
    (v : ℕ) (is_empty : Bool) (name : ℕ)
    → node_of v ≡ function is_empty name
    → resolve node_of definitions v is_empty name < 10
unfolding resolve
node_of-bound zero is_empty name is = absurd (cc)
node_of-bound (suc zero) is_empty name is = absurd (cc)
node_of-bound (suc (suc zero)) false name is = omega arith
node_of-bound (suc (suc zero)) true name is = elim (Bool-cases (name == 5)) [
  | inl defined ↦ rw (resolve, defined) (omega arith)
  | inr unknown ↦ rw (resolve, unknown) (omega arith)
]
node_of-bound (suc (suc (suc zero))) is_empty name is = absurd (cc)
node_of-bound (suc (suc (suc (suc v)))) is_empty name is = absurd (cc)

find_functions-exact_example :
    (after : FuncSet) × (changed : Bool) × (find_functions node_of definitions ptrs 5 (7 ∷ []) 0
      ≡ some (after, changed))
    × ((f : ℕ) → contains (7 ∷ []) f ≡ true → contains after f ≡ true)
    × ((f : ℕ) (rest : List ℕ)
        → walk node_of definitions ptrs 0 rest f ≡ true
        → contains after f ≡ true)
    × ((f : ℕ)
        → contains after f ≡ true
        → (contains (7 ∷ []) f ≡ true)
          ⊎ ((rest : List ℕ) × (walk node_of definitions ptrs 0 rest f ≡ true)))
    × ((changed ≡ true) → (f : ℕ) × (contains (7 ∷ []) f ≡ false) × (contains after f ≡ true))
    × ((changed ≡ false) → after ≡ 7 ∷ [])
find_functions-exact_example =
    find_functions-exact node_of definitions ptrs 4 5 (7 ∷ []) 0 node_of-NodeBelow (omega arith)
      (omega arith)

-- static struct ops v = { 0, f }; with the field at the identifier 4
init_test :
    (do_initialization
        ((
          some (
              Constant.constant_struct true
                (Fields.other_field (Fields.pointer_field 4 (some 8) Fields.end))),
          6,
        )
          ∷ [])
        []
        (λ id. [])
        definitions).0
      4
    ≡ 8 ∷ []
unfolding do_initialization
init_test = refl

-- g = p; g(p), where the parameters of the function 9 have the identifier 6
abbrev instrs : List Instr
instrs = Instr.store 0 4 ∷ Instr.call 3 (some 0 ∷ none ∷ []) ∷ []

abbrev sets_at : ℕ → Option ((ℕ → FuncSet) × Bool) → FuncSet
sets_at id none = []
sets_at id (some (found, changed)) = found id

do_module_pass_test :
    sets_at 6 (
      do_module_pass node_of definitions 5
        (λ f i. 6)
        9
        ptrs
        (Instr.store 0 4 ∷ Instr.call 3 (some 0 ∷ none ∷ []) ∷ []))
    ≡ 9 ∷ []
unfolding do_module_pass
do_module_pass_test = refl

do_finalization_test :
    do_finalization node_of definitions 5 (λ f i. 6) ptrs (3 ∷ 7 ∷ [])
    ≡ some (8 ∷ [], true) ∷ some ([], false) ∷ []
unfolding do_finalization
do_finalization_test = refl

program : Program node_of definitions (λ f i. 6) 7 10
program = record {
  nodes = λ v h. node_of-NodeBelow' v;
  functions = λ v is_empty name is. node_of-bound v is_empty name is;
  arg_ids = λ f i. omega arith;
}

ptrs-Bounded : Bounded 10 ptrs
ptrs-Bounded id f h = elim (Bool-cases (id == 4)) [
  | inl here ↦ let only : contains (8 ∷ []) f ≡ true = rw here at h in ground arith
  | inr other ↦ let nothing : contains [] f ≡ true = rw other at h in absurd (cc)
]

do_module_pass-fixed_point_example :
    (last : ℕ → FuncSet) × (ret : Bool) × (do_module_pass node_of definitions 8
        (λ f i. 6)
        71
        ptrs
        instrs
      ≡ some (last, ret))
    × (run_on_functions node_of definitions 8 (λ f i. 6) last instrs ≡ some (last, false))
    × Bounded 10 last
    × ((id f : ℕ) → contains (ptrs id) f ≡ true → contains (last id) f ≡ true)
do_module_pass-fixed_point_example =
    do_module_pass-fixed_point node_of definitions 8 (λ f i. 6) 7 10 program (omega arith) instrs
      (((omega arith, omega arith), ((omega arith, (omega arith, tt)), tt))) 71 ptrs ptrs-Bounded
      (omega arith)

-- Two modules: the one above, and one that stores to another identifier and declares a variable.
abbrev contents : Bool → Contents
contents true = record { variables = []; instrs = instrs }
contents false = record { variables = (none, 4) ∷ []; instrs = Instr.store 0 5 ∷ [] }

contents-InstrsBelow : (module_ : Bool) → InstrsBelow 7 ((contents module_).instrs)
contents-InstrsBelow true = ((omega arith, omega arith), ((omega arith, (omega arith, tt)), tt))
contents-InstrsBelow false = ((omega arith, omega arith), tt)

start-Valid : Valid 10 (initialize (initialize_module contents) (true ∷ false ∷ []) (some ptrs))
unfolding initialize collect_pointers
start-Valid = ptrs-Bounded

run_modules-fixed_point_example :
    (last : ℕ → FuncSet) × (run_modules contents node_of definitions 8
        (λ f i. 6)
        71
        false
        71
        (true ∷ false ∷ [])
        (some ptrs)
      ≡ some (some last, []))
    × Bounded 10 last
    × ((module_ : Bool)
        → Memᴰ module_ (true ∷ false ∷ [])
        → run_on_functions node_of definitions 8 (λ f i. 6) last ((contents module_).instrs)
          ≡ some (last, false))
run_modules-fixed_point_example =
    run_modules-fixed_point contents node_of definitions 8 (λ f i. 6) 7 10 program (omega arith)
      contents-InstrsBelow 71 (omega arith) false 71 (true ∷ false ∷ []) ptrs start-Valid
      (omega arith)
