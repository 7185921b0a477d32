-- ===== src/CallGraph/Find.antt =====
-- src/CallGraph.cc: mergeFuncSet and findFunctions. Values, functions, names and identifiers are
-- numbers. Ctx->FuncPtrs is a function to sets, since a missing key and the empty set are alike to
-- the pass. When findFunctions extends the very set that Ctx->FuncPtrs has for an identifier, a
-- merge from this identifier adds nothing, so the sets that it merges from are those before the
-- call.
use kint_test.Base.{
  ℕ, zero, suc, Bool, true, false, ◌||◌, if◌then◌else◌, Option, none, some, List, [], ◌∷◌, contains,
}

abbrev pub FuncSet : Type 0
FuncSet = List ℕ

-- What findFunctions tells apart.
pub data Node : Type 0 where
  -- whether the function has no body, and its name
  function : (is_empty : Bool) → (name : ℕ) → Node
  -- a bit cast, or a constant cast
  cast : ℕ → Node
  phi : List ℕ → Node
  select : (on_true on_false : ℕ) → Node
  -- an argument, a call of a known function, or a load, with the identifier
  by_id : ℕ → Node
  -- an indirect call, another constant, inline assembly or a cast of an integer
  ignored : Node
  -- what ends in a fatal error
  unhandled : Node

-- FuncSet's insert, with whether the function is new
unfoldable pub insert : FuncSet → ℕ → FuncSet × Bool
insert s f = if contains s f then (s, false) else (f ∷ s, true)

-- mergeFuncSet(FuncSet &, const FuncSet &)
unfoldable pub merge_func_set : FuncSet → FuncSet → FuncSet × Bool
unfolding insert
merge_func_set dst [] = (dst, false)
merge_func_set dst (f ∷ src) =
    let (dst₁, here) = insert dst f in
    let (dst₂, later) = merge_func_set dst₁ src in (dst₂, here || later)

-- The values, and Ctx->Funcs: the definition that a name has.
module _ (node : ℕ → Node) (funcs : ℕ → Option ℕ) where
  -- The definition is preferred to a declaration.
  unfoldable pub resolve : ℕ → (is_empty : Bool) → (name : ℕ) → ℕ
  resolve f false name = f
  resolve f true name = elim (funcs name) [ none ↦ f | some definition ↦ definition ]

  module _ (ptrs : ℕ → FuncSet) where
    abbrev pub Found : Type 0
    Found = Option (FuncSet × Bool)

    abbrev pub and_then : (FuncSet → Found) → Found → Found
    and_then next none = none
    and_then next (some (s, here)) = elim (next s) [
      | none ↦ none
      | some (after, later) ↦ some (after, here || later)
    ]

    -- One incoming value after another.
    unfoldable pub find_all : (FuncSet → ℕ → Found) → FuncSet → List ℕ → Found
    find_all find s [] = some (s, false)
    find_all find s (v ∷ vs) = and_then (λ after. find_all find after vs) (find s v)

    unfoldable pub find_node : (FuncSet → ℕ → Found) → FuncSet → ℕ → Node → Found
    unfolding find_all resolve insert merge_func_set
    find_node find s v (function is_empty name) = some (insert s (resolve v is_empty name))
    find_node find s v (cast w) = find s w
    find_node find s v (phi vs) = find_all find s vs
    find_node find s v (select t f) = and_then (λ after. find after f) (find s t)
    find_node find s v (by_id id) = some (merge_func_set s (ptrs id))
    find_node find s v ignored = some (s, false)
    find_node find s v unhandled = none

    -- findFunctions; `none` if the fuel runs out, or at the fatal error
    unfoldable pub find_functions_from : (fuel : ℕ) → (visited : FuncSet) → FuncSet → ℕ → Found
    unfolding find_node
    find_functions_from zero visited s v = none
    find_functions_from (suc fuel) visited s v =
        let deeper = find_node (find_functions_from fuel (v ∷ visited)) s v (node v) in
        if contains visited v then some (s, false) else deeper

    unfoldable pub find_functions : (fuel : ℕ) → FuncSet → ℕ → Found
    unfolding find_functions_from
    find_functions fuel s v = find_functions_from fuel [] s v
