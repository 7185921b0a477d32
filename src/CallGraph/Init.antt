-- ===== src/CallGraph/Init.antt =====
-- src/CallGraph.cc: processInitializers and doInitialization.
use kint_test.Base.{ℕ, Bool, not, ◌&&◌, ◌==◌, if◌then◌else◌, Option, none, some, List, [], ◌∷◌}
use kint_test.CallGraph.Find.{FuncSet, insert}

-- A constant is `other_constant` where it is none of the kinds that processInitializers looks into.
-- A struct tells whether it has a name, and an array whether its elements are structs.
mutual
  pub data Constant : Type 0 where
    constant_struct : (named : Bool) → Fields → Constant
    constant_array : (of_structs : Bool) → Elements → Constant
    function : ℕ → Constant
    other_constant : Constant

  -- The fields of a struct, by their type: a struct or array; a function pointer, with the
  -- identifier of the field and its function, if it is one; others.
  pub data Fields : Type 0 where
    end : Fields
    nested_field : Constant → Fields → Fields
    pointer_field : (id : ℕ) → Option ℕ → Fields → Fields
    other_field : Fields → Fields

  pub data Elements : Type 0 where
    nil : Elements
    element : Constant → Elements → Elements

abbrev pub Ptrs : Type 0
Ptrs = ℕ → FuncSet

abbrev pub put_ptrs : Ptrs → ℕ → FuncSet → Ptrs
put_ptrs ptrs id s i = if i == id then s else ptrs i

unfoldable pub add_ptr : Ptrs → ℕ → Option ℕ → Ptrs
unfolding insert
add_ptr ptrs id none = ptrs
add_ptr ptrs id (some f) = put_ptrs ptrs id ((insert (ptrs id) f).0)

abbrev pub add_variable : Ptrs → Option ℕ → ℕ → Ptrs
unfolding add_ptr
add_variable ptrs none f = ptrs
add_variable ptrs (some id) f = add_ptr ptrs id (some f)

unfoldable mutual
  unfolding add_ptr

  -- processInitializers, with getVarId of the variable, which is none below it
  pub process_initializers : (variable : Option ℕ) → Constant → Ptrs → Ptrs
  process_initializers variable (constant_struct named fields) ptrs =
      if named then process_fields fields ptrs else ptrs
  process_initializers variable (constant_array of_structs elements) ptrs =
      if of_structs then process_elements elements ptrs else ptrs
  process_initializers variable (function f) ptrs = add_variable ptrs variable f
  process_initializers variable other_constant ptrs = ptrs

  pub process_fields : Fields → Ptrs → Ptrs
  process_fields end ptrs = ptrs
  process_fields (nested_field c fields) ptrs =
      process_fields fields (process_initializers none c ptrs)
  process_fields (pointer_field id f fields) ptrs = process_fields fields (add_ptr ptrs id f)
  process_fields (other_field fields) ptrs = process_fields fields ptrs

  pub process_elements : Elements → Ptrs → Ptrs
  process_elements nil ptrs = ptrs
  process_elements (element c elements) ptrs =
      process_elements elements (process_initializers none c ptrs)

-- A function: its name, whether its linkage is external, and whether it has no body.
pub record Declaration : Type 0 where
  pub number : ℕ
  pub name : ℕ
  pub external : Bool
  pub is_empty : Bool

unfoldable pub collect_pointers : List (Option Constant × ℕ) → Ptrs → Ptrs
unfolding process_initializers
collect_pointers [] ptrs = ptrs
collect_pointers ((none, id) ∷ variables) ptrs = collect_pointers variables ptrs
collect_pointers ((some c, id) ∷ variables) ptrs =
    collect_pointers variables (process_initializers (some id) c ptrs)

unfoldable pub collect_definitions : List Declaration → (ℕ → Option ℕ) → ℕ → Option ℕ
collect_definitions [] funcs name = funcs name
collect_definitions (d ∷ ds) funcs name =
    collect_definitions ds
      (λ n. if n == d.name && d.external && not d.is_empty then some d.number else funcs n) name

-- doInitialization, of a module with its global variables and functions
unfoldable pub do_initialization :
    List (Option Constant × ℕ) → List Declaration → Ptrs → (ℕ → Option ℕ) → Ptrs × (ℕ → Option ℕ)
unfolding collect_pointers collect_definitions
do_initialization variables declarations ptrs funcs =
    (collect_pointers variables ptrs, collect_definitions declarations funcs)
