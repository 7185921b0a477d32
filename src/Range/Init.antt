-- ===== src/Range/Init.antt =====
-- src/Range.cc: doInitialization, the ranges of the integers in the initializers of global
-- variables.
use kint_test.Base.{ℕ, Bool, ◌==◌, if◌then◌else◌, Option, none, some, List, [], ◌∷◌}
use kint_test.Range.Algebra.{ConstantRange}
use kint_test.Range.State.{RangeState, union_id}

-- A constant is `other_constant` where it is none of the kinds that collectInitializers looks into.
-- A struct tells whether it is anonymous, and an array whether its elements are structs or
-- integers.
mutual
  pub data Constant : Type 0 where
    constant_int : (width value : ℕ) → Constant
    constant_struct : (anonymous : Bool) → Fields → Constant
    constant_array : (searched : Bool) → Elements → Constant
    other_constant : Constant

  -- The fields of a struct, by their type: a struct; an integer, with the identifier of the field
  -- and its constant, if it is one; others.
  pub data Fields : Type 0 where
    end : Fields
    struct_field : Constant → Fields → Fields
    int_field : (id : ℕ) → Option (ℕ × ℕ) → Fields → Fields
    other_field : Fields → Fields

  pub data Elements : Type 0 where
    nil : Elements
    element : Constant → Elements → Elements

-- A global variable: whether its name starts with a dot, its initializer and getVarId.
pub record GlobalVariable : Type 0 where
  pub dotted : Bool
  pub initializer : Option Constant
  pub var_id : ℕ

module _ (cr : ConstantRange) where
  open cr use {Range, bits, contains, single}

  abbrev pub State : Type 0
  State = RangeState cr

  abbrev pub union_int : State → (id : ℕ) → ℕ × ℕ → State
  union_int st id (width, value) = (union_id cr st id (single width value)).0

  abbrev pub union_field : State → (id : ℕ) → Option (ℕ × ℕ) → State
  union_field st id none = st
  union_field st id (some c) = if id == 0 then st else union_int st id c

  unfoldable mutual
    -- collectInitializers, for the variable of identifier `gv`
    pub collect_initializers : (gv : ℕ) → Constant → State → State
    collect_initializers gv (constant_int width value) st = union_int st gv (width, value)
    collect_initializers gv (constant_struct anonymous fields) st =
        if anonymous then st else collect_fields gv fields st
    collect_initializers gv (constant_array searched elements) st =
        if searched then collect_elements gv elements st else st
    collect_initializers gv other_constant st = st

    pub collect_fields : (gv : ℕ) → Fields → State → State
    collect_fields gv end st = st
    collect_fields gv (struct_field c fields) st =
        collect_fields gv fields (collect_initializers gv c st)
    collect_fields gv (int_field id c fields) st = collect_fields gv fields (union_field st id c)
    collect_fields gv (other_field fields) st = collect_fields gv fields st

    pub collect_elements : (gv : ℕ) → Elements → State → State
    collect_elements gv nil st = st
    collect_elements gv (element c elements) st =
        collect_elements gv elements (collect_initializers gv c st)

  abbrev pub collect_variable : GlobalVariable → Option Constant → State → State
  collect_variable v none st = st
  collect_variable v (some c) st = if v.dotted then st else collect_initializers v.var_id c st

  -- doInitialization
  unfoldable pub do_initialization : List GlobalVariable → State → State
  unfolding collect_initializers
  do_initialization [] st = st
  do_initialization (v ∷ vs) st = do_initialization vs (collect_variable v v.initializer st)
