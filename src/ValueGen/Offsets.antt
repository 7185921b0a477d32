-- ===== src/ValueGen/Offsets.antt =====
-- src/ValueGen.cc: visitGEPOperator, the address that a GEP computes. Widths are those of the
-- indices; the sizes and offsets are what DataLayout says of the types.
use kint_test.Base.{
  ℕ, ◌+◌, ◌-◌, ◌*◌, ◌%◌, ◌^◌, ◌≡◌, ◌&&◌, ltb, ◌==◌, if◌then◌else◌, Option, none, some, List, [],
  ◌∷◌,
}
use kint_test.Word.{is_negative, wadd, wmul}
use kint_test.Solver.{WordSolver}

-- The type that an index steps into.
pub data GepType : Type 0 where
  struct_type : (element_offset : ℕ → ℕ) → GepType
  sequential_type : (alloc_size : ℕ) → GepType

-- APInt::sextOrTrunc from n to p bits.
abbrev pub sext_or_trunc : (p n : ℕ) → ℕ → ℕ
sext_or_trunc p n a = (if ltb n p && is_negative n a then a + (2 ^ p - 2 ^ n) else a) % 2 ^ p

module _ (s : WordSolver) (ptr_size : ℕ) where
  open s use {Expr, Model, value, bvwidth, bvconst, extract, sign_extend, bvadd, bvmul}

  pub data Index : Type 0 where
    constant_index : (width value : ℕ) → Index
    variable_index : Expr → Index

  -- The index with the width of a pointer.
  unfoldable pub fit_index : Expr → Expr
  fit_index idx =
      let idx_size = bvwidth idx in
      if idx_size == ptr_size
      then idx
      else if ltb idx_size ptr_size
      then sign_extend (ptr_size - idx_size) idx
      else extract (ptr_size - 1) 0 idx

  -- One index, on Offset and ConstOffset; `none` is the failed assertion that the index of a
  -- struct is a constant.
  unfoldable pub visit_index : Expr × ℕ → GepType → Index → Option (Expr × ℕ)
  unfolding fit_index
  visit_index (offset, const_offset) type (constant_index n c) =
      if c == 0 then some (offset, const_offset) else elim type [
        | struct_type element_offset ↦ some (offset, wadd ptr_size const_offset (element_offset c))
        | sequential_type size ↦
            some
              (offset, wadd ptr_size const_offset (wmul ptr_size size (sext_or_trunc ptr_size n c)))
      ]
  visit_index (offset, const_offset) (struct_type element_offset) (variable_index idx) = none
  visit_index (offset, const_offset) (sequential_type size) (variable_index idx) =
      some (bvadd offset (bvmul (fit_index idx) (bvconst ptr_size size)), const_offset)

  unfoldable pub visit_indices : Expr × ℕ → List (GepType × Index) → Option (Expr × ℕ)
  unfolding visit_index
  visit_indices offsets [] = some offsets
  visit_indices offsets ((type, index) ∷ steps) = elim (visit_index offsets type index) [
    | none ↦ none
    | some next ↦ visit_indices next steps
  ]

  abbrev merge_offsets : Expr × ℕ → Expr
  merge_offsets (offset, const_offset) =
      if const_offset == 0 then offset else bvadd offset (bvconst ptr_size const_offset)

  -- visitGEPOperator, from the base.
  unfoldable pub visit_gep_operator : Expr → List (GepType × Index) → Option Expr
  unfolding visit_indices
  visit_gep_operator base steps = elim (visit_indices (base, 0) steps) [
    | none ↦ none
    | some offsets ↦ some (merge_offsets offsets)
  ]

  -- What an index adds to the address.
  abbrev pub displacement : Model → GepType → Index → ℕ
  displacement m (struct_type element_offset) (constant_index n c) = element_offset c
  displacement m (struct_type element_offset) (variable_index idx) = 0
  displacement m (sequential_type size) (constant_index n c) = size * sext_or_trunc ptr_size n c
  displacement m (sequential_type size) (variable_index idx) =
      size * sext_or_trunc ptr_size (bvwidth idx) (value m idx)

  abbrev pub displacements : Model → List (GepType × Index) → ℕ
  displacements m [] = 0
  displacements m ((type, index) ∷ steps) = displacement m type index + displacements m steps

  -- Indices of structs are constants, and the first field is at offset 0.
  abbrev pub WellIndexed : GepType → Index → Type 0
  WellIndexed (struct_type element_offset) (constant_index n c) = element_offset 0 ≡ 0
  WellIndexed (struct_type element_offset) (variable_index idx) = ⊥
  WellIndexed (sequential_type size) index = Unit

  abbrev pub AreWellIndexed : List (GepType × Index) → Type 0
  AreWellIndexed [] = Unit
  AreWellIndexed ((type, index) ∷ steps) = WellIndexed type index × AreWellIndexed steps
