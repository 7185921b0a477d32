-- ===== src/IntRewrite/Overflow.antt =====
-- src/IntRewrite.cc: insertOverflowCheck, which defers the check of an overflow that wraps to the
-- ends of the blocks where it can be observed.
use kint_test.Base.{
  ℕ, zero, suc, Bool, true, false, ◌||◌, ◌&&◌, not, ◌==◌, if◌then◌else◌, Option, none, some, List,
  [], ◌∷◌, contains,
}
use mathlib.Core.Option.{map}

-- What isObservable tells apart: what is no instruction; a branch or switch, with whether its block
-- leaves a loop; another instruction, with what isSafeToSpeculativelyExecute says.
pub data UserKind : Type 0 where
  no_instruction : UserKind
  control : (exits_loop : Bool) → UserKind
  instruction : (safe : Bool) → UserKind

unfoldable pub is_observable : UserKind → Bool
is_observable no_instruction = false
is_observable (control exits_loop) = exits_loop
is_observable (instruction safe) = not safe

-- A user of a value, with its block and whether it has no use itself.
pub record User : Type 0 where
  pub number : ℕ
  pub block : ℕ
  pub kind : UserKind
  pub use_empty : Bool

-- Where the check goes: before the operation, or before the terminators of blocks.
pub data Placement : Type 0 where
  at_operation : Placement
  at_ends : List ℕ → Placement

pub data Scan : Type 0 where
  fall_back : Scan
  found : (visited worklist points : List ℕ) → Scan

abbrev pub add_point : List ℕ → ℕ → List ℕ
add_point points b = if contains points b then points else b ∷ points

-- What insertOverflowCheck does for the operation of a number: whether the signed intrinsic is
-- used, whether the NSW flag is cleared, and where the checks go.
pub data OverflowCheck : Type 0 where
  skipped : OverflowCheck
  checked : (signed clears_nsw : Bool) → Placement → OverflowCheck

-- The uses of a value, DT->dominates, and the block of the operation.
module _ (uses : ℕ → List User) (dominates : ℕ → ℕ → Bool) (bb : ℕ) where
  -- The loop over the uses of one value.
  unfoldable pub scan_uses : List User → (visited worklist points : List ℕ) → Scan
  unfolding is_observable
  scan_uses [] visited worklist points = found visited worklist points
  scan_uses (u ∷ us) visited worklist points = elim (is_observable u.kind) [
    | true ↦ elim (u.block == bb || not (dominates bb u.block)) [
      | true ↦ fall_back
      | false ↦ scan_uses us visited worklist (add_point points u.block)
    ]
    | false ↦ elim (u.use_empty || contains visited u.number) [
      | true ↦ scan_uses us visited worklist points
      | false ↦ scan_uses us (u.number ∷ visited) (u.number ∷ worklist) points
    ]
  ]

  -- The loop over the worklist; `none` if the fuel runs out.
  unfoldable pub place_checks : (fuel : ℕ) → (visited worklist points : List ℕ) → Option Placement
  unfolding scan_uses
  place_checks zero visited worklist points = none
  place_checks (suc fuel) visited [] points = some (at_ends points)
  place_checks (suc fuel) visited (e ∷ worklist) points =
      elim (scan_uses (uses e) visited worklist points) [
        | fall_back ↦ some at_operation
        | found visited' worklist' points' ↦ place_checks fuel visited' worklist' points'
      ]

  unfoldable pub insert_overflow_check :
      (pointers has_nsw wrap_opt : Bool) → (fuel number : ℕ) → Option OverflowCheck
  unfolding place_checks
  insert_overflow_check pointers has_nsw wrap_opt fuel number =
      if pointers
      then some skipped
      else if has_nsw && not wrap_opt
      then some (checked true false at_operation)
      else map (checked has_nsw has_nsw) (place_checks fuel (number ∷ []) (number ∷ []) [])
