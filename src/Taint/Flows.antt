-- ===== src/Taint/Flows.antt =====
-- src/Taint.cc: the taint that doModulePass ends with is closed under the flows of the program.
use kint_test.Base.{ℕ, ◌≡◌, true}
use kint_test.Global.TaintMap.{TaintMap}
use kint_test.Taint.Grows.{known, has_value, Grows}

module _ (n : ℕ) (before last : TaintMap) where
  -- What a state has is in the last one.
  abbrev Reaches : TaintMap → Type 0
  Reaches tm =
      ((id : ℕ) → known tm id ≡ true → known last id ≡ true)
      × ((v : ℕ) → has_value tm v ≡ true → has_value last v ≡ true)
