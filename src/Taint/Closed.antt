-- ===== src/Taint/Closed.antt =====
-- src/Taint.cc: the flows that taint follows in a round.
use kint_test.Base.{ℕ, ◌+◌, Bool, true, ◌||◌, ◌&&◌, not, ◌==◌, Option, none, some, List, [], ◌∷◌}
use kint_test.Global.TaintMap.{TaintMap}
use kint_test.Taint.Pass.{Value, Callee, Kind, Instr}
use kint_test.Taint.Grows.{known, has_value}
use kint_test.Taint.Values.{tainted, any_tainted}

-- The flows that taint before a round must follow until its end: from an argument to the parameters
-- of the possible callees, and from an operand to the instruction's own value and to what a store
-- or return writes to.
abbrev pub args_closed : (before last : TaintMap) → Callee → ℕ → List Value → Bool
args_closed before last callee a [] = true
args_closed before last callee a (v ∷ args) =
    (not (tainted before v) || callee.arg_id a == 0 || known last (callee.arg_id a))
    && args_closed before last callee (a + 1) args

abbrev pub callees_closed : (before last : TaintMap) → List Value → List Callee → Bool
callees_closed before last args [] = true
callees_closed before last args (callee ∷ callees) =
    (callee.skipped || args_closed before last callee 0 args)
    && callees_closed before last args callees

abbrev pub kind_closed : (before last : TaintMap) → (number : ℕ) → Kind → Bool
kind_closed before last number (Kind.call callees args) = callees_closed before last args callees
kind_closed before last number (Kind.plain operands target) =
    not (any_tainted before operands)
    || (has_value last number && (target == 0 || known last target))

-- A source taints its own value and identifier.
abbrev pub source_closed : TaintMap → Option ℕ → (number id : ℕ) → Bool
source_closed last none number id = true
source_closed last (some d) number id = has_value last number && (id == 0 || known last id)

abbrev pub instrs_closed : (before last : TaintMap) → List Instr → Bool
instrs_closed before last [] = true
instrs_closed before last (i ∷ instrs) =
    (source_closed last i.source i.number i.id && kind_closed before last i.number i.kind)
    && instrs_closed before last instrs

abbrev pub closed : (before last : TaintMap) → List (List Instr) → Bool
closed before last [] = true
closed before last (f ∷ functions) = instrs_closed before last f && closed before last functions
