-- ===== src/IntRewrite/Checks.antt =====
-- src/IntRewrite.cc: the conditions that insertDivCheck, insertShiftCheck and insertArrayCheck hand
-- to `int.sat`, and the dispatch on the opcode in runOnFunction.
use kint_test.Base.{
  ℕ, ◌-◌, ◌^◌, Bool, true, false, leb, if◌then◌else◌, Option, none, some, List, [], ◌∷◌,
}
use kint_test.Word.{umax, smin}
use kint_test.Ir.{Value, const, binary, icmp, BinaryOp, Predicate, Intrinsic, width}

-- insertDivCheck: R == 0, and for a signed division also L == SMIN && R == -1.
unfoldable pub insert_div_check : (signed : Bool) → Value → Value → Value
insert_div_check signed l r =
    let n = width l in
    let is_null = icmp Predicate.icmp_eq r (const (width r) 0) in
    if signed
    then binary BinaryOp.or_ is_null (
        binary BinaryOp.and_ (icmp Predicate.icmp_eq l (const n (smin n)))
          (icmp Predicate.icmp_eq r (const n (umax n))))
    else is_null

-- insertShiftCheck: the amount is at least the width.
unfoldable pub insert_shift_check : Value → Value
insert_shift_check amount = icmp Predicate.icmp_uge amount (const (width amount) (width amount))

abbrev pub int_max : ℕ
int_max = 2 ^ 31 - 1

-- The upper bound for an index into an array of n elements: arrays of one element or none stand
-- for flexible ones at the end of a struct.
unfoldable pub upper_bound : ℕ → ℕ
upper_bound n = if leb n 1 then int_max else n

-- insertArrayCheck, over the steps of a GEP: for a step into an array type its number of elements,
-- and the index. `v` is V, which is NULL at first.
unfoldable pub array_check_from : Option Value → List (Option ℕ × Value) → Option Value
unfolding upper_bound
array_check_from v [] = v
array_check_from v ((none, index) ∷ steps) = array_check_from v steps
array_check_from v ((some n, index) ∷ steps) =
    let check = icmp Predicate.icmp_ugt index (const (width index) (upper_bound n)) in
    array_check_from (elim v [ some u ↦ some (binary BinaryOp.or_ u check) | none ↦ some check ])
      steps

unfoldable pub insert_array_check : List (Option ℕ × Value) → Option Value
unfolding array_check_from
insert_array_check steps = array_check_from none steps

-- What an instruction is to runOnFunction, and what is inserted for it. An overflow check is about
-- the overflow bit of `sid` or `uid`, see `Overflow`.
pub data Instr : Type 0 where
  binary_instr : BinaryOp → Value → Value → Instr
  gep_instr : List (Option ℕ × Value) → Instr
  other_instr : Instr

pub data Check : Type 0 where
  no_check : Check
  overflow_check : (sid uid : Intrinsic) (l r : Value) → Check
  sat_check : Value → Check

abbrev array_check : Option Value → Check
array_check none = no_check
array_check (some v) = sat_check v

unfoldable pub check_for : Instr → Check
unfolding insert_div_check insert_shift_check insert_array_check
check_for (binary_instr BinaryOp.add l r) =
    overflow_check Intrinsic.sadd_with_overflow Intrinsic.uadd_with_overflow l r
check_for (binary_instr BinaryOp.sub l r) =
    overflow_check Intrinsic.ssub_with_overflow Intrinsic.usub_with_overflow l r
check_for (binary_instr BinaryOp.mul l r) =
    overflow_check Intrinsic.smul_with_overflow Intrinsic.umul_with_overflow l r
check_for (binary_instr BinaryOp.sdiv l r) = sat_check (insert_div_check true l r)
check_for (binary_instr BinaryOp.udiv l r) = sat_check (insert_div_check false l r)
check_for (binary_instr BinaryOp.shl l r) = sat_check (insert_shift_check r)
check_for (binary_instr BinaryOp.lshr l r) = sat_check (insert_shift_check r)
check_for (binary_instr BinaryOp.ashr l r) = sat_check (insert_shift_check r)
check_for (binary_instr op l r) = no_check
check_for (gep_instr steps) = array_check (insert_array_check steps)
check_for other_instr = no_check
