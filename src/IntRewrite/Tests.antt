-- ===== src/IntRewrite/Tests.antt =====
-- src/IntRewrite.cc: the checks at concrete operations.
use kint_test.Base.{
  ℕ, ◌≡◌, refl, bit, leb, ◌==◌, true, false, List, [], ◌∷◌, Option, some, none, ◌⊎◌, arith,
  if◌then◌else◌,
}
use kint_test.Ir.{Value, const, var, icmp, BinaryOp, Predicate, Env, eval, width}
use kint_test.IntRewrite.Checks.{
  insert_div_check, insert_shift_check, insert_array_check, check_for, binary_instr, sat_check,
}
use kint_test.IntRewrite.Sinks.{
  Uses, end, instruction, Flows, into, through, later, find_sink, find_sink_complete,
}
use kint_test.IntRewrite.Conditions.{
  sdiv_undefined, eval-insert_div_check, eval-insert_shift_check, eval-insert_array_check,
  some_index_exceeds, enters_array,
}

-- Variable x holds x.
abbrev env : Env
env = record { values = λ x. x; undefined = λ op a b. 0 }

eval-insert_div_check_example :
    eval env (insert_div_check true (var 8 128) (var 8 255))
    ≡ bit (
        if true
        then sdiv_undefined 8 (eval env (var 8 128)) (eval env (var 8 255))
        else eval env (var 8 255) == 0)
eval-insert_div_check_example =
    eval-insert_div_check env true (var 8 128) (var 8 255) (omega arith) refl

-- -128 / -1 is undefined.
least_by_minus_one : eval env (insert_div_check true (var 8 128) (var 8 255)) ≡ 1
unfolding insert_div_check eval
least_by_minus_one = refl

eval-insert_shift_check_example :
    eval env (insert_shift_check (var 8 9)) ≡ bit (leb (width (var 8 9)) (eval env (var 8 9)))
eval-insert_shift_check_example = eval-insert_shift_check env (var 8 9)

-- a[i].b[j] with arrays of 4 elements and of 1.
abbrev steps : List (Option ℕ × Value)
steps = (some 4, var 32 5) ∷ (none, const 32 0) ∷ (some 1, var 32 7) ∷ []

eval-insert_array_check_example :
    (enters_array steps ≡ false) × (insert_array_check steps ≡ none)
    ⊎ ((v : Value) × (enters_array steps ≡ true)
        × (insert_array_check steps ≡ some v)
        × (eval env v ≡ bit (some_index_exceeds env steps)))
eval-insert_array_check_example =
    eval-insert_array_check env steps
      (λ h. omega arith, λ h. omega arith, (λ h. omega arith, λ h. omega arith, tt))

-- The bound 256 of an array is 0 as a word of 8 bits, so that any other index is reported.
truncated_bound_test :
    insert_array_check ((some 256, var 8 1) ∷ [])
    ≡ some (icmp Predicate.icmp_ugt (var 8 1) (const 8 256))
unfolding insert_array_check
truncated_bound_test = refl

truncated_bound_reports : eval env (icmp Predicate.icmp_ugt (var 8 1) (const 8 256)) ≡ 1
unfolding eval
truncated_bound_reports = refl

shift_test :
    check_for (binary_instr BinaryOp.shl (var 8 1) (var 8 2))
    ≡ sat_check (icmp Predicate.icmp_uge (var 8 2) (const 8 8))
unfolding check_for
shift_test = refl

-- An operator into a sink, after a load.
abbrev operator_into_sink : Uses
operator_into_sink =
    instruction none false end (instruction none true (instruction (some 7) false end end) end)

find_sink_complete_example :
    (found : ℕ) × (find_sink operator_into_sink ≡ some found) × Flows found operator_into_sink
find_sink_complete_example =
    find_sink_complete operator_into_sink 7 (refl, tt) (later (through into))

-- An operator that is not used hides the sink after it.
hidden_sink_test : find_sink (instruction none true end (instruction (some 7) false end end)) ≡ none
unfolding find_sink
hidden_sink_test = refl
