-- ===== src/ValueGen/Tests.antt =====
-- src/ValueGen.cc: expressions of concrete values, ranges and addresses.
use kint_test.Base.{ℕ, ◌+◌, ◌%◌, ◌^◌, ◌*◌, ◌≡◌, refl, false, some, List, [], ◌∷◌, arith}
use kint_test.Word.{wsdiv, wneg}
use kint_test.Ir.{
  Value, const, var, binary, icmp, cast, select, BinaryOp, Predicate, CastOp, Env, eval, WellTyped,
}
use kint_test.Solver.{formulas, Formula, meanings, Meaning}
use kint_test.ValueGen.Translate.{analyze}
use kint_test.ValueGen.Correct.{value-analyze}
use kint_test.ValueGen.Widths.{Defined}
use kint_test.ValueGen.Ranges.{
  add_range_constraints, all_hold, in_ranges, add_range_constraints-exact,
  add_range_constraints-disjoint,
}
use kint_test.ValueGen.Offsets.{GepType, Index, visit_gep_operator, displacements}
use kint_test.ValueGen.Addresses.{visit_gep_operator-address}

abbrev values : ℕ → ℕ
values x = 100 * x + 7

abbrev env : Env
env = record { values = values; undefined = λ op a b. 0 }

-- x < 20 ? x / -1 : the low four bits of y, extended by their sign
abbrev shown : Value
shown =
    select (icmp Predicate.icmp_ult (binary BinaryOp.ashr (var 8 0) (const 8 1)) (const 8 20))
      (binary BinaryOp.sdiv (var 8 0) (const 8 255))
      (cast CastOp.sext 8 (cast CastOp.trunc 4 (var 8 1)))

shown-WellTyped : WellTyped shown
shown-WellTyped = (
  ((omega arith, omega arith, refl), omega arith, refl),
  (omega arith, omega arith, refl),
  ((omega arith, omega arith), omega arith),
  refl,
  refl,
)

shown-Defined : Defined env shown
unfolding eval
shown-Defined =
    (((tt, tt, ((2, refl), omega arith)), tt), (tt, tt, λ h. omega arith), ((tt, tt), omega arith))

value_test : (analyze meanings shown).at values ≡ 249
unfolding analyze wsdiv wneg
value_test = refl

value-analyze_example : (analyze meanings shown).at values ≡ eval env shown
value-analyze_example =
    value-analyze meanings values env (λ w x. refl) shown shown-WellTyped shown-Defined

-- [3, 9) and the wrapping [200, 10)
abbrev ranges : List (ℕ × ℕ)
ranges = (3, 9) ∷ (200, 10) ∷ (4, 4) ∷ []

add_range_constraints-exact_example :
    all_hold formulas values (add_range_constraints formulas (Formula.variable 0) ranges)
    ≡ in_ranges 8 ranges 7
add_range_constraints-exact_example =
    add_range_constraints-exact formulas values 8 (Formula.variable 0) ranges
      (omega arith, omega arith, (omega arith, omega arith, (omega arith, omega arith, tt)))
      (omega arith)

add_range_constraints-disjoint_example :
    all_hold formulas values
      (add_range_constraints formulas (Formula.variable 0) ((3, 9) ∷ (20, 30) ∷ []))
    ≡ false
add_range_constraints-disjoint_example =
    add_range_constraints-disjoint formulas values 8 (Formula.variable 0) 3 9 20 30 (omega arith)
      (omega arith) (omega arith) (omega arith) (omega arith)

-- A field of the second record, and in it an element, at an index of 8 bits.
abbrev steps : List (GepType × Index meanings 32)
steps =
    (GepType.sequential_type 24, Index.constant_index 64 2)
    ∷ (GepType.struct_type (λ field. 4 * field), Index.constant_index 32 3)
    ∷ (GepType.sequential_type 2, Index.variable_index (record { size = 8; at = λ m. m 2 }))
    ∷ []

abbrev base : Meaning
base = record { size = 32; at = λ m. 1000 }

visit_gep_operator-address_example :
    (e : Meaning) × (visit_gep_operator meanings 32 base steps ≡ some e)
    × (e.at values % 2 ^ 32 ≡ (1000 + displacements meanings 32 values steps) % 2 ^ 32)
visit_gep_operator-address_example =
    visit_gep_operator-address meanings 32 values (omega arith) base steps (tt, (refl, (tt, tt)))
      refl
