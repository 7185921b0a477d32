-- ===== src/Range/Tests.antt =====
-- src/Range.cc: the pass at concrete programs, over the flat ranges.
use kint_test.Base.{
  ℕ, ◌%◌, ◌^◌, ◌≡◌, refl, Bool, true, false, ◌==◌, ◌&&◌, Option, none, some, [], ◌∷◌, arith,
  if◌then◌else◌,
}
use kint_test.Word.{IsWord}
use kint_test.Ir.{BinaryOp, Predicate, Env}
use kint_test.Solver.{formulas, Formula}
use kint_test.ValueGen.Ranges.{all_hold, add_range_constraints}
use kint_test.Global.TaintMap.{TaintMap, is_source}
use kint_test.Range.Flat.{Flat}
use kint_test.Range.State.{Operand, RangeState, safe_union, get_range}
use kint_test.Range.Visits.{Kind, result_range}
use kint_test.Range.Refine.{Terminator, visit_terminator}
use kint_test.Range.Pass.{Function, do_module_pass, intrange}
use kint_test.Range.Rounds.{FunctionsBelow}
use kint_test.Range.Ends.{Settles, do_module_pass-Settles}
use kint_test.Range.Sound.{contains-safe_union}
use kint_test.Range.Results.{contains-result_range}
use kint_test.Range.Edges.{visit_terminator-keeps, visit_terminator-branch, visit_terminator-switch}
use kint_test.Range.Init.{GlobalVariable, Constant, Fields, Elements, do_initialization}
use kint_test.Range.Held.{
  in_global, HasWidths, Held, variables_ints, constant_ints, do_initialization-Held,
}
use kint_test.Range.Metadata.{all_hold-intrange, bounds}

abbrev no_taint : TaintMap
no_taint = record { gts = λ id. none; vts = λ v. none }

-- The global 3 starts at 0.
abbrev start : RangeState Flat
start = record {
  int_ranges = λ id. if id == 3 then some (Flat.single 8 0) else none;
  changes = [];
  func_vrms = λ bb v. none;
}

-- x = load 3; store x + 1 to 3
abbrev counter : Function
counter = record {
  back_edges = [];
  blocks =
      record {
        number = 0;
        preds = [];
        instrs =
            record {
              number = 1;
              result_width = some 8;
              kind = Kind.load (Operand.other_value 1 8 3);
            }
            ∷ record {
              number = 2;
              result_width = some 8;
              kind = Kind.binary BinaryOp.add (Operand.other_value 1 8 3) (Operand.const_int 8 1);
            }
            ∷ record {
              number = 4;
              result_width = none;
              kind = Kind.store (Operand.other_value 2 8 0) true 9 3;
            }
            ∷ [];
      }
      ∷ [];
}

abbrev full_at : ℕ → Option (RangeState Flat × Bool) → Bool
unfolding Flat
full_at id none = false
full_at id (some (st, ret)) = elim (st.int_ranges id) [ none ↦ false | some r ↦ Flat.is_full_set r ]

do_module_pass_test : full_at 3 (do_module_pass Flat no_taint 12 start (counter ∷ [])) ≡ true
unfolding Flat do_module_pass get_range is_source
do_module_pass_test = refl

counter-FunctionsBelow : FunctionsBelow 4 (counter ∷ [])
counter-FunctionsBelow = (((tt, (tt, (omega arith, tt))), tt), tt)

do_module_pass-Settles_example :
    Settles Flat no_taint 4
      (counter ∷ [])
      counter-FunctionsBelow
      (do_module_pass Flat no_taint 12 start (counter ∷ []))
do_module_pass-Settles_example =
    do_module_pass-Settles Flat no_taint 4 (counter ∷ []) counter-FunctionsBelow 12 start
      (omega arith)

abbrev env : Env
env = record { values = λ x. 0; undefined = λ op a b. 0 }

-- The value 1 of 16 bits is 260 in the block 1; 7 << it at 8 bits is 7 << 4.
abbrev wide_state : RangeState Flat
wide_state = record {
  int_ranges = λ id. none;
  changes = [];
  func_vrms = λ bb v. if bb == 1 && v == 1 then some (Flat.single 16 260) else none;
}

abbrev wide_shift : Kind
wide_shift = Kind.binary BinaryOp.shl (Operand.const_int 8 7) (Operand.other_value 1 16 0)

contains-result_range_example :
    Flat.contains ((result_range Flat no_taint [] wide_state 1 8 wide_shift).0) 112 ≡ true
unfolding Flat get_range
contains-result_range_example =
    contains-result_range Flat no_taint [] wide_state 1 env 8 wide_shift 112
      (7, 260, (refl, omega arith), (refl, omega arith), tt, refl, refl, refl)

contains-safe_union_example :
    (Flat.bits ((safe_union Flat (Flat.single 8 7) (Flat.single 16 260)).0)
      ≡ Flat.bits (Flat.single 8 7))
    × ((x : ℕ)
        → Flat.contains (Flat.single 8 7) x ≡ true
        → Flat.contains ((safe_union Flat (Flat.single 8 7) (Flat.single 16 260)).0) x ≡ true)
    × ((x : ℕ)
        → Flat.contains (Flat.single 16 260) x ≡ true
        → IsWord (Flat.bits (Flat.single 16 260)) x
        → Flat.contains
            ((safe_union Flat (Flat.single 8 7) (Flat.single 16 260)).0)
            (x % 2 ^ Flat.bits (Flat.single 8 7))
          ≡ true)
contains-safe_union_example = contains-safe_union Flat (Flat.single 8 7) (Flat.single 16 260)

-- The block 1 after a branch on `v < 10`, and the map of the block before it.
abbrev guard : Terminator
guard =
    Terminator.branch Predicate.icmp_ult (Operand.other_value 1 8 3) (Operand.const_int 8 10) 0 1

abbrev empty_map : ℕ → Option Flat.Range
empty_map v = none

abbrev known_map : ℕ → Option Flat.Range
known_map v = if v == 1 then some (Flat.single 8 5) else none

visit_terminator-keeps_example :
    (visit_terminator Flat no_taint start 1 guard known_map).0 1 ≡ some (Flat.single 8 5)
visit_terminator-keeps_example =
    visit_terminator-keeps Flat no_taint start 1 known_map guard 1 (Flat.single 8 5) refl

visit_terminator-branch_example :
    (r : Flat.Range) × ((visit_terminator Flat no_taint start 1 guard empty_map).0 1 ≡ some r)
    × (Flat.contains r 0 ≡ true)
unfolding Flat get_range is_source
visit_terminator-branch_example =
    visit_terminator-branch Flat no_taint start 1 empty_map Predicate.icmp_ult
      (Operand.other_value 1 8 3) (Operand.const_int 8 10) 0 1 1 0 10 refl refl refl (omega arith)
      refl refl refl

-- 0 goes to the block 2, and the rest to the block 5.
visit_terminator-switch_example :
    (r : Flat.Range) × ((visit_terminator Flat no_taint start 2
          (Terminator.switch (Operand.other_value 1 8 3) 8 0 5 ((4, 2) ∷ (0, 2) ∷ []))
          empty_map).0
        1
      ≡ some r)
    × (Flat.contains r 0 ≡ true)
unfolding Flat get_range is_source
visit_terminator-switch_example =
    visit_terminator-switch Flat no_taint start 2 empty_map (Operand.other_value 1 8 3) 8 0 5
      ((4, 2) ∷ (0, 2) ∷ []) 1 0 refl refl refl (omega arith) refl refl

-- static struct s v[] = {{3, 70000}};
abbrev table : GlobalVariable
table = record {
  dotted = false;
  var_id = 6;
  initializer = some (
      Constant.constant_array true (
        Elements.element
          (Constant.constant_struct false (
            Fields.int_field 3 (some (8, 3))
              (Fields.int_field 7 (some (32, 70000)) (Fields.other_field Fields.end))))
          Elements.nil));
}

abbrev width : ℕ → ℕ
width id = if id == 7 then 32 else 8

abbrev bare : RangeState Flat
bare = record { int_ranges = λ id. none; changes = []; func_vrms = λ bb v. none }

do_initialization-Held_example :
    Held Flat width (variables_ints (table ∷ [])) (do_initialization Flat (table ∷ []) bare)
    × HasWidths Flat width (do_initialization Flat (table ∷ []) bare)
    × ((i x : ℕ)
        → in_global Flat bare i x ≡ true
        → in_global Flat (do_initialization Flat (table ∷ []) bare) i x ≡ true)
unfolding constant_ints
do_initialization-Held_example =
    do_initialization-Held Flat width (table ∷ []) bare (λ id r found. absurd (cc))
      (refl, omega arith, (refl, omega arith, tt))

all_hold-intrange_example :
    all_hold formulas
      (λ x. 12)
      (add_range_constraints formulas
        (Formula.variable 0)
        (bounds Flat formulas (intrange Flat (λ id. some (Flat.single 8 12)) 4)))
    ≡ true
unfolding Flat
all_hold-intrange_example =
    all_hold-intrange Flat formulas (λ id. some (Flat.single 8 12)) 4 (Flat.single 8 12) (λ x. 12)
      (Formula.variable 0) refl refl (omega arith)
