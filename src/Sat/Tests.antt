-- ===== src/Sat/Tests.antt =====
-- src/CmpSat.cc and src/IntSat.cc: a solver for one unknown bit, and three calls.
use kint_test.Base.{
  ℕ, ◌≡◌, ◌≢◌, refl, Bool, true, false, not, bit, leb, ltb, ◌&&◌, ◌||◌, ◌==◌, if◌then◌else◌, none,
  List, [], ◌∷◌, arith, contains,
}
use kint_test.Solver.{Solver}
use kint_test.Sat.Comparisons.{
  SmtStatus, sat, unsat, is_unsat, Reason, cmp_true, check-verdict, check-reports,
}
use kint_test.Sat.Comparisons
use kint_test.Sat.Bugs.{Call, run_on_function, any_bug, no_repeat, run_on_function-reports}

abbrev one_bit : Solver
one_bit = record {
  Expr = Bool → ℕ;
  Model = Bool;
  value = λ m e. e m;
  holds = λ m e. e m == 1;
  bvtrue = λ m. 1;
  bvfalse = λ m. 0;
  bvconst = λ c m. c;
  bvand = λ a b m. bit (a m == 1 && b m == 1);
  bvor = λ a b m. bit (a m == 1 || b m == 1);
  bvnot = λ a m. bit (not (a m == 1));
  eq = λ a b m. bit (a m == b m);
  bvuge = λ a b m. bit (leb (b m) (a m));
  bvult = λ a b m. bit (ltb (a m) (b m));
  holds-value = λ m a. refl;
  holds-bvtrue = λ m. refl;
  holds-bvfalse = λ m. refl;
  value-bvconst = λ m c. refl;
  holds-bvand = λ m a b. ground arith;
  holds-bvor = λ m a b. ground arith;
  holds-bvnot = λ m a. ground arith;
  holds-eq = λ m a b. ground arith;
  holds-bvuge = λ m a b. ground arith;
  holds-bvult = λ m a b. ground arith;
}

abbrev query : (Bool → ℕ) → SmtStatus
query e = if e true == 1 || e false == 1 then sat else unsat

query_sound : (e : Bool → ℕ) → is_unsat (query e) ≡ true → (m : Bool) → (e m == 1) ≡ false
query_sound e h true = ground arith
query_sound e h false = ground arith

query_complete : (e : Bool → ℕ) → ((m : Bool) → (e m == 1) ≡ false) → is_unsat (query e) ≡ true
query_complete e h = let on = h true in let off = h false in rw (on, off) refl

-- The path asks for the bit, and the condition is that it is set.
abbrev path : Bool → ℕ
path m = bit m

abbrev condition : Bool → ℕ
condition m = if m then 1 else 0

set : (m : Bool) → (path m == 1) ≡ true → (condition m == 1) ≡ true
set true h = refl
set false h = absurd (cc)

check-verdict_example : (condition true == 1) ≡ true
unfolding Comparisons.check
check-verdict_example =
    check-verdict one_bit query condition path cmp_true query_sound refl true refl

check-reports_example : Comparisons.check one_bit query condition path ≢ none
check-reports_example = check-reports one_bit query condition path cmp_true query_complete set

-- Two calls with the condition 4, and one without a place in the source.
abbrev calls : List Call
calls =
    record { value = 4; is_constant = false; is_located = true; has_bug = true; is_sat = true }
    ∷ record { value = 7; is_constant = false; is_located = false; has_bug = true; is_sat = true }
    ∷ record { value = 4; is_constant = false; is_located = true; has_bug = true; is_sat = true }
    ∷ []

run_on_function_test : run_on_function calls ≡ 4 ∷ []
unfolding run_on_function
run_on_function_test = refl

run_on_function-reports_example :
    (no_repeat (run_on_function calls) ≡ true)
    × ((v : ℕ) → contains (run_on_function calls) v ≡ any_bug calls v)
run_on_function-reports_example = run_on_function-reports calls
