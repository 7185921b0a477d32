-- ===== src/IdealShift/Tests.antt =====
-- src/IdealShift.cc: a run of the pass, and its theorem at a shift by too much.
use kint_test.Base.{◌≡◌, refl, Bool, true, false, [], ◌∷◌, arith}
use kint_test.Ir.{Value, const, var, binary, icmp, select, BinaryOp, Predicate, Env, eval}
use kint_test.IdealShift.Pass.{ideal_shift, run_on_function}
use kint_test.IdealShift.Meaning.{ideal, eval-ideal_shift}

abbrev no_constant : Value → Bool
no_constant v = false

-- A shift by too much gives 77 on this machine.
abbrev env : Env
env = record { values = λ x. x; undefined = λ op a b. 77 }

abbrev shifted : Value
shifted =
    select (icmp Predicate.icmp_uge (var 8 9) (const 8 8)) (const 8 0)
      (binary BinaryOp.shl (var 8 3) (var 8 9))

walk_test :
    run_on_function no_constant
      ((true, BinaryOp.shl, var 8 3, var 8 9) ∷ (true, BinaryOp.add, var 8 3, var 8 9) ∷ [])
    ≡ (shifted ∷ binary BinaryOp.add (var 8 3) (var 8 9) ∷ [], true)
unfolding run_on_function
walk_test = refl

eval-ideal_shift_example :
    eval env shifted ≡ ideal 8 BinaryOp.shl (eval env (var 8 3)) (eval env (var 8 9))
unfolding ideal_shift
eval-ideal_shift_example =
    eval-ideal_shift no_constant env BinaryOp.shl (var 8 3) (var 8 9) shifted (omega arith) refl
