-- ===== src/Taint/Tests.antt =====
-- src/Taint.cc: the pass at a concrete program.
use kint_test.Base.{
  ℕ, ◌≡◌, refl, Bool, false, ◌==◌, Option, none, some, List, [], ◌∷◌, if◌then◌else◌,
}
use kint_test.Global.TaintMap.{TaintMap, DescSet, get_id, get_value, add_value, add_id}
use kint_test.Taint.Pass.{Value, Kind, Instr, get_taint, do_module_pass}
use kint_test.Taint.Grows.{is_some}
use kint_test.Taint.Values.{tainted, get_taint-tainted}

abbrev no_taint : TaintMap
no_taint = record { gts = λ id. none; vts = λ v. none }

-- x = read(), a source; *p = x, to the identifier 4
abbrev reader : List Instr
reader =
    record { number = 1; source = some 7; id = 2; struct_ids = 3 ∷ []; kind = Kind.plain [] 0 }
    ∷ record {
      number = 5;
      source = none;
      id = 0;
      struct_ids = [];
      kind = Kind.plain (record { number = 1; stripped = 1; callees = []; id = 2 } ∷ []) 4;
    }
    ∷ []

abbrev loaded : Value
loaded = record { number = 6; stripped = 6; callees = []; id = 4 }

-- f(0, y), where y is loaded from 4
abbrev caller : List Instr
caller =
    record {
      number = 8;
      source = none;
      id = 0;
      struct_ids = [];
      kind =
          Kind.call (record { skipped = false; arg_id = λ a. if a == 1 then 9 else 8 } ∷ [])
            (record { number = 20; stripped = 20; callees = []; id = 0 } ∷ loaded ∷ []);
    }
    ∷ []

-- The functions are in the order that needs two rounds.
abbrev functions : List (List Instr)
functions = caller ∷ reader ∷ []

abbrev reached : ℕ → Option (TaintMap × Bool) → Option DescSet
unfolding get_id
reached id none = none
reached id (some (tm, ret)) = get_id tm id

do_module_pass_test : reached 9 (do_module_pass 11 no_taint functions) ≡ some (7 ∷ [])
unfolding do_module_pass get_id get_value add_value add_id
do_module_pass_test = refl

clean_test : reached 8 (do_module_pass 11 no_taint functions) ≡ none
unfolding do_module_pass get_id get_value add_value add_id
clean_test = refl

get_taint-tainted_example : is_some ((get_taint no_taint loaded).0) ≡ tainted no_taint loaded
get_taint-tainted_example = get_taint-tainted no_taint loaded
