-- ===== src/PathGen/Terminators.antt =====
-- src/PathGen.cc: the guards of edges, against the runs.
use kint_test.Base.{
  ℕ, ◌≡◌, ◌≢◌, refl, inl, inr, Bool, true, false, ◌&&◌, ◌||◌, not, ◌==◌, if◌then◌else◌, List, [],
  ◌∷◌, arith, Bool-cases, ==_iff,
}
use kint_test.Solver.{Solver}
use kint_test.PathGen.Guards.{
  Terminator, Incoming, Phi, Cfg, cases_guard, get_term_guard, phis_guard, get_phi_guard, phi_guard,
  branch_guard,
}
use kint_test.PathGen.Runs.{successor, Fresh, Distinct, Avoids, OneSided, taken, agrees, phis_agree}

abbrev matches : (ℕ → Bool) → ℕ → List (ℕ × ℕ) → Bool
matches wanted x [] = false
matches wanted x ((c, dest) ∷ cases) = (wanted dest && x == c) || matches wanted x cases

default_successor :
    (default bb x : ℕ) (cases : List (ℕ × ℕ))
    → default ≡ bb
    → Avoids bb cases
    → not (matches (λ dest. true) x cases) ≡ (successor x default cases == bb)
default_successor default bb x [] same h = ground arith
default_successor default bb x ((c, dest) ∷ cases) same (ne, h) =
    let ih = default_successor default bb x cases same h in ground arith

Fresh-matches :
    (wanted : ℕ → Bool) (x c : ℕ) (cases : List (ℕ × ℕ))
    → x ≡ c
    → Fresh c cases
    → matches wanted x cases ≡ false
Fresh-matches wanted x b [] same h = refl
Fresh-matches wanted x b ((c, dest) ∷ cases) same (ne, h) =
    let ih = Fresh-matches wanted x b cases same h in ground arith

case_successor :
    (default bb x : ℕ) (cases : List (ℕ × ℕ))
    → default ≢ bb
    → Distinct cases
    → matches (λ dest. dest == bb) x cases ≡ (successor x default cases == bb)
case_successor default bb x [] out h = ground arith
case_successor default bb x ((c, dest) ∷ cases) out (fresh, h) =
    let ih = case_successor default bb x cases out h in
    elim (Bool-cases (x == c)) [
      | inl same ↦
          let none_left =
            Fresh-matches (λ dest. dest == bb) x c cases ((==_iff x c).0 same) fresh in
          ground arith
      | inr differ ↦ ground arith
    ]

module _ (s : Solver) (get_value : ℕ → s.Expr) (m : s.Model) (v : ℕ → ℕ)
    (values : (x : ℕ) → s.value m (get_value x) ≡ v x) where
  open s use {Expr, holds, holds-bvtrue, holds-bvfalse, holds-bvor, holds-bvand, holds-bvnot}

  holds-equal_const : (x c : ℕ) → holds m (s.eq (get_value x) (s.bvconst c)) ≡ (v x == c)
  holds-equal_const x c = rw (s.holds-eq, values, s.value-bvconst)

  holds-cases_guard :
      (x : ℕ) (wanted : ℕ → Bool) (e : Expr) (cases : List (ℕ × ℕ))
      → holds m (cases_guard s get_value x wanted e cases)
        ≡ (holds m e || matches wanted (v x) cases)
  unfolding cases_guard
  holds-cases_guard x wanted e [] = ground arith
  holds-cases_guard x wanted e ((c, dest) ∷ cases) =
      let ih =
        holds-cases_guard x wanted
          (if wanted dest then s.bvor e (s.eq (get_value x) (s.bvconst c)) else e) cases in
      let new = s.holds-bvor m e (s.eq (get_value x) (s.bvconst c)) in
      let equal = holds-equal_const x c in
      elim (Bool-cases (wanted dest)) [ inl joins ↦ ground arith | inr passes ↦ ground arith ]

  pub holds-get_term_guard :
      (t : Terminator) (bb : ℕ)
      → OneSided t bb
      → holds m (get_term_guard s get_value t bb) ≡ taken v t bb
  unfolding get_term_guard
  holds-get_term_guard (Terminator.unconditional dest) bb h =
      let truth = holds-bvtrue m in ground arith
  holds-get_term_guard (Terminator.conditional c on_true on_false) bb h =
      let inverse = holds-bvnot m (get_value c) in
      let reads = s.holds-value m (get_value c) in let at = values c in ground arith
  holds-get_term_guard (Terminator.switch c default cases) bb (distinct, side) =
      let all = holds-cases_guard c (λ dest. true) s.bvfalse cases in
      let some_of = holds-cases_guard c (λ dest. dest == bb) s.bvfalse cases in
      let inverse = holds-bvnot m (cases_guard s get_value c (λ dest. true) s.bvfalse cases) in
      let falsity = holds-bvfalse m in
      elim (Bool-cases (default == bb)) [
        | inl same ↦ elim side [
          | inl out ↦ ground arith
          | inr avoids ↦
              let goes =
                default_successor default bb (v c) cases ((==_iff default bb).0 same) avoids in
              ground arith
        ]
        | inr out ↦
            let goes = case_successor default bb (v c) cases (ground arith) distinct in ground arith
      ]
  holds-get_term_guard Terminator.indirect_br bb h = holds-bvtrue m
  holds-get_term_guard Terminator.invoke bb h = holds-bvtrue m

  holds-phi_guard :
      (phi : Phi) (i : Incoming) (e : Expr)
      → holds m (phi_guard s get_value phi i e) ≡ (holds m e && agrees v phi i)
  unfolding phi_guard
  holds-phi_guard phi (Incoming.incoming x) e =
      rw (holds-bvand, s.holds-eq, values phi.self, values x)
  holds-phi_guard phi Incoming.undef e = ground arith
  holds-phi_guard phi Incoming.not_analyzable e = ground arith

  holds-phis_guard :
      (pred : ℕ) (e : Expr) (phis : List Phi)
      → holds m (phis_guard s get_value pred e phis) ≡ (holds m e && phis_agree v pred phis)
  unfolding phis_guard
  holds-phis_guard pred e [] = ground arith
  holds-phis_guard pred e (phi ∷ phis) =
      let ih = holds-phis_guard pred (phi_guard s get_value phi (phi.value_for pred) e) phis in
      let this = holds-phi_guard phi (phi.value_for pred) e in ground arith

  -- The guard of an edge holds if it is taken and its phi nodes agree.
  pub holds-branch_guard :
      (cfg : Cfg) (bb p : ℕ) (e : Expr)
      → OneSided (cfg.terminator p) bb
      → holds m (branch_guard s get_value cfg bb p e)
        ≡ ((taken v (cfg.terminator p) bb && phis_agree v p (cfg.phis bb)) && holds m e)
  unfolding get_phi_guard
  holds-branch_guard cfg bb p e h =
      let term = holds-get_term_guard (cfg.terminator p) bb h in
      let phis = holds-phis_guard p s.bvtrue (cfg.phis bb) in
      let truth = holds-bvtrue m in rw (holds-bvand, holds-bvand, get_phi_guard, phis, term, truth)
