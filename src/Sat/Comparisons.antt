-- ===== src/Sat/Comparisons.antt =====
-- src/CmpSat.cc: the check of the condition of a branch.
use kint_test.Base.{
  ◌≡◌, inl, inr, Bool, true, false, Option, none, some, Bool-cases, arith, if◌then◌else◌, ◌≢◌, sym,
}
use kint_test.Solver.{Solver}

-- What a query comes to: SMT_UNDEF and SMT_TIMEOUT are `unknown`.
pub data SmtStatus : Type 0 where
  unknown unsat sat : SmtStatus

abbrev pub is_unsat : SmtStatus → Bool
is_unsat unknown = false
is_unsat unsat = true
is_unsat sat = false

pub data Reason : Type 0 where
  cmp_false cmp_true : Reason

module _ (s : Solver) (query : s.Expr → SmtStatus) where
  open s use {Expr, Model, holds, bvand, bvnot}

  -- CmpSat::check, of the expressions of the condition and of the path, with what it reports
  unfoldable pub check : (value_pred path_pred : Expr) → Option Reason
  check value_pred path_pred =
      if is_unsat (query (bvand value_pred path_pred))
      then some cmp_false
      else if is_unsat (query (bvand (bvnot value_pred) path_pred))
      then some cmp_true
      else none

  abbrev pub verdict : Reason → Bool
  verdict cmp_false = false
  verdict cmp_true = true

  -- If an answer of `unsat` means that no model satisfies the query, then a condition that is
  -- reported has the reported value in every model in which the path predicate holds.
  pub check-verdict :
      (value_pred path_pred : Expr) (reason : Reason)
      → ((e : Expr) → is_unsat (query e) ≡ true → (m : Model) → holds m e ≡ false)
      → check value_pred path_pred ≡ some reason
      → (m : Model) → holds m path_pred ≡ true
      → holds m value_pred ≡ verdict reason
  unfolding check
  check-verdict value_pred path_pred reason sound reported m reached =
      let both = s.holds-bvand m value_pred path_pred in
      let neither = s.holds-bvand m (bvnot value_pred) path_pred in
      let negated = s.holds-bvnot m value_pred in
      elim (Bool-cases (is_unsat (query (bvand value_pred path_pred)))) [
        | inl never ↦
            let is : some cmp_false ≡ some reason = rw (check, never) at reported in
            let same : cmp_false ≡ reason = cc in
            let none_holds = sound (bvand value_pred path_pred) never m in
            rw (sym same) (ground arith)
        | inr maybe ↦ elim (Bool-cases (is_unsat (query (bvand (bvnot value_pred) path_pred)))) [
          | inl always ↦
              let is : some cmp_true ≡ some reason = rw (check, maybe, always) at reported in
              let same : cmp_true ≡ reason = cc in
              let none_holds = sound (bvand (bvnot value_pred) path_pred) always m in
              rw (sym same) (ground arith)
          | inr open_case ↦
              let is : none ≡ some reason = rw (check, maybe, open_case) at reported in absurd (cc)
        ]
      ]

  -- If `unsat` is the answer to every query that no model satisfies, then a condition that has one
  -- value in every model in which the path predicate holds is reported.
  pub check-reports :
      (value_pred path_pred : Expr) (reason : Reason)
      → ((e : Expr) → ((m : Model) → holds m e ≡ false) → is_unsat (query e) ≡ true)
      → ((m : Model) → holds m path_pred ≡ true → holds m value_pred ≡ verdict reason)
      → check value_pred path_pred ≢ none
  unfolding check
  check-reports value_pred path_pred cmp_false complete constant silent =
      let never = complete (bvand value_pred path_pred) (λ m.
        let both = s.holds-bvand m value_pred path_pred in
        elim (Bool-cases (holds m path_pred)) [
          | inl reached ↦ let value = constant m reached in ground arith
          | inr missed ↦ ground arith
        ]) in
      let is : some cmp_false ≡ none = rw (check, never) at silent in cc
  check-reports value_pred path_pred cmp_true complete constant silent =
      let always = complete (bvand (bvnot value_pred) path_pred) (λ m.
        let both = s.holds-bvand m (bvnot value_pred) path_pred in
        let negated = s.holds-bvnot m value_pred in
        elim (Bool-cases (holds m path_pred)) [
          | inl reached ↦ let value = constant m reached in ground arith
          | inr missed ↦ ground arith
        ]) in
      elim (Bool-cases (is_unsat (query (bvand value_pred path_pred)))) [
        | inl never ↦ let is : some cmp_false ≡ none = rw (check, never) at silent in cc
        | inr maybe ↦ let is : some cmp_true ≡ none = rw (check, maybe, always) at silent in cc
      ]
