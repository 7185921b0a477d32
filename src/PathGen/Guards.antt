-- ===== src/PathGen/Guards.antt =====
-- src/PathGen.cc: the guards. Basic blocks and values are numbers. The cache of guards is not
-- modelled: a guard is computed anew where the code looks it up.
use kint_test.Base.{
  ℕ, zero, suc, Bool, true, false, ◌&&◌, ◌||◌, ◌==◌, if◌then◌else◌, Option, none, some, List, [],
  ◌∷◌,
}
use kint_test.Solver.{Solver}

pub data Terminator : Type 0 where
  unconditional : (dest : ℕ) → Terminator
  conditional : (condition on_true on_false : ℕ) → Terminator
  -- the cases: a constant and a successor
  switch : (condition default : ℕ) (cases : List (ℕ × ℕ)) → Terminator
  indirect_br invoke : Terminator

-- The value of a phi node for a predecessor.
pub data Incoming : Type 0 where
  undef not_analyzable : Incoming
  incoming : (value : ℕ) → Incoming

pub record Phi : Type 0 where
  pub self : ℕ
  pub value_for : ℕ → Incoming

pub record Cfg : Type 0 where
  pub entry : ℕ
  pub preds : ℕ → List ℕ
  pub terminator : ℕ → Terminator
  pub phis : ℕ → List Phi

unfoldable pub is_backedge : List (ℕ × ℕ) → ℕ → ℕ → Bool
is_backedge [] src dst = false
is_backedge ((s, d) ∷ edges) src dst = (s == src && d == dst) || is_backedge edges src dst

-- Whether a back edge leads to the block from one of the predecessors.
unfoldable pub any_backedge : List (ℕ × ℕ) → List ℕ → ℕ → Bool
unfolding is_backedge
any_backedge edges [] bb = false
any_backedge edges (p ∷ ps) bb = is_backedge edges p bb || any_backedge edges ps bb

-- findNearestCommonDominator, over all predecessors.
unfoldable pub common_dominator : (ℕ → ℕ → ℕ) → ℕ → List ℕ → ℕ
common_dominator nearest dom [] = dom
common_dominator nearest dom (p ∷ ps) = common_dominator nearest (nearest dom p) ps

unfoldable pub find_common_dominator : (ℕ → ℕ → ℕ) → List ℕ → Option ℕ
unfolding common_dominator
find_common_dominator nearest [] = none
find_common_dominator nearest (p ∷ ps) = some (common_dominator nearest p ps)

-- `get_value` is ValueGen::get.
module _ (s : Solver) (get_value : ℕ → s.Expr) where
  open s use {Expr, bvtrue, bvfalse, bvconst, bvand, bvor, bvnot, eq}

  -- The disjunction of x = C for the cases that `wanted` accepts.
  unfoldable pub cases_guard : ℕ → (ℕ → Bool) → Expr → List (ℕ × ℕ) → Expr
  cases_guard condition wanted e [] = e
  cases_guard condition wanted e ((c, dest) ∷ cases) =
      cases_guard condition wanted
        (if wanted dest then bvor e (eq (get_value condition) (bvconst c)) else e) cases

  unfoldable pub get_term_guard : Terminator → ℕ → Expr
  unfolding cases_guard
  get_term_guard (unconditional dest) bb = bvtrue
  get_term_guard (conditional condition on_true on_false) bb =
      if on_true == bb then get_value condition else bvnot (get_value condition)
  get_term_guard (switch condition default cases) bb =
      if default == bb
      then bvnot (cases_guard condition (λ _. true) bvfalse cases)
      else cases_guard condition (λ dest. dest == bb) bvfalse cases
  get_term_guard indirect_br bb = bvtrue
  get_term_guard invoke bb = bvtrue

  unfoldable pub phi_guard : Phi → Incoming → Expr → Expr
  phi_guard phi (incoming v) e = bvand e (eq (get_value phi.self) (get_value v))
  phi_guard phi undef e = e
  phi_guard phi not_analyzable e = e

  unfoldable pub phis_guard : ℕ → Expr → List Phi → Expr
  unfolding phi_guard
  phis_guard pred e [] = e
  phis_guard pred e (phi ∷ phis) = phis_guard pred (phi_guard phi (phi.value_for pred) e) phis

  unfoldable pub get_phi_guard : Cfg → ℕ → ℕ → Expr
  unfolding phis_guard
  get_phi_guard cfg bb pred = phis_guard pred bvtrue (cfg.phis bb)

  abbrev pub branch_guard : Cfg → ℕ → ℕ → Expr → Expr
  branch_guard cfg bb pred guard =
      bvand (bvand (get_term_guard (cfg.terminator pred) bb) (get_phi_guard cfg bb pred)) guard

  module _ (cfg : Cfg) (backedges : List (ℕ × ℕ)) (dt : Option (ℕ → ℕ → ℕ)) where
    abbrev pub skips : ℕ → ℕ → Bool
    skips pred bb = elim dt [ none ↦ is_backedge backedges pred bb | some _ ↦ false ]

    -- The disjunction over the predecessors; `get_pred` is the recursive call.
    unfoldable pub preds_guard : (ℕ → Option Expr) → ℕ → Expr → List ℕ → Option Expr
    unfolding get_term_guard get_phi_guard is_backedge
    preds_guard get_pred bb g [] = some g
    preds_guard get_pred bb g (pred ∷ ps) =
        if skips pred bb then preds_guard get_pred bb g ps else elim (get_pred pred) [
          | none ↦ none
          | some guard ↦ preds_guard get_pred bb (bvor g (branch_guard cfg bb pred guard)) ps
        ]

    -- PathGen::get; `none` means that the fuel ran out, or that a dominator was asked of a block
    -- with no predecessor.
    unfoldable pub get : ℕ → ℕ → Option Expr
    unfolding preds_guard any_backedge find_common_dominator
    get zero bb = none
    get (suc fuel) bb =
        let above = preds_guard (get fuel) bb bvfalse (cfg.preds bb) in
        if bb == cfg.entry then some bvtrue else elim dt [
          | none ↦ above
          | some nearest ↦ elim (any_backedge backedges (cfg.preds bb) bb) [
            | false ↦ above
            | true ↦ elim (find_common_dominator nearest (cfg.preds bb)) [
              | none ↦ none
              | some dom ↦ get fuel dom
            ]
          ]
        ]
