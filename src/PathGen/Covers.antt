-- ===== src/PathGen/Covers.antt =====
-- src/PathGen.cc: with a dominator tree the search for a guard comes to an end.
use kint_test.Base.{
  ℕ, zero, suc, ◌<◌, ◌≡◌, refl, inl, inr, true, false, ◌==◌, Option, some, List, [], ◌∷◌, arith,
  Bool-cases,
}
use mathlib.Core.List.{Memᴰ}
use kint_test.Solver.{Solver}
use kint_test.PathGen.Guards.{
  Cfg, any_backedge, find_common_dominator, common_dominator, branch_guard, preds_guard, get,
}
use kint_test.PathGen.Runs.{OneSided, Run}
use kint_test.PathGen.Dominators.{get-covers}

module _ (s : Solver) (get_value : ℕ → s.Expr) (cfg : Cfg) (backedges : List (ℕ × ℕ))
    (nearest : ℕ → ℕ → ℕ) where
  open s use {Expr, bvor}

  over_total :
      (get_pred : ℕ → Option Expr) (bb : ℕ) (e : Expr) (ps : List ℕ)
      → ((p : ℕ) → Memᴰ p ps → (g : Expr) × (get_pred p ≡ some g))
      → (g : Expr) × (preds_guard s get_value cfg backedges (some nearest) get_pred bb e ps
          ≡ some g)
  unfolding preds_guard
  over_total get_pred bb e [] found = (e, refl)
  over_total get_pred bb e (p ∷ ps) found =
      let (guard, at_p) = found p (Memᴰ.head refl) in
      let (g, ends) =
        over_total get_pred bb (bvor e (branch_guard s get_value cfg bb p guard)) ps
          (λ q i. found q (Memᴰ.tail i)) in
      (g, rw (preds_guard, at_p) ends)

  any_backedge-find_common_dominator :
      (ps : List ℕ) (bb : ℕ)
      → any_backedge backedges ps bb ≡ true
      → (dom : ℕ) × (find_common_dominator nearest ps ≡ some dom)
  unfolding any_backedge find_common_dominator
  any_backedge-find_common_dominator [] bb h = absurd (cc)
  any_backedge-find_common_dominator (p ∷ ps) bb h = (common_dominator nearest p ps, refl)

  -- Predecessors rank below a block that no back edge enters, and the common dominator of the
  -- predecessors below one that a back edge enters.
  module _ (rank : ℕ → ℕ)
      (upwards : (p bb : ℕ)
        → Memᴰ p (cfg.preds bb)
        → any_backedge backedges (cfg.preds bb) bb ≡ false
        → (bb == cfg.entry) ≡ false
        → rank p < rank bb)
      (dominator_below : (dom bb : ℕ)
        → find_common_dominator nearest (cfg.preds bb) ≡ some dom
        → any_backedge backedges (cfg.preds bb) bb ≡ true
        → (bb == cfg.entry) ≡ false
        → rank dom < rank bb) where
    get_found :
        (fuel bb : ℕ)
        → rank bb < fuel
        → (g : Expr) × (get s get_value cfg backedges (some nearest) fuel bb ≡ some g)
    unfolding get
    get_found zero bb enough = absurd (omega arith)
    get_found (suc fuel) bb enough = elim (Bool-cases (bb == cfg.entry)) [
      | inl same ↦ (s.bvtrue, rw (get, same))
      | inr other ↦ elim (Bool-cases (any_backedge backedges (cfg.preds bb) bb)) [
        | inl looping ↦
            let (dom, at_dom) = any_backedge-find_common_dominator (cfg.preds bb) bb looping in
            let below = dominator_below dom bb at_dom looping other in
            let (g, ends) = get_found fuel dom (omega arith) in
            (g, rw (get, other, looping, at_dom) ends)
        | inr plain ↦
            let (g, ends) =
              over_total (get s get_value cfg backedges (some nearest) fuel) bb s.bvfalse
                (cfg.preds bb)
                (λ p i. let below = upwards p bb i plain other in get_found fuel p (omega arith)) in
            (g, rw (get, other, plain) ends)
      ]
    ]

    -- With a dominator tree, and more fuel than the rank of the block, the guard of a block is
    -- found and holds if a run that the values fit leads to the block along edges that are not back
    -- edges. A run to a block passes its nearest common dominator with any other, and every
    -- predecessor's terminator has the block on one side only: no conditional branch has both
    -- successors equal, the cases of a switch are distinct, and none has the target of the default.
    pub get-covers_runs :
        (m : s.Model) (v : ℕ → ℕ)
        → ((x : ℕ) → s.value m (get_value x) ≡ v x)
        → ((p bb : ℕ) → Memᴰ p (cfg.preds bb) → OneSided (cfg.terminator p) bb)
        → ((a b : ℕ) → Run v cfg backedges a → Run v cfg backedges (nearest a b))
        → ((a b : ℕ) → Run v cfg backedges b → Run v cfg backedges (nearest a b))
        → (fuel bb : ℕ) → rank bb < fuel
        → Run v cfg backedges bb
        → (g : Expr) × (get s get_value cfg backedges (some nearest) fuel bb ≡ some g)
          × (s.holds m g ≡ true)
    get-covers_runs m v values sides dominates_left dominates_right fuel bb enough run =
        let (g, ends) = get_found fuel bb enough in
        (
          g,
          ends,
          get-covers s get_value m v values cfg backedges sides nearest dominates_left
              dominates_right fuel bb g ends run,
        )
