-- ===== src/PathGen/Total.antt =====
-- src/PathGen.cc: without back edges the search for a guard comes to an end.
use kint_test.Base.{
  ℕ, zero, suc, ◌<◌, ◌≡◌, ◌↔◌, refl, inl, inr, true, false, ◌==◌, Option, none, some, List, [], ◌∷◌,
  arith, Bool-cases,
}
use mathlib.Core.List.{Memᴰ}
use kint_test.Solver.{Solver}
use kint_test.PathGen.Guards.{Cfg, is_backedge, branch_guard, preds_guard, get}
use kint_test.PathGen.Runs.{OneSided, Run}
use kint_test.PathGen.Exact.{get-exact}

module _ (s : Solver) (get_value : ℕ → s.Expr) (cfg : Cfg) (backedges : List (ℕ × ℕ)) where
  open s use {Expr, bvor}

  preds_guard-total :
      (get_pred : ℕ → Option Expr) (bb : ℕ) (e : Expr) (ps : List ℕ)
      → ((p : ℕ)
          → Memᴰ p ps
          → is_backedge backedges p bb ≡ false
          → (g : Expr) × (get_pred p ≡ some g))
      → (g : Expr) × (preds_guard s get_value cfg backedges none get_pred bb e ps ≡ some g)
  unfolding preds_guard
  preds_guard-total get_pred bb e [] found = (e, refl)
  preds_guard-total get_pred bb e (p ∷ ps) found =
      let later : (q : ℕ)
          → Memᴰ q ps
          → is_backedge backedges q bb ≡ false
          → (g : Expr) × (get_pred q ≡ some g) =
        λ q i. found q (Memᴰ.tail i) in
      elim (Bool-cases (is_backedge backedges p bb)) [
        | inl back ↦
            let (g, ends) = preds_guard-total get_pred bb e ps later in
            (g, rw (preds_guard, back) ends)
        | inr forward ↦
            let (guard, at_p) = found p (Memᴰ.head refl) forward in
            let (g, ends) =
              preds_guard-total get_pred bb (bvor e (branch_guard s get_value cfg bb p guard)) ps
                later in
            (g, rw (preds_guard, forward, at_p) ends)
      ]

  -- Blocks are ranked so that every edge which is no back edge leads upwards.
  module _ (rank : ℕ → ℕ)
      (upwards : (p bb : ℕ)
        → Memᴰ p (cfg.preds bb)
        → is_backedge backedges p bb ≡ false
        → (bb == cfg.entry) ≡ false
        → rank p < rank bb) where
    get-total :
        (fuel bb : ℕ)
        → rank bb < fuel
        → (g : Expr) × (get s get_value cfg backedges none fuel bb ≡ some g)
    unfolding get
    get-total (suc fuel) bb enough = elim (Bool-cases (bb == cfg.entry)) [
      | inl same ↦ (s.bvtrue, rw (get, same))
      | inr other ↦
          let (g, ends) =
            preds_guard-total (get s get_value cfg backedges none fuel) bb s.bvfalse (cfg.preds bb)
              (λ p i forward.
                let below = upwards p bb i forward other in get-total fuel p (omega arith)) in
          (g, rw (get, other) ends)
    ]
    get-total zero bb enough = absurd (omega arith)

    -- Without a dominator tree, and with more fuel than the rank of the block, the guard of a block
    -- is found, and holds exactly if the block lies on a run that the values fit, along edges that
    -- are not back edges. Every edge which is no back edge leads to a higher rank, and every
    -- predecessor's terminator has the block on one side only: no conditional branch has both
    -- successors equal, the cases of a switch are distinct, and none has the target of the default.
    pub get-reaches :
        (m : s.Model) (v : ℕ → ℕ)
        → ((x : ℕ) → s.value m (get_value x) ≡ v x)
        → ((p bb : ℕ) → Memᴰ p (cfg.preds bb) → OneSided (cfg.terminator p) bb)
        → (fuel bb : ℕ) → rank bb < fuel
        → (g : Expr) × (get s get_value cfg backedges none fuel bb ≡ some g)
          × ((s.holds m g ≡ true) ↔ Run v cfg backedges bb)
    get-reaches m v values sides fuel bb enough =
        let (g, ends) = get-total fuel bb enough in
        (g, ends, get-exact s get_value m v values cfg backedges sides fuel bb g ends)
