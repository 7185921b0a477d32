-- ===== src/PathGen/Dominators.antt =====
-- src/PathGen.cc: with a dominator tree the guards hold wherever a run leads.
use kint_test.Base.{
  ℕ, zero, suc, ◌≡◌, refl, sym, ◌⊎◌, inl, inr, true, ◌==◌, Option, some, List, [], ◌∷◌, arith,
  Bool-cases, Option-cases,
}
use mathlib.Core.Option.{some_inj, none-ne-some}
use mathlib.Core.List.{Memᴰ}
use mathlib.Core.List.Memᴰ
use kint_test.Solver.{Solver}
use kint_test.PathGen.Guards.{
  Cfg, any_backedge, common_dominator, find_common_dominator, branch_guard, preds_guard, get,
}
use kint_test.PathGen.Runs.{OneSided, edge, Run, Run-cases}
use kint_test.PathGen.Terminators.{holds-branch_guard}

module _ (s : Solver) (get_value : ℕ → s.Expr) (m : s.Model) (v : ℕ → ℕ)
    (values : (x : ℕ) → s.value m (get_value x) ≡ v x) (cfg : Cfg) (backedges : List (ℕ × ℕ))
    (sides : (p bb : ℕ) → Memᴰ p (cfg.preds bb) → OneSided (cfg.terminator p) bb)
    (nearest : ℕ → ℕ → ℕ) where
  open s use {Expr, holds, bvor, holds-bvtrue, holds-bvor}

  -- A run to a block passes its nearest common dominators with other blocks.
  module _ (dominates_left : (a b : ℕ) → Run v cfg backedges a → Run v cfg backedges (nearest a b))
      (dominates_right : (a b : ℕ)
        → Run v cfg backedges b
        → Run v cfg backedges (nearest a b)) where
    common_dominator-Run :
        (dom : ℕ) (ps : List ℕ)
        → Run v cfg backedges dom ⊎ ((p : ℕ) × Memᴰ p ps × Run v cfg backedges p)
        → Run v cfg backedges (common_dominator nearest dom ps)
    unfolding common_dominator
    common_dominator-Run dom [] (inl run) = run
    common_dominator-Run dom [] (inr (p, i, run)) = absurd (Memᴰ.not-nil i)
    common_dominator-Run dom (q ∷ ps) (inl run) =
        common_dominator-Run (nearest dom q) ps (inl (dominates_left dom q run))
    common_dominator-Run dom (q ∷ ps) (inr (p, i, run)) = elim (Memᴰ.cases_cons i) [
      | inl first ↦
          let run_q : Run v cfg backedges q = rw first at run in
          common_dominator-Run (nearest dom q) ps (inl (dominates_right dom q run_q))
      | inr further ↦ common_dominator-Run (nearest dom q) ps (inr (p, further, run))
    ]

    find_common_dominator-Run :
        (ps : List ℕ) (dom p : ℕ)
        → find_common_dominator nearest ps ≡ some dom
        → Memᴰ p ps
        → Run v cfg backedges p
        → Run v cfg backedges dom
    unfolding find_common_dominator
    find_common_dominator-Run [] dom p h i run = absurd (Memᴰ.not-nil i)
    find_common_dominator-Run (q ∷ ps) dom p h i run = rw (sym (some_inj.0 h)) (
        common_dominator-Run q ps (elim (Memᴰ.cases_cons i) [
          | inl first ↦ inl (rw first at run)
          | inr further ↦ inr (p, further, run)
        ]))

    module _ (get_pred : ℕ → Option Expr)
        (sound : (p : ℕ) (g : Expr)
          → get_pred p ≡ some g
          → Run v cfg backedges p
          → holds m g ≡ true)
        (bb : ℕ) where
      abbrev over : Expr → List ℕ → Option Expr
      over = preds_guard s get_value cfg backedges (some nearest) get_pred bb

      abbrev with_edge : Expr → ℕ → Expr → Expr
      with_edge e p guard = bvor e (branch_guard s get_value cfg bb p guard)

      over-cons :
          (e g : Expr) (p : ℕ) (ps : List ℕ)
          → over e (p ∷ ps) ≡ some g
          → (guard : Expr) × (get_pred p ≡ some guard) × (over (with_edge e p guard) ps ≡ some g)
      unfolding preds_guard
      over-cons e g p ps h = elim (Option-cases (get_pred p)) [
        | inl missing ↦ absurd (none-ne-some g (rw (missing, preds_guard) at h))
        | inr (guard, found) ↦ (guard, found, rw (found, preds_guard) at h)
      ]

      over_keeps :
          (e g : Expr) (ps : List ℕ) → over e ps ≡ some g → holds m e ≡ true → holds m g ≡ true
      unfolding preds_guard
      over_keeps e g [] h holds_e = rw (sym (some_inj.0 h)) holds_e
      over_keeps e g (p ∷ ps) h holds_e =
          let (guard, found, h') = over-cons e g p ps h in
          let split = holds-bvor m e (branch_guard s get_value cfg bb p guard) in
          over_keeps (with_edge e p guard) g ps h' (ground arith)

      open_branch :
          (p : ℕ) (guard : Expr)
          → OneSided (cfg.terminator p) bb
          → edge v cfg backedges p bb ≡ true
          → holds m (branch_guard s get_value cfg bb p guard) ≡ holds m guard
      unfolding edge
      open_branch p guard side opens =
          let branch = holds-branch_guard s get_value m v values cfg bb p guard side in ground arith

      over_complete :
          (e g : Expr) (p : ℕ) (ps : List ℕ)
          → ((q : ℕ) → Memᴰ q ps → OneSided (cfg.terminator q) bb)
          → over e ps ≡ some g
          → Memᴰ p ps
          → edge v cfg backedges p bb ≡ true
          → Run v cfg backedges p
          → holds m g ≡ true
      over_complete e g p [] one_sided h i opens run = absurd (Memᴰ.not-nil i)
      over_complete e g p (q ∷ ps) one_sided h i opens run =
          let (guard, found, h') = over-cons e g q ps h in
          elim (Memᴰ.cases_cons i) [
            | inl first ↦
                let opens_q : edge v cfg backedges q bb ≡ true = rw first at opens in
                let run_q : Run v cfg backedges q = rw first at run in
                let branch = open_branch q guard (one_sided q (Memᴰ.head refl)) opens_q in
                let holds_q = sound q guard found run_q in
                let split = holds-bvor m e (branch_guard s get_value cfg bb q guard) in
                over_keeps (with_edge e q guard) g ps h' (ground arith)
            | inr further ↦
                over_complete (with_edge e q guard) g p ps (λ r j. one_sided r (Memᴰ.tail j)) h'
                  further opens run
          ]

    pub get-covers :
        (fuel bb : ℕ) (g : Expr)
        → get s get_value cfg backedges (some nearest) fuel bb ≡ some g
        → Run v cfg backedges bb
        → holds m g ≡ true
    unfolding get
    get-covers zero bb g h run = absurd (none-ne-some g h)
    get-covers (suc fuel) bb g h run = elim (Run-cases v cfg backedges run) [
      | inl at_entry ↦
          let same : (bb == cfg.entry) ≡ true = ground arith in
          let always : some s.bvtrue ≡ some g = rw (same, get) at h in
          rw (sym (some_inj.0 always)) (holds-bvtrue m)
      | inr (p, i, opens, run_p) ↦ elim (Bool-cases (bb == cfg.entry)) [
        | inl same ↦
            let always : some s.bvtrue ≡ some g = rw (same, get) at h in
            rw (sym (some_inj.0 always)) (holds-bvtrue m)
        | inr other ↦ elim (Bool-cases (any_backedge backedges (cfg.preds bb) bb)) [
          | inl looping ↦ elim (Option-cases (find_common_dominator nearest (cfg.preds bb))) [
            | inl missing ↦ absurd (none-ne-some g (rw (other, looping, missing, get) at h))
            | inr (dom, found) ↦
                get-covers fuel dom g (rw (other, looping, found, get) at h)
                  (find_common_dominator-Run (cfg.preds bb) dom p found i run_p)
          ]
          | inr plain ↦
              over_complete (get s get_value cfg backedges (some nearest) fuel) (get-covers fuel) bb
                s.bvfalse g p (cfg.preds bb) (λ q. sides q bb) (rw (other, plain, get) at h) i opens
                run_p
        ]
      ]
    ]
