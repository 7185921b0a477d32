-- ===== src/PathGen/Exact.antt =====
-- src/PathGen.cc: the guard of a block holds exactly if the block is on a run.
use kint_test.Base.{
  ℕ, zero, suc, ◌≡◌, ◌↔◌, refl, sym, ◌⊎◌, inl, inr, true, false, ◌&&◌, ◌==◌, Option, none, some,
  List, [], ◌∷◌, arith, Bool-cases, Option-cases, ==_iff,
}
use mathlib.Core.Option.{some_inj, none-ne-some}
use mathlib.Core.List.{Memᴰ}
use mathlib.Core.List.Memᴰ
use kint_test.Solver.{Solver}
use kint_test.PathGen.Guards.{Cfg, is_backedge, branch_guard, preds_guard, get}
use kint_test.PathGen.Runs.{OneSided, edge, Run, start, step, Run-cases}
use kint_test.PathGen.Terminators.{holds-branch_guard}

module _ (s : Solver) (get_value : ℕ → s.Expr) (m : s.Model) (v : ℕ → ℕ)
    (values : (x : ℕ) → s.value m (get_value x) ≡ v x) (cfg : Cfg) (backedges : List (ℕ × ℕ)) where
  open s use {Expr, holds, bvor, holds-bvtrue, holds-bvfalse, holds-bvor}

  abbrev path_guard : ℕ → ℕ → Option Expr
  path_guard = get s get_value cfg backedges none

  -- A predecessor on a run, with an edge to the block.
  abbrev Enters : (ℕ → Type 0) → ℕ → List ℕ → Type 0
  Enters Reached bb ps = (p : ℕ) × Memᴰ p ps × (edge v cfg backedges p bb ≡ true) × Reached p

  module _ (Reached : ℕ → Type 0) (get_pred : ℕ → Option Expr)
      (exact : (p : ℕ) (g : Expr) → get_pred p ≡ some g → (holds m g ≡ true) ↔ Reached p)
      (bb : ℕ) where
    abbrev over : Expr → List ℕ → Option Expr
    over = preds_guard s get_value cfg backedges none get_pred bb

    -- How one predecessor is treated.
    preds_guard-cons :
        (e g : Expr) (p : ℕ) (ps : List ℕ)
        → over e (p ∷ ps) ≡ some g
        → ((is_backedge backedges p bb ≡ true) × (over e ps ≡ some g))
          ⊎ ((guard : Expr) × (is_backedge backedges p bb ≡ false)
              × (get_pred p ≡ some guard)
              × (over (bvor e (branch_guard s get_value cfg bb p guard)) ps ≡ some g))
    unfolding preds_guard
    preds_guard-cons e g p ps h = elim (Bool-cases (is_backedge backedges p bb)) [
      | inl back ↦ inl (back, rw (back, preds_guard) at h)
      | inr forward ↦ elim (Option-cases (get_pred p)) [
        | inl missing ↦ absurd (none-ne-some g (rw (forward, missing, preds_guard) at h))
        | inr (guard, found) ↦ inr (guard, forward, found, rw (forward, found, preds_guard) at h)
      ]
    ]

    open_edge :
        (p : ℕ) (guard : Expr)
        → OneSided (cfg.terminator p) bb
        → is_backedge backedges p bb ≡ false
        → holds m (branch_guard s get_value cfg bb p guard)
          ≡ (edge v cfg backedges p bb && holds m guard)
    unfolding edge
    open_edge p guard side forward =
        let branch = holds-branch_guard s get_value m v values cfg bb p guard side in ground arith

    closed_edge : (p : ℕ) → is_backedge backedges p bb ≡ true → edge v cfg backedges p bb ≡ false
    unfolding edge
    closed_edge p back = ground arith

    preds_guard_sound :
        (e g : Expr) (ps : List ℕ)
        → ((p : ℕ) → Memᴰ p ps → OneSided (cfg.terminator p) bb)
        → over e ps ≡ some g
        → holds m g ≡ true
        → (holds m e ≡ true) ⊎ Enters Reached bb ps
    unfolding preds_guard
    preds_guard_sound e g [] sides h holds_g = inl (rw (some_inj.0 h) holds_g)
    preds_guard_sound e g (p ∷ ps) sides h holds_g = elim (preds_guard-cons e g p ps h) [
      | inl (back, h') ↦ elim (preds_guard_sound e g ps (λ q i. sides q (Memᴰ.tail i)) h' holds_g) [
        | inl holds_e ↦ inl holds_e
        | inr (q, i, opens, reached) ↦ inr (q, Memᴰ.tail i, opens, reached)
      ]
      | inr (guard, forward, found, h') ↦
          let branch = branch_guard s get_value cfg bb p guard in
          let at_p = open_edge p guard (sides p (Memᴰ.head refl)) forward in
          let split = holds-bvor m e branch in
          elim (preds_guard_sound (bvor e branch) g ps (λ q i. sides q (Memᴰ.tail i)) h' holds_g) [
            | inl either ↦ elim (Bool-cases (holds m e)) [
              | inl holds_e ↦ inl holds_e
              | inr fails ↦
                  inr (p, Memᴰ.head refl, ground arith, (exact p guard found).0 (ground arith))
            ]
            | inr (q, i, opens, reached) ↦ inr (q, Memᴰ.tail i, opens, reached)
          ]
    ]

    preds_guard_keeps :
        (e g : Expr) (ps : List ℕ) → over e ps ≡ some g → holds m e ≡ true → holds m g ≡ true
    unfolding preds_guard
    preds_guard_keeps e g [] h holds_e = rw (sym (some_inj.0 h)) holds_e
    preds_guard_keeps e g (p ∷ ps) h holds_e = elim (preds_guard-cons e g p ps h) [
      | inl (back, h') ↦ preds_guard_keeps e g ps h' holds_e
      | inr (guard, forward, found, h') ↦
          let branch = branch_guard s get_value cfg bb p guard in
          let split = holds-bvor m e branch in
          preds_guard_keeps (bvor e branch) g ps h' (ground arith)
    ]

    preds_guard_complete :
        (e g : Expr) (ps : List ℕ)
        → ((p : ℕ) → Memᴰ p ps → OneSided (cfg.terminator p) bb)
        → over e ps ≡ some g
        → Enters Reached bb ps
        → holds m g ≡ true
    unfolding preds_guard
    preds_guard_complete e g [] sides h (p, i, opens, reached) = absurd (Memᴰ.not-nil i)
    preds_guard_complete e g (p ∷ ps) sides h (q, i, opens, reached) =
        elim (preds_guard-cons e g p ps h) [
          | inl (back, h') ↦ elim (Memᴰ.cases_cons i) [
            | inl same ↦
                let closed = closed_edge p back in
                let opens_p : edge v cfg backedges p bb ≡ true = rw same at opens in absurd (cc)
            | inr later ↦
                preds_guard_complete e g ps (λ r j. sides r (Memᴰ.tail j)) h'
                  (q, later, opens, reached)
          ]
          | inr (guard, forward, found, h') ↦
              let branch = branch_guard s get_value cfg bb p guard in
              elim (Memᴰ.cases_cons i) [
                | inl same ↦
                    let at_p = open_edge p guard (sides p (Memᴰ.head refl)) forward in
                    let split = holds-bvor m e branch in
                    let opens_p : edge v cfg backedges p bb ≡ true = rw same at opens in
                    let reached_p : Reached p = rw same at reached in
                    let holds_p = (exact p guard found).1 reached_p in
                    preds_guard_keeps (bvor e branch) g ps h' (ground arith)
                | inr later ↦
                    preds_guard_complete (bvor e branch) g ps (λ r j. sides r (Memᴰ.tail j)) h'
                      (q, later, opens, reached)
              ]
        ]

  pub get-exact :
      ((p bb : ℕ) → Memᴰ p (cfg.preds bb) → OneSided (cfg.terminator p) bb)
      → (fuel bb : ℕ) (g : Expr) → path_guard fuel bb ≡ some g
      → (holds m g ≡ true) ↔ Run v cfg backedges bb
  unfolding get
  get-exact sides zero bb g h = absurd (none-ne-some g h)
  get-exact sides (suc fuel) bb g h = elim (Bool-cases (bb == cfg.entry)) [
    | inl same ↦
        let at_entry : bb ≡ cfg.entry = (==_iff bb cfg.entry).0 same in
        let always : some s.bvtrue ≡ some g = rw (same, get) at h in
        (λ _. rw at_entry start, λ _. rw (sym (some_inj.0 always)) (holds-bvtrue m))
    | inr other ↦
        let above : over (Run v cfg backedges) (path_guard fuel) (get-exact sides fuel) bb s.bvfalse
              (cfg.preds bb)
            ≡ some g =
          rw (other, get) at h in
        let falsity = holds-bvfalse m in
        (
          λ holds_g.
              elim (preds_guard_sound (Run v cfg backedges) (path_guard fuel) (get-exact sides fuel)
                bb s.bvfalse g (cfg.preds bb) (λ p. sides p bb) above holds_g) [
                  | inl never ↦ absurd (cc)
                  | inr (p, i, opens, run) ↦ step i opens run
                ],
          λ run. elim (Run-cases v cfg backedges run) [
            | inl at_entry ↦ absurd (ground arith)
            | inr enters ↦
                preds_guard_complete (Run v cfg backedges) (path_guard fuel) (get-exact sides fuel)
                  bb s.bvfalse g (cfg.preds bb) (λ p. sides p bb) above enters
          ],
        )
  ]
