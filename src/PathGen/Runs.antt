-- ===== src/PathGen/Runs.antt =====
-- src/PathGen.cc: what the guards are about, the runs of a function. `v` holds the value of each
-- IR value; the runs are those that `v` fits, along edges that are not back edges.
use kint_test.Base.{
  ℕ, ◌≡◌, ◌≢◌, ◌⊎◌, inl, inr, refl, Bool, true, ◌&&◌, not, ◌==◌, if◌then◌else◌, List, [], ◌∷◌,
}
use mathlib.Core.List.{Memᴰ}
use kint_test.PathGen.Guards.{Terminator, Incoming, Phi, Cfg, is_backedge}

-- The block that a switch on x goes to: the first case of this constant, or the default.
abbrev pub successor : ℕ → ℕ → List (ℕ × ℕ) → ℕ
successor x default [] = default
successor x default ((c, dest) ∷ cases) = if x == c then dest else successor x default cases

-- The cases' constants differ, as LLVM's verifier grants.
abbrev pub Fresh : ℕ → List (ℕ × ℕ) → Type 0
Fresh c [] = Unit
Fresh c ((d, dest) ∷ cases) = (c ≢ d) × Fresh c cases

abbrev pub Distinct : List (ℕ × ℕ) → Type 0
Distinct [] = Unit
Distinct ((c, dest) ∷ cases) = Fresh c cases × Distinct cases

abbrev pub Avoids : ℕ → List (ℕ × ℕ) → Type 0
Avoids bb [] = Unit
Avoids bb ((c, dest) ∷ cases) = (dest ≢ bb) × Avoids bb cases

-- The block is a successor on one side only: of a conditional branch on one of its two, of a
-- switch on the default or on cases.
abbrev pub OneSided : Terminator → ℕ → Type 0
OneSided (Terminator.unconditional dest) bb = dest ≡ bb
OneSided (Terminator.conditional c on_true on_false) bb =
    ((on_true ≡ bb) ⊎ (on_false ≡ bb)) × (on_true ≢ on_false)
OneSided (Terminator.switch c default cases) bb =
    Distinct cases × ((default ≢ bb) ⊎ Avoids bb cases)
OneSided Terminator.indirect_br bb = Unit
OneSided Terminator.invoke bb = Unit

module _ (v : ℕ → ℕ) where
  -- Whether the terminator goes to the block; of an indirect branch and an invoke nothing is known.
  abbrev pub taken : Terminator → ℕ → Bool
  taken (Terminator.unconditional dest) bb = dest == bb
  taken (Terminator.conditional c on_true on_false) bb =
      (if v c == 1 then on_true else on_false) == bb
  taken (Terminator.switch c default cases) bb = successor (v c) default cases == bb
  taken Terminator.indirect_br bb = true
  taken Terminator.invoke bb = true

  -- The phi nodes have the values of the edge from the predecessor.
  abbrev pub agrees : Phi → Incoming → Bool
  agrees phi (Incoming.incoming x) = v (phi.self) == v x
  agrees phi Incoming.undef = true
  agrees phi Incoming.not_analyzable = true

  abbrev pub phis_agree : ℕ → List Phi → Bool
  phis_agree pred [] = true
  phis_agree pred (phi ∷ phis) = agrees phi (phi.value_for pred) && phis_agree pred phis

  module _ (cfg : Cfg) (backedges : List (ℕ × ℕ)) where
    unfoldable pub edge : ℕ → ℕ → Bool
    edge p bb =
        taken (cfg.terminator p) bb
        && phis_agree p (cfg.phis bb)
        && not (is_backedge backedges p bb)

    pub data Run : ℕ → Type 0 where
      start : Run (cfg.entry)
      step : {p bb : ℕ} → Memᴰ p (cfg.preds bb) → edge p bb ≡ true → Run p → Run bb

    -- How a run reaches a block.
    pub Run-cases :
        {bb : ℕ}
        → Run bb
        → (bb ≡ cfg.entry) ⊎ ((p : ℕ) × Memᴰ p (cfg.preds bb) × (edge p bb ≡ true) × Run p)
    Run-cases start = inl refl
    Run-cases (step {p} i opens run) = inr (p, i, opens, run)
