-- ===== src/PathGen/Tests.antt =====
-- src/PathGen.cc: a loop around a diamond, and the guard of its join.
use kint_test.Base.{
  Bool-cases, ==_iff, inl, inr, ℕ, zero, suc, ◌<◌, if◌then◌else◌, ◌≡◌, ◌↔◌, refl, inl, inr, true,
  false, ◌==◌, none, some, List, [], ◌∷◌, arith,
}
use mathlib.Core.Option.{map, some_inj}
use mathlib.Core.List.{Memᴰ}
use mathlib.Core.List.Memᴰ
use kint_test.Solver.{formulas, Formula, denotes}
use kint_test.PathGen.Guards.{
  Terminator, Incoming, Phi, Cfg, is_backedge, any_backedge, common_dominator,
  find_common_dominator, get,
}
use kint_test.PathGen.Runs.{OneSided, Run, start, step, edge}
use kint_test.PathGen.Covers.{get-covers_runs}
use kint_test.PathGen.Total.{get-reaches}

abbrev values : ℕ → ℕ
values x = if x == 5 then 1 else if x == 8 then 80 else 70

abbrev preds : ℕ → List ℕ
preds (suc zero) = 0 ∷ 3 ∷ []
preds (suc (suc zero)) = 0 ∷ []
preds (suc (suc (suc zero))) = 1 ∷ 2 ∷ []
preds _ = []

abbrev terminator : ℕ → Terminator
terminator zero = Terminator.conditional 5 1 2
terminator (suc (suc (suc zero))) = Terminator.switch 9 4 ((70, 1) ∷ [])
terminator _ = Terminator.unconditional 3

-- Value 6 is 7 from block 1, and 8 from block 2.
abbrev value_for : ℕ → Incoming
value_for (suc zero) = Incoming.incoming 7
value_for _ = Incoming.incoming 8

abbrev phis : ℕ → List Phi
phis (suc (suc (suc zero))) = record { self = 6; value_for = value_for } ∷ []
phis _ = []

abbrev cfg : Cfg
cfg = record { entry = 0; preds = preds; terminator = terminator; phis = phis }

abbrev backedges : List (ℕ × ℕ)
backedges = (3, 1) ∷ []

sides : (p bb : ℕ) → Memᴰ p (preds bb) → OneSided (terminator p) bb
sides p zero i = absurd (Memᴰ.not-nil i)
sides p (suc zero) i = elim (Memᴰ.cases_cons i) [
  | inl e ↦ rw e (inl refl, omega arith)
  | inr j ↦ rw (Memᴰ.eq_of_singleton j) (((tt, tt), inl (omega arith)))
]
sides p (suc (suc zero)) i = rw (Memᴰ.eq_of_singleton i) (inr refl, omega arith)
sides p (suc (suc (suc zero))) i = elim (Memᴰ.cases_cons i) [
  | inl e ↦ rw e refl
  | inr j ↦ rw (Memᴰ.eq_of_singleton j) refl
]
sides p (suc (suc (suc (suc bb)))) i = absurd (Memᴰ.not-nil i)

upwards :
    (p bb : ℕ) → Memᴰ p (preds bb) → is_backedge backedges p bb ≡ false → (bb == 0) ≡ false → p < bb
unfolding is_backedge
upwards p zero i forward inner = absurd (Memᴰ.not-nil i)
upwards p (suc zero) i forward inner = elim (Memᴰ.cases_cons i) [
  | inl e ↦ omega arith
  | inr j ↦
      let e = Memᴰ.eq_of_singleton j in
      let back : is_backedge backedges 3 1 ≡ false = rw e at forward in absurd (cc)
]
upwards p (suc (suc zero)) i forward inner = let e = Memᴰ.eq_of_singleton i in omega arith
upwards p (suc (suc (suc zero))) i forward inner = elim (Memᴰ.cases_cons i) [
  | inl e ↦ omega arith
  | inr j ↦ let e = Memᴰ.eq_of_singleton j in omega arith
]
upwards p (suc (suc (suc (suc bb)))) i forward inner = absurd (Memᴰ.not-nil i)

-- The guard of block 3 at these values.
guard_test : map (denotes values) (get formulas Formula.variable cfg backedges none 4 3) ≡ some 1
unfolding get
guard_test = refl

get-reaches_example :
    (g : Formula) × (get formulas Formula.variable cfg backedges none 4 3 ≡ some g)
    × (((denotes values g == 1) ≡ true) ↔ Run values cfg backedges 3)
get-reaches_example =
    get-reaches formulas Formula.variable cfg backedges (λ x. x) upwards values values (λ x. refl)
      sides 4 3 (omega arith)

-- The nearest common dominator of different blocks is the entry.
abbrev nearest : ℕ → ℕ → ℕ
nearest a b = if a == b then a else 0

nearest-Run : (a b : ℕ) → Run values cfg backedges a → Run values cfg backedges (nearest a b)
nearest-Run a b run = elim (Bool-cases (a == b)) [
  | inl same ↦ rw same run
  | inr apart ↦ rw apart start
]

nearest_right-Run : (a b : ℕ) → Run values cfg backedges b → Run values cfg backedges (nearest a b)
nearest_right-Run a b run = elim (Bool-cases (a == b)) [
  | inl same ↦ rw (same, (==_iff a b).0 same) run
  | inr apart ↦ rw apart start
]

entered : (bb : ℕ) → any_backedge backedges (preds bb) bb ≡ true → bb ≡ 1
unfolding any_backedge is_backedge
entered zero h = absurd (cc)
entered (suc zero) h = refl
entered (suc (suc zero)) h = absurd (cc)
entered (suc (suc (suc zero))) h = absurd (cc)
entered (suc (suc (suc (suc bb)))) h = absurd (cc)

into_join : Run values cfg backedges 3
unfolding edge is_backedge
into_join = step (Memᴰ.head refl) refl (step (Memᴰ.head refl) refl start)

below_block :
    (p bb : ℕ)
    → Memᴰ p (preds bb)
    → any_backedge backedges (preds bb) bb ≡ false
    → (bb == 0) ≡ false
    → p < bb
unfolding any_backedge is_backedge
below_block p zero i plain inner = absurd (Memᴰ.not-nil i)
below_block p (suc zero) i plain inner = absurd (cc)
below_block p (suc (suc zero)) i plain inner = upwards p 2 i (ground arith) inner
below_block p (suc (suc (suc zero))) i plain inner = upwards p 3 i (ground arith) inner
below_block p (suc (suc (suc (suc bb)))) i plain inner = absurd (Memᴰ.not-nil i)

dominator_below :
    (dom bb : ℕ)
    → find_common_dominator nearest (preds bb) ≡ some dom
    → any_backedge backedges (preds bb) bb ≡ true
    → (bb == 0) ≡ false
    → dom < bb
unfolding find_common_dominator common_dominator
dominator_below dom bb h looping inner =
    let at_1 = entered bb looping in
    let first : some 0 ≡ some dom = rw at_1 at h in
    let dom_0 : 0 ≡ dom = some_inj.0 first in omega arith

get-covers_runs_example :
    (g : Formula) × (get formulas Formula.variable cfg backedges (some nearest) 4 3 ≡ some g)
    × ((denotes values g == 1) ≡ true)
get-covers_runs_example =
    get-covers_runs formulas Formula.variable cfg backedges nearest (λ x. x) below_block
      dominator_below values values (λ x. refl) sides nearest-Run nearest_right-Run 4 3
      (omega arith) into_join
