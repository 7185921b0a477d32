-- ===== src/CallGraph/Grows.antt =====
-- src/CallGraph.cc: how the sets of functions change. Every step of the pass is a `Grows`.
use kint_test.Base.{
  ℕ, ◌<◌, ◌≡◌, refl, ◌∙◌, inl, inr, Bool, true, false, ◌||◌, ◌==◌, some, arith, Bool-cases, ==_iff,
  not_before, contains,
}
use kint_test.CallGraph.Find.{FuncSet}
use kint_test.CallGraph.Init.{Ptrs, put_ptrs}
use kint_test.CallGraph.Pass.{Update}

-- The functions of the sets are below m.
abbrev pub Bounded : ℕ → Ptrs → Type 0
Bounded m ptrs = (id f : ℕ) → contains (ptrs id) f ≡ true → f < m

-- The identifiers are below n.
pub record Grows (n m : ℕ) (ptrs ptrs' : Ptrs) (changed : Bool) : Type 0 where
  pub bounded : Bounded m ptrs'
  pub keeps : (id f : ℕ) → contains (ptrs id) f ≡ true → contains (ptrs' id) f ≡ true
  pub changes :
      changed ≡ true
      → (id : ℕ) × (f : ℕ) × (id < n)
        × (f < m)
        × (contains (ptrs id) f ≡ false)
        × (contains (ptrs' id) f ≡ true)
  pub quiet : changed ≡ false → ptrs' ≡ ptrs

module _ (n m : ℕ) where
  pub same-Grows : (ptrs : Ptrs) → Bounded m ptrs → Grows n m ptrs ptrs false
  same-Grows ptrs ok = record {
    bounded = ok;
    keeps = λ id f h. h;
    changes = λ h. absurd (cc);
    quiet = λ _. refl;
  }

  pub then-Grows :
      (p q : Bool) (a b c : Ptrs) → Grows n m a b p → Grows n m b c q → Grows n m a c (p || q)
  then-Grows p q a b c x y = record {
    bounded = y.bounded;
    keeps = λ id f h. y.keeps id f (x.keeps id f h);
    changes = λ h. elim (Bool-cases p) [
      | inl early ↦
          let (id, f, below, bound, fresh, there) = x.changes early in
          (id, f, below, bound, fresh, y.keeps id f there)
      | inr still ↦
          let (id, f, below, bound, fresh, there) = y.changes (ground arith) in
          (id, f, below, bound, not_before _ _ (x.keeps id f) fresh, there)
    ];
    quiet = λ h. y.quiet (ground arith) ∙ x.quiet (ground arith);
  }

  pub put_ptrs-Grows :
      (ptrs : Ptrs) (id : ℕ) (s : FuncSet) (changed : Bool)
      → id < n
      → Bounded m ptrs
      → ((f : ℕ) → contains s f ≡ true → f < m)
      → ((f : ℕ) → contains (ptrs id) f ≡ true → contains s f ≡ true)
      → (changed ≡ true → (f : ℕ) × (contains (ptrs id) f ≡ false) × (contains s f ≡ true))
      → (changed ≡ false → s ≡ ptrs id)
      → Grows n m ptrs (put_ptrs ptrs id s) changed
  put_ptrs-Grows ptrs id s changed below ok fits keeps new same = record {
    bounded = λ i f h. elim (Bool-cases (i == id)) [
      | inl here ↦ fits f (rw here at h)
      | inr other ↦ ok i f (rw other at h)
    ];
    keeps = λ i f h. elim (Bool-cases (i == id)) [
      | inl here ↦ rw here (keeps f (rw ((==_iff i id).0 here) at h))
      | inr other ↦ rw other h
    ];
    changes = λ h.
        let (f, fresh, there) = new h in
        let itself : (id == id) ≡ true = ground arith in
        (id, f, below, fits f there, fresh, rw itself there);
    quiet = λ h.
        let at : (i : ℕ) → put_ptrs ptrs id s i ≡ ptrs i = λ i. elim (Bool-cases (i == id)) [
          | inl here ↦ rw (here, (==_iff i id).0 here) (same h)
          | inr other ↦ rw other refl
        ] in
        λ j i. at i j;
  }

  -- The result of an update, which it has.
  abbrev pub Updates : Ptrs → Update → Type 0
  Updates ptrs u =
      (after : Ptrs) × (changed : Bool) × (u ≡ some (after, changed)) × Grows n m ptrs after changed
