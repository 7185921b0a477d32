-- ===== src/CallGraph/Sets.antt =====
-- src/CallGraph.cc: what the operations on sets of functions add.
use kint_test.Base.{
  ℕ, ◌≡◌, refl, ◌∙◌, ◌⊎◌, inl, inr, Bool, true, false, ◌||◌, ◌==◌, [], ◌∷◌, arith, Bool-cases,
  ==_iff, not_before, contains,
}
use kint_test.CallGraph.Find.{FuncSet, insert, merge_func_set}

-- A set r with a flag is s with what P holds of.
pub record Extends (P : ℕ → Type 0) (s : FuncSet) (r : FuncSet × Bool) : Type 0 where
  pub keeps : (f : ℕ) → contains s f ≡ true → contains r.0 f ≡ true
  pub adds : (f : ℕ) → P f → contains r.0 f ≡ true
  pub only : (f : ℕ) → contains r.0 f ≡ true → (contains s f ≡ true) ⊎ P f
  pub changes : r.1 ≡ true → (f : ℕ) × (contains s f ≡ false) × (contains r.0 f ≡ true)
  pub quiet : r.1 ≡ false → r.0 ≡ s

pub nothing-Extends :
    (P : ℕ → Type 0) (s : FuncSet) → ((f : ℕ) → P f → contains s f ≡ true) → Extends P s (s, false)
nothing-Extends P s none_new = record {
  keeps = λ f h. h;
  adds = none_new;
  only = λ f h. inl h;
  changes = λ h. absurd (cc);
  quiet = λ _. refl;
}

pub then-Extends :
    (P Q R : ℕ → Type 0) (s a b : FuncSet) (p q : Bool)
    → ((f : ℕ) → R f → P f ⊎ Q f)
    → ((f : ℕ) → P f → R f)
    → ((f : ℕ) → Q f → R f)
    → Extends P s (a, p)
    → Extends Q a (b, q)
    → Extends R s (b, p || q)
then-Extends P Q R s a b p q splits left right x y = record {
  keeps = λ f h. y.keeps f (x.keeps f h);
  adds = λ f h. elim (splits f h) [
    | inl first ↦ y.keeps f (x.adds f first)
    | inr second ↦ y.adds f second
  ];
  only = λ f h. elim (y.only f h) [
    | inl before ↦ elim (x.only f before) [ inl old ↦ inl old | inr first ↦ inr (left f first) ]
    | inr second ↦ inr (right f second)
  ];
  changes = λ h. elim (Bool-cases p) [
    | inl early ↦ let (f, fresh, there) = x.changes early in (f, fresh, y.keeps f there)
    | inr still ↦
        let (f, fresh, there) = y.changes (ground arith) in
        (f, not_before _ _ (x.keeps f) fresh, there)
  ];
  quiet = λ h. y.quiet (ground arith) ∙ x.quiet (ground arith);
}

pub insert-Extends : (s : FuncSet) (g : ℕ) → Extends (λ f. (f == g) ≡ true) s (insert s g)
unfolding insert
insert-Extends s g = elim (Bool-cases (contains s g)) [
  | inl there ↦
      rw (insert, there)
        (nothing-Extends (λ f. (f == g) ≡ true) s (λ f same. rw ((==_iff f g).0 same) there))
  | inr fresh ↦
      rw (insert, fresh)
        (record {
          keeps = λ f h. ground arith;
          adds = λ f same. ground arith;
          only = λ f h. elim (Bool-cases (contains s f)) [
            | inl old ↦ inl old
            | inr not_old ↦ inr (ground arith)
          ];
          changes = λ _. (g, fresh, ground arith);
          quiet = λ h. absurd (cc);
        })
]

pub merge_func_set-Extends :
    (s src : FuncSet) → Extends (λ f. contains src f ≡ true) s (merge_func_set s src)
unfolding merge_func_set
merge_func_set-Extends s [] = nothing-Extends _ s (λ f h. absurd (cc))
merge_func_set-Extends s (g ∷ src) =
    then-Extends _ _ _ s ((insert s g).0) ((merge_func_set ((insert s g).0) src).0) ((insert s g).1)
      ((merge_func_set ((insert s g).0) src).1)
      (λ f h. elim (Bool-cases (f == g)) [ inl here ↦ inl here | inr other ↦ inr (ground arith) ])
      (λ f h. ground arith) (λ f h. ground arith) (insert-Extends s g)
      (merge_func_set-Extends ((insert s g).0) src)

pub same-Extends :
    (P Q : ℕ → Type 0) (s : FuncSet) (r : FuncSet × Bool)
    → ((f : ℕ) → P f → Q f)
    → ((f : ℕ) → Q f → P f)
    → Extends P s r
    → Extends Q s r
same-Extends P Q s r forth back x = record {
  keeps = x.keeps;
  adds = λ f h. x.adds f (back f h);
  only = λ f h. elim (x.only f h) [ inl old ↦ inl old | inr fresh ↦ inr (forth f fresh) ];
  changes = x.changes;
  quiet = x.quiet;
}
