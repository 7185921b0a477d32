-- ===== src/CallGraph/Walks.antt =====
-- src/CallGraph.cc: findFunctions follows every walk, though it visits no value twice on its way.
use kint_test.Base.{
  ℕ, zero, suc, ◌<◌, ◌≤◌, ◌≡◌, refl, ◌⊎◌, inl, inr, Bool, true, false, ◌&&◌, not, ◌==◌, Option,
  some, List, [], ◌∷◌, arith, Bool-cases, ==_iff, contains,
}
use kint_test.Base.Slots.{slots_bound}
use kint_test.CallGraph.Find.{FuncSet, Node, find_functions}
use kint_test.CallGraph.Exact.{leads, gives, path, Finds, NodeBelow, find_from-Yields}

abbrev none_of : FuncSet → List ℕ → Bool
none_of visited [] = true
none_of visited (w ∷ rest) = not (contains visited w) && none_of visited rest

abbrev steps : List ℕ → ℕ
steps [] = 0
steps (w ∷ rest) = suc (steps rest)

none_of_more :
    (visited : FuncSet) (v : ℕ) (rest : List ℕ)
    → contains rest v ≡ false
    → none_of visited rest ≡ true
    → none_of (v ∷ visited) rest ≡ true
none_of_more visited v [] apart avoids = refl
none_of_more visited v (w ∷ rest) apart avoids =
    let ih = none_of_more visited v rest (ground arith) (ground arith) in ground arith

module _ (node : ℕ → Node) (funcs : ℕ → Option ℕ) (ptrs : ℕ → FuncSet) where
  -- Whether the values after v lead from it to the function f.
  abbrev pub walk : ℕ → List ℕ → ℕ → Bool
  walk v [] f = gives node funcs ptrs v (node v) f
  walk v (w ∷ rest) f = leads node funcs ptrs (node v) w && walk w rest f

  -- The part of a walk from an occurrence of v on.
  walk_from :
      (visited : FuncSet) (v : ℕ) (rest : List ℕ) (w f : ℕ)
      → contains (w ∷ rest) v ≡ true
      → walk w rest f ≡ true
      → none_of visited (w ∷ rest) ≡ true
      → (last : List ℕ) × (walk v last f ≡ true)
        × (none_of visited (v ∷ last) ≡ true)
        × (steps last ≤ steps rest)
  walk_from visited v [] w f among walks avoids =
      let at_v = (==_iff w v).0 (ground arith) in
      ([], rw at_v at walks, rw at_v at avoids, omega arith)
  walk_from visited v (x ∷ rest) w f among walks avoids = elim (Bool-cases (w == v)) [
    | inl same ↦
        let at_v = (==_iff w v).0 same in
        (x ∷ rest, rw at_v at walks, rw at_v at avoids, omega arith)
    | inr other ↦
        let (last, from_v, apart, shorter) =
          walk_from visited v rest x f (ground arith) (ground arith) (ground arith) in
        (last, from_v, apart, omega arith)
  ]

  -- A walk without the rounds that it makes.
  walk-Finds :
      (size : ℕ) (visited : FuncSet) (v : ℕ) (rest : List ℕ) (f : ℕ)
      → steps rest < size
      → walk v rest f ≡ true
      → none_of visited (v ∷ rest) ≡ true
      → Finds node funcs ptrs visited v f
  walk-Finds zero visited v rest f short walks avoids = absurd (omega arith)
  walk-Finds (suc size) visited v [] f short walks avoids = ([], ground arith)
  walk-Finds (suc size) visited v (w ∷ rest) f short walks avoids =
      elim (Bool-cases (contains (w ∷ rest) v)) [
        | inl again ↦
            let (last, from_v, apart, shorter) =
              walk_from visited v rest w f again (ground arith) (ground arith) in
            walk-Finds size visited v last f (omega arith) from_v apart
        | inr once ↦
            let (later, found) =
              walk-Finds size (v ∷ visited) w rest f (omega arith) (ground arith)
                (none_of_more visited v (w ∷ rest) once (ground arith)) in
            (w ∷ later, ground arith)
      ]

  none_of_nothing : (rest : List ℕ) → none_of [] rest ≡ true
  none_of_nothing [] = refl
  none_of_nothing (w ∷ rest) = none_of_nothing rest

  path-walk :
      (visited : FuncSet) (v : ℕ) (rest : List ℕ) (f : ℕ)
      → path node funcs ptrs visited v rest f ≡ true
      → walk v rest f ≡ true
  path-walk visited v [] f h = ground arith
  path-walk visited v (w ∷ rest) f h =
      let ih = path-walk (v ∷ visited) w rest f (ground arith) in ground arith

  -- findFunctions returns, if every value that it may go on to is below n, none of them ends in the
  -- fatal error, and the fuel is above n: the set has all it had before, and of other functions
  -- exactly those that a walk leads to, by casts, incoming values of a phi and both values of a
  -- select, from the value to a function, or to an identifier whose set has the function; and the
  -- flag is whether the set has a new one.
  pub find_functions-exact :
      (n fuel : ℕ) (s : FuncSet) (v : ℕ)
      → ((u : ℕ) → u < n → NodeBelow n (node u))
      → v < n
      → n < fuel
      → (after : FuncSet) × (changed : Bool) × (find_functions node funcs ptrs fuel s v
          ≡ some (after, changed))
        × ((f : ℕ) → contains s f ≡ true → contains after f ≡ true)
        × ((f : ℕ) (rest : List ℕ) → walk v rest f ≡ true → contains after f ≡ true)
        × ((f : ℕ)
            → contains after f ≡ true
            → (contains s f ≡ true) ⊎ ((rest : List ℕ) × (walk v rest f ≡ true)))
        × ((changed ≡ true) → (f : ℕ) × (contains s f ≡ false) × (contains after f ≡ true))
        × ((changed ≡ false) → after ≡ s)
  unfolding find_functions
  find_functions-exact n fuel s v below bound enough =
      let most = slots_bound n (contains []) in
      let ((after, changed), found, x) =
        find_from-Yields node funcs ptrs n below fuel [] s v bound (omega arith) in
      (
        after,
        changed,
        found,
        x.keeps,
        λ f rest walks. x.adds f (
            walk-Finds (suc (steps rest)) [] v rest f (omega arith) walks
              (none_of_nothing (v ∷ rest))),
        λ f there. elim (x.only f there) [
          | inl old ↦ inl old
          | inr (rest, h) ↦ inr (rest, path-walk [] v rest f h)
        ],
        x.changes,
        x.quiet,
      )
