-- ===== src/CallGraph/Exact.antt =====
-- src/CallGraph.cc: findFunctions returns, and finds exactly the functions that a value leads to.
use kint_test.Base.{
  ℕ, zero, suc, ◌<◌, ◌≡◌, refl, sym, ◌∙◌, ◌⊎◌, inl, inr, Bool, true, false, ◌||◌, ◌&&◌, not, ◌==◌,
  Option, some, List, [], ◌∷◌, arith, Bool-cases, ==_iff, contains,
}
use kint_test.Base.Slots.{slots, slots-lt}
use kint_test.CallGraph.Find.{
  FuncSet, Node, function, cast, phi, select, by_id, ignored, unhandled, insert, merge_func_set,
  resolve, Found, and_then, find_all, find_node, find_functions_from,
}
use kint_test.CallGraph.Sets.{
  Extends, nothing-Extends, then-Extends, insert-Extends, merge_func_set-Extends, same-Extends,
}

abbrev pub AllBelow : ℕ → List ℕ → Type 0
AllBelow n [] = Unit
AllBelow n (v ∷ vs) = (v < n) × AllBelow n vs

-- Every value that findFunctions goes on to is below n, and none ends in the fatal error.
abbrev pub NodeBelow : ℕ → Node → Type 0
NodeBelow n (cast w) = w < n
NodeBelow n (phi vs) = AllBelow n vs
NodeBelow n (select t f) = (t < n) × (f < n)
NodeBelow n unhandled = false ≡ true
NodeBelow n other = Unit

module _ (node : ℕ → Node) (funcs : ℕ → Option ℕ) (ptrs : ℕ → FuncSet) where
  -- The steps from a value to others, and the functions that a value stands for itself.
  abbrev pub leads : Node → ℕ → Bool
  leads (cast u) w = w == u
  leads (phi vs) w = contains vs w
  leads (select t f) w = w == t || w == f
  leads n w = false

  abbrev pub gives : ℕ → Node → ℕ → Bool
  gives v (function is_empty name) f = f == resolve node funcs v is_empty name
  gives v (by_id id) f = contains (ptrs id) f
  gives v n f = false

  -- Whether the values after v lead from it to the function f, outside the visited ones and without
  -- a repetition.
  abbrev pub path : FuncSet → ℕ → List ℕ → ℕ → Bool
  path visited v [] f = not (contains visited v) && gives v (node v) f
  path visited v (w ∷ rest) f =
      not (contains visited v) && (leads (node v) w && path (v ∷ visited) w rest f)

  abbrev pub Finds : FuncSet → ℕ → ℕ → Type 0
  Finds visited v f = (rest : List ℕ) × (path visited v rest f ≡ true)

  -- Finds from some value of a list.
  abbrev FindsAny : FuncSet → List ℕ → ℕ → Type 0
  FindsAny visited vs f = (w : ℕ) × (contains vs w ≡ true) × Finds visited w f

  -- A result with what P holds of.
  abbrev pub Yields : (ℕ → Type 0) → FuncSet → Found node funcs ptrs → Type 0
  Yields P s found = (r : FuncSet × Bool) × (found ≡ some r) × Extends P s r

  and_then-Yields :
      (P Q R : ℕ → Type 0) (s : FuncSet) (found : Found node funcs ptrs)
      (next : FuncSet → Found node funcs ptrs)
      → ((f : ℕ) → R f → P f ⊎ Q f)
      → ((f : ℕ) → P f → R f)
      → ((f : ℕ) → Q f → R f)
      → Yields P s found
      → ((a : FuncSet) → Yields Q a (next a))
      → Yields R s (and_then node funcs ptrs next found)
  and_then-Yields P Q R s found next splits left right ((a, p), is_found, x) later =
      let ((b, q), is_next, y) = later a in
      (
        (b, p || q),
        rw (is_found, and_then, is_next) refl,
        then-Extends P Q R s a b p q splits left right x y,
      )

  module _ (n : ℕ) (visited : FuncSet) (find : FuncSet → ℕ → Found node funcs ptrs)
      (finds : (s : FuncSet) (w : ℕ) → w < n → Yields (Finds visited w) s (find s w)) where
    find_all-Yields :
        (vs : List ℕ) (s : FuncSet)
        → AllBelow n vs
        → Yields (FindsAny visited vs) s (find_all node funcs ptrs find s vs)
    unfolding find_all
    find_all-Yields [] s below =
        ((s, false), refl, nothing-Extends (FindsAny visited []) s (λ f (w, among, h). absurd (cc)))
    find_all-Yields (v ∷ vs) s (here, below) =
        and_then-Yields (Finds visited v) (FindsAny visited vs) (FindsAny visited (v ∷ vs)) s
          (find s v) (λ after. find_all node funcs ptrs find after vs)
          (λ f (w, among, h). elim (Bool-cases (v == w)) [
            | inl same ↦ inl (rw (sym ((==_iff v w).0 same)) at h)
            | inr other ↦ inr (w, ground arith, h)
          ])
          (λ f h. (v, ground arith, h)) (λ f (w, among, h). (w, ground arith, h)) (finds s v here)
          (λ a. find_all-Yields vs a below)

  -- A value stands for a function itself, or leads to a value that it is found from.
  Finds-cases :
      (visited : FuncSet) (v f : ℕ)
      → Finds visited v f
      → (gives v (node v) f ≡ true)
        ⊎ ((w : ℕ) × (leads (node v) w ≡ true) × Finds (v ∷ visited) w f)
  Finds-cases visited v f ([], h) = inl (ground arith)
  Finds-cases visited v f (w ∷ rest, h) = inr (w, ground arith, (rest, ground arith))

  not_visited : (visited : FuncSet) (v f : ℕ) → Finds visited v f → contains visited v ≡ false
  not_visited visited v f ([], h) = ground arith
  not_visited visited v f (w ∷ rest, h) = ground arith

  module _ (n : ℕ) (visited : FuncSet) (v : ℕ) (fresh : contains visited v ≡ false)
      (find : FuncSet → ℕ → Found node funcs ptrs)
      (finds : (s : FuncSet) (w : ℕ) → w < n → Yields (Finds (v ∷ visited) w) s (find s w)) where
    abbrev Here : ℕ → Type 0
    Here f = Finds visited v f

    given_found : (f : ℕ) → gives v (node v) f ≡ true → Here f
    given_found f given = ([], ground arith)

    step_to : (w f : ℕ) → leads (node v) w ≡ true → Finds (v ∷ visited) w f → Here f
    step_to w f led (rest, h) = (w ∷ rest, ground arith)

    -- A value that leads nowhere.
    leaf-Yields :
        (P : ℕ → Bool) (s : FuncSet) (r : FuncSet × Bool)
        → ((f : ℕ) → gives v (node v) f ≡ P f)
        → ((w : ℕ) → leads (node v) w ≡ false)
        → Extends (λ f. P f ≡ true) s r
        → Extends Here s r
    leaf-Yields P s r same nowhere x =
        same-Extends (λ f. P f ≡ true) Here s r (λ f h. given_found f (same f ∙ h))
          (λ f found. elim (Finds-cases visited v f found) [
            | inl given ↦ sym (same f) ∙ given
            | inr (w, led, rest) ↦ let never = nowhere w in absurd (cc)
          ])
          x

    -- A value that stands for no function itself.
    inner-Yields :
        (P : ℕ → Type 0) (s : FuncSet) (r : FuncSet × Bool)
        → ((f : ℕ) → gives v (node v) f ≡ false)
        → ((f : ℕ) → P f → (w : ℕ) × (leads (node v) w ≡ true) × Finds (v ∷ visited) w f)
        → ((f w : ℕ) → leads (node v) w ≡ true → Finds (v ∷ visited) w f → P f)
        → Extends P s r
        → Extends Here s r
    inner-Yields P s r nothing forth back x =
        same-Extends P Here s r (λ f h. let (w, led, found) = forth f h in step_to w f led found)
          (λ f found. elim (Finds-cases visited v f found) [
            | inl given ↦ let never = nothing f in absurd (cc)
            | inr (w, led, rest) ↦ back f w led rest
          ])
          x

    find_node-Yields :
        (nd : Node) (s : FuncSet)
        → node v ≡ nd
        → NodeBelow n nd
        → Yields Here s (find_node node funcs ptrs find s v nd)
    unfolding find_node
    find_node-Yields (function is_empty name) s is below =
        let g = resolve node funcs v is_empty name in
        (
          insert s g,
          refl,
          leaf-Yields (λ f. f == g) s (insert s g) (λ f. rw is refl) (λ w. rw is refl)
              (insert-Extends s g),
        )
    find_node-Yields (by_id id) s is below = (
      merge_func_set s (ptrs id),
      refl,
      leaf-Yields (contains (ptrs id)) s (merge_func_set s (ptrs id)) (λ f. rw is refl)
          (λ w. rw is refl) (merge_func_set-Extends s (ptrs id)),
    )
    find_node-Yields ignored s is below = (
      (s, false),
      refl,
      leaf-Yields (λ f. false) s (s, false) (λ f. rw is refl) (λ w. rw is refl)
          (nothing-Extends (λ f. false ≡ true) s (λ f h. absurd (cc))),
    )
    find_node-Yields unhandled s is below = absurd (cc)
    find_node-Yields (cast u) s is below =
        let (r, found, x) = finds s u below in
        (
          r,
          found,
          inner-Yields (Finds (v ∷ visited) u) s r (λ f. rw is refl)
              (λ f h. (u, rw is (ground arith), h))
              (λ f w led h.
                let same : (w == u) ≡ true = rw is at led in rw ((==_iff w u).0 same) at h)
              x,
        )
    find_node-Yields (phi vs) s is below =
        let (r, found, x) = find_all-Yields n (v ∷ visited) find finds vs s below in
        (
          r,
          found,
          inner-Yields (FindsAny (v ∷ visited) vs) s r (λ f. rw is refl)
              (λ f (w, among, h). (w, rw is among, h)) (λ f w led h. (w, rw is at led, h)) x,
        )
    find_node-Yields (select t u) s is (t_below, u_below) =
        let Either : ℕ → Type 0 = λ f. Finds (v ∷ visited) t f ⊎ Finds (v ∷ visited) u f in
        let (r, found, x) =
          and_then-Yields (Finds (v ∷ visited) t) (Finds (v ∷ visited) u) Either s (find s t)
            (λ after. find after u) (λ f h. h) (λ f h. inl h) (λ f h. inr h) (finds s t t_below)
            (λ a. finds a u u_below) in
        (
          r,
          found,
          inner-Yields Either s r (λ f. rw is refl)
              (λ f h. elim h [
                | inl on_true ↦ (t, rw is (ground arith), on_true)
                | inr on_false ↦ (u, rw is (ground arith), on_false)
              ])
              (λ f w led h.
                let one_of : (w == t || w == u) ≡ true = rw is at led in
                elim (Bool-cases (w == t)) [
                  | inl same ↦ inl (rw ((==_iff w t).0 same) at h)
                  | inr other ↦
                      let same : (w == u) ≡ true = ground arith in
                      inr (rw ((==_iff w u).0 same) at h)
                ])
              x,
        )

  module _ (n : ℕ) (below : (v : ℕ) → v < n → NodeBelow n (node v)) where
    pub find_from-Yields :
        (fuel : ℕ) (visited s : FuncSet) (v : ℕ)
        → v < n
        → slots n (contains visited) < fuel
        → Yields (Finds visited v) s (find_functions_from node funcs ptrs fuel visited s v)
    unfolding find_functions_from
    find_from-Yields zero visited s v bound enough = absurd (omega arith)
    find_from-Yields (suc fuel) visited s v bound enough = elim (Bool-cases (contains visited v)) [
      | inl there ↦
          rw (find_functions_from, there)
            (
              (s, false),
              refl,
              nothing-Extends (Finds visited v) s
                  (λ f found. let never = not_visited visited v f found in absurd (cc)),
            )
      | inr fresh ↦
          let fewer =
            slots-lt n (contains visited) (contains (v ∷ visited)) v (λ k h. ground arith) bound
              fresh (ground arith) in
          rw (find_functions_from, fresh)
            (find_node-Yields n visited v fresh
              (find_functions_from node funcs ptrs fuel (v ∷ visited))
              (λ t w w_bound. find_from-Yields fuel (v ∷ visited) t w w_bound (omega arith))
              (node v) s refl (below v bound))
    ]
