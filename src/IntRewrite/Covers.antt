-- ===== src/IntRewrite/Covers.antt =====
-- src/IntRewrite.cc: the deferred checks reach every point where a result can be observed.
use kint_test.Base.{
  ℕ, zero, suc, ◌+◌, ◌<◌, ◌≤◌, ◌≡◌, refl, ◌⊎◌, inl, inr, Bool, true, false, ◌||◌, ◌&&◌, not, ◌==◌,
  if◌then◌else◌, some, List, [], ◌∷◌, arith, Bool-cases, ==_iff, contains,
}
use mathlib.Core.List.{Memᴰ}
use mathlib.Core.List.Memᴰ
use kint_test.Base.Slots.{slots, slots_bound, slots-lt}
use kint_test.IntRewrite.Overflow.{
  User, is_observable, Placement, at_operation, at_ends, Scan, fall_back, found, add_point,
  scan_uses, place_checks, checked, insert_overflow_check,
}

abbrev count : List ℕ → ℕ
count [] = 0
count (x ∷ xs) = suc (count xs)

contains-add_point :
    (points : List ℕ) (b : ℕ)
    → (contains (add_point points b) b ≡ true)
      × ((x : ℕ) → contains points x ≡ true → contains (add_point points b) x ≡ true)
contains-add_point points b = elim (Bool-cases (contains points b)) [
  | inl there ↦ rw there (there, λ x h. h)
  | inr fresh ↦ rw fresh (ground arith, λ x h. ground arith)
]

module _ (uses : ℕ → List User) (dominates : ℕ → ℕ → Bool) (bb n : ℕ) where
  abbrev pub UsersBelow : List User → Type 0
  UsersBelow [] = Unit
  UsersBelow (u ∷ us) = (u.number < n) × UsersBelow us

  -- An observable user has a check in its block, which the operation dominates; another has no use,
  -- or its own users are looked at.
  abbrev observed : (points : List ℕ) → User → Bool
  observed points u = contains points u.block && not (u.block == bb) && dominates bb u.block

  abbrev handled : (visited points : List ℕ) → User → Bool
  handled visited points u =
      if is_observable u.kind then observed points u else u.use_empty || contains visited u.number

  abbrev AllHandled : (visited points : List ℕ) → List User → Type 0
  AllHandled visited points us = (u : User) → Memᴰ u us → handled visited points u ≡ true

  record Scanned (us : List User) (visited worklist points visited' worklist' points' : List ℕ)
      : Type 0 where
    keeps_visited : (x : ℕ) → contains visited x ≡ true → contains visited' x ≡ true
    keeps_points : (x : ℕ) → contains points x ≡ true → contains points' x ≡ true
    keeps_worklist : (x : ℕ) → contains worklist x ≡ true → contains worklist' x ≡ true
    new_listed :
        (x : ℕ)
        → contains visited' x ≡ true
        → (contains visited x ≡ true) ⊎ (contains worklist' x ≡ true)
    measure :
        slots n (contains visited') + count worklist' ≤ slots n (contains visited) + count worklist
    all_handled : AllHandled visited' points' us

  abbrev ScanGood : List User → (visited worklist points : List ℕ) → Scan → Type 0
  ScanGood us visited worklist points fall_back = Unit
  ScanGood us visited worklist points (found visited' worklist' points') =
      Scanned us visited worklist points visited' worklist' points'

  handled_later :
      (visited points visited' points' : List ℕ) (u : User)
      → ((x : ℕ) → contains visited x ≡ true → contains visited' x ≡ true)
      → ((x : ℕ) → contains points x ≡ true → contains points' x ≡ true)
      → handled visited points u ≡ true
      → handled visited' points' u ≡ true
  handled_later visited points visited' points' u more_visited more_points h =
      elim (Bool-cases (is_observable u.kind)) [
        | inl seen ↦
            let before : observed points u ≡ true = rw seen at h in
            let now = more_points u.block (ground arith) in rw seen (ground arith)
        | inr unseen ↦
            let before : (u.use_empty || contains visited u.number) ≡ true = rw unseen at h in
            rw unseen (elim (Bool-cases (u.use_empty)) [
              | inl dead ↦ ground arith
              | inr live ↦ let now = more_visited u.number (ground arith) in ground arith
            ])
      ]

  -- A user is taken care of, and then the others are.
  scan_then :
      (u : User) (us : List User) (visited worklist points v₁ w₁ p₁ : List ℕ) (s : Scan)
      → ((x : ℕ) → contains visited x ≡ true → contains v₁ x ≡ true)
      → ((x : ℕ) → contains points x ≡ true → contains p₁ x ≡ true)
      → ((x : ℕ) → contains worklist x ≡ true → contains w₁ x ≡ true)
      → ((x : ℕ) → contains v₁ x ≡ true → (contains visited x ≡ true) ⊎ (contains w₁ x ≡ true))
      → slots n (contains v₁) + count w₁ ≤ slots n (contains visited) + count worklist
      → handled v₁ p₁ u ≡ true
      → ScanGood us v₁ w₁ p₁ s
      → ScanGood (u ∷ us) visited worklist points s
  scan_then u us visited worklist points v₁ w₁ p₁ fall_back kv kp kw new less done rest = tt
  scan_then u us visited worklist points v₁ w₁ p₁ (found v w p) kv kp kw new less done rest =
      record {
        keeps_visited = λ x h. rest.keeps_visited x (kv x h);
        keeps_points = λ x h. rest.keeps_points x (kp x h);
        keeps_worklist = λ x h. rest.keeps_worklist x (kw x h);
        new_listed = λ x h. elim (rest.new_listed x h) [
          | inl earlier ↦ elim (new x earlier) [
            | inl old ↦ inl old
            | inr listed ↦ inr (rest.keeps_worklist x listed)
          ]
          | inr listed ↦ inr listed
        ];
        measure = let later = rest.measure in omega arith;
        all_handled = λ t i. elim (Memᴰ.cases_cons i) [
          | inl first ↦
              rw first (handled_later v₁ p₁ v p u rest.keeps_visited rest.keeps_points done)
          | inr later ↦ rest.all_handled t later
        ];
      }

  scan_uses_all :
      (us : List User) (visited worklist points : List ℕ)
      → UsersBelow us
      → ScanGood us visited worklist points (scan_uses uses dominates bb us visited worklist points)
  unfolding scan_uses
  scan_uses_all [] visited worklist points below = record {
    keeps_visited = λ x h. h;
    keeps_points = λ x h. h;
    keeps_worklist = λ x h. h;
    new_listed = λ x h. inl h;
    measure = omega arith;
    all_handled = λ t i. absurd (Memᴰ.not-nil i);
  }
  scan_uses_all (u ∷ us) visited worklist points (here, below) =
      elim (Bool-cases (is_observable u.kind)) [
        | inl seen ↦ elim (Bool-cases (u.block == bb || not (dominates bb u.block))) [
          | inl back ↦ rw (scan_uses, seen, back) tt
          | inr ahead ↦
              let (added, kept) = contains-add_point points u.block in
              rw (scan_uses, seen, ahead)
                (scan_then u us visited worklist points visited worklist (add_point points u.block)
                  _ (λ x h. h) kept (λ x h. h) (λ x h. inl h) (omega arith) (rw seen (ground arith))
                  (scan_uses_all us visited worklist (add_point points u.block) below))
        ]
        | inr unseen ↦ elim (Bool-cases (u.use_empty || contains visited u.number)) [
          | inl known ↦
              rw (scan_uses, unseen, known)
                (scan_then u us visited worklist points visited worklist points _ (λ x h. h)
                  (λ x h. h) (λ x h. h) (λ x h. inl h) (omega arith) (rw unseen known)
                  (scan_uses_all us visited worklist points below))
          | inr fresh ↦
              let more : (x : ℕ)
                  → contains visited x ≡ true
                  → contains (u.number ∷ visited) x ≡ true =
                λ x h. ground arith in
              let fewer =
                slots-lt n (contains visited) (contains (u.number ∷ visited)) u.number more here
                  (ground arith) (ground arith) in
              rw (scan_uses, unseen, fresh)
                (scan_then u us visited worklist points (u.number ∷ visited) (u.number ∷ worklist)
                  points _ more (λ x h. h) (λ x h. ground arith)
                  (λ x h. elim (Bool-cases (u.number == x)) [
                    | inl this ↦ inr (ground arith)
                    | inr other ↦ inl (ground arith)
                  ])
                  (omega arith) (rw unseen (ground arith))
                  (scan_uses_all us (u.number ∷ visited) (u.number ∷ worklist) points below))
        ]
      ]

  -- What was visited is still to be looked at, or is done.
  abbrev Progress : (visited worklist points : List ℕ) → Type 0
  Progress visited worklist points =
      (v : ℕ)
      → contains visited v ≡ true
      → (contains worklist v ≡ true) ⊎ AllHandled visited points (uses v)

  abbrev Done : (first : ℕ) → Placement → Type 0
  Done first at_operation = Unit
  Done first (at_ends points) =
      (visited : List ℕ) × (contains visited first ≡ true)
      × ((v : ℕ) → contains visited v ≡ true → AllHandled visited points (uses v))

  scan_cases :
      (s : Scan)
      → (s ≡ fall_back) ⊎ ((v : List ℕ) × (w : List ℕ) × (p : List ℕ) × (s ≡ found v w p))
  scan_cases fall_back = inl refl
  scan_cases (found v w p) = inr (v, w, p, refl)

  keep_going :
      (e : ℕ) (visited worklist points v w p : List ℕ)
      → Scanned (uses e) visited worklist points v w p
      → Progress visited (e ∷ worklist) points
      → Progress v w p
  keep_going e visited worklist points v w p good progress x h = elim (good.new_listed x h) [
    | inr listed ↦ inl listed
    | inl old ↦ elim (Bool-cases (e == x)) [
      | inl this ↦ inr (rw ((==_iff e x).0 this) at good.all_handled)
      | inr other ↦ elim (progress x old) [
        | inl listed ↦ inl (good.keeps_worklist x (ground arith))
        | inr done ↦ inr (λ u i.
            handled_later visited points v p u good.keeps_visited good.keeps_points (done u i))
      ]
    ]
  ]

  module _ (below : (v : ℕ) → UsersBelow (uses v)) (first : ℕ) where
    place_checks_all :
        (fuel : ℕ) (visited worklist points : List ℕ)
        → slots n (contains visited) + count worklist < fuel
        → contains visited first ≡ true
        → Progress visited worklist points
        → (placement : Placement) × (place_checks uses dominates bb fuel visited worklist points
            ≡ some placement)
          × Done first placement
    unfolding place_checks
    place_checks_all zero visited worklist points enough start progress = absurd (omega arith)
    place_checks_all (suc fuel) visited [] points enough start progress = (
      at_ends points,
      refl,
      (visited, start, λ v h. elim (progress v h) [ inl listed ↦ absurd (cc) | inr done ↦ done ]),
    )
    place_checks_all (suc fuel) visited (e ∷ worklist) points enough start progress =
        let scanned = scan_uses_all (uses e) visited worklist points (below e) in
        elim (scan_cases (scan_uses uses dominates bb (uses e) visited worklist points)) [
          | inl back ↦ (at_operation, rw (place_checks, back) refl, tt)
          | inr (v, w, p, further) ↦
              let good : Scanned (uses e) visited (worklist) points v w p = rw further at scanned in
              rw (place_checks, further)
                (place_checks_all fuel v w p (let less = good.measure in omega arith)
                  (good.keeps_visited first start)
                  (keep_going e visited worklist points v w p good progress))
        ]

  -- The operation's result flows to a user, through users that are not observable and have uses.
  abbrev pub FlowsTo : ℕ → List User → User → Type 0
  FlowsTo v [] u = Memᴰ u (uses v)
  FlowsTo v (w ∷ rest) u =
      Memᴰ w (uses v)
      × (is_observable w.kind ≡ false)
      × (w.use_empty ≡ false)
      × FlowsTo w.number rest u

  flows_observed :
      (visited points : List ℕ)
      → ((v : ℕ) → contains visited v ≡ true → AllHandled visited points (uses v))
      → (v : ℕ) (rest : List User) (u : User) → contains visited v ≡ true
      → FlowsTo v rest u
      → is_observable u.kind ≡ true
      → observed points u ≡ true
  flows_observed visited points done v [] u seen i observable =
      let h = done v seen u i in rw observable at h
  flows_observed visited points done v (w ∷ rest) u seen (i, unseen, live, flows) observable =
      let h = done v seen w i in
      let h' : (w.use_empty || contains visited w.number) ≡ true = rw unseen at h in
      flows_observed visited points done w.number rest u (ground arith) flows observable

  -- insertOverflowCheck returns a placement, if all users are below n, and the fuel is above n + 1,
  -- for an operation whose check is deferred: the checks are before the operation, or every
  -- observable user that its result flows to, through users that are not observable and have uses,
  -- is in a block with a check at its end, which is another block than that of the operation and
  -- dominated by it.
  pub insert_overflow_check-covers :
      (has_nsw wrap_opt : Bool) (fuel number : ℕ)
      → ((v : ℕ) → UsersBelow (uses v))
      → (has_nsw && not wrap_opt) ≡ false
      → n + 1 < fuel
      → (placement : Placement) × (insert_overflow_check uses dominates bb false has_nsw wrap_opt
            fuel number
          ≡ some (checked has_nsw has_nsw placement))
        × ((points : List ℕ) (rest : List User) (u : User)
            → placement ≡ at_ends points
            → FlowsTo number rest u
            → is_observable u.kind ≡ true
            → (contains points u.block ≡ true)
              × ((u.block == bb) ≡ false)
              × (dominates bb u.block ≡ true))
  unfolding insert_overflow_check
  insert_overflow_check-covers has_nsw wrap_opt fuel number below deferred enough =
      let most = slots_bound n (contains (number ∷ [])) in
      let (placement, placed, done) =
        place_checks_all below number fuel (number ∷ []) (number ∷ []) [] (omega arith)
          (ground arith) (λ v h. inl h) in
      (
        placement,
        rw (insert_overflow_check, deferred, placed) refl,
        λ points rest u is flows observable.
            let (visited, start, handled_all) = rw is at done in
            let h =
              flows_observed visited points handled_all number rest u start flows observable in
            (ground arith, ground arith, ground arith),
      )
