-- ===== src/Core/Plan/Acyclic.antt =====
-- About `Plan`: dependencies without a cycle, and the steps that are ready.
use rcm_windows.Prelude.{
  Bool-cases, length, select, is_empty, All, contains, subset, subset_of, contains-subset,
  value_error, out_of_fuel, ok, err, ℕ, zero, suc, ◌+◌, ◌<◌, String, ◌≡◌, refl, ◌∙◌, subst, ◌≢◌,
  ◌⊎◌, inl, inr, Bool, true, false, not, ◌&&◌, List, [], ◌∷◌, arith, str_eq, eq_iff,
}
use rcm_windows.Core.Plan.{
  step_eq, ids, is_ready, place, settle, rounds, started, ordered_steps, ready_steps, PlanStep,
  Progress, Plan,
}
use rcm_windows.Core.Plan.Count.{step_eq_iff, count, contains-ids-remove}
use rcm_windows.Core.Plan.Order.{
  Within, count-settle, Within-select, ordered_steps_ends, empty_count, ordered_steps-count,
  Topological, ordered_steps-Topological,
}

All-count :
    (P : PlanStep → Type 0) (s : PlanStep) (xs : List PlanStep) → All P xs → 0 < count s xs → P s
All-count P s [] h m = absurd (omega arith)
All-count P s (x ∷ xs) h m = elim (Bool-cases (step_eq x s)) [
  | inl e ↦ subst P ((step_eq_iff x s).0 e) h.0
  | inr e ↦ All-count P s xs h.1 (ground (arith, m, e))
]

count-select :
    (p : PlanStep → Bool) (s : PlanStep) (xs : List PlanStep)
    → p s ≡ true
    → 0 < count s xs
    → 0 < count s (select p xs)
count-select p s [] h m = m
count-select p s (x ∷ xs) h m = ground (arith, count-select p s xs, step_eq_iff x s)

-- An identifier in the list belongs to a step of it.
step_of_id :
    (d : String) (xs : List PlanStep)
    → contains d (ids xs) ≡ true
    → (u : PlanStep) × (0 < count u xs) × (u.step_id ≡ d)
step_of_id d [] h = absurd (cc)
step_of_id d (x ∷ xs) h = elim (Bool-cases (str_eq x.step_id d)) [
  | inl e ↦ (x, ground (arith, step_eq_iff x x), (eq_iff x.step_id d).0 e)
  | inr e ↦ let (u, m, q) = step_of_id d xs (ground (arith, h, e)) in (u, ground (arith, m), q)
]

-- `rank` puts every dependency below the step that has it, so the dependencies have no cycle.
abbrev pub IsRanked : (String → ℕ) → List PlanStep → Type 0
IsRanked rank =
    All (λ (s : PlanStep). (d : String) → contains d s.depends_on ≡ true → rank d < rank s.step_id)

-- Every dependency is the identifier of a step.
abbrev pub AreKnown : List PlanStep → Type 0
AreKnown steps =
    All
      (λ (s : PlanStep).
        (d : String) → contains d s.depends_on ≡ true → contains d (ids steps) ≡ true)
      steps

record Split (steps : List PlanStep) (p : Progress) : Type 0 where
  same : (t : PlanStep) → count t p.ordered + count t p.pending ≡ count t steps
  placed :
      (d : String)
      → contains d (ids steps) ≡ true
      → (contains d p.completed ≡ true) ⊎ (contains d (ids p.pending) ≡ true)

settle-placed :
    (d : String) (ready : List PlanStep) (p : Progress)
    → (contains d p.completed ≡ true) ⊎ (contains d (ids p.pending) ≡ true)
    → (contains d (settle ready p).completed ≡ true)
      ⊎ (contains d (ids (settle ready p).pending) ≡ true)
unfolding settle
settle-placed d [] p h = h
settle-placed d (s ∷ ready) p h =
    settle-placed d ready (place s p) (ground (arith, h, contains-ids-remove s d p.pending))

settle-Split :
    (steps ready : List PlanStep) (p : Progress)
    → Within ready p.pending
    → Split steps p
    → Split steps (settle ready p)
settle-Split steps ready p w h = record {
  same = λ t. count-settle t ready p w ∙ h.same t;
  placed = λ d m. settle-placed d ready p (h.placed d m);
}

first_of_list : (xs : List PlanStep) → is_empty xs ≡ false → (t : PlanStep) × (0 < count t xs)
first_of_list [] h = absurd (cc)
first_of_list (x ∷ xs) h = (x, ground (arith, step_eq_iff x x))

rounds-cases :
    (fuel : ℕ) (p : Progress)
    → ((out : List PlanStep) × (rounds fuel p ≡ ok out))
      ⊎ ((rounds fuel p ≡ err value_error) ⊎ (rounds fuel p ≡ err out_of_fuel))
unfolding rounds
rounds-cases zero p = elim (Bool-cases (is_empty p.pending)) [
  | inl e ↦ inl (p.ordered, rw e)
  | inr e ↦ inr (inr (rw e))
]
rounds-cases (suc fuel) p =
    let ready = select (is_ready p.completed) p.pending in
    elim (Bool-cases (is_empty p.pending)) [
      | inl e ↦ inl (p.ordered, rw e)
      | inr e ↦ elim (Bool-cases (is_empty ready)) [
        | inl f ↦ inr (inl (rw (e, f)))
        | inr f ↦ rw (e, f) (rounds-cases fuel (settle ready p))
      ]
    ]

module _ (rank : String → ℕ) (steps : List PlanStep) (ranked : IsRanked rank steps)
    (known : AreKnown steps) where
  -- A pending step with no pending step below it has all its dependencies done.
  ready_of_least :
      (p : Progress) (n : ℕ)
      → Split steps p
      → ((u : PlanStep) → 0 < count u p.pending → rank u.step_id < n → ⊥)
      → (t : PlanStep) → 0 < count t p.pending
      → rank t.step_id < suc n
      → is_ready p.completed t ≡ true
  ready_of_least p n h least t m r = subset_of t.depends_on p.completed done
    where
      listed : 0 < count t steps
      listed = omega (arith, h.same t)

      done : (d : String) → contains d t.depends_on ≡ true → contains d p.completed ≡ true
      done d dep = elim (h.placed d (All-count _ t steps known listed d dep)) [
        | inl c ↦ c
        | inr q ↦
            let (u, mu, e) = step_of_id d p.pending q in
            let low : rank d < rank t.step_id = All-count _ t steps ranked listed d dep in
            absurd (least u mu (rw e (omega (arith, low))))
      ]

  -- With no step ready there is no pending step of a rank below any bound.
  descent :
      (p : Progress)
      → Split steps p
      → is_empty (select (is_ready p.completed) p.pending) ≡ true
      → (n : ℕ) (t : PlanStep) → 0 < count t p.pending
      → rank t.step_id < n
      → ⊥
  descent p h idle zero t m r = absurd (omega arith)
  descent p h idle (suc n) t m r = omega (
    arith,
    empty_count (select (is_ready p.completed) p.pending) t idle,
    count-select (is_ready p.completed) t p.pending
        (ready_of_least p n h (λ u. descent p h idle n u) t m r) m,
  )

  no_stuck :
      (p : Progress)
      → Split steps p
      → is_empty p.pending ≡ false
      → is_empty (select (is_ready p.completed) p.pending) ≡ false
  no_stuck p h some_left = elim (Bool-cases (is_empty (select (is_ready p.completed) p.pending))) [
    | inr e ↦ e
    | inl e ↦
        let (t, m) = first_of_list p.pending some_left in
        absurd (descent p h e (suc (rank t.step_id)) t m (omega arith))
  ]

  rounds-ne-value_error :
      (fuel : ℕ) (p : Progress) → Split steps p → rounds fuel p ≢ err value_error
  unfolding rounds
  rounds-ne-value_error zero p h = ground arith
  rounds-ne-value_error (suc fuel) p h = ground (
    arith,
    no_stuck p h,
    rounds-ne-value_error fuel (settle (select (is_ready p.completed) p.pending) p) (
        settle-Split steps (select (is_ready p.completed) p.pending) p
          (Within-select p.completed p.pending) h),
  )

  -- The result of `ordered_steps` is an order whenever the dependencies are known and acyclic.
  pub ordered_steps_of_IsRanked : (out : List PlanStep) × (ordered_steps steps ≡ ok out)
  unfolding ordered_steps
  ordered_steps_of_IsRanked = elim (rounds-cases (length steps) (started steps)) [
    | inl (out, e) ↦ (out, e)
    | inr (inl e) ↦ absurd (
        rounds-ne-value_error (length steps) (started steps)
          (record { same = λ t. omega arith; placed = λ d m. inr m }) e)
    | inr (inr e) ↦ absurd (ordered_steps_ends steps e)
  ]

nonempty_of_count : (s : PlanStep) (xs : List PlanStep) → 0 < count s xs → is_empty xs ≡ false
nonempty_of_count s [] h = absurd (omega arith)
nonempty_of_count s (x ∷ xs) h = refl

-- Walking an order from `seen`: the first step that is not completed has its dependencies completed.
next_in_order :
    (seen completed : List String) (t : PlanStep) (out : List PlanStep)
    → Topological seen out
    → ((d : String) → contains d seen ≡ true → contains d completed ≡ true)
    → 0 < count t out
    → contains t.step_id completed ≡ false
    → (s : PlanStep) × (0 < count s out)
      × ((not (contains s.step_id completed) && is_ready completed s) ≡ true)
next_in_order seen completed t [] h sub m c = absurd (omega arith)
next_in_order seen completed t (x ∷ xs) h sub m c =
    elim (Bool-cases (contains x.step_id completed)) [
      | inr e ↦ (
        x,
        ground (arith, step_eq_iff x x),
        rw e (
            subset_of x.depends_on completed
              (λ d k. sub d (contains-subset d x.depends_on seen h.0 k))),
      )
      | inl e ↦
          let other : step_eq x t ≡ false = ground (arith, step_eq_iff x t, e, c) in
          let (s, ms, r) =
            next_in_order (x.step_id ∷ seen) completed t xs h.1
              (λ d k. ground (arith, k, e, sub d, eq_iff x.step_id d)) (ground (arith, m, other))
              c in
          (s, ground (arith, ms), r)
    ]

-- Progress: while a step of an ordered plan is not completed, `ready_steps` offers a step, whatever
-- steps of the plan have been completed.
pub ready_steps_progress :
    (plan : Plan) (completed : List String) (t : PlanStep) (out : List PlanStep)
    → ordered_steps plan.steps ≡ ok out
    → subset completed (ids plan.steps) ≡ true
    → 0 < count t plan.steps
    → contains t.step_id completed ≡ false
    → (ready : List PlanStep) × (ready_steps plan completed ≡ ok ready) × (is_empty ready ≡ false)
unfolding ready_steps
ready_steps_progress plan completed t out e sub m c =
    let (s, ms, r) =
      next_in_order [] completed t out (ordered_steps-Topological plan.steps out e) (λ d k. cc)
        (omega (arith, ordered_steps-count plan.steps t out e, m)) c in
    let offer = λ (u : PlanStep). not (contains u.step_id completed) && is_ready completed u in
    (
      select offer plan.steps,
      rw sub,
      nonempty_of_count s (select offer plan.steps) (
          count-select offer s plan.steps r
            (omega (arith, ordered_steps-count plan.steps s out e, ms))),
    )
