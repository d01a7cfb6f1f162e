-- ===== src/Core/Plan/Order.antt =====
-- About the loop of `ordered_steps`: its rounds, the steps that it places and their order.
use rcm_windows.Prelude.{
  length, select, is_empty, All, subset, out_of_fuel, ok, err, ℕ, zero, suc, ◌+◌, ◌≤◌, ◌<◌, String,
  ◌≡◌, refl, ap, subst, ◌≢◌, ◌⊎◌, inl, inr, true, false, List, [], ◌∷◌, ◌++◌, arith,
}
use rcm_windows.Core.Plan.{
  remove, is_ready, place, settle, rounds, started, ordered_steps, PlanStep, Progress,
}
use rcm_windows.Core.Plan.Count.{
  step_eq_iff, count, count-append, count-remove, count-select-le, length-remove-le,
  length-remove-lt,
}

-- Every step of `ready` is still pending, as often.
abbrev pub Within : List PlanStep → List PlanStep → Type 0
Within ready pending = (s : PlanStep) → count s ready ≤ count s pending

Within-remove :
    (s : PlanStep) (ready pending : List PlanStep)
    → Within (s ∷ ready) pending
    → Within ready (remove s pending)
Within-remove s ready pending w t = ground (arith, w t, count-remove s t pending, step_eq_iff s t)

count_self : (s : PlanStep) (ready : List PlanStep) → 0 < count s (s ∷ ready)
count_self s ready = ground (arith, step_eq_iff s s)

-- `settle` moves the steps from `pending` to `ordered`.
pub count-settle :
    (t : PlanStep) (ready : List PlanStep) (p : Progress)
    → Within ready p.pending
    → count t (settle ready p).ordered + count t (settle ready p).pending
      ≡ count t p.ordered + count t p.pending
unfolding settle
count-settle t [] p w = refl
count-settle t (s ∷ ready) p w = ground (
  arith,
  count-settle t ready (place s p) (Within-remove s ready p.pending w),
  count-append t p.ordered (s ∷ []),
  count-remove s t p.pending,
  w t,
)

length-settle-le :
    (ready : List PlanStep) (p : Progress) → length (settle ready p).pending ≤ length p.pending
unfolding settle
length-settle-le [] p = omega arith
length-settle-le (s ∷ ready) p =
    omega (arith, length-settle-le ready (place s p), length-remove-le s p.pending)

length-settle-lt :
    (ready : List PlanStep) (p : Progress)
    → Within ready p.pending
    → is_empty ready ≡ false
    → length (settle ready p).pending < length p.pending
unfolding settle
length-settle-lt [] p w h = cc
length-settle-lt (s ∷ ready) p w h = omega (
  arith,
  length-settle-le ready (place s p),
  length-remove-lt s p.pending (omega (arith, w s, count_self s ready)),
)

pub Within-select :
    (completed : List String) (pending : List PlanStep)
    → Within (select (is_ready completed) pending) pending
Within-select completed pending s = count-select-le (is_ready completed) s pending

not-is_empty : (xs : List PlanStep) → is_empty xs ≡ false → 0 < length xs
not-is_empty [] h = cc
not-is_empty (x ∷ xs) h = omega arith

rounds-ne-out_of_fuel :
    (fuel : ℕ) (p : Progress) → length p.pending ≤ fuel → rounds fuel p ≢ err out_of_fuel
unfolding rounds
rounds-ne-out_of_fuel zero p h = ground (arith, not-is_empty p.pending)
rounds-ne-out_of_fuel (suc fuel) p h = ground (
  arith,
  rounds-ne-out_of_fuel fuel (settle (select (is_ready p.completed) p.pending) p),
  length-settle-lt (select (is_ready p.completed) p.pending) p
      (Within-select p.completed p.pending),
)

-- The loop of `ordered_steps` ends within its bound: it returns an order or finds no ready step.
pub ordered_steps_ends : (steps : List PlanStep) → ordered_steps steps ≢ err out_of_fuel
unfolding ordered_steps
ordered_steps_ends steps = rounds-ne-out_of_fuel (length steps) (started steps) (omega arith)

pub empty_count : (xs : List PlanStep) (t : PlanStep) → is_empty xs ≡ true → count t xs ≡ 0
empty_count [] t h = refl
empty_count (x ∷ xs) t h = cc

rounds-ok :
    (fuel : ℕ) (p : Progress) (out : List PlanStep)
    → rounds (suc fuel) p ≡ ok out
    → ((is_empty p.pending ≡ true) × (out ≡ p.ordered))
      ⊎ (rounds fuel (settle (select (is_ready p.completed) p.pending) p) ≡ ok out)
unfolding rounds
rounds-ok fuel p out e = ground arith

rounds-count :
    (fuel : ℕ) (p : Progress) (t : PlanStep) (out : List PlanStep)
    → rounds fuel p ≡ ok out
    → count t out ≡ count t p.ordered + count t p.pending
unfolding rounds
rounds-count zero p t out e = ground (arith, empty_count p.pending t)
rounds-count (suc fuel) p t out e = elim (rounds-ok fuel p out e) [
  | inl (h, q) ↦ rw (q, empty_count p.pending t h) (omega arith)
  | inr q ↦ omega (
    arith,
    rounds-count fuel (settle (select (is_ready p.completed) p.pending) p) t out q,
    count-settle t (select (is_ready p.completed) p.pending) p
        (Within-select p.completed p.pending),
  )
]

-- The order has every step of the plan, as often as the plan has it, and no other.
pub ordered_steps-count :
    (steps : List PlanStep) (t : PlanStep) (out : List PlanStep)
    → ordered_steps steps ≡ ok out
    → count t out ≡ count t steps
unfolding ordered_steps
ordered_steps-count steps t out e =
    omega (arith, rounds-count (length steps) (started steps) t out e)

-- Each step depends only on `seen` and on steps before it.
abbrev pub Topological : List String → List PlanStep → Type 0
Topological seen [] = Unit
Topological seen (s ∷ ss) = (subset s.depends_on seen ≡ true) × Topological (s.step_id ∷ seen) ss

abbrev after : List String → List PlanStep → List String
after seen [] = seen
after seen (s ∷ ss) = after (s.step_id ∷ seen) ss

Topological-snoc :
    (seen : List String) (xs : List PlanStep) (s : PlanStep)
    → Topological seen xs
    → subset s.depends_on (after seen xs) ≡ true
    → Topological seen (xs ++ s ∷ [])
Topological-snoc seen [] s h d = (d, tt)
Topological-snoc seen (x ∷ xs) s h d = (h.0, Topological-snoc (x.step_id ∷ seen) xs s h.1 d)

after-snoc :
    (seen : List String) (xs : List PlanStep) (s : PlanStep)
    → after seen (xs ++ s ∷ []) ≡ s.step_id ∷ after seen xs
after-snoc seen [] s = refl
after-snoc seen (x ∷ xs) s = after-snoc (x.step_id ∷ seen) xs s

subset-cons : (k : String) (xs ys : List String) → subset xs ys ≡ true → subset xs (k ∷ ys) ≡ true
subset-cons k [] ys h = refl
subset-cons k (x ∷ xs) ys h = ground (arith, subset-cons k xs ys)

record Sound (p : Progress) : Type 0 where
  placed : p.completed ≡ after [] p.ordered
  behind : Topological [] p.ordered

abbrev Ready : List String → List PlanStep → Type 0
Ready completed = All (λ (s : PlanStep). subset s.depends_on completed ≡ true)

Ready-cons :
    (k : String) (completed : List String) (ready : List PlanStep)
    → Ready completed ready
    → Ready (k ∷ completed) ready
Ready-cons k completed [] h = tt
Ready-cons k completed (s ∷ ss) h =
    (subset-cons k s.depends_on completed h.0, Ready-cons k completed ss h.1)

Ready-select :
    (completed : List String) (pending : List PlanStep)
    → Ready completed (select (is_ready completed) pending)
Ready-select completed [] = tt
Ready-select completed (s ∷ ss) = ground (arith, Ready-select completed ss)

settle-Sound :
    (ready : List PlanStep) (p : Progress)
    → Ready p.completed ready
    → Sound p
    → Sound (settle ready p)
unfolding settle
settle-Sound [] p r h = h
settle-Sound (s ∷ ready) p r h =
    settle-Sound ready (place s p) (Ready-cons s.step_id p.completed ready r.1) (record {
      placed = rw after-snoc (ap (λ c. s.step_id ∷ c) h.placed);
      behind =
          Topological-snoc [] p.ordered s h.behind
            (subst (λ c. subset s.depends_on c ≡ true) h.placed r.0);
    })

rounds-Topological :
    (fuel : ℕ) (p : Progress) (out : List PlanStep)
    → Sound p
    → rounds fuel p ≡ ok out
    → Topological [] out
unfolding rounds
rounds-Topological zero p out h e =
    let q : p.ordered ≡ out = ground arith in subst (Topological []) q h.behind
rounds-Topological (suc fuel) p out h e = elim (rounds-ok fuel p out e) [
  | inl (_, q) ↦ rw q h.behind
  | inr q ↦
      let ready = select (is_ready p.completed) p.pending in
      rounds-Topological fuel (settle ready p) out
        (settle-Sound ready p (Ready-select p.completed p.pending) h) q
]

-- In the order each step stands behind all of the steps that it depends on.
pub ordered_steps-Topological :
    (steps out : List PlanStep) → ordered_steps steps ≡ ok out → Topological [] out
unfolding ordered_steps
ordered_steps-Topological steps out e =
    rounds-Topological (length steps) (started steps) out (record { placed = refl; behind = tt }) e
