-- ===== src/Tests/CorePlan.antt =====
-- A plan of four steps: two independent ones, one that waits for both, and one that waits for that.
use rcm_windows.Prelude.{
  if◌then◌else◌, is_empty, contains, value_error, out_of_fuel, ok, err, pos, ℕ, ◌<◌, String, ◌≡◌,
  refl, subst, ◌≢◌, ◌⊎◌, inl, inr, true, false, List, [], ◌∷◌, arith, str_eq, eq_iff,
}
use rcm_windows.Core.Text.{text, integer}
use rcm_windows.Core.Plan.{
  step_eq, ids, remove, settle, rounds, ordered_steps, make_plan, ready_steps, PlanStep, Plan,
}
use rcm_windows.Core.Plan.Count.{count}
use rcm_windows.Core.Plan.Order.{
  ordered_steps_ends, ordered_steps-count, Topological, ordered_steps-Topological,
}
use rcm_windows.Core.Plan.Acyclic.{
  IsRanked, AreKnown, ordered_steps_of_IsRanked, ready_steps_progress,
}

abbrev simple : String → List String → PlanStep
simple id deps = record {
  step_id = id;
  action = "noop";
  node_id = "";
  depends_on = deps;
  disruptive = false;
}

abbrev join_step : PlanStep
join_step = simple "join" ("stop" ∷ "push" ∷ [])

abbrev diamond : List PlanStep
diamond = simple "verify" ("join" ∷ []) ∷ join_step ∷ simple "stop" [] ∷ simple "push" [] ∷ []

abbrev diamond_order : List PlanStep
diamond_order = simple "stop" [] ∷ simple "push" [] ∷ join_step ∷ simple "verify" ("join" ∷ []) ∷ []

abbrev diamond_plan : Plan
diamond_plan = record { plan_id = "p"; epoch = 3; steps = diamond }

diamond_runs : ordered_steps diamond ≡ ok diamond_order
unfolding ordered_steps rounds settle remove step_eq
diamond_runs = refl

make_diamond : make_plan "p" (pos 3) diamond ≡ ok diamond_plan
unfolding make_plan ordered_steps rounds settle remove step_eq text integer
make_diamond = refl

cycle_refused :
    make_plan "p" (pos 3) (simple "a" ("b" ∷ []) ∷ simple "b" ("a" ∷ []) ∷ []) ≡ err value_error
unfolding make_plan ordered_steps rounds settle remove step_eq text integer
cycle_refused = refl

ordered_steps_ends_example : ordered_steps diamond ≢ err out_of_fuel
ordered_steps_ends_example = ordered_steps_ends diamond

ordered_steps-count_example : count join_step diamond_order ≡ count join_step diamond
ordered_steps-count_example = ordered_steps-count diamond join_step diamond_order diamond_runs

ordered_steps-Topological_example : Topological [] diamond_order
ordered_steps-Topological_example = ordered_steps-Topological diamond diamond_order diamond_runs

abbrev rank : String → ℕ
rank id = if str_eq id "verify" then 2 else if str_eq id "join" then 1 else 0

in_one : (d k : String) → contains d (k ∷ []) ≡ true → k ≡ d
in_one d k h = ground (arith, h, eq_iff k d)

in_two : (d j k : String) → contains d (j ∷ k ∷ []) ≡ true → (j ≡ d) ⊎ (k ≡ d)
in_two d j k h = ground (arith, h, eq_iff j d, eq_iff k d)

diamond-IsRanked : IsRanked rank diamond
diamond-IsRanked = (
  λ d h. subst (λ k. rank k < 2) (in_one d "join" h) (omega arith),
  (
    (λ d h. elim (in_two d "stop" "push" h) [
      | inl e ↦ subst (λ k. rank k < 1) e (omega arith)
      | inr e ↦ subst (λ k. rank k < 1) e (omega arith)
    ]),
    ((λ d h. absurd (cc)), ((λ d h. absurd (cc)), tt)),
  ),
)

diamond-AreKnown : AreKnown diamond
diamond-AreKnown = (
  λ d h. subst (λ k. contains k (ids diamond) ≡ true) (in_one d "join" h) refl,
  (
    (λ d h. elim (in_two d "stop" "push" h) [
      | inl e ↦ subst (λ k. contains k (ids diamond) ≡ true) e refl
      | inr e ↦ subst (λ k. contains k (ids diamond) ≡ true) e refl
    ]),
    ((λ d h. absurd (cc)), ((λ d h. absurd (cc)), tt)),
  ),
)

ordered_steps_of_IsRanked_example : (out : List PlanStep) × (ordered_steps diamond ≡ ok out)
ordered_steps_of_IsRanked_example =
    ordered_steps_of_IsRanked rank diamond diamond-IsRanked diamond-AreKnown

ready_steps_progress_example :
    (ready : List PlanStep) × (ready_steps diamond_plan ("stop" ∷ "push" ∷ []) ≡ ok ready)
    × (is_empty ready ≡ false)
unfolding step_eq
ready_steps_progress_example =
    ready_steps_progress diamond_plan ("stop" ∷ "push" ∷ []) join_step diamond_order diamond_runs
      refl (omega arith) refl
