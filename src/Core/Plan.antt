-- ===== src/Core/Plan.antt =====
-- src/rcm/core.py: `PlanStep` and `Plan`. `ordered_steps` is the loop that peels off the steps whose
-- dependencies are done; a Python set is a list of which only membership is read.
pub mod Count
pub mod Order
pub mod Acyclic
use rcm_windows.Prelude.{
  if◌then◌else◌, length, all, select, is_empty, contains, subset, unique, ◌>>=◌, ◌>>◌, guard,
  Result, value_error, out_of_fuel, ok, err, ℤ, ℕ, zero, suc, String, Bool, true, false, not, ◌&&◌,
  List, [], ◌∷◌, ◌++◌, map, str_eq,
}
use rcm_windows.Core.Text.{max_identifier, max_int64, text, code, integer}

pub record PlanStep : Type 0 where
  pub step_id : String
  pub action : String
  pub node_id : String
  pub depends_on : List String
  pub disruptive : Bool

abbrev texts_of : List String → Result (Unit {0})
texts_of [] = ok tt
texts_of (d ∷ ds) = do text d false max_identifier; texts_of ds

unfoldable pub check_step : PlanStep → Result PlanStep
check_step s = do
  text s.step_id false max_identifier
  code s.action false
  text s.node_id true max_identifier
  texts_of s.depends_on
  guard (unique s.depends_on) value_error
  guard (not (contains s.step_id s.depends_on)) value_error
  ok s

-- The equality of the frozen dataclass, field by field.
abbrev pub texts_eq : List String → List String → Bool
texts_eq [] [] = true
texts_eq [] (y ∷ ys) = false
texts_eq (x ∷ xs) [] = false
texts_eq (x ∷ xs) (y ∷ ys) = str_eq x y && texts_eq xs ys

abbrev pub bool_eq : Bool → Bool → Bool
bool_eq true b = b
bool_eq false b = not b

unfoldable pub step_eq : PlanStep → PlanStep → Bool
step_eq s t =
    str_eq s.step_id t.step_id
    && str_eq s.action t.action
    && str_eq s.node_id t.node_id
    && texts_eq s.depends_on t.depends_on
    && bool_eq s.disruptive t.disruptive

abbrev pub ids : List PlanStep → List String
ids = map (λ s. s.step_id)

-- pending.remove(step). A step that is not there would be an error; `Plan.Count` shows that the loop
-- removes only steps that are there.
unfoldable pub remove : PlanStep → List PlanStep → List PlanStep
remove s [] = []
remove s (x ∷ xs) = if step_eq x s then xs else x ∷ remove s xs

pub record Progress : Type 0 where
  pub pending : List PlanStep
  pub completed : List String
  pub ordered : List PlanStep

abbrev pub is_ready : List String → PlanStep → Bool
is_ready completed s = subset s.depends_on completed

-- The body of the loop over the ready steps, and that loop.
abbrev pub place : PlanStep → Progress → Progress
place s p = record {
  pending = remove s p.pending;
  completed = s.step_id ∷ p.completed;
  ordered = p.ordered ++ s ∷ [];
}

unfoldable pub settle : List PlanStep → Progress → Progress
settle [] p = p
settle (s ∷ ready) p = settle ready (place s p)

-- while pending: … The first argument bounds the rounds.
unfoldable pub rounds : ℕ → Progress → Result (List PlanStep)
rounds zero p = if is_empty p.pending then ok p.ordered else err out_of_fuel
rounds (suc fuel) p =
    let ready = select (is_ready p.completed) p.pending in
    let rest = rounds fuel (settle ready p) in
    if is_empty p.pending then ok p.ordered else if is_empty ready then err value_error else rest

abbrev pub started : List PlanStep → Progress
started steps = record { pending = steps; completed = []; ordered = [] }

unfoldable pub ordered_steps : List PlanStep → Result (List PlanStep)
ordered_steps steps = rounds (length steps) (started steps)

pub record Plan : Type 0 where
  pub plan_id : String
  pub epoch : ℕ
  pub steps : List PlanStep

-- The checks of `Plan` when it is built.
unfoldable pub make_plan : String → ℤ → List PlanStep → Result Plan
make_plan plan_id epoch steps = do
  text plan_id false max_identifier
  n ← integer epoch max_int64
  guard (not (is_empty steps)) value_error
  guard (unique (ids steps)) value_error
  guard (all (λ (s : PlanStep). subset s.depends_on (ids steps)) steps) value_error
  ordered_steps steps
  ok (record { plan_id = plan_id; epoch = n; steps = steps })

unfoldable pub ready_steps : Plan → List String → Result (List PlanStep)
ready_steps plan completed = do
  guard (subset completed (ids plan.steps)) value_error
  ok (
      select (λ (s : PlanStep). not (contains s.step_id completed) && is_ready completed s)
        plan.steps)

-- One field of what `to_dict` writes.
unfoldable pub disruptive_count : Plan → ℕ
disruptive_count plan = length (select (λ (s : PlanStep). s.disruptive) plan.steps)
