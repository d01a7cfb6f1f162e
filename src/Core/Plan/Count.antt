-- ===== src/Core/Plan/Count.antt =====
-- How often a step occurs in a list, and what removing and selecting do to that.
use rcm_windows.Prelude.{
  if◌then◌else◌, length, select, contains, ℕ, suc, ◌+◌, ◌-◌, ◌≤◌, ◌<◌, String, ◌≡◌, ◌↔◌, ◌⊎◌, Bool,
  true, List, [], ◌∷◌, ◌++◌, arith, str_eq, eq_iff,
}
use rcm_windows.Core.Plan.{texts_eq, bool_eq, step_eq, ids, remove, PlanStep}

texts_eq_iff : (xs ys : List String) → (texts_eq xs ys ≡ true) ↔ (xs ≡ ys)
texts_eq_iff [] [] = ground arith
texts_eq_iff [] (y ∷ ys) = ground arith
texts_eq_iff (x ∷ xs) [] = ground arith
texts_eq_iff (x ∷ xs) (y ∷ ys) = ground (arith, eq_iff x y, texts_eq_iff xs ys)

bool_eq_iff : (a b : Bool) → (bool_eq a b ≡ true) ↔ (a ≡ b)
bool_eq_iff a b = ground arith

pub step_eq_iff : (s t : PlanStep) → (step_eq s t ≡ true) ↔ (s ≡ t)
unfolding step_eq
step_eq_iff s t = ground (
  arith,
  eq_iff s.step_id t.step_id,
  eq_iff s.action t.action,
  eq_iff s.node_id t.node_id,
  texts_eq_iff s.depends_on t.depends_on,
  bool_eq_iff s.disruptive t.disruptive,
)

abbrev pub count : PlanStep → List PlanStep → ℕ
count s [] = 0
count s (x ∷ xs) = let rest = count s xs in if step_eq x s then suc rest else rest

pub count-append :
    (s : PlanStep) (xs ys : List PlanStep) → count s (xs ++ ys) ≡ count s xs + count s ys
count-append s [] ys = omega arith
count-append s (x ∷ xs) ys = ground (arith, count-append s xs ys)

pub count-remove :
    (s t : PlanStep) (xs : List PlanStep)
    → count t (remove s xs) ≡ count t xs - (if step_eq s t then 1 else 0)
unfolding remove
count-remove s t [] = ground arith
count-remove s t (x ∷ xs) =
    ground (arith, count-remove s t xs, step_eq_iff x s, step_eq_iff x t, step_eq_iff s t)

pub count-select-le :
    (p : PlanStep → Bool) (s : PlanStep) (xs : List PlanStep) → count s (select p xs) ≤ count s xs
count-select-le p s [] = omega arith
count-select-le p s (x ∷ xs) = ground (arith, count-select-le p s xs)

pub length-remove-le : (s : PlanStep) (xs : List PlanStep) → length (remove s xs) ≤ length xs
unfolding remove
length-remove-le s [] = omega arith
length-remove-le s (x ∷ xs) = ground (arith, length-remove-le s xs)

pub length-remove-lt :
    (s : PlanStep) (xs : List PlanStep) → 0 < count s xs → length (remove s xs) < length xs
unfolding remove
length-remove-lt s [] h = absurd (omega arith)
length-remove-lt s (x ∷ xs) h = ground (arith, length-remove-lt s xs)

-- The identifiers that are left after a removal, or the one removed.
pub contains-ids-remove :
    (s : PlanStep) (d : String) (xs : List PlanStep)
    → contains d (ids xs) ≡ true
    → (str_eq s.step_id d ≡ true) ⊎ (contains d (ids (remove s xs)) ≡ true)
unfolding remove
contains-ids-remove s d [] h = cc
contains-ids-remove s d (x ∷ xs) h = ground (arith, contains-ids-remove s d xs, step_eq_iff x s)
