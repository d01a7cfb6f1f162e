-- ===== src/Runtime/Calls.antt =====
-- What the loops of the coordinator do to its state, and what a shutdown leaves.
use rcm_windows.Prelude.{
  if◌then◌else◌, ℕ, String, ◌<>◌, ◌≡◌, refl, ◌∙◌, ◌≢◌, Option, none, some, List, [], ◌∷◌, ◌++◌,
  reverse, arith,
}
use rcm_windows.Runtime.Defs.{
  read_clock, launched, run_units, RuntimeState, RuntimeUnit, Host, Runtime, joined, not_joined,
  invalid_result, join_raised, completed,
}
use rcm_windows.Runtime.Ops.{
  or_first, join_outcome, keep_unresolved, conclude, stop_one, stop_all, join_one, join_all,
  shutdown,
}
use mathlib.Core.List.{append-nil, append_assoc}

-- The parts that calls of components leave alone.
pub record Same (r t : Runtime) : Type 0 where
  pub units : t.units ≡ r.units
  pub state : t.state ≡ r.state
  pub active : t.active ≡ r.active
  pub failure_code : t.failure_code ≡ r.failure_code
  pub shutdown_timeout : t.shutdown_timeout ≡ r.shutdown_timeout
  pub cancelled : t.cancelled ≡ r.cancelled

-- What `_shutdown` leaves: the unresolved units with a failure, and none without.
pub record ShutDown (final : RuntimeState) (r : Runtime) (first : Option String) (t : Runtime)
    : Type 0 where
  pub same_units : t.units ≡ r.units
  pub all_joined : first ≡ none → t.active ≡ []
  pub final_state : first ≡ none → t.state ≡ final
  pub state_kept : first ≢ none → t.state ≡ r.state

keep_none : (us : List RuntimeUnit) → keep_unresolved [] us ≡ []
keep_none [] = refl
keep_none (u ∷ us) = keep_none us

conclude-ShutDown :
    (final : RuntimeState) (r : Runtime) (first : Option String) (unresolved : List RuntimeUnit)
    (t : Runtime)
    → t.units ≡ r.units
    → t.state ≡ r.state
    → (first ≡ none → unresolved ≡ [])
    → let out = conclude final (first, unresolved, t) in ShutDown final r out.0 out.1
conclude-ShutDown final r first unresolved t u s none_left = ground (arith, keep_none t.active)

pub trace-conclude :
    (final : RuntimeState) (first : Option String) (unresolved : List RuntimeUnit) (t : Runtime)
    → (conclude final (first, unresolved, t)).1.trace ≡ t.trace
trace-conclude final first unresolved t = ground arith

module _ (h : Host) where
  pub Same-stop_all :
      (deadline : ℕ) (us : List RuntimeUnit) (first : Option String) (r : Runtime)
      → Same r (stop_all h deadline us first r).1
  unfolding stop_all
  Same-stop_all deadline [] first r = ground arith
  Same-stop_all deadline (u ∷ us) first r =
      let (fails, r1) = stop_one h deadline u r in
      let e =
        Same-stop_all deadline us
          (if fails then or_first first (u.name <> ":stop:error") else first) r1 in
      record {
        units = e.units;
        state = e.state;
        active = e.active;
        failure_code = e.failure_code;
        shutdown_timeout = e.shutdown_timeout;
        cancelled = e.cancelled;
      }

  pub Same-join_all :
      (deadline : ℕ) (us : List RuntimeUnit) (first : Option String) (unresolved : List RuntimeUnit)
      (r : Runtime)
      → Same r (join_all h deadline us first unresolved r).2
  unfolding join_all
  Same-join_all deadline [] first unresolved r = ground arith
  Same-join_all deadline (u ∷ us) first unresolved r =
      let (reply, r1) = join_one h deadline u r in
      let (first', was_joined) = join_outcome u reply first in
      let e =
        Same-join_all deadline us first' (if was_joined then unresolved else unresolved ++ u ∷ [])
          r1 in
      record {
        units = e.units;
        state = e.state;
        active = e.active;
        failure_code = e.failure_code;
        shutdown_timeout = e.shutdown_timeout;
        cancelled = e.cancelled;
      }

  -- A recorded failure stays recorded.
  join_all-some :
      (deadline : ℕ) (us : List RuntimeUnit) (c : String) (unresolved : List RuntimeUnit)
      (r : Runtime)
      → (join_all h deadline us (some c) unresolved r).0 ≢ none
  unfolding join_all
  join_all-some deadline [] c unresolved r = ground arith
  join_all-some deadline (u ∷ us) c unresolved r =
      let (reply, r1) = join_one h deadline u r in
      elim reply
        as (λ x.
          (let (f, j) = join_outcome u x (some c) in
            (join_all h deadline us f (if j then unresolved else unresolved ++ u ∷ []) r1).0)
          ≢ none) [
            | joined ↦ join_all-some deadline us c unresolved r1
            | not_joined ↦ join_all-some deadline us c (unresolved ++ u ∷ []) r1
            | invalid_result ↦ join_all-some deadline us c (unresolved ++ u ∷ []) r1
            | join_raised ↦ join_all-some deadline us c (unresolved ++ u ∷ []) r1
          ]

  -- Without a failure nothing is left unresolved.
  pub join_all-none :
      (deadline : ℕ) (us : List RuntimeUnit) (first : Option String) (unresolved : List RuntimeUnit)
      (r : Runtime)
      → (join_all h deadline us first unresolved r).0 ≡ none
      → (join_all h deadline us first unresolved r).1 ≡ unresolved
  unfolding join_all
  join_all-none deadline [] first unresolved r e = refl
  join_all-none deadline (u ∷ us) (some c) unresolved r e =
      absurd (join_all-some deadline (u ∷ us) c unresolved r e)
  join_all-none deadline (u ∷ us) none unresolved r e =
      let (reply, r1) = join_one h deadline u r in
      let later = unresolved ++ u ∷ [] in
      (elim reply
          as (λ x.
            let (f, j) = join_outcome u x none in
            let out = join_all h deadline us f (if j then unresolved else later) r1 in
            out.0 ≡ none → out.1 ≡ unresolved) [
              | joined ↦ join_all-none deadline us none unresolved r1
              | not_joined ↦
                  λ q. absurd (join_all-some deadline us (u.name <> ":join:timeout") later r1 q)
              | invalid_result ↦ λ q.
                  absurd (join_all-some deadline us (u.name <> ":join:invalid_result") later r1 q)
              | join_raised ↦
                  λ q. absurd (join_all-some deadline us (u.name <> ":join:error") later r1 q)
            ])
        e

  pub run_units_all :
      (us : List RuntimeUnit) (r : Runtime)
      → ((run_units h us r).1.units ≡ r.units)
        × ((run_units h us r).0 ≡ completed → (run_units h us r).1.active ≡ r.active ++ us)
  unfolding run_units
  run_units_all [] r = (refl, λ _. rw append-nil)
  run_units_all (u ∷ us) r =
      let ih = run_units_all us (launched h u r) in
      (ground (arith, ih.0), ground (arith, ih.1, append_assoc r.active (u ∷ []) us))

  pub shutdown-ShutDown :
      (timeout : ℕ) (final : RuntimeState) (r : Runtime)
      → ShutDown final r (shutdown h timeout final r).0 (shutdown h timeout final r).1
  unfolding shutdown
  shutdown-ShutDown timeout final r =
      let (now, r1) = read_clock h r in
      let deadline = h.add_time now timeout in
      let us = reverse r.active in
      let (first, r2) = stop_all h deadline us none r1 in
      let (first', unresolved, r3) = join_all h deadline us first [] r2 in
      let stops = Same-stop_all deadline us none r1 in
      let joins = Same-join_all deadline us first [] r2 in
      conclude-ShutDown final r first' unresolved r3 (joins.units ∙ stops.units)
        (joins.state ∙ stops.state) (join_all-none deadline us first [] r2)
