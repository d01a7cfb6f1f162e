-- ===== src/Runtime/History.antt =====
-- The order in which the coordinator calls its components, and the time that it grants them.
use rcm_windows.Prelude.{
  if◌then◌else◌, ℕ, String, ◌<>◌, ◌≡◌, ap, ◌∙◌, Option, none, List, [], ◌∷◌, ◌++◌, map, reverse,
}
use rcm_windows.Runtime.Defs.{
  read_clock, RuntimeState, RuntimeUnit, Event, Host, Runtime, checked, clock_read, started,
  stopped_unit, joined_unit,
}
use rcm_windows.Runtime.Calls.{trace-conclude}
use rcm_windows.Runtime.Ops.{
  or_first, join_outcome, stop_one, stop_all, join_one, join_all, shutdown,
}
use mathlib.Core.List.{append-nil, append_assoc}

-- A call of a component, by the component's name.
pub data Act : Type 0 where
  start_of stop_of join_of : String → Act

abbrev act : Event → List Act
act checked = []
act clock_read = []
act (started n) = start_of n ∷ []
act (stopped_unit n _) = stop_of n ∷ []
act (joined_unit n _) = join_of n ∷ []

-- The calls in the order in which they were made. The trace has the newest event first.
abbrev pub history : List Event → List Act
history [] = []
history (e ∷ es) = history es ++ act e

abbrev pub starts_of : List RuntimeUnit → List Act
starts_of = map (λ (u : RuntimeUnit). start_of u.name)

abbrev pub stops_of : List RuntimeUnit → List Act
stops_of = map (λ (u : RuntimeUnit). stop_of u.name)

abbrev pub joins_of : List RuntimeUnit → List Act
joins_of = map (λ (u : RuntimeUnit). join_of u.name)

module _ (h : Host) where
  history-stop_all :
      (deadline : ℕ) (us : List RuntimeUnit) (first : Option String) (r : Runtime)
      → history (stop_all h deadline us first r).1.trace ≡ history r.trace ++ stops_of us
  unfolding stop_all
  history-stop_all deadline [] first r = rw append-nil
  history-stop_all deadline (u ∷ us) first r =
      let (fails, r1) = stop_one h deadline u r in
      history-stop_all deadline us
        (if fails then or_first first (u.name <> ":stop:error") else first) r1
      ∙ simp (append-nil, append_assoc)

  history-join_all :
      (deadline : ℕ) (us : List RuntimeUnit) (first : Option String) (unresolved : List RuntimeUnit)
      (r : Runtime)
      → history (join_all h deadline us first unresolved r).2.trace ≡ history r.trace ++ joins_of us
  unfolding join_all
  history-join_all deadline [] first unresolved r = rw append-nil
  history-join_all deadline (u ∷ us) first unresolved r =
      let (reply, r1) = join_one h deadline u r in
      let (first', was_joined) = join_outcome u reply first in
      history-join_all deadline us first' (if was_joined then unresolved else unresolved ++ u ∷ [])
        r1
      ∙ simp (append-nil, append_assoc)

  -- A shutdown stops every active unit in the reverse order of activation, and after the last `stop`
  -- joins every one in that order, whatever the components raise or return.
  pub history-shutdown :
      (timeout : ℕ) (final : RuntimeState) (r : Runtime)
      → history (shutdown h timeout final r).1.trace
        ≡ history r.trace ++ (stops_of (reverse r.active) ++ joins_of (reverse r.active))
  unfolding shutdown
  history-shutdown timeout final r =
      let (now, r1) = read_clock h r in
      let deadline = h.add_time now timeout in
      let us = reverse r.active in
      let (first, r2) = stop_all h deadline us none r1 in
      let (first', unresolved, r3) = join_all h deadline us first [] r2 in
      ap history (trace-conclude final first' unresolved r3)
      ∙ history-join_all deadline us first [] r2
      ∙ ap (λ l. l ++ joins_of us) (history-stop_all deadline us none r1)
      ∙ simp (append-nil, append_assoc)
