-- ===== src/Runtime/Grants.antt =====
-- src/rcm/runtime.py: the time that `_shutdown` hands to its components.
use rcm_windows.Prelude.{
  if◌then◌else◌, ℕ, String, ◌<>◌, ◌≡◌, refl, sym, ap, ◌∙◌, subst, Option, none, List, [], ◌∷◌, ◌++◌,
  reverse,
}
use rcm_windows.Runtime.Defs.{
  read_clock, RuntimeState, RuntimeUnit, Event, Host, Runtime, checked, clock_read, started,
  stopped_unit, joined_unit,
}
use rcm_windows.Runtime.Calls.{trace-conclude}
use rcm_windows.Runtime.Ops.{
  or_first, join_outcome, stop_one, stop_all, join_one, join_all, shutdown,
}
use mathlib.Core.List.{append_assoc}

module _ (h : Host) (deadline : ℕ) where
  -- The time is what is left of the deadline at a reading of the clock that came just before.
  abbrev pub IsLeft : ℕ → List Event → Type 0
  IsLeft time (clock_read ∷ earlier) = time ≡ h.time_left deadline (h.monotonic earlier)
  IsLeft time _ = ⊥

  -- The events of a log after `earlier` hand what is left of the deadline to each component.
  abbrev pub Grants : List Event → List Event → Type 0
  Grants earlier [] = Unit
  Grants earlier (stopped_unit n time ∷ es) = IsLeft time (es ++ earlier) × Grants earlier es
  Grants earlier (joined_unit n time ∷ es) = IsLeft time (es ++ earlier) × Grants earlier es
  Grants earlier (e ∷ es) = Grants earlier es

  -- The log goes on from one state to the other with such events.
  pub record GrantsFrom (before after : List Event) : Type 0 where
    pub newer : List Event
    pub split : after ≡ newer ++ before
    pub grants : Grants before newer

  GrantsFrom-refl : (es : List Event) → GrantsFrom es es
  GrantsFrom-refl es = record { newer = []; split = refl; grants = tt }

  Grants-append : (a xs ys : List Event) → Grants a xs → Grants (xs ++ a) ys → Grants a (ys ++ xs)
  Grants-append a xs [] g k = g
  Grants-append a xs (stopped_unit n time ∷ ys) g k =
      (subst (IsLeft time) (sym (append_assoc ys xs a)) k.0, Grants-append a xs ys g k.1)
  Grants-append a xs (joined_unit n time ∷ ys) g k =
      (subst (IsLeft time) (sym (append_assoc ys xs a)) k.0, Grants-append a xs ys g k.1)
  Grants-append a xs (checked ∷ ys) g k = Grants-append a xs ys g k
  Grants-append a xs (clock_read ∷ ys) g k = Grants-append a xs ys g k
  Grants-append a xs (started n ∷ ys) g k = Grants-append a xs ys g k

  GrantsFrom-trans : {a b c : List Event} → GrantsFrom a b → GrantsFrom b c → GrantsFrom a c
  GrantsFrom-trans {a} x y = record {
    newer = y.newer ++ x.newer;
    split = y.split ∙ ap (λ l. y.newer ++ l) x.split ∙ sym (append_assoc y.newer x.newer a);
    grants =
        Grants-append a x.newer y.newer x.grants (subst (λ l. Grants l y.newer) x.split y.grants);
  }

  one_stop :
      (n : String) (es : List Event)
      → GrantsFrom es (stopped_unit n (h.time_left deadline (h.monotonic es)) ∷ clock_read ∷ es)
  one_stop n es = record {
    newer = stopped_unit n (h.time_left deadline (h.monotonic es)) ∷ clock_read ∷ [];
    split = refl;
    grants = (refl, tt);
  }

  one_join :
      (n : String) (es : List Event)
      → GrantsFrom es (joined_unit n (h.time_left deadline (h.monotonic es)) ∷ clock_read ∷ es)
  one_join n es = record {
    newer = joined_unit n (h.time_left deadline (h.monotonic es)) ∷ clock_read ∷ [];
    split = refl;
    grants = (refl, tt);
  }

  stop_all-GrantsFrom :
      (us : List RuntimeUnit) (first : Option String) (r : Runtime)
      → GrantsFrom r.trace (stop_all h deadline us first r).1.trace
  unfolding stop_all
  stop_all-GrantsFrom [] first r = GrantsFrom-refl r.trace
  stop_all-GrantsFrom (u ∷ us) first r =
      let (fails, r1) = stop_one h deadline u r in
      GrantsFrom-trans (one_stop u.name r.trace) (
        stop_all-GrantsFrom us (if fails then or_first first (u.name <> ":stop:error") else first)
          r1)

  join_all-GrantsFrom :
      (us : List RuntimeUnit) (first : Option String) (unresolved : List RuntimeUnit) (r : Runtime)
      → GrantsFrom r.trace (join_all h deadline us first unresolved r).2.trace
  unfolding join_all
  join_all-GrantsFrom [] first unresolved r = GrantsFrom-refl r.trace
  join_all-GrantsFrom (u ∷ us) first unresolved r =
      let (reply, r1) = join_one h deadline u r in
      let (first', was_joined) = join_outcome u reply first in
      GrantsFrom-trans (one_join u.name r.trace)
        (join_all-GrantsFrom us first' (if was_joined then unresolved else unresolved ++ u ∷ []) r1)

-- A shutdown reads the clock once for its deadline, and hands to each call of `stop` and of `join`
-- what is left of this deadline at a new reading of the clock just before the call, however long the
-- calls before it took and whatever the components raise or return.
pub shutdown-GrantsFrom :
    (h : Host) (timeout : ℕ) (final : RuntimeState) (r : Runtime)
    → GrantsFrom h
        (h.add_time (h.monotonic r.trace) timeout)
        (clock_read ∷ r.trace)
        (shutdown h timeout final r).1.trace
unfolding shutdown
shutdown-GrantsFrom h timeout final r =
    let (now, r1) = read_clock h r in
    let deadline = h.add_time now timeout in
    let us = reverse r.active in
    let (first, r2) = stop_all h deadline us none r1 in
    let (first', unresolved, r3) = join_all h deadline us first [] r2 in
    subst (GrantsFrom h deadline (clock_read ∷ r.trace))
      (sym (trace-conclude final first' unresolved r3))
      (GrantsFrom-trans h deadline (stop_all-GrantsFrom h deadline us none r1)
        (join_all-GrantsFrom h deadline us first [] r2))
