-- ===== src/Runtime/Unwind.antt =====
-- What a start that fails leaves behind: the units that it reached, stopped and joined.
use rcm_windows.Prelude.{
  if◌then◌else◌, Bool-cases, Exn, runtime_cancelled_error, err, String, ◌≡◌, refl, sym, ap, ◌∙◌,
  ◌⊎◌, inl, inr, Bool, true, false, Option, none, some, List, [], ◌∷◌, ◌++◌, reverse,
}
use rcm_windows.Runtime.Defs.{
  check, call_start, entered, launched, after_start, run_units, RuntimeUnit, StartReply, Host,
  Runtime, StartEnd, stopped, failed, started_ok, start_raised, start_interrupted, completed,
  raised,
}
use rcm_windows.Runtime.Ops.{
  or_code, begin_start, shutdown, start_failed, finish_start, start_from, start,
}
use rcm_windows.Runtime.History.{history, starts_of, stops_of, joins_of, history-shutdown}
use mathlib.Core.List.{append-nil, append_assoc}

-- How far a run over `us` from `r` came: the units that it reached, and the calls that it made.
record Attempt (us : List RuntimeUnit) (r : Runtime) (out : StartEnd × Runtime) : Type 0 where
  attempted : List RuntimeUnit
  others : List RuntimeUnit
  all_units : us ≡ attempted ++ others
  reached : out.1.active ≡ r.active ++ attempted
  calls : history out.1.trace ≡ history r.trace ++ starts_of attempted
  whole : out.0 ≡ completed → others ≡ []

module _ (h : Host) where
  trace-or_code : (problem : Option String) (t : Runtime) → (or_code problem t).trace ≡ t.trace
  trace-or_code none t = refl
  trace-or_code (some c) t = refl

  let_in :
      (r : Runtime)
      → (r.state ≡ stopped) ⊎ (r.state ≡ failed)
      → r.active ≡ []
      → start_from h r.state r ≡ finish_start h (run_units h r.units (begin_start r))
  let_in r (inl s) idle = rw (s, idle)
  let_in r (inr s) idle = rw (s, idle)

  after_start-Attempt :
      (u : RuntimeUnit) (us : List RuntimeUnit) (r : Runtime) (reply : StartReply)
      (rest : StartEnd × Runtime)
      → Attempt us (launched h u r) rest
      → Attempt (u ∷ us) r (after_start h u r reply rest)
  unfolding check call_start
  after_start-Attempt u us r start_raised rest a = record {
    attempted = u ∷ [];
    others = us;
    all_units = refl;
    reached = refl;
    calls = simp append-nil;
    whole = λ e. cc;
  }
  after_start-Attempt u us r start_interrupted rest a = record {
    attempted = u ∷ [];
    others = us;
    all_units = refl;
    reached = refl;
    calls = simp append-nil;
    whole = λ e. cc;
  }
  after_start-Attempt u us r started_ok rest a = elim (Bool-cases (launched h u r).cancelled) [
    | inl e ↦
        rw (e, if◌then◌else◌)
          (record {
            attempted = u ∷ [];
            others = us;
            all_units = refl;
            reached = refl;
            calls = simp append-nil;
            whole = λ e. cc;
          })
    | inr e ↦
        rw (e, if◌then◌else◌)
          (record {
            attempted = u ∷ a.attempted;
            others = a.others;
            all_units = ap (λ l. u ∷ l) a.all_units;
            reached = a.reached ∙ append_assoc r.active (u ∷ []) a.attempted;
            calls = a.calls ∙ simp (append-nil, append_assoc);
            whole = a.whole;
          })
  ]

  entry-Attempt :
      (u : RuntimeUnit) (us : List RuntimeUnit) (r : Runtime) (stop_here : Bool)
      (entry : StartEnd × Runtime)
      → Attempt (u ∷ us) r entry
      → Attempt
          (u ∷ us)
          r
          (if stop_here then (raised runtime_cancelled_error, check h r) else entry)
  unfolding check
  entry-Attempt u us r true entry a = record {
    attempted = [];
    others = u ∷ us;
    all_units = refl;
    reached = rw append-nil;
    calls = simp append-nil;
    whole = λ e. cc;
  }
  entry-Attempt u us r false entry a = a

  run_units-Attempt : (us : List RuntimeUnit) (r : Runtime) → Attempt us r (run_units h us r)
  unfolding run_units
  run_units-Attempt [] r = record {
    attempted = [];
    others = [];
    all_units = refl;
    reached = rw append-nil;
    calls = rw append-nil;
    whole = λ e. refl;
  }
  run_units-Attempt (u ∷ us) r = entry-Attempt u us r (check h r).cancelled _ (
      after_start-Attempt u us r (call_start h u (entered h u r)).0
        (run_units h us (launched h u r)) (run_units-Attempt us (launched h u r)))

  finish-history :
      (us : List RuntimeUnit) (e : StartEnd) (t : Runtime) (x : Exn)
      → (finish_start h (e, t)).0 ≡ err x
      → history (finish_start h (e, t)).1.trace
        ≡ history t.trace ++ (stops_of (reverse t.active) ++ joins_of (reverse t.active))
  unfolding start_failed
  finish-history us completed t x e = cc
  finish-history us (raised y) t x e =
      let t' = record t { cancelled = true; failure_code = some "start_error" } in
      let (problem, r1) = shutdown h t.shutdown_timeout failed t' in
      ap history (trace-or_code problem r1) ∙ history-shutdown h t.shutdown_timeout failed t'

  -- A start of a stopped or failed coordinator without active units that fails has called `start` on some first units of the configuration in
  -- their order, then `stop` on exactly these from the last to the first, and then `join` on them.
  pub start_fails_unwinds :
      (r : Runtime) (x : Exn)
      → (r.state ≡ stopped) ⊎ (r.state ≡ failed)
      → r.active ≡ []
      → (start h r).0 ≡ err x
      → (attempted : List RuntimeUnit) × (others : List RuntimeUnit) × (r.units
          ≡ attempted ++ others)
        × (history (start h r).1.trace
            ≡ history r.trace
              ++ (starts_of attempted
                  ++ (stops_of (reverse attempted) ++ joins_of (reverse attempted))))
  unfolding start
  start_fails_unwinds r x st idle e =
      let out = run_units h r.units (begin_start r) in
      let a = run_units-Attempt r.units (begin_start r) in
      let went : start_from h r.state r ≡ finish_start h out = let_in r st idle in
      let reached : out.1.active ≡ a.attempted = a.reached ∙ ap (λ l. l ++ a.attempted) idle in
      (
        a.attempted,
        a.others,
        a.all_units,
        ap (λ o. history o.1.trace) went
            ∙ finish-history r.units out.0 out.1 x (ap (λ o. o.0) (sym went) ∙ e)
            ∙ rw (reached, a.calls)
                (append_assoc (history r.trace) (starts_of a.attempted)
                  (stops_of (reverse a.attempted) ++ joins_of (reverse a.attempted))),
      )
