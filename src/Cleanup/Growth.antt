-- ===== src/Cleanup/Growth.antt =====
-- src/rcm/cleanup.py: an execution only adds to what was asked before.
use rcm_windows.Prelude.{
  ltb, if◌then◌else◌, Result, ok, err, ℕ, ◌-◌, Bool, true, false, ◌||◌, Option, none, some, List,
  [], ◌∷◌,
}
use rcm_windows.Cleanup.Types.{same_identity, ProcessIdentity, CleanupPolicy}
use rcm_windows.Cleanup.Facade.{
  pid_of, Flow, Report, finish, answered, step, revalidated, item_done, force_process, end_process,
  timed_one, execute_one, execute_loop, CleanupCandidate, CleanupOutcome, Event, Host, World,
  Facade, graceful, forced, already_exited, skipped_stale, skipped_changed, force_timeout,
  inspected, requested, waited, force_sent, clock_read,
}

-- What holds of a log and of each longer one is kept by an execution.
module _ (X : List Event → Type 0)
    (longer : (e : Event) (es : List Event) → X es → X (e ∷ es)) where
  record Keeps (m : Flow) : Type 0 where
    pub keep : (w : World) → X w.events → X (m w).1.events

  finish-Keeps : (x : CleanupOutcome) → Keeps (finish x)
  finish-Keeps x = record { keep = λ w h. h }

  if-Keeps : {m n : Flow} (b : Bool) → Keeps m → Keeps n → Keeps (if b then m else n)
  if-Keeps true h k = h
  if-Keeps false h k = k

  answered-Keeps :
      {A : Type 0} {next : A → Flow} (r : Result A)
      → ((a : A) → Keeps (next a))
      → Keeps (answered next r)
  answered-Keeps (ok a) h = record { keep = (h a).keep }
  answered-Keeps (err e) h = record { keep = λ w x. x }

  step-Keeps :
      {A : Type 0} (event : Result A → Event) (ask : List Event → Result A) {next : A → Flow}
      → ((a : A) → Keeps (next a))
      → Keeps (step event ask next)
  step-Keeps event ask h = record {
    keep =
        λ w x. (answered-Keeps (ask w.events) h).keep _ (longer (event (ask w.events)) w.events x);
  }

  revalidated-Keeps :
      (q : ProcessIdentity) {next : Flow} (o : Option ProcessIdentity)
      → Keeps next
      → Keeps (revalidated q next o)
  revalidated-Keeps q none h = finish-Keeps already_exited
  revalidated-Keeps q (some r) h = if-Keeps (same_identity r q) h (finish-Keeps skipped_changed)

  module _ (host : Host) where
    force-Keeps :
        (policy : CleanupPolicy) (q : ProcessIdentity) → Keeps (force_process host policy q)
    unfolding force_process
    force-Keeps policy q =
        step-Keeps (force_sent q) (λ es. host.force es q)
          (λ sent.
            if-Keeps sent
              (step-Keeps (waited q.pid policy.force_timeout_seconds)
                (λ es. host.wait es q.pid policy.force_timeout_seconds)
                (λ gone. if-Keeps gone (finish-Keeps forced) (finish-Keeps force_timeout)))
              (finish-Keeps already_exited))

    end-Keeps : (policy : CleanupPolicy) (q : ProcessIdentity) → Keeps (end_process host policy q)
    unfolding end_process
    end-Keeps policy q =
        step-Keeps (requested q) (λ es. host.request_graceful es q)
          (λ sent.
            if-Keeps sent
              (step-Keeps (waited q.pid policy.graceful_timeout_seconds)
                (λ es. host.wait es q.pid policy.graceful_timeout_seconds)
                (λ gone. if-Keeps gone (finish-Keeps graceful) (
                  step-Keeps (inspected q.pid) (λ es. host.inspect es q.pid)
                    (λ o. revalidated-Keeps q o (force-Keeps policy q)))))
              (finish-Keeps already_exited))

    timed-Keeps :
        (policy : CleanupPolicy) (c : CleanupCandidate) (now : ℕ)
        → Keeps (timed_one host policy c now)
    timed-Keeps policy c now =
        if-Keeps
          (ltb now c.scanned_monotonic
            || ltb policy.result_max_age_seconds (now - c.scanned_monotonic))
          (finish-Keeps skipped_stale)
          (step-Keeps (inspected (pid_of c)) (λ es. host.inspect es (pid_of c))
            (λ o. revalidated-Keeps c.identity o (end-Keeps policy c.identity)))

    one-Keeps : (policy : CleanupPolicy) (c : CleanupCandidate) → Keeps (execute_one host policy c)
    unfolding execute_one
    one-Keeps policy c = record {
      keep = λ w x.
          (timed-Keeps policy c (host.monotonic w.events)).keep _
            (longer (clock_read (host.monotonic w.events)) w.events x);
    }

    done_kept :
        (c : CleanupCandidate) (go : Facade × World → Result Report × Facade × World)
        (out : Result CleanupOutcome × World) (f : Facade)
        → X out.1.events
        → ((w : World) → X w.events → X (go (f, w)).2.events)
        → X (item_done c go out f).2.events
    done_kept c go (err e, w) f h k = h
    done_kept c go (ok x, w) f h k = k w h

    pub loop_kept :
        (selected : List CleanupCandidate) (f : Facade) (w : World)
        → X w.events
        → X (execute_loop host selected (f, w)).2.events
    unfolding execute_loop
    loop_kept [] f w h = h
    loop_kept (c ∷ rest) f w h =
        done_kept c (execute_loop host rest) (execute_one host f.policy c w) _
          ((one-Keeps f.policy c).keep w h) (λ v k. loop_kept rest _ v k)
