-- ===== src/Cleanup/Force.antt =====
-- src/rcm/cleanup.py: what `_execute_one` asks of the backend, in its order.
use rcm_windows.Prelude.{
  ltb, if◌then◌else◌, length, all, All, Result, ok, err, ℕ, ◌-◌, ◌≡◌, refl, Bool, true, false, not,
  ◌||◌, Option, none, some, List, [], ◌∷◌, map,
}
use rcm_windows.Cleanup.Types.{same_identity, ProcessIdentity, CleanupPolicy}
use rcm_windows.Cleanup.Facade.{
  get_issued, is_object, logged, distinct_numbers, pid_of, Flow, Report, finish, answered, step,
  revalidated, item_done, force_process, end_process, timed_one, execute_one, execute_loop, execute,
  CleanupCandidate, CleanupOutcome, Event, Host, World, Facade, graceful, forced, already_exited,
  skipped_stale, skipped_changed, force_timeout, inspected, requested, waited, force_sent,
  clock_read,
}

-- The last calls, before the force of a process: it was inspected and found the same, after a wait
-- that it outlived, after a request that was sent to it.
abbrev pub Warned : ProcessIdentity → List Event → Type 0
Warned q (inspected m (ok (some r)) ∷ waited n t (ok false) ∷ requested s (ok true) ∷ rest) =
    (m ≡ q.pid) × (same_identity r q ≡ true) × (n ≡ q.pid) × (s ≡ q)
Warned q _ = ⊥

-- The last call, before a request to a process: it was inspected and found the same.
abbrev pub Inspected : ProcessIdentity → List Event → Type 0
Inspected q (inspected m (ok (some r)) ∷ rest) = (m ≡ q.pid) × (same_identity r q ≡ true)
Inspected q _ = ⊥

module _ (P : ProcessIdentity → Type 0) where
  -- In the whole log, each process that is asked to end was permitted and just inspected, and each
  -- one that is forced was also warned.
  abbrev pub Guarded : List Event → Type 0
  Guarded [] = Unit
  Guarded (requested q a ∷ rest) = P q × Inspected q rest × Guarded rest
  Guarded (force_sent q a ∷ rest) = P q × Warned q rest × Guarded rest
  Guarded (e ∷ rest) = Guarded rest

  -- A flow from a world leaves a guarded log.
  record Leaves (m : Flow) (w : World) : Type 0 where
    pub log : Guarded (m w).1.events

  finish-Leaves : (x : CleanupOutcome) (w : World) → Guarded w.events → Leaves (finish x) w
  finish-Leaves x w g = record { log = g }

  if-Leaves :
      {m n : Flow} {w : World} (b : Bool)
      → (b ≡ true → Leaves m w)
      → (b ≡ false → Leaves n w)
      → Leaves (if b then m else n) w
  if-Leaves true h k = h refl
  if-Leaves false h k = k refl

  answered_guarded :
      {A : Type 0} (event : Result A → Event) (next : A → Flow) (w : World) (r : Result A)
      → ((a : Result A) → Guarded (event a ∷ w.events))
      → ((a : A) → Leaves (next a) (logged (event (ok a)) w))
      → Guarded (answered next r (logged (event r) w)).1.events
  answered_guarded event next w (ok a) h k = (k a).log
  answered_guarded event next w (err e) h k = h (err e)

  step-Leaves :
      {A : Type 0} (event : Result A → Event) (ask : List Event → Result A) {next : A → Flow}
      {w : World}
      → ((a : Result A) → Guarded (event a ∷ w.events))
      → ((a : A) → Leaves (next a) (logged (event (ok a)) w))
      → Leaves (step event ask next) w
  step-Leaves event ask {next = next} {w = w} h k = record {
    log = answered_guarded event next w (ask w.events) h k;
  }

  revalidated-Leaves :
      (q : ProcessIdentity) (next : Flow) (w : World) (o : Option ProcessIdentity)
      → Guarded w.events
      → ((r : ProcessIdentity)
          → same_identity r q ≡ true
          → Leaves next (logged (inspected q.pid (ok (some r))) w))
      → Leaves (revalidated q next o) (logged (inspected q.pid (ok o)) w)
  revalidated-Leaves q next w none g h = finish-Leaves already_exited _ g
  revalidated-Leaves q next w (some r) g h =
      if-Leaves (same_identity r q) (λ e. h r e) (λ _. finish-Leaves skipped_changed _ g)

  module _ (host : Host) (policy : CleanupPolicy) where
    abbrev patience : ℕ
    patience = policy.graceful_timeout_seconds

    force-Leaves :
        (q : ProcessIdentity) (w : World)
        → Guarded w.events
        → P q
        → Warned q w.events
        → Leaves (force_process host policy q) w
    unfolding force_process
    force-Leaves q w g permitted warned =
        step-Leaves (force_sent q) (λ events. host.force events q) (λ _. (permitted, warned, g))
          (λ sent.
            if-Leaves sent
              (λ _.
                step-Leaves (waited q.pid policy.force_timeout_seconds)
                  (λ events. host.wait events q.pid policy.force_timeout_seconds)
                  (λ _. (permitted, warned, g))
                  (λ gone.
                    if-Leaves gone (λ _. finish-Leaves forced _ (permitted, warned, g))
                      (λ _. finish-Leaves force_timeout _ (permitted, warned, g))))
              (λ _. finish-Leaves already_exited _ (permitted, warned, g)))

    Warned-by :
        (q r : ProcessIdentity) (sent gone : Bool) (rest : List Event)
        → sent ≡ true
        → gone ≡ false
        → same_identity r q ≡ true
        → Warned q (
            inspected q.pid (ok (some r))
            ∷ waited q.pid patience (ok gone)
            ∷ requested q (ok sent)
            ∷ rest)
    Warned-by q r true false rest e f same = (refl, same, refl, refl)
    Warned-by q r false gone rest e f same = absurd (cc e)
    Warned-by q r true true rest e f same = absurd (cc f)

    end-Leaves :
        (q : ProcessIdentity) (w : World)
        → Guarded w.events
        → P q
        → Inspected q w.events
        → Leaves (end_process host policy q) w
    unfolding end_process
    end-Leaves q w g permitted seen =
        step-Leaves (requested q) (λ events. host.request_graceful events q)
          (λ _. (permitted, seen, g))
          (λ sent.
            if-Leaves sent
              (λ is.
                step-Leaves (waited q.pid patience) (λ events. host.wait events q.pid patience)
                  (λ _. (permitted, seen, g))
                  (λ gone.
                    if-Leaves gone (λ _. finish-Leaves graceful _ (permitted, seen, g))
                      (λ stays.
                        step-Leaves (inspected q.pid) (λ events. host.inspect events q.pid)
                          (λ _. (permitted, seen, g))
                          (λ o.
                            revalidated-Leaves q (force_process host policy q) _ o
                              (permitted, seen, g)
                              (λ r same.
                                force-Leaves q _ (permitted, seen, g) permitted
                                  (Warned-by q r sent gone w.events is stays same))))))
              (λ _. finish-Leaves already_exited _ (permitted, seen, g)))

    one-Leaves :
        (c : CleanupCandidate) (w : World)
        → Guarded w.events
        → P c.identity
        → Leaves (execute_one host policy c) w
    unfolding execute_one
    one-Leaves c w g permitted = record { log = timed.log }
      where
        timed :
            Leaves
              (timed_one host policy c (host.monotonic w.events))
              (logged (clock_read (host.monotonic w.events)) w)
        timed =
            if-Leaves
              (ltb (host.monotonic w.events) c.scanned_monotonic
                || ltb policy.result_max_age_seconds
                    (host.monotonic w.events - c.scanned_monotonic))
              (λ _. finish-Leaves skipped_stale _ g)
              (λ _.
                step-Leaves (inspected (pid_of c)) (λ events. host.inspect events (pid_of c))
                  (λ _. g)
                  (λ o.
                    revalidated-Leaves c.identity (end_process host policy c.identity) _ o g
                      (λ r same. end-Leaves c.identity _ g permitted (refl, same))))

  module _ (host : Host) where
    done_Guarded :
        (c : CleanupCandidate) (go : Facade × World → Result Report × Facade × World)
        (out : Result CleanupOutcome × World) (f : Facade)
        → Guarded out.1.events
        → ((w : World) → Guarded w.events → Guarded (go (f, w)).2.events)
        → Guarded (item_done c go out f).2.events
    done_Guarded c go (err e, w) f h k = h
    done_Guarded c go (ok x, w) f h k = k w h

    loop_Guarded :
        (selected : List CleanupCandidate) (f : Facade) (w : World)
        → All (λ c. P c.identity) selected
        → Guarded w.events
        → Guarded (execute_loop host selected (f, w)).2.events
    unfolding execute_loop
    loop_Guarded [] f w h g = g
    loop_Guarded (c ∷ rest) f w h g =
        done_Guarded c (execute_loop host rest) (execute_one host f.policy c w) _
          (one-Leaves host f.policy c w g h.0).log (λ v k. loop_Guarded rest _ v h.1 k)

    outcome_guarded :
        (b : Bool) (x y : Result Report × Facade × World)
        → (b ≡ true → Guarded x.2.events)
        → (b ≡ false → Guarded y.2.events)
        → Guarded (if b then x else y).2.events
    outcome_guarded true x y h k = h refl
    outcome_guarded false x y h k = k refl

    not-false : (b : Bool) → not b ≡ false → b ≡ true
    not-false true e = refl
    not-false false e = absurd (cc e)

    -- However the backend answers, an execution of permitted candidates leaves a guarded log.
    pub execute-Guarded :
        (selected : List CleanupCandidate) (f : Facade) (w : World)
        → (all (λ c. is_object (get_issued c.ticket f.issued) c) selected ≡ true
            → All (λ c. P c.identity) selected)
        → Guarded w.events
        → Guarded (execute host selected f w).2.events
    unfolding execute
    execute-Guarded selected f w h g =
        outcome_guarded (ltb f.policy.max_processes (length selected)) _ _ (λ _. g)
          (λ _.
            outcome_guarded (not (distinct_numbers (map pid_of selected))) _ _ (λ _. g)
              (λ _.
                outcome_guarded
                  (not (all (λ c. is_object (get_issued c.ticket f.issued) c) selected)) _ _
                  (λ _. g)
                  (λ e.
                    loop_Guarded selected f w
                      (h (
                        not-false (all (λ c. is_object (get_issued c.ticket f.issued) c) selected)
                          e))
                      g)))
