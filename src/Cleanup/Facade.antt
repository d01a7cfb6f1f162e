-- ===== src/Cleanup/Facade.antt =====
-- src/rcm/cleanup.py: `CleanupFacade`, its scan and its execution of candidates.
--
-- A candidate is an object: `object` is its identity, which the tests with `is` compare. What the
-- facade asks of its backend and of the clock is recorded as events, and an answer may depend on all
-- events before.
use rcm_windows.Prelude.{
  ltb, ◌==◌, if◌then◌else◌, length, all, any, select, ◌>>=◌, Exn, Result, conflict_error,
  rejected_error, keyboard_interrupt, ok, err, ℕ, ◌+◌, ◌-◌, String, Bool, true, false, not, ◌&&◌,
  ◌||◌, Option, none, some, List, [], ◌∷◌, map, str_eq,
}
use rcm_windows.Cleanup.Types.{
  same_identity, matches, ProcessIdentity, ProcessObservation, CleanupRule, CleanupPolicy,
}

pub record CleanupCandidate : Type 0 where
  pub object : ℕ
  pub ticket : ℕ
  pub identity : ProcessIdentity
  pub command_fingerprint : String
  pub rule_id : String
  pub scanned_monotonic : ℕ

pub record CleanupScan : Type 0 where
  pub candidates : List CleanupCandidate
  pub inspected_count : ℕ
  pub scanned_monotonic : ℕ

pub data CleanupOutcome : Type 0 where
  graceful forced already_exited skipped_stale skipped_changed outcome_failed force_timeout :
      CleanupOutcome

pub record CleanupItemResult : Type 0 where
  pub pid : ℕ
  pub outcome : CleanupOutcome

abbrev pub is_success : CleanupOutcome → Bool
is_success graceful = true
is_success forced = true
is_success already_exited = true
is_success _ = false

-- CleanupReport.successful
unfoldable pub successful : List CleanupItemResult → Bool
successful items = all (λ x. is_success x.outcome) items

-- A call of the backend or of the clock, with its answer.
pub data Event : Type 0 where
  scanned : ℕ → Result (List ProcessObservation) → Event
  inspected : ℕ → Result (Option ProcessIdentity) → Event
  requested : ProcessIdentity → Result Bool → Event
  waited : ℕ → ℕ → Result Bool → Event
  force_sent : ProcessIdentity → Result Bool → Event
  clock_read : ℕ → Event
  wall_read : Option ℕ → Event

-- The backend and the clock. `now` is the wall clock, without a value where it has no time zone.
pub record Host : Type 0 where
  pub scan : List Event → ℕ → Result (List ProcessObservation)
  pub inspect : List Event → ℕ → Result (Option ProcessIdentity)
  pub request_graceful : List Event → ProcessIdentity → Result Bool
  pub wait : List Event → ℕ → ℕ → Result Bool
  pub force : List Event → ProcessIdentity → Result Bool
  pub monotonic : List Event → ℕ
  pub now : List Event → Option ℕ

-- The events, the last one first, and the number of the next object.
pub record World : Type 0 where
  pub events : List Event
  pub objects : ℕ

abbrev pub Issued : Type 0
Issued = List CleanupCandidate

pub record Facade : Type 0 where
  pub policy : CleanupPolicy
  pub next_ticket : ℕ
  -- The values of the dict, each under its ticket.
  pub issued : Issued

abbrev pub new_facade : CleanupPolicy → Facade
new_facade policy = record { policy = policy; next_ticket = 1; issued = [] }

-- self._issued.get(ticket)
abbrev pub get_issued : ℕ → Issued → Option CleanupCandidate
get_issued t [] = none
get_issued t (c ∷ rest) = if c.ticket == t then some c else get_issued t rest

-- self._issued.pop(ticket)
abbrev pub pop_issued : ℕ → Issued → Issued
pop_issued t xs = select (λ c. not (c.ticket == t)) xs

abbrev pub is_object : Option CleanupCandidate → CleanupCandidate → Bool
is_object none c = false
is_object (some d) c = d.object == c.object

abbrev pub logged : Event → World → World
logged e w = record w { events = e ∷ w.events }

abbrev pub distinct_numbers : List ℕ → Bool
distinct_numbers [] = true
distinct_numbers (n ∷ rest) = not (any (λ m. m == n) rest) && distinct_numbers rest

abbrev pub pid_of : CleanupCandidate → ℕ
pid_of c = c.identity.pid

abbrev pub is_own : CleanupPolicy → ProcessIdentity → Bool
is_own policy p = str_eq p.owner_token policy.owner_token && (p.session_id == policy.session_id)

abbrev pub candidate_for : CleanupRule → ProcessObservation → ℕ → ℕ → ℕ → CleanupCandidate
candidate_for r o monotonic ticket object = record {
  object = object;
  ticket = ticket;
  identity = o.identity;
  command_fingerprint = o.command_fingerprint;
  rule_id = r.rule_id;
  scanned_monotonic = monotonic;
}

abbrev pub issue :
    CleanupRule → ProcessObservation → ℕ → Facade × World → CleanupCandidate × Facade × World
issue r o monotonic (f, w) =
    let c = candidate_for r o monotonic f.next_ticket w.objects in
    (
      c,
      record f { next_ticket = f.next_ticket + 1; issued = c ∷ f.issued },
      record w { objects = w.objects + 1 },
    )

abbrev pub scan_item :
    Option CleanupRule
    → ProcessObservation
    → ℕ
    → (Facade × World → List CleanupCandidate × Facade × World)
    → Facade × World
    → List CleanupCandidate × Facade × World
scan_item none o monotonic go s = go s
scan_item (some r) o monotonic go s =
    let (c, f, w) = issue r o monotonic s in let (cs, f2, w2) = go (f, w) in (c ∷ cs, f2, w2)

module _ (casefold : String → String) where
  -- The first rule that matches.
  abbrev pub first_rule : List CleanupRule → ProcessObservation → ℕ → Option CleanupRule
  first_rule [] o age = none
  first_rule (r ∷ rest) o age = if matches casefold r o age then some r else first_rule rest o age

  -- The rule for an observation of the loop of `scan`, or none where it goes on to the next one.
  abbrev pub rule_for : CleanupPolicy → ℕ → ProcessObservation → Option CleanupRule
  rule_for policy epoch o =
      if is_own policy o.identity
      then first_rule policy.rules o (epoch - o.identity.create_time)
      else none

  -- The loop of `scan`.
  unfoldable pub scan_loop :
      ℕ → ℕ → List ProcessObservation → Facade × World → List CleanupCandidate × Facade × World
  scan_loop monotonic epoch [] (f, w) = ([], f, w)
  scan_loop monotonic epoch (o ∷ rest) (f, w) =
      scan_item (rule_for f.policy epoch o) o monotonic (scan_loop monotonic epoch rest) (f, w)

  abbrev pub scan_timed :
      List ProcessObservation → ℕ → Option ℕ → Facade → World → Result CleanupScan × Facade × World
  scan_timed observed monotonic none f w = (err rejected_error, record f { issued = [] }, w)
  scan_timed observed monotonic (some epoch) f w =
      let (cs, f2, w2) = scan_loop monotonic epoch observed (f, w) in
      (
        ok (record {
          candidates = cs;
          inspected_count = length observed;
          scanned_monotonic = monotonic;
        }),
        f2,
        w2,
      )

module _ (casefold : String → String) (host : Host) where
  abbrev pub scan_observed :
      Result (List ProcessObservation) → Facade → World → Result CleanupScan × Facade × World
  scan_observed (err e) f w = (err e, f, w)
  scan_observed (ok observed) f w =
      if ltb f.policy.max_processes (length observed)
      then (err rejected_error, f, w)
      else if not (distinct_numbers (map (λ (o : ProcessObservation). o.identity.pid) observed))
      then (err rejected_error, f, w)
      else (let monotonic = host.monotonic w.events in
          let w1 = logged (clock_read monotonic) w in
          let now = host.now w1.events in
          scan_timed casefold observed monotonic now f (logged (wall_read now) w1))

  unfoldable pub scan : Facade → World → Result CleanupScan × Facade × World
  unfolding scan_loop
  scan f w =
      let answer = host.scan w.events (f.policy.max_processes + 1) in
      scan_observed answer (record f { issued = [] })
        (logged (scanned (f.policy.max_processes + 1) answer) w)

abbrev pub Flow : Type 0
Flow = World → Result CleanupOutcome × World

abbrev pub Report : Type 0
Report = List CleanupItemResult

-- except ConflictError, except Exception
abbrev pub outcome_of : Exn → Result CleanupOutcome
outcome_of conflict_error = ok skipped_changed
outcome_of keyboard_interrupt = err keyboard_interrupt
outcome_of e = ok outcome_failed

abbrev pub finish : CleanupOutcome → Flow
finish outcome w = (ok outcome, w)

abbrev pub answered : {A : Type 0} → (A → Flow) → Result A → Flow
answered next (ok a) w = next a w
answered next (err e) w = (outcome_of e, w)

-- A call of `_execute_one`, whose exceptions end it.
abbrev pub step : {A : Type 0} → (Result A → Event) → (List Event → Result A) → (A → Flow) → Flow
step event ask next w = answered next (ask w.events) (logged (event (ask w.events)) w)

-- The process of the candidate is inspected, and `next` done where it is still the same.
abbrev pub revalidated : ProcessIdentity → Flow → Option ProcessIdentity → Flow
revalidated expected next none = finish already_exited
revalidated expected next (some current) =
    if same_identity current expected then next else finish skipped_changed

abbrev pub item_done :
    CleanupCandidate
    → (Facade × World → Result Report × Facade × World)
    → Result CleanupOutcome × World
    → Facade
    → Result Report × Facade × World
item_done c go (err e, w) f = (err e, f, w)
item_done c go (ok outcome, w) f =
    let (r, f2, w2) = go (f, w) in
    (r >>= (λ items. ok (record { pid = pid_of c; outcome = outcome } ∷ items)), f2, w2)

module _ (host : Host) where
  unfoldable pub force_process : CleanupPolicy → ProcessIdentity → Flow
  force_process policy p =
      step (force_sent p) (λ events. host.force events p)
        (λ sent.
          if sent
          then step (waited p.pid policy.force_timeout_seconds)
              (λ events. host.wait events p.pid policy.force_timeout_seconds)
              (λ gone. if gone then finish forced else finish force_timeout)
          else finish already_exited)

  unfoldable pub end_process : CleanupPolicy → ProcessIdentity → Flow
  unfolding force_process
  end_process policy p =
      step (requested p) (λ events. host.request_graceful events p)
        (λ sent.
          if sent
          then step (waited p.pid policy.graceful_timeout_seconds)
              (λ events. host.wait events p.pid policy.graceful_timeout_seconds)
              (λ gone.
                if gone
                then finish graceful
                else step (inspected p.pid) (λ events. host.inspect events p.pid)
                    (revalidated p (force_process policy p)))
          else finish already_exited)

  abbrev pub timed_one : CleanupPolicy → CleanupCandidate → ℕ → Flow
  timed_one policy c now =
      if ltb now c.scanned_monotonic
        || ltb policy.result_max_age_seconds (now - c.scanned_monotonic)
      then finish skipped_stale
      else step (inspected (pid_of c)) (λ events. host.inspect events (pid_of c))
          (revalidated c.identity (end_process policy c.identity))

  -- _execute_one
  unfoldable pub execute_one : CleanupPolicy → CleanupCandidate → Flow
  unfolding end_process
  execute_one policy c w =
      timed_one policy c (host.monotonic w.events) (logged (clock_read (host.monotonic w.events)) w)

  -- The loop of `execute`.
  unfoldable pub execute_loop :
      List CleanupCandidate → Facade × World → Result Report × Facade × World
  unfolding execute_one
  execute_loop [] (f, w) = (ok [], f, w)
  execute_loop (c ∷ rest) (f, w) =
      item_done c (execute_loop rest) (execute_one f.policy c w)
        (record f { issued = pop_issued c.ticket f.issued })

  unfoldable pub execute : List CleanupCandidate → Facade → World → Result Report × Facade × World
  unfolding execute_loop
  execute selected f w =
      if ltb f.policy.max_processes (length selected)
      then (err rejected_error, f, w)
      else if not (distinct_numbers (map pid_of selected))
      then (err rejected_error, f, w)
      else if not (all (λ c. is_object (get_issued c.ticket f.issued) c) selected)
      then (err rejected_error, f, w)
      else execute_loop selected (f, w)
