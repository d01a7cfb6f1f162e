-- ===== src/Reconfiguration/Reported.antt =====
-- src/rcm/reconfiguration.py: the reports behind the completed steps.
use rcm_windows.Prelude.{
  if◌then◌else◌, Bool-cases, contains, discard, from_keys, contains-append, String, ◌≡◌, refl, ◌⊎◌,
  inl, inr, Bool, true, false, not, ◌||◌, Option, none, some, List, [], ◌∷◌, ◌++◌, arith, str_eq,
  eq_iff,
}
use rcm_windows.Core.Types.{}
use rcm_windows.Reconfiguration.Types.{
  is_mutation, worker_ids, head_id, node_ids, nodes, success, failure, sorted_set,
  ReconfigurationPhase, ReconfigurationPlan, Hasher, StepOutcome, PhaseReport,
  ReconfigurationCheckpoint, preflight, stop, push, start, join, verify,
}
use rcm_windows.Reconfiguration.Journal.{is_some}
use rcm_windows.Reconfiguration.Control.{
  Action, ◌>>=◌, ◌>>◌, return, keep, fence, ask, check_cancelled, judge, step_key, reported,
  attempt, call, Command, Environment, ask_start, ask_verify,
}
use rcm_windows.Reconfiguration.Phases.{
  or_fail, critical, note_availability, preflight_all, preflight_phase, stop_one, stop_all,
  push_one, push_all, start_phase, verify_head, join_one, join_all, verify_cluster,
}
use rcm_windows.Reconfiguration.Run.{forward_result, forward}
use rcm_windows.Reconfiguration.Steps.{
  then-Ends, any-Ends, if_Ends, return-Ends, cancelled-Ends, Ends,
}

module _ (env : Environment) (hash : Hasher) (plan : ReconfigurationPlan) where
  -- The suffix of a step's key is the node of its report, but for the verification of the head.
  abbrev pub Names : String → String → Type 0
  Names suffix node_id =
      (suffix ≡ node_id) ⊎ ((suffix ≡ "head") × (node_id ≡ plan.desired.head.node_id))

  -- A report of success for a step with the key.
  pub record Confirms (key : String) (r : PhaseReport) : Type 0 where
    pub suffix : String
    pub key_of : key ≡ step_key env r.phase suffix
    pub names : Names suffix r.node_id
    pub succeeds : r.outcome.is_ok ≡ true

  abbrev pub Confirmed : String → List PhaseReport → Type 0
  Confirmed key [] = ⊥
  Confirmed key (r ∷ rs) = Confirms key r ⊎ Confirmed key rs

  -- Each completed step has a report of success.
  abbrev pub IsHonest : ReconfigurationCheckpoint → Type 0
  IsHonest c = (key : String) → contains key c.completed_steps ≡ true → Confirmed key c.reports

  Confirmed-more :
      (key : String) (rs more : List PhaseReport) → Confirmed key rs → Confirmed key (rs ++ more)
  Confirmed-more key [] more h = absurd h
  Confirmed-more key (r ∷ rs) more (inl h) = inl h
  Confirmed-more key (r ∷ rs) more (inr h) = inr (Confirmed-more key rs more h)

  Confirmed-last :
      (key : String) (rs : List PhaseReport) (r : PhaseReport)
      → Confirms key r
      → Confirmed key (rs ++ r ∷ [])
  Confirmed-last key [] r h = inl h
  Confirmed-last key (x ∷ rs) r h = inr (Confirmed-last key rs r h)

  key_cases :
      (key k : String) (done_keys : List String)
      → contains key (done_keys ++ k ∷ []) ≡ true
      → (contains key done_keys ≡ true) ⊎ (key ≡ k)
  key_cases key k done_keys h = elim (Bool-cases (contains key done_keys)) [
    | inl e ↦ inl e
    | inr e ↦ inr (ground (arith, h, e, contains-append key done_keys (k ∷ []), eq_iff k key))
  ]

  reported-IsHonest :
      (c : ReconfigurationCheckpoint) (phase : ReconfigurationPhase) (node_id suffix : String)
      (ok_outcome : Bool) (o : StepOutcome)
      → o.is_ok ≡ ok_outcome
      → Names suffix node_id
      → IsHonest c
      → IsHonest (reported env phase node_id (step_key env phase suffix) o c)
  reported-IsHonest c phase node_id suffix true o e names h key m =
      elim (key_cases key (step_key env phase suffix) c.completed_steps (ground (arith, m, e))) [
        | inl old ↦ Confirmed-more key c.reports _ (h key old)
        | inr same ↦
            Confirmed-last key c.reports _
              (record { suffix = suffix; key_of = same; names = names; succeeds = e })
      ]
  reported-IsHonest c phase node_id suffix false o e names h key m =
      Confirmed-more key c.reports _ (h key (ground (arith, m, e)))

  call-IsHonest :
      (c : ReconfigurationCheckpoint) (phase : ReconfigurationPhase) (node_id : String)
      (action : Option Command) (suffix : String)
      → Names suffix node_id
      → IsHonest c
      → Ends (λ out. IsHonest out.0) (call env plan c phase node_id action suffix)
  unfolding call attempt
  call-IsHonest c phase node_id action suffix names h =
      let key = step_key env phase suffix in
      let unknown = failure "step.outcome_unknown" in
      let c1 : ReconfigurationCheckpoint = record c {
        inflight_step = none;
        reports = c.reports ++ record { phase = phase; node_id = node_id; outcome = unknown } ∷ [];
      } in
      let begun : ReconfigurationCheckpoint = record c { inflight_step = some key } in
      then-Ends (any-Ends (check_cancelled env c)) (λ _ _.
        if_Ends (contains key c.completed_steps) (λ _. return-Ends (c, success) h)
          (λ _.
            if_Ends (is_some c.inflight_step)
              (λ _.
                then-Ends (any-Ends (keep plan c1))
                  (λ _ _. return-Ends (c1, unknown) (λ k m. Confirmed-more k c.reports _ (h k m))))
              (λ _.
                then-Ends
                  (any-Ends (if is_mutation phase then fence plan.desired.epoch else return tt))
                  (λ _ _. then-Ends (any-Ends (keep plan begun)) (λ _ _.
                    then-Ends (any-Ends (ask env action)) (λ reply _.
                      then-Ends (any-Ends (judge env reply)) (λ j _.
                        let c2 = reported env phase node_id key j.0 begun in
                        then-Ends (any-Ends (keep plan c2)) (λ _ _.
                          if_Ends j.1 (λ _. cancelled-Ends c2)
                            (λ _.
                              return-Ends (c2, j.0)
                                (reported-IsHonest begun phase node_id suffix j.0.is_ok j.0 refl
                                  names h))))))))))

  note-IsHonest :
      (n : String) (absent : List String) (c : ReconfigurationCheckpoint) (o : StepOutcome)
      → IsHonest c
      → Ends (λ next. IsHonest next.0) (note_availability env hash plan n absent c o)
  unfolding note_availability
  note-IsHonest n absent c o h =
      let c1 = record c { unavailable_nodes = n ∷ absent } in
      let c2 = record c { unavailable_nodes = discard n absent } in
      if_Ends (not o.is_ok)
        (λ _. then-Ends (any-Ends (keep plan c1)) (λ _ _.
          then-Ends (any-Ends (or_fail (not (contains n (critical env hash plan))) c1))
            (λ _ _. return-Ends (c1, n ∷ absent) h)))
        (λ _.
          if_Ends (contains n absent)
            (λ _. then-Ends (any-Ends (keep plan c2)) (λ _ _. return-Ends (c2, discard n absent) h))
            (λ _. return-Ends (c, absent) h))

  preflight_all-IsHonest :
      (ns absent : List String) (c : ReconfigurationCheckpoint)
      → IsHonest c
      → Ends IsHonest (preflight_all env hash plan ns absent c)
  unfolding preflight_all
  preflight_all-IsHonest [] absent c h = return-Ends c h
  preflight_all-IsHonest (n ∷ ns) absent c h =
      then-Ends (call-IsHonest c preflight n _ n (inl refl) h) (λ out k.
        then-Ends (note-IsHonest n absent out.0 out.1 k)
          (λ next g. preflight_all-IsHonest ns next.1 next.0 g))

  -- A step that must not fail.
  must-IsHonest :
      (m : Action (ReconfigurationCheckpoint × StepOutcome))
      → Ends (λ out. IsHonest out.0) m
      → Ends IsHonest (do out ← m; or_fail out.1.is_ok out.0; return out.0)
  must-IsHonest m h =
      then-Ends h
        (λ out k. then-Ends (any-Ends (or_fail out.1.is_ok out.0)) (λ _ _. return-Ends out.0 k))

  stop_all-IsHonest :
      (ns : List String) (c : ReconfigurationCheckpoint)
      → IsHonest c
      → Ends IsHonest (stop_all env hash plan ns c)
  unfolding stop_all stop_one
  stop_all-IsHonest [] c h = return-Ends c h
  stop_all-IsHonest (n ∷ ns) c h =
      then-Ends {P = IsHonest}
        (if_Ends (contains n c.unavailable_nodes) (λ _. return-Ends c h)
          (λ _. must-IsHonest _ (call-IsHonest c stop n _ n (inl refl) h)))
        (λ d k. stop_all-IsHonest ns d k)

  with_nodes :
      (b : Bool) (c : ReconfigurationCheckpoint) (ns : List String)
      → IsHonest c
      → IsHonest (if b then c else record c { unavailable_nodes = ns })
  with_nodes true c ns h = h
  with_nodes false c ns h = h

  push_all-IsHonest :
      (ns : List String) (c : ReconfigurationCheckpoint)
      → IsHonest c
      → Ends IsHonest (push_all env hash plan ns c)
  unfolding push_all push_one
  push_all-IsHonest [] c h = return-Ends c h
  push_all-IsHonest (n ∷ ns) c h =
      then-Ends {P = IsHonest}
        (if_Ends (contains n c.unavailable_nodes) (λ _. return-Ends c h)
          (λ _. then-Ends (call-IsHonest c push n _ n (inl refl) h) (λ out k.
            then-Ends
              (any-Ends (or_fail (out.1.is_ok || not (str_eq n (head_id plan.desired))) out.0))
              (λ _ _. return-Ends _ (with_nodes out.1.is_ok out.0 _ k)))))
        (λ d k. push_all-IsHonest ns d k)

  verify_head-IsHonest :
      (c : ReconfigurationCheckpoint) → IsHonest c → Ends IsHonest (verify_head env hash plan c)
  unfolding verify_head
  verify_head-IsHonest c h =
      then-Ends
        (call-IsHonest c verify plan.desired.head.node_id
          (some (ask_verify (plan.desired.head ∷ []) plan.desired.head plan.desired.epoch)) "head"
          (inr (refl, refl)) h)
        (λ out k. then-Ends (any-Ends (or_fail out.1.is_ok out.0)) (λ _ _.
          let c1 = record out.0 { new_head_healthy = true } in
          then-Ends (any-Ends (keep plan c1)) (λ _ _. return-Ends c1 k)))

  join_all-IsHonest :
      (ns missing : List String) (c : ReconfigurationCheckpoint)
      → IsHonest c
      → Ends (λ out. IsHonest out.0) (join_all env hash plan ns missing c)
  unfolding join_all join_one
  join_all-IsHonest [] missing c h = return-Ends (c, missing) h
  join_all-IsHonest (n ∷ ns) missing c h =
      then-Ends {P = λ out. IsHonest out.0}
        (if_Ends (contains n c.unavailable_nodes) (λ _. return-Ends (c, true) h)
          (λ _.
            then-Ends (call-IsHonest c join n _ n (inl refl) h)
              (λ out k. return-Ends (out.0, not out.1.is_ok) k)))
        (λ one k. join_all-IsHonest ns (if one.1 then missing ++ n ∷ [] else missing) one.0 k)

  preflight_phase-IsHonest :
      (c : ReconfigurationCheckpoint) → IsHonest c → Ends IsHonest (preflight_phase env hash plan c)
  preflight_phase-IsHonest c h =
      preflight_all-IsHonest (from_keys (node_ids plan.expected ++ node_ids plan.desired))
        c.unavailable_nodes c h

  start_phase-IsHonest :
      (c : ReconfigurationCheckpoint) → IsHonest c → Ends IsHonest (start_phase env hash plan c)
  unfolding start_phase
  start_phase-IsHonest c h = must-IsHonest _ (
      call-IsHonest c start (head_id plan.desired)
        (some (ask_start plan.desired.head plan.desired.epoch)) (head_id plan.desired) (inl refl) h)

  verify_cluster-IsHonest :
      (c : ReconfigurationCheckpoint)
      → IsHonest c
      → Ends (λ out. IsHonest out.0) (verify_cluster env hash plan c)
  unfolding verify_cluster
  verify_cluster-IsHonest c h =
      then-Ends
        (call-IsHonest c verify "cluster"
          (some (ask_verify (nodes plan.desired) plan.desired.head plan.desired.epoch)) "cluster"
          (inl refl) h)
        (λ out k. return-Ends _ k)

  -- The forward phases keep the checkpoint honest, and its reports are those of the result.
  pub forward-IsHonest :
      (c : ReconfigurationCheckpoint)
      → IsHonest c
      → Ends (λ out. IsHonest out.0 × (out.1.reports ≡ out.0.reports)) (forward env hash plan c)
  unfolding forward
  forward-IsHonest c h = then-Ends (preflight_phase-IsHonest c h) (λ c1 h1.
      then-Ends (stop_all-IsHonest (node_ids plan.expected) c1 h1) (λ c2 h2.
        then-Ends (push_all-IsHonest (node_ids plan.desired) c2 h2) (λ c3 h3.
          then-Ends (start_phase-IsHonest c3 h3) (λ c4 h4.
            then-Ends (verify_head-IsHonest c4 h4) (λ c5 h5.
              then-Ends (join_all-IsHonest (worker_ids plan.desired) [] c5 h5) (λ j h6.
                then-Ends (verify_cluster-IsHonest j.0 h6) (λ u h7.
                  return-Ends (u.0, forward_result plan u.0 u.2 (sorted_set (j.1 ++ u.1)))
                    (h7, refl))))))))
