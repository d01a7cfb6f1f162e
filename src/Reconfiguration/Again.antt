-- ===== src/Reconfiguration/Again.antt =====
-- About `_execute` for an operation of which the journal has a result.
use rcm_windows.Reconfiguration.FramedRun.{roll_back-Moves, handle-Moves}
use rcm_windows.Reconfiguration.Framed.{forward-Moves}
use rcm_windows.Reconfiguration.Rollback.{roll_back}
use rcm_windows.Prelude.{
  if◌then◌else◌, conflict_error, String, ◌≡◌, refl, sym, ap, ◌∙◌, subst, inl, inr, Bool, true,
  false, Option, none, some, str_eq, eq_refl,
}
use rcm_windows.Reconfiguration.Types.{
  fingerprint, fresh_checkpoint, ReconfigurationStatus, ReconfigurationPlan, Hasher,
  ReconfigurationResult, ReconfigurationCheckpoint,
}
use rcm_windows.Reconfiguration.Journal.{load}
use rcm_windows.Reconfiguration.Control.{
  bind, end, Environment, World, Ending, done, cancelled_at, phase_failed, raised,
}
use rcm_windows.Reconfiguration.Run.{
  forward, handle, finish, proceed, resume, execute_from, execute,
}
use rcm_windows.Reconfiguration.Recorded.{
  recorded, lookup-store, is_of, raised_no, same_result, StaysOf, StaysOf-IsFrame, after_save,
  keep_cases, finish-Reports, Reports,
}

module _ (env : Environment) (hash : Hasher) (plan : ReconfigurationPlan) where
  -- What `finish` makes of any ending in a world in which the plan is recorded.
  bind-Reports :
      (out : Ending (ReconfigurationCheckpoint × ReconfigurationResult) × World) (f : String)
      (r : ReconfigurationResult)
      → is_of f (recorded env hash plan out.1) ≡ true
      → (bind out (finish env hash plan)).0 ≡ done r
      → Reports f r (recorded env hash plan (bind out (finish env hash plan)).1)
  bind-Reports (done a, w) f r h e = finish-Reports env hash plan a w f r h e
  bind-Reports (cancelled_at c, w) f r h e = absurd cc
  bind-Reports (phase_failed c, w) f r h e = absurd cc
  bind-Reports (raised x, w) f r h e = absurd cc

  proceed-Reports :
      (o : Option ReconfigurationStatus) (c : ReconfigurationCheckpoint) (w : World) (f : String)
      (r : ReconfigurationResult)
      → is_of f (recorded env hash plan w) ≡ true
      → (proceed env hash plan o c w).0 ≡ done r
      → Reports f r (recorded env hash plan (proceed env hash plan o c w).1)
  proceed-Reports none c w f r h e =
      let out = handle env hash plan (forward env hash plan c w) in
      bind-Reports out f r
        (handle-Moves env hash plan (StaysOf env hash plan) (StaysOf-IsFrame env hash plan) w
          (forward env hash plan c w)
          ((forward-Moves env hash plan (StaysOf env hash plan) (StaysOf-IsFrame env hash plan)
              c).moves
            w)
          f h)
        e
  proceed-Reports (some status) c w f r h e =
      bind-Reports (roll_back env hash plan status c w) f r
        ((roll_back-Moves env hash plan (StaysOf env hash plan) (StaysOf-IsFrame env hash plan)
            status c).moves
          w f h)
        e

  resume-Reports :
      (o : Option ReconfigurationResult) (c : ReconfigurationCheckpoint) (w : World) (f : String)
      (r : ReconfigurationResult)
      → recorded env hash plan w ≡ some c
      → str_eq c.plan_fingerprint f ≡ true
      → c.result ≡ o
      → (resume env hash plan o c w).0 ≡ done r
      → Reports f r (recorded env hash plan (resume env hash plan o c w).1)
  resume-Reports (some q) c w f r k h p e = record {
    checkpoint = c;
    saved = k;
    same_plan = h;
    has_result = p ∙ ap some (same_result e);
  }
  resume-Reports none c w f r k h p e =
      proceed-Reports c.rollback_status c w f r (subst (λ x. is_of f x ≡ true) (sym k) h) e

  fresh-Reports :
      (w : World) (r : ReconfigurationResult)
      → recorded env hash plan w ≡ none
      → (execute_from env hash plan none w).0 ≡ done r
      → Reports
          (fingerprint hash plan)
          r
          (recorded env hash plan (execute_from env hash plan none w).1)
  fresh-Reports w r k e =
      let f = fingerprint hash plan in
      let c = fresh_checkpoint f in
      elim (keep_cases env hash plan c w) [
        | inl p ↦ absurd (
            raised_no (
              ap (λ (x : Ending (Unit {0}) × World). (bind x (λ _. proceed env hash plan none c)).0)
                (sym p)
              ∙ e))
        | inr (ok_plan, p) ↦
            subst
              (λ (x : Ending (Unit {0}) × World).
                Reports f r (recorded env hash plan (bind x (λ _. proceed env hash plan none c)).1))
              (sym p)
              (proceed-Reports none c (after_save env hash plan c w) f r
                (subst (λ x. is_of f x ≡ true)
                  (sym (lookup-store plan.operation_id c w.journal.records)) (eq_refl f))
                (ap
                    (λ (x : Ending (Unit {0}) × World).
                      (bind x (λ _. proceed env hash plan none c)).0)
                    (sym p)
                  ∙ e))
      ]

  chosen-Reports :
      (b : Bool) (c : ReconfigurationCheckpoint) (w : World) (r : ReconfigurationResult)
      → recorded env hash plan w ≡ some c
      → str_eq c.plan_fingerprint (fingerprint hash plan) ≡ b
      → let m = if b then resume env hash plan c.result c else end (raised conflict_error) in
        (m w).0 ≡ done r → Reports (fingerprint hash plan) r (recorded env hash plan (m w).1)
  chosen-Reports true c w r k p e = resume-Reports c.result c w (fingerprint hash plan) r k p refl e
  chosen-Reports false c w r k p e = absurd (raised_no e)

  executed-Reports :
      (o : Option ReconfigurationCheckpoint) (w : World) (r : ReconfigurationResult)
      → recorded env hash plan w ≡ o
      → (execute_from env hash plan o w).0 ≡ done r
      → Reports
          (fingerprint hash plan)
          r
          (recorded env hash plan (execute_from env hash plan o w).1)
  executed-Reports none w r k e = fresh-Reports w r k e
  executed-Reports (some c) w r k e =
      chosen-Reports (str_eq c.plan_fingerprint (fingerprint hash plan)) c w r k refl e

  reported_again :
      (o : Option ReconfigurationCheckpoint) (v : World) (r : ReconfigurationResult)
      → Reports (fingerprint hash plan) r o
      → execute_from env hash plan o v ≡ (done r, v)
  reported_again o v r h = rw (h.saved, h.same_plan, h.has_result) refl

-- Once `_execute` has returned a result, another `_execute` of the plan returns the same result and
-- changes nothing: no command is sent and nothing is saved, whatever the nodes would answer then.
pub execute_again :
    (env other : Environment) (hash : Hasher) (plan : ReconfigurationPlan) (w : World)
    (r : ReconfigurationResult)
    → (execute env hash plan w).0 ≡ done r
    → execute other hash plan (execute env hash plan w).1 ≡ (done r, (execute env hash plan w).1)
unfolding execute
execute_again env other hash plan w r e =
    reported_again other hash plan (load plan.operation_id (execute env hash plan w).1.journal)
      (execute env hash plan w).1 r
      (executed-Reports env hash plan (load plan.operation_id w.journal) w r refl e)
