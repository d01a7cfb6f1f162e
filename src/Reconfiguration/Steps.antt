-- ===== src/Reconfiguration/Steps.antt =====
-- What a step of a phase leaves in the checkpoint when it returns.
use rcm_windows.Reconfiguration.Journal.{is_some}
use rcm_windows.Prelude.{
  if◌then◌else◌, contains, contains-append, String, ◌≡◌, refl, subst, Bool, true, false, Option,
  none, some, [], ◌∷◌, ◌++◌, arith, eq_refl,
}
use rcm_windows.Reconfiguration.Types.{
  is_mutation, success, failure, ReconfigurationPhase, ReconfigurationPlan, StepOutcome,
  ReconfigurationCheckpoint,
}
use rcm_windows.Reconfiguration.Phases.{or_fail}
use rcm_windows.Reconfiguration.Control.{
  Action, bind, ◌>>=◌, return, end, keep, fence, ask, check_cancelled, judge, step_key, reported,
  attempt, call, Command, Environment, World, Ending, done, cancelled_at, phase_failed, raised,
}

-- Whenever the action comes to its end, its value has the property.
pub record Ends {ℓ} {A : Type ℓ} (Q : A → Type 0) (m : Action A) : Type ℓ where
  pub ends : (w : World) (a : A) → (m w).0 ≡ done a → Q a

then_value {ℓ κ} :
    {A : Type ℓ} {B : Type κ} (P : A → Type 0) (Q : B → Type 0) (out : Ending A × World)
    (f : A → Action B) (b : B)
    → ((a : A) → out.0 ≡ done a → P a)
    → ((a : A) → P a → Ends Q (f a))
    → (bind out f).0 ≡ done b
    → Q b
then_value P Q (done a, w) f b h k e = (k a (h a refl)).ends w b e
then_value P Q (cancelled_at c, w) f b h k e = absurd cc
then_value P Q (phase_failed c, w) f b h k e = absurd cc
then_value P Q (raised x, w) f b h k e = absurd cc

done_injective {ℓ} : {A : Type ℓ} (a b : A) → ◌≡◌ {A = Ending A} (done a) (done b) → a ≡ b
done_injective a b e = cc

pub then-Ends {ℓ κ} :
    {A : Type ℓ} {B : Type κ} {P : A → Type 0} {Q : B → Type 0} {m : Action A} {f : A → Action B}
    → Ends P m
    → ((a : A) → P a → Ends Q (f a))
    → Ends Q (m >>= f)
then-Ends {P} {Q} {m} {f} h k = record {
  ends = λ w b e. then_value P Q (m w) f b (λ a q. h.ends w a q) k e;
}

abbrev pub Anything {ℓ} : {A : Type ℓ} → A → Type 0
Anything a = Unit

pub any-Ends {ℓ} : {A : Type ℓ} (m : Action A) → Ends Anything m
any-Ends m = record { ends = λ w a e. tt }

pub if_Ends {ℓ} :
    {A : Type ℓ} {Q : A → Type 0} {m n : Action A} (b : Bool)
    → (b ≡ true → Ends Q m)
    → (b ≡ false → Ends Q n)
    → Ends Q (if b then m else n)
if_Ends true h k = h refl
if_Ends false h k = k refl

pub return-Ends {ℓ} : {A : Type ℓ} {Q : A → Type 0} (a : A) → Q a → Ends Q (return a)
return-Ends {Q} a q = record { ends = λ w b e. subst Q (done_injective a b e) q }

pub cancelled-Ends {ℓ} :
    {A : Type ℓ} {Q : A → Type 0} (c : ReconfigurationCheckpoint) → Ends Q (end (cancelled_at c))
cancelled-Ends c = record { ends = λ w a e. absurd cc }

pub map-Ends {ℓ} :
    {A : Type ℓ} {P Q : A → Type 0} {m : Action A} → ((a : A) → P a → Q a) → Ends P m → Ends Q m
map-Ends f h = record { ends = λ w a e. f a (h.ends w a e) }

pub pair-Ends {ℓ} :
    {A : Type ℓ} {P Q : A → Type 0} {m : Action A} → Ends P m → Ends Q m → Ends (λ a. P a × Q a) m
pair-Ends h k = record { ends = λ w a e. (h.ends w a e, k.ends w a e) }

pub or_fail-Ends : (b : Bool) (c : ReconfigurationCheckpoint) → Ends (λ _. b ≡ true) (or_fail b c)
or_fail-Ends true c = record { ends = λ w a e. refl }
or_fail-Ends false c = record { ends = λ w a e. absurd cc }

-- From one checkpoint to a later one: no completed step is forgotten.
pub record Grows (c d : ReconfigurationCheckpoint) : Type 0 where
  pub remembers :
      (k : String) → contains k c.completed_steps ≡ true → contains k d.completed_steps ≡ true

pub Grows-refl : (c : ReconfigurationCheckpoint) → Grows c c
Grows-refl c = record { remembers = λ k h. h }

pub Grows-trans : (c d e : ReconfigurationCheckpoint) → Grows c d → Grows d e → Grows c e
Grows-trans c d e p q = record { remembers = λ k h. q.remembers k (p.remembers k h) }

-- What `_call` returns for a step with this key.
pub record Called (key : String) (c d : ReconfigurationCheckpoint) (o : StepOutcome) : Type 0 where
  pub grows : Grows c d
  pub same_nodes : d.unavailable_nodes ≡ c.unavailable_nodes
  pub completes : o.is_ok ≡ true → contains key d.completed_steps ≡ true

module _ (env : Environment) (plan : ReconfigurationPlan) where
  reported-Called :
      (c : ReconfigurationCheckpoint) (phase : ReconfigurationPhase) (node_id key : String)
      (o : StepOutcome)
      → Called key c (reported env phase node_id key o (record c { inflight_step = some key })) o
  reported-Called c phase node_id key o = record {
    grows = record {
      remembers = λ k h. ground (arith, h, contains-append k c.completed_steps (key ∷ []));
    };
    same_nodes = refl;
    completes =
        λ h. ground (arith, h, contains-append key c.completed_steps (key ∷ []), eq_refl key);
  }

  attempt-Called :
      (c : ReconfigurationCheckpoint) (phase : ReconfigurationPhase) (node_id key : String)
      (action : Option Command)
      → Ends (λ out. Called key c out.0 out.1) (attempt env plan c phase node_id key action)
  unfolding attempt
  attempt-Called c phase node_id key action =
      then-Ends (any-Ends (if is_mutation phase then fence plan.desired.epoch else return tt))
        (λ _ _. then-Ends (any-Ends (keep plan (record c { inflight_step = some key }))) (λ _ _.
          then-Ends (any-Ends (ask env action)) (λ reply _.
            then-Ends (any-Ends (judge env reply)) (λ j _.
              let c2 = reported env phase node_id key j.0 (record c { inflight_step = some key }) in
              then-Ends (any-Ends (keep plan c2)) (λ _ _.
                if_Ends j.1 (λ _. cancelled-Ends c2)
                  (λ _. return-Ends (c2, j.0) (reported-Called c phase node_id key j.0)))))))

  pub call-Called :
      (c : ReconfigurationCheckpoint) (phase : ReconfigurationPhase) (node_id : String)
      (action : Option Command) (suffix : String)
      → Ends
          (λ out. Called (step_key env phase suffix) c out.0 out.1)
          (call env plan c phase node_id action suffix)
  unfolding call
  call-Called c phase node_id action suffix =
      let key = step_key env phase suffix in
      let unknown = failure "step.outcome_unknown" in
      let c1 : ReconfigurationCheckpoint = record c {
        inflight_step = none;
        reports = c.reports ++ record { phase = phase; node_id = node_id; outcome = unknown } ∷ [];
      } in
      then-Ends (any-Ends (check_cancelled env c)) (λ _ _.
        if_Ends (contains key c.completed_steps)
          (λ e.
            return-Ends (c, success)
              (record { grows = Grows-refl c; same_nodes = refl; completes = λ _. e }))
          (λ _.
            if_Ends (is_some c.inflight_step)
              (λ _. then-Ends (any-Ends (keep plan c1)) (λ _ _.
                return-Ends (c1, unknown)
                  (record {
                    grows = record { remembers = λ k h. h };
                    same_nodes = refl;
                    completes = λ e. absurd cc;
                  })))
              (λ _. attempt-Called c phase node_id key action)))
