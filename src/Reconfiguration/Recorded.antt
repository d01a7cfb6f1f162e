-- ===== src/Reconfiguration/Recorded.antt =====
-- The checkpoint that the journal has of an operation, and that the reconfigurator keeps it one of the
-- same plan.
use rcm_windows.Prelude.{
  Bool-cases, conflict_error, String, ◌≡◌, refl, sym, ap, ◌∙◌, subst, ◌⊎◌, inl, inr, Bool, true,
  false, Option, none, some, List, [], ◌∷◌, arith, str_eq, eq_iff, eq_refl,
}
use rcm_windows.Reconfiguration.Types.{
  ReconfigurationPlan, Hasher, ReconfigurationResult, ReconfigurationCheckpoint,
}
use rcm_windows.Reconfiguration.Journal.{
  lookup, store, advance_epoch, load, has_other_plan, saved_in, save,
}
use rcm_windows.Reconfiguration.Control.{
  Action, bind, return, keep, fence, read_token, ask, Event, Environment, World, Ending, done,
  cancelled_at, phase_failed, raised,
}
use rcm_windows.Reconfiguration.Run.{finish}
use rcm_windows.Reconfiguration.Frame.{IsFrame}

pub lookup-store :
    (k : String) (c : ReconfigurationCheckpoint) (rs : List (String × ReconfigurationCheckpoint))
    → lookup k (store k c rs) ≡ some c
lookup-store k c [] = ground (arith, eq_refl k)
lookup-store k c ((j, d) ∷ rs) = ground (arith, lookup-store k c rs, eq_refl k)

-- The journal's checkpoint, if it is one of the plan with this fingerprint.
abbrev pub is_of : String → Option ReconfigurationCheckpoint → Bool
is_of f none = false
is_of f (some c) = str_eq c.plan_fingerprint f

-- The journal has this result of the plan.
pub record Reports (f : String) (r : ReconfigurationResult) (o : Option ReconfigurationCheckpoint)
    : Type 0 where
  pub checkpoint : ReconfigurationCheckpoint
  pub saved : o ≡ some checkpoint
  pub same_plan : str_eq checkpoint.plan_fingerprint f ≡ true
  pub has_result : checkpoint.result ≡ some r

bind_world {ℓ κ} :
    {A : Type ℓ} {B : Type κ} (out : Ending A × World) (f : A → Action B) (b : B)
    → (bind out f).0 ≡ done b
    → (a : A) × (bind out f ≡ f a out.1)
bind_world (done a, w) f b e = (a, refl)
bind_world (cancelled_at c, w) f b e = absurd cc
bind_world (phase_failed c, w) f b e = absurd cc
bind_world (raised x, w) f b e = absurd cc

pub raised_no :
    {r : ReconfigurationResult}
    → ◌≡◌ {A = Ending ReconfigurationResult} (raised conflict_error) (done r)
    → ⊥
raised_no e = cc

pub same_result :
    {q r : ReconfigurationResult} → ◌≡◌ {A = Ending ReconfigurationResult} (done q) (done r) → q ≡ r
same_result e = cc

module _ (env : Environment) (hash : Hasher) (plan : ReconfigurationPlan) where
  abbrev pub recorded : World → Option ReconfigurationCheckpoint
  recorded w = load plan.operation_id w.journal

  abbrev pub StaysOf : World → World → Type 0
  StaysOf w v = (f : String) → is_of f (recorded w) ≡ true → is_of f (recorded v) ≡ true

  kept_of :
      (o : Option ReconfigurationCheckpoint) (c : ReconfigurationCheckpoint) (f : String)
      → is_of f o ≡ true
      → has_other_plan o c.plan_fingerprint ≡ false
      → str_eq c.plan_fingerprint f ≡ true
  kept_of none c f h k = absurd cc
  kept_of (some d) c f h k = ground (
    arith,
    h,
    k,
    eq_iff d.plan_fingerprint f,
    eq_iff d.plan_fingerprint c.plan_fingerprint,
    eq_iff c.plan_fingerprint f,
  )

  keep-StaysOf : (c : ReconfigurationCheckpoint) (w : World) → StaysOf w (keep plan c w).1
  unfolding keep save
  keep-StaysOf c w f h = elim (Bool-cases (has_other_plan (recorded w) c.plan_fingerprint)) [
    | inl e ↦ rw (e, h) refl
    | inr e ↦
        rw (e, lookup-store plan.operation_id c w.journal.records) (kept_of (recorded w) c f h e)
  ]

  pub StaysOf-IsFrame : IsFrame env plan StaysOf
  unfolding fence advance_epoch read_token ask
  StaysOf-IsFrame = record {
    stays = λ w f h. h;
    follows = λ p q f h. q f (p f h);
    keeps = keep-StaysOf;
    fences = λ n w h f k. ground (arith, k);
    reads = λ w f h. h;
    asks = λ o w f h. ground (arith, h);
  }

  abbrev pub after_save : ReconfigurationCheckpoint → World → World
  after_save c w = record {
    journal = saved_in plan.operation_id c w.journal;
    trace = Event.saved c ∷ w.trace;
  }

  pub keep_cases :
      (c : ReconfigurationCheckpoint) (w : World)
      → (keep plan c w ≡ (raised conflict_error, w))
        ⊎ ((has_other_plan (recorded w) c.plan_fingerprint ≡ false)
            × (keep plan c w ≡ (done tt, after_save c w)))
  unfolding keep save
  keep_cases c w = elim (Bool-cases (has_other_plan (recorded w) c.plan_fingerprint)) [
    | inl e ↦ inl (rw e refl)
    | inr e ↦ inr (e, rw e refl)
  ]

  Reports-result :
      (c : ReconfigurationCheckpoint) (q r : ReconfigurationResult) (w : World) (f : String)
      → is_of f (recorded w) ≡ true
      → has_other_plan (recorded w) c.plan_fingerprint ≡ false
      → q ≡ r
      → Reports f r (recorded (after_save (record c { result = some q }) w))
  Reports-result c q r w f h e same = record {
    checkpoint = record c { result = some q };
    saved = lookup-store plan.operation_id (record c { result = some q }) w.journal.records;
    same_plan = kept_of (recorded w) c f h e;
    has_result = ap some same;
  }

  pub finish-Reports :
      (out : ReconfigurationCheckpoint × ReconfigurationResult) (w : World) (f : String)
      (r : ReconfigurationResult)
      → is_of f (recorded w) ≡ true
      → (finish env hash plan out w).0 ≡ done r
      → Reports f r (recorded (finish env hash plan out w).1)
  unfolding finish
  finish-Reports (c, q) w f r h e = elim (keep_cases (record c { result = some q }) w) [
    | inl k ↦
        absurd (
          raised_no
            (ap (λ (x : Ending (Unit {0}) × World). (bind x (λ _. return q)).0) (sym k) ∙ e))
    | inr (ok_plan, k) ↦
        subst (λ (x : Ending (Unit {0}) × World). Reports f r (recorded (bind x (λ _. return q)).1))
          (sym k)
          (Reports-result c q r w f h ok_plan (
            same_result
              (ap (λ (x : Ending (Unit {0}) × World). (bind x (λ _. return q)).0) (sym k) ∙ e)))
  ]
