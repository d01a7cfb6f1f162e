-- ===== src/Reconfiguration/Success.antt =====
-- What the forward phases have done when they find the reconfiguration successful.
use rcm_windows.Prelude.{
  if◌then◌else◌, Bool-cases, All, All-map, contains, contains-append, String, ◌≡◌, refl, ◌∙◌, inl,
  inr, true, false, not, ◌||◌, List, [], ◌∷◌, ◌++◌, arith, str_eq, eq_refl,
}
use rcm_windows.Reconfiguration.Types.{
  head_id, ReconfigurationPhase, ReconfigurationPlan, Hasher, StepOutcome,
  ReconfigurationCheckpoint, stop, push,
}
use rcm_windows.Reconfiguration.Control.{Action, ◌>>=◌, ◌>>◌, return, step_key, Environment}
use rcm_windows.Reconfiguration.Phases.{or_fail, stop_one, stop_all, push_one, push_all}
use rcm_windows.Reconfiguration.Steps.{
  then-Ends, if_Ends, return-Ends, map-Ends, or_fail-Ends, Grows-refl, Grows-trans, call-Called,
  Ends, Grows, Called,
}

abbrev pub Has : ReconfigurationCheckpoint → String → Type 0
Has c key = contains key c.completed_steps ≡ true

-- A later checkpoint in which the same nodes are unavailable.
pub record Advances (c d : ReconfigurationCheckpoint) : Type 0 where
  pub grows : Grows c d
  pub same_nodes : d.unavailable_nodes ≡ c.unavailable_nodes

pub Advances-refl : (c : ReconfigurationCheckpoint) → Advances c c
Advances-refl c = record { grows = Grows-refl c; same_nodes = refl }

pub Advances-trans :
    (c d e : ReconfigurationCheckpoint) → Advances c d → Advances d e → Advances c e
Advances-trans c d e p q = record {
  grows = Grows-trans c d e p.grows q.grows;
  same_nodes = q.same_nodes ∙ p.same_nodes;
}

module _ (env : Environment) (hash : Hasher) (plan : ReconfigurationPlan) where
  -- A step that must not fail.
  pub must :
      (key : String) (c : ReconfigurationCheckpoint)
      (m : Action (ReconfigurationCheckpoint × StepOutcome))
      → Ends (λ out. Called key c out.0 out.1) m
      → Ends (λ d. Advances c d × Has d key) (do out ← m; or_fail out.1.is_ok out.0; return out.0)
  must key c m h = then-Ends h (λ out called.
      then-Ends (or_fail-Ends out.1.is_ok out.0) (λ _ passed.
        return-Ends out.0 (
          record { grows = called.grows; same_nodes = called.same_nodes },
          called.completes passed,
        )))

  abbrev pub AllHave : ReconfigurationPhase → List String → ReconfigurationCheckpoint → Type 0
  AllHave phase ns c = All (λ n. Has c (step_key env phase n)) ns

  pub all_grow :
      (phase : ReconfigurationPhase) (ns : List String) (c d : ReconfigurationCheckpoint)
      → Grows c d
      → AllHave phase ns c
      → AllHave phase ns d
  all_grow phase ns c d g =
      All-map (λ n. Has c (step_key env phase n)) (λ n. Has d (step_key env phase n)) ns
        (λ n. g.remembers (step_key env phase n))

  pub stop_all-Ends :
      (ns : List String) (c : ReconfigurationCheckpoint)
      → All (λ n. contains n c.unavailable_nodes ≡ false) ns
      → Ends (λ d. Advances c d × AllHave stop ns d) (stop_all env hash plan ns c)
  unfolding stop_all stop_one
  stop_all-Ends [] c h = return-Ends c (Advances-refl c, tt)
  stop_all-Ends (n ∷ ns) c h =
      then-Ends {P = λ d. Advances c d × Has d (step_key env stop n)}
        (if_Ends (contains n c.unavailable_nodes) (λ e. absurd cc)
          (λ _. must (step_key env stop n) c _ (call-Called env plan c stop n _ n)))
        (λ c1 p.
          map-Ends
            (λ d q.
              (Advances-trans c c1 d p.0 q.0, (q.0.grows.remembers (step_key env stop n) p.1, q.1)))
            (stop_all-Ends ns c1 (
              All-map (λ n. contains n c.unavailable_nodes ≡ false)
                (λ n. contains n c1.unavailable_nodes ≡ false) ns
                (λ k e. ground (arith, e, p.0.same_nodes)) h.1)))

  -- What a push to the nodes leaves. A worker that refuses becomes unavailable, the head does not.
  pub record Pushed (ns : List String) (c d : ReconfigurationCheckpoint) : Type 0 where
    pub grows : Grows c d
    pub each :
        All
          (λ n.
            (contains (step_key env push n) d.completed_steps || contains n d.unavailable_nodes)
            ≡ true)
          ns
    pub keeps_absent :
        (k : String) → contains k c.unavailable_nodes ≡ true → contains k d.unavailable_nodes ≡ true
    pub head_stays :
        contains (head_id plan.desired) c.unavailable_nodes ≡ false
        → contains (head_id plan.desired) d.unavailable_nodes ≡ false

  after_push : String → ReconfigurationCheckpoint × StepOutcome → ReconfigurationCheckpoint
  after_push n out =
      if out.1.is_ok
      then out.0
      else record out.0 { unavailable_nodes = out.0.unavailable_nodes ++ n ∷ [] }

  Pushed-one :
      (n : String) (c : ReconfigurationCheckpoint) (out : ReconfigurationCheckpoint × StepOutcome)
      → Called (step_key env push n) c out.0 out.1
      → (out.1.is_ok || not (str_eq n (head_id plan.desired))) ≡ true
      → Pushed (n ∷ []) c (after_push n out)
  unfolding after_push
  Pushed-one n c out called passed = elim (Bool-cases out.1.is_ok) [
    | inl e ↦
        rw (e, if◌then◌else◌)
          (record {
            grows = called.grows;
            each = (ground (arith, called.completes e), tt);
            keeps_absent = λ k h. ground (arith, h, called.same_nodes);
            head_stays = λ h. ground (arith, h, called.same_nodes);
          })
    | inr e ↦
        let more = λ (k : String). contains-append k out.0.unavailable_nodes (n ∷ []) in
        rw (e, if◌then◌else◌)
          (record {
            grows = record { remembers = called.grows.remembers };
            each = (ground (arith, more n, eq_refl n), tt);
            keeps_absent = λ k h. ground (arith, h, called.same_nodes, more k);
            head_stays =
                λ h. ground (arith, h, called.same_nodes, more (head_id plan.desired), passed, e);
          })
  ]

  push_one-Ends :
      (n : String) (c : ReconfigurationCheckpoint)
      → Ends (Pushed (n ∷ []) c) (push_one env hash plan n c)
  unfolding push_one after_push
  push_one-Ends n c =
      if_Ends (contains n c.unavailable_nodes)
        (λ e. return-Ends c (record {
          grows = Grows-refl c;
          each = (ground (arith, e), tt);
          keeps_absent = λ k h. h;
          head_stays = λ h. h;
        }))
        (λ _. then-Ends (call-Called env plan c push n _ n) (λ out called.
          then-Ends (or_fail-Ends (out.1.is_ok || not (str_eq n (head_id plan.desired))) out.0)
            (λ _ passed. return-Ends (after_push n out) (Pushed-one n c out called passed))))

  Pushed-both :
      (n : String) (ns : List String) (c d e : ReconfigurationCheckpoint)
      → Pushed (n ∷ []) c d
      → Pushed ns d e
      → Pushed (n ∷ ns) c e
  Pushed-both n ns c d e p q = record {
    grows = Grows-trans c d e p.grows q.grows;
    each = (
      ground (arith, p.each.0, q.grows.remembers (step_key env push n), q.keeps_absent n),
      q.each,
    );
    keeps_absent = λ k h. q.keeps_absent k (p.keeps_absent k h);
    head_stays = λ h. q.head_stays (p.head_stays h);
  }

  pub push_all-Ends :
      (ns : List String) (c : ReconfigurationCheckpoint)
      → Ends (Pushed ns c) (push_all env hash plan ns c)
  unfolding push_all
  push_all-Ends [] c =
      return-Ends c
        (record { grows = Grows-refl c; each = tt; keeps_absent = λ k h. h; head_stays = λ h. h })
  push_all-Ends (n ∷ ns) c =
      then-Ends (push_one-Ends n c)
        (λ d p. map-Ends (λ e q. Pushed-both n ns c d e p q) (push_all-Ends ns d))
