-- ===== src/Cleanup/Evidence.antt =====
-- src/rcm/cleanup.py: the evidence behind the candidates of a facade, over its calls.
use rcm_windows.Cleanup.Force.{Guarded}
use rcm_windows.Prelude.{
  ltb, if◌then◌else◌, length, All, Result, ok, err, ℕ, ◌+◌, ◌-◌, String, ◌≡◌, refl, sym, ap, subst,
  ◌⊎◌, inl, inr, Bool, true, false, not, Option, none, some, List, [], ◌∷◌, ◌++◌, map,
}
use rcm_windows.Cleanup.Types.{ProcessIdentity, ProcessObservation, CleanupRule, CleanupPolicy}
use rcm_windows.Cleanup.Facade.{
  logged, distinct_numbers, is_own, candidate_for, scan_item, first_rule, rule_for, scan_loop,
  scan_timed, scan_observed, scan, CleanupCandidate, Event, Host, World, Facade, scanned,
  clock_read, wall_read,
}
use rcm_windows.Cleanup.Rules.{first_rule-IsFirst, IsFirst}

-- A process of the configured owner and session.
abbrev pub IsOwn : CleanupPolicy → ProcessIdentity → Type 0
IsOwn policy p = is_own policy p ≡ true

-- An observation of a list.
abbrev pub Among : ProcessObservation → List ProcessObservation → Type 0
Among o [] = ⊥
Among o (x ∷ xs) = (x ≡ o) ⊎ Among o xs

module _ (casefold : String → String) where
  -- In the log, a scan returned an observation and read the clocks, and the candidate is of this
  -- observation: the first rule of the policy that matches it, at the age that it then had, gives the
  -- candidate its name.
  pub record Backed (policy : CleanupPolicy) (events : List Event) (c : CleanupCandidate)
      : Type 0 where
    pub observation : ProcessObservation
    pub rule : CleanupRule
    pub epoch : ℕ
    pub limit : ℕ
    pub answer : List ProcessObservation
    pub newer : List Event
    pub older : List Event
    pub in_log :
        events
        ≡ newer
          ++ wall_read (some epoch)
            ∷ clock_read c.scanned_monotonic
            ∷ scanned limit (ok answer)
            ∷ older
    pub observed : Among observation answer
    pub first :
        IsFirst casefold policy.rules observation (epoch - observation.identity.create_time) rule
    pub same_identities : c.identity ≡ observation.identity
    pub same_command : c.command_fingerprint ≡ observation.command_fingerprint
    pub same_rule : c.rule_id ≡ rule.rule_id
    pub own : IsOwn policy observation.identity

  pub longer-Backed :
      (policy : CleanupPolicy) (c : CleanupCandidate) (e : Event) (events : List Event)
      → Backed policy events c
      → Backed policy (e ∷ events) c
  longer-Backed policy c e events h = record {
    observation = h.observation;
    rule = h.rule;
    epoch = h.epoch;
    limit = h.limit;
    answer = h.answer;
    newer = e ∷ h.newer;
    older = h.older;
    in_log = ap (λ es. e ∷ es) h.in_log;
    observed = h.observed;
    first = h.first;
    same_identities = h.same_identities;
    same_command = h.same_command;
    same_rule = h.same_rule;
    own = h.own;
  }

  abbrev pub AllBacked : CleanupPolicy → List Event → Facade → Type 0
  AllBacked policy events f = (f.policy ≡ policy) × All (Backed policy events) f.issued

  own_rule :
      (b : Bool) (x : Option CleanupRule) (r : CleanupRule)
      → (if b then x else none) ≡ some r
      → (x ≡ some r) × (b ≡ true)
  own_rule true x r e = (e, refl)
  own_rule false x r e = absurd (cc e)

  module _ (policy : CleanupPolicy) (monotonic epoch limit : ℕ) (answer : List ProcessObservation)
      (older : List Event) where
    -- The log after the scan has read the clocks.
    abbrev scanned_log : List Event
    scanned_log = wall_read (some epoch) ∷ clock_read monotonic ∷ scanned limit (ok answer) ∷ older

    Backed-by :
        (ticket object : ℕ) (o : ProcessObservation) (r : CleanupRule)
        → Among o answer
        → rule_for casefold policy epoch o ≡ some r
        → Backed policy scanned_log (candidate_for r o monotonic ticket object)
    Backed-by ticket object o r m e =
        let (h, k) =
          own_rule (is_own policy o.identity)
            (first_rule casefold policy.rules o (epoch - o.identity.create_time)) r e in
        record {
          observation = o;
          rule = r;
          epoch = epoch;
          limit = limit;
          answer = answer;
          newer = [];
          older = older;
          in_log = refl;
          observed = m;
          first = first_rule-IsFirst casefold policy.rules o (epoch - o.identity.create_time) r h;
          same_identities = refl;
          same_command = refl;
          same_rule = refl;
          own = k;
        }

    item_AllBacked :
        (o : ProcessObservation) (go : Facade × World → List CleanupCandidate × Facade × World)
        (f : Facade) (w : World) (x : Option CleanupRule)
        → Among o answer
        → rule_for casefold f.policy epoch o ≡ x
        → AllBacked policy scanned_log f
        → ((g : Facade) (v : World)
            → AllBacked policy scanned_log g
            → AllBacked policy scanned_log (go (g, v)).1)
        → AllBacked policy scanned_log (scan_item x o monotonic go (f, w)).1
    item_AllBacked o go f w none m e h k = k f w h
    item_AllBacked o go f w (some r) m e h k = k _ _ (
      h.0,
      (
        Backed-by f.next_ticket w.objects o r m
            (subst (λ q. rule_for casefold q epoch o ≡ some r) h.0 e),
        h.1,
      ),
    )

    loop_AllBacked :
        (observed : List ProcessObservation) (f : Facade) (w : World)
        → ((o : ProcessObservation) → Among o observed → Among o answer)
        → AllBacked policy scanned_log f
        → AllBacked policy scanned_log (scan_loop casefold monotonic epoch observed (f, w)).1
    unfolding scan_loop
    loop_AllBacked [] f w m h = h
    loop_AllBacked (o ∷ rest) f w m h =
        item_AllBacked o (scan_loop casefold monotonic epoch rest) f w
          (rule_for casefold f.policy epoch o) (m o (inl refl)) refl h
          (λ g v k. loop_AllBacked rest g v (λ p q. m p (inr q)) k)

  item_log :
      (monotonic : ℕ) (o : ProcessObservation)
      (go : Facade × World → List CleanupCandidate × Facade × World) (f : Facade) (w : World)
      (x : Option CleanupRule)
      → ((g : Facade) (v : World) → (go (g, v)).2.events ≡ v.events)
      → (scan_item x o monotonic go (f, w)).2.events ≡ w.events
  item_log monotonic o go f w none h = h f w
  item_log monotonic o go f w (some r) h = h _ _

  loop_log :
      (monotonic epoch : ℕ) (observed : List ProcessObservation) (f : Facade) (w : World)
      → (scan_loop casefold monotonic epoch observed (f, w)).2.events ≡ w.events
  unfolding scan_loop
  loop_log monotonic epoch [] f w = refl
  loop_log monotonic epoch (o ∷ rest) f w =
      item_log monotonic o (scan_loop casefold monotonic epoch rest) f w
        (rule_for casefold f.policy epoch o) (λ g v. loop_log monotonic epoch rest g v)

  -- The facade and the log of a good history.
  abbrev pub Good : CleanupPolicy → Facade → World → Type 0
  Good policy f w = AllBacked policy w.events f × Guarded (IsOwn policy) w.events

  abbrev pub GoodEnd : {A : Type 0} → CleanupPolicy → A × Facade × World → Type 0
  GoodEnd policy out = Good policy out.1 out.2

  module _ (host : Host) (policy : CleanupPolicy) where
    either_end :
        {A : Type 0} (b : Bool) (x y : A × Facade × World)
        → GoodEnd policy x
        → GoodEnd policy y
        → GoodEnd policy (if b then x else y)
    either_end true x y h k = h
    either_end false x y h k = k

    timed-Good :
        (observed : List ProcessObservation) (limit monotonic objects : ℕ) (older : List Event)
        (now : Option ℕ) (f : Facade)
        → f.policy ≡ policy
        → f.issued ≡ []
        → Guarded (IsOwn policy) older
        → GoodEnd policy (
            scan_timed casefold observed monotonic now f (record {
              events = wall_read now ∷ clock_read monotonic ∷ scanned limit (ok observed) ∷ older;
              objects = objects;
            }))
    timed-Good observed limit monotonic objects older none f same nothing g = ((same, tt), g)
    timed-Good observed limit monotonic objects older (some epoch) f same nothing g =
        let w : World = record {
          events =
              wall_read (some epoch) ∷ clock_read monotonic ∷ scanned limit (ok observed) ∷ older;
          objects = objects;
        } in
        let read = sym (loop_log monotonic epoch observed f w) in
        (
          subst (λ es. AllBacked policy es (scan_loop casefold monotonic epoch observed (f, w)).1)
              read
              (loop_AllBacked policy monotonic epoch limit observed older observed f w (λ o m. m)
                (same, subst (All (Backed policy w.events)) (sym nothing) tt)),
          subst (Guarded (IsOwn policy)) read g,
        )

    observed-Good :
        (answer : Result (List ProcessObservation)) (limit : ℕ) (f : Facade) (w : World)
        → f.policy ≡ policy
        → f.issued ≡ []
        → Guarded (IsOwn policy) w.events
        → GoodEnd policy (scan_observed casefold host answer f (logged (scanned limit answer) w))
    observed-Good (err e) limit f w same nothing g =
        ((same, subst (All (Backed policy _)) (sym nothing) tt), g)
    observed-Good (ok observed) limit f w same nothing g =
        let kept : AllBacked policy (scanned limit (ok observed) ∷ w.events) f = (
          same,
          subst (All (Backed policy (scanned limit (ok observed) ∷ w.events))) (sym nothing) tt,
        ) in
        either_end (ltb f.policy.max_processes (length observed)) _ _ (kept, g)
          (either_end
            (not (distinct_numbers (map (λ (o : ProcessObservation). o.identity.pid) observed))) _ _
            (kept, g) (timed-Good observed limit _ w.objects w.events _ f same nothing g))

    pub scan-Good :
        (f : Facade) (w : World) → Good policy f w → GoodEnd policy (scan casefold host f w)
    unfolding scan
    scan-Good f w h =
        observed-Good (host.scan w.events (f.policy.max_processes + 1)) (f.policy.max_processes + 1)
          (record f { issued = [] }) w h.0.0 refl h.1
