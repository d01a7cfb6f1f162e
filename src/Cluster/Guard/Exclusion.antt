-- ===== src/Cluster/Guard/Exclusion.antt =====
-- Calls on `MaintenanceGuard` and on its leases in any order, and the invariant of the guard.
use rcm_windows.Core.Types.{idle}
use rcm_windows.Prelude.{
  ◌==◌, if◌then◌else◌, ok, ℕ, ◌<◌, String, ◌≡◌, refl, sym, ◌∙◌, Bool, true, false, not, ◌||◌,
  Option, none, some, List, [], ◌∷◌, arith, str_eq,
}
use rcm_windows.Cluster.Types.{safe_for_maintenance, BusyAssessment}
use rcm_windows.Cluster.Guard.{
  update, new_guard, is_active, issue, is_safe_token, acquire_locked, acquire, holds, release,
  claim, release_claim, MaintenanceLease, Guard,
}

abbrev pub HeldBy : Option MaintenanceLease → ℕ → Type 0
HeldBy none i = ⊥
HeldBy (some l) i = l.token ≡ i

pub record IsExclusive (g : Guard) : Type 0 where
  -- An active token belongs to the lease that the guard holds, and was issued.
  pub owned : (i : ℕ) → (g.tokens i).active ≡ true → HeldBy g.lease i × (i < g.issued)
  -- The lease that the guard holds is active.
  pub live : (l : MaintenanceLease) → g.lease ≡ some l → (g.tokens l.token).active ≡ true
  -- Only an active lease is claimed.
  pub claimed : (i : ℕ) → (g.tokens i).in_use ≡ true → (g.tokens i).active ≡ true

new_guard-IsExclusive : IsExclusive new_guard
unfolding new_guard
new_guard-IsExclusive = record {
  owned = λ i e. absurd (cc);
  live = λ l e. absurd (cc);
  claimed = λ i e. cc;
}

if_IsExclusive :
    {A : Type 0} (b : Bool) (x y : A × Guard)
    → (b ≡ true → IsExclusive x.1)
    → (b ≡ false → IsExclusive y.1)
    → IsExclusive (if b then x else y).1
if_IsExclusive true x y hx hy = hx refl
if_IsExclusive false x y hx hy = hy refl

issue-IsExclusive :
    (request_id : String) (epoch : ℕ) (g : Guard)
    → g.lease ≡ none
    → IsExclusive g
    → IsExclusive (issue request_id epoch g).1
issue-IsExclusive request_id epoch g free v = record {
  owned = λ i. ground (arith, free, v.owned i);
  live = λ l e. ground (arith, e);
  claimed = λ i. ground (arith, v.claimed i);
}

acquire_locked-IsExclusive :
    (o : Option MaintenanceLease) (request_id : String) (a : BusyAssessment) (epoch : ℕ) (g : Guard)
    → g.lease ≡ o
    → IsExclusive g
    → IsExclusive (acquire_locked o request_id a epoch g).1
acquire_locked-IsExclusive none request_id a epoch g e v =
    if_IsExclusive (safe_for_maintenance a) _ _ (λ _. issue-IsExclusive request_id epoch g e v)
      (λ _. v)
acquire_locked-IsExclusive (some l) request_id a epoch g e v =
    if_IsExclusive (str_eq l.request_id request_id) _ _ (λ _. v) (λ _. v)

acquire-IsExclusive :
    (request_id : String) (a : BusyAssessment) (epoch : ℕ) (g : Guard)
    → IsExclusive g
    → IsExclusive (acquire request_id a epoch g).1
unfolding acquire
acquire-IsExclusive request_id a epoch g v =
    if_IsExclusive (not (is_safe_token request_id)) _ _ (λ _. v)
      λ _.
        if_IsExclusive (not (a.epoch == epoch)) _ _ (λ _. v)
          λ _. acquire_locked-IsExclusive g.lease request_id a epoch g refl v

-- Two tokens that the guard's lease has are one.
held_once :
    (o : Option MaintenanceLease) (l : MaintenanceLease) (i : ℕ)
    → holds o l ≡ true
    → HeldBy o i
    → i ≡ l.token
held_once none l i e h = absurd h
held_once (some k) l i e h = ground (arith, e, h)

released-IsExclusive :
    (l : MaintenanceLease) (g : Guard)
    → holds g.lease l ≡ true
    → (g.tokens l.token).in_use ≡ false
    → IsExclusive g
    → IsExclusive (record g {
      lease = none;
      tokens = update g.tokens l.token (record (g.tokens l.token) { active = false });
    })
released-IsExclusive l g held free v = record {
  owned = λ i. ground (arith, v.owned i, held_once g.lease l i held);
  live = λ k e. absurd (cc);
  claimed = λ i. ground (arith, v.claimed i, free);
}

release-IsExclusive :
    (l : MaintenanceLease) (g : Guard) → IsExclusive g → IsExclusive (release l g).1
unfolding release
release-IsExclusive l g v =
    if_IsExclusive (not (is_active g l)) _ _ (λ _. v)
      λ _.
        if_IsExclusive (not (holds g.lease l)) _ _ (λ _. v)
          λ e.
            if_IsExclusive (g.tokens l.token).in_use _ _ (λ _. v)
              λ f. released-IsExclusive l g (ground (arith, e)) f v

claimed-IsExclusive :
    (l : MaintenanceLease) (g : Guard)
    → is_active g l ≡ true
    → IsExclusive g
    → IsExclusive (record g {
      tokens = update g.tokens l.token (record (g.tokens l.token) { in_use = true });
    })
claimed-IsExclusive l g e v = record {
  owned = λ i. ground (arith, v.owned i);
  live = λ k. ground (arith, v.live k);
  claimed = λ i. ground (arith, v.claimed i, e);
}

claim-IsExclusive : (l : MaintenanceLease) (g : Guard) → IsExclusive g → IsExclusive (claim l g).1
unfolding claim
claim-IsExclusive l g v =
    if_IsExclusive (not (is_active g l) || (g.tokens l.token).in_use) _ _ (λ _. v)
      λ e. claimed-IsExclusive l g (ground (arith, e)) v

release_claim-IsExclusive :
    (l : MaintenanceLease) (g : Guard) → IsExclusive g → IsExclusive (release_claim l g)
unfolding release_claim
release_claim-IsExclusive l g v = record {
  owned = λ i. ground (arith, v.owned i);
  live = λ h. ground (arith, v.live h);
  claimed = λ i. ground (arith, v.claimed i);
}

-- A call on the guard or on a lease.
pub data Call : Type 0 where
  acquires : String → BusyAssessment → ℕ → Call
  releases claims releases_claim : MaintenanceLease → Call

unfoldable pub step : Guard → Call → Guard
step g (acquires request_id a epoch) = (acquire request_id a epoch g).1
step g (releases l) = (release l g).1
step g (claims l) = (claim l g).1
step g (releases_claim l) = release_claim l g

unfoldable pub run : Guard → List Call → Guard
run g [] = g
run g (c ∷ cs) = run (step g c) cs

step-IsExclusive : (g : Guard) (c : Call) → IsExclusive g → IsExclusive (step g c)
unfolding step
step-IsExclusive g (acquires request_id a epoch) v = acquire-IsExclusive request_id a epoch g v
step-IsExclusive g (releases l) v = release-IsExclusive l g v
step-IsExclusive g (claims l) v = claim-IsExclusive l g v
step-IsExclusive g (releases_claim l) v = release_claim-IsExclusive l g v

run-IsExclusive : (g : Guard) (cs : List Call) → IsExclusive g → IsExclusive (run g cs)
unfolding run
run-IsExclusive g [] v = v
run-IsExclusive g (c ∷ cs) v = run-IsExclusive (step g c) cs (step-IsExclusive g c v)

holds_of_HeldBy :
    (o : Option MaintenanceLease) (l : MaintenanceLease) → HeldBy o l.token → holds o l ≡ true
holds_of_HeldBy none l h = absurd h
holds_of_HeldBy (some k) l h = ground (arith, h)

one_holder : (o : Option MaintenanceLease) (i j : ℕ) → HeldBy o i → HeldBy o j → i ≡ j
one_holder none i j h k = absurd h
one_holder (some l) i j h k = sym h ∙ k

-- After any calls on a new guard, by any holders of leases new and old: a lease in use is still
-- active, and two leases that are both active are one object, which the guard holds, and no other
-- is in use.
pub one_active_lease :
    (cs : List Call)
    → let g = run new_guard cs in
      ((i : ℕ) → (g.tokens i).in_use ≡ true → (g.tokens i).active ≡ true)
      × ((k l : MaintenanceLease)
          → is_active g k ≡ true
          → is_active g l ≡ true
          → (k.token ≡ l.token)
            × (holds g.lease l ≡ true)
            × ((i : ℕ) → (g.tokens i).in_use ≡ true → i ≡ l.token))
one_active_lease cs =
    let g = run new_guard cs in
    let v = run-IsExclusive new_guard cs new_guard-IsExclusive in
    (
      v.claimed,
      λ k l ek el.
          let held = (v.owned l.token el).0 in
          (
            one_holder g.lease k.token l.token (v.owned k.token ek).0 held,
            holds_of_HeldBy g.lease l held,
            λ i used. one_holder g.lease i l.token (v.owned i (v.claimed i used)).0 held,
          ),
    )

-- A lease is issued only on an assessment of an idle cluster at the expected epoch, and while no other
-- lease is held.
acquire-new :
    (request_id : String) (a : BusyAssessment) (epoch : ℕ) (g : Guard) (l : MaintenanceLease)
    → g.lease ≡ none
    → (acquire request_id a epoch g).0 ≡ ok l
    → (a.state ≡ idle)
      × (a.epoch ≡ epoch)
      × (l.epoch ≡ epoch)
      × (l.request_id ≡ request_id)
      × (is_active (acquire request_id a epoch g).1 l ≡ true)
unfolding acquire
acquire-new request_id a epoch g l free e = ground (arith, free, e)
