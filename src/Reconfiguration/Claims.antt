-- ===== src/Reconfiguration/Claims.antt =====
-- What a run leaves of the claims that it takes, and of the journal's epoch.
use rcm_windows.Cluster.Guard.{
  claim as claim_lease, is_active, release_claim, MaintenanceLease, Guard,
}
use rcm_windows.Reconfiguration.Types.{ReconfigurationPlan, Hasher, ReconfigurationResult}
use rcm_windows.Reconfiguration.Journal.{
  claim, release, goes_back, advance_epoch, load, save, Journal,
}
use rcm_windows.Reconfiguration.Control.{
  keep, fence, read_token, ask, Environment, World, Ending, done, raised,
}
use rcm_windows.Reconfiguration.Run.{execute, released_with, run_claimed, run_leased, run}
use rcm_windows.Reconfiguration.Frame.{IsFrame}
use rcm_windows.Reconfiguration.FramedRun.{execute-Moves}
use rcm_windows.Prelude.{
  ◌==◌, if◌then◌else◌, ==_iff, Exn, Result, conflict_error, stale_error, ok, err, ℕ, String, ◌≡◌,
  refl, sym, ap, ◌∙◌, ◌≢◌, Bool, true, false, not, none, some, arith, str_eq, eq_refl,
}

abbrev SameClaim : World → World → Type 0
SameClaim w v = v.journal.active_operation ≡ w.journal.active_operation

-- An epoch that is behind the journal stays behind it.
abbrev pub IsLater : World → World → Type 0
IsLater w v = (n : ℕ) → goes_back n w.journal.epoch ≡ true → goes_back n v.journal.epoch ≡ true

-- That a run ends with an error and leaves the world as it was.
pub record Refused (w : World) (out : Ending ReconfigurationResult × Guard × World) : Type 0 where
  pub unchanged : out.2 ≡ w
  pub without_result : (r : ReconfigurationResult) → out.0 ≢ done r

module _ (env : Environment) (hash : Hasher) (plan : ReconfigurationPlan) where
  fence-IsLater : (n : ℕ) (w : World) → IsLater w (fence n w).1
  unfolding fence advance_epoch
  fence-IsLater n w m h = ground (arith, h)

  SameClaim-IsFrame : IsFrame env plan SameClaim
  unfolding keep save fence advance_epoch read_token ask
  SameClaim-IsFrame = record {
    stays = λ w. refl;
    follows = λ p q. q ∙ p;
    keeps = λ c w. ground arith;
    fences = λ n w h. ground arith;
    reads = λ w. refl;
    asks = λ o w. ground arith;
  }

  IsLater-IsFrame : IsFrame env plan IsLater
  unfolding keep save read_token ask
  IsLater-IsFrame = record {
    stays = λ w n h. h;
    follows = λ p q n h. q n (p n h);
    keeps = λ c w n h. ground (arith, h);
    fences = λ n w h. fence-IsLater n w;
    reads = λ w n h. h;
    asks = λ o w n h. ground (arith, h);
  }

  -- From a claim to its release, whatever `_execute` does.
  released_active :
      (e : Ending ReconfigurationResult) (w : World)
      → w.journal.active_operation ≡ some plan.operation_id
      → (released_with env hash plan
          (release plan.operation_id w.journal)
          e
          w).1.journal.active_operation
        ≡ none
  unfolding release
  released_active e w h = ground (arith, h, eq_refl plan.operation_id)

  claim_active :
      (op : String) (n : ℕ) (j : Journal)
      → ((claim op n j).0 ≡ ok true
          → (j.active_operation ≡ none) × ((claim op n j).1.active_operation ≡ some op))
        × ((claim op n j).0 ≢ ok true → (claim op n j).1 ≡ j)
  unfolding claim
  claim_active op n j = ground arith

  run_claimed-active :
      (out : Result Bool × Journal) (w : World)
      → (out.0 ≡ ok true
          → (w.journal.active_operation ≡ none) × (out.1.active_operation ≡ some plan.operation_id))
      → (out.0 ≢ ok true → out.1 ≡ w.journal)
      → (run_claimed env hash plan out w).1.journal.active_operation ≡ w.journal.active_operation
  run_claimed-active (err x, j) w h k = ap (λ (i : Journal). i.active_operation) (k (λ e. cc))
  run_claimed-active (ok false, j) w h k = ap (λ (i : Journal). i.active_operation) (k (λ e. cc))
  run_claimed-active (ok true, j) w h k =
      let w0 = record w { journal = j } in
      let (e, w1) = execute env hash plan w0 in
      released_active e w1 (execute-Moves env hash plan SameClaim SameClaim-IsFrame w0 ∙ (h refl).1)
      ∙ sym (h refl).0

  lease_back :
      (l : MaintenanceLease) (g : Guard) (i : ℕ)
      → (claim_lease l g).0 ≡ true
      → ((release_claim l (claim_lease l g).1).tokens i).in_use ≡ (g.tokens i).in_use
  unfolding claim_lease release_claim
  lease_back l g i e = ground (arith, e, ==_iff l.token i)

  run_leased-returns :
      (l : MaintenanceLease) (g h : Guard) (b : Bool) (w : World) (i : ℕ)
      → (b ≡ true → ((release_claim l h).tokens i).in_use ≡ (g.tokens i).in_use)
      → (b ≡ false → h ≡ g)
      → let out = run_leased env hash plan l (b, h) w in
        (out.2.journal.active_operation ≡ w.journal.active_operation)
        × ((out.1.tokens i).in_use ≡ (g.tokens i).in_use)
  run_leased-returns l g h false w i back same =
      (refl, ap (λ (x : Guard). (x.tokens i).in_use) (same refl))
  run_leased-returns l g h true w i back same =
      let c = claim_active plan.operation_id plan.expected.epoch w.journal in
      (
        run_claimed-active (claim plan.operation_id plan.expected.epoch w.journal) w c.0 c.1,
        back refl,
      )

  lease_kept :
      (l : MaintenanceLease) (g : Guard) → (claim_lease l g).0 ≡ false → (claim_lease l g).1 ≡ g
  unfolding claim_lease
  lease_kept l g e = ground (arith, e)

  -- However a run ends, with a result, an error or an interrupt of the adapter, it leaves the journal's
  -- claim and every lease's claim as it found them.
  pub run_returns_claims :
      (l : MaintenanceLease) (g : Guard) (w : World) (i : ℕ)
      → let out = run env hash plan l g w in
        (out.2.journal.active_operation ≡ w.journal.active_operation)
        × ((out.1.tokens i).in_use ≡ (g.tokens i).in_use)
  unfolding run
  run_returns_claims l g w i =
      let claimed =
        run_leased-returns l g (claim_lease l g).1 (claim_lease l g).0 w i (lease_back l g i)
          (lease_kept l g) in
      ground (arith, claimed)

  claim-IsLater :
      (op : String) (n m : ℕ) (j : Journal)
      → goes_back m j.epoch ≡ true
      → goes_back m (claim op n j).1.epoch ≡ true
  unfolding claim
  claim-IsLater op n m j h = ground (arith, h)

  released-IsLater :
      (e : Ending ReconfigurationResult) (v w : World)
      → IsLater v w
      → IsLater v (released_with env hash plan (release plan.operation_id w.journal) e w).1
  unfolding release
  released-IsLater e v w h n m = ground (arith, h n m)

  run_claimed-IsLater :
      (out : Result Bool × Journal) (w : World)
      → IsLater w (record w { journal = out.1 })
      → IsLater w (run_claimed env hash plan out w).1
  run_claimed-IsLater (err x, j) w h = h
  run_claimed-IsLater (ok false, j) w h = h
  run_claimed-IsLater (ok true, j) w h =
      let w0 = record w { journal = j } in
      let (e, w1) = execute env hash plan w0 in
      released-IsLater e w w1
        (λ n m. execute-Moves env hash plan IsLater IsLater-IsFrame w0 n (h n m))

  run_leased-IsLater :
      (l : MaintenanceLease) (out : Bool × Guard) (w : World)
      → IsLater w (run_leased env hash plan l out w).2
  run_leased-IsLater l (false, g) w = λ n h. h
  run_leased-IsLater l (true, g) w =
      run_claimed-IsLater (claim plan.operation_id plan.expected.epoch w.journal) w
        (λ n h. claim-IsLater plan.operation_id plan.expected.epoch n w.journal h)

  pub run-IsLater :
      (l : MaintenanceLease) (g : Guard) (w : World) → IsLater w (run env hash plan l g w).2
  unfolding run
  run-IsLater l g w n h = ground (arith, h, run_leased-IsLater l (claim_lease l g) w n h)

  claim_stale :
      (op : String) (n : ℕ) (j : Journal)
      → goes_back n j.epoch ≡ true
      → load op j ≡ none
      → (claim op n j).0 ≢ ok true
  unfolding claim
  claim_stale op n j h fresh e = ground (arith, h, fresh, e)

  refused :
      (out : Result Bool × Journal) (w : World)
      → out.0 ≢ ok true
      → out.1 ≡ w.journal
      → ((run_claimed env hash plan out w).1 ≡ w)
        × ((r : ReconfigurationResult) → (run_claimed env hash plan out w).0 ≢ done r)
  refused (err x, j) w n e = (ap (λ j. record w { journal = j }) e, λ r q. cc)
  refused (ok false, j) w n e = (ap (λ j. record w { journal = j }) e, λ r q. cc)
  refused (ok true, j) w n e = absurd (n refl)

  stale_leased :
      (l : MaintenanceLease) (out : Bool × Guard) (w : World)
      → goes_back plan.expected.epoch w.journal.epoch ≡ true
      → load plan.operation_id w.journal ≡ none
      → Refused w (run_leased env hash plan l out w)
  stale_leased l (false, g) w h fresh = record { unchanged = refl; without_result = λ r q. cc }
  stale_leased l (true, g) w h fresh =
      let no = claim_stale plan.operation_id plan.expected.epoch w.journal h fresh in
      let out =
        refused (claim plan.operation_id plan.expected.epoch w.journal) w no
          ((claim_active plan.operation_id plan.expected.epoch w.journal).1 no) in
      record { unchanged = out.0; without_result = out.1 }

  Refused-if :
      {w : World} {x y : Ending ReconfigurationResult × Guard × World} (b : Bool)
      → Refused w x
      → Refused w y
      → Refused w (if b then x else y)
  Refused-if true p q = p
  Refused-if false p q = q

  Refused-now : (x : Exn) (g : Guard) (w : World) → Refused w (raised x, g, w)
  Refused-now x g w = record { unchanged = refl; without_result = λ r q. cc }

  pub stale-Refused :
      (l : MaintenanceLease) (g : Guard) (w : World)
      → goes_back plan.expected.epoch w.journal.epoch ≡ true
      → load plan.operation_id w.journal ≡ none
      → Refused w (run env hash plan l g w)
  unfolding run
  stale-Refused l g w h fresh = Refused-if (not (is_active g l)) (Refused-now conflict_error g w) (
      Refused-if (not (str_eq l.request_id plan.operation_id)) (Refused-now conflict_error g w) (
        Refused-if (not (l.epoch == plan.expected.epoch)) (Refused-now stale_error g w)
          (stale_leased l (claim_lease l g) w h fresh)))

-- A plan that starts from an epoch behind the journal is refused, without a command to any node, even
-- after another run, unless the journal knows its operation.
pub stale_plan-Refused :
    (env : Environment) (hash : Hasher) (p q : ReconfigurationPlan) (k l : MaintenanceLease)
    (g : Guard) (w : World)
    → goes_back q.expected.epoch w.journal.epoch ≡ true
    → let (e, h, v) = run env hash p k g w in
      load q.operation_id v.journal ≡ none → Refused v (run env hash q l h v)
stale_plan-Refused env hash p q k l g w behind =
    let (e, h, v) = run env hash p k g w in
    λ fresh.
      stale-Refused env hash q l h v (run-IsLater env hash p k g w q.expected.epoch behind) fresh
