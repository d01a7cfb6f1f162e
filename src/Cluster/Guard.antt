-- ===== src/Cluster/Guard.antt =====
-- src/rcm/cluster.py: `MaintenanceGuard` and its leases.
--
-- A lease object shares its mutable token with every holder of the lease. The tokens live in a store,
-- a lease has the address of its token, and two leases are the same object exactly if they have the
-- same address, since each lease is issued with a token of its own.
pub mod Exclusion
use rcm_windows.Prelude.{
  ltb, ◌==◌, if◌then◌else◌, any, codes, nonempty, Result, value_error, conflict_error, busy_error,
  ok, err, ℕ, ◌+◌, String, Bool, true, false, not, ◌&&◌, ◌||◌, Option, none, some, str_eq,
}
use rcm_windows.Cluster.Types.{safe_for_maintenance, BusyAssessment}

pub record LeaseToken : Type 0 where
  pub active : Bool
  pub in_use : Bool

pub record MaintenanceLease : Type 0 where
  pub request_id : String
  pub epoch : ℕ
  pub token : ℕ

pub record Guard : Type 0 where
  pub lease : Option MaintenanceLease
  pub tokens : ℕ → LeaseToken
  pub issued : ℕ

abbrev pub update : (ℕ → LeaseToken) → ℕ → LeaseToken → ℕ → LeaseToken
update tokens i t j = if i == j then t else tokens j

abbrev pub unused : LeaseToken
unused = record { active = false; in_use = false }

unfoldable pub new_guard : Guard
new_guard = record { lease = none; tokens = λ i. unused; issued = 0 }

-- MaintenanceLease.active
abbrev pub is_active : Guard → MaintenanceLease → Bool
is_active g l = (g.tokens l.token).active

-- MaintenanceLease._issue
abbrev pub issue : String → ℕ → Guard → MaintenanceLease × Guard
issue request_id epoch g =
    let l : MaintenanceLease = record {
      request_id = request_id;
      epoch = epoch;
      token = g.issued;
    } in
    (
      l,
      record {
        lease = some l;
        tokens = update g.tokens g.issued (record { active = true; in_use = false });
        issued = g.issued + 1;
      },
    )

abbrev pub is_safe_token : String → Bool
is_safe_token request_id = nonempty request_id && not (any (λ c. ltb c 33) (codes request_id))

abbrev pub acquire_held : MaintenanceLease → String → Guard → Result MaintenanceLease × Guard
acquire_held l request_id g =
    if str_eq l.request_id request_id then (ok l, g) else (err conflict_error, g)

abbrev pub acquire_free : String → BusyAssessment → ℕ → Guard → Result MaintenanceLease × Guard
acquire_free request_id assessment expected_epoch g =
    let (l, g') = issue request_id expected_epoch g in
    if safe_for_maintenance assessment then (ok l, g') else (err busy_error, g)

-- The part of `acquire` under the guard's lock.
abbrev pub acquire_locked :
    Option MaintenanceLease → String → BusyAssessment → ℕ → Guard → Result MaintenanceLease × Guard
acquire_locked (some l) request_id assessment expected_epoch g = acquire_held l request_id g
acquire_locked none request_id assessment expected_epoch g =
    acquire_free request_id assessment expected_epoch g

unfoldable pub acquire : String → BusyAssessment → ℕ → Guard → Result MaintenanceLease × Guard
acquire request_id assessment expected_epoch g =
    if not (is_safe_token request_id)
    then (err value_error, g)
    else if not (assessment.epoch == expected_epoch)
    then (err conflict_error, g)
    else acquire_locked g.lease request_id assessment expected_epoch g

-- self._lease is lease
abbrev pub holds : Option MaintenanceLease → MaintenanceLease → Bool
holds none l = false
holds (some h) l = h.token == l.token

unfoldable pub release : MaintenanceLease → Guard → Result (Unit {0}) × Guard
release l g =
    if not (is_active g l)
    then (ok tt, g)
    else if not (holds g.lease l)
    then (err conflict_error, g)
    else if (g.tokens l.token).in_use
    then (err conflict_error, g)
    else (
      ok tt,
      record g {
        lease = none;
        tokens = update g.tokens l.token (record (g.tokens l.token) { active = false });
      },
    )

-- MaintenanceLease._claim
unfoldable pub claim : MaintenanceLease → Guard → Bool × Guard
claim l g = if not (is_active g l) || (g.tokens l.token).in_use then (false, g) else (
  true,
  record g { tokens = update g.tokens l.token (record (g.tokens l.token) { in_use = true }) },
)

-- MaintenanceLease._release_claim
unfoldable pub release_claim : MaintenanceLease → Guard → Guard
release_claim l g = record g {
  tokens = update g.tokens l.token (record (g.tokens l.token) { in_use = false });
}
