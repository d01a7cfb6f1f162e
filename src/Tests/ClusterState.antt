-- ===== src/Tests/ClusterState.antt =====
-- A cluster of a head and a stopped worker, assessed, diagnosed and put under maintenance.
use rcm_windows.Prelude.{
  ok, pos, ℕ, String, ◌≡◌, refl, inl, inr, true, false, none, some, List, [], ◌∷◌, arith,
}
use rcm_windows.Core.Types.{NodeRole, Node, head, worker, idle}
use rcm_windows.Cluster.Types.{
  check_snapshot, ClusterMember, ClusterWorkloadEvidence, ClusterSnapshot, alive, stopped,
}
use rcm_windows.Cluster.Policy.{found, assess}
use rcm_windows.Cluster.Policy.Idle.{IsProvenIdle, assess-IsProvenIdle, IsProvenIdle-assess}
use rcm_windows.Cluster.Service.{
  diagnose, diagnose-idle, Observer, ClusterDiagnosis, Grounds, snapshot_of,
}
use rcm_windows.Cluster.Guard.{
  new_guard, is_active, acquire, holds, release, claim, release_claim, MaintenanceLease,
}
use rcm_windows.Cluster.Guard.Exclusion.{
  step, run, one_active_lease, Call, acquires, releases, claims,
}

abbrev node_of : String → NodeRole → Node
node_of id role = record {
  node_id = id;
  address = "10.0.0.1";
  role = role;
  enabled = true;
  capabilities = [];
}

abbrev idle_head : ClusterMember
idle_head = record {
  node = node_of "head" head;
  state = alive;
  observed_at = 95;
  active_jobs = some 0;
  active_tasks = some 0;
  workload_evidence_fresh = true;
}

abbrev stopped_worker : ClusterMember
stopped_worker = record {
  node = node_of "worker" worker;
  state = stopped;
  observed_at = 96;
  active_jobs = none;
  active_tasks = none;
  workload_evidence_fresh = false;
}

abbrev quiet_cluster : ClusterSnapshot
quiet_cluster = record {
  epoch = 4;
  expected_head_id = "head";
  members = idle_head ∷ stopped_worker ∷ [];
  captured_at = 97;
  workload = none;
}

abbrev evidence : ClusterWorkloadEvidence
evidence = record {
  observed_at = 96;
  active_jobs = some 0;
  active_tasks = some 0;
  active_actors = some 0;
  active_placement_groups = some 0;
  complete = true;
  reasons = [];
}

abbrev evidenced_cluster : ClusterSnapshot
evidenced_cluster = record quiet_cluster { workload = some evidence }

quiet_checks : check_snapshot quiet_cluster ≡ ok quiet_cluster
unfolding check_snapshot
quiet_checks = refl

quiet_is_idle : (assess 10 100 evidenced_cluster false).state ≡ idle
unfolding assess
quiet_is_idle = refl

stale_is_unknown : (assess 3 100 quiet_cluster false).reasons ≡ "head:stale" ∷ "worker:stale" ∷ []
unfolding assess
stale_is_unknown = refl

assess-IsProvenIdle_example : IsProvenIdle 10 100 evidenced_cluster false
assess-IsProvenIdle_example = assess-IsProvenIdle 10 100 evidenced_cluster false quiet_is_idle

quiet-IsProvenIdle : IsProvenIdle 10 100 quiet_cluster false
quiet-IsProvenIdle = (
  refl,
  (omega arith, omega arith),
  tt,
  (
    ((omega arith, omega arith), inr (refl, inr (refl, refl, refl))),
    (((omega arith, omega arith), inl refl), tt),
  ),
)

IsProvenIdle-assess_example : assess 10 100 quiet_cluster false ≡ found idle 4 []
IsProvenIdle-assess_example = IsProvenIdle-assess 10 100 quiet_cluster false quiet-IsProvenIdle

abbrev reporting : Observer
reporting = record { observe = λ nodes head epoch. snapshot_of quiet_cluster }

abbrev configured : List Node
configured = node_of "head" head ∷ node_of "worker" worker ∷ []

abbrev idle_diagnosis : ClusterDiagnosis
idle_diagnosis = record { assessment = found idle 4 []; snapshot = some quiet_cluster }

diagnosed : diagnose reporting 10 100 configured "head" (pos 4) none ≡ ok idle_diagnosis
unfolding diagnose assess
diagnosed = refl

diagnose-idle_example : Grounds reporting 10 100 configured "head" 4 none idle_diagnosis
diagnose-idle_example =
    diagnose-idle reporting 10 100 configured "head" 4 none idle_diagnosis diagnosed refl

abbrev first_lease : MaintenanceLease
first_lease = record { request_id = "req-1"; epoch = 4; token = 0 }

-- The lease is issued, claimed, refused to be released, let go, released, and issued anew.
abbrev lease_calls : List Call
lease_calls = acquires "req-1" (found idle 4 []) 4 ∷ claims first_lease ∷ releases first_lease ∷ []

lease_is_active : is_active (run new_guard lease_calls) first_lease ≡ true
unfolding run step acquire release claim release_claim new_guard
lease_is_active = refl

one_active_lease_example :
    let g = run new_guard lease_calls in
    ((i : ℕ) → (g.tokens i).in_use ≡ true → (g.tokens i).active ≡ true)
    × ((k l : MaintenanceLease)
        → is_active g k ≡ true
        → is_active g l ≡ true
        → (k.token ≡ l.token)
          × (holds g.lease l ≡ true)
          × ((i : ℕ) → (g.tokens i).in_use ≡ true → i ≡ l.token))
one_active_lease_example = one_active_lease lease_calls

acquired : (acquire "req-1" (found idle 4 []) 4 new_guard).0 ≡ ok first_lease
unfolding acquire new_guard
acquired = refl
