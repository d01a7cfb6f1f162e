-- ===== src/Reconfiguration/Journal.antt =====
-- src/rcm/reconfiguration.py: `MemoryReconfigurationJournal`. Its dictionary of checkpoints is an
-- association list; each operation runs under the journal's lock.
-- It is the journal of the reconfigurator here, in place of the protocol `ReconfigurationJournal`.
use rcm_windows.Prelude.{
  ltb, ◌==◌, if◌then◌else◌, ◌>>◌, guard, Result, conflict_error, stale_error, ok, err, ℕ, String,
  Bool, true, false, not, ◌&&◌, Option, none, some, List, [], ◌∷◌, str_eq,
}
use rcm_windows.Reconfiguration.Types.{fingerprint, ReconfigurationCheckpoint}

pub record Journal : Type 0 where
  pub records : List (String × ReconfigurationCheckpoint)
  pub active_operation : Option String
  pub unfinished_operation : Option String
  pub epoch : Option ℕ

unfoldable pub new_journal : Journal
new_journal = record {
  records = [];
  active_operation = none;
  unfinished_operation = none;
  epoch = none;
}

abbrev pub lookup :
    String → List (String × ReconfigurationCheckpoint) → Option ReconfigurationCheckpoint
lookup k [] = none
lookup k ((j, c) ∷ rest) = if str_eq j k then some c else lookup k rest

-- self._records[k] = c
abbrev pub store :
    String
    → ReconfigurationCheckpoint
    → List (String × ReconfigurationCheckpoint)
    → List (String × ReconfigurationCheckpoint)
store k c [] = (k, c) ∷ []
store k c ((j, d) ∷ rest) =
    let others = store k c rest in if str_eq j k then (k, c) ∷ rest else (j, d) ∷ others

abbrev pub is_some {ℓ} : {A : Type ℓ} → Option A → Bool
is_some none = false
is_some (some a) = true

-- o == key, where o may be None
abbrev pub is_key : Option String → String → Bool
is_key none key = false
is_key (some k) key = str_eq k key

-- existing is None or existing.result is None
abbrev pub is_open : Option ReconfigurationCheckpoint → Bool
is_open none = true
is_open (some c) = not (is_some c.result)

abbrev pub claim_epoch : Option ℕ → ℕ → Bool → Result ℕ
claim_epoch none expected known = ok expected
claim_epoch (some e) expected known =
    if not (e == expected) && not known then err stale_error else ok e

abbrev pub claimed : String → ℕ → Journal → Journal
claimed operation_id e j = record j {
  epoch = some e;
  unfinished_operation =
      if is_open (lookup operation_id j.records) then some operation_id else j.unfinished_operation;
  active_operation = some operation_id;
}

abbrev claim_with : Result ℕ → String → Journal → Result Bool × Journal
claim_with (ok e) operation_id j = (ok true, claimed operation_id e j)
claim_with (err x) operation_id j = (err x, j)

unfoldable pub claim : String → ℕ → Journal → Result Bool × Journal
claim operation_id expected_epoch j =
    let go =
      claim_with (claim_epoch j.epoch expected_epoch (is_some (lookup operation_id j.records)))
        operation_id j in
    if is_some j.active_operation
    then (ok false, j)
    else if is_some j.unfinished_operation && not (is_key j.unfinished_operation operation_id)
    then (ok false, j)
    else go

unfoldable pub release : String → Journal → Result Journal
release operation_id j = do
  guard (is_key j.active_operation operation_id) conflict_error
  ok (record j { active_operation = none })

-- self._epoch is not None and value < self._epoch
abbrev pub goes_back : ℕ → Option ℕ → Bool
goes_back value none = false
goes_back value (some e) = ltb value e

unfoldable pub advance_epoch : ℕ → Journal → Result Journal
advance_epoch value j = do
  guard (is_some j.active_operation) conflict_error
  guard (not (goes_back value j.epoch)) stale_error
  ok (record j { epoch = some value })

abbrev pub load : String → Journal → Option ReconfigurationCheckpoint
load operation_id j = lookup operation_id j.records

abbrev pub has_other_plan : Option ReconfigurationCheckpoint → String → Bool
has_other_plan none fingerprint = false
has_other_plan (some c) fingerprint = not (str_eq c.plan_fingerprint fingerprint)

abbrev pub saved_in : String → ReconfigurationCheckpoint → Journal → Journal
saved_in operation_id c j = record j {
  records = store operation_id c j.records;
  unfinished_operation =
      if is_some c.result && is_key j.unfinished_operation operation_id
      then none
      else j.unfinished_operation;
}

unfoldable pub save : String → ReconfigurationCheckpoint → Journal → Result Journal
save operation_id c j = do
  guard (not (has_other_plan (lookup operation_id j.records) c.plan_fingerprint)) conflict_error
  ok (saved_in operation_id c j)
