-- ===== src/Config/Store/Rollback.antt =====
-- src/rcm/config/store.py: `rollback_previous` and `_commit_rollback_locked`.
use rcm_windows.Prelude.{
  ltb, leb, ◌==◌, if◌then◌else◌, ℕ, ◌+◌, ◌-◌, String, Bool, true, false, ◌&&◌, Option, none, some,
  str_eq,
}
use rcm_windows.Config.Disk.{
  Action, ◌>>=◌, ◌>>◌, return, lift, write_synced, checkpoint, Environment, target_file,
  backup_file, temp_file,
}
use rcm_windows.Config.Formats.{
  check, max_generation, is_checksum, is_id, canonical_config_bytes, record_bytes, Failure, Outcome,
  Format, StoredConfig, Record, corrupt, generation_error, conflict, bad_value, done, failed,
}
use rcm_windows.Config.Store.{
  generation_of, same_content, prepared_journal, stored_result, read_if_present,
  read_record_if_present, recover, under_lock, write_journal, replace_target, refuse_change,
}

abbrev pub required : {A : Type 0} → Failure → Option A → Outcome A
required e none = failed e
required e (some a) = done a

-- self._expected_generation
abbrev pub is_expected : ℕ → Bool
is_expected n = leb 1 n && leb n max_generation

abbrev pub same_id : Option String → Option String → Bool
same_id none none = true
same_id (some a) (some b) = str_eq a b
same_id _ _ = false

module _ {Config Bytes : Type 0} (fmt : Format Config Bytes) (env : Environment Bytes) where
  -- _commit_rollback_locked
  unfoldable pub commit_rollback_locked :
      Config → Record Config Bytes → Record Config Bytes → Action Bytes (StoredConfig Config)
  unfolding record_bytes checkpoint write_synced write_journal read_if_present replace_target
      refuse_change canonical_config_bytes
  commit_rollback_locked c current backup = do
    lift (check (ltb current.stored.generation max_generation) generation_error)
    new_raw ← lift (record_bytes fmt c (current.stored.generation + 1) none)
    let j = prepared_journal fmt (some current) new_raw
    checkpoint env
    write_synced env temp_file new_raw
    checkpoint env
    write_journal fmt env j
    checkpoint env
    current_raw ← read_if_present fmt env target_file
    backup_raw ← read_if_present fmt env backup_file
    if same_content fmt current_raw (some current.raw)
          && same_content fmt backup_raw (some backup.raw)
        then return tt
        else refuse_change fmt env
    replace_target fmt env j
    lift (stored_result fmt c (current.stored.generation + 1) none)

  unfoldable pub rollback_previous :
      ℕ → ℕ → String → Option String → Action Bytes (StoredConfig Config)
  unfolding is_checksum under_lock recover read_record_if_present commit_rollback_locked
  rollback_previous current_generation backup_generation backup_checksum transaction_id = do
    lift (check (is_expected current_generation) bad_value)
    lift (check (is_expected backup_generation) bad_value)
    lift (check (is_checksum backup_checksum) bad_value)
    lift (check (is_id transaction_id) bad_value)
    under_lock fmt env (do
      recover fmt env
      found ← read_record_if_present fmt env target_file
      lift (check (generation_of found == current_generation) conflict)
      current ← lift (required conflict found)
      lift (check (same_id current.stored.transaction_id transaction_id) conflict)
      previous ← read_record_if_present fmt env backup_file
      backup ← lift (required corrupt previous)
      lift (check (backup.stored.generation == current_generation - 1) conflict)
      lift (
          check
            (backup.stored.generation == backup_generation
              && str_eq backup.stored.checksum backup_checksum)
            conflict)
      commit_rollback_locked backup.stored.config current backup)
