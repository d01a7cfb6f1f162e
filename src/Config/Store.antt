-- ===== src/Config/Store.antt =====
-- src/rcm/config/store.py: `ConfigStore`, its recovery, `load`, `save` and `rollback_previous`.
--
-- The lock keeps other writers out: within an operation the files change only by its own steps.
pub mod Stages
pub mod Recovery
pub mod Commit
pub mod Atomic
pub mod Saving
pub mod Crash
pub mod Saved
pub mod Rollback
pub mod Restored
use rcm_windows.Prelude.{
  ltb, leb, ◌==◌, if◌then◌else◌, ℕ, ◌+◌, String, Bool, true, false, ◌&&◌, ◌||◌, Option, none, some,
  str_eq,
}
use rcm_windows.Config.Formats.{
  try, check, max_generation, is_checksum, is_id, with_phase, is_none, canonical_config_bytes,
  record_bytes, decode_record, journal_bytes, decode_journal, Outcome, Format, StoredConfig, Record,
  Journal, corrupt, generation_error, conflict, lock_error, bad_value, done, failed, prepared,
  replaced, committed,
}
use rcm_windows.Config.Disk.{
  map_os_error, Action, ◌>>=◌, ◌>>◌, return, lift, exists, read, write_synced, unlink,
  fsync_directory, replace_synced, checkpoint, FileName, OsError, LockOutcome, Environment,
  target_file, backup_file, backup_temp_file, temp_file, journal_file, journal_temp_file, acquired,
  timed_out, lock_failed,
}

abbrev pub expects : Option ℕ → ℕ → Bool
expects none found = true
expects (some e) found = e == found

abbrev pub in_range : Option ℕ → Bool
in_range none = true
in_range (some e) = leb e max_generation

module _ {Config Bytes : Type 0} where
  -- Whether a record has this generation and this checksum of its bytes.
  abbrev pub is_record : Option (Record Config Bytes) → ℕ → Option String → Bool
  is_record (some r) generation (some checksum) =
      str_eq r.raw_checksum checksum && (r.stored.generation == generation)
  is_record _ _ _ = false

  abbrev pub generation_of : Option (Record Config Bytes) → ℕ
  generation_of none = 0
  generation_of (some r) = r.stored.generation

  abbrev pub checksum_of_raw : Option (Record Config Bytes) → Option String
  checksum_of_raw none = none
  checksum_of_raw (some r) = some r.raw_checksum

  abbrev pub raw_of : Option (Record Config Bytes) → Option Bytes
  raw_of none = none
  raw_of (some r) = some r.raw

module _ {Config Bytes : Type 0} (fmt : Format Config Bytes) where
  -- Optional bytes that differ.
  abbrev pub same_content : Option Bytes → Option Bytes → Bool
  same_content none none = true
  same_content (some a) (some b) = fmt.same_bytes a b
  same_content _ _ = false

  abbrev pub decode_present : Option Bytes → Outcome (Option (Record Config Bytes))
  decode_present none = done none
  decode_present (some raw) = try (decode_record fmt raw) (λ r. done (some r))

  -- The configuration that is returned where there is none.
  unfoldable pub default_stored : Outcome (StoredConfig Config)
  unfolding canonical_config_bytes
  default_stored = try (canonical_config_bytes fmt fmt.default_config) (λ payload. done (record {
    config = fmt.default_config;
    generation = 0;
    checksum = fmt.sha256 payload;
    transaction_id = none;
  }))

  abbrev pub stored_or_default : Bool → Option (Record Config Bytes) → Outcome (StoredConfig Config)
  stored_or_default require_existing (some r) = done r.stored
  stored_or_default true none = failed corrupt
  stored_or_default false none = default_stored

  abbrev pub prepared_journal : Option (Record Config Bytes) → Bytes → Journal
  prepared_journal old new_raw = record {
    phase = prepared;
    old_generation = generation_of old;
    old_record_checksum = checksum_of_raw old;
    new_generation = generation_of old + 1;
    new_record_checksum = fmt.sha256 new_raw;
  }

  abbrev pub stored_result : Config → ℕ → Option String → Outcome (StoredConfig Config)
  stored_result c generation transaction_id = try (canonical_config_bytes fmt c) (λ payload.
      done (record {
        config = c;
        generation = generation;
        checksum = fmt.sha256 payload;
        transaction_id = transaction_id;
      }))

module _ {Config Bytes : Type 0} (fmt : Format Config Bytes) (env : Environment Bytes) where
  unfoldable pub read_if_present : FileName → Action Bytes (Option Bytes)
  unfolding exists read
  read_if_present p = do
    there ← exists env p
    if there then (do b ← read env p; return (some b)) else return none

  -- _read_record_if_present
  unfoldable pub read_record_if_present : FileName → Action Bytes (Option (Record Config Bytes))
  unfolding read_if_present decode_record
  read_record_if_present p = do raw ← read_if_present p; lift (decode_present fmt raw)

  unfoldable pub clean_transaction_residue : Action Bytes (Unit {0})
  unfolding unlink fsync_directory
  clean_transaction_residue = do
    unlink env temp_file
    unlink env backup_temp_file
    unlink env journal_temp_file
    unlink env journal_file
    fsync_directory env

  -- A round of the loop of `_recover_without_journal`, with the flag `changed`.
  unfoldable pub sweep : FileName → Bool → Action Bytes Bool
  unfolding exists unlink
  sweep p changed = do
    there ← exists env p
    if there then (do unlink env p; return true) else return changed

  unfoldable pub recover_without_journal : Action Bytes (Unit {0})
  unfolding sweep fsync_directory
  recover_without_journal = do
    a ← sweep temp_file false
    b ← sweep backup_temp_file a
    c ← sweep journal_temp_file b
    if c then fsync_directory env else return tt

  abbrev pub replace_if : Bool → Action Bytes (Unit {0})
  replace_if true = replace_synced env temp_file target_file
  replace_if false = return tt

  -- The target is missing although there was an old record.
  unfoldable pub restore_missing :
      Bool → Bool → Option (Record Config Bytes) → Action Bytes (Unit {0})
  unfolding replace_synced clean_transaction_residue write_synced
  restore_missing true _ backup = do
    replace_synced env temp_file target_file
    clean_transaction_residue
  restore_missing false true (some r) = do
    write_synced env backup_temp_file r.raw
    replace_synced env backup_temp_file target_file
    clean_transaction_residue
  restore_missing false _ _ = lift (failed corrupt)

  -- The cases of `_recover` once the journal and the records are read.
  unfoldable pub settle :
      Journal
      → Option (Record Config Bytes)
      → Option (Record Config Bytes)
      → Option (Record Config Bytes)
      → Action Bytes (Unit {0})
  unfolding replace_synced clean_transaction_residue restore_missing
  settle j target staged backup =
      let staged_is_new = is_record staged j.new_generation (some j.new_record_checksum) in
      let backup_is_old = is_record backup j.old_generation j.old_record_checksum in
      if is_record target j.new_generation (some j.new_record_checksum)
      then clean_transaction_residue
      else if is_record target j.old_generation j.old_record_checksum
          || (is_none target && is_none j.old_record_checksum)
      then (do replace_if staged_is_new; clean_transaction_residue)
      else if is_none target
      then restore_missing staged_is_new backup_is_old backup
      else (do clean_transaction_residue; lift (failed conflict))

  -- _recover
  unfoldable pub recover : Action Bytes (Unit {0})
  unfolding exists read decode_journal recover_without_journal read_record_if_present settle
  recover = do
    there ← exists env journal_file
    if there
        then (do
          raw ← read env journal_file
          j ← lift (decode_journal fmt raw)
          target ← read_record_if_present target_file
          staged ← read_record_if_present temp_file
          backup ← read_record_if_present backup_file
          settle j target staged backup)
        else recover_without_journal

  abbrev pub under_lock_with {ℓ} : {A : Type ℓ} → LockOutcome → Action Bytes A → Action Bytes A
  under_lock_with acquired m = m
  under_lock_with timed_out m = lift (failed lock_error)
  under_lock_with (lock_failed e) m = lift (failed (map_os_error e))

  abbrev pub in_parent {ℓ} : {A : Type ℓ} → Option OsError → Action Bytes A → Action Bytes A
  in_parent none m = m
  in_parent (some e) m = lift (failed (map_os_error e))

  -- self._fs.ensure_parent(…), then _under_lock
  unfoldable pub under_lock {ℓ} : {A : Type ℓ} → Action Bytes A → Action Bytes A
  under_lock m = in_parent env.parent (under_lock_with env.lock m)

  unfoldable pub load : Bool → Action Bytes (StoredConfig Config)
  unfolding under_lock recover read_record_if_present default_stored
  load require_existing = under_lock (do
    recover
    r ← read_record_if_present target_file
    lift (stored_or_default fmt require_existing r))

  -- _write_journal
  unfoldable pub write_journal : Journal → Action Bytes (Unit {0})
  unfolding write_synced replace_synced
  write_journal j = do
    write_synced env journal_temp_file (journal_bytes fmt j)
    replace_synced env journal_temp_file journal_file

  -- The old record is made the backup, or a backup is removed where there is no old record.
  unfoldable pub back_up : Option (Record Config Bytes) → Action Bytes (Unit {0})
  unfolding write_synced replace_synced exists unlink fsync_directory
  back_up (some r) = do
    write_synced env backup_temp_file r.raw
    replace_synced env backup_temp_file backup_file
  back_up none = do
    there ← exists env backup_file
    if there then (do unlink env backup_file; fsync_directory env) else return tt

  -- From the commit point to the end, in both kinds of commit.
  unfoldable pub replace_target : Journal → Action Bytes (Unit {0})
  unfolding replace_synced checkpoint write_journal clean_transaction_residue
  replace_target j = do
    replace_synced env temp_file target_file
    checkpoint env
    write_journal (with_phase replaced j)
    checkpoint env
    write_journal (with_phase committed j)
    checkpoint env
    clean_transaction_residue
    checkpoint env

  unfoldable pub refuse_change : Action Bytes (Unit {0})
  unfolding clean_transaction_residue
  refuse_change = do clean_transaction_residue; lift (failed conflict)

  -- _commit_locked
  unfoldable pub commit_locked :
      Config → Option (Record Config Bytes) → Option String → Action Bytes (StoredConfig Config)
  unfolding record_bytes back_up checkpoint write_synced write_journal read_if_present
      replace_target refuse_change canonical_config_bytes
  commit_locked c old transaction_id = do
    lift (check (ltb (generation_of old) max_generation) generation_error)
    new_raw ← lift (record_bytes fmt c (generation_of old + 1) transaction_id)
    back_up old
    checkpoint env
    write_synced env temp_file new_raw
    checkpoint env
    let j = prepared_journal fmt old new_raw
    write_journal j
    checkpoint env
    current ← read_if_present target_file
    if same_content fmt current (raw_of old) then return tt else refuse_change
    replace_target j
    lift (stored_result fmt c (generation_of old + 1) transaction_id)

  unfoldable pub save : Config → Option ℕ → Option String → Action Bytes (StoredConfig Config)
  unfolding canonical_config_bytes is_checksum under_lock recover read_record_if_present
      commit_locked
  save c expected_generation transaction_id = do
    lift (canonical_config_bytes fmt c)
    lift (check (in_range expected_generation) bad_value)
    lift (check (is_id transaction_id) bad_value)
    under_lock (do
      recover
      old ← read_record_if_present target_file
      lift (check (expects expected_generation (generation_of old)) conflict)
      commit_locked c old transaction_id)
