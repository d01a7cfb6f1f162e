-- ===== src/Config/Store/Saved.antt =====
-- src/rcm/config/store.py: `save` as a replacement of the target.
use rcm_windows.Prelude.{ltb, ℕ, ◌+◌, String, ◌≡◌, ◌⊎◌, Bool, true, Option, some, List}
use rcm_windows.Config.Disk.{Environment, World}
use rcm_windows.Config.Formats.{max_generation, is_id, Format, StoredConfig, Record, done}
use rcm_windows.Config.Codec.{
  payload_of, Fits, stored_of, raw_record, loaded_of, canonical, record_bytes_lem,
}
use rcm_windows.Config.Laws.{Laws}
use rcm_windows.Config.Safe.{IsQuiet}
use rcm_windows.Config.Store.{
  expects, in_range, generation_of, raw_of, decode_present, stored_or_default, load, save,
}
use rcm_windows.Config.Store.Commit.{tidy}
use rcm_windows.Config.Store.Saving.{save-Safe}
use rcm_windows.Config.Store.Crash.{
  next_is_generation, after_loads, change, Replaces, act_atomic, act_durable, act_complete,
}

module _ {Config Bytes : Type 0} (fmt : Format Config Bytes) (laws : Laws fmt) (c : Config)
    (i : Option String) (old : Option Bytes) (o : Option (Record Config Bytes))
    (reads : decode_present fmt old ≡ done o) (fits : Fits fmt c) (id : is_id i ≡ true)
    (room : ltb (generation_of o) max_generation ≡ true) (expected_generation : Option ℕ)
    (ranged : in_range expected_generation ≡ true)
    (expected : expects expected_generation (generation_of o) ≡ true) (env : Environment Bytes)
    (backup : Option Bytes) where
  saves :
      Replaces fmt laws c i old o reads fits id room env backup
        (raw_of o)
        (save fmt env c expected_generation i)
  unfolding change
  saves =
      save-Safe (change fmt laws c i old o reads fits id room) env c expected_generation i
        (payload_of fmt c) (canonical fmt laws c fits) expected ranged id room
        (record_bytes_lem fmt laws c (generation_of o + 1) i fits
          (next_is_generation (generation_of o) room) id)
        backup

  module _ (p : Option (Record Config Bytes)) (reads_backup : decode_present fmt backup ≡ done p)
      (w : World Bytes) (on_disk : w.disk ≡ tidy old backup)
      (in_durable : w.durable ≡ tidy old backup) where
    -- A save of a configuration that has a dictionary within the limit, with an identifier of the
    -- right form or none, at the expected generation below the maximum, from a tidy and synced
    -- directory whose target and backup can be read or are absent: whatever interrupts it and
    -- the loads that follow it, a load that is not interrupted gives the old record, or what it gives
    -- without one, or the new record, with the configuration normalised by the schema.
    pub save-atomic :
        (loads : List (Environment Bytes × Bool)) (last : Environment Bytes) (require : Bool)
        → IsQuiet last
        → let v = after_loads fmt loads (save fmt env c expected_generation i w).1 in
          ((load fmt last require v).0 ≡ stored_or_default fmt require o)
          ⊎ ((load fmt last require v).0 ≡ done (loaded_of fmt laws c (generation_of o + 1) i))
    save-atomic =
        act_atomic fmt laws c i old o reads fits id room backup p reads_backup w on_disk in_durable
          env (raw_of o) (save fmt env c expected_generation i) saves

    -- A save of a configuration that has a dictionary within the limit, with an identifier of the
    -- right form or none, at the expected generation below the maximum, from a tidy and synced
    -- directory whose target and backup can be read or are absent, returns: then
    -- a load that is not interrupted gives what it returned, with the configuration normalised by the
    -- schema, whatever interrupts the loads in between.
    pub save-durable :
        (loads : List (Environment Bytes × Bool)) (last : Environment Bytes) (require : Bool)
        (x : StoredConfig Config)
        → IsQuiet last
        → (save fmt env c expected_generation i w).0 ≡ done x
        → (load fmt last require
            (after_loads fmt loads (save fmt env c expected_generation i w).1)).0
          ≡ done (record x { config = laws.normal x.config })
    save-durable =
        act_durable fmt laws c i old o reads fits id room backup p reads_backup w on_disk in_durable
          env (raw_of o) (save fmt env c expected_generation i) saves

    -- A save of a configuration that has a dictionary within the limit, with an identifier of the
    -- right form or none, at the expected generation below the maximum, from a tidy and synced
    -- directory whose target and backup can be read or are absent, is not
    -- interrupted: it returns the configuration as it was given, at the next generation, and leaves
    -- the directory tidy and synced, with the new record as the target and the old one in the backup.
    pub save_complete :
        IsQuiet env
        → ((save fmt env c expected_generation i w).0
            ≡ done (stored_of fmt c (generation_of o + 1) i))
          × ((save fmt env c expected_generation i w).1.disk
              ≡ tidy (some (raw_record fmt c (generation_of o + 1) i)) (raw_of o))
          × ((save fmt env c expected_generation i w).1.durable
              ≡ tidy (some (raw_record fmt c (generation_of o + 1) i)) (raw_of o))
    save_complete =
        act_complete fmt laws c i old o reads fits id room backup p reads_backup w on_disk
          in_durable env (raw_of o) (save fmt env c expected_generation i) saves
