-- ===== src/Config/Store/Restored.antt =====
-- src/rcm/config/store.py: `rollback_previous` as a replacement of the target.
use rcm_windows.Prelude.{
  ltb, ◌==◌, ==_self, ◌+◌, ◌-◌, String, ◌≡◌, refl, ap, subst, ◌⊎◌, Bool, true, ◌&&◌, Option, none,
  some, List, str_eq, eq_iff, eq_refl,
}
use rcm_windows.Config.Disk.{Environment, World, target_file, backup_file, temp_file}
use rcm_windows.Config.Formats.{
  check, max_generation, is_checksum, is_id, decode_record, Format, Record, generation_error,
  conflict, bad_value, done, prepared,
}
use rcm_windows.Config.Codec.{
  payload_of, stored_of, raw_record, loaded_of, canonical, record_bytes_lem,
}
use rcm_windows.Config.Laws.{Laws}
use rcm_windows.Config.Decoding.{decode_record-Sound}
use rcm_windows.Config.Safe.{IsQuiet, weaken-Safe, next-Safe, lift-Safe, taken-Safe}
use rcm_windows.Config.Safe.Steps.{checkpoint-Safe, write_synced-Safe}
use rcm_windows.Config.Store.{same_content, decode_present, load}
use rcm_windows.Config.Store.Stages.{
  Readable, Allowed, Found, Runs, read_if_present-Safe, read_record-Safe, Change, settled, moving,
}
use rcm_windows.Config.Store.Commit.{
  Every, tidy, write_journal-Safe, replace_target-Safe, starts, ends,
}
use rcm_windows.Config.Store.Atomic.{under_lock-Safe}
use rcm_windows.Config.Store.Saving.{in_stage, idle-Safe}
use rcm_windows.Config.Store.Crash.{
  next_is_generation, after_loads, change, Replaces, act_atomic, act_complete,
}
use rcm_windows.Config.Store.Rollback.{
  is_expected, same_id, commit_rollback_locked, rollback_previous,
}

same_id_refl : (i : Option String) → same_id i i ≡ true
same_id_refl none = refl
same_id_refl (some s) = eq_refl s

module _ {Config Bytes : Type 0} (fmt : Format Config Bytes) (laws : Laws fmt) (raw : Bytes)
    (r : Record Config Bytes) (reads : decode_record fmt raw ≡ done r) (old_raw : Bytes)
    (b : Record Config Bytes) (reads_backup : decode_record fmt old_raw ≡ done b)
    (room : ltb r.stored.generation max_generation ≡ true)
    (previous : b.stored.generation ≡ r.stored.generation - 1) (env : Environment Bytes) where
  current_read : decode_present fmt (some raw) ≡ done (some r)
  current_read = rw reads

  backup_read : decode_present fmt (some old_raw) ≡ done (some b)
  backup_read = rw reads_backup

  unfoldable restoring : Change fmt
  unfolding change
  restoring =
      change fmt laws b.stored.config none (some raw) (some r) current_read
        ((decode_record-Sound fmt old_raw b reads_backup).0.config_fits) refl room

  abbrev new_raw : Bytes
  new_raw = raw_record fmt b.stored.config (r.stored.generation + 1) none

  checksum_form : is_checksum b.stored.checksum ≡ true
  checksum_form =
      let (h, e, f) = decode_record-Sound fmt old_raw b reads_backup in
      subst (λ s. is_checksum s ≡ true)
        ((eq_iff (fmt.sha256 (payload_of fmt b.stored.config)) b.stored.checksum).0
          h.checksum_right)
        (laws.sha256_hex (payload_of fmt b.stored.config))

  backup_Readable : Readable restoring (some old_raw)
  backup_Readable = (some b, backup_read)

  same_backup : same_content fmt (some old_raw) (some b.raw) ≡ true
  same_backup =
      let (h, e, f) = decode_record-Sound fmt old_raw b reads_backup in
      rw (e, laws.same_self old_raw)

  same_current : same_content fmt (some raw) (some r.raw) ≡ true
  same_current = let (h, e, f) = decode_record-Sound fmt raw r reads in rw (e, laws.same_self raw)

  both_same :
      (same_content fmt (some raw) (some r.raw) && same_content fmt (some old_raw) (some b.raw))
      ≡ true
  both_same = rw (same_current, same_backup)

  commit-Runs :
      Runs restoring Every env
        (Found restoring Every
          (settled (some raw))
          (tidy (some raw) (some old_raw))
          (tidy (some raw) (some old_raw)))
        (λ x v.
          Found restoring Every
            (settled (some new_raw))
            (tidy (some new_raw) (some old_raw))
            (tidy (some new_raw) (some old_raw))
            v
          × (x ≡ stored_of fmt b.stored.config (r.stored.generation + 1) none))
        (commit_rollback_locked fmt env b.stored.config r b)
  unfolding restoring change commit_rollback_locked
  commit-Runs = next-Safe env _ (lift-Safe env (ap (λ x. check x generation_error) room)) (
      next-Safe env _
        (lift-Safe env (
          record_bytes_lem fmt laws b.stored.config (r.stored.generation + 1) none
            ((decode_record-Sound fmt old_raw b reads_backup).0.config_fits)
            (next_is_generation r.stored.generation room) refl))
        (next-Safe env _ (checkpoint-Safe (Allowed restoring) Every env (settled (some raw))) (
          next-Safe env _
            (write_synced-Safe (Allowed restoring) Every env (settled (some raw)) temp_file new_raw
              refl (λ _. tt))
            (next-Safe env _ (checkpoint-Safe (Allowed restoring) Every env (settled (some raw))) (
              weaken-Safe env (starts restoring env (some old_raw) backup_Readable) (λ _ _ h. h)
                (next-Safe env _ (write_journal-Safe restoring env prepared refl) (
                  next-Safe env _ (checkpoint-Safe (Allowed restoring) Every env moving) (
                    next-Safe env _ (read_if_present-Safe restoring Every env moving target_file) (
                      next-Safe env _ (read_if_present-Safe restoring Every env moving backup_file)
                        (next-Safe env _ (taken-Safe env _ _ both_same (lift-Safe env refl)) (
                          next-Safe env _
                            (replace_target-Safe restoring env (some old_raw) backup_Readable)
                            (weaken-Safe env (ends restoring env (some old_raw) backup_Readable)
                              (λ _ _ h. h)
                              (lift-Safe env (
                                rw (
                                  canonical fmt laws b.stored.config (
                                    (decode_record-Sound fmt old_raw b
                                      reads_backup).0.config_fits))))))))))))))))

  -- The checks that the receipt passes.
  current_bounds : is_expected r.stored.generation ≡ true
  current_bounds = (decode_record-Sound fmt raw r reads).0.generation_bounds

  backup_bounds : is_expected b.stored.generation ≡ true
  backup_bounds = (decode_record-Sound fmt old_raw b reads_backup).0.generation_bounds

  id_form : is_id r.stored.transaction_id ≡ true
  id_form = (decode_record-Sound fmt raw r reads).0.id_form

  receipt :
      (b.stored.generation == b.stored.generation && str_eq b.stored.checksum b.stored.checksum)
      ≡ true
  receipt = rw (==_self b.stored.generation, eq_refl b.stored.checksum)

  adjacent : (b.stored.generation == r.stored.generation - 1) ≡ true
  adjacent = rw (previous, ==_self (r.stored.generation - 1))

  rolls :
      Replaces fmt laws b.stored.config none
        (some raw)
        (some r)
        current_read
        ((decode_record-Sound fmt old_raw b reads_backup).0.config_fits)
        refl
        room
        env
        (some old_raw)
        (some old_raw)
        (rollback_previous fmt env r.stored.generation b.stored.generation b.stored.checksum
          r.stored.transaction_id)
  unfolding restoring change rollback_previous
  rolls = next-Safe env _ (lift-Safe env (ap (λ x. check x bad_value) current_bounds)) (
      next-Safe env _ (lift-Safe env (ap (λ x. check x bad_value) backup_bounds)) (
        next-Safe env _ (lift-Safe env (ap (λ x. check x bad_value) checksum_form)) (
          next-Safe env _ (lift-Safe env (ap (λ x. check x bad_value) id_form)) (
            under_lock-Safe fmt env
              (in_stage restoring env (settled (some raw)) (tidy (some raw) (some old_raw))
                (tidy (some raw) (some old_raw)))
              (next-Safe env _ (idle-Safe restoring env (some old_raw)) (
                next-Safe env _
                  (read_record-Safe restoring Every env (settled (some raw)) target_file (some r)
                    current_read)
                  (next-Safe env _
                    (lift-Safe env (ap (λ x. check x conflict) (==_self r.stored.generation)))
                    (next-Safe env _
                      (lift-Safe env
                        (ap (λ x. check x conflict) (same_id_refl r.stored.transaction_id)))
                      (next-Safe env _
                        (read_record-Safe restoring Every env (settled (some raw)) backup_file
                          (some b) backup_read)
                        (next-Safe env _ (lift-Safe env (ap (λ x. check x conflict) adjacent)) (
                          next-Safe env _ (lift-Safe env (ap (λ x. check x conflict) receipt))
                            commit-Runs)))))))))))

  module _ (w : World Bytes) (on_disk : w.disk ≡ tidy (some raw) (some old_raw))
      (in_durable : w.durable ≡ tidy (some raw) (some old_raw)) where
    -- A rollback to a backup of the previous generation, from a tidy and synced directory, with its
    -- receipt and below the maximum: whatever interrupts it and the loads that follow, a load that is
    -- not interrupted gives the current record or the backup's configuration, normalised by the schema,
    -- at the next generation.
    pub rollback_previous-atomic :
        (loads : List (Environment Bytes × Bool)) (last : Environment Bytes) (require : Bool)
        → IsQuiet last
        → let v =
            after_loads fmt loads
              (rollback_previous fmt env r.stored.generation b.stored.generation b.stored.checksum
                r.stored.transaction_id w).1 in
          ((load fmt last require v).0 ≡ done r.stored)
          ⊎ ((load fmt last require v).0
              ≡ done (loaded_of fmt laws b.stored.config (r.stored.generation + 1) none))
    rollback_previous-atomic =
        act_atomic fmt laws b.stored.config none (some raw) (some r) current_read
          ((decode_record-Sound fmt old_raw b reads_backup).0.config_fits) refl room (some old_raw)
          (some b) backup_read w on_disk in_durable env (some old_raw)
          (rollback_previous fmt env r.stored.generation b.stored.generation b.stored.checksum
            r.stored.transaction_id)
          rolls

    -- Where nothing interrupts it, a rollback to a backup of the previous generation, from a tidy and
    -- synced directory, with its receipt and below the maximum, returns the backup's configuration at
    -- the next generation, and keeps the backup.
    pub rollback_previous_complete :
        IsQuiet env
        → ((rollback_previous fmt env r.stored.generation b.stored.generation b.stored.checksum
              r.stored.transaction_id w).0
            ≡ done (stored_of fmt b.stored.config (r.stored.generation + 1) none))
          × ((rollback_previous fmt env r.stored.generation b.stored.generation b.stored.checksum
                r.stored.transaction_id w).1.disk
              ≡ tidy (some new_raw) (some old_raw))
          × ((rollback_previous fmt env r.stored.generation b.stored.generation b.stored.checksum
                r.stored.transaction_id w).1.durable
              ≡ tidy (some new_raw) (some old_raw))
    rollback_previous_complete =
        act_complete fmt laws b.stored.config none (some raw) (some r) current_read
          ((decode_record-Sound fmt old_raw b reads_backup).0.config_fits) refl room (some old_raw)
          (some b) backup_read w on_disk in_durable env (some old_raw)
          (rollback_previous fmt env r.stored.generation b.stored.generation b.stored.checksum
            r.stored.transaction_id)
          rolls
