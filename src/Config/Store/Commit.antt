-- ===== src/Config/Store/Commit.antt =====
-- src/rcm/config/store.py: `_commit_locked`, from a tidy directory.
use rcm_windows.Prelude.{ltb, ◌+◌, String, ◌≡◌, refl, ap, ◌∙◌, inl, inr, true, Option, none, some}
use rcm_windows.Config.Disk.{
  put, Disk, Environment, World, target_file, backup_file, backup_temp_file, temp_file,
  journal_file, journal_temp_file,
}
use rcm_windows.Config.Formats.{
  check, max_generation, record_bytes, journal_bytes, Format, StoredConfig, Record, JournalPhase,
  generation_error, done, prepared, replaced, committed,
}
use rcm_windows.Config.Safe.{weaken-Safe, next-Safe, lift-Safe, taken-Safe}
use rcm_windows.Config.Safe.Steps.{
  Shaped, exists-Safe, checkpoint-Safe, fsync_directory-Safe, unlink-Safe, write_synced-Safe,
  replace_synced-Safe,
}
use rcm_windows.Config.Store.{
  generation_of, raw_of, decode_present, stored_result, write_journal, back_up, replace_target,
  commit_locked,
}
use rcm_windows.Config.Store.Stages.{
  journal_at, Readable, Allowed, Found, Runs, read_if_present-Safe, clean-Safe, Change, Stage,
  settled, moving,
}

-- All the stages.
abbrev pub Every : {Bytes : Type 0} → Stage Bytes → Type 0
Every s = Unit

-- A directory with these files.
abbrev pub files :
    {Bytes : Type 0} → Option Bytes → Option Bytes → Option Bytes → Option Bytes → Disk Bytes
files target backup temp journal = record {
  target = target;
  backup = backup;
  backup_temp = none;
  temp = temp;
  journal = journal;
  journal_temp = none;
}

-- The target and its backup, and nothing else.
abbrev pub tidy : {Bytes : Type 0} → Option Bytes → Option Bytes → Disk Bytes
tidy target backup = files target backup none none

module _ {Config Bytes : Type 0} {fmt : Format Config Bytes} (t : Change fmt)
    (env : Environment Bytes) where
  abbrev kept : Option Bytes
  kept = raw_of t.old_record

  Readable-old : Readable t kept
  Readable-old = (t.old_record, ap (decode_present fmt) t.raw_old ∙ t.read_old)

  back_up_case :
      (o : Option (Record Config Bytes)) (b : Option Bytes)
      → Readable t (raw_of o)
      → Runs t Every env
          (Found t Every (settled t.old) (tidy t.old b) (tidy t.old b))
          (λ x w.
            Found t Every (settled t.old) (tidy t.old (raw_of o)) (tidy t.old (raw_of o)) w
            × (x ≡ tt))
          (back_up fmt env o)
  unfolding back_up
  back_up_case (some r) b h =
      next-Safe env _
        (write_synced-Safe (Allowed t) Every env (settled t.old) backup_temp_file r.raw refl
          (λ _. tt))
        (replace_synced-Safe (Allowed t) Every env (settled t.old) backup_temp_file backup_file
          r.raw refl tt h)
  back_up_case none none h =
      next-Safe env _ (exists-Safe (Allowed t) Every env (settled t.old) backup_file)
        (lift-Safe env refl)
  back_up_case none (some b) h =
      next-Safe env _ (exists-Safe (Allowed t) Every env (settled t.old) backup_file) (
        next-Safe env _ (unlink-Safe (Allowed t) Every env (settled t.old) backup_file h)
          (fsync_directory-Safe (Allowed t) Every env (settled t.old)))

  pub write_journal-Safe :
      {k u : Disk Bytes} (p : JournalPhase)
      → k.journal_temp ≡ none
      → Runs t Every env
          (Found t Every moving k u)
          (λ x w.
            Found t Every moving
              (put journal_file
                (some (journal_bytes fmt (journal_at t p)))
                (put journal_temp_file none k))
              (put journal_file
                (some (journal_bytes fmt (journal_at t p)))
                (put journal_temp_file none k))
              w
            × (x ≡ tt))
          (write_journal fmt env (journal_at t p))
  unfolding write_journal
  write_journal-Safe p e =
      next-Safe env _
        (write_synced-Safe (Allowed t) Every env moving journal_temp_file _ e (λ _. tt))
        (replace_synced-Safe (Allowed t) Every env moving journal_temp_file journal_file _ refl tt
          (inr (p, refl)))

  -- From the prepared journal on, with one content of the backup.
  module _ (kept : Option Bytes) (readable : Readable t kept) where
    pub replace_target-Safe :
        Runs t Every env
          (Found t Every moving
            (files t.old kept (some t.new) (some (journal_bytes fmt (journal_at t prepared))))
            (files t.old kept (some t.new) (some (journal_bytes fmt (journal_at t prepared)))))
          (λ x w.
            Found t Every moving (tidy (some t.new) kept) (tidy (some t.new) kept) w × (x ≡ tt))
          (replace_target fmt env (journal_at t prepared))
    unfolding replace_target
    replace_target-Safe =
        next-Safe env _
          (replace_synced-Safe (Allowed t) Every env moving temp_file target_file t.new refl
            (inl refl) (inr refl))
          (next-Safe env _ (checkpoint-Safe (Allowed t) Every env moving) (
            next-Safe env _ (write_journal-Safe replaced refl) (
              next-Safe env _ (checkpoint-Safe (Allowed t) Every env moving) (
                next-Safe env _ (write_journal-Safe committed refl) (
                  next-Safe env _ (checkpoint-Safe (Allowed t) Every env moving) (
                    next-Safe env _ (clean-Safe t Every env moving)
                      (checkpoint-Safe (Allowed t) Every env moving)))))))

    -- From the settled stage to the moving one, where the staged file is absent or the new one.
    pub starts :
        (w : World Bytes)
        → Found t Every (settled t.old) (files t.old kept (some t.new) none) (tidy t.old kept) w
        → Found t Every moving (files t.old kept (some t.new) none) (tidy t.old kept) w
    starts w (e, h, g, n) = (e, shape_one, shape_two, tt)
      where
        shape_one : Shaped (Allowed t) moving (files t.old kept (some t.new) none)
        shape_one target_file = inl refl
        shape_one backup_file = readable
        shape_one temp_file = inr refl
        shape_one journal_file = inl refl
        shape_one backup_temp_file = tt
        shape_one journal_temp_file = tt

        shape_two : Shaped (Allowed t) moving (tidy t.old kept)
        shape_two target_file = inl refl
        shape_two backup_file = readable
        shape_two temp_file = inl refl
        shape_two journal_file = inl refl
        shape_two backup_temp_file = tt
        shape_two journal_temp_file = tt

    pub ends :
        (w : World Bytes)
        → Found t Every moving (tidy (some t.new) kept) (tidy (some t.new) kept) w
        → Found t Every (settled (some t.new)) (tidy (some t.new) kept) (tidy (some t.new) kept) w
    ends w (e, h, g, n) = (e, shape, shape, tt)
      where
        shape : Shaped (Allowed t) (settled (some t.new)) (tidy (some t.new) kept)
        shape target_file = (refl, inr refl)
        shape backup_file = readable
        shape temp_file = tt
        shape journal_file = refl
        shape backup_temp_file = tt
        shape journal_temp_file = tt

  module _ (c : Config) (transaction_id : Option String) (stored : StoredConfig Config)
      (room : ltb (generation_of t.old_record) max_generation ≡ true)
      (bytes : record_bytes fmt c (generation_of t.old_record + 1) transaction_id ≡ done t.new)
      (result : stored_result fmt c (generation_of t.old_record + 1) transaction_id
        ≡ done stored) where
    pub commit-Safe :
        (b : Option Bytes)
        → Runs t Every env
            (Found t Every (settled t.old) (tidy t.old b) (tidy t.old b))
            (λ x w.
              Found t Every
                (settled (some t.new))
                (tidy (some t.new) kept)
                (tidy (some t.new) kept)
                w
              × (x ≡ stored))
            (commit_locked fmt env c t.old_record transaction_id)
    unfolding commit_locked
    commit-Safe b = next-Safe env _ (lift-Safe env (ap (λ x. check x generation_error) room)) (
        next-Safe env _ (lift-Safe env bytes) (
          next-Safe env _ (back_up_case t.old_record b Readable-old) (
            next-Safe env _ (checkpoint-Safe (Allowed t) Every env (settled t.old)) (
              next-Safe env _
                (write_synced-Safe (Allowed t) Every env (settled t.old) temp_file t.new refl
                  (λ _. tt))
                (next-Safe env _ (checkpoint-Safe (Allowed t) Every env (settled t.old)) (
                  weaken-Safe env (starts kept Readable-old) (λ _ _ h. h)
                    (next-Safe env _ (write_journal-Safe prepared refl) (
                      next-Safe env _ (checkpoint-Safe (Allowed t) Every env moving) (
                        next-Safe env _ (read_if_present-Safe t Every env moving target_file) (
                          next-Safe env _ (taken-Safe env _ _ t.same_old (lift-Safe env refl)) (
                            next-Safe env _ (replace_target-Safe kept Readable-old) (
                              weaken-Safe env (ends kept Readable-old) (λ _ _ h. h)
                                (lift-Safe env result)))))))))))))
