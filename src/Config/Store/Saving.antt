-- ===== src/Config/Store/Saving.antt =====
-- src/rcm/config/store.py: `save` as a whole, from a tidy directory.
use rcm_windows.Config.Store.Atomic.{under_lock-Safe}
use rcm_windows.Prelude.{
  ltb, if◌then◌else◌, ℕ, ◌+◌, String, ◌≡◌, refl, ap, Bool, true, false, Option, none, some,
}
use rcm_windows.Config.Disk.{
  look, is_present, ◌>>=◌, ◌>>◌, return, exists, unlink, FileName, Disk, Environment, World,
  target_file, backup_temp_file, temp_file, journal_file, journal_temp_file,
}
use rcm_windows.Config.Formats.{
  check, max_generation, is_id, canonical_config_bytes, record_bytes, Format, StoredConfig,
  conflict, bad_value, done,
}
use rcm_windows.Config.Safe.{next-Safe, lift-Safe, skipped-Safe}
use rcm_windows.Config.Safe.Steps.{InStage, exists-Safe}
use rcm_windows.Config.Store.{
  expects, in_range, generation_of, raw_of, sweep, recover_without_journal, recover, save,
}
use rcm_windows.Config.Store.Stages.{
  Allowed, Found, still, Runs, read_record-Safe, Change, Stage, settled,
}
use rcm_windows.Config.Store.Commit.{Every, tidy, commit-Safe}

module _ {Config Bytes : Type 0} {fmt : Format Config Bytes} (t : Change fmt)
    (env : Environment Bytes) where
  pub in_stage :
      (s : Stage Bytes) (k u : Disk Bytes) (w : World Bytes)
      → Found t Every s k u w
      → InStage (Allowed t) Every w
  in_stage s k u w p = let (h, g, n) = still t Every s w p in (s, h, g, n)

  -- Nothing to recover.
  pub idle-Safe :
      (b : Option Bytes)
      → Runs t Every env
          (Found t Every (settled t.old) (tidy t.old b) (tidy t.old b))
          (λ x w. Found t Every (settled t.old) (tidy t.old b) (tidy t.old b) w × (x ≡ tt))
          (recover fmt env)
  unfolding recover recover_without_journal sweep
  idle-Safe b = next-Safe env _ (exists-Safe (Allowed t) Every env (settled t.old) journal_file) (
      next-Safe env _ (absent temp_file false refl) (
        next-Safe env _ (absent backup_temp_file false refl)
          (next-Safe env _ (absent journal_temp_file false refl) (lift-Safe env refl))))
    where
      absent :
          (p : FileName) (c : Bool)
          → look p (tidy t.old b) ≡ none
          → Runs t Every env
              (Found t Every (settled t.old) (tidy t.old b) (tidy t.old b))
              (λ x w. Found t Every (settled t.old) (tidy t.old b) (tidy t.old b) w × (x ≡ c))
              (do there ← exists env p; if there then (do unlink env p; return true) else return c)
      absent p c e =
          next-Safe env _ (exists-Safe (Allowed t) Every env (settled t.old) p)
            (skipped-Safe env _ _ (ap is_present e) (lift-Safe env refl))

  module _ (c : Config) (expected_generation : Option ℕ) (transaction_id : Option String)
      (payload : Bytes) (fits : canonical_config_bytes fmt c ≡ done payload)
      (expected : expects expected_generation (generation_of t.old_record) ≡ true)
      (ranged : in_range expected_generation ≡ true) (named : is_id transaction_id ≡ true)
      (room : ltb (generation_of t.old_record) max_generation ≡ true)
      (bytes : record_bytes fmt c (generation_of t.old_record + 1) transaction_id
        ≡ done t.new) where
    abbrev pub saved : StoredConfig Config
    saved = record {
      config = c;
      generation = generation_of t.old_record + 1;
      checksum = fmt.sha256 payload;
      transaction_id = transaction_id;
    }

    pub save-Safe :
        (b : Option Bytes)
        → Runs t Every env
            (Found t Every (settled t.old) (tidy t.old b) (tidy t.old b))
            (λ x w.
              Found t Every
                (settled (some t.new))
                (tidy (some t.new) (raw_of t.old_record))
                (tidy (some t.new) (raw_of t.old_record))
                w
              × (x ≡ saved))
            (save fmt env c expected_generation transaction_id)
    unfolding save
    save-Safe b = next-Safe env _ (lift-Safe env fits) (
        next-Safe env _ (lift-Safe env (ap (λ x. check x bad_value) ranged)) (
          next-Safe env _ (lift-Safe env (ap (λ x. check x bad_value) named)) (
            under_lock-Safe fmt env (in_stage (settled t.old) (tidy t.old b) (tidy t.old b)) (
              next-Safe env _ (idle-Safe b) (
                next-Safe env _
                  (read_record-Safe t Every env (settled t.old) target_file t.old_record t.read_old)
                  (next-Safe env _ (lift-Safe env (ap (λ x. check x conflict) expected))
                    (commit-Safe t env c transaction_id saved room bytes (rw fits) b)))))))
