-- ===== src/Config/Disk.antt =====
-- src/rcm/config/store.py: the filesystem that the store is given, its faults, and the small steps
-- `_exists`, `_read`, `_write_synced`, `_replace_synced`, `_unlink` and `_checkpoint`.
--
-- `disk` is what a read finds; `durable` is what has been synced with the directory. At any step an
-- operation may fail with an `OSError`, the phase hook may raise, or the power may go: then each file
-- is found either as it was on the disk or as it was durable. A write that is interrupted, with its
-- sync, leaves anything in its file.
use rcm_windows.Prelude.{if◌then◌else◌, ℕ, ◌+◌, Bool, true, false, Option, none, some}
use rcm_windows.Config.Formats.{
  Failure, Outcome, io_error, disk_full, read_only, power_loss, hook_error, done, failed,
}

pub data FileName : Type 0 where
  target_file backup_file backup_temp_file temp_file journal_file journal_temp_file : FileName

pub record Disk (Bytes : Type 0) : Type 0 where
  pub target : Option Bytes
  pub backup : Option Bytes
  pub backup_temp : Option Bytes
  pub temp : Option Bytes
  pub journal : Option Bytes
  pub journal_temp : Option Bytes

module _ {Bytes : Type 0} where
  abbrev pub look : FileName → Disk Bytes → Option Bytes
  look target_file d = d.target
  look backup_file d = d.backup
  look backup_temp_file d = d.backup_temp
  look temp_file d = d.temp
  look journal_file d = d.journal
  look journal_temp_file d = d.journal_temp

  abbrev pub put : FileName → Option Bytes → Disk Bytes → Disk Bytes
  put target_file b d = record d { target = b }
  put backup_file b d = record d { backup = b }
  put backup_temp_file b d = record d { backup_temp = b }
  put temp_file b d = record d { temp = b }
  put journal_file b d = record d { journal = b }
  put journal_temp_file b d = record d { journal_temp = b }

  abbrev pub pick : Bool → Option Bytes → Option Bytes → Option Bytes
  pick true a b = a
  pick false a b = b

  -- Some files from the first disk and the others from the second.
  abbrev pub mix : (FileName → Bool) → Disk Bytes → Disk Bytes → Disk Bytes
  mix kept d e = record {
    target = pick (kept target_file) d.target e.target;
    backup = pick (kept backup_file) d.backup e.backup;
    backup_temp = pick (kept backup_temp_file) d.backup_temp e.backup_temp;
    temp = pick (kept temp_file) d.temp e.temp;
    journal = pick (kept journal_file) d.journal e.journal;
    journal_temp = pick (kept journal_temp_file) d.journal_temp e.journal_temp;
  }

-- errno, as far as `_map_os_error` looks at it.
pub data OsError : Type 0 where
  no_space access_denied other_error : OsError

-- _map_os_error
abbrev pub map_os_error : OsError → Failure
map_os_error no_space = disk_full
map_os_error access_denied = read_only
map_os_error other_error = io_error

pub data Cause : Type 0 where
  os_error : OsError → Cause
  hook_raises power_fails : Cause

abbrev pub failure_of : Cause → Failure
failure_of (os_error e) = map_os_error e
failure_of hook_raises = hook_error
failure_of power_fails = power_loss

pub record Interruption (Bytes : Type 0) : Type 0 where
  pub cause : Cause
  pub junk : Option Bytes
  pub happened : Bool
  pub kept : FileName → Bool

pub data LockOutcome : Type 0 where
  acquired timed_out : LockOutcome
  lock_failed : OsError → LockOutcome

-- What interrupts the steps, counted from the start, and how the lock and the directory are found.
pub record Environment (Bytes : Type 0) : Type 0 where
  pub interrupted : ℕ → Option (Interruption Bytes)
  pub lock : LockOutcome
  pub parent : Option OsError

pub record World (Bytes : Type 0) : Type 0 where
  pub disk : Disk Bytes
  pub durable : Disk Bytes
  pub steps : ℕ

abbrev pub Action {ℓ} : Type 0 → Type ℓ → Type ℓ
Action Bytes A = World Bytes → Outcome A × World Bytes

abbrev pub is_present {ℓ} : {A : Type ℓ} → Option A → Bool
is_present none = false
is_present (some a) = true

module _ {Bytes : Type 0} where
  abbrev pub bind {ℓ κ} :
      {A : Type ℓ} {B : Type κ}
      → Outcome A × World Bytes
      → (A → Action Bytes B)
      → Outcome B × World Bytes
  bind (done a, w) f = f a w
  bind (failed e, w) f = (failed e, w)

  infixl 5 ◌>>=◌ ◌>>◌
  abbrev pub ◌>>=◌ {ℓ κ} :
      {A : Type ℓ} {B : Type κ} → Action Bytes A → (A → Action Bytes B) → Action Bytes B
  (m >>= f) w = bind (m w) f

  abbrev pub ◌>>◌ {ℓ κ} :
      {A : Type ℓ} {B : Type κ} → Action Bytes A → Action Bytes B → Action Bytes B
  m >> k = m >>= λ _. k

  abbrev pub return {ℓ} : {A : Type ℓ} → A → Action Bytes A
  return a w = (done a, w)

  -- A computation that does not touch the disk.
  abbrev pub lift {ℓ} : {A : Type ℓ} → Outcome A → Action Bytes A
  lift o w = (o, w)

  -- What is found after the interruption of a step that left `torn`.
  abbrev pub after_fault : Cause → Interruption Bytes → Disk Bytes → World Bytes → World Bytes
  after_fault power_fails i torn w =
      let d = mix i.kept torn w.durable in record { disk = d; durable = d; steps = w.steps + 1 }
  after_fault _ i torn w = record w { disk = torn; steps = w.steps + 1 }

module _ {Bytes : Type 0} (env : Environment Bytes) where
  -- One step: its value and its effect on the disk, or what an interruption leaves of it.
  abbrev pub step_with {ℓ} :
      {A : Type ℓ}
      → Option (Interruption Bytes)
      → (World Bytes → Outcome A × World Bytes)
      → (Interruption Bytes → Disk Bytes → Disk Bytes)
      → Action Bytes A
  step_with none act torn w = let (o, v) = act w in (o, record v { steps = w.steps + 1 })
  step_with (some i) act torn w =
      (failed (failure_of i.cause), after_fault i.cause i (torn i w.disk) w)

  unfoldable pub step {ℓ} :
      {A : Type ℓ}
      → (World Bytes → Outcome A × World Bytes)
      → (Interruption Bytes → Disk Bytes → Disk Bytes)
      → Action Bytes A
  step act torn w = step_with (env.interrupted w.steps) act torn w

  abbrev pub unchanged : Interruption Bytes → Disk Bytes → Disk Bytes
  unchanged i d = d

  unfoldable pub exists : FileName → Action Bytes Bool
  unfolding step
  exists p = step (λ w. (done (is_present (look p w.disk)), w)) unchanged

  abbrev pub read_value : Option Bytes → Outcome Bytes
  read_value none = failed io_error
  read_value (some b) = done b

  unfoldable pub read : FileName → Action Bytes Bytes
  unfolding step
  read p = step (λ w. (read_value (look p w.disk), w)) unchanged

  -- The file is created exclusively, so an existing one is an error.
  abbrev pub write_value : FileName → Bytes → Option Bytes → Action Bytes (Unit {0})
  write_value p b (some old) w = (failed io_error, w)
  write_value p b none w = (done tt, record w { disk = put p (some b) w.disk })

  abbrev pub torn_write : FileName → Option Bytes → Interruption Bytes → Disk Bytes → Disk Bytes
  torn_write p (some old) i d = d
  torn_write p none i d = put p i.junk d

  -- _write_synced
  unfoldable pub write_synced : FileName → Bytes → Action Bytes (Unit {0})
  unfolding step
  write_synced p b =
      step (λ w. write_value p b (look p w.disk) w) (λ i d. torn_write p (look p d) i d)

  abbrev pub move_value : FileName → FileName → Option Bytes → Action Bytes (Unit {0})
  move_value s d none w = (failed io_error, w)
  move_value s d (some b) w = (done tt, record w { disk = put d (some b) (put s none w.disk) })

  abbrev pub torn_move : FileName → FileName → Option Bytes → Bool → Disk Bytes → Disk Bytes
  torn_move s d (some b) true k = put d (some b) (put s none k)
  torn_move s d _ _ k = k

  unfoldable pub replace : FileName → FileName → Action Bytes (Unit {0})
  unfolding step
  replace s d =
      step (λ w. move_value s d (look s w.disk) w) (λ i k. torn_move s d (look s k) i.happened k)

  unfoldable pub unlink : FileName → Action Bytes (Unit {0})
  unfolding step
  unlink p =
      step (λ w. (done tt, record w { disk = put p none w.disk }))
        (λ i d. if i.happened then put p none d else d)

  unfoldable pub fsync_directory : Action Bytes (Unit {0})
  unfolding step
  fsync_directory = step (λ w. (done tt, record w { durable = w.disk })) unchanged

  -- _replace_synced
  unfoldable pub replace_synced : FileName → FileName → Action Bytes (Unit {0})
  unfolding replace fsync_directory
  replace_synced s d = do replace s d; fsync_directory

  -- _checkpoint, with a phase hook that may raise.
  unfoldable pub checkpoint : Action Bytes (Unit {0})
  unfolding step
  checkpoint = step (λ w. (done tt, w)) unchanged
