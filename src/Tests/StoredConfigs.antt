-- ===== src/Tests/StoredConfigs.antt =====
-- The store of the configuration at concrete inputs, with the format of PlainFormat.
use rcm_windows.Prelude.{
  ◌==◌, if◌then◌else◌, ℕ, ◌≡◌, refl, ◌⊎◌, Bool, true, false, none, some, [], ◌∷◌,
}
use rcm_windows.Config.Disk.{
  FileName, Environment, World, target_file, temp_file, power_fails, acquired,
}
use rcm_windows.Config.Formats.{
  try, record_bytes, decode_record, journal_bytes, decode_journal, Json, null, power_loss, done,
  failed, replaced,
}
use rcm_windows.Config.Codec.{
  journal_of, stored_of, raw_record, loaded_of, record_of, decode_journal-journal_bytes, decode_raw,
  decode_record-record_bytes,
}
use rcm_windows.Tests.PlainFormat.{
  zeros, normal_settings, plain, sixty_four, plain-Laws, Settings, slashes, backslashes,
}
use rcm_windows.Config.Decoding.{decode_record-Sound, Sound}
use rcm_windows.Config.Safe.{IsQuiet}
use rcm_windows.Config.Store.{decode_present, load, save}
use rcm_windows.Config.Store.Commit.{tidy}
use rcm_windows.Config.Store.Crash.{after_loads}
use rcm_windows.Config.Store.Saved.{save-atomic, save-durable, save_complete}
use rcm_windows.Config.Store.Rollback.{rollback_previous}
use rcm_windows.Config.Store.Restored.{rollback_previous-atomic, rollback_previous_complete}

abbrev first_config : Settings
first_config = record { enabled = true; nodes = "head" ∷ "n1" ∷ []; path = backslashes }

-- It is saved with slashes, which the schema turns.
abbrev second_config : Settings
second_config = record { enabled = false; nodes = "head" ∷ []; path = slashes }

abbrev keeps : FileName → Bool
keeps target_file = false
keeps temp_file = false
keeps _ = true

-- Power goes at the given step: the target and the staged file stay as they were synced.
abbrev power_at : ℕ → Environment Json
power_at k = record {
  interrupted = λ n.
      if n == k
      then some (record { cause = power_fails; junk = some null; happened = true; kept = keeps })
      else none;
  lock = acquired;
  parent = none;
}

abbrev calm : Environment Json
calm = record { interrupted = λ n. none; lock = acquired; parent = none }

calm-IsQuiet : IsQuiet calm
calm-IsQuiet = (λ n. refl, refl, refl)

abbrev old_raw : Json
old_raw = raw_record plain first_config 1 none

abbrev start : World Json
start = record { disk = tidy (some old_raw) none; durable = tidy (some old_raw) none; steps = 0 }

old_reads :
    decode_present plain (some old_raw)
    ≡ done (some (record_of plain plain-Laws first_config 1 none))
old_reads = rw (decode_raw plain plain-Laws first_config 1 none (refl, refl) refl refl)

save-atomic_example :
    let v =
      after_loads plain
        ((power_at 26, false) ∷ [])
        (save plain (power_at 20) second_config (some 1) none start).1 in
    ((load plain calm true v).0 ≡ done (loaded_of plain plain-Laws first_config 1 none))
    ⊎ ((load plain calm true v).0 ≡ done (loaded_of plain plain-Laws second_config 2 none))
save-atomic_example =
    save-atomic plain plain-Laws second_config none (some old_raw)
      (some (record_of plain plain-Laws first_config 1 none)) old_reads (refl, refl) refl refl
      (some 1) refl refl (power_at 20) none none refl start refl refl ((power_at 26, false) ∷ [])
      calm true calm-IsQuiet

save_power_lost : (save plain (power_at 20) second_config (some 1) none start).0 ≡ failed power_loss
unfolding save load
save_power_lost = refl

save_returns :
    (save plain (power_at 100) second_config (some 1) none start).0
    ≡ done (stored_of plain second_config 2 none)
unfolding save
save_returns = refl

save-durable_example :
    (load plain calm true (
      after_loads plain
        ((power_at 45, false) ∷ [])
        (save plain (power_at 100) second_config (some 1) none start).1)).0
    ≡ done (loaded_of plain plain-Laws second_config 2 none)
save-durable_example =
    save-durable plain plain-Laws second_config none (some old_raw)
      (some (record_of plain plain-Laws first_config 1 none)) old_reads (refl, refl) refl refl
      (some 1) refl refl (power_at 100) none none refl start refl refl ((power_at 45, false) ∷ [])
      calm true (stored_of plain second_config 2 none) calm-IsQuiet save_returns

save_complete_example :
    ((save plain calm second_config (some 1) none start).0
      ≡ done (stored_of plain second_config 2 none))
    × ((save plain calm second_config (some 1) none start).1.disk
        ≡ tidy (some (raw_record plain second_config 2 none)) (some old_raw))
    × ((save plain calm second_config (some 1) none start).1.durable
        ≡ tidy (some (raw_record plain second_config 2 none)) (some old_raw))
save_complete_example =
    save_complete plain plain-Laws second_config none (some old_raw)
      (some (record_of plain plain-Laws first_config 1 none)) old_reads (refl, refl) refl refl
      (some 1) refl refl calm none none refl start refl refl calm-IsQuiet

abbrev second_raw : Json
second_raw = raw_record plain second_config 2 none

abbrev second : World Json
second = record {
  disk = tidy (some second_raw) (some old_raw);
  durable = tidy (some second_raw) (some old_raw);
  steps = 0;
}

rollback_previous-atomic_example :
    let v =
      after_loads plain
        ((power_at 26, false) ∷ [])
        (rollback_previous plain (power_at 20) 2 1 zeros none second).1 in
    ((load plain calm true v).0 ≡ done (loaded_of plain plain-Laws second_config 2 none))
    ⊎ ((load plain calm true v).0 ≡ done (loaded_of plain plain-Laws first_config 3 none))
unfolding plain-Laws
rollback_previous-atomic_example =
    rollback_previous-atomic plain plain-Laws second_raw
      (record_of plain plain-Laws second_config 2 none)
      (decode_raw plain plain-Laws second_config 2 none (refl, refl) refl refl) old_raw
      (record_of plain plain-Laws first_config 1 none)
      (decode_raw plain plain-Laws first_config 1 none (refl, refl) refl refl) refl refl
      (power_at 20) second refl refl ((power_at 26, false) ∷ []) calm true calm-IsQuiet

rollback_previous_complete_example :
    ((rollback_previous plain calm 2 1 zeros none second).0
      ≡ done (stored_of plain (normal_settings first_config) 3 none))
    × ((rollback_previous plain calm 2 1 zeros none second).1.disk
        ≡ tidy (some (raw_record plain first_config 3 none)) (some old_raw))
    × ((rollback_previous plain calm 2 1 zeros none second).1.durable
        ≡ tidy (some (raw_record plain first_config 3 none)) (some old_raw))
unfolding plain-Laws
rollback_previous_complete_example =
    rollback_previous_complete plain plain-Laws second_raw
      (record_of plain plain-Laws second_config 2 none)
      (decode_raw plain plain-Laws second_config 2 none (refl, refl) refl refl) old_raw
      (record_of plain plain-Laws first_config 1 none)
      (decode_raw plain plain-Laws first_config 1 none (refl, refl) refl refl) refl refl calm second
      refl refl calm-IsQuiet

decode_record-record_bytes_example :
    try (record_bytes plain second_config 7 (some zeros)) (decode_record plain)
    ≡ done (record_of plain plain-Laws second_config 7 (some zeros))
decode_record-record_bytes_example =
    decode_record-record_bytes plain plain-Laws second_config 7 (some zeros) (refl, refl) refl
      sixty_four

decode_journal-journal_bytes_example :
    decode_journal plain (journal_bytes plain (journal_of 1 zeros replaced (some zeros)))
    ≡ done (journal_of 1 zeros replaced (some zeros))
decode_journal-journal_bytes_example =
    decode_journal-journal_bytes plain plain-Laws replaced 1 (some zeros) zeros refl sixty_four refl
      sixty_four

decode_record-Sound_example :
    Sound plain (loaded_of plain plain-Laws first_config 1 none)
    × (old_raw ≡ old_raw)
    × (zeros ≡ zeros)
decode_record-Sound_example =
    decode_record-Sound plain old_raw (record_of plain plain-Laws first_config 1 none)
      (decode_raw plain plain-Laws first_config 1 none (refl, refl) refl refl)
