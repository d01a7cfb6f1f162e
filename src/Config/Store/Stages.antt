-- ===== src/Config/Store/Stages.antt =====
-- src/rcm/config/store.py: the two stages of a commit, for what its files may hold, and the rules of
-- the store's larger steps in them.
use rcm_windows.Prelude.{
  if◌then◌else◌, ◌+◌, ◌≡◌, refl, sym, subst, ◌⊎◌, inl, true, Option, none, some,
}
use rcm_windows.Config.Disk.{
  look, put, Action, is_present, ◌>>=◌, return, read, FileName, Disk, Environment, World,
  target_file, backup_file, backup_temp_file, temp_file, journal_file, journal_temp_file,
}
use rcm_windows.Config.Formats.{
  with_phase, journal_bytes, decode_journal, Format, Record, JournalPhase, Journal, done,
}
use rcm_windows.Config.Safe.{weaken-Safe, return-Safe, next-Safe, lift-Safe}
use rcm_windows.Config.Safe.Steps.{
  Shaped, Holds, Rule, exists-Safe, read-Safe, fsync_directory-Safe, unlink-Safe,
}
use rcm_windows.Config.Store.{
  generation_of, raw_of, same_content, decode_present, prepared_journal, read_if_present,
  read_record_if_present, clean_transaction_residue,
}

-- An old content of the target, the new one, and what is decoded from both and from the journal.
pub record Change {Config Bytes : Type 0} (fmt : Format Config Bytes) : Type 0 where
  pub old : Option Bytes
  pub old_record : Option (Record Config Bytes)
  pub new : Bytes
  pub new_record : Record Config Bytes
  pub read_old : decode_present fmt old ≡ done old_record
  pub raw_old : raw_of old_record ≡ old
  pub same_old : same_content fmt old (raw_of old_record) ≡ true
  pub read_new : decode_present fmt (some new) ≡ done (some new_record)
  pub newer : new_record.stored.generation ≡ generation_of old_record + 1
  pub named : new_record.raw_checksum ≡ fmt.sha256 new
  pub read_journal :
      (p : JournalPhase)
      → decode_journal fmt (journal_bytes fmt (with_phase p (prepared_journal fmt old_record new)))
        ≡ done (with_phase p (prepared_journal fmt old_record new))

-- Either the journal is absent, with one content of the target, or a commit is under way.
pub data Stage (Bytes : Type 0) : Type 0 where
  settled : Option Bytes → Stage Bytes
  moving : Stage Bytes

module _ {Config Bytes : Type 0} {fmt : Format Config Bytes} (t : Change fmt) where
  abbrev pub OldOrNew : Option Bytes → Type 0
  OldOrNew c = (c ≡ t.old) ⊎ (c ≡ some t.new)

  abbrev pub journal_at : JournalPhase → Journal
  journal_at p = with_phase p (prepared_journal fmt t.old_record t.new)

  abbrev pub Readable : Option Bytes → Type 0
  Readable c = (o : Option (Record Config Bytes)) × (decode_present fmt c ≡ done o)

  abbrev pub Allowed : Stage Bytes → FileName → Option Bytes → Type 0
  Allowed s backup_file c = Readable c
  Allowed (settled x) target_file c = (c ≡ x) × OldOrNew x
  Allowed (settled x) journal_file c = c ≡ none
  Allowed moving target_file c = OldOrNew c
  Allowed moving temp_file c = (c ≡ none) ⊎ (c ≡ some t.new)
  Allowed moving journal_file c =
      (c ≡ none) ⊎ ((p : JournalPhase) × (c ≡ some (journal_bytes fmt (journal_at p))))
  Allowed s p c = Unit

  -- The disk after `clean_transaction_residue`.
  abbrev pub cleaned : Disk Bytes → Disk Bytes
  cleaned k =
      put journal_file none
        (put journal_temp_file none (put backup_temp_file none (put temp_file none k)))

module _ {Config Bytes : Type 0} {fmt : Format Config Bytes} (t : Change fmt)
    (In : Stage Bytes → Type 0) where
  abbrev pub Found : Stage Bytes → Disk Bytes → Disk Bytes → World Bytes → Type 0
  Found s k u w = Holds (Allowed t) In s k u w

  abbrev pub Stable : Stage Bytes → World Bytes → Type 0
  Stable s w = Shaped (Allowed t) s w.disk × Shaped (Allowed t) s w.durable × In s

  pub still : (s : Stage Bytes) {k u : Disk Bytes} (w : World Bytes) → Found s k u w → Stable s w
  still s w ((e, f), h, g, n) =
      (subst (Shaped (Allowed t) s) (sym e) h, subst (Shaped (Allowed t) s) (sym f) g, n)

  module _ (env : Environment Bytes) where
    abbrev pub Runs :
        {A : Type 0} → (World Bytes → Type 0) → (A → World Bytes → Type 0) → Action Bytes A → Type 0
    Runs P Q m = Rule (Allowed t) In env P Q m

    present_case :
        (s : Stage Bytes) {k u : Disk Bytes} (p : FileName) (c : Option Bytes)
        → look p k ≡ c
        → Runs
            (Found s k u)
            (λ x w. Found s k u w × (x ≡ c))
            (if is_present c then (do b ← read env p; return (some b)) else return none)
    present_case s p none e = return-Safe env none (λ w h. (h, refl))
    present_case s p (some b) e =
        next-Safe env _ (read-Safe (Allowed t) In env s p b e)
          (return-Safe env (some b) (λ w h. (h, refl)))

    pub read_if_present-Safe :
        (s : Stage Bytes) {k u : Disk Bytes} (p : FileName)
        → Runs (Found s k u) (λ x w. Found s k u w × (x ≡ look p k)) (read_if_present fmt env p)
    unfolding read_if_present
    read_if_present-Safe s {k} p =
        next-Safe env _ (exists-Safe (Allowed t) In env s p) (present_case s p (look p k) refl)

    pub read_record-Safe :
        (s : Stage Bytes) {k u : Disk Bytes} (p : FileName) (o : Option (Record Config Bytes))
        → decode_present fmt (look p k) ≡ done o
        → Runs (Found s k u) (λ x w. Found s k u w × (x ≡ o)) (read_record_if_present fmt env p)
    unfolding read_record_if_present
    read_record-Safe s p o e = next-Safe env _ (read_if_present-Safe s p) (lift-Safe env e)

    pub no_temp : (s : Stage Bytes) → Allowed t s temp_file none
    no_temp (settled x) = tt
    no_temp moving = inl refl

    no_journal : (s : Stage Bytes) → Allowed t s journal_file none
    no_journal (settled x) = refl
    no_journal moving = inl refl

    pub any_rest :
        (s : Stage Bytes) (c : Option Bytes)
        → Allowed t s backup_temp_file c × Allowed t s journal_temp_file c
    any_rest (settled x) c = (tt, tt)
    any_rest moving c = (tt, tt)

    pub clean-Safe :
        (s : Stage Bytes) {k u : Disk Bytes}
        → Runs
            (Found s k u)
            (λ x w. Found s (cleaned t k) (cleaned t k) w × (x ≡ tt))
            (clean_transaction_residue fmt env)
    unfolding clean_transaction_residue
    clean-Safe s {k} {u} =
        next-Safe env _ (unlink-Safe (Allowed t) In env s temp_file (no_temp s)) (
          next-Safe env _ (unlink-Safe (Allowed t) In env s backup_temp_file (any_rest s none).0) (
            next-Safe env _ (unlink-Safe (Allowed t) In env s journal_temp_file (any_rest s none).1)
              (next-Safe env _ (unlink-Safe (Allowed t) In env s journal_file (no_journal s))
                (fsync_directory-Safe (Allowed t) In env s))))

    -- A rule for all contents of a stage.
    pub all_contents-Safe :
        {A : Type 0} (s : Stage Bytes) {Q : A → World Bytes → Type 0} (m : Action Bytes A)
        → ((k u : Disk Bytes) → Runs (Found s k u) Q m)
        → Runs (Stable s) Q m
    all_contents-Safe s m h = record {
      safe = λ w p. (h w.disk w.durable).safe w ((refl, refl), p.0, p.1, p.2);
    }

    pub forget-Safe :
        {A : Type 0} (s : Stage Bytes) {k u k' u' : Disk Bytes} {a : A} {m : Action Bytes A}
        → Runs (Found s k u) (λ x w. Found s k' u' w × (x ≡ a)) m
        → Runs (Found s k u) (λ x w. Stable s w) m
    forget-Safe s h = weaken-Safe env (λ w p. p) (λ x w p. still s w p.0) h

    -- The shape of the contents may be used.
    pub shape_given-Safe :
        {A : Type 0} (s : Stage Bytes) {k u : Disk Bytes} {Q : A → World Bytes → Type 0}
        {m : Action Bytes A}
        → (Shaped (Allowed t) s k → Runs (Found s k u) Q m)
        → Runs (Found s k u) Q m
    shape_given-Safe s h = record { safe = λ w p. (h p.1).safe w p }
