-- ===== src/Config/Store/Recovery.antt =====
-- src/rcm/config/store.py: `_recover` in either stage of a commit.
use rcm_windows.Config.Safe.{
  then-Safe, weaken-Safe, return-Safe, next-Safe, lift-Safe, taken-Safe, skipped-Safe,
}
use rcm_windows.Config.Safe.Steps.{
  Shaped, exists-Safe, read-Safe, fsync_directory-Safe, unlink-Safe, replace_synced-Safe,
}
use rcm_windows.Prelude.{
  ==_self, ◌==◌, if◌then◌else◌, ℕ, ◌+◌, String, ◌≡◌, refl, sym, ap, ◌∙◌, subst, ◌⊎◌, inl, inr, Bool,
  true, false, ◌&&◌, ◌||◌, Option, none, some, arith, str_eq, eq_refl,
}
use rcm_windows.Config.Disk.{
  look, Action, is_present, ◌>>=◌, ◌>>◌, return, lift, read, unlink, fsync_directory,
  replace_synced, FileName, Disk, Environment, target_file, backup_file, backup_temp_file,
  temp_file, journal_file, journal_temp_file,
}
use rcm_windows.Config.Formats.{
  is_none, journal_bytes, decode_journal, Format, Record, JournalPhase, done,
}
use rcm_windows.Config.Store.{
  is_record, generation_of, checksum_of_raw, decode_present, read_record_if_present,
  clean_transaction_residue, sweep, recover_without_journal, replace_if, settle, recover,
}
use rcm_windows.Config.Store.Stages.{
  OldOrNew, journal_at, Allowed, Found, Stable, still, Runs, read_record-Safe, no_temp, any_rest,
  clean-Safe, all_contents-Safe, forget-Safe, shape_given-Safe, Change, Stage, settled, moving,
}

next_number : (n : ℕ) → (n == n + 1) ≡ false
next_number n = ground arith

no_and : (b : Bool) → (b && false) ≡ false
no_and true = refl
no_and false = refl

module _ {Config Bytes : Type 0} where
  pub old_is_not_new :
      (o : Option (Record Config Bytes)) (sum : String)
      → is_record o (generation_of o + 1) (some sum) ≡ false
  old_is_not_new none sum = refl
  old_is_not_new (some r) sum =
      rw (next_number r.stored.generation, no_and (str_eq r.raw_checksum sum))

  pub old_is_old :
      (o : Option (Record Config Bytes))
      → (is_record o (generation_of o) (checksum_of_raw o)
          || (is_none o && is_none (checksum_of_raw o)))
        ≡ true
  old_is_old none = refl
  old_is_old (some r) = rw (eq_refl r.raw_checksum, ==_self r.stored.generation)

module _ {Config Bytes : Type 0} {fmt : Format Config Bytes} (t : Change fmt) where
  pub new_is_new :
      is_record (some t.new_record) (generation_of t.old_record + 1) (some (fmt.sha256 t.new))
      ≡ true
  new_is_new =
      rw (t.named, t.newer, eq_refl (fmt.sha256 t.new), ==_self (generation_of t.old_record + 1))

  pub read_target :
      (c : Option Bytes)
      → OldOrNew t c
      → (o : Option (Record Config Bytes)) × (decode_present fmt c ≡ done o)
        × ((o ≡ t.old_record) ⊎ (o ≡ some t.new_record))
  read_target c (inl e) = (t.old_record, ap (decode_present fmt) e ∙ t.read_old, inl refl)
  read_target c (inr e) = (some t.new_record, ap (decode_present fmt) e ∙ t.read_new, inr refl)

  module _ (In : Stage Bytes → Type 0) (env : Environment Bytes) where
    clean_end :
        {k u : Disk Bytes}
        → Runs t In env
            (Found t In moving k u)
            (λ _ w. Stable t In moving w)
            (clean_transaction_residue fmt env)
    clean_end = forget-Safe t In env moving (clean-Safe t In env moving)

    forward :
        {k u : Disk Bytes}
        → k.temp ≡ some t.new
        → Runs t In env
            (Found t In moving k u)
            (λ _ w. Stable t In moving w)
            (do replace_synced env temp_file target_file; clean_transaction_residue fmt env)
    forward e =
        next-Safe env _
          (replace_synced-Safe (Allowed t) In env moving temp_file target_file t.new e (inl refl)
            (inr refl))
          clean_end

    replace_case :
        {k u : Disk Bytes} (b : Bool)
        → (b ≡ true → k.temp ≡ some t.new)
        → Runs t In env
            (Found t In moving k u)
            (λ _ w. Stable t In moving w)
            (do replace_if fmt env b; clean_transaction_residue fmt env)
    replace_case true h = forward (h refl)
    replace_case false h = clean_end

    -- The target has a content, and the staged file is the new one where it reads as it.
    settle-Safe :
        {k u : Disk Bytes} (p : JournalPhase) (target staged backup : Option (Record Config Bytes))
        → (target ≡ t.old_record) ⊎ (target ≡ some t.new_record)
        → (is_record staged (generation_of t.old_record + 1) (some (fmt.sha256 t.new)) ≡ true
            → k.temp ≡ some t.new)
        → Runs t In env
            (Found t In moving k u)
            (λ _ w. Stable t In moving w)
            (settle fmt env (journal_at t p) target staged backup)
    unfolding settle
    settle-Safe {k} {u} p target staged backup (inl e) h =
        subst
          (λ o.
            Runs t In env (Found t In moving k u) (λ _ w. Stable t In moving w)
              (settle fmt env (journal_at t p) o staged backup))
          (sym e)
          (skipped-Safe env _ _ (old_is_not_new t.old_record (fmt.sha256 t.new))
            (taken-Safe env _ _ (old_is_old t.old_record) (replace_case _ h)))
    settle-Safe {k} {u} p target staged backup (inr e) h =
        subst
          (λ o.
            Runs t In env (Found t In moving k u) (λ _ w. Stable t In moving w)
              (settle fmt env (journal_at t p) o staged backup))
          (sym e) (taken-Safe env _ _ new_is_new clean_end)

    swept :
        (s : Stage Bytes) (p : FileName) (c : Bool) {k u : Disk Bytes}
        → Allowed t s p none
        → (b : Bool)
        → Runs t In env
            (Found t In s k u)
            (λ _ w. Stable t In s w)
            (if b then (do unlink env p; return true) else return c)
    swept s p c a true =
        forget-Safe t In env s
          (next-Safe env _ (unlink-Safe (Allowed t) In env s p a) (lift-Safe env refl))
    swept s p c a false = forget-Safe t In env s (lift-Safe env refl)

    sweep-Safe :
        (s : Stage Bytes) (p : FileName) (c : Bool)
        → Allowed t s p none
        → Runs t In env (Stable t In s) (λ _ w. Stable t In s w) (sweep fmt env p c)
    unfolding sweep
    sweep-Safe s p c a = all_contents-Safe t In env s _ (λ k u.
        next-Safe env _ (exists-Safe (Allowed t) In env s p)
          (swept s p c a (is_present (look p k))))

    ended :
        (s : Stage Bytes) (c : Bool)
        → Runs t In env
            (Stable t In s)
            (λ _ w. Stable t In s w)
            (if c then fsync_directory env else return tt)
    ended s true =
        all_contents-Safe t In env s _
          (λ k u. forget-Safe t In env s (fsync_directory-Safe (Allowed t) In env s))
    ended s false = return-Safe env tt (λ w h. h)

    without_journal-Safe :
        (s : Stage Bytes)
        → Runs t In env (Stable t In s) (λ _ w. Stable t In s w) (recover_without_journal fmt env)
    unfolding recover_without_journal
    without_journal-Safe s = then-Safe env (sweep-Safe s temp_file false (no_temp t In env s)) (λ a.
        then-Safe env (sweep-Safe s backup_temp_file a (any_rest t In env s none).0) (λ b.
          then-Safe env (sweep-Safe s journal_temp_file b (any_rest t In env s none).1)
            (λ c. ended s c)))

    read_temp :
        (c : Option Bytes)
        → (c ≡ none) ⊎ (c ≡ some t.new)
        → (o : Option (Record Config Bytes)) × (decode_present fmt c ≡ done o)
          × ((is_record o (generation_of t.old_record + 1) (some (fmt.sha256 t.new)) ≡ true)
              → c ≡ some t.new)
    read_temp c (inl e) = (none, ap (decode_present fmt) e, λ x. cc x)
    read_temp c (inr e) = (some t.new_record, ap (decode_present fmt) e ∙ t.read_new, λ x. e)

    with_journal-Safe :
        {k u : Disk Bytes} (p : JournalPhase)
        → k.journal ≡ some (journal_bytes fmt (journal_at t p))
        → Shaped (Allowed t) moving k
        → Runs t In env
            (Found t In moving k u)
            (λ _ w. Stable t In moving w)
            (do
              raw ← read env journal_file
              j ← lift (decode_journal fmt raw)
              target ← read_record_if_present fmt env target_file
              staged ← read_record_if_present fmt env temp_file
              backup ← read_record_if_present fmt env backup_file
              settle fmt env j target staged backup)
    with_journal-Safe {k} {u} p e h =
        let (o, r, x) = read_target k.target (h target_file) in
        let (s, q, y) = read_temp k.temp (h temp_file) in
        let (b, z) = h backup_file in
        next-Safe env _ (read-Safe (Allowed t) In env moving journal_file _ e) (
          next-Safe env _ (lift-Safe env (t.read_journal p)) (
            next-Safe env _ (read_record-Safe t In env moving target_file o r) (
              next-Safe env _ (read_record-Safe t In env moving temp_file s q) (
                next-Safe env _ (read_record-Safe t In env moving backup_file b z)
                  (settle-Safe p o s b x y)))))

    absent-Safe :
        (s : Stage Bytes) {k u : Disk Bytes} (m : Action Bytes (Unit {0}))
        → k.journal ≡ none
        → Runs t In env
            (Found t In s k u)
            (λ _ w. Stable t In s w)
            (if is_present k.journal then m else recover_without_journal fmt env)
    absent-Safe s m e =
        skipped-Safe env _ m (ap is_present e)
          (weaken-Safe env (λ w h. still t In s w h) (λ _ w h. h) (without_journal-Safe s))

    recover_case :
        (s : Stage Bytes) {k u : Disk Bytes}
        → Shaped (Allowed t) s k
        → Runs t In env
            (Found t In s k u)
            (λ _ w. Stable t In s w)
            (if is_present k.journal
              then (do
                raw ← read env journal_file
                j ← lift (decode_journal fmt raw)
                target ← read_record_if_present fmt env target_file
                staged ← read_record_if_present fmt env temp_file
                backup ← read_record_if_present fmt env backup_file
                settle fmt env j target staged backup)
              else recover_without_journal fmt env)
    recover_case (settled x) h = absent-Safe (settled x) _ (h journal_file)
    recover_case moving {k} h = elim (h journal_file) [
      | inl e ↦ absent-Safe moving _ e
      | inr (p, e) ↦ taken-Safe env _ _ (ap is_present e) (with_journal-Safe p e h)
    ]

    -- The rule of `recover` in either stage.
    pub recover-Safe :
        (s : Stage Bytes) → Runs t In env (Stable t In s) (λ _ w. Stable t In s w) (recover fmt env)
    unfolding recover
    recover-Safe s = all_contents-Safe t In env s _ (λ k u.
        next-Safe env _ (exists-Safe (Allowed t) In env s journal_file)
          (shape_given-Safe t In env s (λ h. recover_case s h)))
