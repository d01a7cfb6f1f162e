-- ===== src/Config/Store/Crash.antt =====
-- src/rcm/config/store.py: a replacement from a tidy directory and the loads that follow it, whatever
-- interrupts them.
use rcm_windows.Config.Safe.{IsQuiet, returns-Safe, ends-Safe, value-Safe}
use rcm_windows.Config.Store.Atomic.{Here, load_keeps, load_finds, same_value, either}
use rcm_windows.Config.Store.Commit.{Every, tidy}
use rcm_windows.Config.Safe.Steps.{Shaped}
use rcm_windows.Config.Disk.{
  Action, Disk, Environment, World, target_file, backup_file, backup_temp_file, temp_file,
  journal_file, journal_temp_file,
}
use rcm_windows.Prelude.{
  ltb, ◌==◌, ℕ, ◌+◌, String, ◌≡◌, refl, sym, ap, ◌∙◌, subst, ◌⊎◌, inl, inr, Bool, true, false,
  Option, none, some, List, [], ◌∷◌, arith,
}
use rcm_windows.Config.Formats.{
  try, max_generation, is_id, agrees, decode_record, Outcome, Format, StoredConfig, Record, done,
  failed,
}
use rcm_windows.Config.Codec.{
  is_generation, Fits, stored_of, raw_record, loaded_of, record_of, decode_journal-journal_bytes,
  decode_raw,
}
use rcm_windows.Config.Laws.{Laws}
use rcm_windows.Config.Decoding.{value_or, decode_record-Sound}
use rcm_windows.Config.Store.{
  generation_of, checksum_of_raw, raw_of, same_content, decode_present, stored_or_default, load,
}
use rcm_windows.Config.Store.Stages.{Allowed, Found, still, Runs, Change, Stage, settled}

has_zero : (n : ℕ) → is_generation n ≡ true → (n == 0) ≡ false
has_zero n h = ground arith

pub next_is_generation : (n : ℕ) → ltb n max_generation ≡ true → is_generation (n + 1) ≡ true
next_is_generation n h = ground arith

-- Loads, one after another, each with what interrupts it.
abbrev pub after_loads :
    {Config Bytes : Type 0}
    → Format Config Bytes
    → List (Environment Bytes × Bool)
    → World Bytes
    → World Bytes
after_loads fmt [] w = w
after_loads fmt ((env, require) ∷ rest) w = after_loads fmt rest (load fmt env require w).1

module _ {Config Bytes : Type 0} (fmt : Format Config Bytes) (laws : Laws fmt) where
  pub record OldFacts (old : Option Bytes) (o : Option (Record Config Bytes)) : Type 0 where
    pub raw_is : raw_of o ≡ old
    pub agree : agrees (generation_of o) (checksum_of_raw o) ≡ true
    pub form : is_id (checksum_of_raw o) ≡ true
    pub same : same_content fmt old (raw_of o) ≡ true

  some_facts :
      (raw : Bytes) (r : Record Config Bytes)
      → decode_record fmt raw ≡ done r
      → OldFacts (some raw) (some r)
  some_facts raw r e =
      let (h, f, g) = decode_record-Sound fmt raw r e in
      record {
        raw_is = ap some f;
        agree = rw (has_zero r.stored.generation h.generation_bounds);
        form = rw (g, laws.sha256_hex raw);
        same = rw (f, laws.same_self raw);
      }

  pub present_facts :
      (old : Option Bytes) (o : Option (Record Config Bytes))
      → decode_present fmt old ≡ done o
      → OldFacts old o
  present_facts none o e =
      subst (OldFacts none) (ap (value_or none) e)
        (record { raw_is = refl; agree = refl; form = refl; same = refl })
  present_facts (some raw) o e = decoded (decode_record fmt raw) refl e
    where
      decoded :
          (d : Outcome (Record Config Bytes))
          → decode_record fmt raw ≡ d
          → try d (λ r. done (some r)) ≡ done o
          → OldFacts (some raw) o
      decoded (done r) f g = subst (OldFacts (some raw)) (ap (value_or none) g) (some_facts raw r f)
      decoded (failed x) f g = absurd (cc g)

  module _ (c : Config) (i : Option String) (old : Option Bytes) (o : Option (Record Config Bytes))
      (reads : decode_present fmt old ≡ done o) (fits : Fits fmt c) (id : is_id i ≡ true)
      (room : ltb (generation_of o) max_generation ≡ true) where
    -- The change to a configuration that fits.
    unfoldable pub change : Change fmt
    change =
        let facts = present_facts old o reads in
        let next = next_is_generation (generation_of o) room in
        record {
          old = old;
          old_record = o;
          new = raw_record fmt c (generation_of o + 1) i;
          new_record = record_of fmt laws c (generation_of o + 1) i;
          read_old = reads;
          raw_old = facts.raw_is;
          same_old = facts.same;
          read_new = rw (decode_raw fmt laws c (generation_of o + 1) i fits next id);
          newer = refl;
          named = refl;
          read_journal = λ p.
              decode_journal-journal_bytes fmt laws p (generation_of o) (checksum_of_raw o)
                (fmt.sha256 (raw_record fmt c (generation_of o + 1) i)) next facts.form facts.agree
                (laws.sha256_hex (raw_record fmt c (generation_of o + 1) i));
        }

    loads_keep :
        (s : Stage Bytes) (loads : List (Environment Bytes × Bool)) (w : World Bytes)
        → Here change s w
        → Here change s (after_loads fmt loads w)
    loads_keep s [] w h = h
    loads_keep s ((env, require) ∷ rest) w h =
        loads_keep s rest (load fmt env require w).1 (load_keeps change env s require w h)

    here :
        (s : Stage Bytes) (k u : Disk Bytes) (v : World Bytes)
        → Found change Every s k u v
        → Here change s v
    here s k u v h = let (f, g, n) = still change Every s v h in (f, g)

    -- An action that replaces the target by the new content and leaves `kept` as the backup.
    abbrev pub Replaces :
        Environment Bytes
        → Option Bytes
        → Option Bytes
        → Action Bytes (StoredConfig Config)
        → Type 0
    Replaces env backup kept act =
        Runs change Every env (Found change Every (settled old) (tidy old backup) (tidy old backup))
          (λ x v.
            Found change Every (settled (some (raw_record fmt c (generation_of o + 1) i)))
              (tidy (some (raw_record fmt c (generation_of o + 1) i)) kept)
              (tidy (some (raw_record fmt c (generation_of o + 1) i)) kept) v
            × (x ≡ stored_of fmt c (generation_of o + 1) i))
          act

    module _ (backup : Option Bytes) (p : Option (Record Config Bytes))
        (reads_backup : decode_present fmt backup ≡ done p) (w : World Bytes)
        (on_disk : w.disk ≡ tidy old backup) (in_durable : w.durable ≡ tidy old backup)
        (env : Environment Bytes) (kept : Option Bytes) (act : Action Bytes (StoredConfig Config))
        (runs : Replaces env backup kept act) where
      abbrev new_raw : Bytes
      new_raw = raw_record fmt c (generation_of o + 1) i

      start : Found change Every (settled old) (tidy old backup) (tidy old backup) w
      unfolding change
      start = ((on_disk, in_durable), shape, shape, tt)
        where
          shape : Shaped (Allowed change) (settled old) (tidy old backup)
          shape target_file = (refl, inl refl)
          shape backup_file = (p, reads_backup)
          shape temp_file = tt
          shape journal_file = refl
          shape backup_temp_file = tt
          shape journal_temp_file = tt

      -- However the action ends, it is in a stage.
      landed : (s : Stage Bytes) × Here change s (act w).1
      landed =
          ends-Safe env (λ v. (s : Stage Bytes) × Here change s v) runs
            (λ x v h. (
              settled (some new_raw),
              here (settled (some new_raw)) (tidy (some new_raw) kept) (tidy (some new_raw) kept) v
                  h.0,
            ))
            (λ v h. (h.0, (h.1, h.2))) w start

      returned_stage :
          (x : StoredConfig Config)
          → (act w).0 ≡ done x
          → Here change (settled (some new_raw)) (act w).1
            × (x ≡ stored_of fmt c (generation_of o + 1) i)
      returned_stage x e =
          let (h, f) = value-Safe env runs w start x e in
          (
            here (settled (some new_raw)) (tidy (some new_raw) kept) (tidy (some new_raw) kept)
                (act w).1 h,
            f,
          )

      -- Whatever interrupts the action and the loads that follow it, a load that is not interrupted
      -- finds the old record or the new configuration, normalised.
      pub act_atomic :
          (loads : List (Environment Bytes × Bool)) (last : Environment Bytes) (require : Bool)
          → IsQuiet last
          → let v = after_loads fmt loads (act w).1 in
            ((load fmt last require v).0 ≡ stored_or_default fmt require o)
            ⊎ ((load fmt last require v).0 ≡ done (loaded_of fmt laws c (generation_of o + 1) i))
      unfolding change
      act_atomic loads last require quiet =
          let (s, h) = landed in
          let v = after_loads fmt loads (act w).1 in
          let k = loads_keep s loads (act w).1 h in
          let (r, x, e) = load_finds change last s require v quiet k in
          elim (either change s v r k x) [
            | inl f ↦ inl (e ∙ ap (stored_or_default fmt require) f)
            | inr f ↦ inr (e ∙ ap (stored_or_default fmt require) f)
          ]

      -- Where the action returns, such a load finds that, normalised, whatever interrupts the loads before
      -- it.
      pub act_durable :
          (loads : List (Environment Bytes × Bool)) (last : Environment Bytes) (require : Bool)
          (x : StoredConfig Config)
          → IsQuiet last
          → (act w).0 ≡ done x
          → (load fmt last require (after_loads fmt loads (act w).1)).0
            ≡ done (record x { config = laws.normal x.config })
      unfolding change
      act_durable loads last require x quiet e =
          let (h, f) = returned_stage x e in
          let v = after_loads fmt loads (act w).1 in
          let k = loads_keep (settled (some new_raw)) loads (act w).1 h in
          let (r, y, g) = load_finds change last (settled (some new_raw)) require v quiet k in
          g
          ∙ ap (stored_or_default fmt require)
              (same_value change (some new_raw) r (some change.new_record) y change.read_new)
          ∙ ap (λ (y : StoredConfig Config). done (record y { config = laws.normal y.config }))
              (sym f)

      -- Where nothing interrupts it, the action returns the new configuration, and it leaves the directory
      -- tidy, with `kept` in the backup.
      pub act_complete :
          IsQuiet env
          → ((act w).0 ≡ done (stored_of fmt c (generation_of o + 1) i))
            × ((act w).1.disk ≡ tidy (some new_raw) kept)
            × ((act w).1.durable ≡ tidy (some new_raw) kept)
      act_complete quiet =
          let (x, v, e, h) = returns-Safe env runs quiet w start in
          (
            ap (λ out. out.0) e ∙ ap done h.1,
            ap (λ out. out.1.disk) e ∙ h.0.0.0,
            ap (λ out. out.1.durable) e ∙ h.0.0.1,
          )
