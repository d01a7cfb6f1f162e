-- ===== src/Config/Store/Atomic.antt =====
-- src/rcm/config/store.py: `save` and `load` as wholes, with the lock and the recovery.
use rcm_windows.Config.Store.Recovery.{read_target, recover-Safe}
use rcm_windows.Config.Decoding.{value_or}
use rcm_windows.Config.Store.Stages.{
  OldOrNew, Allowed, Found, Stable, still, Runs, read_record-Safe, all_contents-Safe,
  shape_given-Safe, Change, Stage, settled, moving,
}
use rcm_windows.Config.Safe.Steps.{Shaped, InStage}
use rcm_windows.Prelude.{◌≡◌, refl, sym, ap, ◌∙◌, subst, ◌⊎◌, inl, inr, Bool, Option, none, some}
use rcm_windows.Config.Disk.{
  Action, bind, ◌>>=◌, Disk, OsError, LockOutcome, Environment, World, target_file, acquired,
  timed_out, lock_failed,
}
use rcm_windows.Config.Formats.{Format, Record, done}
use rcm_windows.Config.Safe.{IsQuiet, weaken-Safe, returns-Safe, keeps-Safe, Safe}
use rcm_windows.Config.Store.{
  decode_present, stored_or_default, read_record_if_present, recover, under_lock_with, in_parent,
  under_lock, load,
}

module _ {Config Bytes : Type 0} (fmt : Format Config Bytes) (env : Environment Bytes) where
  locked_case :
      {A : Type 0} {P E : World Bytes → Type 0} {Q : A → World Bytes → Type 0} {m : Action Bytes A}
      (o : LockOutcome) (d : Option OsError)
      → env.lock ≡ o
      → env.parent ≡ d
      → ((w : World Bytes) → P w → E w)
      → Safe env P Q E m
      → Safe env P Q E (in_parent fmt env d (under_lock_with fmt env o m))
  locked_case acquired none e f out h = h
  locked_case timed_out none e f out h = record {
    safe = λ w p. (out w p, λ quiet. cc (e, quiet.1));
  }
  locked_case (lock_failed x) none e f out h = record {
    safe = λ w p. (out w p, λ quiet. cc (e, quiet.1));
  }
  locked_case o (some x) e f out h = record { safe = λ w p. (out w p, λ quiet. cc (f, quiet.2)) }

  -- The rule of `_under_lock`.
  pub under_lock-Safe :
      {A : Type 0} {P E : World Bytes → Type 0} {Q : A → World Bytes → Type 0} {m : Action Bytes A}
      → ((w : World Bytes) → P w → E w)
      → Safe env P Q E m
      → Safe env P Q E (under_lock fmt env m)
  unfolding under_lock
  under_lock-Safe out h = locked_case env.lock env.parent refl refl out h

  locked_kept :
      {A : Type 0} (X : World Bytes → Type 0) (m : Action Bytes A) (o : LockOutcome)
      (d : Option OsError) (w : World Bytes)
      → X w
      → X (m w).1
      → X (in_parent fmt env d (under_lock_with fmt env o m) w).1
  locked_kept X m acquired none w h k = k
  locked_kept X m timed_out none w h k = h
  locked_kept X m (lock_failed x) none w h k = h
  locked_kept X m o (some x) w h k = h

  under_lock_keeps :
      {A : Type 0} (X : World Bytes → Type 0) (m : Action Bytes A) (w : World Bytes)
      → X w
      → X (m w).1
      → X (under_lock fmt env m w).1
  unfolding under_lock
  under_lock_keeps X m w h k = locked_kept X m env.lock env.parent w h k

  locked_run :
      {A : Type 0} (m : Action Bytes A) (w : World Bytes) (o : LockOutcome) (d : Option OsError)
      → o ≡ acquired
      → d ≡ none
      → in_parent fmt env d (under_lock_with fmt env o m) w ≡ m w
  locked_run m w acquired none e f = refl
  locked_run m w acquired (some x) e f = absurd (cc f)
  locked_run m w timed_out d e f = absurd (cc e)
  locked_run m w (lock_failed x) d e f = absurd (cc e)

  pub under_lock-run :
      {A : Type 0} (m : Action Bytes A) (w : World Bytes)
      → IsQuiet env
      → under_lock fmt env m w ≡ m w
  unfolding under_lock
  under_lock-run m w quiet = locked_run m w env.lock env.parent quiet.1 quiet.2

  pub then-run :
      {A B : Type 0} (m : Action Bytes A) (f : A → Action Bytes B) (w v : World Bytes) (a : A)
      → m w ≡ (done a, v)
      → (m >>= f) w ≡ f a v
  then-run m f w v a e = ap (λ out. bind out f) e

module _ {Config Bytes : Type 0} {fmt : Format Config Bytes} (t : Change fmt) where
  -- In one stage only.
  abbrev Only : Stage Bytes → Stage Bytes → Type 0
  Only s x = x ≡ s

  -- What a load may find in a stage.
  abbrev pub Reads : Stage Bytes → Option (Record Config Bytes) → Type 0
  Reads (settled x) o = decode_present fmt x ≡ done o
  Reads moving o = (o ≡ t.old_record) ⊎ (o ≡ some t.new_record)

  abbrev pub Here : Stage Bytes → World Bytes → Type 0
  Here s w = Shaped (Allowed t) s w.disk × Shaped (Allowed t) s w.durable

  found_record :
      (s : Stage Bytes) (c : Option Bytes)
      → Allowed t s target_file c
      → (o : Option (Record Config Bytes)) × (decode_present fmt c ≡ done o) × Reads s o
  found_record (settled x) c (e, h) =
      let (o, r, y) = read_target t c (subst (OldOrNew t) (sym e) h) in
      (o, r, ap (decode_present fmt) (sym e) ∙ r)
  found_record moving c h = read_target t c h

  Only-Here : (s : Stage Bytes) (w : World Bytes) → InStage (Allowed t) (Only s) w → Here s w
  Only-Here s w (x, h, g, e) = subst (λ y. Here y w) e (h, g)

  -- The stage on the disk and in its durable part.
  abbrev pub Stays : Stage Bytes → World Bytes → Type 0
  Stays s w = InStage (Allowed t) (Only s) w

  pub stays : (s : Stage Bytes) (w : World Bytes) → Here s w → Stays s w
  stays s w (h, g) = (s, h, g, refl)

  Stays-if_stable : (s : Stage Bytes) (w : World Bytes) → Stable t (Only s) s w → Stays s w
  Stays-if_stable s w (h, g, e) = stays s w (h, g)

  stable-Stays : (s : Stage Bytes) (w : World Bytes) → Stays s w → Stable t (Only s) s w
  stable-Stays s w h = let (x, y) = Only-Here s w h in (x, y, refl)

  module _ (env : Environment Bytes) where
    read_record-Stable :
        (s : Stage Bytes)
        → Runs t
            (Only s)
            env
            (Stable t (Only s) s)
            (λ o w. Stays s w × Reads s o)
            (read_record_if_present fmt env target_file)
    read_record-Stable s =
        all_contents-Safe t (Only s) env s _
          (λ k u. shape_given-Safe t (Only s) env s (λ h. found h))
      where
        found :
            {k u : Disk Bytes}
            → Shaped (Allowed t) s k
            → Runs t
                (Only s)
                env
                (Found t (Only s) s k u)
                (λ o w. Stays s w × Reads s o)
                (read_record_if_present fmt env target_file)
        found {k} h =
            let (o, e, r) = found_record s k.target (h target_file) in
            weaken-Safe env (λ w p. p)
              (λ x w p.
                (Stays-if_stable s w (still t (Only s) s w p.0), subst (Reads s) (sym p.1) r))
              (read_record-Safe t (Only s) env s target_file o e)

    recover-Stays :
        (s : Stage Bytes)
        → Runs t (Only s) env (Stable t (Only s) s) (λ _ w. Stays s w) (recover fmt env)
    recover-Stays s =
        weaken-Safe env (λ w p. p) (λ _ w p. Stays-if_stable s w p) (recover-Safe t (Only s) env s)

    read_record-Stays :
        (s : Stage Bytes)
        → Runs t
            (Only s)
            env
            (Stable t (Only s) s)
            (λ _ w. Stays s w)
            (read_record_if_present fmt env target_file)
    read_record-Stays s = weaken-Safe env (λ w p. p) (λ _ w p. p.0) (read_record-Stable s)

    -- A load, however it ends, leaves the stage as it is.
    pub load_keeps :
        (s : Stage Bytes) (require : Bool) (w : World Bytes)
        → Here s w
        → Here s (load fmt env require w).1
    unfolding load
    load_keeps s require w h = Only-Here s (load fmt env require w).1 (
        under_lock_keeps fmt env (Stays s) _ w (stays s w h) (
          keeps-Safe env _ (recover-Stays s)
            (λ (_ : Unit {0}) (v : World Bytes) (p : Stays s v).
              keeps-Safe env _ (read_record-Stays s) (λ _ x q. q) v (stable-Stays s v p))
            w (h.0, h.1, refl)))

    pub load_finds :
        (s : Stage Bytes) (require : Bool) (w : World Bytes)
        → IsQuiet env
        → Here s w
        → (o : Option (Record Config Bytes)) × Reads s o
          × ((load fmt env require w).0 ≡ stored_or_default fmt require o)
    unfolding load
    load_finds s require w quiet h =
        let (x, v, e, p) =
          returns-Safe env (recover-Safe t (Only s) env s) quiet w (h.0, h.1, refl) in
        let (o, u, f, q) = returns-Safe env (read_record-Stable s) quiet v p in
        (
          o,
          q.1,
          ap (λ out. out.0)
              (under_lock-run fmt env _ w quiet
                ∙ then-run fmt env (recover fmt env) _ w v x e
                ∙ then-run fmt env (read_record_if_present fmt env target_file) _ v u o f),
        )

  pub same_value :
      (x : Option Bytes) (o p : Option (Record Config Bytes))
      → decode_present fmt x ≡ done o
      → decode_present fmt x ≡ done p
      → o ≡ p
  same_value x o p e f = ap (value_or o) (sym e ∙ f)

  -- What a stage lets a load find is the old record or the new one.
  pub either :
      (s : Stage Bytes) (w : World Bytes) (o : Option (Record Config Bytes))
      → Here s w
      → Reads s o
      → (o ≡ t.old_record) ⊎ (o ≡ some t.new_record)
  either moving w o h r = r
  either (settled x) w o h r = elim ((h.0 target_file).1) [
    | inl e ↦ inl (same_value x o t.old_record r (ap (decode_present fmt) e ∙ t.read_old))
    | inr e ↦ inr (same_value x o (some t.new_record) r (ap (decode_present fmt) e ∙ t.read_new))
  ]
