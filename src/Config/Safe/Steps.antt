-- ===== src/Config/Safe/Steps.antt =====
-- The store's small steps, where each stage of the store allows some contents for each file.
use rcm_windows.Config.Formats.{Outcome, done}
use rcm_windows.Prelude.{
  if◌then◌else◌, ℕ, ◌≡◌, refl, sym, ap, ◌∙◌, subst, Bool, true, false, Option, none, some,
}
use rcm_windows.Config.Disk.{
  look, put, pick, mix, Action, is_present, after_fault, step, exists, read_value, read,
  write_value, torn_write, write_synced, move_value, torn_move, replace, unlink, fsync_directory,
  replace_synced, checkpoint, FileName, Disk, Cause, Interruption, Environment, World, target_file,
  backup_file, backup_temp_file, temp_file, journal_file, journal_temp_file, os_error, hook_raises,
  power_fails,
}
use rcm_windows.Config.Safe.{At, then-Safe, given-Safe, step-Result, Safe}

module _ {Bytes : Type 0} {Stage : Type 0}
    (Allowed : Stage → FileName → Option Bytes → Type 0) where
  abbrev pub Shaped : Stage → Disk Bytes → Type 0
  Shaped s d = (p : FileName) → Allowed s p (look p d)

  pub put-Shaped :
      (s : Stage) (p : FileName) (c : Option Bytes) (d : Disk Bytes)
      → Allowed s p c
      → Shaped s d
      → Shaped s (put p c d)
  put-Shaped s target_file c d a h target_file = a
  put-Shaped s target_file c d a h q = h q
  put-Shaped s backup_file c d a h backup_file = a
  put-Shaped s backup_file c d a h q = h q
  put-Shaped s backup_temp_file c d a h backup_temp_file = a
  put-Shaped s backup_temp_file c d a h q = h q
  put-Shaped s temp_file c d a h temp_file = a
  put-Shaped s temp_file c d a h q = h q
  put-Shaped s journal_file c d a h journal_file = a
  put-Shaped s journal_file c d a h q = h q
  put-Shaped s journal_temp_file c d a h journal_temp_file = a
  put-Shaped s journal_temp_file c d a h q = h q

  picked :
      (s : Stage) (p : FileName) (b : Bool) (x y : Option Bytes)
      → Allowed s p x
      → Allowed s p y
      → Allowed s p (pick b x y)
  picked s p true x y a b = a
  picked s p false x y a b = b

  mix-Shaped :
      (s : Stage) (kept : FileName → Bool) (d e : Disk Bytes)
      → Shaped s d
      → Shaped s e
      → Shaped s (mix kept d e)
  mix-Shaped s kept d e h k target_file =
      picked s target_file (kept target_file) d.target e.target (h target_file) (k target_file)
  mix-Shaped s kept d e h k backup_file =
      picked s backup_file (kept backup_file) d.backup e.backup (h backup_file) (k backup_file)
  mix-Shaped s kept d e h k backup_temp_file =
      picked s backup_temp_file (kept backup_temp_file) d.backup_temp e.backup_temp
        (h backup_temp_file) (k backup_temp_file)
  mix-Shaped s kept d e h k temp_file =
      picked s temp_file (kept temp_file) d.temp e.temp (h temp_file) (k temp_file)
  mix-Shaped s kept d e h k journal_file =
      picked s journal_file (kept journal_file) d.journal e.journal (h journal_file)
        (k journal_file)
  mix-Shaped s kept d e h k journal_temp_file =
      picked s journal_temp_file (kept journal_temp_file) d.journal_temp e.journal_temp
        (h journal_temp_file) (k journal_temp_file)

module _ {Bytes : Type 0} {Stage : Type 0} (Allowed : Stage → FileName → Option Bytes → Type 0)
    (In : Stage → Type 0) where
  -- In one of the stages `In`, both on the disk and in its durable part.
  abbrev pub InStage : World Bytes → Type 0
  InStage w = (s : Stage) × Shaped Allowed s w.disk × Shaped Allowed s w.durable × In s

  -- These contents, in this stage.
  abbrev pub Holds : Stage → Disk Bytes → Disk Bytes → World Bytes → Type 0
  Holds s k u w = At k u w × Shaped Allowed s k × Shaped Allowed s u × In s

  fault-InStage :
      (s : Stage) (c : Cause) (i : Interruption Bytes) (d : Disk Bytes) (w : World Bytes)
      → Shaped Allowed s d
      → Shaped Allowed s w.durable
      → In s
      → InStage (after_fault c i d w)
  fault-InStage s (os_error e) i d w h k n = (s, h, k, n)
  fault-InStage s hook_raises i d w h k n = (s, h, k, n)
  fault-InStage s power_fails i d w h k n = (
    s,
    mix-Shaped Allowed s i.kept d w.durable h k,
    mix-Shaped Allowed s i.kept d w.durable h k,
    n,
  )

  module _ (env : Environment Bytes) where
    abbrev pub Rule :
        {A : Type 0} → (World Bytes → Type 0) → (A → World Bytes → Type 0) → Action Bytes A → Type 0
    Rule P Q m = Safe env P Q InStage m

    pub step-Rule :
        {A : Type 0} {s : Stage} {k u k' u' : Disk Bytes} (a : A)
        (act : World Bytes → Outcome A × World Bytes)
        (torn : Interruption Bytes → Disk Bytes → Disk Bytes)
        → ((n : ℕ)
            → act (record { disk = k; durable = u; steps = n })
              ≡ (done a, record { disk = k'; durable = u'; steps = n }))
        → (Shaped Allowed s k → Shaped Allowed s u → Shaped Allowed s k' × Shaped Allowed s u')
        → (Shaped Allowed s k → (i : Interruption Bytes) → Shaped Allowed s (torn i k))
        → Rule (Holds s k u) (λ b w. Holds s k' u' w × (b ≡ a)) (step env act torn)
    unfolding step
    step-Rule {s} {k} {u} {k'} {u'} a act torn e after fault = record {
      safe = λ w ((p, q), h, g, n).
          step-Result env (λ b v. Holds s k' u' v × (b ≡ a)) InStage act torn w
            (env.interrupted w.steps) refl a (record { disk = k'; durable = u'; steps = w.steps })
            (run w p q) (((refl, refl), (after h g).0, (after h g).1, n), refl)
            (λ i.
              fault-InStage s i.cause i (torn i w.disk) w
                (subst (λ d. Shaped Allowed s (torn i d)) (sym p) (fault h i))
                (subst (Shaped Allowed s) (sym q) g) n);
    }
      where
        run :
            (w : World Bytes)
            → w.disk ≡ k
            → w.durable ≡ u
            → act w ≡ (done a, record { disk = k'; durable = u'; steps = w.steps })
        run w p q =
            ap (λ (d : Disk Bytes). act (record { disk = d; durable = w.durable; steps = w.steps }))
              p
            ∙ ap (λ (d : Disk Bytes). act (record { disk = k; durable = d; steps = w.steps })) q
            ∙ e w.steps

    pub exists-Safe :
        (s : Stage) {k u : Disk Bytes} (p : FileName)
        → Rule
            (Holds s k u)
            (λ (b : Bool) w. Holds s k u w × (b ≡ is_present (look p k)))
            (exists env p)
    unfolding exists step
    exists-Safe s {k} p =
        step-Rule (is_present (look p k)) _ _ (λ n. refl) (λ h g. (h, g)) (λ h i. h)

    pub read-Safe :
        (s : Stage) {k u : Disk Bytes} (p : FileName) (b : Bytes)
        → look p k ≡ some b
        → Rule (Holds s k u) (λ c w. Holds s k u w × (c ≡ b)) (read env p)
    unfolding read step
    read-Safe s {k} {u} p b e =
        step-Rule b _ _
          (λ n.
            ap
              (λ (c : Option Bytes).
                (read_value env c, record { disk = k; durable = u; steps = n }))
              e)
          (λ h g. (h, g)) (λ h i. h)

    pub checkpoint-Safe :
        (s : Stage) {k u : Disk Bytes}
        → Rule (Holds s k u) (λ b w. Holds s k u w × (b ≡ tt)) (checkpoint env)
    unfolding checkpoint step
    checkpoint-Safe s = step-Rule tt _ _ (λ n. refl) (λ h g. (h, g)) (λ h i. h)

    pub fsync_directory-Safe :
        (s : Stage) {k u : Disk Bytes}
        → Rule (Holds s k u) (λ b w. Holds s k k w × (b ≡ tt)) (fsync_directory env)
    unfolding fsync_directory step
    fsync_directory-Safe s = step-Rule tt _ _ (λ n. refl) (λ h g. (h, h)) (λ h i. h)

    unlinked :
        {s : Stage} {k : Disk Bytes} (p : FileName)
        → Allowed s p none
        → Shaped Allowed s k
        → (b : Bool) → Shaped Allowed s (if b then put p none k else k)
    unlinked p a h true = put-Shaped Allowed _ p none _ a h
    unlinked p a h false = h

    pub unlink-Safe :
        (s : Stage) {k u : Disk Bytes} (p : FileName)
        → Allowed s p none
        → Rule (Holds s k u) (λ b w. Holds s (put p none k) u w × (b ≡ tt)) (unlink env p)
    unfolding unlink step
    unlink-Safe s p a =
        step-Rule tt _ _ (λ n. refl) (λ h g. (put-Shaped Allowed _ p none _ a h, g))
          (λ h i. unlinked p a h i.happened)

    pub write_synced-Safe :
        (s : Stage) {k u : Disk Bytes} (p : FileName) (b : Bytes)
        → look p k ≡ none
        → ((c : Option Bytes) → Allowed s p c)
        → Rule
            (Holds s k u)
            (λ x w. Holds s (put p (some b) k) u w × (x ≡ tt))
            (write_synced env p b)
    unfolding write_synced step
    write_synced-Safe s {k} {u} p b e a =
        step-Rule tt _ _
          (λ n. ap (λ c. write_value env p b c (record { disk = k; durable = u; steps = n })) e)
          (λ h g. (put-Shaped Allowed _ p (some b) _ (a (some b)) h, g))
          (λ h i.
            subst (λ c. Shaped Allowed s (torn_write env p c i k)) (sym e)
              (put-Shaped Allowed s p i.junk k (a i.junk) h))

    moved :
        {s : Stage} {k : Disk Bytes} (p q : FileName) (b : Bytes)
        → Allowed s p none
        → Allowed s q (some b)
        → Shaped Allowed s k
        → (x : Bool) → Shaped Allowed s (torn_move env p q (some b) x k)
    moved p q b a c h true = put-Shaped Allowed _ q (some b) _ c (put-Shaped Allowed _ p none _ a h)
    moved p q b a c h false = h

    pub replace_synced-Safe :
        (s : Stage) {k u : Disk Bytes} (p q : FileName) (b : Bytes)
        → look p k ≡ some b
        → Allowed s p none
        → Allowed s q (some b)
        → Rule
            (Holds s k u)
            (λ x w.
              Holds s (put q (some b) (put p none k)) (put q (some b) (put p none k)) w × (x ≡ tt))
            (replace_synced env p q)
    unfolding replace_synced replace step
    replace_synced-Safe s {k} {u} p q b e a c =
        then-Safe env
          (step-Rule tt _ _
            (λ n. ap (λ x. move_value env p q x (record { disk = k; durable = u; steps = n })) e)
            (λ h g. (moved p q b a c h true, g))
            (λ h i.
              subst (λ x. Shaped Allowed s (torn_move env p q x i.happened k)) (sym e)
                (moved p q b a c h i.happened)))
          (λ x. given-Safe env (λ _. fsync_directory-Safe s))
