-- ===== src/Config/Safe.antt =====
-- Rules about the steps of the store that any step may interrupt: what holds of the files when an
-- action returns, and what holds wherever it may stop.
pub mod Steps
use rcm_windows.Prelude.{
  if◌then◌else◌, ℕ, ◌+◌, ◌≡◌, refl, sym, ap, subst, Bool, true, false, Option, none, some,
}
use rcm_windows.Config.Formats.{Outcome, done, failed}
use rcm_windows.Config.Disk.{
  Action, bind, ◌>>=◌, return, lift, after_fault, step_with, Disk, Interruption, Environment, World,
  acquired,
}

-- No step is interrupted, and the lock and the directory are there.
abbrev pub IsQuiet : {Bytes : Type 0} → Environment Bytes → Type 0
IsQuiet env = ((n : ℕ) → env.interrupted n ≡ none) × (env.lock ≡ acquired) × (env.parent ≡ none)

-- The disk and its durable part, exactly.
abbrev pub At : {Bytes : Type 0} → Disk Bytes → Disk Bytes → World Bytes → Type 0
At k u w = (w.disk ≡ k) × (w.durable ≡ u)

abbrev pub Both : {Bytes : Type 0} → (Disk Bytes → Type 0) → World Bytes → Type 0
Both X w = X w.disk × X w.durable

module _ {Bytes : Type 0} (env : Environment Bytes) where
  abbrev pub Result {ℓ} :
      {A : Type ℓ}
      → (A → World Bytes → Type 0)
      → (World Bytes → Type 0)
      → Outcome A × World Bytes
      → Type 0
  Result Q E (done a, v) = Q a v
  Result Q E (failed e, v) = E v × (IsQuiet env → ⊥)

  -- From `P` the action returns with `Q`, or an interruption stops it with `E`.
  pub record Safe {ℓ} {A : Type ℓ} (P : World Bytes → Type 0) (Q : A → World Bytes → Type 0)
      (E : World Bytes → Type 0) (m : Action Bytes A) : Type ℓ where
    pub safe : (w : World Bytes) → P w → Result Q E (m w)

  bound {ℓ κ} :
      {A : Type ℓ} {B : Type κ} (Q : A → World Bytes → Type 0) (R : B → World Bytes → Type 0)
      (E : World Bytes → Type 0) (out : Outcome A × World Bytes) (f : A → Action Bytes B)
      → Result Q E out
      → ((a : A) → Safe (Q a) R E (f a))
      → Result R E (bind out f)
  bound Q R E (done a, v) f q h = (h a).safe v q
  bound Q R E (failed e, v) f q h = q

  pub then-Safe {ℓ κ} :
      {A : Type ℓ} {B : Type κ} {P E : World Bytes → Type 0} {Q : A → World Bytes → Type 0}
      {R : B → World Bytes → Type 0} {m : Action Bytes A} {f : A → Action Bytes B}
      → Safe P Q E m
      → ((a : A) → Safe (Q a) R E (f a))
      → Safe P R E (m >>= f)
  then-Safe {P} {E} {Q} {R} {m} {f} h k = record {
    safe = λ w p. bound Q R E (m w) f (h.safe w p) k;
  }

  weak_result {ℓ} :
      {A : Type ℓ} (Q R : A → World Bytes → Type 0) (E F : World Bytes → Type 0)
      (out : Outcome A × World Bytes)
      → ((a : A) (w : World Bytes) → Q a w → R a w)
      → ((w : World Bytes) → E w → F w)
      → Result Q E out
      → Result R F out
  weak_result Q R E F (done a, v) f g q = f a v q
  weak_result Q R E F (failed e, v) f g q = (g v q.0, q.1)

  pub weaken-Safe {ℓ} :
      {A : Type ℓ} {P P' E : World Bytes → Type 0} {Q R : A → World Bytes → Type 0}
      {m : Action Bytes A}
      → ((w : World Bytes) → P' w → P w)
      → ((a : A) (w : World Bytes) → Q a w → R a w)
      → Safe P Q E m
      → Safe P' R E m
  weaken-Safe {E} {Q} {R} {m} pre post h = record {
    safe = λ w p. weak_result Q R E E (m w) post (λ v x. x) (h.safe w (pre w p));
  }

  pub return-Safe {ℓ} :
      {A : Type ℓ} {P E : World Bytes → Type 0} {Q : A → World Bytes → Type 0} (a : A)
      → ((w : World Bytes) → P w → Q a w)
      → Safe P Q E (return a)
  return-Safe a h = record { safe = h }

  pub if-Safe {ℓ} :
      {A : Type ℓ} {P E : World Bytes → Type 0} {Q : A → World Bytes → Type 0}
      {m n : Action Bytes A} (b : Bool)
      → (b ≡ true → Safe P Q E m)
      → (b ≡ false → Safe P Q E n)
      → Safe P Q E (if b then m else n)
  if-Safe true h k = h refl
  if-Safe false h k = k refl

  -- A fact that does not depend on the world may be used.
  pub given-Safe {ℓ} :
      {A : Type ℓ} {P E : World Bytes → Type 0} {Q : A → World Bytes → Type 0} {F : Type 0}
      {m : Action Bytes A}
      → (F → Safe P Q E m)
      → Safe (λ w. P w × F) Q E m
  given-Safe h = record { safe = λ w p. (h p.1).safe w p.0 }

  pub step-Result {ℓ} :
      {A : Type ℓ} (Q : A → World Bytes → Type 0) (E : World Bytes → Type 0)
      (act : World Bytes → Outcome A × World Bytes)
      (torn : Interruption Bytes → Disk Bytes → Disk Bytes) (w : World Bytes)
      (o : Option (Interruption Bytes))
      → env.interrupted w.steps ≡ o
      → (a : A) (v : World Bytes) → act w ≡ (done a, v)
      → Q a (record v { steps = w.steps + 1 })
      → ((i : Interruption Bytes) → E (after_fault i.cause i (torn i w.disk) w))
      → Result Q E (step_with env o act torn w)
  step-Result {A = A} Q E act torn w none k a v e q h =
      subst (λ (x : Outcome A × World Bytes). Result Q E (x.0, record x.1 { steps = w.steps + 1 }))
        (sym e) q
  step-Result {A = A} Q E act torn w (some i) k a v e q h = (h i, λ quiet. cc (quiet.0 w.steps, k))

  -- An action with one possible value.
  pub next-Safe :
      {A : Type 0} {B : Type 0} {P Q E : World Bytes → Type 0} {R : B → World Bytes → Type 0}
      {m : Action Bytes A} {a : A} (f : A → Action Bytes B)
      → Safe P (λ b w. Q w × (b ≡ a)) E m
      → Safe Q R E (f a)
      → Safe P R E (m >>= f)
  next-Safe {Q = Q} {E = E} {R = R} {a = a} f h k =
      then-Safe h
        (λ b. record { safe = λ w p. (subst (λ c. Safe Q R E (f c)) (sym p.1) k).safe w p.0 })

  pub lift-Safe :
      {A : Type 0} {P E : World Bytes → Type 0} {o : Outcome A} {a : A}
      → o ≡ done a
      → Safe P (λ b w. P w × (b ≡ a)) E (lift o)
  lift-Safe {P = P} {E = E} {a = a} e =
      subst (λ o. Safe P (λ b w. P w × (b ≡ a)) E (lift o)) (sym e)
        (record { safe = λ w p. (p, refl) })

  pub taken-Safe :
      {A : Type 0} {P E : World Bytes → Type 0} {Q : A → World Bytes → Type 0} {m : Action Bytes A}
      (b : Bool) (n : Action Bytes A)
      → b ≡ true
      → Safe P Q E m
      → Safe P Q E (if b then m else n)
  taken-Safe true n e h = h
  taken-Safe false n e h = cc e

  pub skipped-Safe :
      {A : Type 0} {P E : World Bytes → Type 0} {Q : A → World Bytes → Type 0} {n : Action Bytes A}
      (b : Bool) (m : Action Bytes A)
      → b ≡ false
      → Safe P Q E n
      → Safe P Q E (if b then m else n)
  skipped-Safe false m e h = h
  skipped-Safe true m e h = cc e

  returned :
      {A : Type 0} (Q : A → World Bytes → Type 0) (E : World Bytes → Type 0)
      (out : Outcome A × World Bytes)
      → IsQuiet env
      → Result Q E out
      → (a : A) × (v : World Bytes) × (out ≡ (done a, v)) × Q a v
  returned Q E (done a, v) quiet h = (a, v, refl, h)
  returned Q E (failed e, v) quiet h = absurd (h.1 quiet)

  -- Where nothing interrupts it, the action returns.
  pub returns-Safe :
      {A : Type 0} {P E : World Bytes → Type 0} {Q : A → World Bytes → Type 0} {m : Action Bytes A}
      → Safe P Q E m
      → IsQuiet env
      → (w : World Bytes) → P w
      → (a : A) × (v : World Bytes) × (m w ≡ (done a, v)) × Q a v
  returns-Safe {E = E} {Q = Q} {m = m} h quiet w p = returned Q E (m w) quiet (h.safe w p)

  kept :
      {A B : Type 0} (X : World Bytes → Type 0) (out : Outcome A × World Bytes)
      (f : A → Action Bytes B)
      → Result (λ _ w. X w) X out
      → ((a : A) (w : World Bytes) → X w → X (f a w).1)
      → X (bind out f).1
  kept X (done a, v) f q h = h a v q
  kept X (failed e, v) f q h = q.0

  -- What an action keeps, whether it returns or not.
  pub keeps-Safe :
      {A B : Type 0} {P X : World Bytes → Type 0} {m : Action Bytes A} (f : A → Action Bytes B)
      → Safe P (λ _ w. X w) X m
      → ((a : A) (w : World Bytes) → X w → X (f a w).1)
      → (w : World Bytes) → P w
      → X ((m >>= f) w).1
  keeps-Safe {X = X} {m = m} f h k w p = kept X (m w) f (h.safe w p) k

  ended :
      {A : Type 0} (Q : A → World Bytes → Type 0) (E X : World Bytes → Type 0)
      (out : Outcome A × World Bytes)
      → Result Q E out
      → ((a : A) (v : World Bytes) → Q a v → X v)
      → ((v : World Bytes) → E v → X v)
      → X out.1
  ended Q E X (done a, v) h f g = f a v h
  ended Q E X (failed e, v) h f g = g v h.0

  -- What holds however the action ends.
  pub ends-Safe :
      {A : Type 0} {P E : World Bytes → Type 0} {Q : A → World Bytes → Type 0} {m : Action Bytes A}
      (X : World Bytes → Type 0)
      → Safe P Q E m
      → ((a : A) (v : World Bytes) → Q a v → X v)
      → ((v : World Bytes) → E v → X v)
      → (w : World Bytes) → P w
      → X (m w).1
  ends-Safe {E = E} {Q = Q} {m = m} X h f g w p = ended Q E X (m w) (h.safe w p) f g

  valued :
      {A : Type 0} (Q : A → World Bytes → Type 0) (E : World Bytes → Type 0)
      (out : Outcome A × World Bytes) (a : A)
      → Result Q E out
      → out.0 ≡ done a
      → Q a out.1
  valued Q E (done b, v) a h e = subst (λ x. Q x v) (ap (taken b) e) h
    where
      taken : {A : Type 0} → A → Outcome A → A
      taken d (done x) = x
      taken d (failed x) = d
  valued Q E (failed x, v) a h e = absurd (cc e)

  -- What holds where the action returns a value.
  pub value-Safe :
      {A : Type 0} {P E : World Bytes → Type 0} {Q : A → World Bytes → Type 0} {m : Action Bytes A}
      → Safe P Q E m
      → (w : World Bytes) → P w
      → (a : A) → (m w).0 ≡ done a
      → Q a (m w).1
  value-Safe {E = E} {Q = Q} {m = m} h w p a e = valued Q E (m w) a (h.safe w p) e
