-- ===== src/Cleanup/Rules.antt =====
-- src/rcm/cleanup.py: what the choice of a rule by `scan` says of the observation.
use rcm_windows.Prelude.{
  leb, ◌==◌, Bool-cases, All, contains, ℕ, ◌≤◌, String, ◌≡◌, refl, ap, subst, ◌⊎◌, inl, inr, Bool,
  true, false, ◌&&◌, ◌||◌, some, List, [], ◌∷◌, ◌++◌, map, arith,
}
use rcm_windows.Cleanup.Types.{folded, matches, ProcessObservation, CleanupRule}
use rcm_windows.Cleanup.Facade.{first_rule}

module _ (casefold : String → String) where
  -- The conditions of a rule, one by one.
  pub record Applies (r : CleanupRule) (o : ProcessObservation) (age : ℕ) : Type 0 where
    pub image :
        contains
          (folded casefold r.image_case_sensitive o.identity.image_name)
          (map (folded casefold r.image_case_sensitive) r.image_names)
        ≡ true
    pub command : contains o.command_fingerprint r.command_fingerprints ≡ true
    pub old_enough : r.minimum_age_seconds ≤ age
    pub unconnected : (r.allow_connections ≡ true) ⊎ (o.connection_count ≡ 0)

  four :
      (a b c d : Bool)
      → (a && (b && (c && d))) ≡ true
      → (a ≡ true) × (b ≡ true) × (c ≡ true) × (d ≡ true)
  four true true true true e = (refl, refl, refl, refl)
  four true true true false e = absurd (cc e)
  four true true false d e = absurd (cc e)
  four true false c d e = absurd (cc e)
  four false b c d e = absurd (cc e)

  one_of : (a : Bool) (n : ℕ) → (a || n == 0) ≡ true → (a ≡ true) ⊎ (n ≡ 0)
  one_of true n e = inl refl
  one_of false n e = inr (ground (arith, e))

  Applies-by :
      (r : CleanupRule) (o : ProcessObservation) (age : ℕ)
      → matches casefold r o age ≡ true
      → Applies r o age
  unfolding matches
  Applies-by r o age e =
      let (image, command, old, free) = four _ _ (leb r.minimum_age_seconds age) _ e in
      record {
        image = image;
        command = command;
        old_enough = ground (arith, old);
        unconnected = one_of r.allow_connections o.connection_count free;
      }

  not_Applies :
      (r : CleanupRule) (o : ProcessObservation) (age : ℕ)
      → matches casefold r o age ≡ false
      → Applies r o age
      → ⊥
  unfolding matches
  not_Applies r o age e h = elim h.unconnected [
    | inl f ↦ ground (arith, e, h.image, h.command, h.old_enough, f)
    | inr f ↦ ground (arith, e, h.image, h.command, h.old_enough, f)
  ]

  -- The rule is the first one that applies.
  pub record IsFirst (rules : List CleanupRule) (o : ProcessObservation) (age : ℕ) (r : CleanupRule)
      : Type 0 where
    pub earlier : List CleanupRule
    pub later : List CleanupRule
    pub split : rules ≡ earlier ++ r ∷ later
    pub applies : Applies r o age
    pub before : All (λ e. Applies e o age → ⊥) earlier

  pub first_rule-IsFirst :
      (rules : List CleanupRule) (o : ProcessObservation) (age : ℕ) (r : CleanupRule)
      → first_rule casefold rules o age ≡ some r
      → IsFirst rules o age r
  first_rule-IsFirst [] o age r e = absurd (cc e)
  first_rule-IsFirst (x ∷ rest) o age r e = elim (Bool-cases (matches casefold x o age)) [
    | inl m ↦
        let same : x ≡ r = ground (arith, e, m) in
        record {
          earlier = [];
          later = rest;
          split = ap (λ y. y ∷ rest) same;
          applies = subst (λ y. Applies y o age) same (Applies-by x o age m);
          before = tt;
        }
    | inr m ↦
        let h = first_rule-IsFirst rest o age r (ground (arith, e, m)) in
        record {
          earlier = x ∷ h.earlier;
          later = h.later;
          split = ap (λ l. x ∷ l) h.split;
          applies = h.applies;
          before = (not_Applies x o age m, h.before);
        }
  ]
