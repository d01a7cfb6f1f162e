-- ===== src/Config/Decoding.antt =====
-- src/rcm/config/store.py: what `_decode_record` lets through.
use rcm_windows.Prelude.{
  leb, if◌then◌else◌, subset, pos, ℕ, String, ◌≡◌, refl, ap, subst, Bool, true, false, ◌&&◌, Option,
  none, some, [], ◌∷◌, ◌++◌, str_eq,
}
use rcm_windows.Config.Formats.{
  try, check, max_config_bytes, max_record_bytes, is_checksum, is_id, keys, get, object, member,
  bounded, checksum_of, optional_checksum, is_one, or_corrupt, record_keys, canonical_config_bytes,
  record_fields, decode_record, Json, Failure, Outcome, Format, StoredConfig, Record, null, int,
  str, config_error, generation_error, done, failed,
}
use rcm_windows.Config.Codec.{is_generation, dict_or_null, payload_of, Fits}

-- Whatever is computed has the property.
record Gives {A : Type 0} (o : Outcome A) (Q : A → Type 0) : Type 0 where
  pub gives : (a : A) → o ≡ done a → Q a

try_gives :
    {A B : Type 0} (Q : B → Type 0) (o : Outcome A) (f : A → Outcome B)
    → ((a : A) → o ≡ done a → Gives (f a) Q)
    → (b : B) → try o f ≡ done b
    → Q b
try_gives Q (done a) f h b e = (h a refl).gives b e
try_gives Q (failed x) f h b e = absurd (cc e)

try-Gives :
    {A B : Type 0} {Q : B → Type 0} (o : Outcome A) (f : A → Outcome B)
    → ((a : A) → o ≡ done a → Gives (f a) Q)
    → Gives (try o f) Q
try-Gives {Q = Q} o f h = record { gives = try_gives Q o f h }

check_is : (b : Bool) (e : Failure) (a : Unit {0}) → check b e ≡ done a → b ≡ true
check_is true e a x = refl
check_is false e a x = absurd (cc x)

abbrev pub value_or : {A : Type 0} → A → Outcome A → A
value_or a (done x) = x
value_or a (failed x) = a

done-Gives : {A : Type 0} (Q : A → Type 0) (a : A) → Q a → Gives (done a) Q
done-Gives Q a q = record { gives = λ b e. subst Q (ap (value_or a) e) q }

-- A value that is returned under a test.
tested :
    {A : Type 0} (Q : A → Type 0) (b : Bool) (a : A) (e : Failure)
    → (b ≡ true → Q a)
    → Gives (if b then done a else failed e) Q
tested Q true a e h = done-Gives Q a (h refl)
tested Q false a e h = record { gives = λ x y. absurd (cc y) }

bounded_in : (v : Json) (n : ℕ) → bounded v 1 generation_error ≡ done n → is_generation n ≡ true
bounded_in (int (pos m)) n e =
    (tested (λ n. is_generation n ≡ true) (is_generation m) m generation_error (λ h. h)).gives n e
bounded_in v n e = absurd (cc e)

optional_in : (v : Option Json) (i : Option String) → optional_checksum v ≡ done i → is_id i ≡ true
optional_in none i e = (done-Gives (λ i. is_id i ≡ true) none refl).gives i e
optional_in (some null) i e = (done-Gives (λ i. is_id i ≡ true) none refl).gives i e
optional_in (some (str s)) i e =
    (tested (λ i. is_id i ≡ true) (is_checksum s) (some s) config_error (λ h. h)).gives i e
optional_in (some v) i e = absurd (cc e)

module _ {Config Bytes : Type 0} (fmt : Format Config Bytes) where
  -- What holds of a record that is decoded.
  pub record Sound (s : StoredConfig Config) : Type 0 where
    pub generation_bounds : is_generation s.generation ≡ true
    pub id_form : is_id s.transaction_id ≡ true
    pub config_fits : Fits fmt s.config
    pub checksum_right : str_eq (fmt.sha256 (payload_of fmt s.config)) s.checksum ≡ true

  -- Bytes within the limit are those of a dictionary.
  encoded_case :
      (o : Outcome Json) (p : Bytes)
      → try o (λ v.
        if leb (fmt.size (fmt.json_bytes v)) max_config_bytes
        then done (fmt.json_bytes v)
        else failed config_error)
        ≡ done p
      → ((o ≡ done (dict_or_null o))
          × (leb (fmt.size (fmt.json_bytes (dict_or_null o))) max_config_bytes ≡ true))
        × (p ≡ fmt.json_bytes (dict_or_null o))
  encoded_case (failed x) p e = absurd (cc e)
  encoded_case (done v) p e =
      (tested
          (λ q.
            ((done v ≡ done v) × (leb (fmt.size (fmt.json_bytes v)) max_config_bytes ≡ true))
            × (q ≡ fmt.json_bytes v))
          (leb (fmt.size (fmt.json_bytes v)) max_config_bytes) (fmt.json_bytes v) config_error
          (λ h. ((refl, h), refl))).gives
        p e

  payload_is :
      (c : Config) (p : Bytes) → canonical_config_bytes fmt c ≡ done p → p ≡ payload_of fmt c
  unfolding canonical_config_bytes
  payload_is c p e = (encoded_case (fmt.config_to_dict c) p e).1

  Fits-is : (c : Config) (p : Bytes) → canonical_config_bytes fmt c ≡ done p → Fits fmt c
  unfolding canonical_config_bytes
  Fits-is c p e = (encoded_case (fmt.config_to_dict c) p e).0

  fields_Sound : (v : Json) → Gives (record_fields fmt v) Sound
  unfolding record_fields
  fields_Sound v = try-Gives (object v) _ (λ fields _.
      try-Gives
        (check
          (subset (keys fields) (record_keys ++ "transaction_id" ∷ [])
            && subset record_keys (keys fields))
          config_error)
        _
        (λ _ _. try-Gives (member "store_version" fields) _ (λ version _.
          try-Gives (check (is_one version) config_error) _ (λ _ _.
            try-Gives (try (member "generation" fields) (λ v. bounded v 1 generation_error)) _
              (λ n bound. try-Gives (try (member "checksum" fields) checksum_of) _ (λ sum _.
                try-Gives (optional_checksum (get "transaction_id" fields)) _ (λ i form.
                  try-Gives (try (member "config" fields) fmt.config_from_dict) _ (λ c _.
                    try-Gives (canonical_config_bytes fmt c) _ (λ payload size.
                      try-Gives (check (str_eq (fmt.sha256 payload) sum) config_error) _ (λ a right.
                        done-Gives Sound
                          (record {
                            config = c;
                            generation = n;
                            checksum = sum;
                            transaction_id = i;
                          })
                          (record {
                            generation_bounds =
                                try_gives (λ n. is_generation n ≡ true) (member "generation" fields)
                                  (λ v. bounded v 1 generation_error)
                                  (λ v _. record { gives = bounded_in v }) n bound;
                            id_form = optional_in (get "transaction_id" fields) i form;
                            config_fits = Fits-is c payload size;
                            checksum_right =
                                subst (λ p. str_eq (fmt.sha256 p) sum ≡ true)
                                  (payload_is c payload size)
                                  (check_is (str_eq (fmt.sha256 payload) sum) config_error a right);
                          })))))))))))

  or_corrupt_same : {A : Type 0} (o : Outcome A) (a : A) → or_corrupt o ≡ done a → o ≡ done a
  or_corrupt_same (done x) a e = e
  or_corrupt_same (failed generation_error) a e = absurd (cc e)
  or_corrupt_same (failed x) a e = absurd (cc e)

  -- A record that is decoded has a generation within the bounds, an identifier of the right form or
  -- none, and a configuration that fits with its checksum, and it keeps the bytes that it is decoded
  -- from with their SHA-256.
  pub decode_record-Sound :
      (raw : Bytes) (r : Record Config Bytes)
      → decode_record fmt raw ≡ done r
      → Sound r.stored × (r.raw ≡ raw) × (r.raw_checksum ≡ fmt.sha256 raw)
  unfolding decode_record
  decode_record-Sound raw r e =
      try_gives
        (λ (r : Record Config Bytes).
          Sound r.stored × (r.raw ≡ raw) × (r.raw_checksum ≡ fmt.sha256 raw))
        (or_corrupt (try (fmt.decode_json max_record_bytes raw) (record_fields fmt))) _
        (λ stored f.
          done-Gives
            (λ (r : Record Config Bytes).
              Sound r.stored × (r.raw ≡ raw) × (r.raw_checksum ≡ fmt.sha256 raw))
            _
            (
              try_gives Sound (fmt.decode_json max_record_bytes raw) _ (λ v _. fields_Sound v)
                  stored (or_corrupt_same _ stored f),
              refl,
              refl,
            ))
        r e
