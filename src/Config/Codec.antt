-- ===== src/Config/Codec.antt =====
-- src/rcm/config/store.py: `_decode_record` after `_record_bytes`, and `_decode_journal` after
-- `_encode_journal`, over the laws that the store relies on.
use rcm_windows.Prelude.{
  leb, ◌==◌, ==_self, ℕ, ◌+◌, String, ◌≡◌, Bool, true, ◌&&◌, Option, none, some, arith, eq_refl,
}
use rcm_windows.Config.Formats.{
  try, max_config_bytes, max_record_bytes, max_journal_bytes, max_generation, is_checksum, is_id,
  journal_json, agrees, journal_fields, record_json, canonical_config_bytes, record_bytes,
  record_fields, decode_record, journal_bytes, decode_journal, Json, Outcome, Format, StoredConfig,
  Record, JournalPhase, Journal, null, done, failed, prepared, replaced, committed,
}
use rcm_windows.Config.Laws.{is_canonical, max_depth, Laws}

abbrev pub journal_of : ℕ → String → JournalPhase → Option String → Journal
journal_of n s p o = record {
  phase = p;
  old_generation = n;
  old_record_checksum = o;
  new_generation = n + 1;
  new_record_checksum = s;
}

-- A generation within the bounds.
abbrev pub is_generation : ℕ → Bool
is_generation n = leb 1 n && leb n max_generation

below_max : (n : ℕ) → is_generation n ≡ true → leb n max_generation ≡ true
below_max n h = ground arith

lower : (n : ℕ) → is_generation (n + 1) ≡ true → leb n max_generation ≡ true
lower n h = ground arith

before : (n : ℕ) → is_generation (n + 1) ≡ true → (leb 0 n && leb n max_generation) ≡ true
before n h = ground arith

-- The fields of a journal as they are written and read back.
module _ (n : ℕ) (s : String) (a : (leb 0 n && leb n max_generation) ≡ true)
    (b : (leb 1 (n + 1) && leb (n + 1) max_generation) ≡ true) (e : is_checksum s ≡ true)
    (same : (n + 1 == n + 1) ≡ true) where
  journal_round :
      (p : JournalPhase) (o : Option String)
      → is_id o ≡ true
      → agrees n o ≡ true
      → journal_fields (journal_json (journal_of n s p o)) ≡ done (journal_of n s p o)
  unfolding journal_fields
  journal_round prepared none c d = rw (a, d, b, same, e)
  journal_round prepared (some o) c d = rw (a, c, d, b, same, e)
  journal_round replaced none c d = rw (a, d, b, same, e)
  journal_round replaced (some o) c d = rw (a, c, d, b, same, e)
  journal_round committed none c d = rw (a, d, b, same, e)
  journal_round committed (some o) c d = rw (a, c, d, b, same, e)

journal_canonical :
    (p : JournalPhase) (n : ℕ) (o : Option String) (s : String)
    → is_generation (n + 1) ≡ true
    → is_canonical (max_depth + 1) (journal_json (journal_of n s p o)) ≡ true
journal_canonical p n none s b = rw (lower n b, below_max (n + 1) b)
journal_canonical p n (some o) s b = rw (lower n b, below_max (n + 1) b)

abbrev pub dict_or_null : Outcome Json → Json
dict_or_null (done v) = v
dict_or_null (failed e) = null

module _ {Config Bytes : Type 0} (fmt : Format Config Bytes) where
  -- The dictionary of a configuration that has one.
  abbrev pub dict_of : Config → Json
  dict_of c = dict_or_null (fmt.config_to_dict c)

  abbrev pub payload_of : Config → Bytes
  payload_of c = fmt.json_bytes (dict_of c)

  -- The configuration has a dictionary, within the limit.
  abbrev pub Fits : Config → Type 0
  Fits c =
      (fmt.config_to_dict c ≡ done (dict_of c))
      × (leb (fmt.size (payload_of c)) max_config_bytes ≡ true)

  -- What is returned for a configuration that is saved.
  abbrev pub stored_of : Config → ℕ → Option String → StoredConfig Config
  stored_of c n i = record {
    config = c;
    generation = n;
    checksum = fmt.sha256 (payload_of c);
    transaction_id = i;
  }

  abbrev pub raw_record : Config → ℕ → Option String → Bytes
  raw_record c n i = fmt.json_bytes (record_json (dict_of c) n (fmt.sha256 (payload_of c)) i)

module _ {Config Bytes : Type 0} (fmt : Format Config Bytes) (laws : Laws fmt) where
  -- What is loaded for it: the schema has normalised it.
  abbrev pub loaded_of : Config → ℕ → Option String → StoredConfig Config
  loaded_of c n i = record (stored_of fmt c n i) { config = laws.normal c }

  abbrev pub record_of : Config → ℕ → Option String → Record Config Bytes
  record_of c n i = record {
    stored = loaded_of c n i;
    raw = raw_record fmt c n i;
    raw_checksum = fmt.sha256 (raw_record fmt c n i);
  }

  -- A journal in any phase, to a generation within the bounds and with checksums of the right form,
  -- the old one absent just at generation 0, reads back as it was written.
  pub decode_journal-journal_bytes :
      (p : JournalPhase) (n : ℕ) (o : Option String) (s : String)
      → is_generation (n + 1) ≡ true
      → is_id o ≡ true
      → agrees n o ≡ true
      → is_checksum s ≡ true
      → decode_journal fmt (journal_bytes fmt (journal_of n s p o)) ≡ done (journal_of n s p o)
  unfolding decode_journal
  decode_journal-journal_bytes p n o s b c d e = rw (
    laws.decode_encoded max_journal_bytes (journal_json (journal_of n s p o))
        (journal_canonical p n o s b)
        (laws.journal_fits (journal_of n s p o) (lower n b) (below_max (n + 1) b) c e),
    journal_round n s (before n b) b e (==_self (n + 1)) p o c d,
  )

  pub canonical : (c : Config) → Fits fmt c → canonical_config_bytes fmt c ≡ done (payload_of fmt c)
  unfolding canonical_config_bytes
  canonical c h = rw (h.0, h.1)

  -- What is written for the normal configuration is the same.
  canonical_normal :
      (c : Config)
      → Fits fmt c
      → canonical_config_bytes fmt (laws.normal c) ≡ done (payload_of fmt c)
  unfolding canonical_config_bytes
  canonical_normal c h = rw (laws.normal_to_dict c (dict_of fmt c) h.0, h.1)

  record_canonical :
      (c : Config) (n : ℕ) (s : String) (i : Option String)
      → Fits fmt c
      → is_generation n ≡ true
      → is_canonical (max_depth + 1) (record_json (dict_of fmt c) n s i) ≡ true
  record_canonical c n s none h g = rw (laws.dict_canonical c (dict_of fmt c) h.0, below_max n g)
  record_canonical c n s (some i) h g =
      rw (laws.dict_canonical c (dict_of fmt c) h.0, below_max n g)

  record_round :
      (c : Config) (n : ℕ) (i : Option String)
      → Fits fmt c
      → is_generation n ≡ true
      → is_id i ≡ true
      → record_fields fmt (record_json (dict_of fmt c) n (fmt.sha256 (payload_of fmt c)) i)
        ≡ done (loaded_of c n i)
  unfolding record_fields
  record_round c n none f g h = rw (
    g,
    laws.sha256_hex (payload_of fmt c),
    laws.from_to_dict c (dict_of fmt c) f.0,
    canonical_normal c f,
    eq_refl (fmt.sha256 (payload_of fmt c)),
  )
  record_round c n (some i) f g h = rw (
    g,
    laws.sha256_hex (payload_of fmt c),
    h,
    laws.from_to_dict c (dict_of fmt c) f.0,
    canonical_normal c f,
    eq_refl (fmt.sha256 (payload_of fmt c)),
  )

  pub record_bytes_lem :
      (c : Config) (n : ℕ) (i : Option String)
      → Fits fmt c
      → is_generation n ≡ true
      → is_id i ≡ true
      → record_bytes fmt c n i ≡ done (raw_record fmt c n i)
  unfolding record_bytes
  record_bytes_lem c n i f g h = rw (g, h, canonical c f, f.0)

  pub decode_raw :
      (c : Config) (n : ℕ) (i : Option String)
      → Fits fmt c
      → is_generation n ≡ true
      → is_id i ≡ true
      → decode_record fmt (raw_record fmt c n i) ≡ done (record_of c n i)
  unfolding decode_record
  decode_raw c n i f g h = rw (
    laws.decode_encoded max_record_bytes
        (record_json (dict_of fmt c) n (fmt.sha256 (payload_of fmt c)) i)
        (record_canonical c n (fmt.sha256 (payload_of fmt c)) i f g)
        (laws.record_fits c (dict_of fmt c) n (fmt.sha256 (payload_of fmt c)) i f.0 f.1
          (below_max n g) (laws.sha256_hex (payload_of fmt c)) h),
    record_round c n i f g h,
  )

  -- The record of a configuration that has a dictionary within the limit, with a generation within
  -- the bounds and an identifier of the right form or none, reads back with the configuration
  -- normalised by the schema, and with the rest as it was written.
  pub decode_record-record_bytes :
      (c : Config) (n : ℕ) (i : Option String)
      → Fits fmt c
      → is_generation n ≡ true
      → is_id i ≡ true
      → try (record_bytes fmt c n i) (decode_record fmt) ≡ done (record_of c n i)
  decode_record-record_bytes c n i f g h = rw (record_bytes_lem c n i f g h, decode_raw c n i f g h)
