-- ===== src/Config/Formats.antt =====
-- src/rcm/config/store.py: what the store writes, `_Record` and `_Journal` with their encodings.
--
-- The bytes, the JSON codec, SHA-256 and the schema of the configuration (src/rcm/config/schema.py)
-- are the interface `Format`. An object is a mapping: its fields are written here in the order of
-- their keys, in which canonical JSON has them.
use rcm_windows.Prelude.{
  leb, ◌==◌, if◌then◌else◌, length, all, codes, subset, ℤ, pos, ℕ, ◌+◌, ◌-◌, ◌^◌, String, Bool,
  true, false, not, ◌&&◌, ◌||◌, Option, none, some, List, [], ◌∷◌, ◌++◌, str_eq,
}

mutual
  pub data Json : Type 0 where
    null : Json
    bool : Bool → Json
    int : ℤ → Json
    str : String → Json
    arr : Items → Json
    obj : Fields → Json

  pub data Items : Type 0 where
    empty : Items
    item : Json → Items → Items

  pub data Fields : Type 0 where
    end : Fields
    field : String → Json → Fields → Fields

-- The exceptions of the store. `config_error` is any other `ConfigError`; `power_loss` and
-- `hook_error` end the caller's process.
pub data Failure : Type 0 where
  config_error corrupt generation_error conflict lock_error : Failure
  io_error disk_full read_only bad_value : Failure
  power_loss hook_error : Failure

pub data Outcome {ℓ} (A : Type ℓ) : Type ℓ where
  done : A → Outcome A
  failed : Failure → Outcome A

abbrev pub try {ℓ κ} : {A : Type ℓ} {B : Type κ} → Outcome A → (A → Outcome B) → Outcome B
try (done a) f = f a
try (failed e) f = failed e

infixl 5 ◌>>=◌ ◌>>◌
abbrev pub ◌>>=◌ {ℓ κ} : {A : Type ℓ} {B : Type κ} → Outcome A → (A → Outcome B) → Outcome B
m >>= f = try m f

abbrev pub ◌>>◌ {ℓ κ} : {A : Type ℓ} {B : Type κ} → Outcome A → Outcome B → Outcome B
m >> k = try m (λ _. k)

abbrev pub check : Bool → Failure → Outcome (Unit {0})
check true e = done tt
check false e = failed e

abbrev pub max_config_bytes : ℕ
max_config_bytes = 1048576

abbrev pub max_record_bytes : ℕ
max_record_bytes = max_config_bytes + 65536

abbrev pub max_journal_bytes : ℕ
max_journal_bytes = 65536

abbrev pub max_generation : ℕ
max_generation = 2 ^ 63 - 1

abbrev hex : List ℕ
hex = codes "0123456789abcdef"

abbrev pub elem : ℕ → List ℕ → Bool
elem c [] = false
elem c (x ∷ xs) = x == c || elem c xs

-- _is_checksum
unfoldable pub is_checksum : String → Bool
is_checksum value = length (codes value) == 64 && all (λ c. elem c hex) (codes value)

-- None, or a checksum.
abbrev pub is_id : Option String → Bool
is_id none = true
is_id (some t) = is_checksum t

abbrev pub keys : Fields → List String
keys end = []
keys (field k v rest) = k ∷ keys rest

abbrev pub get : String → Fields → Option Json
get k end = none
get k (field j v rest) = if str_eq j k then some v else get k rest

abbrev pub object : Json → Outcome Fields
object (obj fields) = done fields
object _ = failed config_error

abbrev pub member : String → Fields → Outcome Json
member k fields = elim (get k fields) [ none ↦ failed config_error | some v ↦ done v ]

-- type(value) is int and low <= value <= high
abbrev pub bounded : Json → ℕ → Failure → Outcome ℕ
bounded (int (pos n)) low e = if leb low n && leb n max_generation then done n else failed e
bounded _ low e = failed e

abbrev pub checksum_of : Json → Outcome String
checksum_of (str s) = if is_checksum s then done s else failed config_error
checksum_of _ = failed config_error

-- value is None, or a checksum.
abbrev pub optional_checksum : Option Json → Outcome (Option String)
optional_checksum none = done none
optional_checksum (some null) = done none
optional_checksum (some (str s)) = if is_checksum s then done (some s) else failed config_error
optional_checksum (some _) = failed config_error

abbrev pub is_one : Json → Bool
is_one (int (pos n)) = n == 1
is_one _ = false

pub record Format (Config Bytes : Type 0) : Type 0 where
  pub size : Bytes → ℕ
  pub same_bytes : Bytes → Bytes → Bool
  -- decode_json_bytes and canonical_json_bytes, which cannot fail: a `Json` has no NaN, and its strings
  -- have no lone surrogates. A configuration with one counts as refused by `config_to_dict`.
  pub decode_json : ℕ → Bytes → Outcome Json
  pub json_bytes : Json → Bytes
  pub sha256 : Bytes → String
  pub config_to_dict : Config → Outcome Json
  pub config_from_dict : Json → Outcome Config
  pub default_config : Config

pub record StoredConfig (Config : Type 0) : Type 0 where
  pub config : Config
  pub generation : ℕ
  pub checksum : String
  pub transaction_id : Option String

pub record Record (Config Bytes : Type 0) : Type 0 where
  pub stored : StoredConfig Config
  pub raw : Bytes
  pub raw_checksum : String

pub data JournalPhase : Type 0 where
  prepared replaced committed : JournalPhase

pub record Journal : Type 0 where
  pub phase : JournalPhase
  pub old_generation : ℕ
  pub old_record_checksum : Option String
  pub new_generation : ℕ
  pub new_record_checksum : String

abbrev pub with_phase : JournalPhase → Journal → Journal
with_phase phase j = record j { phase = phase }

abbrev pub phase_value : JournalPhase → String
phase_value prepared = "prepared"
phase_value replaced = "replaced"
phase_value committed = "committed"

abbrev pub phase_of : Json → Outcome JournalPhase
phase_of (str s) =
    if str_eq s "prepared"
    then done prepared
    else if str_eq s "replaced"
    then done replaced
    else if str_eq s "committed"
    then done committed
    else failed config_error
phase_of _ = failed config_error

-- except ConfigGenerationError: raise; except ConfigError: raise ConfigCorruptError
abbrev pub or_corrupt {ℓ} : {A : Type ℓ} → Outcome A → Outcome A
or_corrupt (done a) = done a
or_corrupt (failed generation_error) = failed generation_error
or_corrupt (failed e) = failed corrupt

-- except ConfigError: raise ConfigCorruptError
abbrev pub or_corrupt_all {ℓ} : {A : Type ℓ} → Outcome A → Outcome A
or_corrupt_all (done a) = done a
or_corrupt_all (failed e) = failed corrupt

abbrev pub id_field : Option String → Fields
id_field none = end
id_field (some t) = field "transaction_id" (str t) end

abbrev pub text_or_null : Option String → Json
text_or_null none = null
text_or_null (some s) = str s

abbrev pub journal_json : Journal → Json
journal_json j = obj (
    field "journal_version" (int (pos 1)) (
      field "new_generation" (int (pos j.new_generation)) (
        field "new_record_checksum" (str j.new_record_checksum) (
          field "old_generation" (int (pos j.old_generation)) (
            field "old_record_checksum" (text_or_null j.old_record_checksum)
              (field "phase" (str (phase_value j.phase)) end))))))

abbrev journal_keys : List String
journal_keys =
    "journal_version" ∷ "phase" ∷ "old_generation" ∷ "old_record_checksum" ∷ "new_generation"
    ∷ "new_record_checksum" ∷ []

abbrev pub record_keys : List String
record_keys = "store_version" ∷ "generation" ∷ "checksum" ∷ "config" ∷ []

abbrev pub is_none {ℓ} : {A : Type ℓ} → Option A → Bool
is_none none = true
is_none (some a) = false

-- (old_generation == 0) != (old_checksum is None)
abbrev pub agrees : ℕ → Option String → Bool
agrees n o = if n == 0 then is_none o else not (is_none o)

-- The checks of `_decode_journal` on a decoded value.
unfoldable pub journal_fields : Json → Outcome Journal
unfolding is_checksum
journal_fields value = do
  fields ← object value
  check (subset (keys fields) journal_keys && subset journal_keys (keys fields)) config_error
  version ← member "journal_version" fields
  check (is_one version) config_error
  phase ← try (member "phase" fields) phase_of
  old ← try (member "old_generation" fields) (λ v. bounded v 0 config_error)
  old_checksum ← try (member "old_record_checksum" fields) (λ v. optional_checksum (some v))
  check (agrees old old_checksum) config_error
  new ← try (member "new_generation" fields) (λ v. bounded v 1 config_error)
  check (new == old + 1) config_error
  new_checksum ← try (member "new_record_checksum" fields) checksum_of
  done (record {
    phase = phase;
    old_generation = old;
    old_record_checksum = old_checksum;
    new_generation = new;
    new_record_checksum = new_checksum;
  })

abbrev pub record_json : Json → ℕ → String → Option String → Json
record_json value generation checksum transaction_id = obj (
    field "checksum" (str checksum) (
      field "config" value (
        field "generation" (int (pos generation))
          (field "store_version" (int (pos 1)) (id_field transaction_id)))))

module _ {Config Bytes : Type 0} (fmt : Format Config Bytes) where
  unfoldable pub canonical_config_bytes : Config → Outcome Bytes
  canonical_config_bytes c = do
    value ← fmt.config_to_dict c
    let encoded = fmt.json_bytes value
    if leb (fmt.size encoded) max_config_bytes then done encoded else failed config_error

  unfoldable pub record_bytes : Config → ℕ → Option String → Outcome Bytes
  unfolding canonical_config_bytes is_checksum
  record_bytes c generation transaction_id = do
    check (leb 1 generation && leb generation max_generation) generation_error
    check (is_id transaction_id) bad_value
    payload ← canonical_config_bytes c
    value ← fmt.config_to_dict c
    done (fmt.json_bytes (record_json value generation (fmt.sha256 payload) transaction_id))

  -- The checks of `_decode_record` on a decoded value.
  unfoldable pub record_fields : Json → Outcome (StoredConfig Config)
  unfolding canonical_config_bytes is_checksum
  record_fields value = do
    fields ← object value
    check
        (subset (keys fields) (record_keys ++ "transaction_id" ∷ [])
          && subset record_keys (keys fields))
        config_error
    version ← member "store_version" fields
    check (is_one version) config_error
    generation ← try (member "generation" fields) (λ v. bounded v 1 generation_error)
    checksum ← try (member "checksum" fields) checksum_of
    transaction_id ← optional_checksum (get "transaction_id" fields)
    c ← try (member "config" fields) fmt.config_from_dict
    payload ← canonical_config_bytes c
    check (str_eq (fmt.sha256 payload) checksum) config_error
    done (record {
      config = c;
      generation = generation;
      checksum = checksum;
      transaction_id = transaction_id;
    })

  unfoldable pub decode_record : Bytes → Outcome (Record Config Bytes)
  unfolding record_fields
  decode_record raw = do
    stored ← or_corrupt (try (fmt.decode_json max_record_bytes raw) record_fields)
    done (record { stored = stored; raw = raw; raw_checksum = fmt.sha256 raw })

  abbrev pub journal_bytes : Journal → Bytes
  journal_bytes j = fmt.json_bytes (journal_json j)

  unfoldable pub decode_journal : Bytes → Outcome Journal
  unfolding journal_fields
  decode_journal raw = or_corrupt_all (try (fmt.decode_json max_journal_bytes raw) journal_fields)
