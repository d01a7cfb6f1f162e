-- ===== src/Config/Laws.antt =====
-- src/rcm/config/store.py: what the store relies on of the schema, the JSON codec and SHA-256.
use rcm_windows.Prelude.{
  ltb, leb, ◌==◌, if◌then◌else◌, codes, ℤ, pos, negsuc, ℕ, zero, suc, ◌+◌, String, ◌≡◌, Bool, true,
  false, ◌&&◌, Option, List, [], ◌∷◌,
}
use rcm_windows.Config.Formats.{
  max_config_bytes, max_record_bytes, max_journal_bytes, max_generation, is_checksum, is_id,
  journal_json, record_json, Json, Items, Fields, Format, Journal, null, bool, int, str, arr, obj,
  empty, item, end, field, done,
}

-- The order of code points, in which canonical JSON has its keys.
abbrev before_codes : List ℕ → List ℕ → Bool
before_codes [] [] = false
before_codes [] (y ∷ ys) = true
before_codes (x ∷ xs) [] = false
before_codes (x ∷ xs) (y ∷ ys) = let rest = before_codes xs ys in if x == y then rest else ltb x y

abbrev is_first : String → Fields → Bool
is_first k end = true
is_first k (field j v rest) = before_codes (codes k) (codes j)

abbrev small : ℤ → Bool
small (pos n) = leb n max_generation
small (negsuc n) = leb n max_generation

-- Values as canonical JSON has them: keys that increase, so that none occurs twice, integers of at
-- most 64 bits, and objects and arrays nested at most so deep.
abbrev mutual
  pub is_canonical : ℕ → Json → Bool
  is_canonical depth null = true
  is_canonical depth (bool b) = true
  is_canonical depth (int n) = small n
  is_canonical depth (str s) = true
  is_canonical zero (arr items) = false
  is_canonical zero (obj fields) = false
  is_canonical (suc depth) (arr items) = canonical_items depth items
  is_canonical (suc depth) (obj fields) = canonical_fields depth fields

  canonical_items : ℕ → Items → Bool
  canonical_items depth empty = true
  canonical_items depth (item v rest) = is_canonical depth v && canonical_items depth rest

  canonical_fields : ℕ → Fields → Bool
  canonical_fields depth end = true
  canonical_fields depth (field k v rest) =
      is_first k rest && (is_canonical depth v && canonical_fields depth rest)

-- How deep a configuration nests, with room.
abbrev pub max_depth : ℕ
max_depth = 15

-- What the store relies on. Decoding gives back what was encoded, for a canonical value within the
-- limit. The schema may change a configuration: `config_to_dict` reads its own result with
-- `config_from_dict`, which gives the `normal` configuration, and normalising twice changes nothing
-- more. A SHA-256 is 64 hexadecimal digits; equal bytes compare equal; what a record and a journal
-- add to the configuration is within the limits.
pub record Laws {Config Bytes : Type 0} (fmt : Format Config Bytes) : Type 0 where
  pub normal : Config → Config
  pub decode_encoded :
      (limit : ℕ) (v : Json)
      → is_canonical (max_depth + 1) v ≡ true
      → leb (fmt.size (fmt.json_bytes v)) limit ≡ true
      → fmt.decode_json limit (fmt.json_bytes v) ≡ done v
  pub dict_canonical :
      (c : Config) (v : Json) → fmt.config_to_dict c ≡ done v → is_canonical max_depth v ≡ true
  pub from_to_dict :
      (c : Config) (v : Json)
      → fmt.config_to_dict c ≡ done v
      → fmt.config_from_dict v ≡ done (normal c)
  pub normal_to_dict :
      (c : Config) (v : Json)
      → fmt.config_to_dict c ≡ done v
      → fmt.config_to_dict (normal c) ≡ done v
  pub sha256_hex : (b : Bytes) → is_checksum (fmt.sha256 b) ≡ true
  pub same_self : (b : Bytes) → fmt.same_bytes b b ≡ true
  pub record_fits :
      (c : Config) (v : Json) (generation : ℕ) (checksum : String) (transaction_id : Option String)
      → fmt.config_to_dict c ≡ done v
      → leb (fmt.size (fmt.json_bytes v)) max_config_bytes ≡ true
      → leb generation max_generation ≡ true
      → is_checksum checksum ≡ true
      → is_id transaction_id ≡ true
      → leb
          (fmt.size (fmt.json_bytes (record_json v generation checksum transaction_id)))
          max_record_bytes
        ≡ true
  pub journal_fits :
      (j : Journal)
      → leb j.old_generation max_generation ≡ true
      → leb j.new_generation max_generation ≡ true
      → is_id j.old_record_checksum ≡ true
      → is_checksum j.new_record_checksum ≡ true
      → leb (fmt.size (fmt.json_bytes (journal_json j))) max_journal_bytes ≡ true
