-- ===== src/Tests/PlainFormat.antt =====
-- A schema with a flag, nodes and an executable path that is normalised, and JSON values for their own
-- bytes: a format with the laws that the store relies on.
use rcm_windows.Prelude.{
  leb, ◌==◌, if◌then◌else◌, leb_of_le, ==_self, length, codes, ℤ, pos, negsuc, ℕ, suc, ◌+◌, ◌≤◌,
  String, ◌≡◌, refl, sym, ap, ◌∙◌, subst, Bool, true, false, not, ◌&&◌, ◌||◌, Option, none, some,
  List, [], ◌∷◌, arith, str_eq, eq_refl,
}
use rcm_windows.Config.Formats.{
  try, max_config_bytes, max_record_bytes, max_journal_bytes, max_generation, is_checksum, is_id,
  object, member, text_or_null, journal_json, record_json, Json, Items, Fields, Outcome, Format,
  JournalPhase, Journal, null, bool, int, str, arr, obj, empty, item, end, field, config_error,
  done, failed, prepared, replaced, committed,
}
use rcm_windows.Config.Laws.{is_canonical, max_depth, Laws}
use rcm_windows.Config.Decoding.{value_or}

abbrev pub zeros : String
zeros = "0000000000000000000000000000000000000000000000000000000000000000"

abbrev same_flag : Bool → Bool → Bool
same_flag true b = b
same_flag false b = not b

abbrev same_int : ℤ → ℤ → Bool
same_int (pos m) (pos n) = m == n
same_int (negsuc m) (negsuc n) = m == n
same_int _ _ = false

abbrev mutual
  same_json : Json → Json → Bool
  same_json null null = true
  same_json (bool a) (bool b) = same_flag a b
  same_json (int a) (int b) = same_int a b
  same_json (str a) (str b) = str_eq a b
  same_json (arr a) (arr b) = same_items a b
  same_json (obj a) (obj b) = same_fields a b
  same_json _ _ = false

  same_items : Items → Items → Bool
  same_items empty empty = true
  same_items (item v rest) (item w more) = same_json v w && same_items rest more
  same_items _ _ = false

  same_fields : Fields → Fields → Bool
  same_fields end end = true
  same_fields (field k v rest) (field l w more) =
      str_eq k l && (same_json v w && same_fields rest more)
  same_fields _ _ = false

mutual
  pub json_same : (v : Json) → same_json v v ≡ true
  json_same null = refl
  json_same (bool true) = refl
  json_same (bool false) = refl
  json_same (int (pos n)) = ==_self n
  json_same (int (negsuc n)) = ==_self n
  json_same (str s) = eq_refl s
  json_same (arr items) = items_same items
  json_same (obj fields) = fields_same fields

  items_same : (i : Items) → same_items i i ≡ true
  items_same empty = refl
  items_same (item v rest) = rw (json_same v, items_same rest)

  fields_same : (f : Fields) → same_fields f f ≡ true
  fields_same end = refl
  fields_same (field k v rest) = rw (eq_refl k, json_same v, fields_same rest)

-- The text of an executable path: none, the two spellings of one path, and one that is refused.
pub data PathText : Type 0 where
  no_path slashes backslashes relative : PathText

pub record Settings : Type 0 where
  pub enabled : Bool
  pub nodes : List String
  pub path : PathText

abbrev node_items : List String → Items
node_items [] = empty
node_items (n ∷ ns) = item (str n) (node_items ns)

abbrev pub settings_json : Bool → List String → String → Json
settings_json enabled nodes path = obj (
    field "enabled" (bool enabled)
      (field "executable_path" (str path) (field "nodes" (arr (node_items nodes)) end)))

abbrev path_json : Bool → List String → PathText → Outcome Json
path_json enabled nodes no_path = done (settings_json enabled nodes "")
path_json enabled nodes slashes = done (settings_json enabled nodes "C:\\ray\\ray.exe")
path_json enabled nodes backslashes = done (settings_json enabled nodes "C:\\ray\\ray.exe")
path_json enabled nodes relative = failed config_error

abbrev normal_path : PathText → PathText
normal_path slashes = backslashes
normal_path p = p

abbrev path_of : String → Outcome PathText
path_of s =
    if str_eq s ""
    then done no_path
    else if str_eq s "C:\\ray\\ray.exe" || str_eq s "C:/ray/ray.exe"
    then done backslashes
    else failed config_error

abbrev nodes_of : Items → Outcome (List String)
nodes_of empty = done []
nodes_of (item (str n) rest) = try (nodes_of rest) (λ ns. done (n ∷ ns))
nodes_of (item _ rest) = failed config_error

abbrev flag : Json → Outcome Bool
flag (bool b) = done b
flag _ = failed config_error

abbrev path_value : Json → Outcome PathText
path_value (str s) = path_of s
path_value _ = failed config_error

abbrev node_list : Json → Outcome (List String)
node_list (arr items) = nodes_of items
node_list _ = failed config_error

abbrev settings_of : Json → Outcome Settings
settings_of v = try (object v) (λ fields. try (try (member "enabled" fields) flag) (λ e.
    try (try (member "executable_path" fields) path_value) (λ path.
      try (try (member "nodes" fields) node_list)
        (λ nodes. done (record { enabled = e; nodes = nodes; path = path })))))

abbrev pub normal_settings : Settings → Settings
normal_settings c = record c { path = normal_path c.path }

abbrev mutual
  weight : Json → ℕ
  weight null = 4
  weight (bool b) = 5
  weight (int n) = 20
  weight (str s) = 2 + length (codes s)
  weight (arr items) = 2 + items_weight items
  weight (obj fields) = 2 + fields_weight fields

  items_weight : Items → ℕ
  items_weight empty = 0
  items_weight (item v rest) = 1 + (weight v + items_weight rest)

  fields_weight : Fields → ℕ
  fields_weight end = 0
  fields_weight (field k v rest) = 4 + length (codes k) + (weight v + fields_weight rest)

abbrev pub plain : Format Settings Json
plain = record {
  size = weight;
  same_bytes = same_json;
  decode_json = λ limit v.
      if leb (weight v) limit && is_canonical (max_depth + 1) v
      then done v
      else failed config_error;
  json_bytes = λ v. v;
  sha256 = λ v. zeros;
  config_to_dict = λ c. path_json c.enabled c.nodes c.path;
  config_from_dict = settings_of;
  default_config = record { enabled = false; nodes = []; path = no_path };
}

pub decoded_plain :
    (limit : ℕ) (v : Json)
    → is_canonical (max_depth + 1) v ≡ true
    → leb (weight v) limit ≡ true
    → plain.decode_json limit v ≡ done v
decoded_plain limit v c h = rw (h, c)

nodes_round : (ns : List String) → nodes_of (node_items ns) ≡ done ns
nodes_round [] = refl
nodes_round (n ∷ ns) = rw (nodes_round ns)

nodes_canonical :
    (n : ℕ) (ns : List String) → is_canonical (suc (suc n)) (arr (node_items ns)) ≡ true
nodes_canonical n [] = refl
nodes_canonical n (x ∷ ns) = nodes_canonical n ns

-- A dictionary that exists is the one that is computed.
dict_is : {o : Outcome Json} {v w : Json} (P : Json → Type 0) → o ≡ done v → o ≡ done w → P v → P w
dict_is P e f p = subst P (ap (value_or null) (sym e ∙ f)) p

pub settings_canonical :
    (e : Bool) (ns : List String) (p : PathText) (v : Json)
    → path_json e ns p ≡ done v
    → is_canonical max_depth v ≡ true
settings_canonical e ns no_path v h =
    dict_is (λ v. is_canonical max_depth v ≡ true) refl h (rw (nodes_canonical 12 ns))
settings_canonical e ns slashes v h =
    dict_is (λ v. is_canonical max_depth v ≡ true) refl h (rw (nodes_canonical 12 ns))
settings_canonical e ns backslashes v h =
    dict_is (λ v. is_canonical max_depth v ≡ true) refl h (rw (nodes_canonical 12 ns))
settings_canonical e ns relative v h = absurd (cc h)

pub settings_round :
    (e : Bool) (ns : List String) (p : PathText) (v : Json)
    → path_json e ns p ≡ done v
    → settings_of v ≡ done (record { enabled = e; nodes = ns; path = normal_path p })
settings_round e ns no_path v h =
    dict_is (λ v. settings_of v ≡ done (record { enabled = e; nodes = ns; path = no_path })) refl h
      (rw (nodes_round ns))
settings_round e ns slashes v h =
    dict_is (λ v. settings_of v ≡ done (record { enabled = e; nodes = ns; path = backslashes }))
      refl h (rw (nodes_round ns))
settings_round e ns backslashes v h =
    dict_is (λ v. settings_of v ≡ done (record { enabled = e; nodes = ns; path = backslashes }))
      refl h (rw (nodes_round ns))
settings_round e ns relative v h = absurd (cc h)

pub settings_normal :
    (e : Bool) (ns : List String) (p : PathText) (v : Json)
    → path_json e ns p ≡ done v
    → path_json e ns (normal_path p) ≡ done v
settings_normal e ns no_path v h = h
settings_normal e ns slashes v h = h
settings_normal e ns backslashes v h = h
settings_normal e ns relative v h = h

pub sixty_four : is_checksum zeros ≡ true
unfolding is_checksum
sixty_four = refl

le_of_leb : (a b : ℕ) → leb a b ≡ true → a ≤ b
le_of_leb a b h = ground arith

checksum_length : (s : String) → is_checksum s ≡ true → length (codes s) ≡ 64
unfolding is_checksum
checksum_length s h = ground (arith, h)

id_length : (i : Option String) → is_id i ≡ true → weight (text_or_null i) ≤ 66
id_length none h = omega arith
id_length (some s) h = omega (arith, checksum_length s h)

pub record_weight :
    (v : Json) (n : ℕ) (s : String) (i : Option String)
    → leb (weight v) max_config_bytes ≡ true
    → leb n max_generation ≡ true
    → is_checksum s ≡ true
    → is_id i ≡ true
    → leb (weight (record_json v n s i)) max_record_bytes ≡ true
record_weight v n s none f g h k =
    leb_of_le _ _ (omega (arith, le_of_leb _ _ f, checksum_length s h))
record_weight v n s (some i) f g h k =
    leb_of_le _ _ (omega (arith, le_of_leb _ _ f, checksum_length s h, checksum_length i k))

pub journal_weight :
    (j : Journal)
    → is_id j.old_record_checksum ≡ true
    → is_checksum j.new_record_checksum ≡ true
    → leb (weight (journal_json j)) max_journal_bytes ≡ true
journal_weight j h k = by_phase j.phase
  where
    by_phase :
        (p : JournalPhase)
        → leb (weight (journal_json (record j { phase = p }))) max_journal_bytes ≡ true
    by_phase prepared =
        leb_of_le _ _ (
          omega (arith, id_length j.old_record_checksum h, checksum_length j.new_record_checksum k))
    by_phase replaced =
        leb_of_le _ _ (
          omega (arith, id_length j.old_record_checksum h, checksum_length j.new_record_checksum k))
    by_phase committed =
        leb_of_le _ _ (
          omega (arith, id_length j.old_record_checksum h, checksum_length j.new_record_checksum k))

unfoldable pub plain-Laws : Laws plain
plain-Laws = record {
  decode_encoded = decoded_plain;
  normal = normal_settings;
  dict_canonical = λ c. settings_canonical c.enabled c.nodes c.path;
  from_to_dict = λ c. settings_round c.enabled c.nodes c.path;
  normal_to_dict = λ c. settings_normal c.enabled c.nodes c.path;
  sha256_hex = λ b. sixty_four;
  same_self = json_same;
  record_fits = λ c v n s i _. record_weight v n s i;
  journal_fits = λ j _ _. journal_weight j;
}
