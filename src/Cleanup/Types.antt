-- ===== src/Cleanup/Types.antt =====
-- src/rcm/cleanup.py: the values of the local process cleanup, with their validation, and the rules.
--
-- Times are natural numbers of ticks. `str.casefold` is a parameter.
use rcm_windows.Prelude.{
  ltb, leb, ◌==◌, if◌then◌else◌, length, all, any, is_empty, codes, nonempty, contains, unique,
  ◌>>◌, guard, Result, value_error, ℕ, String, Bool, false, not, ◌&&◌, ◌||◌, List, [], ◌∷◌, map,
  str_eq,
}

abbrev hex : List ℕ
hex = codes "0123456789abcdef"

abbrev word_codes : List ℕ
word_codes = codes "ABCDEFGHIJKLMNOPQRSTUVWXYZabcdefghijklmnopqrstuvwxyz0123456789"

abbrev elem : ℕ → List ℕ → Bool
elem c [] = false
elem c (x ∷ xs) = x == c || elem c xs

-- _DIGEST.fullmatch
unfoldable pub is_digest : String → Bool
is_digest s = length (codes s) == 64 && all (λ c. elem c hex) (codes s)

abbrev safe_codes : List ℕ → Bool
safe_codes [] = false
safe_codes (c ∷ rest) =
    elem c word_codes
    && (leb (length rest) 63 && all (λ d. elem d word_codes || elem d (codes "._-")) rest)

-- _SAFE_ID.fullmatch
unfoldable pub is_safe_id : String → Bool
is_safe_id s = safe_codes (codes s)

-- A name without separators and NUL.
abbrev is_basename : String → Bool
is_basename s =
    nonempty s
    && (leb (length (codes s)) 255 && not (any (λ c. c == 0x2F || (c == 0x5C || c == 0)) (codes s)))

pub record ProcessIdentity : Type 0 where
  pub pid : ℕ
  pub create_time : ℕ
  pub image_name : String
  pub owner_token : String
  pub session_id : ℕ

unfoldable pub check_identity : ProcessIdentity → Result (Unit {0})
unfolding is_digest
check_identity p = do
  guard (leb 1 p.pid) value_error
  guard (leb 1 p.create_time) value_error
  guard (is_basename p.image_name && not (any (λ c. ltb c 32) (codes p.image_name))) value_error
  guard (is_digest p.owner_token) value_error

-- The equality of the dataclass.
abbrev pub same_identity : ProcessIdentity → ProcessIdentity → Bool
same_identity p q =
    p.pid == q.pid
    && (p.create_time == q.create_time
        && (str_eq p.image_name q.image_name
            && (str_eq p.owner_token q.owner_token && p.session_id == q.session_id)))

pub record ProcessObservation : Type 0 where
  pub identity : ProcessIdentity
  pub command_fingerprint : String
  pub connection_count : ℕ

unfoldable pub check_observation : ProcessObservation → Result (Unit {0})
unfolding is_digest
check_observation o = guard (is_digest o.command_fingerprint) value_error

pub record CleanupRule : Type 0 where
  pub rule_id : String
  pub image_names : List String
  pub command_fingerprints : List String
  pub minimum_age_seconds : ℕ
  pub allow_connections : Bool
  pub image_case_sensitive : Bool

pub record CleanupPolicy : Type 0 where
  pub owner_token : String
  pub session_id : ℕ
  pub rules : List CleanupRule
  pub max_processes : ℕ
  pub result_max_age_seconds : ℕ
  pub graceful_timeout_seconds : ℕ
  pub force_timeout_seconds : ℕ

unfoldable pub check_policy : CleanupPolicy → Result (Unit {0})
unfolding is_digest
check_policy p = do
  guard (is_digest p.owner_token) value_error
  guard (not (is_empty p.rules)) value_error
  guard (unique (map (λ r. r.rule_id) p.rules)) value_error
  guard (leb 1 p.max_processes) value_error
  guard (leb p.graceful_timeout_seconds p.force_timeout_seconds) value_error

module _ (casefold : String → String) where
  abbrev pub folded : Bool → String → String
  folded case_sensitive name = if case_sensitive then name else casefold name

  unfoldable pub check_rule : CleanupRule → Result (Unit {0})
  unfolding is_safe_id is_digest
  check_rule r = do
    guard (is_safe_id r.rule_id) value_error
    guard (not (is_empty r.image_names) && all is_basename r.image_names) value_error
    guard (unique (map (folded r.image_case_sensitive) r.image_names)) value_error
    guard
        (not (is_empty r.command_fingerprints)
          && (all is_digest r.command_fingerprints && unique r.command_fingerprints))
        value_error

  unfoldable pub matches : CleanupRule → ProcessObservation → ℕ → Bool
  matches r o age =
      contains (folded r.image_case_sensitive o.identity.image_name)
        (map (folded r.image_case_sensitive) r.image_names)
      && (contains o.command_fingerprint r.command_fingerprints
          && (leb r.minimum_age_seconds age && (r.allow_connections || o.connection_count == 0)))
