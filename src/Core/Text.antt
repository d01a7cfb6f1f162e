-- ===== src/Core/Text.antt =====
-- src/rcm/core.py: `_text`, `_code`, `_integer` and `_pairs`, the validators of scalar fields. The
-- checks of Python types are the types of the arguments.
use rcm_windows.Prelude.{
  ltb, leb, ◌==◌, if◌then◌else◌, length, any, codes, nonempty, contains, ◌>>=◌, ◌>>◌, guard, Result,
  value_error, ok, err, ℤ, pos, negsuc, ℕ, ◌-◌, ◌^◌, String, Bool, true, false, not, ◌&&◌, ◌||◌,
  List, [], ◌∷◌,
}

abbrev pub max_text : ℕ
max_text = 1024

abbrev pub max_identifier : ℕ
max_identifier = 128

abbrev pub max_int64 : ℕ
max_int64 = 2 ^ 63 - 1

abbrev pub is_control : ℕ → Bool
is_control c = ltb c 0x20 || c == 0x7F

unfoldable pub text : String → Bool → ℕ → Result String
text value allow_empty maximum =
    if (not (nonempty value) && not allow_empty) || ltb maximum (length (codes value))
    then err value_error
    else if any is_control (codes value)
    then err value_error
    else ok value

abbrev pub allowed : List ℕ
allowed = codes "abcdefghijklmnopqrstuvwxyz0123456789_.:-"

abbrev pub elem : ℕ → List ℕ → Bool
elem c [] = false
elem c (x ∷ xs) = x == c || elem c xs

unfoldable pub code : String → Bool → Result String
code value allow_empty = do
  result ← text value allow_empty max_identifier
  guard (not (any (λ c. not (elem c allowed)) (codes result))) value_error
  ok result

unfoldable pub integer : ℤ → ℕ → Result ℕ
integer (negsuc n) maximum = err value_error
integer (pos n) maximum = if leb n maximum then ok n else err value_error

-- The loop of `_pairs` over the pairs that are left, with the keys seen so far.
unfoldable pub pairs_from : List String → List (String × String) → Result (Unit {0})
pairs_from seen [] = ok tt
pairs_from seen ((k, v) ∷ rest) =
    let go = pairs_from (k ∷ seen) rest in
    do
      text k false max_identifier
      text v true max_text
      guard (not (contains k seen)) value_error
      go

unfoldable pub pairs : List (String × String) → Result (List (String × String))
unfolding pairs_from
pairs values = do pairs_from [] values; ok values
