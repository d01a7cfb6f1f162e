-- ===== src/Prelude/Text.antt =====
-- Python strings. A string is the native one; its characters are its code points.
use Prim.Native.Nat.{ℕ, ◌≤◌}
use Prim.Native.Char.{code}
use Prim.Native.String.{String}
use mathlib.Core.Path.{◌≡◌, refl}
use mathlib.Core.Bool.{Bool, true, false, ◌&&◌, ◌||◌, not}
use mathlib.Core.List.{List, [], ◌∷◌, ◌++◌}
use native.Mathlib.Omega.{arith}
use text.Mathlib.Text.{◌==◌ as str_eq}
use text.Mathlib.TextEquality.{eq_iff}
use rcm_windows.Prelude.Tests.{◌==◌, if◌then◌else◌}
use rcm_windows.Prelude.Lists.{length}

-- [ord(character) for character in value]
abbrev pub codes : String → List ℕ
codes String.[] = []
codes (String.◌∷◌ c s) = code c ∷ codes s

-- bool(value)
abbrev pub nonempty : String → Bool
nonempty String.[] = false
nonempty (String.◌∷◌ c s) = true

-- key in values
abbrev pub contains : String → List String → Bool
contains key [] = false
contains key (x ∷ xs) = str_eq x key || contains key xs

-- set(xs).issubset(ys)
abbrev pub subset : List String → List String → Bool
subset [] ys = true
subset (x ∷ xs) ys = contains x ys && subset xs ys

-- values - {key}
abbrev pub discard : String → List String → List String
discard key [] = []
discard key (x ∷ xs) = let rest = discard key xs in if str_eq x key then rest else x ∷ rest

-- tuple(dict.fromkeys(values)): the distinct values in the order of their first occurrence. A
-- Python set is represented by such a list.
abbrev pub from_keys : List String → List String
from_keys [] = []
from_keys (x ∷ xs) = x ∷ discard x (from_keys xs)

-- len(values) == len(set(values))
abbrev pub unique : List String → Bool
unique xs = length xs == length (from_keys xs)

-- Membership after a union or an extension.
pub contains-append :
    (k : String) (xs ys : List String) → contains k (xs ++ ys) ≡ (contains k xs || contains k ys)
contains-append k [] ys = refl
contains-append k (x ∷ xs) ys = ground (arith, contains-append k xs ys)

pub contains-discard :
    (k j : String) (xs : List String)
    → contains j (discard k xs) ≡ (not (str_eq k j) && contains j xs)
contains-discard k j [] = ground arith
contains-discard k j (x ∷ xs) =
    ground (arith, contains-discard k j xs, eq_iff x k, eq_iff x j, eq_iff k j)

pub contains-from_keys : (k : String) (xs : List String) → contains k (from_keys xs) ≡ contains k xs
contains-from_keys k [] = refl
contains-from_keys k (x ∷ xs) =
    ground (arith, contains-discard x k (from_keys xs), contains-from_keys k xs, eq_iff x k)

length-discard-le : (k : String) (xs : List String) → length (discard k xs) ≤ length xs
length-discard-le k [] = omega arith
length-discard-le k (x ∷ xs) = ground (arith, length-discard-le k xs)

length-from_keys-le : (xs : List String) → length (from_keys xs) ≤ length xs
length-from_keys-le [] = omega arith
length-from_keys-le (x ∷ xs) =
    omega (arith, length-discard-le x (from_keys xs), length-from_keys-le xs)

not-contains_of_length :
    (k : String) (xs : List String) → length xs ≤ length (discard k xs) → contains k xs ≡ false
not-contains_of_length k [] h = refl
not-contains_of_length k (x ∷ xs) h =
    ground (arith, not-contains_of_length k xs, length-discard-le k xs)

-- No value occurs twice.
abbrev pub Distinct : List String → Type 0
Distinct [] = Unit
Distinct (x ∷ xs) = (contains x xs ≡ false) × Distinct xs

pub unique→Distinct : (xs : List String) → unique xs ≡ true → Distinct xs
unique→Distinct [] h = tt
unique→Distinct (x ∷ xs) h = ground (
  arith,
  unique→Distinct xs,
  length-discard-le x (from_keys xs),
  length-from_keys-le xs,
  not-contains_of_length x (from_keys xs),
  contains-from_keys x xs,
)

pub subset_of :
    (xs ys : List String)
    → ((d : String) → contains d xs ≡ true → contains d ys ≡ true)
    → subset xs ys ≡ true
subset_of [] ys h = refl
subset_of (x ∷ xs) ys h =
    ground (arith, h x, eq_iff x x, subset_of xs ys (λ d m. h d (ground (arith, m))))

pub contains-subset :
    (d : String) (xs ys : List String)
    → subset xs ys ≡ true
    → contains d xs ≡ true
    → contains d ys ≡ true
contains-subset d [] ys h m = cc
contains-subset d (x ∷ xs) ys h m = ground (arith, eq_iff x d, contains-subset d xs ys)
