-- ===== src/Base/Bytes.antt =====
-- `std::string` as a list of bytes, and the string operations of the standard library that the
-- gateway calls.
use Prim.Native.Char.{code}
use Prim.Native.String.{String}
use Prim.Native.Nat.{ℕ, ◌+◌}
use mathlib.Core.Path.{◌≡◌, refl}
use mathlib.Core.Logic.{◌↔◌}
use mathlib.Core.Bool.{Bool, true, false, ◌&&◌, ◌||◌}
use mathlib.Core.List.{List, [], ◌∷◌, map}
use mathlib.Core.Option.{Option, none, some}
use native.Mathlib.Omega.{arith}
use epoll_gateway.Base.Tests.{◌==◌, within, if◌then◌else◌}

abbrev pub Bytes : Type 0
Bytes = List ℕ

-- The bytes of an ASCII literal.
abbrev pub ascii : String → Bytes
ascii String.[] = []
ascii (String.◌∷◌ c s) = code c ∷ ascii s

-- `operator==`.
unfoldable pub eq_bytes : Bytes → Bytes → Bool
eq_bytes [] [] = true
eq_bytes (x ∷ xs) (y ∷ ys) = x == y && eq_bytes xs ys
eq_bytes _ _ = false

pub eq_bytes_iff : (a b : Bytes) → (eq_bytes a b ≡ true) ↔ (a ≡ b)
unfolding eq_bytes
eq_bytes_iff (x ∷ a) (y ∷ b) = ground (arith, eq_bytes_iff a b)
eq_bytes_iff _ _ = ground arith

pub eq_bytes_refl : (a : Bytes) → eq_bytes a a ≡ true
eq_bytes_refl a = (eq_bytes_iff a a).1 refl

-- `std::find(values.begin(), values.end(), value) != values.end()`.
unfoldable pub contains : List Bytes → Bytes → Bool
contains [] v = false
contains (x ∷ xs) v = eq_bytes x v || contains xs v

-- `std::tolower` in the "C" locale.
unfoldable pub to_lower : ℕ → ℕ
to_lower c = if within b'A' b'Z' c then c + 32 else c

unfoldable pub to_lower_bytes : Bytes → Bytes
to_lower_bytes = map to_lower

pub to_lower_idem : (c : ℕ) → to_lower (to_lower c) ≡ to_lower c
unfolding to_lower
to_lower_idem c = ground arith

-- `s.rfind(prefix, 0) == 0`, with what follows the prefix.
unfoldable pub strip_prefix : Bytes → Bytes → Option Bytes
strip_prefix [] s = some s
strip_prefix (x ∷ xs) [] = none
strip_prefix (x ∷ xs) (y ∷ ys) = if x == y then strip_prefix xs ys else none

-- `find(c)`: what stands before the first `c` and what stands behind it.
unfoldable pub split_at : ℕ → Bytes → Option (Bytes × Bytes)
split_at c [] = none
split_at c (x ∷ xs) =
    if x == c
    then some ([], xs)
    else elim (split_at c xs) [ none ↦ none | some (a, b) ↦ some (x ∷ a, b) ]

-- The text before its last byte, if that is `c`: `back() == c` and `substr(0, size() - 1)`.
unfoldable pub strip_last : ℕ → Bytes → Option Bytes
strip_last c [] = none
strip_last c (x ∷ []) = if x == c then some [] else none
strip_last c (x ∷ y ∷ s) = elim (strip_last c (y ∷ s)) [
  | none ↦ none
  | some before ↦ some (x ∷ before)
]

-- `find(pattern)` with a pattern that is not empty: what stands before its first occurrence, and
-- what stands behind it.
unfoldable pub find_sub : Bytes → Bytes → Option (Bytes × Bytes)
find_sub pattern [] = none
find_sub pattern (c ∷ s) = elim (strip_prefix pattern (c ∷ s)) [
  | some behind ↦ some ([], behind)
  | none ↦ elim (find_sub pattern s) [
    | none ↦ none
    | some (before, behind) ↦ some (c ∷ before, behind)
  ]
]

-- The text with a byte more in its first piece.
abbrev pub onto_first : ℕ → List Bytes → List Bytes
onto_first c [] = (c ∷ []) ∷ []
onto_first c (piece ∷ rest) = (c ∷ piece) ∷ rest

-- The pieces between the occurrences of a byte.
unfoldable pub pieces : ℕ → Bytes → List Bytes
pieces c [] = [] ∷ []
pieces c (x ∷ s) = let rest = pieces c s in if x == c then [] ∷ rest else onto_first x rest
