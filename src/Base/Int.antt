-- ===== src/Base/Int.antt =====
-- Signed integers (`int`, `long long`) over the native numbers, under the library's names, and how
-- the standard library prints them. `negsuc n` is -(n + 1).
use Prim.Native.Nat.{ℕ, zero, suc, ◌+◌, ◌/◌, ◌%◌, max}
use mathlib.Core.Bool.{Bool, true, false}
use mathlib.Core.List.{[], ◌∷◌}
use epoll_gateway.Base.Tests.{ltb, if◌then◌else◌}
use epoll_gateway.Base.Bytes.{Bytes}

pub data ℤ : Type 0 where
  pos : ℕ → ℤ
  negsuc : ℕ → ℤ

abbrev pub ltb_ℤ : ℤ → ℤ → Bool
ltb_ℤ (pos a) (pos b) = ltb a b
ltb_ℤ (pos a) (negsuc b) = false
ltb_ℤ (negsuc a) (pos b) = true
ltb_ℤ (negsuc a) (negsuc b) = ltb b a

-- `x <= 0`.
abbrev pub is_nonpos : ℤ → Bool
is_nonpos (pos zero) = true
is_nonpos (pos (suc n)) = false
is_nonpos (negsuc n) = true

-- `x < 0`.
abbrev pub is_neg : ℤ → Bool
is_neg (pos n) = false
is_neg (negsuc n) = true

-- `std::max(1, x)`.
abbrev pub at_least_one : ℤ → ℕ
at_least_one (pos n) = max 1 n
at_least_one (negsuc n) = 1

-- `std::to_string`, digit by digit from the back; the number itself is fuel enough.
unfoldable pub show_digits : ℕ → ℕ → Bytes → Bytes
show_digits zero n acc = acc
show_digits (suc fuel) n acc =
    let acc' = (b'0' + n % 10) ∷ acc in
    let rest = show_digits fuel (n / 10) acc' in if ltb n 10 then acc' else rest

unfoldable pub show_ℕ : ℕ → Bytes
unfolding show_digits
show_ℕ n = show_digits (suc n) n []

unfoldable pub to_string : ℤ → Bytes
to_string (pos n) = show_ℕ n
to_string (negsuc n) = b'-' ∷ show_ℕ (suc n)
