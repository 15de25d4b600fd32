-- ===== src/Auth/Compare.antt =====
-- `constant_time_equals`: the comparison of two keys, byte by byte, over the longer of the two.
use Prim.Native.Nat.{bit_xor, bit_or}
use epoll_gateway.Base.{
  ℕ, zero, suc, ◌+◌, ◌≤◌, ◌<◌, ◌%◌, max, Bool, true, false, not, ◌&&◌, [], ◌∷◌, ◌≡◌, ◌↔◌, refl,
  arith, ltb, ◌==◌, if◌then◌else◌, all, length, get_elem?,
}
use epoll_gateway.Base.Bytes.{Bytes}
use epoll_gateway.Base.Table.{get_or}
use native.Mathlib.Nat.{mod-lt}
use native.Mathlib.Decide.{dec_le}

abbrev pub byte_mod : ℕ
byte_mod = 256

-- `static_cast<unsigned char>(a ^ b)`.
unfoldable pub xor_byte : ℕ → ℕ → ℕ
xor_byte a b = bit_xor a b % byte_mod

-- `diff |= d`.
unfoldable pub or_byte : ℕ → ℕ → ℕ
or_byte a b = bit_or a b % byte_mod

-- The byte at an index, and 0 behind the end.
abbrev pub byte_at : Bytes → ℕ → ℕ
byte_at s i = get_or 0 (get_elem? s i)

-- The loop over `i`, with `n` rounds left.
unfoldable pub diff_from : ℕ → ℕ → Bytes → Bytes → ℕ → ℕ
diff_from zero i a b diff = diff
diff_from (suc n) i a b diff =
    diff_from n (i + 1) a b (or_byte diff (xor_byte (byte_at a i) (byte_at b i)))

unfoldable pub constant_time_equals : Bytes → Bytes → Bool
constant_time_equals a b =
    diff_from (max (length a) (length b)) 0 a b (xor_byte (length a) (length b)) == 0

-- A string of bytes.
abbrev pub IsByteString : Bytes → Type 0
IsByteString s = all (λ c. ltb c byte_mod) s ≡ true

-- A test of every byte below a bound, from the bound down.
tests_out : (ℕ → Bool) → ℕ → Bool
tests_out test zero = true
tests_out test (suc top) = let lower = tests_out test top in if test top then lower else false

tests_out-at :
    (test : ℕ → Bool) (top byte : ℕ) → byte < top → tests_out test top ≡ true → test byte ≡ true
unfolding tests_out
tests_out-at test zero byte below passed = absurd (omega arith)
tests_out-at test (suc top) byte below passed = ground (arith, tests_out-at test top byte)

abbrev xor_row : ℕ → ℕ → Bool
xor_row x y = if x == y then xor_byte x y == 0 else not (xor_byte x y == 0)

xor_table : tests_out (λ x. tests_out (xor_row x) byte_mod) byte_mod ≡ true
unfolding tests_out xor_byte
xor_table = refl

abbrev or_row : ℕ → ℕ → Bool
or_row x y = if or_byte x y == 0 then x == 0 && y == 0 else true

or_table : tests_out (λ x. tests_out (or_row x) byte_mod) byte_mod ≡ true
unfolding tests_out or_byte
or_table = refl

xor_byte_zero : (x y : ℕ) → x < byte_mod → y < byte_mod → xor_byte x y ≡ 0 → x ≡ y
xor_byte_zero x y h k e =
    let row = tests_out-at (λ x. tests_out (xor_row x) byte_mod) byte_mod x h xor_table in
    let cell = tests_out-at (xor_row x) byte_mod y k row in ground arith

xor_byte_self : (x : ℕ) → x < byte_mod → xor_byte x x ≡ 0
xor_byte_self x h =
    let row = tests_out-at (λ x. tests_out (xor_row x) byte_mod) byte_mod x h xor_table in
    let cell = tests_out-at (xor_row x) byte_mod x h row in ground arith

or_byte_zero : (x y : ℕ) → x < byte_mod → y < byte_mod → or_byte x y ≡ 0 → (x ≡ 0) × (y ≡ 0)
or_byte_zero x y h k e =
    let row = tests_out-at (λ x. tests_out (or_row x) byte_mod) byte_mod x h or_table in
    let cell = tests_out-at (or_row x) byte_mod y k row in ground arith

byte_at-lt : (s : Bytes) (i : ℕ) → IsByteString s → byte_at s i < byte_mod
byte_at-lt [] i h = omega arith
byte_at-lt (c ∷ s) zero h = ground arith
byte_at-lt (c ∷ s) (suc i) h = byte_at-lt s i (ground arith)

xor_byte-lt : (x y : ℕ) → xor_byte x y < byte_mod
unfolding xor_byte
xor_byte-lt x y = mod-lt (bit_xor x y) (omega arith)

or_byte-lt : (x y : ℕ) → or_byte x y < byte_mod
unfolding or_byte
or_byte-lt x y = mod-lt (bit_or x y) (omega arith)

-- A difference is never forgotten.
diff_from-zero :
    (n i : ℕ) (a b : Bytes) (diff : ℕ)
    → IsByteString a
    → IsByteString b
    → diff < byte_mod
    → diff_from n i a b diff ≡ 0
    → (diff ≡ 0) × ((j : ℕ) → i ≤ j → j < i + n → byte_at a j ≡ byte_at b j)
unfolding diff_from
diff_from-zero zero i a b diff x y h e = (e, λ j p q. absurd (omega arith))
diff_from-zero (suc n) i a b diff x y h e =
    let d = xor_byte (byte_at a i) (byte_at b i) in
    let f = diff_from-zero n (i + 1) a b (or_byte diff d) x y (or_byte-lt diff d) e in
    let g = or_byte_zero diff d h (xor_byte-lt (byte_at a i) (byte_at b i)) f.0 in
    let here =
      xor_byte_zero (byte_at a i) (byte_at b i) (byte_at-lt a i x) (byte_at-lt b i y) g.1 in
    (
      g.0,
      λ j p q. elim (dec_le j i) [
        | yes le ↦ (let same : j ≡ i = omega arith in rw same here)
        | no gt ↦ f.1 j (omega arith) (omega arith)
      ],
    )

or_byte_none : or_byte 0 0 ≡ 0
unfolding or_byte
or_byte_none = refl

diff_from_self : (n i : ℕ) (a : Bytes) → IsByteString a → diff_from n i a a 0 ≡ 0
unfolding diff_from
diff_from_self zero i a h = refl
diff_from_self (suc n) i a h =
    rw (xor_byte_self (byte_at a i) (byte_at-lt a i h))
      (rw or_byte_none (diff_from_self n (i + 1) a h))

same_bytes :
    (a b : Bytes)
    → length a ≡ length b
    → ((j : ℕ) → j < length a → byte_at a j ≡ byte_at b j)
    → a ≡ b
same_bytes [] [] e h = refl
same_bytes [] (y ∷ b) e h = absurd (omega arith)
same_bytes (x ∷ a) [] e h = absurd (omega arith)
same_bytes (x ∷ a) (y ∷ b) e h =
    let first : x ≡ y = h 0 (omega arith) in
    let rest = same_bytes a b (omega arith) (λ j p. h (suc j) (omega arith)) in cc (first, rest)

-- The comparison without early return says yes exactly to equal keys, where both keys are shorter
-- than 256 bytes.
pub constant_time_equals_iff :
    (a b : Bytes)
    → IsByteString a
    → IsByteString b
    → length a < byte_mod
    → length b < byte_mod
    → (constant_time_equals a b ≡ true) ↔ (a ≡ b)
unfolding constant_time_equals
constant_time_equals_iff a b x y h k = (
  λ e.
      let n = max (length a) (length b) in
      let zero_end : diff_from n 0 a b (xor_byte (length a) (length b)) ≡ 0 = ground arith in
      let f =
        diff_from-zero n 0 a b (xor_byte (length a) (length b)) x y
          (xor_byte-lt (length a) (length b)) zero_end in
      same_bytes a b (xor_byte_zero (length a) (length b) h k f.0)
        (λ j p. f.1 j (omega arith) (omega arith)),
  λ e.
      let n = max (length a) (length a) in
      rw (← e)
        (rw (xor_byte_self (length a) h) (let zero_end = diff_from_self n 0 a x in ground arith)),
)
