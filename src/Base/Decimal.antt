-- ===== src/Base/Decimal.antt =====
-- Decimal numerals: what `std::to_string` prints determines the number, and the parts of a joined
-- key are determined by it where the separator stands in none of them.
use Prim.Native.Nat.{ℕ, zero, suc, ◌+◌, ◌-◌, ◌*◌, ◌/◌, ◌%◌, ◌<◌}
use mathlib.Core.Path.{◌≡◌, refl, ap, ◌∙◌, sym}
use mathlib.Core.Logic.{inl, inr}
use mathlib.Core.Bool.{Bool, true, false, not}
use mathlib.Core.List.{[], ◌∷◌, ◌++◌}
use native.Mathlib.Omega.{arith}
use epoll_gateway.Base.Tests.{ltb, within, ◌==◌, Bool-cases}
use epoll_gateway.Base.Lists.{all}
use epoll_gateway.Base.Bytes.{Bytes}
use epoll_gateway.Base.Int.{ℤ, pos, negsuc, show_digits, show_ℕ, to_string}

abbrev pub is_digit : ℕ → Bool
is_digit c = within b'0' b'9' c

-- The decimal value of a digit string, after those read so far.
unfoldable pub decimal_from : ℕ → Bytes → ℕ
decimal_from v [] = v
decimal_from v (c ∷ cs) = decimal_from (v * 10 + (c - b'0')) cs

decimal_from-show_digits :
    (fuel n : ℕ) (acc : Bytes)
    → n < fuel
    → decimal_from 0 (show_digits fuel n acc) ≡ decimal_from n acc
unfolding decimal_from show_digits
decimal_from-show_digits zero n acc h = absurd (omega arith)
decimal_from-show_digits (suc fuel) n acc h = elim (Bool-cases (ltb n 10)) [
  | inl small ↦ rw small (let e : 0 * 10 + (b'0' + n % 10 - b'0') ≡ n = ground arith in cc e)
  | inr large ↦ rw large (
      decimal_from-show_digits fuel (n / 10) ((b'0' + n % 10) ∷ acc) (ground arith)
      ∙ (let e : n / 10 * 10 + (b'0' + n % 10 - b'0') ≡ n = omega arith in cc e))
]

read_back : (n : ℕ) → decimal_from 0 (show_ℕ n) ≡ n
unfolding show_ℕ
read_back n = decimal_from-show_digits (suc n) n [] (omega arith) ∙ unfold decimal_from in refl

pub show_ℕ-injective : (a b : ℕ) → show_ℕ a ≡ show_ℕ b → a ≡ b
show_ℕ-injective a b e = sym (read_back a) ∙ ap (decimal_from 0) e ∙ read_back b

digits-show_digits :
    (fuel n : ℕ) (acc : Bytes)
    → all is_digit acc ≡ true
    → all is_digit (show_digits fuel n acc) ≡ true
unfolding show_digits
digits-show_digits zero n acc h = h
digits-show_digits (suc fuel) n acc h =
    ground (arith, digits-show_digits fuel (n / 10) ((b'0' + n % 10) ∷ acc))

not-show_ℕ-minus : (n : ℕ) (s : Bytes) → show_ℕ n ≡ b'-' ∷ s → ⊥
unfolding show_ℕ
not-show_ℕ-minus n s e = cc (rw e at (digits-show_digits (suc n) n [] refl))

pub to_string-injective : (a b : ℤ) → to_string a ≡ to_string b → a ≡ b
unfolding to_string
to_string-injective (pos a) (pos b) e = ap pos (show_ℕ-injective a b e)
to_string-injective (pos a) (negsuc b) e = absurd (not-show_ℕ-minus a _ e)
to_string-injective (negsuc a) (pos b) e = absurd (not-show_ℕ-minus b _ (sym e))
to_string-injective (negsuc a) (negsuc b) e =
    let tail : show_ℕ (suc a) ≡ show_ℕ (suc b) = cc in
    let same = show_ℕ-injective (suc a) (suc b) tail in cc same

-- The byte stands nowhere in the text.
abbrev pub free_of : ℕ → Bytes → Bool
free_of c = all (λ x. not (x == c))

pub join-injective :
    (c : ℕ) (a b s t : Bytes)
    → free_of c a ≡ true
    → free_of c b ≡ true
    → a ++ (c ∷ s) ≡ b ++ (c ∷ t)
    → (a ≡ b) × (s ≡ t)
join-injective c [] [] s t fa fb e = ground arith
join-injective c [] (y ∷ b) s t fa fb e = ground arith
join-injective c (x ∷ a) [] s t fa fb e = ground arith
join-injective c (x ∷ a) (y ∷ b) s t fa fb e = ground (arith, join-injective c a b s t)

free_of-show_ℕ : (c n : ℕ) → is_digit c ≡ false → free_of c (show_ℕ n) ≡ true
unfolding show_ℕ
free_of-show_ℕ c n h = go (show_digits (suc n) n []) (digits-show_digits (suc n) n [] refl)
  where
    go : (s : Bytes) → all is_digit s ≡ true → free_of c s ≡ true
    go [] d = refl
    go (x ∷ xs) d = ground (arith, go xs)

-- A printed number holds digits and at most a sign.
pub free_of-to_string :
    (c : ℕ) (n : ℤ) → is_digit c ≡ false → (c == b'-') ≡ false → free_of c (to_string n) ≡ true
unfolding to_string
free_of-to_string c (pos n) h k = free_of-show_ℕ c n h
free_of-to_string c (negsuc n) h k = ground (arith, free_of-show_ℕ c (suc n) h)

pub not-free_of-join : (c : ℕ) (a b : Bytes) → free_of c (a ++ (c ∷ b)) ≡ true → ⊥
not-free_of-join c [] b h = ground arith
not-free_of-join c (x ∷ a) b h = not-free_of-join c a b (ground arith)
