-- ===== src/Http/Parser/Digits.antt =====
-- Content-Length values: the digit loop against the decimal value.
use epoll_gateway.Base.{
  ℕ, ◌+◌, ◌-◌, ◌*◌, ◌%◌, ◌≤◌, true, false, [], ◌∷◌, ◌≡◌, ◌↔◌, refl, ap, ◌∙◌, arith, is_empty, all,
  some, ltb,
}
use epoll_gateway.Base.Bytes.{Bytes}
use epoll_gateway.Base.Decimal.{is_digit, decimal_from}
use epoll_gateway.Http.Parser.State.{max_body_size, size_mod}
use epoll_gateway.Http.Parser.Headers.{parse_digits, parse_content_length}

le-decimal_from : (v : ℕ) (cs : Bytes) → v ≤ decimal_from v cs
unfolding decimal_from
le-decimal_from v [] = omega arith
le-decimal_from v (c ∷ cs) = omega (arith, le-decimal_from (v * 10 + (c - b'0')) cs)

-- No value that the loop goes on with wraps.
abbrev Small : ℕ → Type 0
Small v = v ≤ 10 * max_body_size + 9

parse_digits_sound :
    (cs : Bytes) (v n : ℕ)
    → Small v
    → parse_digits cs v ≡ some n
    → n ≤ max_body_size
    → (all is_digit cs ≡ true) × (decimal_from v cs ≡ n)
unfolding parse_digits decimal_from
parse_digits_sound [] v n s e h = ground arith
parse_digits_sound (c ∷ cs) v n s e h =
    let v' = v * 10 + (c - b'0') in
    let w : (ltb max_body_size v ≡ false) → is_digit c ≡ true → (v' % size_mod ≡ v') × (Small v') =
      λ p q. (ground arith, ground arith) in
    ground (arith, parse_digits_sound cs v' n, w)

parse_digits_complete :
    (cs : Bytes) (v : ℕ)
    → all is_digit cs ≡ true
    → decimal_from v cs ≤ max_body_size
    → parse_digits cs v ≡ some (decimal_from v cs)
unfolding parse_digits decimal_from
parse_digits_complete [] v d h = refl
parse_digits_complete (c ∷ cs) v d h =
    let v' = v * 10 + (c - b'0') in
    let same : (v' ≤ max_body_size → v' % size_mod ≡ v') = λ p. omega arith in
    ground (arith, le-decimal_from v' cs, same, parse_digits_complete cs v')

-- A Content-Length value within the cap is accepted exactly if it is a plain string of one or more
-- digits whose decimal value is the length, and that value is computed without wrapping.
pub parse_content_length_iff :
    (cl : Bytes) (n : ℕ)
    → n ≤ max_body_size
    → (parse_content_length cl ≡ some n)
      ↔ ((is_empty cl ≡ false) × (all is_digit cl ≡ true) × (decimal_from 0 cl ≡ n))
unfolding parse_content_length
parse_content_length_iff [] n h = (λ e. cc, λ e. cc (e.0))
parse_content_length_iff (c ∷ cs) n h = (
  λ e. let s = parse_digits_sound (c ∷ cs) 0 n (omega arith) e h in (refl, s.0, s.1),
  λ e. parse_digits_complete (c ∷ cs) 0 e.1 (rw e.2 h) ∙ ap some e.2,
)
