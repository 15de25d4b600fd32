-- ===== src/Http/Parser/Segments.antt =====
-- TCP may split a request anywhere: `parse` on the pieces does what it does on the whole.
use epoll_gateway.Base.{
  ℕ, Bool, suc, ◌+◌, true, false, [], ◌∷◌, ◌++◌, ◌≡◌, ◌∙◌, refl, arith, length, inl, inr,
}
use epoll_gateway.Base.Bytes.{Bytes}
use epoll_gateway.Http.Message.{HttpRequest}
use epoll_gateway.Http.Parser.State.{ParseError, HttpParser, returns}
use epoll_gateway.Http.Parser.Errors.{
  Explained, Outcome-cases, step-Explained, parse_from-returns, parse_from-falls, Ending, completed,
  refused, suspended, parse_from-Ending,
}
use epoll_gateway.Http.Parser.Loop.{step, parse_from, parse, is_done, ParseResult}

-- The bytes read before are no part of the result but for the count.
parse_from-shift :
    (i k j : ℕ) (p : HttpParser) (r : HttpRequest) (input : Bytes)
    → j ≡ i + k
    → is_done p.state ≡ false
    → parse_from j p r input
      ≡ record (parse_from k p r input) { consumed = i + (parse_from k p r input).consumed }
parse_from-shift i k j p r [] e h = unfold parse_from in ground arith
parse_from-shift i k j p r (c ∷ cs) e h = elim (Outcome-cases (step p r c)) [
  | inl (b, p', r', o) ↦
      rw (parse_from-returns j p r c cs b p' r' o, parse_from-returns k p r c cs b p' r' o)
        (ground arith)
  | inr (p', r', o) ↦
      let open_state = (rw o at (step-Explained p r c h)).1 in
      rw
        (
          parse_from-falls j p r c cs p' r' o open_state,
          parse_from-falls k p r c cs p' r' o open_state,
        )
        (parse_from-shift i (suc k) (suc j) p' r' cs (omega arith) open_state)
]

-- The caller needs more input.
abbrev pub IsSuspended : ParseResult → Type 0
IsSuspended a =
    (a.complete ≡ false)
    × (a.parser.parse_error ≡ ParseError.no_error)
    × (is_done a.parser.state ≡ false)

not-IsSuspended :
    (p : HttpParser) (i : ℕ) (b : Bool) (p' : HttpParser) (r' : HttpRequest)
    → Explained p (returns b p' r')
    → ¬ IsSuspended (record { complete = b; parser = p'; request = r'; consumed = i })
not-IsSuspended p i true p' r' x s = cc (s.0)
not-IsSuspended p i false p' r' x s = x s.1

parse_from-append :
    (i : ℕ) (p : HttpParser) (r : HttpRequest) (xs ys : Bytes)
    → is_done p.state ≡ false
    → IsSuspended (parse_from i p r xs)
    → let a = parse_from i p r xs in
      parse_from i p r (xs ++ ys) ≡ parse_from a.consumed a.parser a.request ys
parse_from-append i p r [] ys h s = unfold parse_from in refl
parse_from-append i p r (c ∷ cs) ys h s = elim (Outcome-cases (step p r c)) [
  | inl (b, p', r', o) ↦ absurd (
      not-IsSuspended p (suc i) b p' r' (rw o at (step-Explained p r c h))
        (rw (parse_from-returns i p r c cs b p' r' o) at s))
  | inr (p', r', o) ↦
      let open_state = (rw o at (step-Explained p r c h)).1 in
      rw
        (
          parse_from-falls i p r c cs p' r' o open_state,
          parse_from-falls i p r c (cs ++ ys) p' r' o open_state,
        )
        (parse_from-append (suc i) p' r' cs ys open_state
          (rw (parse_from-falls i p r c cs p' r' o open_state) at s))
]

consumed-IsSuspended :
    {i : ℕ} {input : Bytes} {a : ParseResult}
    → Ending i input a
    → IsSuspended a
    → a.consumed ≡ i + length input
consumed-IsSuspended (completed e _ _) s = cc (s.0)
consumed-IsSuspended (refused _ h) s = absurd (h s.1)
consumed-IsSuspended (suspended _ _ _ k) s = k

-- Where `parse` on a first piece asks for more input, `parse` on the two pieces in one call does
-- what a second call on the second piece does, from the parser and the request that the first call
-- left, and counts the bytes of both. The parser is neither done nor failed before.
pub parse-append :
    (p : HttpParser) (r : HttpRequest) (xs ys : Bytes)
    → p.parse_error ≡ ParseError.no_error
    → is_done p.state ≡ false
    → IsSuspended (parse p r xs)
    → let a = parse p r xs in
      let b = parse a.parser a.request ys in
      (parse p r (xs ++ ys) ≡ record b { consumed = length xs + b.consumed })
unfolding parse
parse-append p r xs ys n h s =
    let a = parse_from 0 p r xs in
    let count : a.consumed ≡ length xs + 0 =
      omega (arith, consumed-IsSuspended (parse_from-Ending 0 p r xs n h) s) in
    parse_from-append 0 p r xs ys h s
    ∙ parse_from-shift (length xs) 0 a.consumed a.parser a.request ys count s.2
