-- ===== src/Http/Parser/Errors.antt =====
-- How one round of the loop, and one call of `parse`, can end.
use epoll_gateway.Base.{
  ℕ, suc, ◌+◌, Bool, true, false, [], ◌∷◌, ◌≡◌, ◌≢◌, ◌⊎◌, inl, inr, ◌∙◌, refl, arith, length,
}
use epoll_gateway.Base.Bytes.{Bytes}
use epoll_gateway.Http.Message.{HttpRequest}
use epoll_gateway.Http.Parser.State.{State, ParseError, HttpParser, Outcome, returns, falls}
use epoll_gateway.Http.Parser.Headers.{finish_headers, header_line, store_header}
use epoll_gateway.Http.Parser.Loop.{step_in, step, parse_from, parse, is_done, ParseResult}

-- A round that completes the request leaves the state DONE and no error; a refusal names its
-- cause; a round that goes on does neither.
abbrev pub Explained : HttpParser → Outcome → Type 0
Explained p (returns true p' r') = (p'.parse_error ≡ p.parse_error) × (p'.state ≡ State.done)
Explained p (returns false p' r') = p'.parse_error ≢ ParseError.no_error
Explained p (falls p' r') = (p'.parse_error ≡ p.parse_error) × (is_done p'.state ≡ false)

module _ (p : HttpParser) (r : HttpRequest) (open_state : is_done p.state ≡ false) where
  finish_headers-Explained : Explained p (finish_headers p r)
  unfolding finish_headers
  finish_headers-Explained = ground arith

  store_header-Explained : (key value : Bytes) → Explained p (store_header p r key value)
  unfolding store_header
  store_header-Explained key value = ground arith

  header_line-Explained : Explained p (header_line p r)
  unfolding header_line store_header
  header_line-Explained = ground arith

pub step_in-Explained :
    (s : State) (p : HttpParser) (r : HttpRequest) (c : ℕ)
    → p.state ≡ s
    → is_done s ≡ false
    → Explained p (step_in s p r c)
unfolding step_in
step_in-Explained State.header p r c e h = ground arith
step_in-Explained State.chunked_body p r c e h = ground arith
step_in-Explained _ p r c e h = ground arith

pub step-Explained :
    (p : HttpParser) (r : HttpRequest) (c : ℕ) → is_done p.state ≡ false → Explained p (step p r c)
step-Explained p r c h = step_in-Explained p.state p r c refl h

pub Outcome-cases :
    (o : Outcome)
    → ((b : Bool) × (p' : HttpParser) × (r' : HttpRequest) × (o ≡ returns b p' r'))
      ⊎ ((p' : HttpParser) × (r' : HttpRequest) × (o ≡ falls p' r'))
Outcome-cases (returns b p' r') = inl (b, p', r', refl)
Outcome-cases (falls p' r') = inr (p', r', refl)

module _ (i : ℕ) (p : HttpParser) (r : HttpRequest) (c : ℕ) (cs : Bytes) where
  pub parse_from-returns :
      (b : Bool) (p' : HttpParser) (r' : HttpRequest)
      → step p r c ≡ returns b p' r'
      → parse_from i p r (c ∷ cs)
        ≡ record { complete = b; parser = p'; request = r'; consumed = suc i }
  unfolding parse_from
  parse_from-returns b p' r' e = rw (e, parse_from) refl

  pub parse_from-falls :
      (p' : HttpParser) (r' : HttpRequest)
      → step p r c ≡ falls p' r'
      → is_done p'.state ≡ false
      → parse_from i p r (c ∷ cs) ≡ parse_from (suc i) p' r' cs
  unfolding parse_from
  parse_from-falls p' r' e h = rw (e, parse_from) (rw h refl)

pub data Ending (i : ℕ) (input : Bytes) (a : ParseResult) : Type 0 where
  completed :
      a.complete ≡ true
      → a.parser.state ≡ State.done
      → a.parser.parse_error ≡ ParseError.no_error
      → Ending i input a
  refused : a.complete ≡ false → a.parser.parse_error ≢ ParseError.no_error → Ending i input a
  suspended :
      a.complete ≡ false
      → a.parser.parse_error ≡ ParseError.no_error
      → is_done a.parser.state ≡ false
      → a.consumed ≡ i + length input
      → Ending i input a

Ending-later :
    {i : ℕ} {c : ℕ} {cs : Bytes} {a : ParseResult} → Ending (suc i) cs a → Ending i (c ∷ cs) a
Ending-later (completed e s h) = completed e s h
Ending-later (refused e h) = refused e h
Ending-later (suspended e h s k) = suspended e h s (omega arith)

Ending-round :
    (i : ℕ) (p : HttpParser) (c : ℕ) (cs : Bytes) (o : Outcome)
    → Explained p o
    → p.parse_error ≡ ParseError.no_error
    → ((p' : HttpParser) (r' : HttpRequest)
        → o ≡ falls p' r'
        → Ending (suc i) cs (parse_from (suc i) p' r' cs))
    → Ending i (c ∷ cs) (elim o [
      | returns b p' r' ↦ record { complete = b; parser = p'; request = r'; consumed = suc i }
      | falls p' r' ↦ elim (is_done p'.state) [
        | true ↦ record { complete = false; parser = p'; request = r'; consumed = suc i }
        | false ↦ parse_from (suc i) p' r' cs
      ]
    ])
Ending-round i p c cs (returns true p' r') x n later = completed refl x.1 (x.0 ∙ n)
Ending-round i p c cs (returns false p' r') x n later = refused refl x
Ending-round i p c cs (falls p' r') x n later = rw x.1 (Ending-later (later p' r' refl))

pub parse_from-Ending :
    (i : ℕ) (p : HttpParser) (r : HttpRequest) (input : Bytes)
    → p.parse_error ≡ ParseError.no_error
    → is_done p.state ≡ false
    → Ending i input (parse_from i p r input)
unfolding parse_from
parse_from-Ending i p r [] n h = suspended refl n h (omega arith)
parse_from-Ending i p r (c ∷ cs) n h =
    Ending-round i p c cs (step p r c) (step-Explained p r c h) n λ p' r' e.
      let x : Explained p (falls p' r') = rw e at (step-Explained p r c h) in
      parse_from-Ending (suc i) p' r' cs (x.0 ∙ n) x.1

-- A call of `parse` on a parser that is neither done nor failed ends in one of three ways: the
-- request is complete, the state is DONE and there is no error; or it is refused, and the error
-- says why; or all the input is consumed, with no error and the request still open.
pub parse-Ending :
    (p : HttpParser) (r : HttpRequest) (input : Bytes)
    → p.parse_error ≡ ParseError.no_error
    → is_done p.state ≡ false
    → Ending 0 input (parse p r input)
unfolding parse
parse-Ending p r input = parse_from-Ending 0 p r input
