-- ===== src/Http/Parser/Requests.antt =====
-- What `parse` promises of the requests that it lets through.
use epoll_gateway.Base.{ℕ, suc, ◌≤◌, Bool, true, false, [], ◌∷◌, ◌≡◌, inl, inr, refl, subst, length}
use epoll_gateway.Base.Bytes.{Bytes}
use epoll_gateway.Base.Table.{lookup}
use epoll_gateway.Http.Message.{HttpRequest, empty_request}
use epoll_gateway.Http.Parser.State.{State, ParseError, HttpParser, returns, initial, max_body_size}
use epoll_gateway.Http.Parser.Loop.{step, parse_from, parse, is_done, ParseResult}
use epoll_gateway.Http.Parser.Errors.{
  Explained, step-Explained, Outcome-cases, parse_from-returns, parse_from-falls, parse_from-Ending,
  Ending, completed, refused, suspended,
}
use epoll_gateway.Http.Parser.Framing.{headers_ok, Unmixed, Framed, Framing, Inv, OutcomeInv}
use epoll_gateway.Http.Parser.Invariant.{step-Inv}

-- The result of a call that met no error.
abbrev pub ResultInv : ParseResult → Type 0
ResultInv a = a.parser.parse_error ≡ ParseError.no_error → Inv a.parser a.request

returns-ResultInv :
    (i : ℕ) (p : HttpParser) (b : Bool) (p' : HttpParser) (r' : HttpRequest)
    → Explained p (returns b p' r')
    → OutcomeInv (returns b p' r')
    → ResultInv (record { complete = b; parser = p'; request = r'; consumed = i })
returns-ResultInv i p true p' r' x v h = v
returns-ResultInv i p false p' r' x v h = absurd (x h)

parse_from-Inv :
    (i : ℕ) (p : HttpParser) (r : HttpRequest) (input : Bytes)
    → Inv p r
    → is_done p.state ≡ false
    → ResultInv (parse_from i p r input)
parse_from-Inv i p r [] v h = unfold parse_from in λ _. v
parse_from-Inv i p r (c ∷ cs) v h = elim (Outcome-cases (step p r c)) [
  | inl (b, p', r', o) ↦ rw (parse_from-returns i p r c cs b p' r' o) (
      returns-ResultInv (suc i) p b p' r' (rw o at (step-Explained p r c h))
        (rw o at (step-Inv p r c v)))
  | inr (p', r', o) ↦
      let open_state = (rw o at (step-Explained p r c h)).1 in
      rw (parse_from-falls i p r c cs p' r' o open_state)
        (parse_from-Inv (suc i) p' r' cs (rw o at (step-Inv p r c v)) open_state)
]

-- A fresh parser and an empty request satisfy the invariant.
pub initial-Inv : Inv initial empty_request
unfolding headers_ok lookup
initial-Inv = record { headers = refl; unmixed = inl refl; framing = refl }

-- A call of `parse` that meets no error keeps the invariant: the stored headers are lower-case
-- tokens with printable values, Content-Length and Transfer-Encoding do not stand together, and
-- the body read so far is within what the headers declare and within the cap.
pub parse-Inv :
    (p : HttpParser) (r : HttpRequest) (input : Bytes)
    → Inv p r
    → is_done p.state ≡ false
    → (parse p r input).parser.parse_error ≡ ParseError.no_error
    → Inv (parse p r input).parser (parse p r input).request
unfolding parse
parse-Inv p r input = parse_from-Inv 0 p r input

done-Framed :
    (p : HttpParser) (r : HttpRequest)
    → Inv p r
    → p.state ≡ State.done
    → Framed r × (length r.body ≤ max_body_size)
done-Framed p r v s = subst (λ t. Framing t p r) s v.framing

-- A request that `parse` reports complete is safe to forward: its headers are lower-case tokens
-- with printable values, Content-Length and Transfer-Encoding do not stand together, its body is
-- framed as its headers declare (as long as the Content-Length, in chunks, or absent), and the
-- body is within the cap. The parser has met no error before and satisfies the invariant.
pub parse-complete :
    (p : HttpParser) (r : HttpRequest) (input : Bytes)
    → Inv p r
    → p.parse_error ≡ ParseError.no_error
    → is_done p.state ≡ false
    → (parse p r input).complete ≡ true
    → let q = (parse p r input).request in
      (headers_ok q.headers ≡ true) × Unmixed q.headers × Framed q × (length q.body ≤ max_body_size)
unfolding parse
parse-complete p r input v n h c = go (parse_from-Ending 0 p r input n h)
  where
    a : ParseResult
    a = parse_from 0 p r input

    go :
        Ending 0 input a
        → (headers_ok a.request.headers ≡ true)
          × Unmixed a.request.headers
          × Framed a.request
          × (length a.request.body ≤ max_body_size)
    go (completed _ s e) =
        let w = parse_from-Inv 0 p r input v h e in
        let f = done-Framed a.parser a.request w s in (w.headers, w.unmixed, f.0, f.1)
    go (refused f _) = cc (f)
    go (suspended f _ _ _) = cc (f)
