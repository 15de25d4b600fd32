-- ===== src/Http/Parser/RoundTrip/Whole.antt =====
-- A whole request, written and read back.
use native.Mathlib.Nat.{add-zero}
use epoll_gateway.Base.{
  ℕ, suc, ◌+◌, ◌≤◌, true, [], ◌∷◌, ◌++◌, ◌≡◌, inl, inr, refl, ◌∙◌, arith, length, length-append,
}
use epoll_gateway.Base.Bytes.{Bytes}
use epoll_gateway.Http.Message.{HttpRequest, empty_request, render_headers}
use epoll_gateway.Http.Parser.State.{State, HttpParser, initial, reset, returns, max_headers_size}
use epoll_gateway.Http.Parser.Headers.{finish_headers}
use epoll_gateway.Http.Parser.Loop.{step, parse_from, parse}
use epoll_gateway.Http.Parser.Errors.{parse_from-falls, parse_from-returns}
use epoll_gateway.Http.Parser.RoundTrip.Line.{
  parse_from-target, parse_from-version, end_method, end_path, start_query, end_query, end_version,
}
use epoll_gateway.Http.Parser.RoundTrip.HeaderLines.{step-header_cr, step-header_lf, ended}
use epoll_gateway.Http.Parser.RoundTrip.Body.{
  parse_from-render_headers, finish_headers-bodiless, finish_headers-sized, finish_headers-empty,
  parse_from-body,
}
use epoll_gateway.Http.Parser.RoundTrip.Sent.{
  is_path_char, store_all, Message, IsPart, IsBody, IsSendable, render_query, render_onto,
  request_of, Completes,
}

abbrev in_state : State → HttpParser → HttpParser
in_state s p = record p { state = s; buffer = [] }

-- From the end of the headers on.
abbrev after_cr : HttpParser → HttpParser
after_cr p = record p { headers_read = p.headers_read + 1; cr_seen = true }

module _ (i : ℕ) (p : HttpParser) (r : HttpRequest) (at : p.state ≡ State.header)
    (z : p.buffer ≡ []) (m : p.headers_read + 2 ≤ max_headers_size) (e : r.body ≡ []) where
  step-end_lf : step (after_cr p) r b'\n' ≡ finish_headers (ended (after_cr p)) r
  step-end_lf = step-header_lf (after_cr p) r at (omega arith) refl ∙ rw z refl

  parse_from-end_cr :
      (tail : Bytes)
      → parse_from i p r (b'\r' ∷ b'\n' ∷ tail) ≡ parse_from (suc i) (after_cr p) r (b'\n' ∷ tail)
  parse_from-end_cr tail =
      parse_from-falls i p r b'\r' (b'\n' ∷ tail) (after_cr p) r
        (step-header_cr p r at (omega arith)) (ground arith)

  end_now :
      (tail : Bytes) (p' : HttpParser)
      → finish_headers (ended (after_cr p)) r ≡ returns true p' r
      → Completes (parse_from i p r (b'\r' ∷ b'\n' ∷ tail)) (record r { body = [] }) (i + 2)
  end_now tail p' f = rw (parse_from-end_cr tail) (
      rw (parse_from-returns (suc i) (after_cr p) r b'\n' tail true p' r (step-end_lf ∙ f))
        (record { complete = refl; request = cc; consumed = omega arith }))

  finish_body :
      (body rest : Bytes) (n : ℕ)
      → IsBody r.headers body
      → n ≡ i + 2 + length body
      → Completes (parse_from i p r (b'\r' ∷ b'\n' ∷ (body ++ rest))) (record r { body = body }) n
  finish_body [] rest n (inl (kind, _)) k =
      rw k (rw add-zero (end_now rest _ (finish_headers-bodiless _ r kind)))
  finish_body (c ∷ cs) rest n (inl (kind, none_left)) k = cc
  finish_body [] rest n (inr (kind, cap)) k =
      rw k (rw add-zero (end_now rest _ (finish_headers-empty _ r kind)))
  finish_body (c ∷ cs) rest n (inr (kind, cap)) k =
      let f =
        finish_headers-sized (ended (after_cr p)) r (length (c ∷ cs)) kind (omega arith) cap in
      let p' = record (ended (after_cr p)) {
        content_length = length (c ∷ cs);
        body_read = 0;
        state = State.body;
      } in
      let tail = (c ∷ cs) ++ rest in
      let read =
        parse_from-body c cs rest (suc (suc i)) p' r (c ∷ cs) refl (omega arith) cap (rw e refl) in
      rw (parse_from-end_cr tail) (
        rw (parse_from-falls (suc i) (after_cr p) r b'\n' tail p' r (step-end_lf ∙ f) refl)
          (record {
            complete = read.complete;
            request = read.request;
            consumed = omega (arith, read.consumed);
          }))

target_lem :
    (query rest : Bytes) (i j : ℕ) (p : HttpParser) (r : HttpRequest)
    → p.state ≡ State.path
    → r.query ≡ []
    → IsPart is_path_char query
    → j ≡ i + length (render_query query []) + 1
    → parse_from i p r (render_query query (b' ' ∷ rest))
      ≡ parse_from j (in_state State.version p) (record r { path = p.buffer; query = query }) rest
target_lem [] rest i j p r s z q k =
    end_path i p r rest s ∙ (let same : suc i ≡ j = omega arith in cc (same, z))
target_lem (c ∷ cs) rest i j p r s z q k =
    let p1 = in_state State.query p in
    let r1 = record r { path = p.buffer } in
    let j1 = suc i + length (c ∷ cs) in
    let ends : suc j1 ≡ j = omega (arith, length-append cs []) in
    start_query i p r (c ∷ cs ++ (b' ' ∷ rest)) s
    ∙ parse_from-target (c ∷ cs) (b' ' ∷ rest) (suc i) j1 p1 r1 (inr (inr refl)) refl q.0 q.1 refl
    ∙ end_query j1 (record p1 { buffer = c ∷ cs }) r1 rest refl
    ∙ cc ends

length-render_query :
    (query rest : Bytes)
    → length (render_query query rest) ≡ length (render_query query []) + length rest
length-render_query [] rest = omega arith
length-render_query (c ∷ cs) rest = omega (arith, length-append cs rest, length-append cs [])

-- The lengths of the pieces.
abbrev target_end : Message → ℕ
target_end m = suc (length m.method) + length m.path + length (render_query m.query []) + 1

abbrev headers_end : Message → ℕ
headers_end m = target_end m + length m.version + 2 + length (render_headers m.headers)

length-render_onto : (m : Message) → length (render_onto m []) ≡ headers_end m + 2 + length m.body
length-render_onto m =
    let t4 = m.body ++ [] in
    let t3 = render_headers m.headers ++ (b'\r' ∷ b'\n' ∷ t4) in
    let t2 = m.version ++ (b'\r' ∷ b'\n' ∷ t3) in
    let t1 = m.path ++ render_query m.query (b' ' ∷ t2) in
    omega (
      arith,
      length-append m.method (b' ' ∷ t1),
      length-append m.path (render_query m.query (b' ' ∷ t2)),
      length-render_query m.query (b' ' ∷ t2),
      length-append m.version (b'\r' ∷ b'\n' ∷ t3),
      length-append (render_headers m.headers) (b'\r' ∷ b'\n' ∷ t4),
      length-append m.body [],
    )

-- The request line.
parse_from-request_line :
    (m : Message) (tail : Bytes)
    → IsSendable m
    → parse_from 0 initial empty_request (
        m.method
        ++ (b' ' ∷ (m.path ++ render_query m.query (b' ' ∷ (m.version ++ (b'\r' ∷ b'\n' ∷ tail))))))
      ≡ parse_from
          (target_end m + length m.version + 2)
          (in_state State.header initial)
          (record (request_of m) { headers = []; body = [] })
          tail
parse_from-request_line m tail h =
    let t2 = m.version ++ (b'\r' ∷ b'\n' ∷ tail) in
    let t1 = render_query m.query (b' ' ∷ t2) in
    let j1 = length m.method in
    let p1 = in_state State.path initial in
    let r1 = record empty_request { method = m.method } in
    let p2 = in_state State.version initial in
    let r2 = record r1 { path = m.path; query = m.query } in
    let j3 = target_end m + length m.version in
    let ends : suc (suc j3) ≡ j3 + 2 = omega arith in
    parse_from-target m.method (b' ' ∷ (m.path ++ t1)) 0 j1 initial empty_request (inl refl) refl
      h.method.0 h.method.1 (omega arith)
    ∙ end_method j1 (record initial { buffer = m.method }) empty_request (m.path ++ t1) refl
    ∙ parse_from-target m.path t1 (suc j1) (suc j1 + length m.path) p1 r1 (inr (inl refl)) refl
        h.path.0 h.path.1 refl
    ∙ target_lem m.query t2 (suc j1 + length m.path) (target_end m) (record p1 { buffer = m.path })
        r1 refl refl h.query refl
    ∙ parse_from-version m.version (b'\r' ∷ b'\n' ∷ tail) (target_end m) j3 p2 r2 (refl, refl) refl
        h.version.0 h.version.1 refl
    ∙ end_version j3 (record p2 { buffer = m.version }) r2 tail refl refl
    ∙ cc ends

-- A message that a client may send, written on the wire and given to a parser that was reset, is
-- read back whole, whatever bytes follow it (such as the next request of a pipeline): `parse`
-- reports it complete, the request is the one written, and exactly the message's bytes are consumed.
pub parse-render :
    (p : HttpParser) (m : Message) (rest : Bytes)
    → IsSendable m
    → Completes
        (parse (reset p) empty_request (render_onto m rest))
        (request_of m)
        (length (render_onto m []))
unfolding parse reset
parse-render p m rest h =
    let tail = b'\r' ∷ b'\n' ∷ (m.body ++ rest) in
    let n = length (render_headers m.headers) in
    let p1 = in_state State.header initial in
    let r1 = record (request_of m) { headers = []; body = [] } in
    let p2 = record p1 { headers_read = n } in
    let r2 = record r1 { headers = store_all [] m.headers } in
    rw (parse_from-request_line m (render_headers m.headers ++ tail) h) (
      rw
        (parse_from-render_headers m.headers tail _ (headers_end m) n p1 r1
          (record { at = refl; no_cr = refl }) refl h.lines (omega arith) (omega (arith, h.small))
          refl)
        (finish_body (headers_end m) p2 r2 refl refl h.small refl m.body rest _ h.body
          (length-render_onto m)))
