-- ===== src/Http/Parser/RoundTrip/Body.antt =====
-- The parser over all header lines, over the end of the headers and over a sized body.
use mathlib.Core.List.{append_assoc}
use epoll_gateway.Base.{
  ℕ, suc, ◌+◌, ◌≤◌, ◌<◌, true, [], ◌∷◌, ◌++◌, ◌≡◌, refl, ◌∙◌, sym, arith, length, length-append,
}
use epoll_gateway.Base.Bytes.{Bytes}
use epoll_gateway.Base.Table.{Table, insert}
use epoll_gateway.Http.Message.{HttpRequest, render_headers}
use epoll_gateway.Http.Parser.State.{
  State, HttpParser, returns, falls, max_headers_size, max_body_size,
}
use epoll_gateway.Http.Parser.Headers.{finish_headers}
use epoll_gateway.Http.Parser.Loop.{step_in, parse_from}
use epoll_gateway.Http.Parser.Errors.{parse_from-falls, parse_from-returns}
use epoll_gateway.Http.Parser.Framing.{body_kind, bodiless, sized}
use epoll_gateway.Http.Parser.RoundTrip.HeaderLines.{line_of, InHeader, parse_from-header}
use epoll_gateway.Http.Parser.RoundTrip.Sent.{store_all, Storable, Completes}

render_headers-line :
    (key value tail rest : Bytes)
    → (key ++ (b':' ∷ b' ' ∷ (value ++ (b'\r' ∷ b'\n' ∷ tail)))) ++ rest
      ≡ line_of key value ++ (b'\r' ∷ b'\n' ∷ (tail ++ rest))
render_headers-line key value tail rest = simp append_assoc

pub parse_from-render_headers :
    (hs : Table Bytes) (rest : Bytes) (i j n : ℕ) (p : HttpParser) (r : HttpRequest)
    → InHeader p
    → p.buffer ≡ []
    → Storable r.headers hs
    → n ≡ p.headers_read + length (render_headers hs)
    → n ≤ max_headers_size
    → j ≡ i + length (render_headers hs)
    → parse_from i p r (render_headers hs ++ rest)
      ≡ parse_from j
          (record p { headers_read = n })
          (record r { headers = store_all r.headers hs })
          rest
unfolding render_headers
parse_from-render_headers [] rest i j n p r s z ok m le k =
    let same : i ≡ j = omega arith in
    let count : p.headers_read ≡ n = omega arith in cc (same, count)
parse_from-render_headers ((key, value) ∷ hs) rest i j n p r s z (line, free, ok) m le k =
    let tail = render_headers hs in
    let size : length (render_headers ((key, value) ∷ hs))
        ≡ length (line_of key value) + 2 + length tail =
      omega (
        arith,
        length-append key (b':' ∷ b' ' ∷ (value ++ (b'\r' ∷ b'\n' ∷ tail))),
        length-append value (b'\r' ∷ b'\n' ∷ tail),
        length-append key (b':' ∷ b' ' ∷ value),
      ) in
    let count = p.headers_read + length (line_of key value) + 2 in
    let j' = i + length (line_of key value) + 2 in
    rw (render_headers-line key value tail rest) (
      parse_from-header key value (tail ++ rest) i j' count p r s z line free refl (omega arith)
        refl
      ∙ parse_from-render_headers hs rest j' j n (record p { headers_read = count })
          (record r { headers = insert key value r.headers })
          (record { at = s.at; no_cr = s.no_cr }) z ok (omega arith) le (omega arith))

pub finish_headers-bodiless :
    (p : HttpParser) (r : HttpRequest)
    → body_kind r.headers ≡ bodiless
    → finish_headers p r ≡ returns true (record p { state = State.done }) r
unfolding finish_headers body_kind
finish_headers-bodiless p r e = ground arith

pub finish_headers-sized :
    (p : HttpParser) (r : HttpRequest) (n : ℕ)
    → body_kind r.headers ≡ sized n
    → 0 < n
    → n ≤ max_body_size
    → finish_headers p r
      ≡ falls (record p { content_length = n; body_read = 0; state = State.body }) r
unfolding finish_headers body_kind
finish_headers-sized p r n e h k = ground arith

pub finish_headers-empty :
    (p : HttpParser) (r : HttpRequest)
    → body_kind r.headers ≡ sized 0
    → finish_headers p r ≡ returns true (record p { content_length = 0; state = State.done }) r
unfolding finish_headers body_kind
finish_headers-empty p r e = ground arith

pub parse_from-body :
    (c : ℕ) (cs rest : Bytes) (i : ℕ) (p : HttpParser) (r : HttpRequest) (b : Bytes)
    → p.state ≡ State.body
    → p.body_read + length (c ∷ cs) ≡ p.content_length
    → p.content_length ≤ max_body_size
    → b ≡ r.body ++ c ∷ cs
    → Completes (parse_from i p r ((c ∷ cs) ++ rest)) (record r { body = b }) (i + length (c ∷ cs))
parse_from-body c [] rest i p r b s e l h =
    let p' = record p { body_read = p.body_read + 1; state = State.done } in
    let r' = record r { body = r.body ++ c ∷ [] } in
    rw (parse_from-returns i p r c rest true p' r' (unfold step_in in ground arith))
      (record { complete = refl; request = cc h; consumed = omega arith })
parse_from-body c (d ∷ cs) rest i p r b s e l h =
    let p' = record p { body_read = p.body_read + 1 } in
    let r' = record r { body = r.body ++ c ∷ [] } in
    let done' =
      parse_from-body d cs rest (suc i) p' r' b s (omega arith) l
        (h ∙ sym (append_assoc r.body (c ∷ []) (d ∷ cs))) in
    rw
      (parse_from-falls i p r c ((d ∷ cs) ++ rest) p' r' (unfold step_in in ground arith)
        (ground arith))
      (record {
        complete = done'.complete;
        request = done'.request;
        consumed = omega (arith, done'.consumed);
      })
