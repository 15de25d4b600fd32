-- ===== src/Http/Parser/Carried.antt =====
-- The parser adds headers to the request that it is given, and takes none away.
use epoll_gateway.Base.{
  ℕ, suc, ◌+◌, ◌%◌, Bool, true, false, not, ◌||◌, [], ◌∷◌, ◌≡◌, arith, inl, inr, Option-cases,
  Bool-cases,
}
use epoll_gateway.Base.Bytes.{Bytes, to_lower_bytes, split_at}
use epoll_gateway.Base.Table.{lookup, is_some, lookup-insert}
use epoll_gateway.Http.Message.{HttpRequest}
use epoll_gateway.Http.Parser.State.{
  State, ChunkState, HttpParser, Outcome, returns, falls, size_mod,
}
use epoll_gateway.Http.Parser.RequestLine.{step_method, step_path, step_query, step_version}
use epoll_gateway.Http.Parser.Headers.{
  step_header, header_byte, finish_headers, header_line, store_header, start_body, trim_front,
  trim_back,
}
use epoll_gateway.Http.Parser.Bodies.{
  step_chunk, step_body, step_chunk_size, step_chunk_data, step_trailer, chunk_line,
}
use epoll_gateway.Http.Parser.Loop.{step_in, parse_from, parse, is_done, step}
use epoll_gateway.Http.Parser.Errors.{Outcome-cases}

abbrev pub has : Bytes → HttpRequest → Bool
has key r = is_some (lookup key r.headers)

-- Whether a header of the one request is one of the other too.
abbrev pub carries : Bytes → HttpRequest → HttpRequest → Bool
carries key r r' = not (has key r) || has key r'

abbrev Carries : Bytes → HttpRequest → Outcome → Type 0
Carries key r (returns b p' r') = carries key r r' ≡ true
Carries key r (falls p' r') = carries key r r' ≡ true

module _ (key : Bytes) (p : HttpParser) (r : HttpRequest) where
  store_header-Carries : (name value : Bytes) → Carries key r (store_header p r name value)
  unfolding store_header
  store_header-Carries name value = ground (arith, lookup-insert name key value r.headers)

  header_line-Carries : Carries key r (header_line p r)
  unfolding header_line
  header_line-Carries = elim (Option-cases (split_at b':' p.buffer)) [
    | inl h ↦ rw (h, header_line) (ground arith)
    | inr ((name, value), h) ↦
        rw (h, header_line)
          (store_header-Carries (to_lower_bytes name) (trim_back (trim_front value)))
  ]

  finish_headers-Carries : Carries key r (finish_headers p r)
  unfolding finish_headers start_body
  finish_headers-Carries = ground arith

  chunk_line-Carries : Carries key r (chunk_line p r)
  unfolding chunk_line
  chunk_line-Carries = ground arith

header_byte-Carries :
    (key : Bytes) (p : HttpParser) (r : HttpRequest) (c : ℕ) → Carries key r (header_byte p r c)
unfolding header_byte
header_byte-Carries key p r c =
    let ended = record p { cr_seen = false } in
    ground (arith, header_line-Carries key ended r, finish_headers-Carries key ended r)

step_header-Carries :
    (key : Bytes) (p : HttpParser) (r : HttpRequest) (c : ℕ) → Carries key r (step_header p r c)
unfolding step_header
step_header-Carries key p r c = ground (
  arith,
  header_byte-Carries key (record p { headers_read = (p.headers_read + 1) % size_mod }) r c,
)

step_chunk-Carries :
    (key : Bytes) (s : ChunkState) (p : HttpParser) (r : HttpRequest) (c : ℕ)
    → Carries key r (step_chunk s p r c)
unfolding step_chunk step_chunk_size step_chunk_data step_trailer
step_chunk-Carries key s p r c = ground (arith, chunk_line-Carries key p r)

step_in-Carries :
    (key : Bytes) (s : State) (p : HttpParser) (r : HttpRequest) (c : ℕ)
    → Carries key r (step_in s p r c)
unfolding step_in
step_in-Carries key State.method p r c = unfold step_method in ground arith
step_in-Carries key State.path p r c = unfold step_path in ground arith
step_in-Carries key State.version p r c = unfold step_version in ground arith
step_in-Carries key State.query p r c = unfold step_query in ground arith
step_in-Carries key State.header p r c = step_header-Carries key p r c
step_in-Carries key State.chunked_body p r c = step_chunk-Carries key p.chunk_state p r c
step_in-Carries key State.body p r c = unfold step_body in ground arith
step_in-Carries key State.done p r c = ground arith

parse_from-carries :
    (key : Bytes) (i : ℕ) (p : HttpParser) (r : HttpRequest) (s : Bytes)
    → carries key r (parse_from i p r s).request ≡ true
unfolding parse_from
parse_from-carries key i p r [] = ground arith
parse_from-carries key i p r (c ∷ cs) = elim (Outcome-cases (step p r c)) [
  | inl (b, p', r', e) ↦ rw (e, parse_from) (rw e at (step_in-Carries key p.state p r c))
  | inr (p', r', e) ↦
      let h : carries key r r' ≡ true = rw e at (step_in-Carries key p.state p r c) in
      let later = parse_from-carries key (suc i) p' r' cs in
      elim (Bool-cases (is_done p'.state)) [
        | inl ends ↦ rw (e, parse_from, ends) h
        | inr open_state ↦ rw (e, parse_from, open_state) (ground arith)
      ]
]

pub parse-carries :
    (key : Bytes) (p : HttpParser) (r : HttpRequest) (s : Bytes)
    → carries key r (parse p r s).request ≡ true
unfolding parse
parse-carries key p r s = parse_from-carries key 0 p r s
