-- ===== src/Http/Parser/Invariant.antt =====
-- Each round of the loop of `parse` keeps the invariant.
use epoll_gateway.Base.{
  ℕ, ◌+◌, ◌*◌, ◌%◌, ◌<◌, true, false, [], ◌∷◌, ◌≡◌, inl, inr, refl, arith, length-append, none,
  some, Option-cases,
}
use epoll_gateway.Base.Bytes.{Bytes, eq_bytes_iff, to_lower_bytes, split_at}
use epoll_gateway.Base.Table.{lookup}
use epoll_gateway.Http.Message.{HttpRequest}
use epoll_gateway.Http.Parser.State.{
  State, ChunkState, HttpParser, size_mod, content_length_name, transfer_encoding_name,
}
use epoll_gateway.Http.Parser.Headers.{
  finish_headers, header_line, store_header, header_byte, step_header, start_body,
}
use epoll_gateway.Http.Parser.RequestLine.{step_method, step_path, step_query, step_version}
use epoll_gateway.Http.Parser.Bodies.{
  step_chunk, step_body, step_chunk_size, step_chunk_data, step_trailer, chunk_line,
  parse_chunk_size, parse_hex, hex_digit, cut_extension,
}
use epoll_gateway.Http.Parser.Loop.{step_in, step}
use epoll_gateway.Http.Parser.Framing.{
  header_ok, headers_ok, headers_ok-insert, Unmixed, insert-Unmixed, to_lower_bytes_idem, body_kind,
  Framing, Inv, OutcomeInv,
}

parse_hex-lt : (hex : Bytes) (v n : ℕ) → v < size_mod → parse_hex hex v ≡ some n → n < size_mod
unfolding parse_hex
parse_hex-lt [] v n h e = ground arith
parse_hex-lt (ch ∷ cs) v n h e = elim (Option-cases (hex_digit ch)) [
  | inl no_digit ↦ cc (rw (no_digit, parse_hex) at e)
  | inr (d, digit) ↦ let v' = (v * 16 + d) % size_mod in ground (arith, parse_hex-lt cs v' n)
]

parse_chunk_size-lt : (line : Bytes) (n : ℕ) → parse_chunk_size line ≡ some n → n < size_mod
unfolding parse_chunk_size
parse_chunk_size-lt line n e = ground (arith, parse_hex-lt (cut_extension line) 0 n)

module _ (p : HttpParser) (r : HttpRequest) (ok : headers_ok r.headers ≡ true)
    (u : Unmixed r.headers) where
  store_header-Inv :
      (key value : Bytes)
      → to_lower_bytes key ≡ key
      → r.body ≡ []
      → p.state ≡ State.header
      → OutcomeInv (store_header p r key value)
  unfolding store_header header_ok
  store_header-Inv key value low e s = ground (
    arith,
    eq_bytes_iff (to_lower_bytes key) key,
    headers_ok-insert key value r.headers,
    insert-Unmixed key value r.headers,
  )

  header_line-Inv : r.body ≡ [] → p.state ≡ State.header → OutcomeInv (header_line p r)
  unfolding header_line
  header_line-Inv e s = elim (Option-cases (split_at b':' p.buffer)) [
    | inl h ↦ rw (h, header_line) (ground arith)
    | inr ((key, value), h) ↦
        rw (h, header_line) (store_header-Inv (to_lower_bytes key) _ (to_lower_bytes_idem key) e s)
  ]

  start_body-Inv :
      (cl : Bytes)
      → lookup content_length_name r.headers ≡ some cl
      → lookup transfer_encoding_name r.headers ≡ none
      → r.body ≡ []
      → OutcomeInv (start_body p r cl)
  unfolding start_body body_kind
  start_body-Inv cl has free e = ground arith

  finish_headers-Inv : r.body ≡ [] → OutcomeInv (finish_headers p r)
  unfolding finish_headers body_kind
  finish_headers-Inv e = ground arith

  chunk_line-Inv :
      Framing State.chunked_body p r → p.state ≡ State.chunked_body → OutcomeInv (chunk_line p r)
  unfolding chunk_line
  chunk_line-Inv f s = elim (Option-cases (parse_chunk_size p.chunk_size_hex_buffer)) [
    | inl h ↦ rw (h, chunk_line) (ground arith)
    | inr (n, h) ↦ rw (h, chunk_line) (ground (arith, parse_chunk_size-lt _ n h))
  ]

module _ (p : HttpParser) (r : HttpRequest) (ok : headers_ok r.headers ≡ true)
    (u : Unmixed r.headers) (c : ℕ) where
  step_body-Inv : p.state ≡ State.body → Framing State.body p r → OutcomeInv (step_body p r c)
  unfolding step_body
  step_body-Inv s f = ground (arith, length-append r.body (c ∷ []))

  step_chunk_data-Inv :
      Framing State.chunked_body p r
      → p.state ≡ State.chunked_body
      → p.chunk_state ≡ ChunkState.in_data
      → OutcomeInv (step_chunk_data p r c)
  unfolding step_chunk_data
  step_chunk_data-Inv f e s = ground (arith, length-append r.body (c ∷ []))

  step_trailer-Inv :
      Framing State.chunked_body p r
      → p.state ≡ State.chunked_body
      → p.chunk_state ≡ ChunkState.trailer
      → OutcomeInv (step_trailer p r c)
  unfolding step_trailer
  step_trailer-Inv f e s = ground arith

  step_chunk_size-Inv :
      Framing State.chunked_body p r
      → p.state ≡ State.chunked_body
      → p.chunk_state ≡ ChunkState.size
      → OutcomeInv (step_chunk_size p r c)
  unfolding step_chunk_size
  step_chunk_size-Inv f e s = ground (arith, chunk_line-Inv p r ok u f e)

  step_chunk-Inv :
      p.state ≡ State.chunked_body
      → Framing State.chunked_body p r
      → OutcomeInv (step_chunk p.chunk_state p r c)
  step_chunk-Inv e f = go p.chunk_state refl
    where
      go : (s : ChunkState) → p.chunk_state ≡ s → OutcomeInv (step_chunk s p r c)
      go ChunkState.size s = unfold step_chunk in step_chunk_size-Inv f e s
      go ChunkState.in_data s = unfold step_chunk in step_chunk_data-Inv f e s
      go ChunkState.trailer s = unfold step_chunk in step_trailer-Inv f e s
      go ChunkState.done s = unfold step_chunk in ground arith

  header_byte-Inv : p.state ≡ State.header → r.body ≡ [] → OutcomeInv (header_byte p r c)
  unfolding header_byte
  header_byte-Inv s e =
      let ended = record p { cr_seen = false } in
      ground (arith, finish_headers-Inv ended r ok u e, header_line-Inv ended r ok u e s)

  step_method-Inv : p.state ≡ State.method → r.body ≡ [] → OutcomeInv (step_method p r c)
  unfolding step_method
  step_method-Inv s f = ground arith

  step_path-Inv : p.state ≡ State.path → r.body ≡ [] → OutcomeInv (step_path p r c)
  unfolding step_path
  step_path-Inv s f = ground arith

  step_query-Inv : p.state ≡ State.query → r.body ≡ [] → OutcomeInv (step_query p r c)
  unfolding step_query
  step_query-Inv s f = ground arith

  step_version-Inv : p.state ≡ State.version → r.body ≡ [] → OutcomeInv (step_version p r c)
  unfolding step_version
  step_version-Inv s f = ground arith

step_header-Inv :
    (p : HttpParser) (r : HttpRequest) (c : ℕ)
    → headers_ok r.headers ≡ true
    → Unmixed r.headers
    → p.state ≡ State.header
    → r.body ≡ []
    → OutcomeInv (step_header p r c)
unfolding step_header
step_header-Inv p r c ok u s e =
    let counted = record p { headers_read = (p.headers_read + 1) % size_mod } in
    ground (arith, header_byte-Inv counted r ok u c s e)

-- One round of the loop keeps the invariant.
pub step-Inv : (p : HttpParser) (r : HttpRequest) (c : ℕ) → Inv p r → OutcomeInv (step p r c)
step-Inv p r c v = go p.state refl v.framing
  where
    go : (s : State) → p.state ≡ s → Framing s p r → OutcomeInv (step_in s p r c)
    go State.method s f = unfold step_in in step_method-Inv p r v.headers v.unmixed c s f
    go State.path s f = unfold step_in in step_path-Inv p r v.headers v.unmixed c s f
    go State.version s f = unfold step_in in step_version-Inv p r v.headers v.unmixed c s f
    go State.query s f = unfold step_in in step_query-Inv p r v.headers v.unmixed c s f
    go State.header s f = unfold step_in in step_header-Inv p r c v.headers v.unmixed s f
    go State.chunked_body s f = unfold step_in in step_chunk-Inv p r v.headers v.unmixed c s f
    go State.body s f = unfold step_in in step_body-Inv p r v.headers v.unmixed c s f
    go State.done s f = unfold step_in in ground arith
