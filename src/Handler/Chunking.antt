-- ===== src/Handler/Chunking.antt =====
-- The chunked form of a response body, read back by the scanner of the upstream exchange.
use mathlib.Core.List.{append_assoc, append-nil}
use epoll_gateway.Base.{
  ℕ, zero, suc, ◌+◌, ◌-◌, ◌*◌, ◌/◌, ◌%◌, ◌<◌, ◌≤◌, Bool, true, false, not, ◌&&◌, List, [], ◌∷◌,
  ◌++◌, none, some, ◌≡◌, refl, sym, ap, ◌∙◌, inl, inr, arith, ◌==◌, ltb, is_empty, length,
  length-append, all, Bool-cases,
}
use epoll_gateway.Base.Bytes.{Bytes, ascii, split_at}
use epoll_gateway.Base.Decimal.{free_of}
use epoll_gateway.Http.Message.{crlf}
use epoll_gateway.Http.Parser.State.{size_mod}
use epoll_gateway.Http.Parser.Bodies.{hex_digit, cut_extension}
use epoll_gateway.Client.Chunks.{ChunkScan, hex_size, size_of_line, scan_chunked_body}
use epoll_gateway.Client.Chunked.{
  Chunk, AreChunks, size_of_line-zero, payload, count, render_chunks, scan_chunked_body-lines,
  render_end,
}
use epoll_gateway.Handler.Responses.{hex_char, show_hex, to_hex, chunked_body}

hex_digit-hex_char : (d : ℕ) → d < 16 → hex_digit (hex_char d) ≡ some d
unfolding hex_digit hex_char
hex_digit-hex_char d h = ground arith

hex_size-step :
    (n v : ℕ) (acc : Bytes)
    → n < size_mod
    → v ≡ n / 16
    → hex_size v (hex_char (n % 16) ∷ acc) ≡ hex_size n acc
unfolding hex_size
hex_size-step n v acc h e =
    let digit = hex_digit-hex_char (n % 16) (omega arith) in
    let fits : ltb ((size_mod - 1) / 16) v ≡ false = ground arith in
    let whole : (v * 16 + n % 16) % size_mod ≡ n = omega arith in
    rw (digit, hex_size, fits, whole) refl

hex_size-show_hex :
    (fuel n : ℕ) (acc : Bytes)
    → n < fuel
    → n < size_mod
    → hex_size 0 (show_hex fuel n acc) ≡ hex_size n acc
unfolding show_hex
hex_size-show_hex zero n acc h s = absurd (omega arith)
hex_size-show_hex (suc fuel) n acc h s = elim (Bool-cases (ltb n 16)) [
  | inl small ↦ rw small (hex_size-step n 0 acc s (ground arith))
  | inr large ↦ rw large (
      hex_size-show_hex fuel (n / 16) (hex_char (n % 16) ∷ acc) (ground arith) (ground arith)
      ∙ hex_size-step n (n / 16) acc s refl)
]

-- A byte that a size line may hold: neither the mark of an extension nor of the line's end.
abbrev is_plain : ℕ → Bool
is_plain c = not (c == b';') && not (c == b'\r')

hex_char-is_plain : (d : ℕ) → d < 16 → is_plain (hex_char d) ≡ true
unfolding hex_char
hex_char-is_plain d h = ground arith

show_hex-is_plain :
    (fuel n : ℕ) (acc : Bytes) → all is_plain acc ≡ true → all is_plain (show_hex fuel n acc) ≡ true
unfolding show_hex
show_hex-is_plain zero n acc h = h
show_hex-is_plain (suc fuel) n acc h =
    let first = hex_char-is_plain (n % 16) (omega arith) in
    ground (arith, show_hex-is_plain fuel (n / 16) (hex_char (n % 16) ∷ acc))

split_at-plain : (s : Bytes) → all is_plain s ≡ true → split_at b';' s ≡ none
unfolding split_at
split_at-plain [] h = refl
split_at-plain (c ∷ cs) h = ground (arith, split_at-plain cs)

plain-free_of : (s : Bytes) → all is_plain s ≡ true → free_of b'\r' s ≡ true
plain-free_of [] h = refl
plain-free_of (c ∷ cs) h = ground (arith, plain-free_of cs)

show_hex-filled :
    (fuel n : ℕ) (acc : Bytes) → is_empty acc ≡ false → is_empty (show_hex fuel n acc) ≡ false
unfolding show_hex
show_hex-filled zero n acc h = h
show_hex-filled (suc fuel) n acc h =
    ground (arith, show_hex-filled fuel (n / 16) (hex_char (n % 16) ∷ acc))

to_hex-filled : (n : ℕ) → is_empty (to_hex n) ≡ false
unfolding to_hex show_hex
to_hex-filled n = ground (arith, show_hex-filled n (n / 16) (hex_char (n % 16) ∷ []))

size_of_line-to_hex : (n : ℕ) → n < size_mod → size_of_line (to_hex n) ≡ some n
unfolding size_of_line cut_extension to_hex
size_of_line-to_hex n h =
    let plain : all is_plain (to_hex n) ≡ true =
      unfold to_hex in show_hex-is_plain (suc n) n [] refl in
    let kept : cut_extension (to_hex n) ≡ to_hex n =
      rw (split_at-plain (to_hex n) plain, cut_extension) refl in
    rw (kept, to_hex-filled n) (read n h)
  where
    read : (n : ℕ) → n < size_mod → hex_size 0 (to_hex n) ≡ some n
    read n h =
        unfold to_hex in (hex_size-show_hex (suc n) n [] (omega arith) h ∙ unfold hex_size in refl)

-- The chunks that `chunked_body` writes.
abbrev chunks_of : Bytes → List Chunk
chunks_of [] = []
chunks_of (c ∷ cs) = record { line = to_hex (length (c ∷ cs)); data_bytes = c ∷ cs } ∷ []

chunked_body-render :
    (body rest : Bytes)
    → chunked_body body ++ rest ≡ render_chunks (chunks_of body) (render_end (ascii "0") [] rest)
unfolding chunked_body
chunked_body-render [] rest = refl
chunked_body-render (c ∷ cs) rest =
    let line = to_hex (length (c ∷ cs)) in
    append_assoc (line ++ (crlf ++ ((c ∷ cs) ++ crlf))) (ascii "0\r\n\r\n") rest
    ∙ append_assoc line (crlf ++ ((c ∷ cs) ++ crlf)) (ascii "0\r\n\r\n" ++ rest)
    ∙ ap (λ t. line ++ (crlf ++ t)) (append_assoc (c ∷ cs) crlf (ascii "0\r\n\r\n" ++ rest))

chunks_of-AreChunks : (body : Bytes) → length body < size_mod → AreChunks (chunks_of body)
chunks_of-AreChunks [] h = tt
chunks_of-AreChunks (c ∷ cs) h =
    let n = length (c ∷ cs) in
    let plain : all is_plain (to_hex n) ≡ true =
      unfold to_hex in show_hex-is_plain (suc n) n [] refl in
    (
      record {
        one_line = plain-free_of (to_hex n) plain;
        size = size_of_line-to_hex n h;
        filled = refl;
      },
      tt,
    )

payload-chunks_of : (body : Bytes) → payload (chunks_of body) ≡ body
payload-chunks_of [] = refl
payload-chunks_of (c ∷ cs) = append-nil (c ∷ cs)

count-chunks_of : (body : Bytes) → count (chunks_of body) < 2
count-chunks_of [] = omega arith
count-chunks_of (c ∷ cs) = omega arith

length-le-chunked_body : (body : Bytes) → length body ≤ length (chunked_body body)
unfolding chunked_body
length-le-chunked_body [] = omega arith
length-le-chunked_body (c ∷ cs) =
    let line = to_hex (length (c ∷ cs)) in
    omega (
      arith,
      length-append (line ++ (crlf ++ ((c ∷ cs) ++ crlf))) (ascii "0\r\n\r\n"),
      length-append line (crlf ++ ((c ∷ cs) ++ crlf)),
      length-append (c ∷ cs) crlf,
    )

-- A body in the chunked form that the gateway gives to a response, behind any header block and
-- before any bytes, is scanned by the gateway's own upstream client to its exact end, and the
-- decoded bytes are the body: also where the body is empty.
pub scan-chunked_body :
    (before body rest : Bytes)
    → length (before ++ (chunked_body body ++ rest)) < size_mod
    → scan_chunked_body 2 (before ++ (chunked_body body ++ rest)) (length before)
      ≡ ChunkScan.complete (length (before ++ chunked_body body)) body
scan-chunked_body before body rest h =
    let written = chunked_body-render body rest in
    let alone : render_chunks (chunks_of body) (render_end (ascii "0") [] []) ≡ chunked_body body =
      sym (chunked_body-render body []) ∙ append-nil (chunked_body body) in
    let small : length body < size_mod = omega (
      arith,
      length-le-chunked_body body,
      length-append before (chunked_body body ++ rest),
      length-append (chunked_body body) rest,
    ) in
    let fits : length (before ++ render_chunks (chunks_of body) (render_end (ascii "0") [] rest))
        < size_mod =
      rw (← written) h in
    rw written (
      scan_chunked_body-lines before (chunks_of body) (ascii "0") [] rest 2
        (chunks_of-AreChunks body small) refl size_of_line-zero tt fits (count-chunks_of body)
      ∙ rw (alone, payload-chunks_of body) refl)
