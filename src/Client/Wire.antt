-- ===== src/Client/Wire.antt =====
-- A chunked body as a backend writes it: sizes as hexadecimal numerals, chunk extensions, trailers.
use epoll_gateway.Base.{
  ℕ, ◌+◌, ◌-◌, ◌*◌, ◌/◌, ◌%◌, ◌≤◌, ◌<◌, Bool, true, false, ◌&&◌, ◌||◌, List, [], ◌∷◌, ◌++◌, some,
  ◌≡◌, refl, ap, ◌∙◌, arith, ◌==◌, within, leb, ltb, is_empty, length, length-append, all,
  if◌then◌else◌,
}
use epoll_gateway.Base.Bytes.{Bytes, split_at}
use epoll_gateway.Base.Decimal.{free_of}
use epoll_gateway.Http.Parser.State.{size_mod}
use epoll_gateway.Http.Parser.Bodies.{hex_digit, cut_extension}
use epoll_gateway.Client.Chunks.{ChunkScan, hex_size, size_of_line, scan_chunked_body}
use epoll_gateway.Client.Chunked.{
  Chunk, AreChunks, AreTrailers, count, payload, render_chunks, render_end, scan_chunked_body-lines,
}

-- Hexadecimal digits, and the number that a numeral stands for, its first digit the most significant.
abbrev pub is_hex : ℕ → Bool
is_hex c = within b'0' b'9' c || (within b'A' b'F' c || within b'a' b'f' c)

abbrev pub digit_value : ℕ → ℕ
digit_value c = if leb c b'9' then c - 48 else if leb c b'F' then c - 55 else c - 87

abbrev pub numeral_from : ℕ → Bytes → ℕ
numeral_from n [] = n
numeral_from n (c ∷ cs) = numeral_from (16 * n + digit_value c) cs

abbrev pub numeral : Bytes → ℕ
numeral = numeral_from 0

-- A numeral with an extension behind it, which is empty or starts with a semicolon.
pub record SizeLine : Type 0 where
  pub digits : Bytes
  pub extension : Bytes

abbrev pub is_extension : Bytes → Bool
is_extension [] = true
is_extension (c ∷ cs) = c == b';' && free_of b'\r' cs

pub record IsSizeLine (l : SizeLine) (n : ℕ) : Type 0 where
  pub filled : is_empty l.digits ≡ false
  pub hexadecimal : all is_hex l.digits ≡ true
  pub value : numeral l.digits ≡ n
  pub extended : is_extension l.extension ≡ true

abbrev pub line_of : SizeLine → Bytes
line_of l = l.digits ++ l.extension

-- The chunks: what is not empty is sent behind the line of its size.
abbrev pub chunks_of : List (SizeLine × Bytes) → List Chunk
chunks_of [] = []
chunks_of ((l, bytes) ∷ rest) = record { line = line_of l; data_bytes = bytes } ∷ chunks_of rest

abbrev pub AreSized : List (SizeLine × Bytes) → Type 0
AreSized [] = Unit {0}
AreSized ((l, bytes) ∷ rest) =
    (IsSizeLine l (length bytes) × (is_empty bytes ≡ false)) × AreSized rest

hex_digit-digit_value : (c : ℕ) → is_hex c ≡ true → hex_digit c ≡ some (digit_value c)
unfolding hex_digit
hex_digit-digit_value c h = ground arith

le-numeral_from : (n : ℕ) (cs : Bytes) → n ≤ numeral_from n cs
le-numeral_from n [] = omega arith
le-numeral_from n (c ∷ cs) = omega (arith, le-numeral_from (16 * n + digit_value c) cs)

hex_size-numeral_from :
    (n : ℕ) (cs : Bytes)
    → all is_hex cs ≡ true
    → numeral_from n cs < size_mod
    → hex_size n cs ≡ some (numeral_from n cs)
unfolding hex_size
hex_size-numeral_from n [] h lt = refl
hex_size-numeral_from n (c ∷ cs) h lt =
    let next = 16 * n + digit_value c in
    let room = le-numeral_from next cs in
    let fits : ltb ((size_mod - 1) / 16) n ≡ false = ground (arith, room, lt) in
    let whole : (n * 16 + digit_value c) % size_mod ≡ next = omega (arith, room, lt) in
    rw (hex_digit-digit_value c (ground arith), hex_size, fits, whole)
      (hex_size-numeral_from next cs (ground arith) lt)

split_at-digits :
    (ds ext : Bytes)
    → all is_hex ds ≡ true
    → is_extension ext ≡ true
    → cut_extension (ds ++ ext) ≡ ds
unfolding cut_extension split_at
split_at-digits [] [] h e = refl
split_at-digits [] (c ∷ cs) h e = ground arith
split_at-digits (d ∷ ds) ext h e = ground (arith, split_at-digits ds ext (ground arith) e)

size_of_line-line_of :
    (l : SizeLine) (n : ℕ) → IsSizeLine l n → n < size_mod → size_of_line (line_of l) ≡ some n
unfolding size_of_line
size_of_line-line_of l n h lt =
    let small : numeral_from 0 l.digits < size_mod = omega (arith, h.value, lt) in
    rw (split_at-digits l.digits l.extension h.hexadecimal h.extended, size_of_line, h.filled)
      (hex_size-numeral_from 0 l.digits h.hexadecimal small ∙ ap some h.value)

line_of-free_of : (l : SizeLine) (n : ℕ) → IsSizeLine l n → free_of b'\r' (line_of l) ≡ true
line_of-free_of l n h = go l.digits l.extension h.hexadecimal h.extended
  where
    go :
        (ds ext : Bytes)
        → all is_hex ds ≡ true
        → is_extension ext ≡ true
        → free_of b'\r' (ds ++ ext) ≡ true
    go [] [] h e = refl
    go [] (c ∷ cs) h e = ground arith
    go (d ∷ ds) ext h e = ground (arith, go ds ext)

chunks_of-AreChunks :
    (cs : List (SizeLine × Bytes)) (behind : Bytes)
    → AreSized cs
    → length (render_chunks (chunks_of cs) behind) < size_mod
    → AreChunks (chunks_of cs)
chunks_of-AreChunks [] behind h lt = tt
chunks_of-AreChunks ((l, bytes) ∷ rest) behind h lt =
    let then_on = render_chunks (chunks_of rest) behind in
    let line = length-append (line_of l) (b'\r' ∷ b'\n' ∷ (bytes ++ (b'\r' ∷ b'\n' ∷ then_on))) in
    let chunk = length-append bytes (b'\r' ∷ b'\n' ∷ then_on) in
    let small : length bytes < size_mod = omega (arith, lt, line, chunk) in
    let fits : length then_on < size_mod = omega (arith, lt, line, chunk) in
    (
      record {
        one_line = line_of-free_of l (length bytes) h.0.0;
        size = size_of_line-line_of l (length bytes) h.0.0 small;
        filled = h.0.1;
      },
      chunks_of-AreChunks rest behind h.1 fits,
    )

-- A chunked body as a backend writes it is scanned to its end: chunks that are not empty, each
-- behind the hexadecimal numeral of its size, in either case and with any leading zeros and any
-- extension that a semicolon starts; a last chunk whose numeral is zero; and trailer lines that are
-- not empty. Neither extensions nor trailers hold a carriage return, and all the bytes are fewer
-- than 2 ^ 64. Behind the headers and before any further bytes, `body_end` stands just behind the
-- blank line that ends the body, and `decoded` is exactly the data of the chunks. A round for each
-- chunk and one for the last are enough.
pub scan_chunked_body-render :
    (before : Bytes) (cs : List (SizeLine × Bytes)) (last : SizeLine) (trailers : List Bytes)
    (rest : Bytes) (fuel : ℕ)
    → AreSized cs
    → IsSizeLine last 0
    → AreTrailers trailers
    → let wire = before ++ render_chunks (chunks_of cs) (render_end (line_of last) trailers rest) in
      length wire < size_mod
      → count (chunks_of cs) < fuel
      → scan_chunked_body fuel wire (length before)
        ≡ ChunkScan.complete
            (length
              (before ++ render_chunks (chunks_of cs) (render_end (line_of last) trailers [])))
            (payload (chunks_of cs))
scan_chunked_body-render before cs last trailers rest fuel h l t lt f =
    let behind = render_end (line_of last) trailers rest in
    let fits : length (render_chunks (chunks_of cs) behind) < size_mod =
      omega (arith, lt, length-append before (render_chunks (chunks_of cs) behind)) in
    scan_chunked_body-lines before (chunks_of cs) (line_of last) trailers rest fuel
      (chunks_of-AreChunks cs behind h fits) (line_of-free_of last 0 l)
      (size_of_line-line_of last 0 l (omega arith)) t lt f
