-- ===== src/Client/Chunked.antt =====
-- A body that a backend writes in chunks, scanned.
use mathlib.Core.List.{append_assoc, append-nil}
use epoll_gateway.Base.{
  ℕ, zero, suc, ◌+◌, ◌-◌, ◌*◌, ◌%◌, ◌≤◌, ◌<◌, Bool, true, false, not, List, [], ◌∷◌, ◌++◌, some,
  ◌≡◌, refl, sym, ap, ◌∙◌, arith, ◌==◌, ltb, is_empty, length, length-append, take, drop,
  drop-append, take-append, drop-add, length-drop,
}
use epoll_gateway.Base.Bytes.{Bytes, ascii, find_sub, eq_bytes, eq_bytes_refl}
use epoll_gateway.Base.Decimal.{free_of}
use epoll_gateway.Http.Message.{crlf}
use epoll_gateway.Http.Parser.State.{size_mod}
use epoll_gateway.Client.Chunks.{
  ChunkScan, size_of_line, skip_trailer, end_scan, scan_from, scan_chunked_body,
}
use epoll_gateway.Client.Scanning.{find_sub-line}

-- A chunk: its first line, and its data.
pub record Chunk : Type 0 where
  pub line : Bytes
  pub data_bytes : Bytes

pub record IsChunk (c : Chunk) : Type 0 where
  pub one_line : free_of b'\r' c.line ≡ true
  pub size : size_of_line c.line ≡ some (length c.data_bytes)
  pub filled : is_empty c.data_bytes ≡ false

abbrev pub AreChunks : List Chunk → Type 0
AreChunks [] = Unit {0}
AreChunks (c ∷ cs) = IsChunk c × AreChunks cs

-- The lines of a trailer section, each with something on it.
pub record IsTrailer (line : Bytes) : Type 0 where
  pub one_line : free_of b'\r' line ≡ true
  pub filled : is_empty line ≡ false

abbrev pub AreTrailers : List Bytes → Type 0
AreTrailers [] = Unit {0}
AreTrailers (line ∷ lines) = IsTrailer line × AreTrailers lines

-- On the wire: the chunks, the line of the last chunk, the trailers with the blank line that ends
-- them, and what follows.
abbrev pub render_trailers : List Bytes → Bytes → Bytes
render_trailers [] rest = b'\r' ∷ b'\n' ∷ rest
render_trailers (line ∷ lines) rest = line ++ (b'\r' ∷ b'\n' ∷ render_trailers lines rest)

abbrev pub render_end : Bytes → List Bytes → Bytes → Bytes
render_end last trailers rest = last ++ (b'\r' ∷ b'\n' ∷ render_trailers trailers rest)

abbrev pub render_chunks : List Chunk → Bytes → Bytes
render_chunks [] behind = behind
render_chunks (c ∷ cs) behind =
    c.line ++ (b'\r' ∷ b'\n' ∷ (c.data_bytes ++ (b'\r' ∷ b'\n' ∷ render_chunks cs behind)))

abbrev pub payload : List Chunk → Bytes
payload [] = []
payload (c ∷ cs) = c.data_bytes ++ payload cs

abbrev pub count : List Chunk → ℕ
count [] = 0
count (c ∷ cs) = suc (count cs)

length-render_trailers :
    (lines : List Bytes) (rest : Bytes)
    → length (render_trailers lines rest) ≡ length (render_trailers lines []) + length rest
length-render_trailers [] rest = omega arith
length-render_trailers (line ∷ lines) rest = omega (
  arith,
  length-append line (b'\r' ∷ b'\n' ∷ render_trailers lines rest),
  length-append line (b'\r' ∷ b'\n' ∷ render_trailers lines []),
  length-render_trailers lines rest,
)

-- The trailers are skipped, up to the blank line behind them.
skip_trailer-render :
    (fuel t : ℕ) (lines : List Bytes) (rest : Bytes)
    → AreTrailers lines
    → length (render_trailers lines []) ≤ fuel
    → skip_trailer fuel t (render_trailers lines rest)
      ≡ some (t + length (render_trailers lines []))
unfolding skip_trailer find_sub epoll_gateway.Base.Bytes.strip_prefix
skip_trailer-render zero t [] rest h f = absurd (omega arith)
skip_trailer-render zero t (line ∷ lines) rest h f =
    absurd (omega (arith, length-append line (b'\r' ∷ b'\n' ∷ render_trailers lines [])))
skip_trailer-render (suc fuel) t [] rest h f = refl
skip_trailer-render (suc fuel) t (line ∷ lines) rest h f =
    let behind = render_trailers lines rest in
    let whole = length-append line (b'\r' ∷ b'\n' ∷ render_trailers lines []) in
    let later =
      skip_trailer-render fuel (t + length line + 2) lines rest h.1 (omega (arith, whole)) in
    let ends : t + length line + 2 + length (render_trailers lines [])
        ≡ t + length (render_trailers (line ∷ lines) []) =
      omega (arith, whole) in
    rw (find_sub-line line behind h.0.one_line, skip_trailer, h.0.filled) (later ∙ ap some ends)

end_scan-render :
    (t : ℕ) (trailers : List Bytes) (rest decoded : Bytes)
    → AreTrailers trailers
    → end_scan t (render_trailers trailers rest) decoded
      ≡ ChunkScan.complete (t + length (render_trailers trailers [])) decoded
unfolding end_scan
end_scan-render t trailers rest decoded h =
    let tail = render_trailers trailers rest in
    let skipped =
      skip_trailer-render (suc (length tail)) t trailers rest h
        (omega (arith, length-render_trailers trailers rest)) in
    rw (skipped, end_scan) refl

scan_from-end :
    (last : Bytes) (trailers : List Bytes) (buf rest decoded : Bytes) (at fuel : ℕ)
    → free_of b'\r' last ≡ true
    → size_of_line last ≡ some 0
    → AreTrailers trailers
    → drop at buf ≡ render_end last trailers rest
    → scan_from (suc fuel) buf at decoded
      ≡ ChunkScan.complete (at + length (render_end last trailers [])) decoded
unfolding scan_from
scan_from-end last trailers buf rest decoded at fuel one size h e =
    let tail = render_trailers trailers rest in
    let found : find_sub crlf (drop at buf) ≡ some (last, tail) =
      ap (find_sub crlf) e ∙ find_sub-line last tail one in
    let ends : at + length last + 2 + length (render_trailers trailers [])
        ≡ at + length (render_end last trailers []) =
      omega (arith, length-append last (b'\r' ∷ b'\n' ∷ render_trailers trailers [])) in
    rw (found, scan_from, size)
      (end_scan-render (at + length last + 2) trailers rest decoded h
        ∙ ap (λ n. ChunkScan.complete n decoded) ends)

pub size_of_line-zero : size_of_line (ascii "0") ≡ some 0
unfolding size_of_line epoll_gateway.Client.Chunks.hex_size
    epoll_gateway.Http.Parser.Bodies.hex_digit epoll_gateway.Http.Parser.Bodies.cut_extension
    epoll_gateway.Base.Bytes.split_at
size_of_line-zero = refl

-- One chunk: the scan goes on behind it.
scan_from-chunk :
    (c : Chunk) (buf behind decoded : Bytes) (at next fuel : ℕ)
    → IsChunk c
    → drop at buf ≡ c.line ++ (b'\r' ∷ b'\n' ∷ (c.data_bytes ++ (b'\r' ∷ b'\n' ∷ behind)))
    → next ≡ at + length c.line + length c.data_bytes + 4
    → next ≤ length buf
    → length buf < size_mod
    → scan_from (suc fuel) buf at decoded ≡ scan_from fuel buf next (decoded ++ c.data_bytes)
unfolding scan_from
scan_from-chunk c buf behind decoded at next fuel h e k le lt =
    let size = length c.data_bytes in
    let tail = c.data_bytes ++ (b'\r' ∷ b'\n' ∷ behind) in
    let found : find_sub crlf (drop at buf) ≡ some (c.line, tail) =
      ap (find_sub crlf) e ∙ find_sub-line c.line tail h.one_line in
    let data_end = at + length c.line + 2 + size in
    let m1 : data_end % size_mod ≡ data_end = omega arith in
    let m2 : (at + length c.line + 2 + size + 2) % size_mod ≡ next = omega arith in
    let some_size : (size == 0) ≡ false = nonempty c.data_bytes h.filled in
    let n1 : ltb (length buf) next ≡ false = ground arith in
    let n2 : ltb (length buf) data_end ≡ false = ground arith in
    let closed : drop data_end buf ≡ b'\r' ∷ b'\n' ∷ behind =
      drop-add at (length c.line + 2 + size) data_end buf (omega arith)
      ∙ ap (drop (length c.line + 2 + size)) e
      ∙ drop-add (length c.line) (2 + size) (length c.line + 2 + size) _ (omega arith)
      ∙ ap (drop (2 + size)) (drop-append c.line (b'\r' ∷ b'\n' ∷ tail))
      ∙ drop-add 2 size (2 + size) _ refl
      ∙ drop-append c.data_bytes (b'\r' ∷ b'\n' ∷ behind) in
    let data_lem : take size tail ≡ c.data_bytes = take-append c.data_bytes _ in
    rw (found, scan_from, h.size, some_size, m1, m2, n1, n2, closed, eq_bytes_refl, data_lem) refl
  where
    nonempty : (s : Bytes) → is_empty s ≡ false → (length s == 0) ≡ false
    nonempty [] h = cc
    nonempty (x ∷ xs) h = ground arith

-- All the chunks: the scan goes on behind them, where what follows them stands.
scan_from-chunks :
    (cs : List Chunk) (buf behind decoded : Bytes) (at fuel : ℕ)
    → AreChunks cs
    → drop at buf ≡ render_chunks cs behind
    → length buf < size_mod
    → let next = at + length (render_chunks cs []) in
      (scan_from (count cs + fuel) buf at decoded ≡ scan_from fuel buf next (decoded ++ payload cs))
      × (drop next buf ≡ behind)
scan_from-chunks [] buf behind decoded at fuel h e lt =
    let same : at ≡ at + 0 = omega arith in
    let none_read : 0 + fuel ≡ fuel = omega arith in
    (
      ap (λ n. scan_from n buf at decoded) none_read
          ∙ ap (λ d. scan_from fuel buf at d) (sym (append-nil decoded))
          ∙ ap (λ n. scan_from fuel buf n (decoded ++ [])) same,
      ap (λ n. drop n buf) (sym same) ∙ e,
    )
scan_from-chunks (c ∷ cs) buf behind decoded at fuel h e lt =
    let then_on = render_chunks cs behind in
    let skip = length c.line + length c.data_bytes + 4 in
    let next = at + length c.line + length c.data_bytes + 4 in
    let room : next ≤ length buf = omega (
      arith,
      length-drop at buf,
      ap length e,
      length-append c.line (b'\r' ∷ b'\n' ∷ (c.data_bytes ++ (b'\r' ∷ b'\n' ∷ then_on))),
      length-append c.data_bytes (b'\r' ∷ b'\n' ∷ then_on),
    ) in
    let rest_lem : drop next buf ≡ then_on =
      drop-add at skip next buf (omega arith)
      ∙ ap (drop skip) e
      ∙ drop-add (length c.line) (2 + length c.data_bytes + 2) skip _ (omega arith)
      ∙ ap (drop (2 + length c.data_bytes + 2)) (drop-append c.line _)
      ∙ drop-add (2 + length c.data_bytes) 2 (2 + length c.data_bytes + 2) _ refl
      ∙ ap (drop 2) (
          drop-add 2 (length c.data_bytes) (2 + length c.data_bytes) _ refl
          ∙ drop-append c.data_bytes (b'\r' ∷ b'\n' ∷ then_on)) in
    let total : next + length (render_chunks cs []) ≡ at + length (render_chunks (c ∷ cs) []) =
      omega (
        arith,
        length-append c.line
            (b'\r' ∷ b'\n' ∷ (c.data_bytes ++ (b'\r' ∷ b'\n' ∷ render_chunks cs []))),
        length-append c.data_bytes (b'\r' ∷ b'\n' ∷ render_chunks cs []),
      ) in
    let rounds : suc (count cs) + fuel ≡ suc (count cs + fuel) = omega arith in
    let later =
      scan_from-chunks cs buf behind (decoded ++ c.data_bytes) next fuel h.1 rest_lem lt in
    (
      ap (λ n. scan_from n buf at decoded) rounds
          ∙ scan_from-chunk c buf then_on decoded at next (count cs + fuel) h.0 e refl room lt
          ∙ later.0
          ∙ ap (λ n. scan_from fuel buf n ((decoded ++ c.data_bytes) ++ payload cs)) total
          ∙ ap (scan_from fuel buf (at + length (render_chunks (c ∷ cs) [])))
              (append_assoc decoded c.data_bytes (payload cs)),
      ap (λ n. drop n buf) (sym total) ∙ later.1,
    )

length-render_chunks :
    (cs : List Chunk) (behind : Bytes)
    → length (render_chunks cs behind) ≡ length (render_chunks cs []) + length behind
length-render_chunks [] behind = omega arith
length-render_chunks (c ∷ cs) behind = omega (
  arith,
  length-append c.line
      (b'\r' ∷ b'\n' ∷ (c.data_bytes ++ (b'\r' ∷ b'\n' ∷ render_chunks cs behind))),
  length-append c.line (b'\r' ∷ b'\n' ∷ (c.data_bytes ++ (b'\r' ∷ b'\n' ∷ render_chunks cs []))),
  length-append c.data_bytes (b'\r' ∷ b'\n' ∷ render_chunks cs behind),
  length-append c.data_bytes (b'\r' ∷ b'\n' ∷ render_chunks cs []),
  length-render_chunks cs behind,
)

-- A body whose lines give the sizes of the chunks is scanned to its end. A round for each chunk and
-- one for the last are enough.
pub scan_chunked_body-lines :
    (before : Bytes) (cs : List Chunk) (last : Bytes) (trailers : List Bytes) (rest : Bytes)
    (fuel : ℕ)
    → AreChunks cs
    → free_of b'\r' last ≡ true
    → size_of_line last ≡ some 0
    → AreTrailers trailers
    → length (before ++ render_chunks cs (render_end last trailers rest)) < size_mod
    → count cs < fuel
    → scan_chunked_body fuel
        (before ++ render_chunks cs (render_end last trailers rest))
        (length before)
      ≡ ChunkScan.complete
          (length (before ++ render_chunks cs (render_end last trailers [])))
          (payload cs)
scan_chunked_body-lines before cs last trailers rest fuel h one size t lt f =
    let buf = before ++ render_chunks cs (render_end last trailers rest) in
    let all_chunks =
      scan_from-chunks cs buf (render_end last trailers rest) [] (length before)
        (suc (fuel - count cs - 1)) h (drop-append before _) lt in
    let enough : fuel ≡ count cs + suc (fuel - count cs - 1) = omega arith in
    let ends : length before + length (render_chunks cs []) + length (render_end last trailers [])
        ≡ length (before ++ render_chunks cs (render_end last trailers [])) =
      omega (
        arith,
        length-append before (render_chunks cs (render_end last trailers [])),
        length-render_chunks cs (render_end last trailers []),
      ) in
    ap (λ n. scan_from n buf (length before) []) enough
    ∙ all_chunks.0
    ∙ scan_from-end last trailers buf rest (payload cs) _ (fuel - count cs - 1) one size t
        all_chunks.1
    ∙ ap (λ n. ChunkScan.complete n (payload cs)) ends
