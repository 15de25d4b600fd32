-- ===== src/Client/Scanning.antt =====
-- `scan_chunked_body`: finding the end of a line, and sizes near 2 ^ 64.
use epoll_gateway.Base.{
  ℕ, zero, suc, ◌+◌, ◌-◌, ◌*◌, ◌%◌, ◌≤◌, ◌<◌, Bool, true, false, not, ◌&&◌, List, [], ◌∷◌, ◌++◌,
  Option, none, some, ◌≡◌, refl, sym, ap, ◌∙◌, arith, ◌==◌, ltb, is_empty, length, length-append,
  take, drop, drop-append, take-append, drop-add, length-drop, all, if◌then◌else◌, Bool-cases,
  Option-cases, inl, inr,
}
use epoll_gateway.Base.Bytes.{
  Bytes, ascii, find_sub, strip_prefix, eq_bytes, eq_bytes_iff, eq_bytes_refl,
}
use epoll_gateway.Base.Decimal.{free_of}
use epoll_gateway.Http.Message.{crlf}
use epoll_gateway.Http.Parser.State.{size_mod}
use epoll_gateway.Http.Parser.Bodies.{hex_digit, cut_extension}
use epoll_gateway.Client.Chunks.{ChunkScan, hex_size, size_of_line, scan_from}

-- A line without a carriage return is found whole.
pub find_sub-line :
    (line behind : Bytes)
    → free_of b'\r' line ≡ true
    → find_sub crlf (line ++ (b'\r' ∷ b'\n' ∷ behind)) ≡ some (line, behind)
unfolding find_sub strip_prefix
find_sub-line [] behind h = refl
find_sub-line (c ∷ cs) behind h = ground (arith, find_sub-line cs behind)

-- 2 ^ 64 - 20 in hexadecimal.
abbrev pub wrapping_size : Bytes
wrapping_size = ascii "FFFFFFFFFFFFFFEC"

abbrev pub wrapping_response : Bytes → Bytes → Bytes
wrapping_response head rest = head ++ (b'\r' ∷ b'\n' ∷ (wrapping_size ++ (b'\r' ∷ b'\n' ∷ rest)))

size_of_line-wrapping : size_of_line wrapping_size ≡ some (size_mod - 20)
unfolding size_of_line hex_size hex_digit cut_extension epoll_gateway.Base.Bytes.split_at
size_of_line-wrapping = refl

drop-wrapping_response :
    (head rest : Bytes) (at : ℕ)
    → at ≡ length head + 2
    → drop at (wrapping_response head rest) ≡ wrapping_size ++ (b'\r' ∷ b'\n' ∷ rest)
drop-wrapping_response head rest at e =
    drop-add (length head) 2 at (wrapping_response head rest) e
    ∙ ap (drop 2) (drop-append head (b'\r' ∷ b'\n' ∷ (wrapping_size ++ (b'\r' ∷ b'\n' ∷ rest))))

-- Whatever stands before and after it, a chunk-size line `FFFFFFFFFFFFFFEC` behind a CRLF sends
-- the scan back to the same line: the position and the two bytes behind the chunk wrap around
-- 2 ^ 64, so the loop never ends, however many rounds it is given.
pub scan_from-wrapping :
    (head rest decoded : Bytes) (at fuel : ℕ)
    → at ≡ length head + 2
    → at + 20 < size_mod
    → scan_from fuel (wrapping_response head rest) at decoded ≡ ChunkScan.runs_on
unfolding scan_from
scan_from-wrapping head rest decoded at zero e h = refl
scan_from-wrapping head rest decoded at (suc fuel) e h =
    let buf = wrapping_response head rest in
    let found : find_sub crlf (drop at buf) ≡ some (wrapping_size, rest) =
      ap (find_sub crlf) (drop-wrapping_response head rest at e)
      ∙ find_sub-line wrapping_size rest refl in
    let back : (at + 16 + 2 + (size_mod - 20)) % size_mod ≡ length head = omega arith in
    let same : (at + 16 + 2 + (size_mod - 20) + 2) % size_mod ≡ at = omega arith in
    let bytes : take 2 (drop (length head) buf) ≡ crlf = ap (take 2) (drop-append head _) in
    let long : length buf ≡ length head + 2 + 16 + 2 + length rest =
      omega
        (arith, length-append head (b'\r' ∷ b'\n' ∷ (wrapping_size ++ (b'\r' ∷ b'\n' ∷ rest)))) in
    let n1 : ltb (length buf) at ≡ false = ground arith in
    let n2 : ltb (length buf) (length head) ≡ false = ground arith in
    rw (found, scan_from, size_of_line-wrapping, same, back, n1, n2, bytes, eq_bytes_refl)
      (scan_from-wrapping head rest (decoded ++ take (size_mod - 20) rest) at fuel e h)
