-- ===== src/Client/Chunks.antt =====
-- `scan_chunked_body`. Positions are `size_t`; where a sum can wrap, it is written out.
use epoll_gateway.Base.{
  ℕ, zero, suc, ◌+◌, ◌-◌, ◌*◌, ◌%◌, ◌/◌, not, [], ◌∷◌, ◌++◌, Option, none, some, ◌==◌, ltb,
  is_empty, length, take, drop, if◌then◌else◌,
}
use epoll_gateway.Base.Bytes.{Bytes, eq_bytes, find_sub}
use epoll_gateway.Http.Message.{crlf}
use epoll_gateway.Http.Parser.State.{size_mod}
use epoll_gateway.Http.Parser.Bodies.{hex_digit, cut_extension}

-- `ChunkScan`, with what `body_end` and `decoded` hold on `Complete`. `throws` stands for the
-- `out_of_range` of `compare`, and `runs_on` for a loop that has not ended on the fuel given.
pub data ChunkScan : Type 0 where
  incomplete error throws runs_on : ChunkScan
  complete : ℕ → Bytes → ChunkScan

-- The loop over the hex digits: `size > (SIZE_MAX >> 4)` keeps the next digit from wrapping.
unfoldable pub hex_size : ℕ → Bytes → Option ℕ
hex_size size [] = some size
hex_size size (c ∷ cs) = elim (hex_digit c) [
  | none ↦ none
  | some d ↦
      if ltb ((size_mod - 1) / 16) size then none else hex_size ((size * 16 + d) % size_mod) cs
]

-- The size that a chunk's first line gives; `none` is an error.
unfoldable pub size_of_line : Bytes → Option ℕ
size_of_line line = let hex = cut_extension line in if is_empty hex then none else hex_size 0 hex

-- The trailer section: what stands at `t`, up to the empty line.
unfoldable pub skip_trailer : ℕ → ℕ → Bytes → Option ℕ
skip_trailer zero t tail = none
skip_trailer (suc fuel) t tail = elim (find_sub crlf tail) [
  | none ↦ none
  | some (line, behind) ↦
      if is_empty line then some (t + 2) else skip_trailer fuel (t + length line + 2) behind
]

unfoldable pub end_scan : ℕ → Bytes → Bytes → ChunkScan
end_scan t tail decoded = elim (skip_trailer (suc (length tail)) t tail) [
  | none ↦ ChunkScan.incomplete
  | some body_end ↦ ChunkScan.complete body_end decoded
]

unfoldable pub scan_from : ℕ → Bytes → ℕ → Bytes → ChunkScan
scan_from zero buf at decoded = ChunkScan.runs_on
scan_from (suc fuel) buf at decoded = elim (find_sub crlf (drop at buf)) [
  | none ↦ ChunkScan.incomplete
  | some (line, behind) ↦ elim (size_of_line line) [
    | none ↦ ChunkScan.error
    | some size ↦
        let data_at = at + length line + 2 in
        let data_end = (data_at + size) % size_mod in
        let next = (data_at + size + 2) % size_mod in
        let goes_on = scan_from fuel buf next (decoded ++ take size behind) in
        if size == 0
        then end_scan data_at behind decoded
        else if ltb (length buf) next
        then ChunkScan.incomplete
        else if ltb (length buf) data_end
        then ChunkScan.throws
        else if not (eq_bytes (take 2 (drop data_end buf)) crlf)
        then ChunkScan.error
        else goes_on
  ]
]

abbrev pub scan_chunked_body : ℕ → Bytes → ℕ → ChunkScan
scan_chunked_body fuel buf body_start = scan_from fuel buf body_start []
