-- ===== src/Handler/Draining.antt =====
-- A send queue whose client keeps reading is sent to its end.
use mathlib.Core.List.{append-nil}
use epoll_gateway.Base.{
  ap, sym, ◌++◌, ◌∙◌, ℕ, suc, ◌-◌, ◌≤◌, Bool, true, false, not, List, [], ◌∷◌, map, ◌≡◌, refl,
  arith, is_empty, length, length-append, length-drop, take, drop, min, all,
}
use epoll_gateway.Base.Bytes.{Bytes}
use epoll_gateway.Handler.Writing.{
  concat, WritevAnswer, Left, max_iov, drop_empty, take_off, drain, send_plain, send_plain_lem,
}

-- No chunk is empty.
abbrev pub are_filled : List Bytes → Bool
are_filled = all (λ chunk. not (is_empty chunk))

length-pos : (s : Bytes) → is_empty s ≡ false → 1 ≤ length s
length-pos [] h = cc
length-pos (c ∷ cs) h = omega arith

is_empty-length : (s : Bytes) → 1 ≤ length s → is_empty s ≡ false
is_empty-length [] h = absurd (omega arith)
is_empty-length (c ∷ cs) h = refl

take_off-filled :
    (n : ℕ) (queue : List Bytes) → are_filled queue ≡ true → are_filled (take_off n queue) ≡ true
unfolding take_off
take_off-filled n [] h = refl
take_off-filled n (front ∷ rest) h = ground (
  arith,
  take_off-filled (n - length front) rest,
  length-drop n front,
  is_empty-length (drop n front),
)

length-take_off :
    (n : ℕ) (queue : List Bytes) → length (concat (take_off n queue)) ≡ length (concat queue) - n
unfolding take_off
length-take_off n [] = omega arith
length-take_off n (front ∷ rest) = ground (
  arith,
  length-take_off (n - length front) rest,
  length-append front (concat rest),
  length-append (drop n front) (concat rest),
  length-drop n front,
)

gathered-pos :
    (chunk : Bytes) (rest : List Bytes)
    → is_empty chunk ≡ false
    → 1 ≤ length (concat (take max_iov (chunk ∷ rest)))
gathered-pos chunk rest h =
    omega (arith, length-pos chunk h, length-append chunk (concat (take 63 rest)))

drain-drained :
    (ns : List ℕ) (queue : List Bytes)
    → are_filled queue ≡ true
    → length (concat queue) ≤ length ns
    → let (written, queue', left) = drain (map WritevAnswer.wrote ns) queue in
      (queue' ≡ []) × (left ≡ Left.drained)
unfolding drain
drain-drained ns [] f h = (refl, refl)
drain-drained [] (chunk ∷ rest) f h =
    absurd (omega (arith, length-pos chunk (ground arith), length-append chunk (concat rest)))
drain-drained (n ∷ ns) (chunk ∷ rest) f h =
    let gathered = concat (take max_iov (chunk ∷ rest)) in
    let written = min (suc n) (length gathered) in
    let some_bytes = gathered-pos chunk rest (ground arith) in
    rw (is_empty-length gathered some_bytes) (
      drain-drained ns (take_off written (chunk ∷ rest)) (take_off-filled written (chunk ∷ rest) f)
        (omega (arith, length-take_off written (chunk ∷ rest))))

-- A queue of chunks that are not empty, on a connection whose every write takes at least a byte, is
-- sent to its end, after at most as many writes as there are bytes: every byte that was queued is
-- written, in its order, and nothing is left in the queue.
pub send_plain-drained :
    (ns : List ℕ) (queue : List Bytes)
    → are_filled queue ≡ true
    → length (concat queue) ≤ length ns
    → let (written, queue', left) = send_plain (map WritevAnswer.wrote ns) queue in
      (written ≡ concat queue) × (queue' ≡ []) × (left ≡ Left.drained)
send_plain-drained ns queue f h =
    let (written, queue', left) = send_plain (map WritevAnswer.wrote ns) queue in
    let over : (queue' ≡ []) × (left ≡ Left.drained) =
      unfold send_plain in rw (kept queue f) (drain-drained ns queue f h) in
    let all_written : written ++ concat queue' ≡ concat queue =
      send_plain_lem (map WritevAnswer.wrote ns) queue in
    (
      sym (append-nil written) ∙ ap (λ q. written ++ concat q) (sym over.0) ∙ all_written,
      over.0,
      over.1,
    )
  where
    kept : (queue : List Bytes) → are_filled queue ≡ true → drop_empty queue ≡ queue
    kept [] f = unfold drop_empty in refl
    kept (chunk ∷ rest) f = unfold drop_empty in (ground arith)
