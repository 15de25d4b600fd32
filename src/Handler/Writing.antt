-- ===== src/Handler/Writing.antt =====
-- `handle_write`, phase 1: the send queue of a connection, in plaintext and over TLS.
use mathlib.Core.List.{append_assoc}
use epoll_gateway.Base.{
  ℕ, zero, suc, ◌-◌, ◌≤◌, true, List, [], ◌∷◌, ◌++◌, ◌≡◌, refl, sym, ap, ◌∙◌, inl, inr, arith, leb,
  ◌==◌, is_empty, length, take, drop, min, if◌then◌else◌, Bool-cases,
}
use epoll_gateway.Base.Bytes.{Bytes}

abbrev pub concat : List Bytes → Bytes
concat [] = []
concat (chunk ∷ rest) = chunk ++ concat rest

-- What `writev` answers: it takes `n + 1` bytes at most, or as many as it is given; or none, with
-- EAGAIN, EPIPE or another error.
pub data WritevAnswer : Type 0 where
  wrote : ℕ → WritevAnswer
  eagain epipe other : WritevAnswer

-- How the loop leaves the queue: empty, waiting for EPOLLOUT, the connection closed, or a throw,
-- which closes it too; `unfinished` is a loop that would write again.
pub data Left : Type 0 where
  drained waits closes throws unfinished : Left

abbrev pub max_iov : ℕ
max_iov = 64

-- `while (!queue.empty() && queue.front().empty()) queue.pop_front();`.
unfoldable pub drop_empty : List Bytes → List Bytes
drop_empty [] = []
drop_empty (chunk ∷ rest) = if is_empty chunk then drop_empty rest else chunk ∷ rest

-- The loop that takes the written bytes off the queue.
unfoldable pub take_off : ℕ → List Bytes → List Bytes
take_off left [] = []
take_off left (front ∷ rest) =
    let later = take_off (left - length front) rest in
    if left == 0
    then front ∷ rest
    else if leb (length front) left
    then later
    else drop left front ∷ rest

-- The bytes written, the queue that is left, and how. `writev` gets the first 64 chunks; given no
-- bytes it answers 0, which the code takes for an error.
unfoldable pub drain : List WritevAnswer → List Bytes → Bytes × List Bytes × Left
drain answers [] = ([], [], Left.drained)
drain [] (chunk ∷ rest) = ([], chunk ∷ rest, Left.unfinished)
drain (WritevAnswer.eagain ∷ answers) (chunk ∷ rest) = ([], chunk ∷ rest, Left.waits)
drain (WritevAnswer.epipe ∷ answers) (chunk ∷ rest) = ([], chunk ∷ rest, Left.closes)
drain (WritevAnswer.other ∷ answers) (chunk ∷ rest) = ([], chunk ∷ rest, Left.throws)
drain (WritevAnswer.wrote n ∷ answers) (chunk ∷ rest) =
    let gathered = concat (take max_iov (chunk ∷ rest)) in
    let written = min (suc n) (length gathered) in
    let (more, queue, left) = drain answers (take_off written (chunk ∷ rest)) in
    if is_empty gathered
    then ([], chunk ∷ rest, Left.throws)
    else (take written gathered ++ more, queue, left)

unfoldable pub send_plain : List WritevAnswer → List Bytes → Bytes × List Bytes × Left
unfolding drain
send_plain answers queue = drain answers (drop_empty queue)

concat-drop_empty : (queue : List Bytes) → concat (drop_empty queue) ≡ concat queue
unfolding drop_empty
concat-drop_empty [] = refl
concat-drop_empty ([] ∷ rest) = concat-drop_empty rest
concat-drop_empty ((c ∷ cs) ∷ rest) = refl

take-append-le : (n : ℕ) (xs ys : Bytes) → n ≤ length xs → take n (xs ++ ys) ≡ take n xs
take-append-le zero xs ys h = refl
take-append-le (suc n) [] ys h = absurd (omega arith)
take-append-le (suc n) (x ∷ xs) ys h = ap (λ t. x ∷ t) (take-append-le n xs ys (omega arith))

take-append-ge :
    (n : ℕ) (xs ys : Bytes) → length xs ≤ n → take n (xs ++ ys) ≡ xs ++ take (n - length xs) ys
take-append-ge n [] ys h = let e : n ≡ n - 0 = omega arith in ap (λ t. take t ys) e
take-append-ge zero (x ∷ xs) ys h = absurd (omega arith)
take-append-ge (suc n) (x ∷ xs) ys h =
    let e : n - length xs ≡ suc n - suc (length xs) = omega arith in
    ap (λ t. x ∷ t) (take-append-ge n xs ys (omega arith) ∙ ap (λ t. xs ++ take t ys) e)

take-drop : (n : ℕ) (xs ys : Bytes) → take n xs ++ (drop n xs ++ ys) ≡ xs ++ ys
take-drop zero xs ys = refl
take-drop (suc n) [] ys = refl
take-drop (suc n) (x ∷ xs) ys = ap (λ t. x ∷ t) (take-drop n xs ys)

take-nil : (n : ℕ) → take {A = ℕ} n [] ≡ []
take-nil zero = refl
take-nil (suc n) = refl

take_off_lem :
    (n : ℕ) (queue : List Bytes) → take n (concat queue) ++ concat (take_off n queue) ≡ concat queue
unfolding take_off
take_off_lem n [] = rw (take-nil n) refl
take_off_lem n (front ∷ rest) = elim (Bool-cases (n == 0)) [
  | inl nothing ↦ rw (nothing, none_taken n nothing) refl
  | inr some_left ↦ elim (Bool-cases (leb (length front) n)) [
    | inl whole ↦
        rw (some_left, whole, take-append-ge n front (concat rest) (ground arith))
          (append_assoc front (take (n - length front) (concat rest)) _
            ∙ ap (λ t. front ++ t) (take_off_lem (n - length front) rest))
    | inr part ↦
        rw (some_left, part, take-append-le n front (concat rest) (ground arith))
          (take-drop n front (concat rest))
  ]
]
  where
    none_taken : (n : ℕ) → (n == 0) ≡ true → take n (front ++ concat rest) ≡ []
    none_taken zero h = refl
    none_taken (suc n) h = absurd (ground arith)

concat-take :
    (k : ℕ) (queue : List Bytes) → concat (take k queue) ++ concat (drop k queue) ≡ concat queue
concat-take zero queue = refl
concat-take (suc k) [] = refl
concat-take (suc k) (chunk ∷ rest) =
    append_assoc chunk (concat (take k rest)) (concat (drop k rest))
    ∙ ap (λ t. chunk ++ t) (concat-take k rest)

-- A turn of the loop takes off the queue what it has written.
gather_lem :
    (n : ℕ) (queue : List Bytes)
    → let gathered = concat (take max_iov queue) in
      let written = min n (length gathered) in
      take written gathered ++ concat (take_off written queue) ≡ concat queue
gather_lem n queue =
    let gathered = concat (take max_iov queue) in
    let written = min n (length gathered) in
    let same : take written gathered ≡ take written (concat queue) =
      sym (take-append-le written gathered (concat (drop max_iov queue)) (omega arith))
      ∙ ap (take written) (concat-take max_iov queue) in
    rw same (take_off_lem written queue)

drain_lem :
    (answers : List WritevAnswer) (queue : List Bytes)
    → let (written, queue', left) = drain answers queue in written ++ concat queue' ≡ concat queue
unfolding drain
drain_lem answers [] = refl
drain_lem [] (chunk ∷ rest) = refl
drain_lem (WritevAnswer.eagain ∷ answers) (chunk ∷ rest) = refl
drain_lem (WritevAnswer.epipe ∷ answers) (chunk ∷ rest) = refl
drain_lem (WritevAnswer.other ∷ answers) (chunk ∷ rest) = refl
drain_lem (WritevAnswer.wrote n ∷ answers) (chunk ∷ rest) =
    let queue = chunk ∷ rest in
    let gathered = concat (take max_iov queue) in
    let written = min (suc n) (length gathered) in
    let (more, queue', left) = drain answers (take_off written queue) in
    elim (Bool-cases (is_empty gathered)) [
      | inl nothing ↦ rw nothing refl
      | inr some_bytes ↦ rw some_bytes (
          append_assoc (take written gathered) more (concat queue')
          ∙ ap (λ t. take written gathered ++ t) (drain_lem answers (take_off written queue))
          ∙ gather_lem (suc n) queue)
    ]

-- However many bytes each writev takes, and however the loop ends: the bytes written, in their
-- order, and then those that are left in the queue are exactly the bytes that were queued. Nothing
-- is lost, sent twice or reordered, also where a write ends inside a chunk or covers more than the
-- 64 chunks of one call.
pub send_plain_lem :
    (answers : List WritevAnswer) (queue : List Bytes)
    → let (written, queue', left) = send_plain answers queue in
      written ++ concat queue' ≡ concat queue
unfolding send_plain
send_plain_lem answers queue = drain_lem answers (drop_empty queue) ∙ concat-drop_empty queue
