-- ===== src/Client/Replay.antt =====
-- When an exchange replays its request, and when it has succeeded.
use epoll_gateway.Base.{ℕ, Bool, true, false, not, ◌&&◌, List, [], ◌∷◌, ◌≡◌, arith}
use epoll_gateway.Base.Bytes.{Bytes, ascii}
use epoll_gateway.Base.Int.{ℤ, pos}
use epoll_gateway.Pool.Defs.{ConnectionPool}
use epoll_gateway.Client.Headers.{BackendError}
use epoll_gateway.Client.Request.{Params}
use epoll_gateway.Client.State.{
  Exchange, Phase, Turn, refresh_deadline, fail, new_exchange, make_error_response,
}
use epoll_gateway.Client.Run.{
  Round, Advanced, round, run, caught, error_of, advance, state_of, drive,
}
use epoll_gateway.Client.Safe.{implies, is_safe, Later, Step}
use epoll_gateway.Client.SafeTurns.{round-Step}

module _ (params : Params) (idempotent : Bool) (fuel : ℕ) where
  -- A call of `advance`: the state it leaves is safe, and an exception leaves only a replay.
  abbrev Outcome : Exchange → Advanced → Type 0
  Outcome x (Advanced.escapes x') =
      (is_safe idempotent x' ≡ true) × ((x'.retried && idempotent) ≡ true)
  Outcome x a =
      (is_safe idempotent (state_of a) ≡ true) × (implies x.retried (state_of a).retried ≡ true)

  run-Outcome :
      (turns : List Turn) (ev : Bool) (x : Exchange)
      → is_safe idempotent x ≡ true
      → x.retried ≡ true
      → Outcome x (run params idempotent fuel turns ev x)
  unfolding run
  run-Outcome [] ev x h r = ground arith
  run-Outcome (turn ∷ rest) ev x h r =
      after (round params idempotent fuel turn ev x) (round-Step params idempotent fuel turn ev x h)
        (run-Outcome rest false)
    where
      after :
          (a : Round)
          → Step idempotent x a
          → ((x' : Exchange)
              → is_safe idempotent x' ≡ true
              → x'.retried ≡ true
              → Outcome x' (run params idempotent fuel rest false x'))
          → Outcome x (elim a [
            | Round.goes_on x' ↦ run params idempotent fuel rest false x'
            | Round.wants want x' ↦ Advanced.returns want x'
            | Round.throws x' ↦ Advanced.escapes x'
            | Round.runs_on x' ↦ Advanced.runs_on x'
          ])
      after (Round.goes_on x') f ih =
          let marked : x'.retried ≡ true = ground arith in
          weaken (run params idempotent fuel rest false x') (ih x' f.0.0 marked)
        where
          weaken : (a : Advanced) → Outcome x' a → Outcome x a
          weaken a o = ground (arith)
      after (Round.wants want x') f ih = f
      after (Round.throws x') f ih = ground arith
      after (Round.runs_on x') f ih = f

  -- What `fail` leaves: a replay is marked.
  abbrev Failed : Exchange → Exchange × Bool → Type 0
  Failed x (x', replays) = Later idempotent x x' × (implies replays x'.retried ≡ true)

  fail-Failed :
      (turn : Turn) (error : BackendError) (status : ℤ) (body : Bytes) (x x' : Exchange)
      → Later idempotent x x'
      → x'.succeeded ≡ false
      → Failed x (fail params idempotent turn error status body x')
  unfolding fail refresh_deadline
  fail-Failed turn error status body x x' h u = ground arith

  caught-Outcome :
      (rest : List Turn) (x : Exchange) (failed : Exchange × Bool)
      → Failed x failed
      → Outcome x (caught params idempotent fuel rest failed)
  unfolding caught
  caught-Outcome rest x (x', true) h =
      weaken (run params idempotent fuel rest false x')
        (run-Outcome rest false x' h.0.0 (ground arith))
    where
      weaken : (a : Advanced) → Outcome x' a → Outcome x a
      weaken a o = ground arith
  caught-Outcome rest x (x', false) h = h.0

  advance-Outcome :
      (turns : List Turn) (ev : Bool) (x : Exchange)
      → is_safe idempotent x ≡ true
      → Outcome x (advance params idempotent fuel turns ev x)
  unfolding advance
  advance-Outcome [] ev x h = ground arith
  advance-Outcome (turn ∷ rest) ev x h =
      after (round params idempotent fuel turn ev x) (round-Step params idempotent fuel turn ev x h)
        (advance-Outcome rest false)
    where
      after :
          (a : Round)
          → Step idempotent x a
          → ((x' : Exchange)
              → is_safe idempotent x' ≡ true
              → Outcome x' (advance params idempotent fuel rest false x'))
          → Outcome x (elim a [
            | Round.goes_on x' ↦ advance params idempotent fuel rest false x'
            | Round.wants want x' ↦ Advanced.returns want x'
            | Round.throws x' ↦ caught params idempotent fuel rest (
                fail params idempotent turn
                  (error_of params idempotent fuel x'.phase)
                  (pos 502)
                  (ascii "Bad Gateway")
                  x')
            | Round.runs_on x' ↦ Advanced.runs_on x'
          ])
      after (Round.goes_on x') f ih =
          weaken (advance params idempotent fuel rest false x') (ih x' f.0.0)
        where
          weaken : (a : Advanced) → Outcome x' a → Outcome x a
          weaken a o = ground (arith, f)
      after (Round.wants want x') f ih = f
      after (Round.throws x') f ih = caught-Outcome rest x _ (fail-Failed turn _ _ _ x x' f.0 f.1)
      after (Round.runs_on x') f ih = f

  drive-Later :
      (calls : List (List Turn × Bool)) (x : Exchange)
      → is_safe idempotent x ≡ true
      → is_safe idempotent (drive params idempotent fuel calls x) ≡ true
  unfolding drive
  drive-Later [] x h = h
  drive-Later ((turns, ev) ∷ calls) x h =
      let a = advance params idempotent fuel turns ev x in
      drive-Later calls (state_of a) (safe a (advance-Outcome turns ev x h))
    where
      safe : (a : Advanced) → Outcome x a → is_safe idempotent (state_of a) ≡ true
      safe a o = ground arith

new_exchange-safe :
    (params : Params) (idempotent : Bool) (pool : ConnectionPool) (clock : ℕ)
    → is_safe idempotent (new_exchange params pool clock) ≡ true
unfolding new_exchange make_error_response
new_exchange-safe params idempotent pool clock = ground arith

-- After any calls of `advance` on a new exchange, whatever the system calls answer: if the request
-- has been replayed then it is idempotent, the exchange is no longer on a pooled connection and
-- stays off the pool; and if the exchange has succeeded then it is done and its result reports no
-- error.
pub drive-is_safe :
    (params : Params) (idempotent : Bool) (fuel clock : ℕ) (pool : ConnectionPool)
    (calls : List (List Turn × Bool))
    → is_safe idempotent (drive params idempotent fuel calls (new_exchange params pool clock))
      ≡ true
drive-is_safe params idempotent fuel clock pool calls =
    drive-Later params idempotent fuel calls _ (new_exchange-safe params idempotent pool clock)

-- After any calls of `advance` on a new exchange, a turn of the loop that leads to a new connection
-- attempt is the start of a replay: the request is idempotent, it had gone out on a pooled
-- connection, and it had not been replayed before.
pub round-replay :
    (params : Params) (idempotent : Bool) (fuel clock : ℕ) (pool : ConnectionPool)
    (calls : List (List Turn × Bool)) (turn : Turn) (ev : Bool) (x' : Exchange)
    → let x = drive params idempotent fuel calls (new_exchange params pool clock) in
      round params idempotent fuel turn ev x ≡ Round.goes_on x'
      → x'.phase ≡ Phase.connect
      → (idempotent && (x.used_pooled && (not x.retried && x'.retried))) ≡ true
round-replay params idempotent fuel clock pool calls turn ev x' e p =
    let x = drive params idempotent fuel calls (new_exchange params pool clock) in
    let step =
      round-Step params idempotent fuel turn ev x
        (drive-is_safe params idempotent fuel clock pool calls) in
    let marked = (rw e at step).1 in ground arith

-- After any calls of `advance` on a new exchange, an exception escapes from a call only while it
-- drives the replay of an idempotent request: every other exception is answered by `fail`.
pub advance-escapes :
    (params : Params) (idempotent : Bool) (fuel clock : ℕ) (pool : ConnectionPool)
    (calls : List (List Turn × Bool)) (turns : List Turn) (ev : Bool) (x' : Exchange)
    → advance params idempotent fuel turns ev
        (drive params idempotent fuel calls (new_exchange params pool clock))
      ≡ Advanced.escapes x'
    → (x'.retried && idempotent) ≡ true
advance-escapes params idempotent fuel clock pool calls turns ev x' e =
    let x = drive params idempotent fuel calls (new_exchange params pool clock) in
    let out =
      advance-Outcome params idempotent fuel turns ev x
        (drive-is_safe params idempotent fuel clock pool calls) in
    (rw e at out).1
