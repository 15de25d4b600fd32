-- ===== src/Client/Ends.antt =====
-- Each call of `advance` comes to an end.
use epoll_gateway.Base.{
  ℕ, suc, ◌+◌, ◌*◌, ◌≤◌, ◌<◌, Bool, true, false, List, [], ◌∷◌, ◌≡◌, inl, refl, arith, length,
}
use epoll_gateway.Base.Int.{ℤ, pos}
use epoll_gateway.Base.Bytes.{Bytes, ascii}
use epoll_gateway.Pool.Defs.{ConnectionPool}
use epoll_gateway.Client.Headers.{BackendError}
use epoll_gateway.Client.Request.{Params, build_request}
use epoll_gateway.Client.State.{Exchange, Turn, new_exchange, fail, refresh_deadline}
use epoll_gateway.Client.Run.{
  Round, Advanced, round, run, caught, error_of, advance, state_of, is_unfinished, drive,
}
use epoll_gateway.Client.Progress.{turns_left, request_length, IsBuilt, Forward, round-Forward}

-- The replay that `fail` starts has half of the turns left.
abbrev Replays : Params → Exchange → Exchange × Bool → Type 0
Replays params x (x', true) = IsBuilt params x' × (turns_left params x' < turns_left params x)
Replays params x (x', false) = IsBuilt params x'

module _ (params : Params) (idempotent : Bool) (fuel : ℕ) where
  fail-Replays :
      (turn : Turn) (error : BackendError) (status : ℤ) (body : Bytes) (x x' : Exchange)
      → IsBuilt params x'
      → x'.retried ≡ x.retried
      → Replays params x (fail params idempotent turn error status body x')
  unfolding fail IsBuilt refresh_deadline
  fail-Replays turn error status body x x' b s = ground arith

  abbrev Fine : ℕ → Exchange → Advanced → Type 0
  Fine n x a = IsBuilt params (state_of a) × (turns_left params x < n → is_unfinished a ≡ false)

  run-Fine :
      (turns : List Turn) (ev : Bool) (x : Exchange)
      → IsBuilt params x
      → Fine (length turns) x (run params idempotent fuel turns ev x)
  unfolding run
  run-Fine [] ev x b = (b, λ h. absurd (omega arith))
  run-Fine (turn ∷ rest) ev x b =
      after (round params idempotent fuel turn ev x)
        (round-Forward params idempotent fuel turn ev x b) (run-Fine rest false)
    where
      after :
          (r : Round)
          → Forward params x r
          → ((x' : Exchange)
              → IsBuilt params x'
              → Fine (length rest) x' (run params idempotent fuel rest false x'))
          → Fine (suc (length rest)) x (elim r [
            | Round.goes_on x' ↦ run params idempotent fuel rest false x'
            | Round.wants want x' ↦ Advanced.returns want x'
            | Round.throws x' ↦ Advanced.escapes x'
            | Round.runs_on x' ↦ Advanced.runs_on x'
          ])
      after (Round.goes_on x') f ih =
          let later = ih x' f.1 in (later.0, λ h. later.1 (omega (arith, f.0)))
      after (Round.wants want x') f ih = (f, λ h. refl)
      after (Round.throws x') f ih = (f.0, λ h. refl)
      after (Round.runs_on x') f ih = (f, λ h. refl)

  caught-Fine :
      (rest : List Turn) (x : Exchange) (failed : Exchange × Bool)
      → Replays params x failed
      → Fine (suc (length rest)) x (caught params idempotent fuel rest failed)
  unfolding caught
  caught-Fine rest x (x', true) (b, less) =
      let later = run-Fine rest false x' b in (later.0, λ h. later.1 (omega arith))
  caught-Fine rest x (x', false) b = (b, λ h. refl)

  advance-Fine :
      (turns : List Turn) (ev : Bool) (x : Exchange)
      → IsBuilt params x
      → Fine (length turns) x (advance params idempotent fuel turns ev x)
  unfolding advance
  advance-Fine [] ev x b = (b, λ h. absurd (omega arith))
  advance-Fine (turn ∷ rest) ev x b =
      after (round params idempotent fuel turn ev x)
        (round-Forward params idempotent fuel turn ev x b) (advance-Fine rest false)
    where
      after :
          (r : Round)
          → Forward params x r
          → ((x' : Exchange)
              → IsBuilt params x'
              → Fine (length rest) x' (advance params idempotent fuel rest false x'))
          → Fine (suc (length rest)) x (elim r [
            | Round.goes_on x' ↦ advance params idempotent fuel rest false x'
            | Round.wants want x' ↦ Advanced.returns want x'
            | Round.throws x' ↦ caught params idempotent fuel rest (
                fail params idempotent turn
                  (error_of params idempotent fuel x'.phase)
                  (pos 502)
                  (ascii "Bad Gateway")
                  x')
            | Round.runs_on x' ↦ Advanced.runs_on x'
          ])
      after (Round.goes_on x') f ih =
          let later = ih x' f.1 in (later.0, λ h. later.1 (omega (arith, f.0)))
      after (Round.wants want x') f ih = (f, λ h. refl)
      after (Round.throws x') f ih = caught-Fine rest x _ (fail-Replays turn _ _ _ x x' f.0 f.1)
      after (Round.runs_on x') f ih = (f, λ h. refl)

  drive-IsBuilt :
      (calls : List (List Turn × Bool)) (x : Exchange)
      → IsBuilt params x
      → IsBuilt params (drive params idempotent fuel calls x)
  unfolding drive
  drive-IsBuilt [] x b = b
  drive-IsBuilt ((turns, ev) ∷ calls) x b = drive-IsBuilt calls _ (advance-Fine turns ev x b).0

turns_left-bound :
    (params : Params) (x : Exchange)
    → turns_left params x < 2 * (request_length params + params.max_response_bytes + 7)
turns_left-bound params x = ground arith

-- Each call of `advance` ends: after any earlier calls on a new exchange, and whatever the system
-- calls answer, the loop of `run` goes round fewer than 2 * (n + m + 7) times, for a request of n
-- bytes and a response cap of m, before it returns, throws or meets a chunked body whose scan does
-- not end. A replay is counted in.
pub advance-ends :
    (params : Params) (idempotent : Bool) (fuel clock : ℕ) (pool : ConnectionPool)
    (calls : List (List Turn × Bool)) (turns : List Turn) (ev : Bool)
    → 2 * (length (build_request params) + params.max_response_bytes + 7) ≤ length turns
    → is_unfinished (
        advance params idempotent fuel turns ev
          (drive params idempotent fuel calls (new_exchange params pool clock)))
      ≡ false
unfolding new_exchange IsBuilt
advance-ends params idempotent fuel clock pool calls turns ev h =
    let x = drive params idempotent fuel calls (new_exchange params pool clock) in
    let b =
      drive-IsBuilt params idempotent fuel calls (new_exchange params pool clock) (inl refl) in
    (advance-Fine params idempotent fuel turns ev x b).1 (omega (arith, turns_left-bound params x))
