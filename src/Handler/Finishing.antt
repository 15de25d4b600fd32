-- ===== src/Handler/Finishing.antt =====
-- `finish_child`: what becomes of an exchange that is done, on a single route and in a composite.
use epoll_gateway.Base.{
  ℕ, suc, ◌+◌, ◌≤◌, Bool, true, false, ◌&&◌, List, [], ◌∷◌, ◌≡◌, refl, arith, ltb, if◌then◌else◌,
  min,
}
use epoll_gateway.Base.Bytes.{Bytes}
use epoll_gateway.Base.Int.{ℤ, pos, ltb_ℤ}
use epoll_gateway.Client.Headers.{
  BackendError, should_retry_backend_request, is_idempotent, is_transient_backend_error,
}

abbrev pub is_timeout : BackendError → Bool
is_timeout BackendError.connect_timeout = true
is_timeout BackendError.write_timeout = true
is_timeout BackendError.read_timeout = true
is_timeout _ = false

-- The exchange of a single route has failed: it is replayed with a new count of attempts, or the
-- client gets an error status.
pub data Failure : Type 0 where
  replays : ℕ → Failure
  answers : ℕ → Failure

unfoldable pub after_failure : Bytes → ℤ → BackendError → ℕ → Failure
after_failure method max_retries error attempt_count =
    if ltb_ℤ (pos attempt_count) max_retries
      && should_retry_backend_request method error attempt_count
    then Failure.replays (suc attempt_count)
    else Failure.answers (if is_timeout error then 504 else 502)

-- How many exchanges a request starts, when they fail with the errors of a list, one after the
-- other; what follows a success is not asked.
unfoldable pub tries : Bytes → ℤ → List BackendError → ℕ → ℕ
tries method max_retries [] attempt_count = 1
tries method max_retries (error ∷ errors) attempt_count =
    elim (after_failure method max_retries error attempt_count) [
      | Failure.answers code ↦ 1
      | Failure.replays again ↦ suc (tries method max_retries errors again)
    ]

tries_from :
    (method : Bytes) (n : ℕ) (errors : List BackendError) (a : ℕ)
    → let most = if is_idempotent method then min (suc n) 3 else 1 in
      a + tries method (pos n) errors a ≤ (if ltb a most then most else suc a)
unfolding tries after_failure should_retry_backend_request
tries_from method n [] a = ground arith
tries_from method n (error ∷ errors) a = ground (arith, tries_from method n errors (suc a))

-- The retries of a single route, whatever errors come: a request with an idempotent method makes at
-- most three tries, and at most one more than the route's max_retries; any other makes one. Three
-- is reached where the errors are transient and max_retries is 2 or more.
pub tries-bound :
    (method : Bytes) (n : ℕ) (errors : List BackendError) (first second : BackendError)
    → let transient = is_transient_backend_error first && is_transient_backend_error second in
      (tries method (pos n) errors 0 ≤ (if is_idempotent method then min (suc n) 3 else 1))
      × (tries method (pos (suc (suc n))) (first ∷ second ∷ errors) 0 ≡ (
          if is_idempotent method && transient
          then 3
          else if is_idempotent method && is_transient_backend_error first
          then 2
          else 1))
unfolding tries after_failure should_retry_backend_request
tries-bound method n errors first second =
    (ground (arith, tries_from method n errors 0), ground (arith, third errors))
  where
    third : (errors : List BackendError) → tries method (pos (suc (suc n))) errors 2 ≡ 1
    third [] = refl
    third (error ∷ errors) = ground arith
