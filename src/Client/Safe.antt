-- ===== src/Client/Safe.antt =====
-- When a state of an exchange is safe, and what a turn of the loop may do to it.
use epoll_gateway.Base.{Bool, true, false, not, ◌&&◌, ◌||◌, ◌≡◌}
use epoll_gateway.Client.Headers.{BackendError}
use epoll_gateway.Client.State.{Exchange, Phase}
use epoll_gateway.Client.Run.{Round}

abbrev pub is_connect : Phase → Bool
is_connect Phase.connect = true
is_connect _ = false

abbrev pub is_done : Phase → Bool
is_done Phase.done = true
is_done _ = false

abbrev pub is_no_error : BackendError → Bool
is_no_error BackendError.no_error = true
is_no_error _ = false

abbrev pub implies : Bool → Bool → Bool
implies a b = not a || b

-- A replay has been made for an idempotent request only, on a fresh connection; a success stands
-- at the end, and reports no error.
abbrev pub is_safe : Bool → Exchange → Bool
is_safe idempotent x =
    implies x.retried (idempotent && (not x.used_pooled && x.force_fresh))
    && implies x.succeeded (is_done x.phase && is_no_error x.result.error)

-- From one state to a later one: the mark of a replay stays.
abbrev pub Later : Bool → Exchange → Exchange → Type 0
Later idempotent x x' = (is_safe idempotent x' ≡ true) × (implies x.retried x'.retried ≡ true)

-- A turn that leads to Connect again is the start of the replay.
abbrev pub Step : Bool → Exchange → Round → Type 0
Step idempotent x (Round.goes_on x') =
    Later idempotent x x'
    × (implies (is_connect x'.phase)
          (idempotent && (x.used_pooled && (not x.retried && x'.retried)))
        ≡ true)
Step idempotent x (Round.wants want x') = Later idempotent x x'
Step idempotent x (Round.throws x') = Later idempotent x x' × (x'.succeeded ≡ false)
Step idempotent x (Round.runs_on x') = Later idempotent x x'

-- What a turn may change before it gives up, and before it goes on.
pub record Giving (idempotent : Bool) (x x' : Exchange) : Type 0 where
  pub same : x'.retried ≡ x.retried
  pub pooled : implies x'.used_pooled x.used_pooled ≡ true
  pub safe : implies x'.retried (idempotent && (not x'.used_pooled && x'.force_fresh)) ≡ true
  pub unsettled : x'.succeeded ≡ false

pub record Near (idempotent : Bool) (x x' : Exchange) : Type 0 where
  pub same : x'.retried ≡ x.retried
  pub pooled : implies x'.used_pooled x.used_pooled ≡ true
  pub safe : implies x'.retried (idempotent && (not x'.used_pooled && x'.force_fresh)) ≡ true
  pub unsettled : x'.succeeded ≡ false
  pub away : is_connect x'.phase ≡ false
