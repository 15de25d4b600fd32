-- ===== src/Upstream/Circuit.antt =====
-- One circuit of include/server/upstream_manager.h, and what `allow_request`, `record_success` and
-- `record_failure` do with it. Time is `steady_clock::now()` in nanoseconds, an argument of each
-- call. A count of failures does not reach the end of an `int`.
use epoll_gateway.Base.{ℕ, ◌+◌, ◌-◌, ◌/◌, Bool, true, false, not, ◌||◌, leb, if◌then◌else◌}
use epoll_gateway.Base.Int.{ℤ, pos, ltb_ℤ, at_least_one}

pub record CircuitState : Type 0 where
  pub consecutive_failures : ℕ
  pub opened_at : ℕ
  pub is_open : Bool
  pub half_open_probe : Bool

-- `CircuitState{}`.
abbrev pub closed : CircuitState
closed = record {
  consecutive_failures = 0;
  opened_at = 0;
  is_open = false;
  half_open_probe = false;
}

-- `duration_cast<milliseconds>(now - opened_at)`.
abbrev pub elapsed_ms : CircuitState → ℕ → ℕ
elapsed_ms s now = (now - s.opened_at) / 1000000

unfoldable pub allow : CircuitState → ℕ → ℤ → CircuitState × Bool
allow s now recovery_timeout_ms =
    if not s.is_open
    then (s, true)
    else if ltb_ℤ (pos (elapsed_ms s now)) recovery_timeout_ms || s.half_open_probe
    then (s, false)
    else (record s { half_open_probe = true }, true)

unfoldable pub succeed : CircuitState → CircuitState
succeed s = record s { consecutive_failures = 0; is_open = false; half_open_probe = false }

unfoldable pub fail : CircuitState → ℕ → ℤ → CircuitState
fail s now failure_threshold =
    let counted = record s {
      half_open_probe = false;
      consecutive_failures = s.consecutive_failures + 1;
    } in
    if leb (at_least_one failure_threshold) counted.consecutive_failures
    then record counted { is_open = true; opened_at = now }
    else counted
