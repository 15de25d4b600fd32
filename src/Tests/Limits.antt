-- ===== src/Tests/Limits.antt =====
-- The limits (include/server/rate_limiter.h, rate_limiter_manager.h and connection_budget.h) on
-- concrete loads.
use epoll_gateway.Base.{◌+◌, ◌-◌, ◌*◌, ◌≤◌, [], ◌∷◌, none, some, ◌≡◌, refl, arith, if◌then◌else◌}
use epoll_gateway.Base.Bytes.{ascii, eq_bytes}
use epoll_gateway.Base.Table.{lookup, get_or}
use epoll_gateway.Limits.Bucket.{RateLimiter, billion, create, try_acquire}
use epoll_gateway.Limits.Rates.{IsValid, serve, worth, last_of, serve-le-refill}
use epoll_gateway.Limits.Clients.{
  RateLimiterManager, try_acquire_locked, is_idle, cleanup, try_acquire_locked_lem, lookup-cleanup,
}
use epoll_gateway.Limits.Budget
use epoll_gateway.Limits.Budget.{ConnectionBudget, Reach, Reach-IsValid}

abbrev limiter : RateLimiter
limiter = create 2 1 0

-- Three requests within a second on a bucket of two tokens.
serve-le-refill_example :
    ((serve limiter (1 ∷ 2 ∷ 500000000 ∷ [])).1 * billion
      ≤ worth limiter
        + (last_of limiter.last_refill (1 ∷ 2 ∷ 500000000 ∷ []) - limiter.last_refill)
          * limiter.refill_per_second)
    × IsValid (serve limiter (1 ∷ 2 ∷ 500000000 ∷ [])).0
unfolding create
serve-le-refill_example =
    serve-le-refill limiter (1 ∷ 2 ∷ 500000000 ∷ [])
      (record { capped = omega arith; fraction = omega arith })
      (omega arith, (omega arith, (omega arith, tt)))

abbrev clients : RateLimiterManager
clients = record {
  limiters = (ascii "a", limiter) ∷ [];
  last_used = (ascii "a", 0) ∷ [];
  default_config = record { capacity = 100; refill_per_second = 50 };
}

try_acquire_locked_lem_example :
    let config = clients.default_config in
    let (m', allowed) = try_acquire_locked clients (ascii "a") config 5 in
    let own =
      get_or
        (create config.capacity config.refill_per_second 5)
        (lookup (ascii "a") clients.limiters) in
    (allowed ≡ (try_acquire own 5).1)
    × (lookup (ascii "a") m'.limiters ≡ some (try_acquire own 5).0)
    × (lookup (ascii "a") m'.last_used ≡ some 5)
    × (lookup (ascii "b") m'.limiters ≡ (
        if eq_bytes (ascii "a") (ascii "b")
        then some (try_acquire own 5).0
        else lookup (ascii "b") clients.limiters))
try_acquire_locked_lem_example =
    try_acquire_locked_lem clients (ascii "a") (ascii "b") clients.default_config 5

lookup-cleanup_example : lookup (ascii "a") (cleanup clients 1 3000000000).limiters ≡ (
    if is_idle clients 1 3000000000 (ascii "a") then none else lookup (ascii "a") clients.limiters)
lookup-cleanup_example = lookup-cleanup clients 1 3000000000 (ascii "a")

-- Two tickets are held, and the limit is lowered to one before one of them is given back.
abbrev busy : ConnectionBudget
busy = record { in_use = 2; max = 2; workers = Budget.holding ∷ Budget.holding ∷ [] }

abbrev lowered : ConnectionBudget
lowered = record { in_use = 1; max = 1; workers = Budget.outside ∷ Budget.holding ∷ [] }

run : Reach 2 busy lowered
run =
    Budget.next (Budget.next Budget.here (Budget.set_limit 1 _ refl) (omega arith))
      (Budget.release 0 _ refl refl) (omega arith)

Reach-IsValid_example : Budget.IsValid 2 lowered
Reach-IsValid_example =
    Reach-IsValid 2
      (record { counted = refl; within = omega arith; limited = omega arith; below = refl }) run

-- One of two threads gets the only ticket.
abbrev start : ConnectionBudget
start = record { in_use = 0; max = 1; workers = Budget.outside ∷ Budget.outside ∷ [] }

abbrev taken : ConnectionBudget
taken = record { in_use = 1; max = 1; workers = Budget.holding ∷ Budget.outside ∷ [] }

one_ticket : Reach 1 start taken
one_ticket =
    Budget.next
      (Budget.next (Budget.next Budget.here (Budget.load 0 _ refl refl) (omega arith))
        (Budget.compare 0 0 _ refl (omega arith) refl) (omega arith))
      (Budget.exchange 0 0 _ refl refl refl) (omega arith)

-- A limit that is lowered between a comparison and its exchange does not stop the exchange.
abbrev late : ConnectionBudget
late = record { in_use = 1; max = 0; workers = Budget.holding ∷ Budget.outside ∷ [] }

late_ticket : Reach 1 start late
late_ticket =
    Budget.next
      (Budget.next
        (Budget.next (Budget.next Budget.here (Budget.load 0 _ refl refl) (omega arith))
          (Budget.compare 0 0 _ refl (omega arith) refl) (omega arith))
        (Budget.set_limit 0 _ refl) (omega arith))
      (Budget.exchange 0 0 _ refl refl refl) (omega arith)
