-- ===== src/Limits/Bucket.antt =====
-- `RateLimiter`. Time is `steady_clock::now()` in nanoseconds, an argument of each call. The
-- `double` that carries the fraction of a token is its exact value, in billionths of a token: the
-- rounding of floating point is not modelled. Sums of tokens wrap at 2^64.
use epoll_gateway.Base.{ℕ, ◌+◌, ◌-◌, ◌*◌, ◌/◌, ◌%◌, min, Bool, true, false, ltb, if◌then◌else◌}

pub record RateLimiter : Type 0 where
  pub capacity : ℕ
  pub refill_per_second : ℕ
  pub tokens : ℕ
  pub last_refill : ℕ
  pub tokens_fraction : ℕ

abbrev pub billion : ℕ
billion = 1000000000

-- The constructor.
unfoldable pub create : ℕ → ℕ → ℕ → RateLimiter
create capacity refill_per_second now = record {
  capacity = capacity;
  refill_per_second = refill_per_second;
  tokens = capacity;
  last_refill = now;
  tokens_fraction = 0;
}

abbrev token_mod : ℕ
token_mod = 18446744073709551616

-- The refill, `new_tokens` in billionths.
unfoldable pub refill : RateLimiter → ℕ → RateLimiter
refill l now =
    let new_tokens = (now - l.last_refill) * l.refill_per_second + l.tokens_fraction in
    let whole = new_tokens / billion in
    record l {
      last_refill = now;
      tokens_fraction = new_tokens - whole * billion;
      tokens = if ltb 0 whole then min l.capacity ((l.tokens + whole) % token_mod) else l.tokens;
    }

unfoldable pub try_acquire : RateLimiter → ℕ → RateLimiter × Bool
try_acquire l now =
    let refilled = refill l now in
    if ltb 0 refilled.tokens
    then (record refilled { tokens = refilled.tokens - 1 }, true)
    else (refilled, false)
