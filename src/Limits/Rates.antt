-- ===== src/Limits/Rates.antt =====
-- How many requests a limiter lets through.
use epoll_gateway.Base.{
  ℕ, ◌+◌, ◌-◌, ◌*◌, ◌≤◌, ◌<◌, List, [], ◌∷◌, ◌≡◌, refl, ◌∙◌, arith, if◌then◌else◌,
}
use epoll_gateway.Limits.Bucket.{RateLimiter, billion, create, refill, try_acquire}

-- The bucket never holds more than its capacity, and its fraction is below one token.
pub record IsValid (l : RateLimiter) : Type 0 where
  pub capped : l.tokens ≤ l.capacity
  pub fraction : l.tokens_fraction < billion

create-IsValid : (c r now : ℕ) → IsValid (create c r now)
unfolding create
create-IsValid c r now = omega arith

-- What the bucket is worth, in billionths of a token.
abbrev pub worth : RateLimiter → ℕ
worth l = l.tokens * billion + l.tokens_fraction

refill-worth :
    (l : RateLimiter) (now : ℕ)
    → worth (refill l now) ≤ worth l + (now - l.last_refill) * l.refill_per_second
unfolding refill
refill-worth l now = ground arith

refill-IsValid : (l : RateLimiter) (now : ℕ) → IsValid l → IsValid (refill l now)
unfolding refill
refill-IsValid l now v = ground arith

-- The calls of `try_acquire` at some times: the limiter afterwards, and how many were let through.
pub serve : RateLimiter → List ℕ → RateLimiter × ℕ
serve l [] = (l, 0)
serve l (now ∷ later) =
    let (l', allowed) = try_acquire l now in
    let (end, count) = serve l' later in (end, (if allowed then 1 else 0) + count)

-- The times do not run backwards.
abbrev pub Ordered : ℕ → List ℕ → Type 0
Ordered from [] = Unit {0}
Ordered from (now ∷ later) = (from ≤ now) × Ordered now later

abbrev pub last_of : ℕ → List ℕ → ℕ
last_of from [] = from
last_of from (now ∷ later) = last_of now later

refill_fields :
    (l : RateLimiter) (now : ℕ)
    → ((refill l now).last_refill ≡ now)
      × ((refill l now).refill_per_second ≡ l.refill_per_second)
      × ((refill l now).capacity ≡ l.capacity)
unfolding refill
refill_fields l now = (refl, refl, refl)

try_acquire_lem :
    (l : RateLimiter) (now : ℕ)
    → let (l', allowed) = try_acquire l now in
      (worth l' + (if allowed then 1 else 0) * billion
        ≤ worth l + (now - l.last_refill) * l.refill_per_second)
      × (l'.last_refill ≡ now)
      × (l'.refill_per_second ≡ l.refill_per_second)
unfolding try_acquire
try_acquire_lem l now = ground (arith, refill-worth l now, refill_fields l now)

pub try_acquire-IsValid : (l : RateLimiter) (now : ℕ) → IsValid l → IsValid (try_acquire l now).0
unfolding try_acquire
try_acquire-IsValid l now v = ground (arith, refill-IsValid l now v)

intervals : (a b c r : ℕ) → a ≤ b → b ≤ c → (b - a) * r + (c - b) * r ≡ (c - a) * r
intervals a b c r h k = let e : c - a ≡ (b - a) + (c - b) = omega arith in rw e (omega arith)

le-last_of : (from : ℕ) (times : List ℕ) → Ordered from times → from ≤ last_of from times
le-last_of from [] h = omega arith
le-last_of from (now ∷ later) h = omega (arith, h.0, le-last_of now later h.1)

paid_from :
    (l : RateLimiter) (now from rate : ℕ)
    → l.last_refill ≡ from
    → l.refill_per_second ≡ rate
    → worth (try_acquire l now).0 + (if (try_acquire l now).1 then 1 else 0) * billion
      ≤ worth l + (now - from) * rate
paid_from l now from rate e f = rw (← e, ← f) (try_acquire_lem l now).0

serve-worth :
    (times : List ℕ) (l : RateLimiter) (from rate : ℕ)
    → l.last_refill ≡ from
    → l.refill_per_second ≡ rate
    → Ordered from times
    → worth (serve l times).0 + (serve l times).1 * billion
      ≤ worth l + (last_of from times - from) * rate
unfolding serve
serve-worth [] l from rate e f h = omega arith
serve-worth (now ∷ later) l from rate e f h =
    let l' = (try_acquire l now).0 in
    let fields = try_acquire_lem l now in
    let paid = paid_from l now from rate e f in
    let rest = serve-worth later l' now rate fields.1 (fields.2 ∙ f) h.1 in
    omega (
      arith,
      paid,
      rest,
      intervals from now (last_of now later) rate h.0 (le-last_of now later h.1),
    )

serve-IsValid : (times : List ℕ) (l : RateLimiter) → IsValid l → IsValid (serve l times).0
unfolding serve
serve-IsValid [] l v = v
serve-IsValid (now ∷ later) l v =
    serve-IsValid later (try_acquire l now).0 (try_acquire-IsValid l now v)

-- However many requests come and whenever, those let through in an interval are at most the tokens
-- held at its start and those refilled in it, counted in billionths of a token, and what is left
-- in the bucket comes out of the same sum. The times do not run backwards.
pub serve-le-refill :
    (l : RateLimiter) (times : List ℕ)
    → IsValid l
    → Ordered l.last_refill times
    → ((serve l times).1 * billion
        ≤ worth l + (last_of l.last_refill times - l.last_refill) * l.refill_per_second)
      × IsValid (serve l times).0
serve-le-refill l times v h = (
  omega (arith, serve-worth times l l.last_refill l.refill_per_second refl refl h),
  serve-IsValid times l v,
)
