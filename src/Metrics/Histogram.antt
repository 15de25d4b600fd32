-- ===== src/Metrics/Histogram.antt =====
-- What the histogram of durations and the counters of status classes hold after any requests.
use epoll_gateway.Base.{
  ℕ, suc, ◌%◌, Bool, true, List, [], ◌∷◌, ◌≡◌, refl, ap, ◌∙◌, arith, leb, if◌then◌else◌, Bool-cases,
  inl, inr,
}
use epoll_gateway.Metrics.Counters.{
  Counts, no_counts, count_mod, fetch_add_one, record_request, record_buckets, record_class,
  has_class, bucket_boundaries,
}

-- The requests recorded, the last one first, by status code and duration.
abbrev pub record_all : List (ℕ × ℕ) → Counts
record_all [] = no_counts
record_all (request ∷ before) = record_request request.0 request.1 (record_all before)

abbrev pub tally {ℓ} : {A : Type ℓ} → (A → Bool) → List A → ℕ
tally p [] = 0
tally p (x ∷ xs) = let rest = tally p xs in if p x then suc rest else rest

-- How many of the requests pass a test, as a counter of 64 bits shows it.
abbrev pub shown : (ℕ × ℕ → Bool) → List (ℕ × ℕ) → ℕ
shown p requests = tally p requests % count_mod

-- For each boundary, the requests that took at most as long; for the last bucket, all of them.
abbrev pub cumulative : List ℕ → List (ℕ × ℕ) → List ℕ
cumulative [] requests = shown (λ r. true) requests ∷ []
cumulative (bound ∷ bounds) requests =
    shown (λ r. leb r.1 bound) requests ∷ cumulative bounds requests

shown-next :
    (p : ℕ × ℕ → Bool) (r : ℕ × ℕ) (rs : List (ℕ × ℕ))
    → (if p r then fetch_add_one (shown p rs) else shown p rs) ≡ shown p (r ∷ rs)
unfolding fetch_add_one
shown-next p r rs = elim (Bool-cases (p r)) [
  | inl counted ↦ rw counted (omega arith)
  | inr passed ↦ rw passed refl
]

record_buckets-cumulative :
    (bounds : List ℕ) (r : ℕ × ℕ) (rs : List (ℕ × ℕ))
    → record_buckets bounds r.1 (cumulative bounds rs) ≡ cumulative bounds (r ∷ rs)
unfolding record_buckets
record_buckets-cumulative [] r rs = ap (λ n. n ∷ []) (shown-next (λ r. true) r rs)
record_buckets-cumulative (bound ∷ bounds) r rs =
    ap (λ n. n ∷ record_buckets bounds r.1 (cumulative bounds rs))
      (shown-next (λ r. leb r.1 bound) r rs)
    ∙ ap (λ ns. shown (λ r. leb r.1 bound) (r ∷ rs) ∷ ns) (record_buckets-cumulative bounds r rs)

record_class-duration_buckets :
    (s : ℕ) (c : Counts) → (record_class s c).duration_buckets ≡ c.duration_buckets
unfolding record_class
record_class-duration_buckets s c = ground arith

abbrev pub in_class : ℕ → ℕ → ℕ × ℕ → Bool
in_class low high request = has_class low high request.0

abbrev ticked : Bool → ℕ → ℕ
ticked counts n = if counts then fetch_add_one n else n

-- The four ranges of the source do not overlap, so the order of its tests does not matter.
record_class_lem :
    (s : ℕ) (c : Counts)
    → let after = record_class s c in
      (after.requests_2xx ≡ ticked (has_class 200 300 s) c.requests_2xx)
      × ((after.requests_3xx ≡ ticked (has_class 300 400 s) c.requests_3xx)
          × ((after.requests_4xx ≡ ticked (has_class 400 500 s) c.requests_4xx)
              × ((after.requests_5xx ≡ ticked (leb 500 s) c.requests_5xx)
                  × (after.duration_count ≡ c.duration_count))))
unfolding record_class
record_class_lem s c = (ground arith, (ground arith, (ground arith, (ground arith, ground arith))))

-- Modulo 2 ^ 64, each counter of a status class is the number of requests of that class, and
-- duration_count that of all requests.
pub record_all-classes :
    (requests : List (ℕ × ℕ))
    → let c = record_all requests in
      (c.requests_2xx ≡ shown (in_class 200 300) requests)
      × ((c.requests_3xx ≡ shown (in_class 300 400) requests)
          × ((c.requests_4xx ≡ shown (in_class 400 500) requests)
              × ((c.requests_5xx ≡ shown (λ r. leb 500 r.0) requests)
                  × (c.duration_count ≡ shown (λ r. true) requests))))
unfolding record_request
record_all-classes [] = (refl, (refl, (refl, (refl, refl))))
record_all-classes (r ∷ rs) =
    let here = record_class_lem r.0 (record_all rs) in
    let before = record_all-classes rs in
    let step : (p : ℕ × ℕ → Bool) (n old : ℕ)
        → n ≡ ticked (p r) old
        → old ≡ shown p rs
        → n ≡ shown p (r ∷ rs) =
      λ p n old e f. e ∙ (ap (ticked (p r)) f ∙ shown-next p r rs) in
    (
      step (in_class 200 300) _ _ here.0 before.0,
      (
        step (in_class 300 400) _ _ here.1.0 before.1.0,
        (
          step (in_class 400 500) _ _ here.1.1.0 before.1.1.0,
          (
            step (λ r. leb 500 r.0) _ _ here.1.1.1.0 before.1.1.1.0,
            step (λ r. true) _ _ (ap fetch_add_one here.1.1.1.1) before.1.1.1.1,
          ),
        ),
      ),
    )

-- After any requests, each bucket of the histogram counts those that took at most as long as its
-- boundary, and the last one counts all, modulo 2 ^ 64.
pub record_all-cumulative :
    (requests : List (ℕ × ℕ))
    → (record_all requests).duration_buckets ≡ cumulative bucket_boundaries requests
unfolding record_request
record_all-cumulative [] = refl
record_all-cumulative (r ∷ rs) =
    ap (record_buckets bucket_boundaries r.1)
      (record_class-duration_buckets r.0 (record_all rs) ∙ record_all-cumulative rs)
    ∙ record_buckets-cumulative bucket_boundaries r rs
