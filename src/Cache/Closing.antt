-- ===== src/Cache/Closing.antt =====
-- No descriptor is lost, and none is closed twice: each one that the cache was given is open in it
-- or was closed, as often as it was given.
use epoll_gateway.Base.{
  ℕ, zero, suc, ◌+◌, ◌<◌, true, false, List, [], ◌∷◌, ◌++◌, some, ◌≡◌, refl, ◌∙◌, inl, inr, arith,
  length, leb, ◌==◌, if◌then◌else◌, Option-cases, Bool-cases,
}
use epoll_gateway.Base.Bytes.{Bytes, eq_bytes_iff, eq_bytes_refl}
use epoll_gateway.Base.Table.{
  Table, lookup, erase, is_some, distinct, lookup-erase, distinct-erase, erase-absent,
}
use epoll_gateway.Cache.Descriptors.{
  CachedFd, FdCache, try_get, validate, take_back, evict, fds, clear,
}

-- How often a descriptor stands in a list.
abbrev pub count : ℕ → List ℕ → ℕ
count n [] = 0
count n (x ∷ xs) = (if x == n then 1 else 0) + count n xs

-- Open in the cache, or closed by it.
abbrev pub accounted : ℕ → FdCache → ℕ
accounted n c = count n (fds c.list) + count n c.closed

count-append : (n : ℕ) (xs ys : List ℕ) → count n (xs ++ ys) ≡ count n xs + count n ys
count-append n [] ys = omega arith
count-append n (x ∷ xs) ys = omega (arith, count-append n xs ys)

pub count-erase :
    (n : ℕ) (path : Bytes) (entry : CachedFd) (t : Table CachedFd)
    → distinct t ≡ true
    → lookup path t ≡ some entry
    → count n (fds (erase path t)) + (if entry.fd == n then 1 else 0) ≡ count n (fds t)
unfolding distinct lookup erase
count-erase n path entry [] d e = cc (e)
count-erase n path entry ((j, w) ∷ t) d e =
    ground (arith, eq_bytes_iff j path, erase-absent path t, count-erase n path entry t)

-- The operations that look a path up lose no descriptor and close none twice, and keep every path
-- in the cache at most once. `clear` leaves no entry, and has then closed each descriptor as often
-- as it was open or closed before.
pub lookups_accounted :
    (c : FdCache) (path : Bytes) (mtime now n : ℕ)
    → distinct c.list ≡ true
    → (accounted n (try_get c path now).0 ≡ accounted n c)
      × (distinct (try_get c path now).0.list ≡ true)
      × (accounted n (validate c path mtime now).0 ≡ accounted n c)
      × (distinct (validate c path mtime now).0.list ≡ true)
      × ((clear c).list ≡ [])
      × (count n (clear c).closed ≡ accounted n c)
unfolding try_get validate clear lookup distinct
lookups_accounted c path mtime now n d = elim (Option-cases (lookup path c.list)) [
  | inl e ↦ ground (arith, count-append n (fds c.list) c.closed)
  | inr (entry, e) ↦
      let counted = count-erase n path entry c.list d e in
      ground (
        arith,
        counted,
        lookup-erase path path c.list,
        eq_bytes_refl path,
        distinct-erase path c.list,
        count-append n (fds c.list) c.closed,
      )
]

-- All entries but the last, and the last.
record Taken (path : Bytes) (n : ℕ) (t kept : Table CachedFd) (entry : CachedFd) : Type 0 where
  shorter : length kept + 1 ≡ length t
  counted : count n (fds kept) + (if entry.fd == n then 1 else 0) ≡ count n (fds t)
  once : distinct t ≡ true → distinct kept ≡ true
  absent : is_some (lookup path t) ≡ false → is_some (lookup path kept) ≡ false

take_back-absent :
    (q : Bytes) (t kept : Table CachedFd) (entry : CachedFd)
    → take_back t ≡ some (kept, entry)
    → is_some (lookup q t) ≡ false
    → is_some (lookup q kept) ≡ false
unfolding take_back lookup
take_back-absent q [] kept entry e h = cc (e)
take_back-absent q ((path, w) ∷ []) kept entry e h = ground arith
take_back-absent q ((path, w) ∷ y ∷ t) kept entry e h = elim (Option-cases (take_back (y ∷ t))) [
  | inl f ↦ cc (e, f)
  | inr ((kept', entry'), f) ↦ ground (arith, take_back-absent q (y ∷ t) kept' entry' f)
]

take_back_lem :
    (path : Bytes) (n : ℕ) (x : Bytes × CachedFd) (t : Table CachedFd)
    → (kept : Table CachedFd) × (entry : CachedFd) × (take_back (x ∷ t) ≡ some (kept, entry))
      × Taken path n (x ∷ t) kept entry
unfolding take_back distinct lookup
take_back_lem path n x [] = (
  [],
  x.1,
  refl,
  record { shorter = omega arith; counted = omega arith; once = λ d. refl; absent = λ h. refl },
)
take_back_lem path n x (y ∷ t) =
    let (kept, entry, e, h) = take_back_lem path n y t in
    let gone = take_back-absent x.0 (y ∷ t) kept entry e in
    (
      x ∷ kept,
      entry,
      rw e refl,
      record {
        shorter = omega (arith, h.shorter);
        counted = omega (arith, h.counted);
        once = λ d. ground (arith, gone, h.once);
        absent = λ f. ground (arith, h.absent);
      },
    )

-- What the eviction leaves: room for an entry, and every descriptor accounted for.
pub record Evicted (path : Bytes) (n : ℕ) (c c' : FdCache) : Type 0 where
  pub room : length c'.list < c.max_entries
  pub same_max : c'.max_entries ≡ c.max_entries
  pub same_count : accounted n c' ≡ accounted n c
  pub once : distinct c'.list ≡ true
  pub absent : is_some (lookup path c'.list) ≡ false

pub evict_lem :
    (fuel : ℕ) (path : Bytes) (n : ℕ) (c : FdCache) (t : Table CachedFd)
    → c.list ≡ t
    → length t < fuel
    → 0 < c.max_entries
    → distinct t ≡ true
    → is_some (lookup path t) ≡ false
    → (c' : FdCache) × (evict fuel c ≡ some c') × Evicted path n c c'
unfolding evict
evict_lem zero path n c t l h r d a = absurd (omega arith)
evict_lem (suc fuel) path n c [] l h r d a = (
  c,
  rw l (ground arith),
  record { room = rw l r; same_max = refl; same_count = refl; once = rw l d; absent = rw l a },
)
evict_lem (suc fuel) path n c (x ∷ t) l h r d a =
    elim (Bool-cases (leb c.max_entries (length (x ∷ t)))) [
      | inr roomy ↦ (
        c,
        rw (evict, l, roomy) refl,
        record {
          room = rw l (ground arith);
          same_max = refl;
          same_count = refl;
          once = rw l d;
          absent = rw l a;
        },
      )
      | inl full ↦
          let (kept, entry, e, k) = take_back_lem path n x t in
          let next : FdCache = record c { list = kept; closed = entry.fd ∷ c.closed } in
          let (c', f, v) =
            evict_lem fuel path n next kept refl (omega (arith, k.shorter)) r (k.once d)
              (k.absent a) in
          let counted : accounted n next ≡ accounted n c = rw l (omega (arith, k.counted)) in
          (
            c',
            rw (evict, l, full, e) f,
            record {
              room = v.room;
              same_max = v.same_max;
              same_count = v.same_count ∙ counted;
              once = v.once;
              absent = v.absent;
            },
          )
    ]
