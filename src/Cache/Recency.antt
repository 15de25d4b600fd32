-- ===== src/Cache/Recency.antt =====
-- What the file cache keeps: every path once, no more entries than allowed, and of a full cache all
-- but the entry that was used least recently.
use epoll_gateway.Base.{
  ℕ, ◌≤◌, ◌<◌, true, false, not, ◌&&◌, [], ◌∷◌, ◌++◌, Option, none, some, ◌≡◌, ◌⊎◌, inl, inr, refl,
  ◌∙◌, ap, arith, length, length-append, ltb, leb, if◌then◌else◌, Option-cases, Bool-cases,
}
use epoll_gateway.Base.Bytes.{Bytes, eq_bytes, eq_bytes_iff, eq_bytes_refl}
use epoll_gateway.Base.Table.{
  Table, lookup, erase, is_some, lookup-erase, distinct, distinct-erase, length-erase,
}
use epoll_gateway.Cache.Files.{CacheEntry, FileCache, to_front, is_fresh, get, pop_back, put}

pub record IsValid (c : FileCache) : Type 0 where
  pub once : distinct c.list ≡ true
  pub within : length c.list ≤ c.max_entries

-- `get` with the answer, before the cache moves its entry.
abbrev pub answer : ℕ → Option CacheEntry → Option Bytes
answer file_mtime none = none
answer file_mtime (some e) = if is_fresh file_mtime e then some e.content else none

-- `get` answers with the content stored for the path if its time of modification is the file's, or
-- is not asked for, and with nothing otherwise. It forgets a stale entry and no other: every
-- other path, and the path itself if its entry is fresh, keeps what is stored for it. The cache
-- stays valid.
pub get_lem :
    (c : FileCache) (path other : Bytes) (file_mtime : ℕ)
    → IsValid c
    → let (c', result) = get c path file_mtime in
      IsValid c'
      × (result ≡ answer file_mtime (lookup path c.list))
      × (lookup other c'.list ≡ (
          if eq_bytes path other && not (is_some (answer file_mtime (lookup path c.list)))
          then none
          else lookup other c.list))
unfolding get lookup distinct
get_lem c path other file_mtime v = ground (
  arith,
  eq_bytes_iff path other,
  eq_bytes_refl path,
  lookup-erase path other c.list,
  lookup-erase path path c.list,
  distinct-erase path c.list,
  length-erase path c.list,
)

-- The entries but the last, which goes.
pub record Popped (list kept : Table CacheEntry) : Type 0 where
  pub path : Bytes
  pub entry : CacheEntry
  pub splits : list ≡ kept ++ (path, entry) ∷ []

pop_back_lem :
    (x : Bytes × CacheEntry) (list : Table CacheEntry)
    → (kept : Table CacheEntry) × (pop_back (x ∷ list) ≡ some kept) × Popped (x ∷ list) kept
unfolding pop_back
pop_back_lem x [] = ([], refl, record { path = x.0; entry = x.1; splits = refl })
pop_back_lem x (y ∷ list) =
    let (kept, e, p) = pop_back_lem y list in
    (x ∷ kept, rw e refl, record { path = p.path; entry = p.entry; splits = ap (◌∷◌ x) p.splits })

lookup-append_last :
    (q path : Bytes) (entry : CacheEntry) (kept : Table CacheEntry)
    → lookup q (kept ++ (path, entry) ∷ []) ≡ (
        if is_some (lookup q kept)
        then lookup q kept
        else if eq_bytes path q
        then some entry
        else none)
unfolding lookup
lookup-append_last q path entry [] = refl
lookup-append_last q path entry ((j, w) ∷ kept) =
    ground (arith, lookup-append_last q path entry kept)

lookup-Popped :
    {list kept : Table CacheEntry} (q : Bytes) (p : Popped list kept)
    → lookup q list ≡ (
        if is_some (lookup q kept)
        then lookup q kept
        else if eq_bytes p.path q
        then some p.entry
        else none)
lookup-Popped {kept} q p = ap (lookup q) p.splits ∙ lookup-append_last q p.path p.entry kept

distinct-append_last :
    (path : Bytes) (entry : CacheEntry) (kept : Table CacheEntry)
    → distinct (kept ++ (path, entry) ∷ []) ≡ true
    → (distinct kept ≡ true) × (lookup path kept ≡ none)
unfolding distinct lookup
distinct-append_last path entry [] d = (refl, refl)
distinct-append_last path entry ((j, w) ∷ kept) d = ground (
  arith,
  eq_bytes_iff path j,
  eq_bytes_iff j path,
  lookup-append_last j path entry kept,
  distinct-append_last path entry kept,
)

-- The entry that a full cache gives up for a new path: the one behind all others.
pub record GivenUp (c : FileCache) (path other : Bytes) : Type 0 where
  pub full : c.max_entries ≤ length c.list
  pub absent : lookup path c.list ≡ none
  pub before : Table CacheEntry
  pub entry : CacheEntry
  pub last : c.list ≡ before ++ (other, entry) ∷ []

-- A path was stored: it stands in front, and every other path is kept, or was the last of a full
-- cache.
pub record Stored (c c' : FileCache) (path : Bytes) (entry : CacheEntry) : Type 0 where
  pub valid : IsValid c'
  pub rest : Table CacheEntry
  pub in_front : c'.list ≡ (path, entry) ∷ rest
  pub others :
      (other : Bytes)
      → eq_bytes path other ≡ false
      → (lookup other c'.list ≡ lookup other c.list) ⊎ GivenUp c path other

abbrev pub new_entry : Bytes → ℕ → ℕ → CacheEntry
new_entry content size mtime = record { content = content; size = size; mtime = mtime }

module _ (c : FileCache) (path : Bytes) (entry : CacheEntry) (v : IsValid c) where
  Stored-present :
      (old : CacheEntry)
      → lookup path c.list ≡ some old
      → Stored c (record c { list = to_front path entry c.list }) path entry
  unfolding lookup distinct
  Stored-present old e = record {
    valid = ground (
      arith,
      eq_bytes_refl path,
      lookup-erase path path c.list,
      distinct-erase path c.list,
      length-erase path c.list,
    );
    rest = erase path c.list;
    in_front = refl;
    others = λ other h. inl (ground (arith, lookup-erase path other c.list));
  }

  Stored-room :
      lookup path c.list ≡ none
      → length c.list < c.max_entries
      → Stored c (record c { list = (path, entry) ∷ c.list }) path entry
  unfolding lookup distinct
  Stored-room e r = record {
    valid = ground arith;
    rest = c.list;
    in_front = refl;
    others = λ other h. inl (ground arith);
  }

  Stored-full :
      (kept : Table CacheEntry)
      → lookup path c.list ≡ none
      → c.max_entries ≤ length c.list
      → Popped c.list kept
      → Stored c (record c { list = (path, entry) ∷ kept }) path entry
  unfolding lookup distinct
  Stored-full kept e full p =
      let at = lookup-Popped path p in
      let d = distinct-append_last p.path p.entry kept (rw p.splits at v.once) in
      let count = ap length p.splits ∙ length-append kept ((p.path, p.entry) ∷ []) in
      let missing : lookup path kept ≡ none = ground (arith, at, e) in
      record {
        valid = record { once = ground arith; within = omega (arith, v.within, count) };
        rest = kept;
        in_front = refl;
        others = λ other h. elim (Bool-cases (eq_bytes p.path other)) [
          | inl last ↦
              let same : p.path ≡ other = (eq_bytes_iff p.path other).0 last in
              inr (record {
                full = full;
                absent = e;
                before = kept;
                entry = p.entry;
                last = rw (← same) p.splits;
              })
          | inr not_last ↦ inl (let seen = lookup-Popped other p in ground arith)
        ];
      }

popped :
    (list : Table CacheEntry)
    → 0 < length list
    → (kept : Table CacheEntry) × (pop_back list ≡ some kept) × Popped list kept
popped [] h = absurd (omega arith)
popped (x ∷ list) h = pop_back_lem x list

-- Storing a file that is not too large succeeds: the cache stays valid, the file stands in front
-- with its content, size and time, and every other path keeps what is stored for it, but for the
-- one that was used least recently where the cache is full and the path is new. The cache has room
-- for an entry at all.
pub put_lem :
    (c : FileCache) (path content : Bytes) (size mtime : ℕ)
    → IsValid c
    → 0 < c.max_entries
    → size ≤ c.max_file_size
    → (c' : FileCache) × (put c path content size mtime ≡ some c')
      × Stored c c' path (new_entry content size mtime)
unfolding put
put_lem c path content size mtime v room small =
    let entry = new_entry content size mtime in
    let accepted : ltb c.max_file_size size ≡ false = ground arith in
    elim (Option-cases (lookup path c.list)) [
      | inr (old, e) ↦ (_, (rw (put, accepted, e) refl), Stored-present c path entry v old e)
      | inl e ↦ elim (Bool-cases (leb c.max_entries (length c.list))) [
        | inl full ↦
            let (kept, k, p) = popped c.list (ground arith) in
            (
              _,
              (rw (put, accepted, e, full, k) refl),
              Stored-full c path entry v kept e (ground arith) p,
            )
        | inr roomy ↦
            (_, (rw (put, accepted, e, roomy) refl), Stored-room c path entry v e (ground arith))
      ]
    ]
