-- ===== src/Cache/Descriptors.antt =====
-- `FdCache` of common/fd_cache.cpp. The table stands for `map_` and `list_` together, the path that
-- was used last in front. `closed` logs the calls of `close`, the latest in front. `time(nullptr)`
-- is an argument; a difference of times below the TTL is written without subtraction.
use epoll_gateway.Base.{
  ℕ, zero, suc, ◌+◌, not, List, [], ◌∷◌, ◌++◌, Option, none, some, ◌==◌, length, ltb, leb,
  if◌then◌else◌,
}
use epoll_gateway.Base.Bytes.{Bytes}
use epoll_gateway.Base.Table.{Table, lookup, erase}

pub record CachedFd : Type 0 where
  pub fd : ℕ
  pub file_size : ℕ
  pub mtime : ℕ
  pub validated_at : ℕ

pub record FdCache : Type 0 where
  pub max_entries : ℕ
  pub ttl_sec : ℕ
  pub list : Table CachedFd
  pub closed : List ℕ

-- The constructor.
abbrev pub new_cache : ℕ → ℕ → FdCache
new_cache max_entries ttl_sec = record {
  max_entries = max_entries;
  ttl_sec = ttl_sec;
  list = [];
  closed = [];
}

abbrev pub close_entry : FdCache → Bytes → CachedFd → FdCache
close_entry c path entry = record c { list = erase path c.list; closed = entry.fd ∷ c.closed }

abbrev pub to_front : FdCache → Bytes → CachedFd → FdCache
to_front c path entry = record c { list = (path, entry) ∷ erase path c.list }

-- `none` is -1.
unfoldable pub try_get : FdCache → Bytes → ℕ → FdCache × Option CachedFd
try_get c path now = elim (lookup path c.list) [
  | none ↦ (c, none)
  | some entry ↦
      if ltb now (entry.validated_at + c.ttl_sec)
      then (to_front c path entry, some entry)
      else (c, none)
]

unfoldable pub validate : FdCache → Bytes → ℕ → ℕ → FdCache × Option ℕ
validate c path mtime now = elim (lookup path c.list) [
  | none ↦ (c, none)
  | some entry ↦
      if not (entry.mtime == mtime)
      then (close_entry c path entry, none)
      else (to_front c path (record entry { validated_at = now }), some entry.fd)
]

-- `list_.back()`, closed and taken off; `none` is the undefined `back` of an empty list.
unfoldable pub take_back : Table CachedFd → Option (Table CachedFd × CachedFd)
take_back [] = none
take_back ((path, entry) ∷ []) = some ([], entry)
take_back (x ∷ y ∷ rest) = elim (take_back (y ∷ rest)) [
  | none ↦ none
  | some (kept, entry) ↦ some (x ∷ kept, entry)
]

-- The loop that evicts, with rounds left; one more than the entries is enough.
unfoldable pub evict : ℕ → FdCache → Option FdCache
evict zero c = none
evict (suc n) c =
    if leb c.max_entries (length c.list)
    then elim (take_back c.list) [
      | none ↦ none
      | some (kept, entry) ↦ evict n (record c { list = kept; closed = entry.fd ∷ c.closed })
    ]
    else some c

abbrev pub drop_old : FdCache → Bytes → FdCache
drop_old c path = elim (lookup path c.list) [ none ↦ c | some entry ↦ close_entry c path entry ]

unfoldable pub put : FdCache → Bytes → ℕ → ℕ → ℕ → ℕ → Option FdCache
put c path fd mtime file_size now =
    let dropped = drop_old c path in
    let entry : CachedFd = record {
      fd = fd;
      file_size = file_size;
      mtime = mtime;
      validated_at = now;
    } in
    elim (evict (suc (length dropped.list)) dropped) [
      | none ↦ none
      | some kept ↦ some (record kept { list = (path, entry) ∷ kept.list })
    ]

abbrev pub fds : Table CachedFd → List ℕ
fds [] = []
fds ((path, entry) ∷ rest) = entry.fd ∷ fds rest

-- `clear`, which the destructor calls.
unfoldable pub clear : FdCache → FdCache
clear c = record c { list = []; closed = fds c.list ++ c.closed }
