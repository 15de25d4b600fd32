-- ===== src/Tests/Cache.antt =====
-- The caches (common/file_cache.cpp, common/fd_cache.cpp) on concrete entries.
use epoll_gateway.Base.{true, not, ◌&&◌, [], ◌∷◌, none, some, ◌≡◌, refl, arith, if◌then◌else◌}
use epoll_gateway.Base.Bytes.{ascii, eq_bytes}
use epoll_gateway.Base.Table.{lookup, distinct, is_some}
use epoll_gateway.Cache.Files.{CacheEntry, FileCache, get, put}
use epoll_gateway.Cache.Recency.{IsValid, answer, Stored, new_entry, get_lem, put_lem}
use epoll_gateway.Cache.Descriptors
use epoll_gateway.Cache.Descriptors.{CachedFd, FdCache, try_get, validate, clear}
use epoll_gateway.Cache.Closing.{count, accounted, lookups_accounted}
use epoll_gateway.Cache.Storing.{Put, put_accounted}

abbrev index : CacheEntry
index = record { content = ascii "<p>"; size = 3; mtime = 7 }

-- Full, with one entry.
abbrev files : FileCache
files = record { max_entries = 1; max_file_size = 10; list = (ascii "/index", index) ∷ [] }

files-IsValid : IsValid files
unfolding distinct lookup
files-IsValid = record { once = refl; within = omega arith }

get_lem_example :
    let (c', result) = get files (ascii "/index") 8 in
    IsValid c'
    × (result ≡ answer 8 (lookup (ascii "/index") files.list))
    × (lookup (ascii "/index") c'.list ≡ (
        if eq_bytes (ascii "/index") (ascii "/index")
          && not (is_some (answer 8 (lookup (ascii "/index") files.list)))
        then none
        else lookup (ascii "/index") files.list))
get_lem_example = get_lem files (ascii "/index") (ascii "/index") 8 files-IsValid

put_lem_example :
    (c' : FileCache) × (put files (ascii "/a") (ascii "A") 1 9 ≡ some c')
    × Stored files c' (ascii "/a") (new_entry (ascii "A") 1 9)
put_lem_example =
    put_lem files (ascii "/a") (ascii "A") 1 9 files-IsValid (omega arith) (omega arith)

-- Full, with the descriptor 5 in it.
abbrev sockets : FdCache
sockets = record {
  max_entries = 1;
  ttl_sec = 10;
  list = (ascii "/index", record { fd = 5; file_size = 3; mtime = 7; validated_at = 0 }) ∷ [];
  closed = [];
}

lookups_accounted_example :
    (accounted 5 (try_get sockets (ascii "/index") 3).0 ≡ accounted 5 sockets)
    × (distinct (try_get sockets (ascii "/index") 3).0.list ≡ true)
    × (accounted 5 (validate sockets (ascii "/index") 8 3).0 ≡ accounted 5 sockets)
    × (distinct (validate sockets (ascii "/index") 8 3).0.list ≡ true)
    × ((clear sockets).list ≡ [])
    × (count 5 (clear sockets).closed ≡ accounted 5 sockets)
unfolding distinct lookup
lookups_accounted_example = lookups_accounted sockets (ascii "/index") 8 3 5 refl

put_accounted_example :
    (c' : FdCache) × (Descriptors.put sockets (ascii "/a") 6 7 1 20 ≡ some c')
    × Put sockets c' (ascii "/a") (record { fd = 6; file_size = 1; mtime = 7; validated_at = 20 }) 5
unfolding distinct lookup
put_accounted_example = put_accounted sockets (ascii "/a") 6 7 1 20 5 refl (omega arith)
