-- ===== src/Cache/Files.antt =====
-- `FileCache` of common/file_cache.cpp. `list_` is a table, the entry that was used last in front;
-- `map_`, which holds for each path the place of its entry in `list_`, is what `lookup` finds.
use epoll_gateway.Base.{
  ℕ, ◌*◌, Bool, [], ◌∷◌, Option, none, some, ◌||◌, ◌==◌, length, ltb, leb, if◌then◌else◌,
}
use epoll_gateway.Base.Bytes.{Bytes}
use epoll_gateway.Base.Table.{Table, lookup, erase}

pub record CacheEntry : Type 0 where
  pub content : Bytes
  pub size : ℕ
  pub mtime : ℕ

pub record FileCache : Type 0 where
  pub max_entries : ℕ
  pub max_file_size : ℕ
  pub list : Table CacheEntry

-- The constructor.
unfoldable pub create : ℕ → ℕ → FileCache
create max_entries max_file_size_mb = record {
  max_entries = max_entries;
  max_file_size = max_file_size_mb * 1024 * 1024;
  list = [];
}

-- `splice` to the front, with a new value for the entry.
abbrev pub to_front : Bytes → CacheEntry → Table CacheEntry → Table CacheEntry
to_front path entry list = (path, entry) ∷ erase path list

abbrev pub is_fresh : ℕ → CacheEntry → Bool
is_fresh file_mtime entry = file_mtime == 0 || entry.mtime == file_mtime

unfoldable pub get : FileCache → Bytes → ℕ → FileCache × Option Bytes
get c path file_mtime = elim (lookup path c.list) [
  | none ↦ (c, none)
  | some entry ↦
      if is_fresh file_mtime entry
      then (record c { list = to_front path entry c.list }, some entry.content)
      else (record c { list = erase path c.list }, none)
]

-- `list_.back()` and `pop_back`; of an empty list both are undefined, which `none` stands for.
unfoldable pub pop_back : Table CacheEntry → Option (Table CacheEntry)
pop_back [] = none
pop_back (x ∷ []) = some []
pop_back (x ∷ y ∷ rest) = elim (pop_back (y ∷ rest)) [ none ↦ none | some list ↦ some (x ∷ list) ]

unfoldable pub put : FileCache → Bytes → Bytes → ℕ → ℕ → Option FileCache
put c path content size mtime =
    let entry : CacheEntry = record { content = content; size = size; mtime = mtime } in
    if ltb c.max_file_size size then some c else elim (lookup path c.list) [
      | some old ↦ some (record c { list = to_front path entry c.list })
      | none ↦
          if leb c.max_entries (length c.list)
          then elim (pop_back c.list) [
            | none ↦ none
            | some kept ↦ some (record c { list = (path, entry) ∷ kept })
          ]
          else some (record c { list = (path, entry) ∷ c.list })
    ]

unfoldable pub clear : FileCache → FileCache
clear c = record c { list = [] }

unfoldable pub size : FileCache → ℕ
size c = length c.list
