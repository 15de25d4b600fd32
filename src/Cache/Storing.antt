-- ===== src/Cache/Storing.antt =====
-- `FdCache::put`: what it stores, evicts and closes.
use epoll_gateway.Base.{
  ℕ, suc, ◌+◌, ◌≤◌, ◌<◌, true, false, ◌∷◌, some, ◌≡◌, refl, inl, inr, arith, length, ◌==◌,
  if◌then◌else◌, Option-cases,
}
use epoll_gateway.Base.Bytes.{Bytes, eq_bytes_refl}
use epoll_gateway.Base.Table.{Table, lookup, is_some, distinct, lookup-erase, distinct-erase}
use epoll_gateway.Cache.Descriptors.{CachedFd, FdCache, drop_old, put}
use epoll_gateway.Cache.Closing.{accounted, count-erase, evict_lem}

record Dropped (path : Bytes) (n : ℕ) (c c' : FdCache) : Type 0 where
  same_max : c'.max_entries ≡ c.max_entries
  same_count : accounted n c' ≡ accounted n c
  once : distinct c'.list ≡ true
  absent : is_some (lookup path c'.list) ≡ false

drop_old_lem :
    (path : Bytes) (n : ℕ) (c : FdCache)
    → distinct c.list ≡ true
    → Dropped path n c (drop_old c path)
drop_old_lem path n c d = elim (Option-cases (lookup path c.list)) [
  | inl e ↦
      rw (drop_old, e) (record { same_max = refl; same_count = refl; once = d; absent = rw e refl })
  | inr (entry, e) ↦
      let counted = count-erase n path entry c.list d e in
      rw (drop_old, e)
        (record {
          same_max = refl;
          same_count = omega (arith, counted);
          once = distinct-erase path c.list d;
          absent = rw lookup-erase (rw eq_bytes_refl refl);
        })
]

-- What `put` leaves: the new entry in front, room for no more entries than allowed, no path twice,
-- and one descriptor more to account for.
pub record Put (c c' : FdCache) (path : Bytes) (entry : CachedFd) (n : ℕ) : Type 0 where
  pub rest : Table CachedFd
  pub in_front : c'.list ≡ (path, entry) ∷ rest
  pub within : length c'.list ≤ c.max_entries
  pub once : distinct c'.list ≡ true
  pub counted : accounted n c' ≡ accounted n c + (if entry.fd == n then 1 else 0)

-- `put` ends and succeeds where the cache has room for an entry at all. The new descriptor stands
-- in front, the entries are within the limit, each path stands in one, and every descriptor that
-- the cache was ever given, the new one included, is open in it or was closed, as often as it was
-- given: a replaced or evicted one is closed exactly once.
pub put_accounted :
    (c : FdCache) (path : Bytes) (fd mtime file_size now n : ℕ)
    → distinct c.list ≡ true
    → 0 < c.max_entries
    → (c' : FdCache) × (put c path fd mtime file_size now ≡ some c')
      × Put c c' path
          (record { fd = fd; file_size = file_size; mtime = mtime; validated_at = now })
          n
unfolding put
put_accounted c path fd mtime file_size now n d room =
    let dropped = drop_old c path in
    let h = drop_old_lem path n c d in
    let (kept, e, v) =
      evict_lem (suc (length dropped.list)) path n dropped dropped.list refl (omega arith)
        (rw h.same_max room) h.once h.absent in
    let entry : CachedFd = record {
      fd = fd;
      file_size = file_size;
      mtime = mtime;
      validated_at = now;
    } in
    (
      record kept { list = (path, entry) ∷ kept.list },
      rw (put, e) refl,
      record {
        rest = kept.list;
        in_front = refl;
        within = omega (arith, v.room, h.same_max);
        once = unfold distinct in ground (arith, v.absent, v.once);
        counted = omega (arith, v.same_count, h.same_count);
      },
    )
