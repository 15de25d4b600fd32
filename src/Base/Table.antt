-- ===== src/Base/Table.antt =====
-- `std::unordered_map` with string keys, as an association list with one entry for each key. The
-- order in which the map is walked is that of the list.
use mathlib.Core.Path.{◌≡◌, refl}
use mathlib.Core.Bool.{Bool, true, false, not, ◌&&◌}
use mathlib.Core.List.{List, [], ◌∷◌}
use mathlib.Core.Option.{Option, none, some}
use native.Mathlib.Omega.{arith}
use Prim.Native.Nat.{◌+◌}
use epoll_gateway.Base.Tests.{if◌then◌else◌, ltb, ◌==◌}
use epoll_gateway.Base.Lists.{length}
use epoll_gateway.Base.Bytes.{Bytes, eq_bytes, eq_bytes_iff, eq_bytes_refl}

-- `operator<` of strings.
unfoldable pub is_less : Bytes → Bytes → Bool
is_less [] [] = false
is_less [] (y ∷ b) = true
is_less (x ∷ a) [] = false
is_less (x ∷ a) (y ∷ b) = if x == y then is_less a b else ltb x y

abbrev pub Table {ℓ} : Type ℓ → Type ℓ
Table V = List (Bytes × V)

module _ {ℓ} {V : Type ℓ} where
  -- `find`.
  unfoldable pub lookup : Bytes → Table V → Option V
  lookup k [] = none
  lookup k ((j, v) ∷ m) = if eq_bytes j k then some v else lookup k m

  -- `m[k] = v`.
  unfoldable pub insert : Bytes → V → Table V → Table V
  insert k v [] = (k, v) ∷ []
  insert k v ((j, w) ∷ m) = if eq_bytes j k then (j, v) ∷ m else (j, w) ∷ insert k v m

  -- `m[k] = v` of a `std::map`, which is walked in the order of its keys.
  unfoldable pub insert_in_order : Bytes → V → Table V → Table V
  insert_in_order k v [] = (k, v) ∷ []
  insert_in_order k v ((j, w) ∷ m) =
      let later = insert_in_order k v m in
      if eq_bytes j k
      then (j, v) ∷ m
      else if is_less k j
      then (k, v) ∷ (j, w) ∷ m
      else (j, w) ∷ later

  -- `m.erase(k)`.
  unfoldable pub erase : Bytes → Table V → Table V
  erase k [] = []
  erase k ((j, w) ∷ m) = if eq_bytes j k then erase k m else (j, w) ∷ erase k m

  abbrev pub is_some : Option V → Bool
  is_some none = false
  is_some (some v) = true

  -- `m[k]`, which makes a new entry with a default value where there is none.
  abbrev pub get_or : V → Option V → V
  get_or d none = d
  get_or d (some v) = v

  pub lookup-insert :
      (k j : Bytes) (v : V) (m : Table V)
      → lookup j (insert k v m) ≡ (if eq_bytes k j then some v else lookup j m)
  unfolding lookup insert
  lookup-insert k j v [] = refl
  lookup-insert k j v ((i, w) ∷ m) =
      ground (arith, eq_bytes_iff k j, eq_bytes_iff i k, eq_bytes_iff i j, lookup-insert k j v m)

  pub lookup-insert_self : (k : Bytes) (v : V) (m : Table V) → lookup k (insert k v m) ≡ some v
  lookup-insert_self k v m = rw (lookup-insert, eq_bytes_refl)

  pub lookup-erase :
      (k j : Bytes) (m : Table V)
      → lookup j (erase k m) ≡ (if eq_bytes k j then none else lookup j m)
  unfolding lookup erase
  lookup-erase k j [] = ground arith
  lookup-erase k j ((i, w) ∷ m) =
      ground (arith, eq_bytes_iff k j, eq_bytes_iff i k, eq_bytes_iff i j, lookup-erase k j m)

  -- Each key has one entry, as in a map.
  unfoldable pub distinct : Table V → Bool
  distinct [] = true
  distinct ((k, v) ∷ m) = not (is_some (lookup k m)) && distinct m

  pub distinct-insert :
      (k : Bytes) (v : V) (m : Table V) → distinct m ≡ true → distinct (insert k v m) ≡ true
  unfolding distinct insert lookup
  distinct-insert k v [] d = refl
  distinct-insert k v ((j, w) ∷ m) d =
      ground
        (arith, eq_bytes_iff j k, eq_bytes_iff k j, lookup-insert k j v m, distinct-insert k v m)

  pub distinct-erase : (k : Bytes) (m : Table V) → distinct m ≡ true → distinct (erase k m) ≡ true
  unfolding distinct erase
  distinct-erase k [] d = refl
  distinct-erase k ((j, w) ∷ m) d = ground (arith, lookup-erase k j m, distinct-erase k m)

  -- A key that stands in no entry.
  pub erase-absent : (k : Bytes) (m : Table V) → lookup k m ≡ none → erase k m ≡ m
  unfolding lookup erase
  erase-absent k [] h = refl
  erase-absent k ((j, w) ∷ m) h = ground (arith, erase-absent k m)

  pub length-erase :
      (k : Bytes) (m : Table V)
      → distinct m ≡ true
      → length (erase k m) + (if is_some (lookup k m) then 1 else 0) ≡ length m
  unfolding distinct lookup erase
  length-erase k [] d = refl
  length-erase k ((j, w) ∷ m) d =
      ground (arith, eq_bytes_iff j k, length-erase k m, erase-absent k m)
