-- ===== src/Routing/Segments.antt =====
-- Route patterns against their meaning: the segments of the pattern and of the path, one by one.
use native.Mathlib.Omega.{arith}
use epoll_gateway.Base.{
  ℕ, zero, suc, ◌≤◌, ◌<◌, Bool, true, false, List, [], ◌∷◌, none, some, ◌≡◌, inl, inr, refl, ◌∙◌,
  ◌==◌, if◌then◌else◌, length, Option-cases, Bool-cases,
}
use epoll_gateway.Base.Bytes.{Bytes, strip_last}
use epoll_gateway.Base.Table.{Table}
use epoll_gateway.Routing.Match.{
  take_segment, next_path_segment, bind_segment, match_from, match_route,
}

abbrev cons_first : ℕ → List Bytes → List Bytes
cons_first c [] = (c ∷ []) ∷ []
cons_first c (x ∷ xs) = (c ∷ x) ∷ xs

-- What stands between the slashes.
unfoldable pub fields : Bytes → List Bytes
fields [] = [] ∷ []
fields (c ∷ s) = if c == b'/' then [] ∷ fields s else cons_first c (fields s)

unfoldable pub non_empty : List Bytes → List Bytes
non_empty [] = []
non_empty ([] ∷ xs) = non_empty xs
non_empty ((c ∷ x) ∷ xs) = (c ∷ x) ∷ non_empty xs

-- The segments of a path, empty ones left out.
unfoldable pub segments : Bytes → List Bytes
segments s = non_empty (fields s)

-- As many segments on both sides; `{name}` takes any segment, another one only itself.
unfoldable pub match_segments : List Bytes → List Bytes → Table Bytes → Table Bytes × Bool
match_segments [] [] params = (params, true)
match_segments [] (s ∷ ss) params = (params, false)
match_segments (p ∷ ps) [] params = (params, false)
match_segments (p ∷ ps) (s ∷ ss) params = elim (bind_segment p s params) [
  | none ↦ (params, false)
  | some params' ↦ match_segments ps ss params'
]

abbrev fields_behind : Bytes → List Bytes
fields_behind [] = []
fields_behind (c ∷ s) = fields s

fields-take_segment : (s : Bytes) → fields s ≡ (take_segment s).0 ∷ fields_behind (take_segment s).1
unfolding fields take_segment
fields-take_segment [] = refl
fields-take_segment (c ∷ s) = ground (arith, fields-take_segment s)

segments-behind :
    (s : Bytes) → non_empty (fields_behind (take_segment s).1) ≡ segments (take_segment s).1
unfolding segments fields take_segment non_empty
segments-behind [] = refl
segments-behind (c ∷ s) = ground (arith, segments-behind s)

length-take_segment : (s : Bytes) → length (take_segment s).1 ≤ length s
unfolding take_segment
length-take_segment [] = omega arith
length-take_segment (c ∷ s) = ground (arith, length-take_segment s)

plain_segments :
    (c : ℕ) (s : Bytes)
    → c == b'/' ≡ false
    → segments (c ∷ s) ≡ (c ∷ (take_segment s).0) ∷ segments (take_segment s).1
plain_segments c s h =
    let parts : fields (c ∷ s) ≡ (c ∷ (take_segment s).0) ∷ fields_behind (take_segment s).1 =
      unfold fields in rw h (rw (fields-take_segment s) refl) in
    unfold segments in
    rw parts (unfold non_empty in rw (segments-behind s) (unfold segments in refl))

segments-some :
    (s seg rest : Bytes)
    → next_path_segment s ≡ some (seg, rest)
    → (segments s ≡ seg ∷ segments rest) × (length rest < length s)
segments-some [] seg rest e = unfold next_path_segment in cc
segments-some (c ∷ s) seg rest e = elim (Bool-cases (c == b'/')) [
  | inl slash ↦
      let later : next_path_segment s ≡ some (seg, rest) =
        unfold next_path_segment in ground arith in
      let f = segments-some s seg rest later in
      let same : segments (c ∷ s) ≡ segments s = unfold segments fields non_empty in ground arith in
      (same ∙ f.0, omega (arith, f.1))
  | inr plain ↦
      let first : c ∷ (take_segment s).0 ≡ seg =
        unfold next_path_segment take_segment in ground arith in
      let behind : (take_segment s).1 ≡ rest =
        unfold next_path_segment take_segment in ground arith in
      (
        rw (← first, ← behind) (plain_segments c s plain),
        rw (← behind) (omega (arith, length-take_segment s)),
      )
]

segments-none : (s : Bytes) → next_path_segment s ≡ none → segments s ≡ []
unfolding segments fields non_empty next_path_segment
segments-none [] e = refl
segments-none (c ∷ s) e = ground (arith, segments-none s)

match_from-segments :
    (fuel : ℕ) (pattern path : Bytes) (params : Table Bytes)
    → length pattern < fuel
    → match_from fuel pattern path params ≡ match_segments (segments pattern) (segments path) params
unfolding match_from match_segments
match_from-segments zero pattern path params h = absurd (omega arith)
match_from-segments (suc fuel) pattern path params h =
    elim (Option-cases (next_path_segment pattern)) [
      | inl e ↦
          rw (e, match_from, segments-none pattern e)
            (elim (Option-cases (next_path_segment path)) [
              | inl f ↦ rw (f, segments-none path f) refl
              | inr ((sseg, path'), f) ↦ rw (f, (segments-some path sseg path' f).0) refl
            ])
      | inr ((pseg, pattern'), e) ↦
          let p = segments-some pattern pseg pattern' e in
          rw (e, match_from, p.0)
            (elim (Option-cases (next_path_segment path)) [
              | inl f ↦ rw (f, segments-none path f) refl
              | inr ((sseg, path'), f) ↦
                  let q = segments-some path sseg path' f in
                  rw (f, q.0)
                    (elim (Option-cases (bind_segment pseg sseg params)) [
                      | inl b ↦ rw (b, match_segments) refl
                      | inr (params', b) ↦
                          rw (b, match_segments)
                            (match_from-segments fuel pattern' path' params' (omega (arith, p.1)))
                    ])
            ])
    ]

-- A pattern that does not end in a star matches a path exactly if the segments match one by one,
-- empty ones left out on both sides, and binds the same parameters: `{name}` takes any one
-- segment, another segment only itself, and the numbers of segments are the same.
pub match_route-segments :
    (pattern path : Bytes) (params : Table Bytes)
    → strip_last b'*' pattern ≡ none
    → match_route pattern path params ≡ match_segments (segments pattern) (segments path) params
unfolding match_route
match_route-segments pattern path params h =
    rw (h, match_route)
      (match_from-segments (suc (length pattern)) pattern path params (omega arith))
