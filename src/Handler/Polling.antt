-- ===== src/Handler/Polling.antt =====
-- `poll_timeout_ms`: how long the event loop may sleep. Times are in nanoseconds.
use epoll_gateway.Base.{
  ℕ, ◌-◌, ◌/◌, ◌≤◌, Bool, List, [], ◌∷◌, ◌++◌, Option, none, some, arith, ltb, ◌&&◌, All, is_empty,
  if◌then◌else◌,
}

-- The deadline of the child's exchange, if it has one, and what else the loop reads of it.
pub record ChildExchange : Type 0 where
  pub deadline : Option ℕ
  pub finished : Bool

pub record ExchangeState : Type 0 where
  pub composite : Bool
  pub has_total_deadline : Bool
  pub total_deadline : ℕ
  pub children : List ChildExchange

-- The lambda `consider`. A deadline is at most a timeout's `int` of milliseconds away, so the
-- conversion to `int` keeps the number.
unfoldable pub consider : ℕ → ℕ → ℕ → ℕ
consider now deadline best = let ms = (deadline - now) / 1000000 in if ltb ms best then ms else best

abbrev pub live_deadline : ChildExchange → Option ℕ
live_deadline child = if child.finished then none else child.deadline

abbrev pub overall : ExchangeState → Option ℕ
overall st = if st.composite && st.has_total_deadline then some st.total_deadline else none

unfoldable pub consider_if : ℕ → Option ℕ → ℕ → ℕ
unfolding consider
consider_if now none best = best
consider_if now (some deadline) best = consider now deadline best

unfoldable pub consider_children : ℕ → List ChildExchange → ℕ → ℕ
unfolding consider_if
consider_children now [] best = best
consider_children now (child ∷ rest) best =
    consider_children now rest (consider_if now (live_deadline child) best)

unfoldable pub consider_entries : ℕ → List ExchangeState → ℕ → ℕ
unfolding consider_children consider_if
consider_entries now [] best = best
consider_entries now (entry ∷ rest) best =
    consider_entries now rest
      (consider_children now entry.children (consider_if now (overall entry) best))

unfoldable pub poll_timeout_ms : ℕ → List ExchangeState → ℕ
unfolding consider_entries
poll_timeout_ms now entries = if is_empty entries then 1000 else consider_entries now entries 1000

abbrev total_of : Option ℕ → List ℕ
total_of none = []
total_of (some deadline) = deadline ∷ []

abbrev live_deadlines : List ChildExchange → List ℕ
live_deadlines [] = []
live_deadlines (child ∷ rest) = total_of (live_deadline child) ++ live_deadlines rest

-- The deadlines that count.
abbrev pub deadlines : List ExchangeState → List ℕ
deadlines [] = []
deadlines (entry ∷ rest) =
    total_of (overall entry) ++ (live_deadlines entry.children ++ deadlines rest)

-- The sleep ends before each of the deadlines, to the millisecond.
abbrev pub Meets : ℕ → ℕ → List ℕ → Type 0
Meets now sleep ds = All (λ d. sleep ≤ (d - now) / 1000000) ds

Meets-le : (now a b : ℕ) (ds : List ℕ) → a ≤ b → Meets now b ds → Meets now a ds
Meets-le now a b [] h m = tt
Meets-le now a b (d ∷ ds) h m = (omega (arith, m.0), Meets-le now a b ds h m.1)

Meets-append :
    (now a : ℕ) (ds es : List ℕ) → Meets now a ds → Meets now a es → Meets now a (ds ++ es)
Meets-append now a [] es m n = n
Meets-append now a (d ∷ ds) es m n = (m.0, Meets-append now a ds es m.1 n)

consider_le :
    (now d best : ℕ) → (consider now d best ≤ best) × (consider now d best ≤ (d - now) / 1000000)
unfolding consider
consider_le now d best = ground arith

consider_if_lem :
    (now best : ℕ) (o : Option ℕ)
    → (consider_if now o best ≤ best) × Meets now (consider_if now o best) (total_of o)
unfolding consider_if
consider_if_lem now best none = (omega arith, tt)
consider_if_lem now best (some d) = ((consider_le now d best).0, ((consider_le now d best).1, tt))

consider_children_lem :
    (now best : ℕ) (children : List ChildExchange)
    → (consider_children now children best ≤ best)
      × Meets now (consider_children now children best) (live_deadlines children)
unfolding consider_children
consider_children_lem now best [] = (omega arith, tt)
consider_children_lem now best (child ∷ rest) =
    let o = live_deadline child in
    let c = consider_if_lem now best o in
    let later = consider_children_lem now (consider_if now o best) rest in
    (
      omega (arith, c.0, later.0),
      Meets-append now _ (total_of o) _ (Meets-le now _ _ _ later.0 c.1) later.1,
    )

consider_entries_lem :
    (now best : ℕ) (entries : List ExchangeState)
    → (consider_entries now entries best ≤ best)
      × Meets now (consider_entries now entries best) (deadlines entries)
unfolding consider_entries
consider_entries_lem now best [] = (omega arith, tt)
consider_entries_lem now best (entry ∷ rest) =
    let t = consider_if now (overall entry) best in
    let total = consider_if_lem now best (overall entry) in
    let c = consider_children_lem now t entry.children in
    let later = consider_entries_lem now (consider_children now entry.children t) rest in
    (
      omega (arith, c.0, later.0, total.0),
      Meets-append now _ (total_of (overall entry)) _
          (Meets-le now _ t _ (omega (arith, c.0, later.0)) total.1)
          (Meets-append now _ (live_deadlines entry.children) (deadlines rest)
            (Meets-le now _ _ _ later.0 c.1) later.1),
    )

-- The event loop sleeps for at most a second, and never past a deadline: neither the overall one of
-- a composite request, nor that of any exchange in flight.
pub poll_timeout_ms_lem :
    (now : ℕ) (entries : List ExchangeState)
    → (poll_timeout_ms now entries ≤ 1000)
      × Meets now (poll_timeout_ms now entries) (deadlines entries)
unfolding poll_timeout_ms
poll_timeout_ms_lem now [] = (omega arith, tt)
poll_timeout_ms_lem now (entry ∷ rest) = consider_entries_lem now 1000 (entry ∷ rest)
