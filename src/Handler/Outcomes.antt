-- ===== src/Handler/Outcomes.antt =====
-- A composite route, dependency by dependency: how the events decide what becomes of each.
use epoll_gateway.Base.{
  ℕ, zero, suc, ◌+◌, ◌<◌, Bool, true, false, not, ◌&&◌, List, [], ◌∷◌, map, modify, get_elem?,
  Option, some, ◌≡◌, refl, ap, ◌∙◌, arith, all, ◌==◌, if◌then◌else◌,
}
use epoll_gateway.Base.Bytes.{Bytes, eq_bytes}
use epoll_gateway.Base.Table.{Table, lookup, insert, lookup-insert}
use epoll_gateway.Client.State.{BackendResponse}
use epoll_gateway.Handler.Composite.{
  ItemStatus, Item, Child, CompositeEvent, finish_composite_child, force_finish_child, join_items,
  all_finished, flies,
}

abbrev pub is_unset : ItemStatus → Bool
is_unset ItemStatus.unset = true
is_unset _ = false

-- A child either has its exchange, or is finished with a status.
abbrev pub is_sound : Child → Bool
is_sound child =
    if child.finished
    then not (is_unset child.item.status) && not child.in_flight
    else child.in_flight

-- What an event means to the child at the index `i`.
abbrev pub tell : ℕ → CompositeEvent → Child → Child
tell i (CompositeEvent.child_done j succeeded be) child =
    if child.in_flight && i == j then finish_composite_child succeeded be child else child
tell i CompositeEvent.deadline_passed child = force_finish_child child
tell i CompositeEvent.client_gone child = child

abbrev pub tell_all : ℕ → CompositeEvent → List Child → List Child
tell_all i event [] = []
tell_all i event (child ∷ rest) = tell i event child ∷ tell_all (suc i) event rest

-- What all the events have made of the children.
abbrev pub outcomes : List CompositeEvent → List Child → List Child
outcomes [] children = children
outcomes (event ∷ events) children = outcomes events (tell_all 0 event children)

module _ (succeeded : Bool) (be : BackendResponse) where
  tell_all-before :
      (i j : ℕ) (children : List Child)
      → j < i
      → tell_all i (CompositeEvent.child_done j succeeded be) children ≡ children
  tell_all-before i j [] h = refl
  tell_all-before i j (child ∷ rest) h =
      let later = tell_all-before (suc i) j rest (omega (arith, h)) in
      let other : (i == j) ≡ false = ground (arith, h) in ground (arith, later, other)

  pub tell_all-flies :
      (i k : ℕ) (children : List Child)
      → flies (get_elem? children k) ≡ true
      → tell_all i (CompositeEvent.child_done (i + k) succeeded be) children
        ≡ modify children k (finish_composite_child succeeded be)
  tell_all-flies i k [] h = absurd (ground arith)
  tell_all-flies i zero (child ∷ rest) h =
      let later = tell_all-before (suc i) (i + 0) rest (omega arith) in
      let here : (i == i + 0) ≡ true = ground arith in rw (here, h, later) refl
  tell_all-flies i (suc k) (child ∷ rest) h =
      let other : (i == i + suc k) ≡ false = ground arith in
      let same : i + suc k ≡ suc i + k = omega arith in
      rw (other, Bool_and_false child.in_flight)
        (ap (λ j. child ∷ tell_all (suc i) (CompositeEvent.child_done j succeeded be) rest) same
          ∙ ap (λ t. child ∷ t) (tell_all-flies (suc i) k rest h))
    where
      Bool_and_false : (b : Bool) → (b && false) ≡ false
      Bool_and_false b = ground arith

  pub tell_all-gone :
      (i k : ℕ) (children : List Child)
      → flies (get_elem? children k) ≡ false
      → tell_all i (CompositeEvent.child_done (i + k) succeeded be) children ≡ children
  tell_all-gone i k [] h = refl
  tell_all-gone i zero (child ∷ rest) h =
      let later = tell_all-before (suc i) (i + 0) rest (omega arith) in rw (h, later) refl
  tell_all-gone i (suc k) (child ∷ rest) h =
      let same : i + suc k ≡ suc i + k = omega arith in
      let later =
        ap (λ j. tell_all (suc i) (CompositeEvent.child_done j succeeded be) rest) same
        ∙ tell_all-gone (suc i) k rest h in
      let other : (i == i + suc k) ≡ false = ground arith in ground (arith, later, other)

pub tell_all-deadline :
    (i : ℕ) (children : List Child)
    → tell_all i CompositeEvent.deadline_passed children ≡ map force_finish_child children
tell_all-deadline i [] = refl
tell_all-deadline i (child ∷ rest) =
    ap (λ t. force_finish_child child ∷ t) (tell_all-deadline (suc i) rest)

-- Children that are all finished are told nothing more.
tell_all-finished :
    (i : ℕ) (event : CompositeEvent) (children : List Child)
    → all is_sound children ≡ true
    → all_finished children ≡ true
    → tell_all i event children ≡ children
unfolding force_finish_child
tell_all-finished i event [] s f = refl
tell_all-finished i event (child ∷ rest) s f =
    let later = tell_all-finished (suc i) event rest (ground arith) (ground arith) in
    ap (λ t. tell i event child ∷ t) later
    ∙ ap (λ c. c ∷ rest) (here event (ground arith) (ground arith))
  where
    here :
        (event : CompositeEvent)
        → child.finished ≡ true
        → child.in_flight ≡ false
        → tell i event child ≡ child
    here (CompositeEvent.child_done j succeeded be) over landed = rw landed refl
    here CompositeEvent.deadline_passed over landed = rw over refl
    here CompositeEvent.client_gone over landed = refl

pub outcomes-finished :
    (events : List CompositeEvent) (children : List Child)
    → all is_sound children ≡ true
    → all_finished children ≡ true
    → outcomes events children ≡ children
outcomes-finished [] children s f = refl
outcomes-finished (event ∷ events) children s f =
    ap (outcomes events) (tell_all-finished 0 event children s f)
    ∙ outcomes-finished events children s f

-- The item of the last child of a name.
abbrev pub last_item : Bytes → List Child → Option Item → Option Item
last_item name [] found = found
last_item name (child ∷ rest) found =
    last_item name rest (if eq_bytes child.name name then some child.item else found)

pub lookup-join_items :
    (name : Bytes) (children : List Child) (composite : Table Item) (failed : Bool)
    → lookup name (join_items children composite failed).0
      ≡ last_item name children (lookup name composite)
unfolding join_items
lookup-join_items name [] composite failed = refl
lookup-join_items name (child ∷ rest) composite failed =
    lookup-join_items name rest (insert child.name child.item composite) _
    ∙ ap (last_item name rest) (lookup-insert child.name name child.item composite)
