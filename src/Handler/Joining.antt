-- ===== src/Handler/Joining.antt =====
-- What the answer to a composite request says of its dependencies.
use epoll_gateway.Base.{
  ℕ, ◌+◌, sym, none, Bool, true, false, not, ◌&&◌, ◌||◌, List, [], ◌∷◌, map, modify, get_elem?, ◌≡◌,
  refl, ap, ◌∙◌, arith, inl, inr, all, any, if◌then◌else◌, Bool-cases,
}
use epoll_gateway.Base.Bytes.{Bytes}
use epoll_gateway.Base.Table.{Table, insert, lookup}
use epoll_gateway.Config.Types.{CompositeDependency}
use epoll_gateway.Handler.Outcomes.{
  tell_all, is_sound, outcomes, outcomes-finished, tell_all-flies, tell_all-gone, tell_all-deadline,
  last_item, lookup-join_items,
}
use epoll_gateway.Handler.Children.{
  needs, asks, Inv, start_children_sound, finish_sound, force_sound, composite_run-Inv,
  start_composite-Inv,
}
use epoll_gateway.Handler.Composite.{
  ItemStatus, Item, Child, Target, Aggregate, Composite, CompositeEvent, start_children,
  finish_composite_child, force_finish_child, is_bad, join_items, finalize_composite, all_finished,
  settle, start_composite, flies, composite_step, composite_run,
}

abbrev pub is_ok : ItemStatus → Bool
is_ok ItemStatus.ok = true
is_ok _ = false

-- A required dependency that did not come out well.
abbrev pub lets_down : Child → Bool
lets_down child = child.required && not (is_ok child.item.status)

join_items-failed :
    (children : List Child) (composite : Table Item) (failed : Bool)
    → all is_sound children ≡ true
    → all_finished children ≡ true
    → (join_items children composite failed).1 ≡ (failed || any lets_down children)
unfolding join_items
join_items-failed [] composite failed s f = ground arith
join_items-failed (child ∷ rest) composite failed s f = ground (
  arith,
  join_items-failed rest (insert child.name child.item composite)
      (failed || child.required && is_bad child.item.status),
)

run-answered :
    (events : List CompositeEvent) (children : List Child) (joined : Aggregate)
    → composite_run events (Composite.answered children joined) ≡ Composite.answered children joined
unfolding composite_run composite_step
run-answered [] children joined = refl
run-answered (CompositeEvent.child_done i s b ∷ events) cs joined = run-answered events cs joined
run-answered (CompositeEvent.deadline_passed ∷ events) cs joined = run-answered events cs joined
run-answered (CompositeEvent.client_gone ∷ events) cs joined = run-answered events cs joined

run-dropped :
    (events : List CompositeEvent) → composite_run events Composite.dropped ≡ Composite.dropped
unfolding composite_run composite_step
run-dropped [] = refl
run-dropped (CompositeEvent.child_done i s b ∷ events) = run-dropped events
run-dropped (CompositeEvent.deadline_passed ∷ events) = run-dropped events
run-dropped (CompositeEvent.client_gone ∷ events) = run-dropped events

-- From the children `cs` on, an answer is about what the events make of them.
abbrev Answers : List CompositeEvent → List Child → Composite → Type 0
Answers events cs state =
    (children : List Child) (joined : Aggregate)
    → composite_run events state ≡ Composite.answered children joined
    → children ≡ outcomes events cs

answered-Answers :
    (events : List CompositeEvent) (cs : List Child) (made : Aggregate)
    → all is_sound cs ≡ true
    → all_finished cs ≡ true
    → Answers events cs (Composite.answered cs made)
answered-Answers events cs made s f children joined e =
    let same : children ≡ cs = cc (e, run-answered events cs made) in
    same ∙ sym (outcomes-finished events cs s f)

settle-Answers :
    (events : List CompositeEvent) (cs : List Child)
    → all is_sound cs ≡ true
    → Answers events cs (Composite.running cs)
    → Answers events cs (settle cs)
unfolding settle
settle-Answers events cs s h = elim (Bool-cases (all_finished cs)) [
  | inl whole ↦ rw whole (answered-Answers events cs (finalize_composite cs) s whole)
  | inr part ↦ rw part h
]

running-Answers :
    (events : List CompositeEvent) (cs : List Child)
    → all is_sound cs ≡ true
    → Answers events cs (Composite.running cs)
unfolding composite_run composite_step
running-Answers [] cs s = λ children joined e. cc (e)
running-Answers (CompositeEvent.child_done i succeeded be ∷ events) cs s =
    elim (Bool-cases (flies (get_elem? cs i))) [
      | inl there ↦
          let told = renumbered i cs ∙ tell_all-flies succeeded be 0 i cs there in
          let later = modify cs i (finish_composite_child succeeded be) in
          let sound = finish_sound succeeded be cs i s in
          rw (there, told) (settle-Answers events later sound (running-Answers events later sound))
      | inr gone ↦
          rw (gone, renumbered i cs ∙ tell_all-gone succeeded be 0 i cs gone)
            (running-Answers events cs s)
    ]
  where
    renumbered :
        (j : ℕ) (children : List Child)
        → tell_all 0 (CompositeEvent.child_done j succeeded be) children
          ≡ tell_all 0 (CompositeEvent.child_done (0 + j) succeeded be) children
    renumbered j children =
        let same : j ≡ 0 + j = omega arith in
        ap (λ k. tell_all 0 (CompositeEvent.child_done k succeeded be) children) same
running-Answers (CompositeEvent.deadline_passed ∷ events) cs s =
    let forced = force_sound cs s in
    let after = map force_finish_child cs in
    rw (tell_all-deadline 0 cs)
      (answered-Answers events after (finalize_composite after) forced.0 forced.1)
running-Answers (CompositeEvent.client_gone ∷ events) cs s =
    λ children joined e. absurd (cc (e, run-dropped events))

-- The answer to a composite request, in whatever order its dependencies finish, and whether or not
-- the overall deadline cuts them off: it is given when every dependency is finished; its children
-- are the dependencies of the route, each with its name, whether it is required, and what the
-- events have made of it; under each name stands the item of the last dependency of that name, and
-- nothing under other names; and its status is 503 if some required dependency is not ok, and 200
-- otherwise, so an optional one never fails the request.
pub composite-answered :
    (deps : List (CompositeDependency × Target)) (events : List CompositeEvent)
    (children : List Child) (joined : Aggregate)
    → composite_run events (start_composite deps) ≡ Composite.answered children joined
    → (all_finished children ≡ true)
      × (needs children ≡ asks deps)
      × (children ≡ outcomes events (start_children deps))
      × ((name : Bytes) → lookup name joined.dependencies ≡ last_item name children none)
      × (joined.status_code ≡ (if any lets_down children then 503 else 200))
unfolding finalize_composite start_composite lookup
composite-answered deps events children joined e =
    let inv : Inv deps (Composite.answered children joined) =
      rw e at (composite_run-Inv deps events (start_composite deps) (start_composite-Inv deps)) in
    let failed = join_items-failed children [] false inv.0.sound inv.1 in
    let begun = start_children_sound deps in
    let told =
      settle-Answers events (start_children deps) begun
        (running-Answers events (start_children deps) begun) children joined e in
    (
      inv.1,
      inv.0.same,
      told,
      λ name. ap (λ a. lookup name a.dependencies) inv.2 ∙ lookup-join_items name children [] false,
      ap (λ a. a.status_code) inv.2 ∙ rw failed refl,
    )
