-- ===== src/Handler/Children.antt =====
-- The children of a composite request, through all its events.
use epoll_gateway.Base.{
  ℕ, zero, suc, Bool, true, List, [], ◌∷◌, map, modify, get_elem?, ◌≡◌, refl, ap, ◌∙◌, arith, inl,
  inr, all, Bool-cases,
}
use epoll_gateway.Base.Bytes.{Bytes}
use epoll_gateway.Config.Types.{CompositeDependency}
use epoll_gateway.Client.State.{BackendResponse}
use epoll_gateway.Handler.Outcomes.{is_sound}
use epoll_gateway.Handler.Composite.{
  Child, Target, Composite, CompositeEvent, start_child, start_children, finished_item,
  finish_composite_child, force_finish_child, finalize_composite, all_finished, settle,
  start_composite, flies, composite_step, composite_run,
}

abbrev pub needs : List Child → List (Bytes × Bool)
needs = map (λ child. (child.name, child.required))

abbrev pub asks : List (CompositeDependency × Target) → List (Bytes × Bool)
asks = map (λ entry. (entry.0.name, entry.0.required))

-- The children are those of the route's dependencies, and sound.
pub record Fits (deps : List (CompositeDependency × Target)) (children : List Child) : Type 0 where
  pub same : needs children ≡ asks deps
  pub sound : all is_sound children ≡ true

abbrev pub Inv : List (CompositeDependency × Target) → Composite → Type 0
Inv deps (Composite.running children) = Fits deps children
Inv deps (Composite.answered children joined) =
    Fits deps children × (all_finished children ≡ true) × (joined ≡ finalize_composite children)
Inv deps Composite.dropped = Unit {0}

start_children-needs :
    (deps : List (CompositeDependency × Target)) → needs (start_children deps) ≡ asks deps
unfolding start_children start_child
start_children-needs [] = refl
start_children-needs ((dep, target) ∷ rest) =
    let later = start_children-needs rest in kept target later
  where
    kept :
        (target : Target)
        → needs (start_children rest) ≡ asks rest
        → needs (start_child dep target ∷ start_children rest) ≡ asks ((dep, target) ∷ rest)
    kept Target.missing h = ap (λ t. (dep.name, dep.required) ∷ t) h
    kept Target.circuit_open h = ap (λ t. (dep.name, dep.required) ∷ t) h
    kept Target.live h = ap (λ t. (dep.name, dep.required) ∷ t) h

pub start_children_sound :
    (deps : List (CompositeDependency × Target)) → all is_sound (start_children deps) ≡ true
unfolding start_children start_child
start_children_sound [] = refl
start_children_sound ((dep, target) ∷ rest) = ground (arith, start_children_sound rest)

settle-Inv :
    (deps : List (CompositeDependency × Target)) (children : List Child)
    → Fits deps children
    → Inv deps (settle children)
unfolding settle
settle-Inv deps children h = elim (Bool-cases (all_finished children)) [
  | inl whole ↦ rw whole (h, whole, refl)
  | inr part ↦ rw part h
]

-- The end of a child's exchange keeps its name, and leaves it sound.
finish-same :
    (succeeded : Bool) (be : BackendResponse) (children : List Child) (i : ℕ)
    → needs (modify children i (finish_composite_child succeeded be)) ≡ needs children
unfolding finish_composite_child
finish-same succeeded be [] i = refl
finish-same succeeded be (child ∷ rest) zero = refl
finish-same succeeded be (child ∷ rest) (suc i) =
    ap (λ t. (child.name, child.required) ∷ t) (finish-same succeeded be rest i)

pub finish_sound :
    (succeeded : Bool) (be : BackendResponse) (children : List Child) (i : ℕ)
    → all is_sound children ≡ true
    → all is_sound (modify children i (finish_composite_child succeeded be)) ≡ true
unfolding finish_composite_child finished_item
finish_sound succeeded be [] i h = refl
finish_sound succeeded be (child ∷ rest) zero h = ground arith
finish_sound succeeded be (child ∷ rest) (suc i) h =
    ground (arith, finish_sound succeeded be rest i)

force-same : (children : List Child) → needs (map force_finish_child children) ≡ needs children
unfolding force_finish_child
force-same [] = refl
force-same (child ∷ rest) = elim (Bool-cases child.finished) [
  | inl over ↦ ground (arith, force-same rest)
  | inr open_child ↦ ground (arith, force-same rest)
]

pub force_sound :
    (children : List Child)
    → all is_sound children ≡ true
    → (all is_sound (map force_finish_child children) ≡ true)
      × (all_finished (map force_finish_child children) ≡ true)
unfolding force_finish_child
force_sound [] h = (refl, refl)
force_sound (child ∷ rest) h = ground (arith, force_sound rest)

module _ (deps : List (CompositeDependency × Target)) where
  composite_step-Inv :
      (event : CompositeEvent) (state : Composite)
      → Inv deps state
      → Inv deps (composite_step event state)
  unfolding composite_step
  composite_step-Inv (CompositeEvent.child_done i succeeded be) (Composite.running children) h =
      elim (Bool-cases (flies (get_elem? children i))) [
        | inl there ↦ rw there (
            settle-Inv deps (modify children i (finish_composite_child succeeded be)) (record {
              same = finish-same succeeded be children i ∙ h.same;
              sound = finish_sound succeeded be children i h.sound;
            }))
        | inr gone ↦ rw gone h
      ]
  composite_step-Inv CompositeEvent.deadline_passed (Composite.running children) h =
      let forced = force_sound children h.sound in
      (record { same = force-same children ∙ h.same; sound = forced.0 }, forced.1, refl)
  composite_step-Inv CompositeEvent.client_gone (Composite.running children) h = tt
  composite_step-Inv (CompositeEvent.child_done i s b) (Composite.answered cs a) h = h
  composite_step-Inv CompositeEvent.deadline_passed (Composite.answered cs a) h = h
  composite_step-Inv CompositeEvent.client_gone (Composite.answered cs a) h = h
  composite_step-Inv (CompositeEvent.child_done i s b) Composite.dropped h = tt
  composite_step-Inv CompositeEvent.deadline_passed Composite.dropped h = tt
  composite_step-Inv CompositeEvent.client_gone Composite.dropped h = tt

  pub composite_run-Inv :
      (events : List CompositeEvent) (state : Composite)
      → Inv deps state
      → Inv deps (composite_run events state)
  unfolding composite_run
  composite_run-Inv [] state h = h
  composite_run-Inv (event ∷ events) state h =
      composite_run-Inv events (composite_step event state) (composite_step-Inv event state h)

  pub start_composite-Inv : Inv deps (start_composite deps)
  unfolding start_composite
  start_composite-Inv =
      settle-Inv deps (start_children deps)
        (record { same = start_children-needs deps; sound = start_children_sound deps })
