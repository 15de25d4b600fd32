-- ===== src/Handler/Composite.antt =====
-- A composite route: its dependencies, each an exchange of its own, and the response that joins them.
use epoll_gateway.Base.{
  ℕ, Bool, true, false, not, ◌&&◌, ◌||◌, List, [], ◌∷◌, map, modify, get_elem?, Option, none, some,
  all, if◌then◌else◌,
}
use epoll_gateway.Base.Bytes.{Bytes, ascii}
use epoll_gateway.Base.Int.{ℤ, pos, ltb_ℤ}
use epoll_gateway.Base.Table.{Table, insert}
use epoll_gateway.Config.Types.{CompositeDependency}
use epoll_gateway.Client.State.{BackendResponse}
use epoll_gateway.Handler.Finishing.{is_timeout}

-- `item["status"]`; `unset` is an item without one.
pub data ItemStatus : Type 0 where
  unset ok failed unavailable : ItemStatus

-- The members of an item that tell how the dependency went.
pub record Item : Type 0 where
  pub status : ItemStatus
  pub http_status : ℤ
  pub error : Bytes
  pub timed_out : Bool
  pub body : Option Bytes

-- `ChildExchange`; `in_flight` is whether `ex` is there.
pub record Child : Type 0 where
  pub name : Bytes
  pub required : Bool
  pub finished : Bool
  pub in_flight : Bool
  pub item : Item

abbrev pub fresh_item : Item
fresh_item = record {
  status = ItemStatus.unset;
  http_status = pos 0;
  error = [];
  timed_out = false;
  body = none;
}

-- What `start_composite_exchange` finds for a dependency: no upstream with a server, an open circuit,
-- or a server to ask.
pub data Target : Type 0 where
  missing circuit_open live : Target

unfoldable pub start_child : CompositeDependency → Target → Child
start_child dep target =
    let child : Child = record {
      name = dep.name;
      required = dep.required;
      finished = true;
      in_flight = false;
      item = fresh_item;
    } in
    elim target [
      | Target.missing ↦ record child {
        item = record fresh_item {
          status = ItemStatus.unavailable;
          error =
              ascii (if dep.required then "missing_upstream" else "optional_dependency_missing");
        };
      }
      | Target.circuit_open ↦ record child {
        item = record fresh_item {
          status = ItemStatus.failed;
          http_status = pos 503;
          error = ascii "circuit_open";
        };
      }
      | Target.live ↦ record child { finished = false; in_flight = true }
    ]

unfoldable pub start_children : List (CompositeDependency × Target) → List Child
unfolding start_child
start_children [] = []
start_children ((dep, target) ∷ rest) = start_child dep target ∷ start_children rest

-- `finish_child`, in a composite: the exchange is done.
unfoldable pub finished_item : Bool → BackendResponse → Item → Item
finished_item succeeded be item =
    let good = not (ltb_ℤ be.status_code (pos 200)) && ltb_ℤ be.status_code (pos 300) in
    let late = is_timeout be.error in
    if succeeded
    then record item {
      status = if good then ItemStatus.ok else ItemStatus.failed;
      http_status = be.status_code;
      error = if good then [] else be.body;
      timed_out = not (ltb_ℤ be.status_code (pos 504)) && ltb_ℤ be.status_code (pos 505);
      body = if good then some be.body else item.body;
    }
    else record item {
      status = ItemStatus.failed;
      http_status = if late then pos 504 else pos 502;
      error = ascii (if late then "upstream_timeout" else "upstream_unavailable");
      timed_out = late;
    }

abbrev pub finish_with : Item → Child → Child
finish_with item child = record child { item = item; finished = true; in_flight = false }

unfoldable pub finish_composite_child : Bool → BackendResponse → Child → Child
finish_composite_child succeeded be child =
    finish_with (finished_item succeeded be child.item) child

-- `force_finish_child`.
unfoldable pub force_finish_child : Child → Child
force_finish_child child =
    if child.finished
    then child
    else finish_with
        (record child.item {
          status = ItemStatus.failed;
          http_status = pos 504;
          error = ascii "upstream_timeout";
          timed_out = true;
        })
        child

-- The payload, as far as it depends on the children.
pub record Aggregate : Type 0 where
  pub status_code : ℕ
  pub status : Bytes
  pub dependencies : Table Item

abbrev pub is_bad : ItemStatus → Bool
is_bad ItemStatus.failed = true
is_bad ItemStatus.unavailable = true
is_bad _ = false

-- The loop of `finalize_composite`.
unfoldable pub join_items : List Child → Table Item → Bool → Table Item × Bool
join_items [] composite required_failed = (composite, required_failed)
join_items (child ∷ rest) composite required_failed =
    join_items rest (insert child.name child.item composite)
      (required_failed || child.required && is_bad child.item.status)

unfoldable pub finalize_composite : List Child → Aggregate
finalize_composite children =
    let (composite, required_failed) = join_items children [] false in
    record {
      status_code = if required_failed then 503 else 200;
      status = ascii (if required_failed then "partial_failure" else "ok");
      dependencies = composite;
    }

-- The state of a client's composite request: the entry of `client_upstream_`, or what it came to. An
-- answer is kept with the children that it was made of.
pub data Composite : Type 0 where
  running : List Child → Composite
  answered : List Child → Aggregate → Composite
  dropped : Composite

abbrev pub all_finished : List Child → Bool
all_finished = all (λ child. child.finished)

unfoldable pub settle : List Child → Composite
unfolding finalize_composite
settle children =
    if all_finished children
    then Composite.answered children (finalize_composite children)
    else Composite.running children

-- `start_composite_exchange`.
unfoldable pub start_composite : List (CompositeDependency × Target) → Composite
unfolding settle start_children
start_composite deps = settle (start_children deps)

-- What the event loop meets: the exchange of a child is done, the overall deadline has passed, or
-- the client's connection goes away.
pub data CompositeEvent : Type 0 where
  child_done : ℕ → Bool → BackendResponse → CompositeEvent
  deadline_passed client_gone : CompositeEvent

abbrev pub flies : Option Child → Bool
flies none = false
flies (some child) = child.in_flight

-- An event of a child without an exchange, or of a request without an entry, does nothing.
unfoldable pub composite_step : CompositeEvent → Composite → Composite
unfolding settle finish_composite_child force_finish_child
composite_step (CompositeEvent.child_done i succeeded be) (Composite.running children) =
    if flies (get_elem? children i)
    then settle (modify children i (finish_composite_child succeeded be))
    else Composite.running children
composite_step CompositeEvent.deadline_passed (Composite.running children) =
    let forced = map force_finish_child children in
    Composite.answered forced (finalize_composite forced)
composite_step CompositeEvent.client_gone (Composite.running children) = Composite.dropped
composite_step event state = state

unfoldable pub composite_run : List CompositeEvent → Composite → Composite
composite_run [] state = state
composite_run (event ∷ events) state = composite_run events (composite_step event state)
