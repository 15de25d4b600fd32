-- ===== src/Threads/Workers.antt =====
-- `DynamicThreadPool` of server/pool.cpp and include/server/pool.h: `enqueue`, and a turn of
-- `workerLoop`. Both hold the mutex, so each is one step. A task is a number.
use epoll_gateway.Base.{
  ℕ, suc, ◌-◌, ◌*◌, ◌%◌, Bool, true, false, not, ◌&&◌, ◌||◌, List, [], ◌∷◌, ◌++◌, Option, none,
  some, ltb, is_empty, length, if◌then◌else◌,
}
use epoll_gateway.Http.Parser.State.{size_mod}

pub record Limits : Type 0 where
  pub min_threads : ℕ
  pub max_threads : ℕ
  pub scale_up_threshold : ℕ

-- The fields under the mutex. `workers_` holds every thread that was ever started and is only read
-- at the end.
pub record DynamicThreadPool : Type 0 where
  pub tasks : List ℕ
  pub stop : Bool
  pub current_threads : ℕ

unfoldable pub should_scale_down : Limits → DynamicThreadPool → Bool
should_scale_down limits pool =
    not pool.stop && is_empty pool.tasks && ltb limits.min_threads pool.current_threads

unfoldable pub should_scale_up : Limits → DynamicThreadPool → Bool
should_scale_up limits pool =
    ltb ((pool.current_threads * limits.scale_up_threshold) % size_mod) (length pool.tasks)
    && ltb pool.current_threads limits.max_threads

unfoldable pub add_worker : DynamicThreadPool → DynamicThreadPool
add_worker pool = record pool { current_threads = suc pool.current_threads }

-- The constructor starts the least number of workers.
unfoldable pub new_pool : Limits → DynamicThreadPool
new_pool limits = record { tasks = []; stop = false; current_threads = limits.min_threads }

-- With whether a worker was added; `none` is the throw of a stopped pool.
unfoldable pub enqueue : Limits → ℕ → DynamicThreadPool → Option (DynamicThreadPool × Bool)
unfolding add_worker should_scale_up
enqueue limits task pool =
    let queued = record pool { tasks = pool.tasks ++ task ∷ [] } in
    if pool.stop
    then none
    else if should_scale_up limits queued
    then some (add_worker queued, true)
    else some (queued, false)

unfoldable pub stop_pool : DynamicThreadPool → DynamicThreadPool
stop_pool pool = record pool { stop = true }

-- How a turn of `workerLoop` ends: the worker runs a task, exits, or waits again.
pub data Turn : Type 0 where
  runs : ℕ → DynamicThreadPool → Turn
  exits waits : DynamicThreadPool → Turn

abbrev pub leave : DynamicThreadPool → DynamicThreadPool
leave pool = record pool { current_threads = pool.current_threads - 1 }

-- `wait_for` has returned true.
unfoldable pub woken : List ℕ → DynamicThreadPool → Turn
woken [] pool = if pool.stop then Turn.exits (leave pool) else Turn.waits pool
woken (task ∷ rest) pool = Turn.runs task (record pool { tasks = rest })

-- `wait_for` returns what its predicate says, at a wake-up or after a second.
unfoldable pub worker_turn : Limits → DynamicThreadPool → Turn
unfolding woken should_scale_down
worker_turn limits pool =
    if pool.stop || not (is_empty pool.tasks)
    then woken pool.tasks pool
    else if should_scale_down limits pool
    then Turn.exits (leave pool)
    else Turn.waits pool
