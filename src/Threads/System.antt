-- ===== src/Threads/System.antt =====
-- All threads over one pool, in any order.
use mathlib.Core.List.{append_assoc}
use epoll_gateway.Base.{
  ℕ, suc, ◌+◌, ◌-◌, ◌≤◌, ◌<◌, Bool, true, List, [], ◌∷◌, ◌++◌, some, ◌≡◌, ◌⊎◌, ap, sym, ◌∙◌, arith,
  length, length-append, if◌then◌else◌, max,
}
use epoll_gateway.Threads.Workers.{
  Limits, DynamicThreadPool, Turn, new_pool, enqueue, stop_pool, worker_turn, woken,
  should_scale_up, should_scale_down, add_worker,
}

-- The pool, how many workers stand in `wait_for`, and the tasks that the others run. The other
-- fields are history: the tasks that `enqueue` took, those that workers took, and how many have
-- been run to their end.
pub record System : Type 0 where
  pub pool : DynamicThreadPool
  pub waiting : ℕ
  pub running : List ℕ
  pub submitted : List ℕ
  pub taken : List ℕ
  pub completed : ℕ

abbrev pub boot : Limits → System
boot limits = record {
  pool = new_pool limits;
  waiting = limits.min_threads;
  running = [];
  submitted = [];
  taken = [];
  completed = 0;
}

-- A caller enqueues a task; the owner stops the pool; a waiting worker takes its turn; a worker that
-- runs a task comes to its end.
pub data Step (limits : Limits) (s : System) : System → Type 0 where
  enqueues :
      (task : ℕ) {pool : DynamicThreadPool} {added : Bool}
      → enqueue limits task s.pool ≡ some (pool, added)
      → Step limits s (record s {
        pool = pool;
        waiting = if added then suc s.waiting else s.waiting;
        submitted = s.submitted ++ task ∷ [];
      })
  stops : Step limits s (record s { pool = stop_pool s.pool })
  takes :
      (task : ℕ) {pool : DynamicThreadPool}
      → 0 < s.waiting
      → worker_turn limits s.pool ≡ Turn.runs task pool
      → Step limits s (record s {
        pool = pool;
        waiting = s.waiting - 1;
        running = task ∷ s.running;
        taken = s.taken ++ task ∷ [];
      })
  leaves :
      {pool : DynamicThreadPool}
      → 0 < s.waiting
      → worker_turn limits s.pool ≡ Turn.exits pool
      → Step limits s (record s { pool = pool; waiting = s.waiting - 1 })
  completes :
      (before : List ℕ) (task : ℕ) (after : List ℕ)
      → s.running ≡ before ++ task ∷ after
      → Step limits s (record s {
        waiting = suc s.waiting;
        running = before ++ after;
        completed = suc s.completed;
      })

pub data Reach (limits : Limits) : System → Type 0 where
  start : Reach limits (boot limits)
  later : {s t : System} → Reach limits s → Step limits s t → Reach limits t

-- Every live worker waits or runs one task; tasks are taken in the order in which they were
-- enqueued, and each is waiting, running or completed; the number of workers stays in its limits,
-- and only a stopped pool goes below the least.
pub record IsSound (limits : Limits) (s : System) : Type 0 where
  pub workers : s.pool.current_threads ≡ s.waiting + length s.running
  pub order : s.submitted ≡ s.taken ++ s.pool.tasks
  pub tally : length s.taken ≡ length s.running + s.completed
  pub at_most : s.pool.current_threads ≤ max limits.min_threads limits.max_threads
  pub at_least : (if s.pool.stop then 0 else limits.min_threads) ≤ s.pool.current_threads

-- What the calls do to a pool.
pub enqueue_lem :
    (limits : Limits) (task : ℕ) (pool pool' : DynamicThreadPool) (added : Bool)
    → enqueue limits task pool ≡ some (pool', added)
    → (pool'.tasks ≡ pool.tasks ++ task ∷ [])
      × (pool'.stop ≡ pool.stop)
      × (pool'.current_threads ≡ (if added then suc pool.current_threads else pool.current_threads))
      × (pool'.current_threads ≤ max pool.current_threads limits.max_threads)
unfolding enqueue should_scale_up add_worker
enqueue_lem limits task pool pool' added e = ground arith

pub runs_lem :
    (limits : Limits) (task : ℕ) (pool pool' : DynamicThreadPool)
    → worker_turn limits pool ≡ Turn.runs task pool'
    → (pool.tasks ≡ task ∷ pool'.tasks)
      × (pool'.stop ≡ pool.stop)
      × (pool'.current_threads ≡ pool.current_threads)
unfolding worker_turn woken should_scale_down
runs_lem limits task pool pool' e = ground arith

pub exits_lem :
    (limits : Limits) (pool pool' : DynamicThreadPool)
    → worker_turn limits pool ≡ Turn.exits pool'
    → (pool.tasks ≡ [])
      × (pool'.tasks ≡ [])
      × (pool'.stop ≡ pool.stop)
      × (pool'.current_threads ≡ pool.current_threads - 1)
      × ((pool.stop ≡ true) ⊎ (limits.min_threads < pool.current_threads))
unfolding worker_turn woken should_scale_down
exits_lem limits pool pool' e = ground arith

step-IsSound :
    (limits : Limits) (s t : System) → IsSound limits s → Step limits s t → IsSound limits t
step-IsSound limits s t h (Step.stops) = unfold stop_pool in ground arith
step-IsSound limits s _ h (Step.enqueues task {pool = pool} {added = added} e) =
    let q = enqueue_lem limits task s.pool pool added e in
    record {
      workers = ground (arith, q, h);
      order =
          ap (λ t. t ++ task ∷ []) h.order
          ∙ append_assoc s.taken s.pool.tasks (task ∷ [])
          ∙ ap (λ t. s.taken ++ t) (sym q.0);
      tally = h.tally;
      at_most = ground (arith, q, h);
      at_least = ground (arith, q, h);
    }
step-IsSound limits s _ h (Step.takes task {pool = pool} p e) =
    let q = runs_lem limits task s.pool pool e in
    record {
      workers = ground (arith, q, h, p);
      order =
          h.order ∙ ap (λ t. s.taken ++ t) q.0 ∙ sym (append_assoc s.taken (task ∷ []) pool.tasks);
      tally = ground (arith, h, length-append s.taken (task ∷ []));
      at_most = ground (arith, q, h);
      at_least = ground (arith, q, h);
    }
step-IsSound limits s _ h (Step.leaves {pool = pool} p e) =
    let q = exits_lem limits s.pool pool e in
    record {
      workers = ground (arith, q, h, p);
      order = h.order ∙ ap (λ t. s.taken ++ t) (q.0 ∙ sym q.1);
      tally = h.tally;
      at_most = ground (arith, q, h);
      at_least = ground (arith, q, h, p);
    }
step-IsSound limits s _ h (Step.completes before task after e) =
    let n = length-append before (task ∷ after) in
    let m = length-append before after in
    let r = ap length e in
    record {
      workers = omega (arith, h.workers, n, m, r);
      order = h.order;
      tally = omega (arith, h.tally, n, m, r);
      at_most = h.at_most;
      at_least = h.at_least;
    }

-- Whatever callers, workers and the owner do, in any order: every live worker waits or runs one
-- task; the tasks taken, and then those still queued, are those enqueued, in their order, and each
-- that was taken is running or completed; the number of workers never passes the configured most
-- (or the least, if that is larger), and only a stopped pool has fewer than the least.
pub Reach-IsSound : (limits : Limits) (s : System) → Reach limits s → IsSound limits s
Reach-IsSound limits _ Reach.start = unfold new_pool in ground arith
Reach-IsSound limits t (Reach.later {s = s} r step) =
    step-IsSound limits s t (Reach-IsSound limits s r) step
