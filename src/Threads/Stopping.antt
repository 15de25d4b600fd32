-- ===== src/Threads/Stopping.antt =====
-- A stopped pool: its workers finish every task that was enqueued, and leave.
use mathlib.Core.List.{append-nil}
use epoll_gateway.Base.{
  ℕ, zero, suc, ◌+◌, ◌*◌, ◌<◌, Bool, true, false, sym, ◌++◌, ◌∙◌, List, [], ◌∷◌, some, ◌≡◌, ◌⊎◌,
  inl, inr, refl, ap, arith, length, length-append, Bool-cases,
}
use epoll_gateway.Threads.Workers.{
  Limits, DynamicThreadPool, Turn, enqueue, stop_pool, worker_turn, woken, leave,
}
use epoll_gateway.Threads.System.{
  System, Step, Reach, IsSound, Reach-IsSound, runs_lem, exits_lem, enqueue_lem,
}

-- How much is left: a queued task is to be taken and run, a worker is to leave.
abbrev pub left_over : System → ℕ
left_over s = 3 * length s.pool.tasks + 2 * length s.running + s.waiting

no_enqueue :
    (limits : Limits) (task : ℕ) (pool pool' : DynamicThreadPool) (added : Bool)
    → pool.stop ≡ true
    → enqueue limits task pool ≡ some (pool', added)
    → ⊥
unfolding enqueue
no_enqueue limits task pool pool' added h e = ground arith

-- The owner's step.
abbrev pub is_stop : {limits : Limits} {s t : System} → Step limits s t → Bool
is_stop Step.stops = true
is_stop _ = false

-- Once the pool is stopped, no task is enqueued any more; each step but the owner's makes what is
-- left smaller, whichever it is; and to stop the pool again changes nothing.
pub stopped-left_over :
    (limits : Limits) (s t : System)
    → s.pool.stop ≡ true
    → (step : Step limits s t)
    → (t.submitted ≡ s.submitted)
      × (is_stop step ≡ false → left_over t < left_over s)
      × (is_stop step ≡ true → t ≡ s)
stopped-left_over limits s t h Step.stops =
    unfold stop_pool in
    (
      refl,
      λ other. absurd (ground arith),
      λ same. ap (λ b. record s { pool = record s.pool { stop = b } }) (sym h),
    )
stopped-left_over limits s _ h (Step.enqueues task {pool = pool} {added = added} e) =
    absurd (no_enqueue limits task s.pool pool added h e)
stopped-left_over limits s _ h (Step.takes task {pool = pool} p e) =
    let q = runs_lem limits task s.pool pool e in
    (refl, λ other. ground (arith, ap length q.0, p), λ stop. absurd (ground arith))
stopped-left_over limits s _ h (Step.leaves {pool = pool} p e) =
    let q = exits_lem limits s.pool pool e in
    (refl, λ other. omega (arith, ap length q.0, ap length q.1, p), λ stop. absurd (ground arith))
stopped-left_over limits s _ h (Step.completes before task after e) =
    let n = length-append before (task ∷ after) in
    let m = length-append before after in
    (refl, λ other. omega (arith, n, m, ap length e), λ stop. absurd (ground arith))

-- What the workers of a pool come to, if nobody else does anything.
pub data Works (limits : Limits) : System → System → Type 0 where
  rests : {s : System} → Works limits s s
  goes_on :
      {s t u : System} (step : Step limits s t)
      → is_stop step ≡ false
      → Works limits t u
      → Works limits s u

-- The end of the pool `s`: no worker is left, no task is queued or running, and those that were
-- enqueued in `s` have been taken in their order and run to their end.
pub record IsDrained (s t : System) : Type 0 where
  pub gone : t.pool.current_threads ≡ 0
  pub empty : t.pool.tasks ≡ []
  pub idle : t.running ≡ []
  pub all_taken : t.taken ≡ s.submitted
  pub all_done : t.completed ≡ length s.submitted

-- The step that a stopped pool with a worker can make.
next_step :
    (limits : Limits) (s : System)
    → IsSound limits s
    → s.pool.stop ≡ true
    → 0 < s.pool.current_threads
    → (t : System) × (step : Step limits s t) × (is_stop step ≡ false) × (t.pool.stop ≡ true)
next_step limits s h stopped some_worker = go s.running s.pool.tasks refl refl
  where
    go :
        (running tasks : List ℕ)
        → s.running ≡ running
        → s.pool.tasks ≡ tasks
        → (t : System) × (step : Step limits s t) × (is_stop step ≡ false) × (t.pool.stop ≡ true)
    go (task ∷ after) tasks e k = (_, Step.completes [] task after e, refl, stopped)
    go [] (task ∷ rest) e k =
        let free : 0 < s.waiting = omega (arith, h.workers, ap length e, some_worker) in
        let takes : worker_turn limits s.pool ≡ Turn.runs task (record s.pool { tasks = rest }) =
          unfold worker_turn woken in rw (k, stopped) refl in
        (_, Step.takes task free takes, refl, stopped)
    go [] [] e k =
        let free : 0 < s.waiting = omega (arith, h.workers, ap length e, some_worker) in
        let exits : worker_turn limits s.pool ≡ Turn.exits (leave s.pool) =
          unfold worker_turn woken in rw (k, stopped) refl in
        (_, Step.leaves free exits, refl, stopped)

-- A task that is queued has a worker left to take it.
abbrev IsCovered : DynamicThreadPool → Type 0
IsCovered pool = (pool.tasks ≡ []) ⊎ (0 < pool.current_threads)

step-IsCovered :
    (limits : Limits) (s t : System)
    → 0 < limits.min_threads
    → IsSound limits s
    → IsCovered s.pool
    → Step limits s t
    → IsCovered t.pool
step-IsCovered limits s t m h c Step.stops = unfold stop_pool in c
step-IsCovered limits s _ m h c (Step.enqueues task {pool = pool} {added = added} e) =
    let q = enqueue_lem limits task s.pool pool added e in
    elim (Bool-cases s.pool.stop) [
      | inl stopped ↦ absurd (no_enqueue limits task s.pool pool added stopped e)
      | inr open_pool ↦ inr (ground (arith, q, h))
    ]
step-IsCovered limits s _ m h c (Step.takes task {pool = pool} p e) =
    let q = runs_lem limits task s.pool pool e in inr (ground (arith, q, c))
step-IsCovered limits s _ m h c (Step.leaves {pool = pool} p e) =
    inl (exits_lem limits s.pool pool e).1
step-IsCovered limits s _ m h c (Step.completes before task after e) = c

Reach-IsCovered :
    (limits : Limits) (s : System) → 0 < limits.min_threads → Reach limits s → IsCovered s.pool
Reach-IsCovered limits _ m Reach.start = unfold epoll_gateway.Threads.Workers.new_pool in inl refl
Reach-IsCovered limits t m (Reach.later {s = s} r step) =
    step-IsCovered limits s t m (Reach-IsSound limits s r) (Reach-IsCovered limits s m r) step

drained :
    (limits : Limits) (n : ℕ) (s : System)
    → 0 < limits.min_threads
    → left_over s < n
    → Reach limits s
    → s.pool.stop ≡ true
    → (t : System) × (Works limits s t × IsDrained s t)
drained limits zero s m l r h = absurd (omega arith)
drained limits (suc n) s m l r h = elim (zero_or_more s.pool.current_threads) [
  | inl none_left ↦
      let v = Reach-IsSound limits s r in
      let empty : s.pool.tasks ≡ [] = ground (arith, Reach-IsCovered limits s m r) in
      let idle = no_tasks s.running (omega (arith, v.workers)) in
      let all_taken : s.taken ≡ s.submitted =
        sym (append-nil s.taken) ∙ ap (λ q. s.taken ++ q) (sym empty) ∙ sym v.order in
      (
        s,
        (
          Works.rests,
          record {
            gone = none_left;
            empty = empty;
            idle = idle;
            all_taken = all_taken;
            all_done = omega (
              arith,
              v.workers,
              v.tally,
              ap length v.order,
              length-append s.taken s.pool.tasks,
              ap length empty,
            );
          },
        ),
      )
  | inr some_left ↦
      let (t, step, works, stopped) = next_step limits s (Reach-IsSound limits s r) h some_left in
      let near = stopped-left_over limits s t h step in
      let (u, (more, over)) =
        drained limits n t m (omega (arith, l, near.1 works)) (Reach.later r step) stopped in
      (
        u,
        (
          Works.goes_on step works more,
          record {
            gone = over.gone;
            empty = over.empty;
            idle = over.idle;
            all_taken = over.all_taken ∙ near.0;
            all_done = over.all_done ∙ ap length near.0;
          },
        ),
      )
]
  where
    no_tasks : (running : List ℕ) → length running ≡ 0 → running ≡ []
    no_tasks [] e = refl
    no_tasks (task ∷ rest) e = absurd (omega (arith, e))

    zero_or_more : (k : ℕ) → (k ≡ 0) ⊎ (0 < k)
    zero_or_more zero = inl refl
    zero_or_more (suc k) = inr (omega arith)

-- From whatever state in which a pool with at least one thread is stopped, steps of its workers
-- alone lead to its end: no worker is left for the owner to join, no task is queued or running, and
-- the tasks that were enqueued have all been taken, in their order, and completed.
pub Reach-drains :
    (limits : Limits) (s : System)
    → 0 < limits.min_threads
    → Reach limits s
    → s.pool.stop ≡ true
    → (t : System) × (Works limits s t × IsDrained s t)
Reach-drains limits s m r h = drained limits (suc (left_over s)) s m (omega arith) r h
