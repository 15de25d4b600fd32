-- ===== src/Tests/Threads.antt =====
-- The thread pool (server/pool.cpp) on a short schedule.
use epoll_gateway.Base.{◌<◌, true, false, [], ◌∷◌, ◌≡◌, refl, arith}
use epoll_gateway.Threads.Workers.{
  Limits, DynamicThreadPool, enqueue, add_worker, should_scale_up, stop_pool, new_pool,
}
use epoll_gateway.Threads.System.{System, Step, Reach, IsSound, boot, Reach-IsSound}
use epoll_gateway.Threads.Stopping.{
  left_over, IsDrained, Works, is_stop, stopped-left_over, Reach-drains,
}

abbrev limits : Limits
limits = record { min_threads = 1; max_threads = 2; scale_up_threshold = 1 }

abbrev one_task : DynamicThreadPool
one_task = record { tasks = 7 ∷ []; stop = false; current_threads = 1 }

abbrev enqueued : System
enqueued = record (boot limits) { pool = one_task; submitted = 7 ∷ [] }

reached : Reach limits enqueued
unfolding new_pool enqueue should_scale_up add_worker
reached = Reach.later Reach.start (Step.enqueues 7 {pool = one_task} {added = false} refl)

Reach-IsSound_example : IsSound limits enqueued
Reach-IsSound_example = Reach-IsSound limits enqueued reached

abbrev stopped : System
stopped = record enqueued { pool = record one_task { stop = true } }

reached_stopped : Reach limits stopped
unfolding stop_pool
reached_stopped = Reach.later reached Step.stops

Reach-drains_example : (t : System) × (Works limits stopped t × IsDrained stopped t)
Reach-drains_example = Reach-drains limits stopped (omega arith) reached_stopped refl

abbrev again : Step limits stopped stopped
unfolding stop_pool
again = Step.stops

stopped-left_over_example :
    (stopped.submitted ≡ stopped.submitted)
    × (is_stop again ≡ false → left_over stopped < left_over stopped)
    × (is_stop again ≡ true → stopped ≡ stopped)
unfolding stop_pool
stopped-left_over_example = stopped-left_over limits stopped stopped refl again
