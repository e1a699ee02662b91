-- ===== src/Workers/Witnesses.antt =====
-- The theorems about the pool, each at a state of the runs in Examples.
use evictor.Prelude.{◌+◌, ◌*◌, ◌<◌, ◌≤◌, ◌≡◌, refl, true, false, [], length, wrap64}
use evictor.Prelude.Int.{pos}
use evictor.Metrics.{snapshot}
use evictor.Workers.Pool.{nil, wait}
use evictor.Workers.Consumer.{Move}
use evictor.Workers.System.{SystemOps}
use evictor.Workers.Invariant.{Inv, Reach-Inv, held, behind}
use evictor.Workers.Safety.{never_broken, queue_depth-exact, wait-nil}
use evictor.Workers.Losses.{Origin, wait-drain_incomplete}
use evictor.Workers.Drain.{idle, by_worker, Churn-bounded}
use evictor.Workers.Examples.{opts, opts-IsSane, submitted, attempted, stopped, abandoned}

Reach-Inv_example : Inv abandoned.0
Reach-Inv_example = Reach-Inv opts-IsSane abandoned.1

never_broken_example :
    (stopped.0.pool.broken ≡ false) × (length stopped.0.pool.jobs ≤ stopped.0.pool.capacity)
never_broken_example = never_broken opts-IsSane stopped.1

queue_depth-exact_example :
    (snapshot submitted.0.pool.metrics).queue_depth
    ≡ pos (length submitted.0.pool.jobs + behind submitted.0.workers submitted.0.drain)
unfolding SystemOps
queue_depth-exact_example = queue_depth-exact opts-IsSane submitted.1 refl

wait-drain_incomplete_example : (0 < 1) × Origin opts 1 abandoned.0
unfolding SystemOps wait
wait-drain_incomplete_example = wait-drain_incomplete opts-IsSane abandoned.1 true false refl

wait-nil_example :
    (stopped.0.pool.jobs ≡ [])
    × (held stopped.0.workers stopped.0.drain ≡ 0)
    × (stopped.0.pool.settled ≡ stopped.0.pool.accepted)
    × (wrap64 (stopped.0.pool.metrics.jobs_processed + stopped.0.pool.metrics.jobs_dead_lettered)
        ≡ stopped.0.pool.accepted)
    × (stopped.0.pool.metrics.jobs_failed ≡ stopped.0.pool.metrics.jobs_dead_lettered)
unfolding SystemOps wait
wait-nil_example = wait-nil opts-IsSane stopped.1 true false refl

Churn-bounded_example :
    1
    ≤ length attempted.0.pool.jobs * (8 + 3 * attempted.0.pool.max_attempts)
      + (length attempted.0.workers + 1) * (9 + 3 * attempted.0.pool.max_attempts)
unfolding SystemOps
Churn-bounded_example =
    Churn-bounded opts-IsSane attempted.1 (by_worker 0 idle refl (Move.succeed nil refl))
