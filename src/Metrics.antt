-- ===== src/Metrics.antt =====
-- backend/internal/metrics/counters.go: the process-wide counters and their snapshot.
use evictor.Prelude.{ℕ, add64, signed}
use evictor.Prelude.Int.{ℤ}

-- Each field is the bit pattern of an int64.
pub record Counters : Type 0 where
  pub queue_depth : ℕ
  pub queue_capacity : ℕ
  pub jobs_processed : ℕ
  pub jobs_failed : ℕ
  pub jobs_dead_lettered : ℕ
  pub jobs_abandoned : ℕ

pub record Snapshot : Type 0 where
  pub queue_depth : ℤ
  pub queue_capacity : ℤ
  pub jobs_processed : ℤ
  pub jobs_failed : ℤ
  pub jobs_dead_lettered : ℤ
  pub jobs_abandoned : ℤ

unfoldable pub new_counters : ℕ → Counters
new_counters queue_capacity = record {
  queue_depth = 0;
  queue_capacity = queue_capacity;
  jobs_processed = 0;
  jobs_failed = 0;
  jobs_dead_lettered = 0;
  jobs_abandoned = 0;
}

unfoldable pub set_queue_depth : ℕ → Counters → Counters
set_queue_depth depth c = record c { queue_depth = depth }

unfoldable pub add_queue_depth : ℕ → Counters → Counters
add_queue_depth delta c = record c { queue_depth = add64 c.queue_depth delta }

unfoldable pub job_processed : Counters → Counters
job_processed c = record c { jobs_processed = add64 c.jobs_processed 1 }

unfoldable pub job_failed : Counters → Counters
job_failed c = record c { jobs_failed = add64 c.jobs_failed 1 }

unfoldable pub job_dead_lettered : Counters → Counters
job_dead_lettered c = record c { jobs_dead_lettered = add64 c.jobs_dead_lettered 1 }

unfoldable pub add_jobs_abandoned : ℕ → Counters → Counters
add_jobs_abandoned count c = record c { jobs_abandoned = add64 c.jobs_abandoned count }

unfoldable pub snapshot : Counters → Snapshot
snapshot c = record {
  queue_depth = signed c.queue_depth;
  queue_capacity = signed c.queue_capacity;
  jobs_processed = signed c.jobs_processed;
  jobs_failed = signed c.jobs_failed;
  jobs_dead_lettered = signed c.jobs_dead_lettered;
  jobs_abandoned = signed c.jobs_abandoned;
}
