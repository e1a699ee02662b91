-- ===== src/Workers/Pool.antt =====
-- backend/internal/workers/pool.go: the pool's fields, and each access to them as one function.
use evictor.Prelude.{
  ℕ, ◌*◌, String, Bool, true, false, ◌||◌, Option, none, some, List, [], ◌∷◌, ◌++◌, length, ltb,
  if◌then◌else◌, add64, sub64, minus_one, is_positive64,
}
use evictor.Prelude.Int.{ℤ, pos, negsuc}
use evictor.Metrics.{
  Counters, new_counters, add_queue_depth, job_processed, job_failed, job_dead_lettered,
  add_jobs_abandoned,
}

-- The identity of a submitted function. What a call of it does is chosen by the environment.
abbrev pub Job : Type 0
Job = ℕ

-- The errors that a job can end with: the context's, the job's own, and a recovered panic.
pub data JobError : Type 0 where
  canceled : JobError
  returned : String → JobError
  panicked : String → JobError

-- The errors of `Submit` and `Wait`; the count is the one that the message carries.
pub data PoolError : Type 0 where
  queue_full : PoolError
  pool_stopped : PoolError
  drain_incomplete : ℕ → PoolError
  wait_expired : PoolError

-- How a call of a job ends.
pub data Ending : Type 0 where
  nil : Ending
  error : String → Ending
  panic : String → Ending

-- `runJob`: a panic is recovered and becomes an error.
unfoldable pub run_job : Ending → Option JobError
run_job nil = none
run_job (error e) = some (returned e)
run_job (panic v) = some (panicked v)

-- `Options`, without the logger. `dead_letter` says whether a dead-letter function is given.
pub record Options : Type 0 where
  pub workers : ℤ
  pub capacity : ℤ
  pub max_attempts : ℤ
  pub drain_timeout : ℤ
  pub metrics : Option Counters
  pub dead_letter : Bool

-- How far the call of `Submit` that holds `stateMu` has come; `free` if no call holds it.
pub data Lock : Type 0 where
  free : Lock
  entered : Job → Lock
  sent : Lock
  counting : Lock

pub record Pool : Type 0 where
  pub jobs : List Job
  pub capacity : ℕ
  pub size : ℕ
  pub max_attempts : ℕ
  pub drain_timeout : ℕ
  pub metrics : Counters
  pub dead_letter : Bool
  pub dead_letters : List (Job × Option JobError)
  pub started : Bool
  pub done : Bool
  pub lock : Lock
  pub stopping : Bool
  pub closed : Bool
  pub cancelled : Bool
  pub accepted : ℕ
  pub settled : ℕ
  pub abandoned : ℕ
  pub broken : Bool

-- `if x <= 0 { x = d }`
unfoldable pub at_least_one : ℤ → ℕ → ℕ
at_least_one (pos n) d = if ltb 0 n then n else d
at_least_one (negsuc n) d = d

abbrev pub second : ℕ
second = 1000000000

abbrev pub metrics_or : Option Counters → ℕ → Counters
metrics_or none capacity = new_counters capacity
metrics_or (some c) capacity = c

unfoldable pub new_pool : Options → Pool
unfolding at_least_one new_counters
new_pool o = record {
  jobs = [];
  capacity = at_least_one o.capacity 1;
  size = at_least_one o.workers 1;
  max_attempts = at_least_one o.max_attempts 1;
  drain_timeout = at_least_one o.drain_timeout (15 * second);
  metrics = metrics_or o.metrics (at_least_one o.capacity 1);
  dead_letter = o.dead_letter;
  dead_letters = [];
  started = false;
  done = false;
  lock = free;
  stopping = false;
  closed = false;
  cancelled = false;
  accepted = 0;
  settled = 0;
  abandoned = 0;
  broken = false;
}

-- The `select` of `Submit`, in its two outcomes. Trying to send on a closed channel panics, also
-- where the channel is full.
unfoldable pub send_job : Job → Pool → Pool
send_job job p = record p { jobs = p.jobs ++ job ∷ []; broken = p.broken || p.closed }

unfoldable pub fail_to_send : Pool → Pool
fail_to_send p = record p { broken = p.broken || p.closed }

unfoldable pub add_accepted : Pool → Pool
add_accepted p = record p { accepted = add64 p.accepted 1 }

unfoldable pub deepen : ℕ → Pool → Pool
unfolding add_queue_depth
deepen delta p = record p { metrics = add_queue_depth delta p.metrics }

-- `Submit`, run with nobody in between: what the caller sees if it holds the mutex throughout.
unfoldable pub submit : Job → Pool → Pool × Option PoolError
unfolding send_job fail_to_send add_accepted deepen
submit job p =
    if p.stopping
    then (p, some pool_stopped)
    else if ltb (length p.jobs) p.capacity
    then (deepen 1 (add_accepted (send_job job p)), none)
    else (fail_to_send p, some queue_full)

-- `stopAccepting`. Closing a closed channel panics.
unfoldable pub stop_accepting : Pool → Pool
stop_accepting p =
    if p.stopping
    then p
    else record p { stopping = true; closed = true; broken = p.broken || p.closed }

unfoldable pub cancel_jobs : Pool → Pool
cancel_jobs p = record p { cancelled = true }

unfoldable pub close_done : Pool → Pool
close_done p = record p { done = true; broken = p.broken || p.done }

-- `p.executionCtx.Err()`
unfoldable pub ctx_err : Pool → Option JobError
ctx_err p = if p.cancelled then some canceled else none

-- `jobDequeued`, once it has the mutex.
unfoldable pub job_dequeued : Pool → Pool
unfolding deepen
job_dequeued p = deepen minus_one p

unfoldable pub add_settled : Pool → Pool
add_settled p = record p { settled = add64 p.settled 1 }

unfoldable pub count_processed : Pool → Pool
unfolding job_processed
count_processed p = record p { metrics = job_processed p.metrics }

unfoldable pub count_failed : Pool → Pool
unfolding job_failed
count_failed p = record p { metrics = job_failed p.metrics }

unfoldable pub count_dead_lettered : Pool → Pool
unfolding job_dead_lettered
count_dead_lettered p = record p { metrics = job_dead_lettered p.metrics }

-- The call of the dead-letter function, if there is one.
unfoldable pub call_dead_letter : Job → Option JobError → Pool → Pool
call_dead_letter job err p =
    if p.dead_letter then record p { dead_letters = (job, err) ∷ p.dead_letters } else p

-- `recordAbandoned`: the count, and the two writes.
unfoldable pub unaccounted : ℕ → Pool → ℕ
unaccounted loaded p = sub64 loaded p.settled

unfoldable pub store_abandoned : ℕ → Pool → Pool
store_abandoned count p = record p { abandoned = count }

unfoldable pub count_abandoned : ℕ → Pool → Pool
unfolding add_jobs_abandoned
count_abandoned count p = record p { metrics = add_jobs_abandoned count p.metrics }

-- `Wait`: `none` while it blocks. `expired` says whether the caller's context is done. If both
-- channels are ready the choice is open, and `prefer_done` makes it.
unfoldable pub wait : Bool → Bool → Pool → Option (Option PoolError)
wait prefer_done expired p =
    let finished =
      if is_positive64 p.abandoned then some (drain_incomplete p.abandoned) else none in
    if p.done
    then some (if expired then (if prefer_done then finished else some wait_expired) else finished)
    else if expired
    then some (some wait_expired)
    else none
