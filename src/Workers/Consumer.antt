-- ===== src/Workers/Consumer.antt =====
-- backend/internal/workers/pool.go: the goroutines that read the channel, an access at a time.
-- `work` and `drainQueue` share their control points and differ in what follows `jobDequeued`.
use evictor.Prelude.{ℕ, ◌+◌, ◌≤◌, ◌<◌, ◌≡◌, true, false, Option, none, some, List, [], ◌∷◌}
use evictor.Workers.Pool.{
  Job, JobError, Ending, run_job, Pool, Lock, ctx_err, job_dequeued, add_settled, count_processed,
  count_failed, count_dead_lettered, call_dead_letter,
}

pub data Role : Type 0 where
  worker drainer : Role

-- Where a consumer stands, with the variables that are live there.
pub data Pc : Type 0 where
  off : Pc  -- not launched
  receiving : Pc  -- head of `for job := range p.jobs`
  got : (job : Job) → Pc  -- before `jobDequeued`
  dequeued : (job : Job) → Pc  -- after it
  trying : (job : Job) (attempt : ℕ) (err : Option JobError) → Pc  -- loop head of `execute`
  running : (job : Job) (attempt : ℕ) → Pc  -- inside `runJob`
  erred : (job : Job) (attempt : ℕ) (err : JobError) → Pc  -- `runJob` returned an error
  succeeded : Pc  -- before `JobProcessed`
  failing : (job : Job) (err : Option JobError) → Pc  -- start of `recordDeadLetter`
  failed : (job : Job) (err : Option JobError) → Pc  -- after `JobFailed`
  sinking : (job : Job) (err : Option JobError) → Pc  -- after `JobDeadLettered`
  settling : Pc  -- before `settled.Add(1)`
  finished : Pc  -- the goroutine's loop is over

-- One step of one consumer of the pool `p`.
pub data Move (r : Role) (p : Pool) : Pc → Pool → Pc → Type 0 where
  take :
      {job : Job} {rest : List Job}
      → p.jobs ≡ job ∷ rest
      → Move r p receiving (record p { jobs = rest }) (got job)
  finish : p.jobs ≡ [] → p.closed ≡ true → Move r p receiving p finished
  dequeue : {job : Job} → p.lock ≡ Lock.free → Move r p (got job) (job_dequeued p) (dequeued job)
  refuse :
      {job : Job} {err : JobError}
      → r ≡ worker
      → ctx_err p ≡ some err
      → Move r p (dequeued job) p (failing job (some err))
  begin :
      {job : Job} → r ≡ worker → ctx_err p ≡ none → Move r p (dequeued job) p (trying job 1 none)
  discard : {job : Job} → r ≡ drainer → Move r p (dequeued job) p (failing job (ctx_err p))
  try :
      {job : Job} {attempt : ℕ} {err : Option JobError}
      → attempt ≤ p.max_attempts
      → Move r p (trying job attempt err) p (running job attempt)
  give_up :
      {job : Job} {attempt : ℕ} {err : Option JobError}
      → p.max_attempts < attempt
      → Move r p (trying job attempt err) p (failing job err)
  succeed :
      {job : Job} {attempt : ℕ} (ending : Ending)
      → run_job ending ≡ none
      → Move r p (running job attempt) p succeeded
  fail :
      {job : Job} {attempt : ℕ} (ending : Ending) {err : JobError}
      → run_job ending ≡ some err
      → Move r p (running job attempt) p (erred job attempt err)
  break :
      {job : Job} {attempt : ℕ} {err : JobError}
      → p.cancelled ≡ true
      → Move r p (erred job attempt err) p (failing job (some err))
  retry :
      {job : Job} {attempt : ℕ} {err : JobError}
      → p.cancelled ≡ false
      → Move r p (erred job attempt err) p (trying job (attempt + 1) (some err))
  process : Move r p succeeded (count_processed p) settling
  count_failure :
      {job : Job} {err : Option JobError}
      → Move r p (failing job err) (count_failed p) (failed job err)
  count_dead_letter :
      {job : Job} {err : Option JobError}
      → Move r p (failed job err) (count_dead_lettered p) (sinking job err)
  sink :
      {job : Job} {err : Option JobError}
      → Move r p (sinking job err) (call_dead_letter job err p) settling
  settle : Move r p settling (add_settled p) receiving

-- The accesses of a consumer, for the `unfolding` lines of proofs.
unfoldable pub ConsumerOps : Type 0
unfolding job_dequeued add_settled count_processed count_failed count_dead_lettered call_dead_letter
ConsumerOps = Unit
