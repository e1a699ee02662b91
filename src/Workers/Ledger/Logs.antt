-- ===== src/Workers/Ledger/Logs.antt =====
-- backend/internal/workers/pool.go: what the goroutines log, `logger.Warn` and `logger.Error`.
pub mod Told
pub mod Counts
use evictor.Prelude.{
  ℕ, zero, suc, ◌<◌, ◌+◌, ◌≡◌, refl, sym, subst, ap, false, ◌∙◌, Option, some, List, [], ◌∷◌, ◌++◌,
  length, length-append, weigh, weigh-replicate, arith,
}
use evictor.Config.{Level, warn, error}
use evictor.Workers.Pool.{
  Job, JobError, Options, Pool, new_pool, send_job, fail_to_send, add_accepted, deepen,
  stop_accepting, cancel_jobs, close_done, store_abandoned, count_abandoned,
}
use evictor.Workers.Consumer.{Role, Pc, off, running, erred, sinking, Move, ConsumerOps}
use evictor.Workers.System.{
  Stage, cancelling, closing, stopped, System, Step, Reach, here, next, init,
}
use evictor.Workers.Invariant.{
  IsSane, Inv, Reach-Inv, launched, LoadOk, Move-Same, overall, Shift, worker-Shift, drainer-Shift,
}
use evictor.Workers.Ledger.{
  launch-overall, spawn-overall, done_by, dead_by, done_in, dead_in, done_jobs, dead_jobs,
}
use evictor.Workers.Ledger.Attempts.{tried_by, tried_in, tried_jobs}

-- A record of the log, with its attributes.
pub data Record : Type 0 where
  attempt_failed : (attempt max_attempts : ℕ) (err : JobError) → Record
  job_dead_lettered : (err : Option JobError) → Record
  work_abandoned : (count : ℕ) → Record

abbrev pub level : Record → Level
level (attempt_failed attempt max_attempts err) = warn
level (job_dead_lettered err) = error
level (work_abandoned count) = error

-- The record of a failed attempt is made before `ctx.Err` is looked at, that of a dead letter before
-- its function is called.
unfoldable pub logged_by : {r : Role} {p q : Pool} {pc pc' : Pc} → Move r p pc q pc' → List Record
logged_by {p = p} (Move.break {attempt = attempt} {err = err} e) =
    attempt_failed attempt p.max_attempts err ∷ []
logged_by {p = p} (Move.retry {attempt = attempt} {err = err} e) =
    attempt_failed attempt p.max_attempts err ∷ []
logged_by (Move.count_dead_letter {err = err}) = job_dead_lettered err ∷ []
logged_by _ = []

unfoldable pub logged_in : {s t : System} → Step s t → List Record
unfolding logged_by
logged_in (Step.consume i e mv) = logged_by mv
logged_in (Step.discard e mv) = logged_by mv
logged_in (Step.report {count} e) = work_abandoned count ∷ []
logged_in _ = []

-- The records of a run, the latest first.
unfoldable pub log : {o : Options} {s : System} → Reach o s → List Record
unfolding logged_in
log here = []
log (next r st) = logged_in st ++ log r

abbrev pub is_failure : Record → ℕ
is_failure (attempt_failed attempt max_attempts err) = 1
is_failure _ = 0

abbrev pub is_dead_letter : Record → ℕ
is_dead_letter (job_dead_lettered err) = 1
is_dead_letter _ = 0

-- How many records of a kind there are.
abbrev pub records : (Record → ℕ) → List Record → ℕ
records = weigh

-- The numbers of abandoned jobs that the records give.
abbrev pub abandonments : List Record → List ℕ
abandonments [] = []
abandonments (work_abandoned count ∷ log) = count ∷ abandonments log
abandonments (attempt_failed attempt max_attempts err ∷ log) = abandonments log
abandonments (job_dead_lettered err ∷ log) = abandonments log
