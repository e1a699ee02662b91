-- ===== src/Workers/Ledger/Logs/Counts.antt =====
-- The log of a run, by its records.
use evictor.Prelude.{
  ◌≢◌, Bool, Option, some, ℕ, ◌+◌, ◌≡◌, refl, List, [], ◌∷◌, ◌++◌, length, length-append, weigh,
  weigh-replicate, arith,
}
use evictor.Workers.Pool.{
  PoolError, wait, wait_expired, Job, Options, Pool, new_pool, send_job, fail_to_send, add_accepted,
  deepen, stop_accepting, cancel_jobs, close_done, store_abandoned, count_abandoned,
}
use evictor.Workers.Consumer.{Role, Pc, off, running, erred, Move, ConsumerOps}
use evictor.Workers.System.{System, Step, Reach, here, next, init}
use evictor.Workers.Invariant.{IsSane, Inv, Reach-Inv, owing, overall, worker-Shift, drainer-Shift}
use evictor.Workers.Ledger.{
  launch-overall, spawn-overall, done_by, dead_by, done_in, dead_in, done_jobs, dead_jobs,
}
use evictor.Workers.Ledger.Attempts.{tried_by, tried_in, tried_jobs}
use evictor.Workers.Ledger.Logs.{
  Record, logged_by, logged_in, log, is_failure, is_dead_letter, records, abandonments,
}
use evictor.Workers.Ledger.Logs.Told.{Told, lost, Told-wait, Step-Told}

-- Inside of an attempt whose end is not logged.
abbrev pub attempting : Pc → ℕ
attempting (running job attempt) = 1
attempting (erred job attempt err) = 1
attempting _ = 0

Move-failures :
    {r : Role} {p q : Pool} {pc pc' : Pc} (mv : Move r p pc q pc')
    → length (tried_by mv) + attempting pc
      ≡ length (done_by mv) + records is_failure (logged_by mv) + attempting pc'
unfolding tried_by done_by logged_by weigh ConsumerOps
Move-failures (Move.succeed ending e) = ground arith
Move-failures _ = ground arith

Move-dead :
    {r : Role} {p q : Pool} {pc pc' : Pc} (mv : Move r p pc q pc')
    → records is_dead_letter (logged_by mv) + owing pc ≡ length (dead_by mv) + owing pc'
unfolding dead_by logged_by weigh ConsumerOps
Move-dead Move.sink = ground arith
Move-dead _ = ground arith

-- What the log has of a run, whose consumers and supervisor may be under way.
pub record Logged (s : System) (tried done dead : List Job) (log : List Record) : Type 0 where
  pub attempts :
      length tried ≡ length done + records is_failure log + overall attempting s.workers s.drain
  pub dead_letters : records is_dead_letter log ≡ length dead + overall owing s.workers s.drain
  pub abandoned : Told s.stage s.pool.abandoned (abandonments log)

records-append :
    (w : Record → ℕ) (xs ys : List Record) → records w (xs ++ ys) ≡ records w xs + records w ys
unfolding weigh
records-append w [] ys = omega arith
records-append w (x ∷ xs) ys = omega (arith, records-append w xs ys)

Step-failures :
    {s t : System}
    → Inv s
    → (st : Step s t)
    → length (tried_in st) + overall attempting s.workers s.drain
      ≡ length (done_in st)
        + records is_failure (logged_in st)
        + overall attempting t.workers t.drain
unfolding tried_in done_in logged_in weigh fail_to_send add_accepted deepen stop_accepting
    cancel_jobs close_done store_abandoned count_abandoned send_job
Step-failures {s} inv (Step.consume i {pc} {pc'} e mv) =
    let sh = worker-Shift s attempting i pc' e in
    omega (arith, Move-failures mv, sh.moved, sh.within)
Step-failures {s} inv (Step.discard {pc} {pc'} e mv) =
    let sh = drainer-Shift s attempting pc' e in
    omega (arith, Move-failures mv, sh.moved, sh.within)
Step-failures {s} inv (Step.start e) = omega (arith, launch-overall attempting s refl refl inv e)
Step-failures {s} inv (Step.spawn e) = omega (arith, spawn-overall attempting s refl inv e)
Step-failures inv _ = ground arith

Step-dead :
    {s t : System}
    → Inv s
    → (st : Step s t)
    → records is_dead_letter (logged_in st) + overall owing s.workers s.drain
      ≡ length (dead_in st) + overall owing t.workers t.drain
unfolding dead_in logged_in weigh fail_to_send add_accepted deepen stop_accepting cancel_jobs
    close_done store_abandoned count_abandoned send_job
Step-dead {s} inv (Step.consume i {pc} {pc'} e mv) =
    let sh = worker-Shift s owing i pc' e in omega (arith, Move-dead mv, sh.moved, sh.within)
Step-dead {s} inv (Step.discard {pc} {pc'} e mv) =
    let sh = drainer-Shift s owing pc' e in omega (arith, Move-dead mv, sh.moved, sh.within)
Step-dead {s} inv (Step.start e) = omega (arith, launch-overall owing s refl refl inv e)
Step-dead {s} inv (Step.spawn e) = omega (arith, spawn-overall owing s refl inv e)
Step-dead inv _ = ground arith

-- Nothing that goes wrong is silent: every call of a job's function has ended with success, or has
-- been logged as a failure, or has yet to; every dead letter has been logged before its function got
-- it; and jobs that are given up have been logged once, by their number.
pub Reach-Logged :
    {o : Options} {s : System}
    → IsSane o
    → (r : Reach o s) → Logged s (tried_jobs r) (done_jobs r) (dead_jobs r) (log r)
unfolding tried_jobs done_jobs dead_jobs log init new_pool weigh
Reach-Logged {o} sane here = record {
  attempts = omega (arith, weigh-replicate attempting (new_pool o).size off refl);
  dead_letters = omega (arith, weigh-replicate owing (new_pool o).size off refl);
  abandoned = refl;
}
Reach-Logged sane (next r st) =
    let inv = Reach-Inv sane r in
    let ih = Reach-Logged sane r in
    record {
      attempts = omega (
        arith,
        ih.attempts,
        Step-failures inv st,
        length-append (tried_in st) (tried_jobs r),
        length-append (done_in st) (done_jobs r),
        records-append is_failure (logged_in st) (log r),
      );
      dead_letters = omega (
        arith,
        ih.dead_letters,
        Step-dead inv st,
        length-append (dead_in st) (dead_jobs r),
        records-append is_dead_letter (logged_in st) (log r),
      );
      abandoned = Step-Told (log r) inv st ih.abandoned;
    }

-- The log says what `Wait` returns: once it has returned nil, no abandoned jobs have been logged, and
-- once it has reported `n` jobs unaccounted for, just one record of abandoned jobs, with `n`.
pub log-wait :
    {o : Options} {s : System} (sane : IsSane o) (r : Reach o s) (prefer_done ctx_over : Bool)
    {answer : Option PoolError}
    → wait prefer_done ctx_over s.pool ≡ some answer
    → answer ≢ some wait_expired
    → abandonments (log r) ≡ lost answer
log-wait sane r = Told-wait (log r) (Reach-Inv sane r) (Reach-Logged sane r).abandoned
