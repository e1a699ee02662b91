-- ===== src/Workers/Ledger/Totals.antt =====
-- What the counters of /metrics say of the jobs that have ended.
use evictor.Prelude.{
  ◌<◌, ◌^◌, ℕ, ◌+◌, ◌≡◌, refl, sym, ap, ◌∙◌, Option, none, some, List, ◌++◌, length, length-append,
  weigh-replicate, wrap64, arith,
}
use evictor.Metrics.{Counters, new_counters}
use evictor.Workers.Pool.{
  Job, Options, Pool, new_pool, metrics_or, at_least_one, send_job, fail_to_send, add_accepted,
  deepen, stop_accepting, cancel_jobs, close_done, store_abandoned, count_abandoned,
}
use evictor.Workers.Consumer.{Role, Pc, off, succeeded, Move, ConsumerOps}
use evictor.Workers.System.{System, Step, Reach, here, next, init}
use evictor.Workers.Invariant.{
  IsSane, IsFresh, Inv, Reach-Inv, overall, owing, Shift, worker-Shift, drainer-Shift,
}
use evictor.Workers.Ledger.{
  launch-overall, spawn-overall, done_by, dead_by, done_in, dead_in, done_jobs, dead_jobs,
}

-- Its job has ended with success, and is not counted yet.
abbrev pub uncounted_success : Pc → ℕ
uncounted_success succeeded = 1
uncounted_success _ = 0

-- How the two totals stand to the jobs that have ended.
pub record Totals (s : System) (done dead : List Job) : Type 0 where
  pub processed :
      wrap64 (s.pool.metrics.jobs_processed + overall uncounted_success s.workers s.drain)
      ≡ wrap64 (length done)
  pub dead_lettered :
      wrap64 s.pool.metrics.jobs_dead_lettered
      ≡ wrap64 (length dead + overall owing s.workers s.drain)

Move-processed :
    {r : Role} {p q : Pool} {pc pc' : Pc} {before after : ℕ} (n : ℕ) (mv : Move r p pc q pc')
    → Shift uncounted_success pc pc' before after
    → wrap64 (p.metrics.jobs_processed + before) ≡ wrap64 n
    → wrap64 (q.metrics.jobs_processed + after) ≡ wrap64 (length (done_by mv) + n)
unfolding done_by ConsumerOps
Move-processed n (Move.succeed ending e) sh h = ground arith
Move-processed n Move.process sh h = ground arith
Move-processed n Move.sink sh h = ground arith
Move-processed n _ sh h = ground arith

Move-dead_lettered :
    {r : Role} {p q : Pool} {pc pc' : Pc} {before after : ℕ} (n : ℕ) (mv : Move r p pc q pc')
    → Shift owing pc pc' before after
    → wrap64 p.metrics.jobs_dead_lettered ≡ wrap64 (n + before)
    → wrap64 q.metrics.jobs_dead_lettered ≡ wrap64 (length (dead_by mv) + n + after)
unfolding dead_by ConsumerOps
Move-dead_lettered n Move.count_dead_letter sh h = ground arith
Move-dead_lettered n Move.sink sh h = ground arith
Move-dead_lettered n _ sh h = ground arith

turn-Totals :
    {r : Role} (s : System) {ws : List Pc} {d pc pc' : Pc} {p : Pool} {done dead : List Job}
    (mv : Move r s.pool pc p pc')
    → ((w : Pc → ℕ) → Shift w pc pc' (overall w s.workers s.drain) (overall w ws d))
    → Totals s done dead
    → Totals
        (record s { pool = p; workers = ws; drain = d })
        (done_by mv ++ done)
        (dead_by mv ++ dead)
turn-Totals s {ws} {d} {done = done} {dead = dead} mv shift h = record {
  processed =
      Move-processed (length done) mv (shift uncounted_success) h.processed
      ∙ ap wrap64 (sym (length-append (done_by mv) done));
  dead_lettered =
      Move-dead_lettered (length dead) mv (shift owing) h.dead_lettered
      ∙ ap (λ n. wrap64 (n + overall owing ws d)) (sym (length-append (dead_by mv) dead));
}

Step-Totals :
    {s t : System} {done dead : List Job}
    → Inv s
    → (st : Step s t) → Totals s done dead
    → Totals t (done_in st ++ done) (dead_in st ++ dead)
unfolding done_in dead_in fail_to_send add_accepted deepen stop_accepting cancel_jobs close_done
    store_abandoned count_abandoned send_job
Step-Totals {s} inv (Step.consume i {pc} {pc'} e mv) h =
    turn-Totals s mv (λ w. worker-Shift s w i pc' e) h
Step-Totals {s} inv (Step.discard {pc} {pc'} e mv) h =
    turn-Totals s mv (λ w. drainer-Shift s w pc' e) h
Step-Totals {s} inv (Step.start e) h =
    let a = launch-overall uncounted_success s refl refl inv e in
    let b = launch-overall owing s refl refl inv e in ground (arith, h, a, b)
Step-Totals {s} inv (Step.spawn e) h =
    let a = spawn-overall uncounted_success s refl inv e in
    let b = spawn-overall owing s refl inv e in ground (arith, h, a, b)
Step-Totals inv _ h = ground (arith, h)

fresh_totals :
    (m : Option Counters) (capacity : ℕ)
    → IsFresh m
    → ((metrics_or m capacity).jobs_processed ≡ 0)
      × ((metrics_or m capacity).jobs_dead_lettered ≡ 0)
unfolding new_counters
fresh_totals none capacity h = (refl, refl)
fresh_totals (some c) capacity h = ground (arith, h)

-- The counters count the jobs that the run has ended, each modulo 2^64: `jobs_processed` those that
-- ended with success, less those that a worker has yet to count, and `jobs_dead_lettered` those that
-- the dead-letter function has got, plus those that it is about to get.
pub Reach-Totals :
    {o : Options} {s : System} → IsSane o → (r : Reach o s) → Totals s (done_jobs r) (dead_jobs r)
unfolding done_jobs dead_jobs init new_pool
Reach-Totals {o} sane here =
    let (processed, dead_lettered) =
      fresh_totals o.metrics (at_least_one o.capacity 1) sane.fresh in
    let idle = weigh-replicate uncounted_success (new_pool o).size off refl in
    let quiet = weigh-replicate owing (new_pool o).size off refl in
    record {
      processed = omega (arith, processed, idle);
      dead_lettered = omega (arith, dead_lettered, quiet);
    }
Reach-Totals sane (next r st) = Step-Totals (Reach-Inv sane r) st (Reach-Totals sane r)

Move-word :
    {r : Role} {p q : Pool} {pc pc' : Pc}
    → Move r p pc q pc'
    → p.metrics.jobs_processed < 2 ^ 64
    → q.metrics.jobs_processed < 2 ^ 64
unfolding ConsumerOps
Move-word Move.process h = ground arith
Move-word Move.sink h = ground arith
Move-word _ h = h

Step-word :
    {s t : System}
    → Step s t
    → s.pool.metrics.jobs_processed < 2 ^ 64
    → t.pool.metrics.jobs_processed < 2 ^ 64
unfolding fail_to_send add_accepted deepen stop_accepting cancel_jobs close_done store_abandoned
    count_abandoned send_job
Step-word (Step.consume i e mv) h = Move-word mv h
Step-word (Step.discard e mv) h = Move-word mv h
Step-word _ h = ground arith

-- The counter is always the pattern of an int64.
pub jobs_processed-lt :
    {o : Options} {s : System} → IsSane o → Reach o s → s.pool.metrics.jobs_processed < 2 ^ 64
unfolding init new_pool
jobs_processed-lt {o} sane here =
    omega (arith, (fresh_totals o.metrics (at_least_one o.capacity 1) sane.fresh).0)
jobs_processed-lt sane (next r st) = Step-word st (jobs_processed-lt sane r)
