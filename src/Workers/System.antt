-- ===== src/Workers/System.antt =====
-- backend/internal/workers/pool.go: all goroutines around one pool, interleaved in any order.
use evictor.Prelude.{
  ℕ, ◌≤◌, ◌<◌, ◌≡◌, Bool, true, false, Option, none, some, List, [], ◌∷◌, length, get_elem?, set,
  replicate, All, is_positive64,
}
use evictor.Workers.Pool.{
  Job, PoolError, queue_full, pool_stopped, Options, Pool, free, entered, sent, counting, new_pool,
  send_job, fail_to_send, add_accepted, deepen, stop_accepting, cancel_jobs, close_done,
  unaccounted, store_abandoned, count_abandoned, run_job, ctx_err,
}
use evictor.Workers.Consumer.{worker, drainer, Pc, off, receiving, finished, Move, ConsumerOps}

-- The goroutine of `Start` that waits for the context, a blocking or shared access at a time.
pub data Stage : Type 0 where
  unstarted : Stage
  awaiting : Stage  -- `<-ctx.Done()`
  halting : Stage  -- before `stopAccepting`
  draining : Stage  -- the first `select`
  expired : Stage  -- the timer fired, before `cancelJobs`
  spawning : Stage  -- before the draining goroutine is launched
  unwinding : Stage  -- the second `select`
  tallying : Stage  -- start of `recordAbandoned`
  loaded : (accepted : ℕ) → Stage  -- after `p.accepted.Load()`
  storing : (count : ℕ) → Stage  -- before `p.abandoned.Store(count)`
  reporting : (count : ℕ) → Stage  -- before `AddJobsAbandoned`
  cancelling : Stage  -- before the last `cancelJobs`
  closing : Stage  -- before `close(p.done)`
  stopped : Stage

-- `replies` holds what the calls of `Submit` have returned, the latest first.
pub record System : Type 0 where
  pub pool : Pool
  pub workers : List Pc
  pub drain : Pc
  pub stage : Stage
  pub ctx_done : Bool
  pub replies : List (Option PoolError)

unfoldable pub init : Options → System
unfolding new_pool
init o = record {
  pool = new_pool o;
  workers = replicate (new_pool o).size off;
  drain = off;
  stage = unstarted;
  ctx_done = false;
  replies = [];
}

abbrev pub reply : Option PoolError → System → System
reply answer s = record s { pool = record (s.pool) { lock = free }; replies = answer ∷ s.replies }

abbrev pub AllFinished : List Pc → Type 0
AllFinished ws = All (λ pc. pc ≡ finished) ws

-- `submit_…` are the steps of `Submit`, the `select` of which is `submit_send` or `submit_full`.
pub data Step (s : System) : System → Type 0 where
  consume :
      (i : ℕ) {pc pc' : Pc} {p : Pool}
      → get_elem? s.workers i ≡ some pc
      → Move worker s.pool pc p pc'
      → Step s (record s { pool = p; workers = set s.workers i pc' })
  discard :
      {pc pc' : Pc} {p : Pool}
      → s.drain ≡ pc
      → Move drainer s.pool pc p pc'
      → Step s (record s { pool = p; drain = pc' })
  submit_lock :
      (job : Job)
      → s.pool.lock ≡ free
      → Step s (record s { pool = record (s.pool) { lock = entered job } })
  submit_stopped :
      {job : Job}
      → s.pool.lock ≡ entered job
      → s.pool.stopping ≡ true
      → Step s (reply (some pool_stopped) s)
  submit_full :
      {job : Job}
      → s.pool.lock ≡ entered job
      → s.pool.stopping ≡ false
      → s.pool.capacity ≤ length s.pool.jobs
      → Step s (reply (some queue_full) (record s { pool = fail_to_send s.pool }))
  submit_send :
      {job : Job}
      → s.pool.lock ≡ entered job
      → s.pool.stopping ≡ false
      → length s.pool.jobs < s.pool.capacity
      → Step s (record s { pool = record (send_job job s.pool) { lock = sent } })
  submit_accept :
      s.pool.lock ≡ sent
      → Step s (record s { pool = record (add_accepted s.pool) { lock = counting } })
  submit_count : s.pool.lock ≡ counting → Step s (reply none (record s { pool = deepen 1 s.pool }))
  start :
      s.pool.started ≡ false
      → Step s (record s {
        pool = record (s.pool) { started = true };
        workers = replicate s.pool.size receiving;
        stage = awaiting;
      })
  start_again : s.pool.started ≡ true → Step s s
  cancel_ctx : Step s (record s { ctx_done = true })
  observe : s.stage ≡ awaiting → s.ctx_done ≡ true → Step s (record s { stage = halting })
  halt :
      s.stage ≡ halting
      → s.pool.lock ≡ free
      → Step s (record s { pool = stop_accepting s.pool; stage = draining })
  drained : s.stage ≡ draining → AllFinished s.workers → Step s (record s { stage = cancelling })
  drain_timeout : s.stage ≡ draining → Step s (record s { stage = expired })
  interrupt : s.stage ≡ expired → Step s (record s { pool = cancel_jobs s.pool; stage = spawning })
  spawn : s.stage ≡ spawning → Step s (record s { drain = receiving; stage = unwinding })
  unwound :
      s.stage ≡ unwinding
      → s.drain ≡ finished
      → AllFinished s.workers
      → Step s (record s { stage = cancelling })
  unwind_timeout : s.stage ≡ unwinding → Step s (record s { stage = tallying })
  load_accepted : s.stage ≡ tallying → Step s (record s { stage = loaded s.pool.accepted })
  none_left :
      {a : ℕ}
      → s.stage ≡ loaded a
      → is_positive64 (unaccounted a s.pool) ≡ false
      → Step s (record s { stage = cancelling })
  some_left :
      {a : ℕ}
      → s.stage ≡ loaded a
      → is_positive64 (unaccounted a s.pool) ≡ true
      → Step s (record s { stage = storing (unaccounted a s.pool) })
  store :
      {count : ℕ}
      → s.stage ≡ storing count
      → Step s (record s { pool = store_abandoned count s.pool; stage = reporting count })
  report :
      {count : ℕ}
      → s.stage ≡ reporting count
      → Step s (record s { pool = count_abandoned count s.pool; stage = cancelling })
  cancel : s.stage ≡ cancelling → Step s (record s { pool = cancel_jobs s.pool; stage = closing })
  close : s.stage ≡ closing → Step s (record s { pool = close_done s.pool; stage = stopped })

pub data Reach (o : Options) : System → Type 0 where
  here : Reach o (init o)
  next : {s t : System} → Reach o s → Step s t → Reach o t

-- Any number of steps.
pub data Run (s : System) : System → Type 0 where
  stay : Run s s
  go : {t u : System} → Run s t → Step t u → Run s u

-- All accesses to the pool, for the `unfolding` lines of tests.
unfoldable pub SystemOps : Type 0
unfolding init run_job ctx_err send_job fail_to_send add_accepted deepen stop_accepting cancel_jobs
    close_done unaccounted store_abandoned count_abandoned ConsumerOps
SystemOps = Unit
