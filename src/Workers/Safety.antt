-- ===== src/Workers/Safety.antt =====
-- What holds of the pool in every reachable state, whatever the scheduler, the submitters, the jobs
-- and the clock do.
use evictor.Prelude.{
  ℕ, ◌+◌, ◌≤◌, ◌<◌, ◌≡◌, ◌⊎◌, Bool, true, false, none, some, [], length, get_elem?, wrap64, All,
  All-get, length-eq-zero, arith,
}
use evictor.Prelude.Int.{pos}
use evictor.Metrics.{snapshot}
use evictor.Workers.Pool.{
  Job, Options, free, ctx_err, unaccounted, wait, deepen, fail_to_send, stop_accepting, cancel_jobs,
  close_done, store_abandoned, count_abandoned,
}
use evictor.Workers.Consumer.{running}
use evictor.Workers.System.{
  System, Step, Reach, unstarted, awaiting, halting, draining, expired, loaded, consume, discard,
  submit_accept, submit_send, start, spawn,
}
use evictor.Workers.Invariant.{
  IsSane, Reach-Inv, Inv, outstanding, held, behind, holding, WeightSums, PcOk, HasError,
  outstanding-lt, unaccounted-outstanding, below-held, Move-Same, outstanding-le, worker-Shift,
  drainer-Shift,
}

-- `Wait` returns nil only after `done` is closed with nothing abandoned.
pub wait-outstanding :
    {s : System}
    → Inv s
    → (prefer_done ctx_over : Bool) → wait prefer_done ctx_over s.pool ≡ some none
    → (outstanding s ≡ 0) × (s.pool.stopping ≡ true)
unfolding wait
wait-outstanding inv prefer_done ctx_over e =
    ground (arith, inv.end, inv.account, inv.load, inv.halt)

module _ {o : Options} (sane : IsSane o) {s : System} (r : Reach o s) where
  -- No schedule makes the pool panic: nothing is ever sent on the closed channel, and neither the
  -- channel nor `done` is closed twice. The channel never holds more than its capacity.
  pub never_broken : (s.pool.broken ≡ false) × (length s.pool.jobs ≤ s.pool.capacity)
  never_broken = (whole, bounded)
    where
      open ((Reach-Inv sane r).safe) use {whole, bounded}

  -- While no call of `Submit` is under way, the queue depth that /metrics shows is the number of
  -- jobs in the channel and of jobs received but not yet counted out; it is never negative.
  pub queue_depth-exact :
      s.pool.lock ≡ free
      → (snapshot s.pool.metrics).queue_depth ≡ pos (length s.pool.jobs + behind s.workers s.drain)
  unfolding snapshot
  queue_depth-exact e =
      let inv = Reach-Inv sane r in
      ground (arith, inv.tally, outstanding-lt inv, below-held s.workers s.drain)

  -- At the start of `recordAbandoned` the difference of the two counters, wrap-around included, is
  -- the number of jobs in the channel or in the hands of a consumer.
  pub unaccounted-exact : {a : ℕ} → s.stage ≡ loaded a → unaccounted a s.pool ≡ outstanding s
  unaccounted-exact {a} e =
      let inv = Reach-Inv sane r in ground (arith, inv.load, inv.halt, unaccounted-outstanding inv)

  -- If `Wait` returns nil, every accepted job has been settled: the channel is empty, no consumer
  -- holds a job, each job was counted once as processed or as dead-lettered, and each dead letter
  -- as a failure.
  pub wait-nil :
      (prefer_done ctx_over : Bool)
      → wait prefer_done ctx_over s.pool ≡ some none
      → (s.pool.jobs ≡ [])
        × (held s.workers s.drain ≡ 0)
        × (s.pool.settled ≡ s.pool.accepted)
        × (wrap64 (s.pool.metrics.jobs_processed + s.pool.metrics.jobs_dead_lettered)
            ≡ s.pool.accepted)
        × (s.pool.metrics.jobs_failed ≡ s.pool.metrics.jobs_dead_lettered)
  wait-nil prefer_done ctx_over e =
      let inv = Reach-Inv sane r in
      let none_left = wait-outstanding inv prefer_done ctx_over e in
      let below = below-held s.workers s.drain in
      let empty = length-eq-zero s.pool.jobs (omega (arith, none_left.0)) in
      ground (arith, empty, none_left, inv.tally, inv.safe, below)

  -- The dead-letter function is never called with a nil error.
  pub dead_letters-HasError : All HasError s.pool.dead_letters
  dead_letters-HasError = (Reach-Inv sane r).letters

  -- A job that a worker is running is on an attempt from 1 to the maximum.
  pub running-attempt :
      (i : ℕ) {job : Job} {attempt : ℕ}
      → get_elem? s.workers i ≡ some (running job attempt)
      → (0 < attempt) × (attempt ≤ s.pool.max_attempts)
  running-attempt i e = All-get (PcOk s.pool.max_attempts) s.workers i (Reach-Inv sane r).pcs e

  -- Before the drain deadline has passed, the context of the jobs is not cancelled, so that no job
  -- is refused or cut short.
  pub ctx_err-none :
      (s.stage ≡ unstarted)
        ⊎ (s.stage ≡ awaiting)
        ⊎ (s.stage ≡ halting)
        ⊎ (s.stage ≡ draining)
        ⊎ (s.stage ≡ expired)
      → ctx_err s.pool ≡ none
  unfolding ctx_err
  ctx_err-none early = ground (arith, (Reach-Inv sane r).patient)

stopping-accepted :
    {s t : System}
    → Inv s
    → s.pool.stopping ≡ true
    → Step s t
    → (t.pool.accepted ≡ s.pool.accepted) × (outstanding t ≤ outstanding s)
unfolding deepen fail_to_send stop_accepting cancel_jobs close_done store_abandoned count_abandoned
    WeightSums
stopping-accepted {s} inv q (consume i {pc} {pc'} e mv) =
    ((Move-Same mv).accepted, omega (arith, outstanding-le mv (worker-Shift s holding i pc' e)))
stopping-accepted {s} inv q (discard {pc} {pc'} e mv) =
    ((Move-Same mv).accepted, omega (arith, outstanding-le mv (drainer-Shift s holding pc' e)))
stopping-accepted inv q (submit_accept l) = ground (arith, inv.safe)
stopping-accepted inv q (submit_send l a b) = ground (arith, inv.safe)
stopping-accepted inv q (start e) = ground (arith, inv.halt, inv.launch)
stopping-accepted inv q (spawn e) = ground (arith, inv.solo)
stopping-accepted inv q _ = ground arith

-- Once the pool has stopped accepting, no step accepts a job, and none adds to the outstanding ones.
pub stopping-Step :
    {o : Options} {s t : System}
    → IsSane o
    → Reach o s
    → s.pool.stopping ≡ true
    → Step s t
    → (t.pool.accepted ≡ s.pool.accepted) × (outstanding t ≤ outstanding s)
stopping-Step sane r q st = stopping-accepted (Reach-Inv sane r) q st
