-- ===== src/Workers/Examples.antt =====
-- Runs of a pool with one worker: the theorems at states that these runs reach.
use evictor.Prelude.{refl, true, none, arith}
use evictor.Prelude.Int.{pos}
use evictor.Workers.Pool.{Options, nil, error, at_least_one}
use evictor.Workers.Consumer.{Move}
use evictor.Workers.System.{System, Step, Reach, here, next, SystemOps}
use evictor.Workers.Invariant.{IsSane}

abbrev pub opts : Options
opts = record {
  workers = pos 1;
  capacity = pos 1;
  max_attempts = pos 2;
  drain_timeout = pos 0;
  metrics = none;
  dead_letter = true;
}

pub opts-IsSane : IsSane opts
unfolding at_least_one
opts-IsSane = record { fits = omega arith; fresh = tt }

abbrev pub State : Type 0
State = (s : System) × Reach opts s

-- A job is in the channel and counted, and the pool has not started.
abbrev pub submitted : State
unfolding SystemOps
submitted = (
  _,
  next
      (next (next (next here (Step.submit_lock 7 refl)) (Step.submit_send refl refl (omega arith)))
        (Step.submit_accept refl))
      (Step.submit_count refl),
)

-- The worker is on the job's first attempt.
abbrev pub attempted : State
unfolding SystemOps
attempted = (
  _,
  next
      (next
        (next (next (next submitted.1 (Step.start refl)) (Step.consume 0 refl (Move.take refl)))
          (Step.consume 0 refl (Move.dequeue refl)))
        (Step.consume 0 refl (Move.begin refl refl)))
      (Step.consume 0 refl (Move.try (omega arith))),
)

-- The first attempt failed, the second did not, and the job is settled.
abbrev pub settled : State
unfolding SystemOps
settled = (
  _,
  next
      (next
        (next
          (next
            (next (next attempted.1 (Step.consume 0 refl (Move.fail (error "timeout") refl)))
              (Step.consume 0 refl (Move.retry refl)))
            (Step.consume 0 refl (Move.try (omega arith))))
          (Step.consume 0 refl (Move.succeed nil refl)))
        (Step.consume 0 refl Move.process))
      (Step.consume 0 refl Move.settle),
)

-- The pool has stopped with all work done.
abbrev pub stopped : State
unfolding SystemOps
stopped = (
  _,
  next
      (next
        (next
          (next
            (next (next (next settled.1 Step.cancel_ctx) (Step.observe refl refl))
              (Step.halt refl refl))
            (Step.consume 0 refl (Move.finish refl refl)))
          (Step.drained refl (refl, tt)))
        (Step.cancel refl))
      (Step.close refl),
)

-- The worker is stuck on its first attempt, and both timers have fired.
abbrev pub overdue : State
unfolding SystemOps
overdue = (
  _,
  next
      (next
        (next
          (next
            (next
              (next (next (next attempted.1 Step.cancel_ctx) (Step.observe refl refl))
                (Step.halt refl refl))
              (Step.drain_timeout refl))
            (Step.interrupt refl))
          (Step.spawn refl))
        (Step.unwind_timeout refl))
      (Step.load_accepted refl),
)

abbrev pub abandoned : State
unfolding SystemOps
abandoned = (
  _,
  next
      (next
        (next (next (next overdue.1 (Step.some_left refl refl)) (Step.store refl))
          (Step.report refl))
        (Step.cancel refl))
      (Step.close refl),
)
