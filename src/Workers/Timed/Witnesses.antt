-- ===== src/Workers/Timed/Witnesses.antt =====
-- A pool whose workers do not come back: both timers fire.
use evictor.Prelude.{◌*◌, ◌≡◌, refl, ℕ, ◌≤◌, true, false, arith}
use evictor.Workers.System.{Step, SystemOps, stopped}
use evictor.Workers.Shutdown.{supervises}
use evictor.Workers.Examples.{opts, opts-IsSane}
use evictor.Workers.Timed.{Timed, TimedReach, here, next, tick, move}
use evictor.Workers.Timed.Bound.{TimedReach-stopped}

never : {m n : ℕ} → false ≡ true → m ≤ n
never h = absurd (ground (arith, h))

abbrev State : Type 0
State = (t : Timed) × TimedReach opts 1000000 t

abbrev cancelled : State
unfolding SystemOps supervises
cancelled = (_, next (next (here 0) (move (Step.start refl) tt)) (move Step.cancel_ctx tt))

abbrev draining : State
unfolding SystemOps supervises
draining =
    (_, next (next cancelled.1 (move (Step.observe refl refl) tt)) (move (Step.halt refl refl) tt))

abbrev fired : State
unfolding SystemOps supervises
fired = (
  _,
  next (next draining.1 (tick (15 * 1000000000) (λ busy. omega arith)))
      (move (Step.drain_timeout refl) (omega arith)),
)

abbrev unwinding : State
unfolding SystemOps supervises
unwinding = (_, next (next fired.1 (move (Step.interrupt refl) tt)) (move (Step.spawn refl) tt))

abbrev unwound : State
unfolding SystemOps supervises
unwound = (
  _,
  next (next unwinding.1 (tick (100 * 1000000) (λ busy. omega arith)))
      (move (Step.unwind_timeout refl) (omega arith)),
)

abbrev tallied : State
unfolding SystemOps supervises
tallied = (
  _,
  next (next unwound.1 (move (Step.load_accepted refl) tt)) (move (Step.none_left refl refl) tt),
)

abbrev done : State
unfolding SystemOps supervises
done = (
  _,
  next (next (next tallied.1 (move (Step.cancel refl) tt)) (move (Step.close refl) tt))
      (tick 1000000000 never),
)

TimedReach-stopped_example : (done.0.system.stage ≡ stopped) × (done.0.system.pool.done ≡ true)
unfolding SystemOps supervises
TimedReach-stopped_example = TimedReach-stopped opts-IsSane done.1 refl refl (omega arith)
