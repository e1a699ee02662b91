-- ===== src/Workers/Shutdown.antt =====
-- The end of a pool: the steps of its supervisor, and the runs in which it stops.
pub mod Bound
pub mod Path
pub mod End
mod Witnesses
use evictor.Prelude.{
  ℕ, ◌+◌, ◌≤◌, ◌<◌, ◌≡◌, ◌≢◌, ◌⊎◌, inl, inr, refl, sym, ap, ◌∙◌, Bool, true, false, Bool-cases,
  Option, none, some, length, ltb, is_positive64, arith,
}
use evictor.Workers.Pool.{
  Job, Options, Pool, PoolError, Lock, free, entered, sent, counting, wait, unaccounted,
}
use evictor.Workers.Consumer.{Pc}
use evictor.Workers.System.{
  System, Stage, unstarted, awaiting, halting, draining, expired, spawning, unwinding, tallying,
  loaded, storing, reporting, cancelling, closing, stopped, Step, Reach, next, Run, stay, go,
  SystemOps,
}
use evictor.Workers.Invariant.{IsSane, Inv, Reach-Inv, launched, ended}

-- How many steps of the supervisor are left at most.
unfoldable pub steps_left : Stage → ℕ
steps_left unstarted = 13
steps_left awaiting = 12
steps_left halting = 11
steps_left draining = 10
steps_left expired = 9
steps_left spawning = 8
steps_left unwinding = 7
steps_left tallying = 6
steps_left (loaded a) = 5
steps_left (storing c) = 4
steps_left (reporting c) = 3
steps_left cancelling = 2
steps_left closing = 1
steps_left stopped = 0

-- A step of the goroutine of `Start`: those that move its stage.
unfoldable pub supervises : {s t : System} → Step s t → ℕ
supervises (Step.consume i e mv) = 0
supervises (Step.discard e mv) = 0
supervises (Step.submit_lock job e) = 0
supervises (Step.submit_stopped e h) = 0
supervises (Step.submit_full e h k) = 0
supervises (Step.submit_send e h k) = 0
supervises (Step.submit_accept e) = 0
supervises (Step.submit_count e) = 0
supervises (Step.start_again e) = 0
supervises Step.cancel_ctx = 0
supervises _ = 1

unfoldable pub supervised : {s t : System} → Run s t → ℕ
unfolding supervises
supervised stay = 0
supervised (go r st) = supervised r + supervises st

-- What a run can come to while no worker and no caller of `Start` moves.
pub record Stops (s : System) : Type 0 where
  pub last : System
  pub run : Run s last
  pub stage : last.stage ≡ stopped
  pub done : last.pool.done ≡ true
  pub workers : last.workers ≡ s.workers
