-- ===== src/Workers/Timed.antt =====
-- backend/internal/workers/pool.go: the shutdown of a pool in time. A clock runs along with the
-- goroutines; the supervisor of `Start` takes its next step within `lag` of being able to, which is what
-- the scheduler and the mutex cost it, and each of its two timers fires when it is due or up to
-- `lag` later.
pub mod Bound
mod Witnesses
use evictor.Prelude.{ℕ, ◌+◌, ◌*◌, ◌≤◌, ◌≡◌, Bool, true, false, ◌&&◌, ◌==◌, if◌then◌else◌}
use evictor.Workers.Pool.{Options, new_pool}
use evictor.Workers.System.{
  System, init, Stage, unstarted, awaiting, draining, unwinding, stopped, Step,
}
use evictor.Workers.Shutdown.{supervises}

abbrev pub unwind_window : ℕ
unwind_window = 100 * 1000000

-- `entered` is when the supervisor came to its stage, and `since` when it had the shutdown to do.
pub record Timed : Type 0 where
  pub system : System
  pub now : ℕ
  pub entered : ℕ
  pub since : ℕ

-- The supervisor is not blocked for good: it is launched, the context is cancelled, and it is not
-- through.
abbrev pub stage_busy : Bool → Stage → Bool
stage_busy ctx_done unstarted = false
stage_busy ctx_done awaiting = ctx_done
stage_busy ctx_done stopped = false
stage_busy ctx_done _ = true

abbrev pub is_busy : System → Bool
is_busy s = stage_busy s.ctx_done s.stage

-- How long it stays in a stage at most.
abbrev pub patience : (drain lag : ℕ) → Stage → ℕ
patience drain lag draining = drain + lag
patience drain lag unwinding = unwind_window + lag
patience drain lag _ = lag

-- The timer of the stage is due.
abbrev pub IsDue : (drain : ℕ) → Timed → {s t : System} → Step s t → Type 0
IsDue drain t (Step.drain_timeout e) = t.entered + drain ≤ t.now
IsDue drain t (Step.unwind_timeout e) = t.entered + unwind_window ≤ t.now
IsDue drain t _ = Unit

abbrev pub moved : Timed → System → ℕ → Timed
moved t s moves = record {
  system = s;
  now = t.now;
  entered = if is_busy t.system && moves == 0 then t.entered else t.now;
  since = if is_busy t.system then t.since else t.now;
}

pub data TimedStep (drain lag : ℕ) (t : Timed) : Timed → Type 0 where
  tick :
      (d : ℕ)
      → (is_busy t.system ≡ true → t.now + d ≤ t.entered + patience drain lag t.system.stage)
      → TimedStep drain lag t (record t { now = t.now + d })
  move :
      {s : System} (st : Step t.system s)
      → IsDue drain t st
      → TimedStep drain lag t (moved t s (supervises st))

pub data TimedReach (o : Options) (lag : ℕ) : Timed → Type 0 where
  here :
      (start : ℕ)
      → TimedReach o lag (record { system = init o; now = start; entered = start; since = start })
  next :
      {t u : Timed}
      → TimedReach o lag t
      → TimedStep (new_pool o).drain_timeout lag t u
      → TimedReach o lag u
