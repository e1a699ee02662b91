-- ===== src/App/Output.antt =====
-- What a run of the process prints, under the level of its configuration.
use evictor.Prelude.{◌≡◌, ◌≢◌, Bool, true, false, ◌||◌, Option, none, List, [], ◌∷◌, if◌then◌else◌}
use evictor.Config
use evictor.Config.{Config, Level, Result, ok, err, load}
use evictor.Logging
use evictor.Logging.{Logger, enabled, severity}
use evictor.Workers.Pool.{PoolError}
use evictor.App.Process.{Process, Event, Run, run, printed, logged}

-- The line that an event prints: a log record is left out below the logger's level.
unfoldable pub is_shown : Logger → Event → Bool
unfolding enabled
is_shown logger (printed e) = true
is_shown logger (logged level message) = enabled logger level
is_shown logger _ = false

unfoldable pub shown : Logger → List Event → List Event
unfolding is_shown
shown logger [] = []
shown logger (e ∷ events) =
    let rest = shown logger events in if is_shown logger e then e ∷ rest else rest

-- The lines of a run. The error of `config.Load` is printed without a logger.
unfoldable pub lines : Process → Result Config → List Event → List Event
unfolding shown Logging.new
lines p (err e) events = events
lines p (ok cfg) events = shown (Logging.new cfg.environment cfg.log_level) events

unfoldable pub is_error : Event → Bool
is_error (printed e) = true
is_error (logged Level.error message) = true
is_error _ = false

unfoldable pub has_error : List Event → Bool
unfolding is_error
has_error [] = false
has_error (e ∷ events) = is_error e || has_error events

-- A failing run has an error, and one that succeeds has none, where the workers stopped.
record IsReported (r : Run) (wait : Option PoolError) : Type 0 where
  failure : r.code ≢ 0 → has_error r.events ≡ true
  success : r.code ≡ 0 → wait ≡ none → has_error r.events ≡ false

-- What the process prints.
abbrev pub output : Process → List Event
output p = lines p (load p.read_file p.lookup) (run p).events
