-- ===== src/Workers/Shutdown/Witnesses.antt =====
-- The pool whose worker is stuck can stop.
use evictor.Prelude.{◌≤◌, ◌≢◌, refl, none, Bool}
use evictor.Workers.Pool.{wait}
use evictor.Workers.System.{System, Run, SystemOps}
use evictor.Workers.Examples.{opts-IsSane, overdue}
use evictor.Workers.Shutdown.{Stops, supervised}
use evictor.Workers.Shutdown.End.{shutdown-Stops}

shutdown-Stops_example :
    ((stop : Stops overdue.0) × ((prefer_done ctx_over : Bool)
        → wait prefer_done ctx_over stop.last.pool ≢ none))
    × ((t : System) (r : Run overdue.0 t) → supervised r ≤ 12)
unfolding SystemOps
shutdown-Stops_example = shutdown-Stops opts-IsSane overdue.1 refl refl
