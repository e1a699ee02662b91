-- ===== src/Workers/Shutdown/End.antt =====
-- Every pool stops, and `Wait` answers.
use evictor.Prelude.{◌≤◌, ◌≡◌, ◌≢◌, refl, Bool, true, none, arith}
use evictor.Workers.Pool.{Options, wait}
use evictor.Workers.System.{System, Reach, Run}
use evictor.Workers.Invariant.{IsSane, Reach-Inv}
use evictor.Workers.Shutdown.{supervised, Stops}
use evictor.Workers.Shutdown.Bound.{begun, Run-steps_left}
use evictor.Workers.Shutdown.Path.{from_stage}

-- From every state that a pool reaches after `Start` was called and its context cancelled, it can
-- stop without a move of any worker, so that a job that never returns does not hold up the shutdown;
-- and every run from that state, whatever the goroutines do in it, has at most twelve steps of the
-- supervisor. Once the pool has stopped, `Wait` answers.
pub shutdown-Stops :
    {o : Options} {s : System}
    → IsSane o
    → Reach o s
    → s.pool.started ≡ true
    → s.ctx_done ≡ true
    → ((stop : Stops s) × ((prefer_done ctx_over : Bool)
          → wait prefer_done ctx_over stop.last.pool ≢ none))
      × ((t : System) (r : Run s t) → supervised r ≤ 12)
unfolding wait
shutdown-Stops {s = s} sane reach on over =
    let inv = Reach-Inv sane reach in
    let stop = from_stage s.stage inv on over refl in
    (
      (stop, λ prefer_done ctx_over. rw stop.done (ground arith)),
      λ t r. omega (arith, Run-steps_left sane reach r, begun inv on),
    )
