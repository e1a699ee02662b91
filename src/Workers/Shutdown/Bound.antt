-- ===== src/Workers/Shutdown/Bound.antt =====
-- How many steps the supervisor of a pool takes.
use evictor.Prelude.{◌+◌, ◌≤◌, ◌≡◌, sym, ap, ◌∙◌, true, arith}
use evictor.Workers.Pool.{Options}
use evictor.Workers.System.{System, Stage, unstarted, Step, Reach, next, Run, stay, go}
use evictor.Workers.Invariant.{IsSane, Inv, Reach-Inv, launched}
use evictor.Workers.Shutdown.{steps_left, supervises, supervised}

Step-steps_left :
    {s t : System}
    → Inv s
    → (st : Step s t) → steps_left t.stage + supervises st ≤ steps_left s.stage
unfolding steps_left supervises
Step-steps_left inv (Step.start e) = ground (arith, inv.launch, e)
Step-steps_left inv (Step.observe e h) = omega (arith, ap steps_left e)
Step-steps_left inv (Step.halt e h) = omega (arith, ap steps_left e)
Step-steps_left inv (Step.drained e h) = omega (arith, ap steps_left e)
Step-steps_left inv (Step.drain_timeout e) = omega (arith, ap steps_left e)
Step-steps_left inv (Step.interrupt e) = omega (arith, ap steps_left e)
Step-steps_left inv (Step.spawn e) = omega (arith, ap steps_left e)
Step-steps_left inv (Step.unwound e h k) = omega (arith, ap steps_left e)
Step-steps_left inv (Step.unwind_timeout e) = omega (arith, ap steps_left e)
Step-steps_left inv (Step.load_accepted e) = omega (arith, ap steps_left e)
Step-steps_left inv (Step.none_left e h) = omega (arith, ap steps_left e)
Step-steps_left inv (Step.some_left e h) = omega (arith, ap steps_left e)
Step-steps_left inv (Step.store e) = omega (arith, ap steps_left e)
Step-steps_left inv (Step.report e) = omega (arith, ap steps_left e)
Step-steps_left inv (Step.cancel e) = omega (arith, ap steps_left e)
Step-steps_left inv (Step.close e) = omega (arith, ap steps_left e)
Step-steps_left inv _ = omega arith

Run-Reach : {o : Options} {s t : System} → Reach o s → Run s t → Reach o t
Run-Reach reach stay = reach
Run-Reach reach (go r st) = next (Run-Reach reach r) st

-- The supervisor takes at most thirteen steps, from the call of `Start` to the end, in any run.
pub Run-steps_left :
    {o : Options} {s t : System}
    → IsSane o
    → Reach o s
    → (r : Run s t) → steps_left t.stage + supervised r ≤ steps_left s.stage
unfolding supervised
Run-steps_left sane reach stay = omega arith
Run-steps_left sane reach (go r st) =
    omega
      (arith, Run-steps_left sane reach r, Step-steps_left (Reach-Inv sane (Run-Reach reach r)) st)

below_start : (stage : Stage) → launched stage ≡ true → steps_left stage ≤ 12
unfolding steps_left
below_start unstarted h = absurd (ground arith)
below_start _ h = omega arith

pub begun : {s : System} → Inv s → s.pool.started ≡ true → steps_left s.stage ≤ 12
begun {s} inv on = below_start s.stage (sym inv.launch ∙ on)
