-- ===== src/Workers/Submission.antt =====
-- `Submit` as its caller sees it, and as a run of the steps that the goroutines can interleave.
use evictor.Prelude.{◌≡◌, ◌⊎◌, true, false, none, some, [], ◌∷◌, ◌++◌, arith}
use evictor.Workers.Pool.{Job, queue_full, pool_stopped, Pool, submit}
use evictor.Workers.System.{System}

-- An accepted job goes to the end of the queue; otherwise the pool stays as it was, and the error
-- says whether the pool has stopped or the channel is full. (An open pool's channel is open.)
pub submit-outcome :
    (job : Job) (p : Pool)
    → p.closed ≡ p.stopping
    → p.broken ≡ false
    → (((submit job p).1 ≡ none) × ((submit job p).0.jobs ≡ p.jobs ++ job ∷ []))
      ⊎ (((submit job p).1 ≡ some queue_full) × ((submit job p).0 ≡ p) × (p.stopping ≡ false))
      ⊎ (((submit job p).1 ≡ some pool_stopped) × ((submit job p).0 ≡ p) × (p.stopping ≡ true))
unfolding submit
submit-outcome job p c b = ground arith
