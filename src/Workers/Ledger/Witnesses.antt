-- ===== src/Workers/Ledger/Witnesses.antt =====
-- The account of the runs in Examples.
use evictor.Prelude.{◌≤◌, ◌*◌, ◌+◌, ◌≡◌, refl, true, false, some, [], ◌∷◌, weigh}
use evictor.Workers.Pool.{at_least_one, wait, drain_incomplete, returned}
use evictor.Workers.System.{SystemOps}
use evictor.Workers.Examples.{opts-IsSane, stopped, abandoned}
use evictor.Workers.Ledger.{count, present, sent_jobs, done_jobs, dead_jobs, sent_jobs-count}
use evictor.Workers.Ledger.Outcomes.{count-wait_nil}
use evictor.Workers.Ledger.Attempts.{tried_jobs}
use evictor.Workers.Ledger.Attempts.Bound.{tried_jobs-count}
use evictor.Workers.Ledger.Logs.{attempt_failed, log, abandonments}
use evictor.Workers.Ledger.Logs.Counts.{Logged, Reach-Logged, log-wait}
use evictor.Workers.Ledger.Totals.{Totals, Reach-Totals}

seven_done : done_jobs stopped.1 ≡ 7 ∷ []
unfolding SystemOps done_jobs
seven_done = refl

seven_stuck : present 7 abandoned.0 ≡ 1
unfolding SystemOps present weigh
seven_stuck = refl

sent_jobs-count_example :
    count 7 (sent_jobs abandoned.1)
    ≡ count 7 (done_jobs abandoned.1) + count 7 (dead_jobs abandoned.1) + present 7 abandoned.0
sent_jobs-count_example = sent_jobs-count 7 opts-IsSane abandoned.1

count-wait_nil_example :
    count 7 (sent_jobs stopped.1) ≡ count 7 (done_jobs stopped.1) + count 7 (dead_jobs stopped.1)
unfolding SystemOps wait
count-wait_nil_example = count-wait_nil 7 opts-IsSane stopped.1 true false refl

Reach-Totals_example : Totals abandoned.0 (done_jobs abandoned.1) (dead_jobs abandoned.1)
Reach-Totals_example = Reach-Totals opts-IsSane abandoned.1

tried_jobs-count_example : count 7 (tried_jobs stopped.1) ≤ 2 * count 7 (sent_jobs stopped.1)
unfolding SystemOps at_least_one
tried_jobs-count_example = tried_jobs-count 7 opts-IsSane stopped.1

seven_twice : tried_jobs stopped.1 ≡ 7 ∷ 7 ∷ []
unfolding SystemOps tried_jobs
seven_twice = refl

Reach-Logged_example :
    Logged abandoned.0
      (tried_jobs abandoned.1)
      (done_jobs abandoned.1)
      (dead_jobs abandoned.1)
      (log abandoned.1)
Reach-Logged_example = Reach-Logged opts-IsSane abandoned.1

log-wait_example : abandonments (log abandoned.1) ≡ 1 ∷ []
unfolding SystemOps wait
log-wait_example =
    log-wait opts-IsSane abandoned.1 true false {answer = some (drain_incomplete 1)} refl (λ e. cc)

logged_once : log stopped.1 ≡ attempt_failed 1 2 (returned "timeout") ∷ []
unfolding SystemOps log
logged_once = refl
