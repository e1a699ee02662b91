-- ===== src/Workers/Ledger/Outcomes.antt =====
-- What has become of the jobs by the time that `Wait` returns nil, and the order of the channel.
use evictor.Prelude.{◌+◌, ◌≤◌, ◌≡◌, ap, Bool, none, some, weigh, weigh_mono, arith}
use evictor.Workers.Pool.{Job, Options, wait}
use evictor.Workers.Consumer.{Pc}
use evictor.Workers.System.{System, Reach}
use evictor.Workers.Invariant.{IsSane, holding, WeightSums}
use evictor.Workers.Safety.{wait-nil}
use evictor.Workers.Ledger.{
  count, carries, present, sent_jobs, done_jobs, dead_jobs, sent_jobs-count,
}

carries-le : (j : Job) (pc : Pc) → carries j pc ≤ holding pc
carries-le j pc = ground arith

-- If `Wait` returns nil, then every job that was sent, as often as it was sent, has ended just once:
-- with success, or in the hands of the dead-letter function.
pub count-wait_nil :
    {o : Options} {s : System} (j : Job)
    → IsSane o
    → (r : Reach o s) (prefer_done ctx_over : Bool) → wait prefer_done ctx_over s.pool ≡ some none
    → count j (sent_jobs r) ≡ count j (done_jobs r) + count j (dead_jobs r)
unfolding present WeightSums weigh
count-wait_nil {s = s} j sane r prefer_done ctx_over e =
    let ended = wait-nil sane r prefer_done ctx_over e in
    omega (
      arith,
      sent_jobs-count j sane r,
      ap (count j) ended.0,
      ended.1,
      weigh_mono (carries j) holding (carries-le j) s.workers,
      carries-le j s.drain,
    )
