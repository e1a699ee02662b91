-- ===== src/Workers/Ledger.antt =====
-- Which jobs a run has sent, ended and still has: an account by identity, besides the counters.
pub mod Outcomes
pub mod Order
pub mod Bags
pub mod Totals
pub mod Attempts
pub mod Logs
mod Witnesses
use evictor.Prelude.{
  ℕ, zero, suc, ◌+◌, ◌≤◌, ◌≡◌, refl, sym, ap, ◌∙◌, true, false, Option, some, List, [], ◌∷◌, ◌++◌,
  replicate, get_elem?, weigh, weigh-replicate, if◌then◌else◌, ◌==◌, arith,
}
use evictor.Workers.Pool.{
  Job, JobError, Options, Pool, Lock, send_job, fail_to_send, add_accepted, deepen, stop_accepting,
  cancel_jobs, close_done, store_abandoned, count_abandoned, new_pool,
}
use evictor.Workers.Consumer.{
  Role, Pc, off, receiving, got, dequeued, trying, running, erred, succeeded, failing, failed,
  sinking, settling, finished, Move, ConsumerOps,
}
use evictor.Workers.System.{System, Step, Reach, here, next, init, spawning}
use evictor.Workers.Invariant.{
  IsSane, Reach-Inv, Inv, launched, live, alone, overall, Shift, worker-Shift, drainer-Shift,
}

abbrev pub is_job : Job → Job → ℕ
is_job j x = if x == j then 1 else 0

-- How often a job is in a list.
abbrev pub count : Job → List Job → ℕ
count j = weigh (is_job j)

-- A consumer carries its job until the job has ended.
abbrev pub carries : Job → Pc → ℕ
carries j (got job) = is_job j job
carries j (dequeued job) = is_job j job
carries j (trying job _ _) = is_job j job
carries j (running job _) = is_job j job
carries j (erred job _ _) = is_job j job
carries j (failing job _) = is_job j job
carries j (failed job _) = is_job j job
carries j (sinking job _) = is_job j job
carries j _ = 0

-- The job that a move ends with success, and the one that it hands to the dead-letter function.
unfoldable pub done_by : {r : Role} {p q : Pool} {pc pc' : Pc} → Move r p pc q pc' → List Job
done_by (Move.succeed {job} ending e) = job ∷ []
done_by _ = []

unfoldable pub dead_by : {r : Role} {p q : Pool} {pc pc' : Pc} → Move r p pc q pc' → List Job
dead_by (Move.sink {job}) = job ∷ []
dead_by _ = []

Move-carries :
    {r : Role} {p q : Pool} {pc pc' : Pc} (j : Job) (mv : Move r p pc q pc')
    → carries j pc + count j p.jobs
      ≡ carries j pc' + count j q.jobs + count j (done_by mv) + count j (dead_by mv)
unfolding ConsumerOps done_by dead_by weigh
Move-carries j (Move.take e) = ground (arith, e)
Move-carries j _ = ground arith

-- What a step sends into the channel, and what it ends.
unfoldable pub sent_by : {s t : System} → Step s t → List Job
sent_by (Step.submit_send {job} e open_ room) = job ∷ []
sent_by _ = []

unfoldable pub done_in : {s t : System} → Step s t → List Job
unfolding done_by
done_in (Step.consume i e mv) = done_by mv
done_in (Step.discard e mv) = done_by mv
done_in _ = []

unfoldable pub dead_in : {s t : System} → Step s t → List Job
unfolding dead_by
dead_in (Step.consume i e mv) = dead_by mv
dead_in (Step.discard e mv) = dead_by mv
dead_in _ = []

-- How often a job waits in the channel or is in the hands of a consumer.
unfoldable pub present : Job → System → ℕ
present j s = count j s.pool.jobs + overall (carries j) s.workers s.drain

turn-present :
    {r : Role} (s : System) (j : Job) {p : Pool} {pc pc' : Pc} (mv : Move r s.pool pc p pc')
    {after : ℕ}
    → Shift (carries j) pc pc' (overall (carries j) s.workers s.drain) after
    → count j p.jobs + after + count j (done_by mv) + count j (dead_by mv) ≡ present j s
unfolding present
turn-present s j mv sh = omega (arith, Move-carries j mv, sh.moved, sh.within)

count-append : (j : Job) (xs ys : List Job) → count j (xs ++ ys) ≡ count j xs + count j ys
unfolding weigh
count-append j [] ys = omega arith
count-append j (x ∷ xs) ys = omega (arith, count-append j xs ys)

-- Launching a consumer changes no weight that neither an idle nor a receiving one has.
pub launch-overall :
    (w : Pc → ℕ) (s : System)
    → w off ≡ 0
    → w receiving ≡ 0
    → Inv s
    → s.pool.started ≡ false
    → overall w (replicate s.pool.size receiving) s.drain ≡ overall w s.workers s.drain
launch-overall w s h k inv e =
    let down : launched s.stage ≡ false = sym inv.launch ∙ e in
    rw (inv.asleep down) (
      omega (arith, weigh-replicate w s.pool.size off h, weigh-replicate w s.pool.size receiving k))

off_of-live : (pc : Pc) → live pc ≡ 0 → pc ≡ off
off_of-live off e = refl
off_of-live _ e = absurd (omega arith)

pub spawn-overall :
    (w : Pc → ℕ) (s : System) → w off ≡ 0 → Inv s → s.stage ≡ spawning → w s.drain ≡ 0
spawn-overall w s h inv e = ap w (off_of-live s.drain (inv.solo (ap alone e))) ∙ h

Step-present :
    {s t : System} (j : Job)
    → Inv s
    → (st : Step s t)
    → present j t + count j (done_in st) + count j (dead_in st) ≡ present j s + count j (sent_by st)
unfolding present sent_by done_in dead_in weigh fail_to_send add_accepted deepen stop_accepting
    cancel_jobs close_done store_abandoned count_abandoned send_job
Step-present {s} j inv (Step.consume i {pc} {pc'} e mv) =
    omega (arith, turn-present s j mv (worker-Shift s (carries j) i pc' e))
Step-present {s} j inv (Step.discard {pc} {pc'} e mv) =
    omega (arith, turn-present s j mv (drainer-Shift s (carries j) pc' e))
Step-present {s} j inv (Step.submit_send {job} e q k) =
    omega (arith, count-append j s.pool.jobs (job ∷ []))
Step-present {s} j inv (Step.start e) = omega (arith, launch-overall (carries j) s refl refl inv e)
Step-present {s} j inv (Step.spawn e) = omega (arith, spawn-overall (carries j) s refl inv e)
Step-present j inv _ = ground arith

-- The jobs that a run has sent into the channel, that it has ended with success, and that it has
-- handed to the dead-letter function, the latest first.
unfoldable pub sent_jobs : {o : Options} {s : System} → Reach o s → List Job
unfolding sent_by
sent_jobs here = []
sent_jobs (next r st) = sent_by st ++ sent_jobs r

unfoldable pub done_jobs : {o : Options} {s : System} → Reach o s → List Job
unfolding done_in
done_jobs here = []
done_jobs (next r st) = done_in st ++ done_jobs r

unfoldable pub dead_jobs : {o : Options} {s : System} → Reach o s → List Job
unfolding dead_in
dead_jobs here = []
dead_jobs (next r st) = dead_in st ++ dead_jobs r

-- No job is lost and none is made up: each job that was sent, as often as it was sent, has ended
-- with success, or went to the dead-letter function, or is in the channel or with a consumer, and
-- just one of these.
pub sent_jobs-count :
    {o : Options} {s : System} (j : Job)
    → IsSane o
    → (r : Reach o s)
    → count j (sent_jobs r) ≡ count j (done_jobs r) + count j (dead_jobs r) + present j s
unfolding sent_jobs done_jobs dead_jobs present init new_pool weigh
sent_jobs-count {o} j sane here =
    omega (arith, weigh-replicate (carries j) (new_pool o).size off refl)
sent_jobs-count j sane (next r st) = omega (
  arith,
  sent_jobs-count j sane r,
  Step-present j (Reach-Inv sane r) st,
  count-append j (sent_by st) (sent_jobs r),
  count-append j (done_in st) (done_jobs r),
  count-append j (dead_in st) (dead_jobs r),
)
