-- ===== src/Workers/Ledger/Attempts.antt =====
-- How often the function of a job is called.
pub mod Bound
use native.Mathlib.Nat.{mul-le-mul_left}
use evictor.Prelude.{
  ℕ, zero, suc, ◌+◌, ◌*◌, ◌-◌, ◌≤◌, ◌≡◌, refl, sym, ap, subst, ◌∙◌, Option, some, List, [], ◌∷◌,
  ◌++◌, get_elem?, weigh, weigh-replicate, replicate, All, if◌then◌else◌, ◌==◌, All-get, arith,
}
use evictor.Workers.Pool.{
  Job, Options, Pool, new_pool, send_job, fail_to_send, add_accepted, deepen, stop_accepting,
  cancel_jobs, close_done, store_abandoned, count_abandoned,
}
use evictor.Workers.Consumer.{
  Role, Pc, off, receiving, trying, running, erred, failing, failed, sinking, Move, ConsumerOps,
}
use evictor.Workers.System.{System, Step, Reach, here, next, init}
use evictor.Workers.Invariant.{
  IsSane, Inv, Reach-Inv, PcOk, overall, Shift, worker-Shift, drainer-Shift,
}
use evictor.Workers.Ledger.{
  count, is_job, carries, present, sent_jobs, sent_jobs-count, launch-overall, spawn-overall,
  done_by, dead_by, done_in, dead_in, done_jobs, dead_jobs,
}

-- The job whose function a move calls.
unfoldable pub tried_by : {r : Role} {p q : Pool} {pc pc' : Pc} → Move r p pc q pc' → List Job
tried_by (Move.try {job} e) = job ∷ []
tried_by _ = []

unfoldable pub tried_in : {s t : System} → Step s t → List Job
unfolding tried_by
tried_in (Step.consume i e mv) = tried_by mv
tried_in (Step.discard e mv) = tried_by mv
tried_in _ = []

-- The calls of the jobs' functions in a run, the latest first.
unfoldable pub tried_jobs : {o : Options} {s : System} → Reach o s → List Job
unfolding tried_in
tried_jobs here = []
tried_jobs (next r st) = tried_in st ++ tried_jobs r

abbrev pub cost : (most : ℕ) → Job → Job → ℕ
cost most j x = if x == j then most else 0

-- The calls that the job of a consumer has had, or may have had.
abbrev pub used : (most : ℕ) → Job → Pc → ℕ
used most j (trying job attempt _) = cost (attempt - 1) j job
used most j (running job attempt) = cost attempt j job
used most j (erred job attempt _) = cost attempt j job
used most j (failing job _) = cost most j job
used most j (failed job _) = cost most j job
used most j (sinking job _) = cost most j job
used most j _ = 0

Move-used :
    {r : Role} {p q : Pool} {pc pc' : Pc} (j : Job) (mv : Move r p pc q pc')
    → PcOk p.max_attempts pc
    → count j (tried_by mv) + used p.max_attempts j pc
      ≤ weigh (cost p.max_attempts j) (done_by mv)
        + weigh (cost p.max_attempts j) (dead_by mv)
        + used p.max_attempts j pc'
unfolding tried_by done_by dead_by weigh ConsumerOps
Move-used j (Move.try e) ok = ground (arith, ok, e)
Move-used j _ ok = ground (arith, ok)

Move-max :
    {r : Role} {p q : Pool} {pc pc' : Pc} → Move r p pc q pc' → q.max_attempts ≡ p.max_attempts
unfolding ConsumerOps
Move-max Move.sink = ground arith
Move-max _ = refl

Step-max : {s t : System} → Step s t → t.pool.max_attempts ≡ s.pool.max_attempts
unfolding send_job fail_to_send add_accepted deepen stop_accepting cancel_jobs close_done
    store_abandoned count_abandoned
Step-max (Step.consume i e mv) = Move-max mv
Step-max (Step.discard e mv) = Move-max mv
Step-max _ = ground arith

turn-used :
    {r : Role} (j : Job) {p q : Pool} {pc pc' : Pc} {before after : ℕ} (mv : Move r p pc q pc')
    → PcOk p.max_attempts pc
    → Shift (used p.max_attempts j) pc pc' before after
    → count j (tried_by mv) + before
      ≤ weigh (cost p.max_attempts j) (done_by mv)
        + weigh (cost p.max_attempts j) (dead_by mv)
        + after
turn-used j mv ok sh = omega (arith, Move-used j mv ok, sh.moved, sh.within)

unfoldable pub all_used : ℕ → Job → System → ℕ
all_used most j s = overall (used most j) s.workers s.drain

Step-used :
    {s t : System} (j : Job)
    → Inv s
    → (st : Step s t)
    → count j (tried_in st) + all_used s.pool.max_attempts j s
      ≤ weigh (cost s.pool.max_attempts j) (done_in st)
        + weigh (cost s.pool.max_attempts j) (dead_in st)
        + all_used s.pool.max_attempts j t
unfolding tried_in done_in dead_in all_used weigh fail_to_send add_accepted deepen stop_accepting
    cancel_jobs close_done store_abandoned count_abandoned send_job
Step-used {s} j inv (Step.consume i {pc} {pc'} e mv) =
    turn-used j mv (All-get (PcOk s.pool.max_attempts) s.workers i inv.pcs e)
      (worker-Shift s (used s.pool.max_attempts j) i pc' e)
Step-used {s} j inv (Step.discard {pc} {pc'} e mv) =
    turn-used j mv (subst (PcOk s.pool.max_attempts) e inv.drain_pc)
      (drainer-Shift s (used s.pool.max_attempts j) pc' e)
Step-used {s} j inv (Step.start e) =
    omega (arith, launch-overall (used s.pool.max_attempts j) s refl refl inv e)
Step-used {s} j inv (Step.spawn e) =
    omega (arith, spawn-overall (used s.pool.max_attempts j) s refl inv e)
Step-used j inv _ = ground arith

pub Reach-max :
    {o : Options} {s : System} → Reach o s → s.pool.max_attempts ≡ (new_pool o).max_attempts
unfolding init
Reach-max here = refl
Reach-max (next r st) = Step-max st ∙ Reach-max r

weigh-append : (w : Job → ℕ) (xs ys : List Job) → weigh w (xs ++ ys) ≡ weigh w xs + weigh w ys
unfolding weigh
weigh-append w [] ys = omega arith
weigh-append w (x ∷ xs) ys = omega (arith, weigh-append w xs ys)

pub Reach-used :
    {o : Options} {s : System} (j : Job)
    → IsSane o
    → (r : Reach o s)
    → let most = (new_pool o).max_attempts in
      count j (tried_jobs r)
      ≤ weigh (cost most j) (done_jobs r) + weigh (cost most j) (dead_jobs r) + all_used most j s
unfolding tried_jobs done_jobs dead_jobs all_used init new_pool weigh
Reach-used j sane here = omega arith
Reach-used {o} j sane (next {s} {t} r st) =
    let w = cost (new_pool o).max_attempts j in
    let step =
      subst
        (λ m.
          count j (tried_in st) + all_used m j s
          ≤ weigh (cost m j) (done_in st) + weigh (cost m j) (dead_in st) + all_used m j t)
        (Reach-max r) (Step-used j (Reach-Inv sane r) st) in
    omega (
      arith,
      Reach-used j sane r,
      step,
      weigh-append (is_job j) (tried_in st) (tried_jobs r),
      weigh-append w (done_in st) (done_jobs r),
      weigh-append w (dead_in st) (dead_jobs r),
    )
