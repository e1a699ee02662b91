-- ===== src/Workers/Drain.antt =====
-- The consumers' work is bounded, and a consumer that has work can always go on.
use evictor.Prelude.{
  ℕ, suc, ◌+◌, ◌-◌, ◌*◌, ◌≤◌, ◌<◌, ◌≡◌, ◌≢◌, ap, inl, inr, refl, true, some, List, [], ◌∷◌, length,
  weigh, weigh-set, weight-le-weigh, get_elem?, set, All-get, List-cases, Option-cases, Bool-cases,
  arith,
}
use native.Mathlib.Decide.{dec_le}
use evictor.Workers.Pool.{Options, Job, Pool, free, ctx_err, nil, run_job}
use evictor.Workers.Consumer.{
  Role, worker, drainer, Pc, off, receiving, got, dequeued, trying, running, erred, succeeded,
  failing, failed, sinking, settling, finished, Move, ConsumerOps, take, finish, dequeue, refuse,
  begin, discard, try, give_up, succeed, break, retry, process, count_failure, count_dead_letter,
  sink, settle,
}
use evictor.Workers.System.{System, Step, Reach}
use evictor.Workers.Invariant.{PcOk, Inv, IsSane, Reach-Inv, Step-Inv, Move-Same}

-- The most steps that a consumer still takes, given the maximum of attempts, if it receives no
-- further job.
abbrev pub steps_left : ℕ → Pc → ℕ
steps_left most off = 0
steps_left most receiving = 1
steps_left most (got _) = 8 + 3 * most
steps_left most (dequeued _) = 7 + 3 * most
steps_left most (trying _ attempt _) = 6 + 3 * (most + 1 - attempt)
steps_left most (running _ attempt) = 5 + 3 * (most + 1 - attempt)
steps_left most (erred _ attempt _) = 4 + 3 * (most + 1 - attempt)
steps_left most succeeded = 3
steps_left most (failing _ _) = 5
steps_left most (failed _ _) = 4
steps_left most (sinking _ _) = 3
steps_left most settling = 2
steps_left most finished = 0

-- With the jobs in the channel.
abbrev pub work_left : ℕ → Pool → Pc → ℕ
work_left most p pc = length p.jobs * (8 + 3 * most) + steps_left most pc

-- Every step of a consumer leaves less work.
pub work_left-lt :
    {r : Role} {p p' : Pool} {pc pc' : Pc}
    → PcOk p.max_attempts pc
    → Move r p pc p' pc'
    → work_left p.max_attempts p' pc' < work_left p.max_attempts p pc
unfolding ConsumerOps
work_left-lt {p} ok (take e) =
    omega (arith, ap (λ (jobs : List Job). length jobs * (8 + 3 * p.max_attempts)) e)
work_left-lt ok (try g) = ground arith
work_left-lt ok _ = ground arith

-- The work that is left for all consumers together.
abbrev pub total_work : System → ℕ
total_work s =
    length s.pool.jobs * (8 + 3 * s.pool.max_attempts)
    + (weigh (steps_left s.pool.max_attempts) s.workers + steps_left s.pool.max_attempts s.drain)

-- `n` steps of consumers, in which no job is submitted and the supervisor does nothing.
pub data Churn (s : System) : ℕ → System → Type 0 where
  idle : Churn s 0 s
  by_worker :
      {n : ℕ} {t : System} (i : ℕ) {pc pc' : Pc} {p : Pool}
      → Churn s n t
      → get_elem? t.workers i ≡ some pc
      → Move worker t.pool pc p pc'
      → Churn s (suc n) (record t { pool = p; workers = set t.workers i pc' })
  by_drainer :
      {n : ℕ} {t : System} {pc pc' : Pc} {p : Pool}
      → Churn s n t
      → t.drain ≡ pc
      → Move drainer t.pool pc p pc'
      → Churn s (suc n) (record t { pool = p; drain = pc' })

Churn-Inv : {s : System} {n : ℕ} {t : System} → Inv s → Churn s n t → Inv t
Churn-Inv inv idle = inv
Churn-Inv inv (by_worker i c e mv) = Step-Inv (Step.consume i e mv) (Churn-Inv inv c)
Churn-Inv inv (by_drainer c e mv) = Step-Inv (Step.discard e mv) (Churn-Inv inv c)

worker-work :
    {t : System} (i : ℕ) {pc pc' : Pc} {p : Pool}
    → Inv t
    → get_elem? t.workers i ≡ some pc
    → Move worker t.pool pc p pc'
    → total_work (record t { pool = p; workers = set t.workers i pc' }) < total_work t
worker-work {t} i {pc} {pc'} {p} inv e mv =
    let w = steps_left t.pool.max_attempts in
    rw ((Move-Same mv).max_attempts) (
      omega (
        arith,
        work_left-lt (All-get (PcOk t.pool.max_attempts) t.workers i inv.pcs e) mv,
        weigh-set w t.workers i pc pc' e,
        weight-le-weigh w t.workers i pc e,
      ))

drainer-work :
    {t : System} {pc pc' : Pc} {p : Pool}
    → Inv t
    → t.drain ≡ pc
    → Move drainer t.pool pc p pc'
    → total_work (record t { pool = p; drain = pc' }) < total_work t
drainer-work {t} {pc} {pc'} {p} inv e mv =
    let w = steps_left t.pool.max_attempts in
    let ok : PcOk t.pool.max_attempts pc = rw e at inv.drain_pc in
    rw ((Move-Same mv).max_attempts) (omega (arith, work_left-lt ok mv, ap w e))

Churn-work :
    {s : System} {n : ℕ} {t : System} → Inv s → Churn s n t → n + total_work t ≤ total_work s
Churn-work inv idle = omega arith
Churn-work inv (by_worker i c e mv) =
    omega (arith, Churn-work inv c, worker-work i (Churn-Inv inv c) e mv)
Churn-work inv (by_drainer c e mv) =
    omega (arith, Churn-work inv c, drainer-work (Churn-Inv inv c) e mv)

steps_left-le : (most : ℕ) (pc : Pc) → steps_left most pc ≤ 9 + 3 * most
steps_left-le most pc = ground arith

weigh-steps_left :
    (most : ℕ) (ws : List Pc) → weigh (steps_left most) ws ≤ length ws * (9 + 3 * most)
unfolding weigh
weigh-steps_left most [] = omega arith
weigh-steps_left most (w ∷ ws) = omega (arith, steps_left-le most w, weigh-steps_left most ws)

-- The consumers cannot go on for ever: from any reachable state on, and whatever the jobs return,
-- they take at most 8 + 3 * max_attempts steps for each job in the channel, and at most one more
-- than that for each worker and for the drainer.
pub Churn-bounded :
    {o : Options} {n : ℕ} {s t : System}
    → IsSane o
    → Reach o s
    → Churn s n t
    → n
      ≤ length s.pool.jobs * (8 + 3 * s.pool.max_attempts)
        + (length s.workers + 1) * (9 + 3 * s.pool.max_attempts)
Churn-bounded {s} sane r c = omega (
  arith,
  Churn-work (Reach-Inv sane r) c,
  weigh-steps_left s.pool.max_attempts s.workers,
  steps_left-le s.pool.max_attempts s.drain,
)

-- A consumer that has not finished can take a step once the channel is closed and no call of
-- `Submit` holds the mutex. Inside `runJob` that is for the job to do: here it returns nil.
pub progress :
    (r : Role) (p : Pool) (pc : Pc)
    → p.lock ≡ free
    → p.closed ≡ true
    → pc ≢ off
    → pc ≢ finished
    → (p' : Pool) × (pc' : Pc) × Move r p pc p' pc'
unfolding run_job
progress r p off l c a b = absurd (a refl)
progress r p receiving l c a b = elim (List-cases p.jobs) [
  | inl e ↦ (_, _, finish e c)
  | inr (job, rest, e) ↦ (_, _, take e)
]
progress r p (got job) l c a b = (_, _, dequeue l)
progress drainer p (dequeued job) l c a b = (_, _, discard refl)
progress worker p (dequeued job) l c a b = elim (Option-cases (ctx_err p)) [
  | inl e ↦ (_, _, begin refl e)
  | inr (err, e) ↦ (_, _, refuse refl e)
]
progress r p (trying job attempt err) l c a b = elim (dec_le attempt p.max_attempts) [
  | yes h ↦ (_, _, try h)
  | no h ↦ (_, _, give_up (omega arith))
]
progress r p (running job attempt) l c a b = (_, _, succeed nil refl)
progress r p (erred job attempt err) l c a b = elim (Bool-cases p.cancelled) [
  | inl e ↦ (_, _, break e)
  | inr e ↦ (_, _, retry e)
]
progress r p succeeded l c a b = (_, _, process)
progress r p (failing job err) l c a b = (_, _, count_failure)
progress r p (failed job err) l c a b = (_, _, count_dead_letter)
progress r p (sinking job err) l c a b = (_, _, sink)
progress r p settling l c a b = (_, _, settle)
progress r p finished l c a b = absurd (b refl)
