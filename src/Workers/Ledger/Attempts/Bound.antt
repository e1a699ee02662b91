-- ===== src/Workers/Ledger/Attempts/Bound.antt =====
-- How often the function of a job is called at most.
use native.Mathlib.Nat.{mul-le-mul_left}
use evictor.Prelude.{ℕ, ◌+◌, ◌*◌, ◌≤◌, ◌≡◌, subst, List, [], ◌∷◌, weigh, All, arith}
use evictor.Workers.Pool.{Job, Options, new_pool}
use evictor.Workers.Consumer.{Pc}
use evictor.Workers.System.{System, Reach}
use evictor.Workers.Invariant.{IsSane, Inv, Reach-Inv, PcOk, overall}
use evictor.Workers.Ledger.{
  count, is_job, carries, present, sent_jobs, sent_jobs-count, done_jobs, dead_jobs,
}
use evictor.Workers.Ledger.Attempts.{tried_jobs, cost, used, all_used, Reach-max, Reach-used}

mul-plus : (m a b : ℕ) → m * (a + b) ≡ m * a + m * b
mul-plus m a b = ground arith

weigh-cost : (most : ℕ) (j : Job) (xs : List Job) → weigh (cost most j) xs ≡ most * count j xs
unfolding weigh
weigh-cost most j [] = omega arith
weigh-cost most j (x ∷ xs) =
    ground (arith, weigh-cost most j xs, mul-plus most (is_job j x) (count j xs))

used-le : (most : ℕ) (j : Job) (pc : Pc) → PcOk most pc → used most j pc ≤ most * carries j pc
used-le most j pc ok = ground (arith, ok)

weigh-used :
    (most : ℕ) (j : Job) (ws : List Pc)
    → All (PcOk most) ws
    → weigh (used most j) ws ≤ most * weigh (carries j) ws
unfolding weigh
weigh-used most j [] ok = omega arith
weigh-used most j (pc ∷ ws) (p, ok) = omega (
  arith,
  used-le most j pc p,
  weigh-used most j ws ok,
  mul-plus most (carries j pc) (weigh (carries j) ws),
)

all_used-le :
    (j : Job) {s : System}
    → Inv s
    → all_used s.pool.max_attempts j s ≤ s.pool.max_attempts * overall (carries j) s.workers s.drain
unfolding all_used
all_used-le j {s} inv =
    let most = s.pool.max_attempts in
    omega (
      arith,
      weigh-used most j s.workers inv.pcs,
      used-le most j s.drain inv.drain_pc,
      mul-plus most (weigh (carries j) s.workers) (carries j s.drain),
    )

-- In any run, the function of a job is called at most `MaxAttempts` times for each time that the job
-- was sent, whoever takes it and whatever it returns.
pub tried_jobs-count :
    {o : Options} {s : System} (j : Job)
    → IsSane o
    → (r : Reach o s) → count j (tried_jobs r) ≤ (new_pool o).max_attempts * count j (sent_jobs r)
unfolding present
tried_jobs-count {o} {s} j sane r =
    let most = (new_pool o).max_attempts in
    let hands = overall (carries j) s.workers s.drain in
    let done = count j (done_jobs r) in
    let dead = count j (dead_jobs r) in
    let carried =
      subst (λ m. all_used m j s ≤ m * hands) (Reach-max r) (all_used-le j (Reach-Inv sane r)) in
    let enough =
      mul-le-mul_left {m = done + dead + hands} {n = count j (sent_jobs r)} most
        (omega (arith, sent_jobs-count j sane r)) in
    omega (
      arith,
      Reach-used j sane r,
      carried,
      enough,
      weigh-cost most j (done_jobs r),
      weigh-cost most j (dead_jobs r),
      mul-plus most (done + dead) hands,
      mul-plus most done dead,
    )
