-- ===== src/App/Timing.antt =====
-- The deadline of `Wait` and the timers of the pool: the shutdown budget together with the workers.
use evictor.Prelude.{ℕ, ◌+◌, ◌*◌, ◌^◌, ◌≤◌, ◌<◌, ◌≡◌, sym, ◌∙◌, true, none, some, arith}
use evictor.Config
use evictor.Config.{Config, ok, load}
use evictor.Config.Laws.{load-IsValid}
use evictor.Workers.System.{stopped}
use evictor.Workers.Timed.{Timed, TimedReach, unwind_window}
use evictor.Workers.Timed.Bound.{TimedReach-stopped}
use evictor.App.Process.{pool_options}
use evictor.App.Outcomes.{new_pool-pool_options}
use evictor.App.Accounts.{pool_options-IsSane}
use evictor.App.Deadline.{
  ShutdownBudget, new_shutdown_budget, observe, deadline, BudgetSteps, deadline-observed,
}

abbrev pub worker_shutdown_margin : ℕ
worker_shutdown_margin = 1000000000

same_instant : {m n : ℕ} → some m ≡ some n → m ≡ n
same_instant h = ground (arith, h)

in_time :
    (since at lag : ℕ) {end now drain timeout : ℕ}
    → drain ≡ 15 * 1000000000
    → timeout ≡ 15 * 1000000000
    → at + (timeout + worker_shutdown_margin) ≡ end
    → since + 12 * lag < at + 900 * 1000000
    → end ≤ now
    → since + (drain + unwind_window + 12 * lag) < now
in_time d t e h k = omega arith

-- When the deadline of `Wait` has come, the pool has already closed `done`, so that the process
-- learns from it what became of the jobs and not that it ran out of time: where the pool is made from
-- the configuration, the budget has observed the cancellation at `at`, and twelve delays of the
-- scheduler fit into the 900 ms that the margin of one second leaves beside the window of 100 ms.
pub deadline-stopped :
    (read_file : Config.ReadFile) (lookup : Config.Lookup) {cfg : Config} {lag : ℕ} {t : Timed}
    {a b : ShutdownBudget} (at later : ℕ) {end : ℕ}
    → load read_file lookup ≡ ok cfg
    → cfg.queue_capacity + cfg.worker_count + 1 < 2 ^ 63
    → BudgetSteps (new_shutdown_budget cfg.shutdown_timeout worker_shutdown_margin) a
    → a.cancelled ≡ true
    → a.end ≡ none
    → BudgetSteps (observe at a) b
    → deadline later b ≡ some end
    → TimedReach (pool_options cfg) lag t
    → t.system.pool.started ≡ true
    → t.system.ctx_done ≡ true
    → t.since + 12 * lag < at + 900 * 1000000
    → end ≤ t.now
    → (t.system.stage ≡ stopped) × (t.system.pool.done ≡ true)
deadline-stopped read_file lookup {cfg} {lag} {t} {a} {b} at later {end} loaded small before over
      unset after due r on ctx_done slack late =
    let (_, (_, (_, (drain, _)))) = new_pool-pool_options read_file lookup loaded in
    let same = same_instant (
      sym (
        deadline-observed cfg.shutdown_timeout worker_shutdown_margin at later before over unset
          after)
      ∙ due) in
    TimedReach-stopped (pool_options-IsSane read_file lookup loaded small) r on ctx_done (
      in_time t.since at lag drain (load-IsValid read_file lookup loaded).shutdown_timeout same
        slack late)
