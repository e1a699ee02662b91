-- ===== src/App/Witnesses.antt =====
-- Runs of the process with concrete dependencies.
use evictor.Prelude.{
  ℕ, ◌≤◌, length, Text, ◌*◌, ◌≡◌, ◌↔◌, refl, true, false, none, some, [], ◌∷◌, codes, text_eq,
  arith, trim_space, read_number, to_lower, if◌then◌else◌,
}
use evictor.Config
use evictor.Config.{
  Config, Lookup, ReadFile, development, api, info, ok, load, required_secret, positive_int,
  parse_environment, default_value, parse_log_level, parse_role,
}
use evictor.Workers.Pool.{drain_incomplete, wait, at_least_one}
use evictor.Workers.Consumer.{Move}
use evictor.Workers.System.{System, Step, Reach, here, next, SystemOps}
use evictor.App.Server.{server_closed, cancelled}
use evictor.App.Process.{Process, run, role, pool_options}
use evictor.App.Deadline.{
  ShutdownBudget, new_shutdown_budget, cancel, observe, deadline, BudgetSteps, cancels, stay, step,
}
use evictor.App.Outcomes.{IsSuccess, run-code}
use evictor.App.Accounts.{IsAccounted, run-IsAccounted}
use evictor.Workers.System.{stopped as at_end}
use evictor.Workers.Shutdown.{supervises}
use evictor.Workers.Timed.{Timed, TimedReach, here as begin, next as after, tick, move}
use evictor.App.Timing.{worker_shutdown_margin, deadline-stopped}
use evictor.Prelude.Int.{pos}
use evictor.Metrics.{snapshot}
use evictor.Api.Probes.{Dependencies, new_router, get_metrics, plain}
use evictor.Api.Scrape.{scrape, samples}
use evictor.Workers.Ledger.{done_jobs, dead_jobs}
use evictor.Workers.Examples.{opts-IsSane, stopped}
use evictor.App.Observed.{scrape-wait_nil}
use evictor.App.Lifecycle.{fresh, phase_after, is_end, run-phase}

abbrev vars : Lookup
vars name =
    if text_eq name (codes "DATABASE_URL")
    then codes "db"
    else if text_eq name (codes "EVICTOR_ENCRYPTION_KEY")
    then codes "k"
    else if text_eq name (codes "WORKER_COUNT")
    then codes "2"
    else []

abbrev no_files : ReadFile
no_files path = none

abbrev process : Process
process = record {
  lookup = vars;
  read_file = no_files;
  args = codes "evictor" ∷ [];
  open_database = λ url. text_eq url (codes "db");
  listen = λ address. text_eq address (codes ":8080");
  server = cancelled none (some server_closed);
  wait = some (drain_incomplete 2);
}

run-code_example : ((run process).code ≡ 0) ↔ IsSuccess process
run-code_example = run-code process

run-phase_example : is_end (phase_after fresh (run process).events) ≡ true
run-phase_example = run-phase process

abbrev config : Config
config = record {
  environment = development;
  log_level = info;
  role = api;
  port = 8080;
  database_url = record { reveal = codes "db" };
  encryption_key = record { reveal = codes "k" };
  worker_count = 2;
  queue_capacity = 100;
  worker_max_attempts = 3;
  shutdown_timeout = 15 * 1000000000;
}

loaded : load no_files vars ≡ ok config
unfolding load required_secret trim_space text_eq positive_int read_number parse_environment
    default_value parse_log_level to_lower parse_role
loaded = refl

orderly : (run process).code ≡ 0
unfolding run required_secret trim_space text_eq positive_int read_number parse_environment
    default_value parse_log_level to_lower
orderly = refl

abbrev budget : ShutdownBudget
budget = record { timeout = 15; margin = 1; cancelled = true; end = none }

before : BudgetSteps (new_shutdown_budget 15 1) budget
unfolding new_shutdown_budget cancel
before = step cancels stay

-- The pool of `config` is started and cancelled, and its two workers finish.
abbrev idle_stopped : (s : System) × Reach (pool_options config) s
unfolding SystemOps pool_options at_least_one
idle_stopped = (
  _,
  next
      (next
        (next
          (next
            (next
              (next (next (next here (Step.start refl)) Step.cancel_ctx) (Step.observe refl refl))
              (Step.halt refl refl))
            (Step.consume 0 refl (Move.finish refl refl)))
          (Step.consume 1 refl (Move.finish refl refl)))
        (Step.drained refl (refl, (refl, tt))))
      (Step.cancel refl),
)

abbrev closed : (s : System) × Reach (pool_options config) s
unfolding SystemOps pool_options at_least_one
closed = (_, next idle_stopped.1 (Step.close refl))

abbrev drained_process : Process
drained_process = record process { wait = none }

role_known : role drained_process.args config.role ≡ ok Config.api
unfolding role parse_role
role_known = refl

drained_orderly : (run drained_process).code ≡ 0
unfolding run required_secret trim_space text_eq positive_int read_number parse_environment
    default_value parse_log_level to_lower
drained_orderly = refl

run-IsAccounted_example : IsAccounted closed.1 none
unfolding SystemOps wait pool_options at_least_one
run-IsAccounted_example =
    run-IsAccounted drained_process closed.1 true false loaded (omega arith) role_known refl
      drained_orderly

-- The same in time: the workers finish at once, and sixteen seconds pass.
abbrev InTime : Type 0
InTime = (t : Timed) × TimedReach (pool_options config) 1000000 t

abbrev halted : InTime
unfolding SystemOps pool_options at_least_one supervises
halted = (
  _,
  after
      (after (after (after (begin 0) (move (Step.start refl) tt)) (move Step.cancel_ctx tt))
        (move (Step.observe refl refl) tt))
      (move (Step.halt refl refl) tt),
)

abbrev finished : InTime
unfolding SystemOps pool_options at_least_one supervises
finished = (
  _,
  after (after halted.1 (move (Step.consume 0 refl (Move.finish refl refl)) tt))
      (move (Step.consume 1 refl (Move.finish refl refl)) tt),
)

abbrev ended : InTime
unfolding SystemOps pool_options at_least_one supervises
ended = (
  _,
  after
      (after (after finished.1 (move (Step.drained refl (refl, (refl, tt))) tt))
        (move (Step.cancel refl) tt))
      (move (Step.close refl) tt),
)

never : {m n : ℕ} → false ≡ true → m ≤ n
never h = absurd (ground (arith, h))

abbrev over_at_once : InTime
unfolding SystemOps pool_options at_least_one supervises
over_at_once = (_, after ended.1 (tick (16 * 1000000000) never))

abbrev observed : ShutdownBudget
observed = observe 0 (cancel (new_shutdown_budget (15 * 1000000000) worker_shutdown_margin))

deadline-stopped_example :
    (over_at_once.0.system.stage ≡ at_end) × (over_at_once.0.system.pool.done ≡ true)
unfolding SystemOps pool_options at_least_one supervises new_shutdown_budget cancel observe deadline
deadline-stopped_example =
    deadline-stopped no_files vars 0 20 {end = 16 * 1000000000} loaded (omega arith)
      (step cancels stay) refl refl (stay {b = observed}) refl over_at_once.1 refl refl
      (omega arith) (omega arith)

scrape-wait_nil_example :
    let d : Dependencies = record { database = some true; metrics = some stopped.0.pool.metrics } in
    (text : Text) × (((new_router d get_metrics).body ≡ some (plain text))
      × (scrape text
          ≡ samples (record (snapshot stopped.0.pool.metrics) {
            queue_depth = pos 0;
            jobs_processed = pos (length (done_jobs stopped.1));
            jobs_failed = pos (length (dead_jobs stopped.1));
            jobs_dead_lettered = pos (length (dead_jobs stopped.1));
          })))
unfolding SystemOps wait done_jobs dead_jobs
scrape-wait_nil_example =
    scrape-wait_nil opts-IsSane stopped.1 true false refl (some true) (omega arith) (omega arith)

one_done : length (done_jobs stopped.1) ≡ 1
unfolding SystemOps done_jobs
one_done = refl
