-- ===== src/App/Accounts.antt =====
-- What an exit code of 0 says of the jobs: the process and its pool together.
use evictor.Prelude.{
  ℕ, ◌+◌, ◌^◌, ◌<◌, ◌≡◌, ◌⊎◌, inl, inr, refl, sym, ap, ◌∙◌, Bool, true, Option, none, some, arith,
}
use evictor.Metrics.{new_counters}
use evictor.Config
use evictor.Config.{Config, Result, ok, err, load}
use evictor.Config.Laws.{load-IsValid}
use evictor.Workers.Pool.{
  Job, Options, PoolError, drain_incomplete, queue_full, pool_stopped, wait_expired, wait,
}
use evictor.Workers.System.{System, Reach}
use evictor.Workers.Invariant.{IsSane}
use evictor.Workers.Losses.{Origin, wait-drain_incomplete}
use evictor.Workers.Ledger.{count, sent_jobs, done_jobs, dead_jobs}
use evictor.Workers.Ledger.Outcomes.{count-wait_nil}
use evictor.App.Process.{Process, run, role, pool_options}
use evictor.App.Outcomes.{run-code, is_orderly, config_or, kept}

pub pool_options-IsSane :
    (read_file : Config.ReadFile) (lookup : Config.Lookup) {cfg : Config}
    → load read_file lookup ≡ ok cfg
    → cfg.queue_capacity + cfg.worker_count + 1 < 2 ^ 63
    → IsSane (pool_options cfg)
unfolding pool_options new_counters
pool_options-IsSane read_file lookup h small =
    let valid = load-IsValid read_file lookup h in
    record {
      fits = omega (arith, kept 1 valid.queue_capacity.0, kept 1 valid.worker_count.0);
      fresh = (refl, refl, refl, refl);
    }

same_config : {c d : Config} (r : Result Config) → r ≡ ok c → r ≡ ok d → c ≡ d
same_config {c} r h k = ap (config_or c) (sym h ∙ k)

orderly :
    (p : Process) {cfg : Config}
    → load p.read_file p.lookup ≡ ok cfg
    → role p.args cfg.role ≡ ok Config.api
    → (run p).code ≡ 0
    → is_orderly p.wait ≡ true
orderly p {cfg} h api_role zero =
    let (c, (loaded, (opened, roles))) = (run-code p).0 zero in
    let same = same_config (load p.read_file p.lookup) loaded h in
    elim roles [
      | inl w ↦ absurd (ground (arith, w, api_role, ap (λ d. role p.args d.role) same))
      | inr a ↦ a.1.1.1
    ]

-- The jobs of a run of the pool, where `Wait` has answered `answer`: all of them have ended once each,
-- or the pool gave up on a positive number, which is that of the jobs outstanding when it did.
abbrev pub IsAccounted : {o : Options} {s : System} → Reach o s → Option PoolError → Type 0
IsAccounted {o} {s} r answer =
    ((answer ≡ none)
      × ((j : Job) → count j (sent_jobs r) ≡ count j (done_jobs r) + count j (dead_jobs r)))
    ⊎ ((n : ℕ) × ((answer ≡ some (drain_incomplete n)) × ((0 < n) × Origin o n s)))

accounted :
    {o : Options} {s : System} (sane : IsSane o) (r : Reach o s) (prefer_done ctx_over : Bool)
    (answer : Option PoolError)
    → wait prefer_done ctx_over s.pool ≡ some answer
    → is_orderly answer ≡ true
    → IsAccounted r answer
unfolding is_orderly
accounted sane r prefer_done ctx_over none e h =
    inl (refl, λ j. count-wait_nil j sane r prefer_done ctx_over e)
accounted sane r prefer_done ctx_over (some (drain_incomplete n)) e h =
    inr (n, (refl, wait-drain_incomplete sane r prefer_done ctx_over e))
accounted sane r prefer_done ctx_over (some queue_full) e h = absurd (ground arith)
accounted sane r prefer_done ctx_over (some pool_stopped) e h = absurd (ground arith)
accounted sane r prefer_done ctx_over (some wait_expired) e h = absurd (ground arith)

-- If the process exits with 0 in the role of the API, having waited for a pool made from its
-- configuration (whose capacity and workers are together fewer than 2^63), then either every job
-- that was sent has ended just once, or `Wait` has reported exactly how many jobs were outstanding
-- as the pool gave up on them.
pub run-IsAccounted :
    (p : Process) {cfg : Config} {s : System} (r : Reach (pool_options cfg) s)
    (prefer_done ctx_over : Bool)
    → load p.read_file p.lookup ≡ ok cfg
    → cfg.queue_capacity + cfg.worker_count + 1 < 2 ^ 63
    → role p.args cfg.role ≡ ok Config.api
    → wait prefer_done ctx_over s.pool ≡ some p.wait
    → (run p).code ≡ 0
    → IsAccounted r p.wait
run-IsAccounted p r prefer_done ctx_over h small api_role waited zero =
    accounted (pool_options-IsSane p.read_file p.lookup h small) r prefer_done ctx_over p.wait
      waited (orderly p h api_role zero)
