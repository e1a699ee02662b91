-- ===== src/App/Process.antt =====
-- backend/internal/app/process.go: the startup and shutdown sequence, and its exit codes.
-- The injected dependencies are fields of `Process`, with what they answer in the run; the effects
-- of the run are the list of its events, in their order.
use evictor.Prelude.{
  ℕ, Bool, false, Option, none, some, List, [], ◌∷◌, ◌++◌, Text, codes, itoa, if◌then◌else◌,
}
use evictor.Prelude.Int.{pos}
use evictor.Metrics.{new_counters}
use evictor.Config
use evictor.Config.{Config, ConfigError, Level, Result, ok, err, load, parse_role}
use evictor.Workers.Pool.{Options, PoolError, drain_incomplete}
use evictor.App.Server.{ServerError, Course, serve}

pub record Process : Type 0 where
  pub lookup : Config.Lookup
  pub read_file : Config.ReadFile
  pub args : List Text
  pub open_database : Text → Bool
  pub listen : Text → Bool
  pub server : Course
  pub wait : Option PoolError

pub data Event : Type 0 where
  printed : ConfigError → Event
  opened_database : (url : Text) → Event
  closed_database : Event
  ran_worker : Event
  new_workers : Options → Event
  started_workers : Event
  listened : (address : Text) → Event
  served : Event
  awaited_workers : Event
  logged : (level : Level) (message : Text) → Event

pub record Run : Type 0 where
  pub code : ℕ
  pub events : List Event

abbrev pub exit : ℕ → List Event → Run
exit code events = record { code = code; events = events }

abbrev pub after : List Event → Run → Run
after events r = record { code = r.code; events = events ++ r.events }

-- `defer database.Close()`
abbrev pub deferring_close : Run → Run
deferring_close r = record { code = r.code; events = r.events ++ closed_database ∷ [] }

unfoldable pub pool_options : Config → Options
pool_options cfg = record {
  workers = pos cfg.worker_count;
  capacity = pos cfg.queue_capacity;
  max_attempts = pos cfg.worker_max_attempts;
  drain_timeout = pos cfg.shutdown_timeout;
  metrics = some (new_counters cfg.queue_capacity);
  dead_letter = false;
}

-- The end of `serveAPI`, by the result of `pool.Wait`.
unfoldable pub after_wait : Option PoolError → Run
after_wait none = exit 0 (awaited_workers ∷ logged Level.info (codes "Evictor API stopped") ∷ [])
after_wait (some (drain_incomplete n)) = exit 0 (
    awaited_workers
    ∷ logged Level.error (codes "workers abandoned at the drain deadline")
    ∷ logged Level.info (codes "Evictor API stopped")
    ∷ [])
after_wait (some _) =
    exit 1 (awaited_workers ∷ logged Level.error (codes "workers did not stop cleanly") ∷ [])

unfoldable pub after_serve : Option ServerError → Option PoolError → Run
unfolding after_wait
after_serve (some e) wait = exit 1 (served ∷ logged Level.error (codes "API stopped") ∷ [])
after_serve none wait = after (served ∷ []) (after_wait wait)

unfoldable pub serve_api : Process → Config → Run
unfolding pool_options after_serve serve itoa
serve_api p cfg =
    let address = codes ":" ++ itoa cfg.port in
    after (new_workers (pool_options cfg) ∷ started_workers ∷ listened address ∷ []) (
      if p.listen address
      then after (logged Level.info (codes "starting Evictor API") ∷ [])
          (after_serve (serve p.server) p.wait)
      else exit 1 (logged Level.error (codes "listen failed") ∷ []))

unfoldable pub role : List Text → Config.Role → Result Config.Role
unfolding parse_role
role (program ∷ arg ∷ args) configured = parse_role arg
role _ configured = ok configured

-- `workers.Run` waits for the context, and returns nil.
abbrev pub workers_run : Option PoolError
workers_run = none

abbrev pub after_worker : Option PoolError → Run
after_worker none = exit 0 (ran_worker ∷ [])
after_worker (some e) = exit 1 (ran_worker ∷ logged Level.error (codes "worker stopped") ∷ [])

unfoldable pub by_role : Process → Config → Result Config.Role → Run
unfolding serve_api
by_role p cfg (err e) = exit 1 (logged Level.error (codes "invalid role argument") ∷ [])
by_role p cfg (ok Config.worker) = after_worker workers_run
by_role p cfg (ok Config.api) = serve_api p cfg

unfoldable pub with_config : Process → Result Config → Run
unfolding by_role role
with_config p (err e) = exit 1 (printed e ∷ [])
with_config p (ok cfg) =
    if p.open_database cfg.database_url.reveal
    then after (opened_database cfg.database_url.reveal ∷ [])
        (deferring_close (by_role p cfg (role p.args cfg.role)))
    else exit 1 (logged Level.error (codes "database unavailable") ∷ [])

unfoldable pub run : Process → Run
unfolding with_config load
run p = with_config p (load p.read_file p.lookup)
