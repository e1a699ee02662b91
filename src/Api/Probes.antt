-- ===== src/Api/Probes.antt =====
-- backend/internal/api/handlers: router.go, status.go and metrics.go.
use evictor.Prelude.{ℕ, suc, String, Bool, true, Option, none, some, ◌∷◌, ◌++◌, Text, codes, itoa}
use evictor.Prelude.Int.{ℤ, pos, negsuc}
use evictor.Http.{Writer, new_writer, set_header, write_header}
use evictor.Metrics.{Counters, Snapshot, new_counters, snapshot}

pub data Body : Type 0 where
  status : String → Body
  plain : Text → Body

unfoldable pub write_probe_status : ℕ → String → Writer Body → Writer Body
write_probe_status code text w =
    record (write_header code (set_header "Content-Type" "application/json; charset=utf-8" w)) {
      body = some (status text);
    }

unfoldable pub health_handler : Writer Body
unfolding write_probe_status
health_handler = write_probe_status 200 "ok" new_writer

-- The database by the answer of its `Ping`, `none` where there is none.
unfoldable pub readiness_handler : Option Bool → Writer Body
unfolding write_probe_status
readiness_handler (some true) = write_probe_status 200 "ready" new_writer
readiness_handler _ = write_probe_status 503 "not_ready" new_writer

-- `%d`
unfoldable pub show_int : ℤ → Text
unfolding itoa
show_int (pos n) = itoa n
show_int (negsuc n) = b'-' ∷ itoa (suc n)

unfoldable pub sample_line : String → ℤ → Text
unfolding show_int
sample_line name value = codes name ++ (b' ' ∷ (show_int value ++ codes "\n"))

unfoldable pub metrics_text : Snapshot → Text
unfolding sample_line
metrics_text s =
    sample_line "evictor_queue_depth" s.queue_depth
    ++ (sample_line "evictor_queue_capacity" s.queue_capacity
        ++ (sample_line "evictor_jobs_processed_total" s.jobs_processed
            ++ (sample_line "evictor_jobs_failed_total" s.jobs_failed
                ++ (sample_line "evictor_jobs_dead_lettered_total" s.jobs_dead_lettered
                    ++ sample_line "evictor_jobs_abandoned_total" s.jobs_abandoned))))

-- A body without a status is sent with 200.
unfoldable pub metrics_handler : Counters → Writer Body
unfolding metrics_text snapshot
metrics_handler counters =
    record (set_header "Content-Type" "text/plain; charset=utf-8" new_writer) {
      body = some (plain (metrics_text (snapshot counters)));
    }

pub record Dependencies : Type 0 where
  pub database : Option Bool
  pub metrics : Option Counters

pub data Route : Type 0 where
  get_healthz get_readyz get_metrics : Route

abbrev pub counters_or_new : Option Counters → Counters
counters_or_new none = new_counters 0
counters_or_new (some counters) = counters

-- The routes of `NewRouter`; chi answers any other request.
unfoldable pub new_router : Dependencies → Route → Writer Body
unfolding health_handler readiness_handler metrics_handler
new_router dependencies get_healthz = health_handler
new_router dependencies get_readyz = readiness_handler dependencies.database
new_router dependencies get_metrics = metrics_handler (counters_or_new dependencies.metrics)
