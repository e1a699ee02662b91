-- ===== src/MockProvider/Handlers.antt =====
-- backend/internal/mockprovider/handlers.go and server.go: the HTTP handlers and their routes.
-- A handler takes the store and the instant that its clock shows, and gives back the durations that
-- it slept, what it wrote and the store after it. The mutex is free between its two calls of the
-- store; here nobody else uses the store there.
use evictor.Prelude.{
  ℕ, ◌/◌, String, Bool, true, false, not, List, [], ◌++◌, some, if◌then◌else◌, codes, hex,
}
use evictor.Prelude.Int.{ℤ}
use evictor.Http.{Writer, new_writer, set_header, write_header}
use evictor.MockProvider.Scenario.{Time, delay, apply_failure_header}
use evictor.MockProvider.Endpoint.{WorkerState, warm, cold_start_duration}
use evictor.MockProvider.Store.{Store, get, status, invoke, set_scenario, reset}

-- The values that are encoded as JSON.
pub data Body : Type 0 where
  status_response :
      (id : String) (worker_state : WorkerState) (worker_count workers_min : ℤ) (as_of : Time)
      → Body
  invoke_response : (was_cold_start : Bool) (latency_ms : ℕ) (provider_request_id : List ℕ) → Body
  health : (status : String) → Body

unfoldable pub write_json : ℕ → Body → Writer Body → Writer Body
write_json code body w =
    record (write_header code (set_header "Content-Type" "application/json; charset=utf-8" w)) {
      body = some body;
    }

pub record Handled : Type 0 where
  pub slept : List ℤ
  pub written : Writer Body
  pub store : Store

unfoldable pub new_request_id : List ℕ → List ℕ
unfolding hex
new_request_id bytes = codes "mock-" ++ hex bytes

unfoldable pub handle_get_status : String → Time → Store → Handled
handle_get_status id now store =
    let (found, seen) = get id now store in
    let scenario = found.scenario in
    let (w, failed) = apply_failure_header scenario now new_writer in
    let (ep, after) = status id now seen in
    if failed then record { slept = delay scenario; written = w; store = seen } else record {
      slept = delay scenario;
      written =
          write_json 200 (status_response ep.id ep.worker_state ep.worker_count ep.workers_min now)
            w;
      store = after;
    }

abbrev pub warm_latency_ms : ℕ
warm_latency_ms = 120

abbrev pub is_warm : WorkerState → Bool
is_warm warm = true
is_warm _ = false

-- `random` holds the bytes that crypto/rand gives.
unfoldable pub handle_invoke : List ℕ → String → Time → Store → Handled
handle_invoke random id now store =
    let (found, seen) = get id now store in
    let scenario = found.scenario in
    let (w, failed) = apply_failure_header scenario now new_writer in
    let (ep, after) = invoke id now seen in
    let was_cold = not (is_warm ep.worker_state) in
    let latency = if was_cold then cold_start_duration / 1000000 else warm_latency_ms in
    if failed then record { slept = delay scenario; written = w; store = seen } else record {
      slept = delay scenario;
      written = write_json 200 (invoke_response was_cold latency (new_request_id random)) w;
      store = after;
    }

unfoldable pub healthz : Store → Handled
healthz store = record {
  slept = [];
  written = write_json 200 (health "ok") new_writer;
  store = store;
}

-- A request, by the route of `NewServer` that the mux finds for it.
pub data Request : Type 0 where
  get_healthz : Request
  get_endpoint : (id : String) → Request
  post_invoke : (id : String) (random : List ℕ) → Request

unfoldable pub serve : Request → Time → Store → Handled
serve get_healthz now store = healthz store
serve (get_endpoint id) now store = handle_get_status id now store
serve (post_invoke id random) now store = handle_invoke random id now store

-- All of it, for the `unfolding` lines of tests.
unfoldable pub HandlerOps : Type 0
unfolding serve handle_get_status handle_invoke healthz write_json new_request_id get status invoke
    set_scenario reset delay apply_failure_header
HandlerOps = Unit
