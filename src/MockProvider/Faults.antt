-- ===== src/MockProvider/Faults.antt =====
-- What the handlers answer, and what they do to the store, with and without an injected fault.
use evictor.Prelude.{
  ℕ, ◌≤◌, ◌<◌, ◌≡◌, ◌⊎◌, refl, String, true, false, not, none, some, List, [], ◌∷◌, lookup,
  if◌then◌else◌, arith,
}
use evictor.Http.{Writer, new_writer}
use evictor.MockProvider.Scenario.{
  Time, FailureMode, rate_limited, server_error, Scenario, delay, is_failure, apply_failure_header,
}
use evictor.MockProvider.Endpoint.{EndpointState, advance}
use evictor.MockProvider.Store.{Store, get, status, invoke, invoke_endpoint}
use evictor.MockProvider.Traffic.{found, lookup-get, status_answer, invoke_answer, got}
use evictor.MockProvider.Handlers.{
  Body, status_response, invoke_response, is_warm, new_request_id, write_json, handle_get_status,
  handle_invoke,
}

-- A fault is injected into the request.
abbrev pub IsFaulty : Scenario → Time → Type 0
IsFaulty s now = (is_failure s.failure ≡ true) × (now < s.failure_until)

-- None is: the mode is off, or its time is over.
abbrev pub IsHealthy : Scenario → Time → Type 0
IsHealthy s now = (is_failure s.failure ≡ false) ⊎ (s.failure_until ≤ now)

-- The answer to a request with a fault, by the mode. Nothing is written for an unknown one.
abbrev pub fault_answer : FailureMode → Writer Body
fault_answer rate_limited = record {
  headers = ("Retry-After", "5") ∷ [];
  code = some 429;
  body = none;
}
fault_answer server_error = record { headers = []; code = some 500; body = none }
fault_answer _ = new_writer

abbrev pub json_answer : Body → Writer Body
json_answer body = record {
  headers = ("Content-Type", "application/json; charset=utf-8") ∷ [];
  code = some 200;
  body = some body;
}

apply-IsHealthy :
    (s : Scenario) (now : Time)
    → IsHealthy s now
    → apply_failure_header s now (new_writer {Body = Body}) ≡ (new_writer, false)
unfolding apply_failure_header
apply-IsHealthy s now h = ground arith

is_warm-invoke_endpoint :
    (ep : EndpointState) (now : Time)
    → is_warm (invoke_endpoint now ep).worker_state ≡ is_warm (advance ep now).worker_state
unfolding invoke_endpoint
is_warm-invoke_endpoint ep now = ground arith

-- Without a fault the status request answers with the endpoint as it is due now, and stores that.
pub healthy_status :
    (id : String) (now : Time) (store : Store)
    → IsHealthy (found id now store).scenario now
    → let ep = advance (found id now store) now in
      (handle_get_status id now store ≡ record {
        slept = delay (found id now store).scenario;
        written =
            json_answer (status_response ep.id ep.worker_state ep.worker_count ep.workers_min now);
        store = (status id now (get id now store).1).1;
      })
      × (lookup id (handle_get_status id now store).store ≡ some ep)
unfolding handle_get_status write_json
healthy_status id now store h =
    let answer = status_answer id now (get id now store).1 (got id now store) in
    rw
      (
        (lookup-get id id now store).0,
        apply-IsHealthy (found id now store).scenario now h,
        answer.0,
      )
      (refl, answer.1)

-- Without a fault the invocation reports a cold start exactly if the endpoint is not warm now; the
-- latency is then that of a cold start, and otherwise 120 ms. The invocation is stored.
pub healthy_invoke :
    (random : List ℕ) (id : String) (now : Time) (store : Store)
    → IsHealthy (found id now store).scenario now
    → let was_cold = not (is_warm (advance (found id now store) now).worker_state) in
      (handle_invoke random id now store ≡ record {
        slept = delay (found id now store).scenario;
        written =
            json_answer
              (invoke_response was_cold (if was_cold then 8000 else 120) (new_request_id random));
        store = (invoke id now (get id now store).1).1;
      })
      × (lookup id (handle_invoke random id now store).store
          ≡ some (invoke_endpoint now (found id now store)))
unfolding handle_invoke write_json
healthy_invoke random id now store h =
    let answer = invoke_answer id now (get id now store).1 (got id now store) in
    rw
      (
        (lookup-get id id now store).0,
        apply-IsHealthy (found id now store).scenario now h,
        answer.0,
        is_warm-invoke_endpoint (found id now store) now,
      )
      (refl, answer.1)
