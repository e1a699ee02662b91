-- ===== src/MockProvider/Endpoint.antt =====
-- backend/internal/mockprovider/state.go: one fake GPU endpoint and its timed transitions.
use evictor.Prelude.{ℕ, zero, suc, ◌+◌, String, ◌||◌, Option, none, some, ltb, if◌then◌else◌}
use evictor.Prelude.Int.{ℤ, pos, is_positive}
use evictor.MockProvider.Scenario.{Time, Scenario, default_scenario}

pub data WorkerState : Type 0 where
  cold warming warm : WorkerState

abbrev pub cold_start_duration : ℕ
cold_start_duration = 8000000000

abbrev pub idle_timeout : ℕ
idle_timeout = 300000000000

pub record EndpointState : Type 0 where
  pub id : String
  pub worker_state : WorkerState
  pub worker_count : ℤ
  pub workers_min : ℤ
  pub last_transition_at : Time
  pub last_invoke_at : Time
  pub scenario : Scenario

-- What `getOrCreateLocked` stores for an id that it has not seen.
unfoldable pub new_endpoint : String → Time → EndpointState
new_endpoint id now = record {
  id = id;
  worker_state = cold;
  worker_count = pos 0;
  workers_min = pos 0;
  last_transition_at = now;
  last_invoke_at = 0;
  scenario = default_scenario;
}

-- One round of the loop of `advance`; `none` is its `return`.
transition_from : WorkerState → EndpointState → Time → Option EndpointState
transition_from warming ep now =
    let warmed_at = ep.last_transition_at + cold_start_duration in
    if ltb now warmed_at
    then none
    else some
        (record ep { worker_state = warm; worker_count = pos 1; last_transition_at = warmed_at })
transition_from warm ep now =
    let idle_at = ep.last_invoke_at + idle_timeout in
    if is_positive ep.workers_min || ltb now idle_at
    then none
    else some
        (record ep { worker_state = cold; worker_count = pos 0; last_transition_at = idle_at })
transition_from cold ep now = none

unfoldable pub transition : EndpointState → Time → Option EndpointState
unfolding transition_from
transition ep now = transition_from ep.worker_state ep now

-- The loop; `none` means that the fuel ran out.
unfoldable pub advance_loop : ℕ → EndpointState → Time → Option EndpointState
advance_loop zero ep now = none
advance_loop (suc fuel) ep now = elim (transition ep now) [
  | none ↦ some ep
  | some next ↦ advance_loop fuel next now
]

abbrev result_or : EndpointState → Option EndpointState → EndpointState
result_or ep none = ep
result_or ep (some next) = next

-- Three rounds are enough.
unfoldable pub advance : EndpointState → Time → EndpointState
unfolding transition advance_loop
advance ep now = result_or ep (advance_loop 3 ep now)
