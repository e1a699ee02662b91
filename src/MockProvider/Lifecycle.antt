-- ===== src/MockProvider/Lifecycle.antt =====
-- One endpoint from an invocation on, and the invariant of every endpoint of a store.
use evictor.Prelude.{◌+◌, ◌≤◌, ◌<◌, ◌≡◌, ◌⊎◌, String, true, false, arith}
use evictor.Prelude.Int.{ℤ, pos, is_positive}
use evictor.MockProvider.Scenario.{Time}
use evictor.MockProvider.Endpoint.{
  WorkerState, cold, warming, warm, cold_start_duration, idle_timeout, EndpointState, new_endpoint,
  advance,
}
use evictor.MockProvider.Store.{invoke_endpoint}

-- An endpoint seen cold and invoked at `now`, and then left alone: it warms for eight seconds, is
-- warm from then until five minutes after the invocation, or for ever if a worker has to be kept,
-- and cold after that. Its worker count is one exactly while it is warm.
pub invoke-advance :
    (ep : EndpointState) (now later : Time)
    → (advance ep now).worker_state ≡ cold
    → now ≤ later
    → let seen = advance (invoke_endpoint now ep) later in
      ((later < now + cold_start_duration) × (seen.worker_state ≡ warming))
      ⊎ ((now + cold_start_duration ≤ later)
          × ((is_positive ep.workers_min ≡ true) ⊎ (later < now + idle_timeout))
          × (seen.worker_state ≡ warm)
          × (seen.worker_count ≡ pos 1)
          × (seen.last_transition_at ≡ now + cold_start_duration))
      ⊎ ((is_positive ep.workers_min ≡ false)
          × (now + idle_timeout ≤ later)
          × (seen.worker_state ≡ cold)
          × (seen.worker_count ≡ pos 0)
          × (seen.last_transition_at ≡ now + idle_timeout))
unfolding invoke_endpoint advance
invoke-advance ep now later c h = ground arith

abbrev pub count_of : WorkerState → ℤ
count_of warm = pos 1
count_of _ = pos 0

-- What every endpoint satisfies at the instant `now` of the last call.
pub record IsSound (now : Time) (ep : EndpointState) : Type 0 where
  pub counted : ep.worker_count ≡ count_of ep.worker_state
  pub transition_past : ep.last_transition_at ≤ now
  pub invoke_past : ep.last_invoke_at ≤ now
  pub unkept : ep.workers_min ≡ pos 0

pub new_endpoint-IsSound : (id : String) (now : Time) → IsSound now (new_endpoint id now)
unfolding new_endpoint
new_endpoint-IsSound id now = ground arith

pub advance-IsSound :
    (ep : EndpointState) {early : Time} (now : Time)
    → early ≤ now
    → IsSound early ep
    → IsSound now (advance ep now)
unfolding advance
advance-IsSound ep now h v = ground arith

pub invoke_endpoint-IsSound :
    (ep : EndpointState) {early : Time} (now : Time)
    → early ≤ now
    → IsSound early ep
    → IsSound now (invoke_endpoint now ep)
unfolding invoke_endpoint advance
invoke_endpoint-IsSound ep now h v = ground arith
