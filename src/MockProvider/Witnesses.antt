-- ===== src/MockProvider/Witnesses.antt =====
-- The theorems about the mock provider, at concrete endpoints, stores and calls.
use evictor.Prelude.{
  ℕ, ◌*◌, ◌+◌, ◌≤◌, ◌<◌, ◌≡◌, ◌⊎◌, refl, true, false, some, List, [], ◌∷◌, lookup, insert, arith,
}
use evictor.Prelude.Int.{pos, is_positive}
use evictor.MockProvider.Scenario.{Time, rate_limited}
use evictor.MockProvider.Endpoint.{
  cold, warming, warm, cold_start_duration, idle_timeout, EndpointState, new_endpoint, advance_loop,
  advance,
}
use evictor.MockProvider.Store.{Store, new_store, invoke_endpoint, set_scenario}
use evictor.MockProvider.Handlers.{HandlerOps}
use evictor.MockProvider.Advance.{advance_total}
use evictor.MockProvider.Lifecycle.{invoke-advance}
use evictor.MockProvider.Calls.{Call, get_call, status_call, invoke_call}

abbrev second : ℕ
second = 1000000000

-- A new endpoint, and the same one invoked ten seconds later.
abbrev fresh : EndpointState
fresh = new_endpoint "ep_1" 0

abbrev woken : EndpointState
unfolding new_endpoint invoke_endpoint advance
woken = invoke_endpoint (10 * second) fresh

advance_total_example : advance_loop 3 woken (20 * second) ≡ some (advance woken (20 * second))
advance_total_example = advance_total 0 woken (20 * second)

-- A jump over both thresholds.
jump :
    advance woken (400 * second)
    ≡ record fresh { last_transition_at = 310 * second; last_invoke_at = 10 * second }
unfolding new_endpoint invoke_endpoint advance
jump = refl

invoke-advance_example :
    let now = 10 * second in
    let later = 20 * second in
    let seen = advance (invoke_endpoint now fresh) later in
    ((later < now + cold_start_duration) × (seen.worker_state ≡ warming))
    ⊎ ((now + cold_start_duration ≤ later)
        × ((is_positive fresh.workers_min ≡ true) ⊎ (later < now + idle_timeout))
        × (seen.worker_state ≡ warm)
        × (seen.worker_count ≡ pos 1)
        × (seen.last_transition_at ≡ now + cold_start_duration))
    ⊎ ((is_positive fresh.workers_min ≡ false)
        × (now + idle_timeout ≤ later)
        × (seen.worker_state ≡ cold)
        × (seen.worker_count ≡ pos 0)
        × (seen.last_transition_at ≡ now + idle_timeout))
unfolding new_endpoint advance
invoke-advance_example = invoke-advance fresh (10 * second) (20 * second) refl (omega arith)

abbrev store : Store
store = insert "ep_1" woken []

abbrev calls : List (Time × Call)
calls =
    (3, get_call "ep_1")
    ∷ (5 * second, invoke_call "ep_1")
    ∷ (6 * second, invoke_call "ep_2")
    ∷ (14 * second, status_call "ep_1")
    ∷ []

-- A rate limit until the thirtieth second.
abbrev limited : Store
unfolding HandlerOps lookup insert
limited =
    set_scenario "ep_1"
      (record { latency_ms = pos 5; failure = rate_limited; failure_until = 30 * second }) 0
      new_store
