-- ===== src/MockProvider/Concurrent/Witnesses.antt =====
-- Two invocations of one endpoint, the first of which sleeps while the second comes and goes.
use evictor.Prelude.{◌≡◌, refl, none, some, [], lookup, insert}
use evictor.Prelude.Int.{pos}
use evictor.MockProvider.Scenario.{Scenario, no_failure, default_scenario}
use evictor.MockProvider.Endpoint.{EndpointState, warming, advance}
use evictor.MockProvider.Handlers.{HandlerOps}
use evictor.MockProvider.Lifecycle.{IsSound}
use evictor.MockProvider.Calls.{history}
use evictor.MockProvider.Concurrent.{
  World, invoking, Reach, here, next, arrived, fetched, finished, configured, ticked, init, finish,
  act,
}
use evictor.MockProvider.Concurrent.Linear.{calls_of, Reach-history}
use evictor.MockProvider.Concurrent.Sound.{Reach-IsSound}

abbrev slow : Scenario
slow = record { latency_ms = pos 9000; failure = no_failure; failure_until = 0 }

-- The first reads the clock at 5 and falls asleep; the second is invoked at 8.
abbrev overtaken : (w : World) × Reach 5 w
unfolding HandlerOps init finish act lookup insert advance
overtaken = (
  _,
  next
      (next
        (next
          (next
            (next
              (next (next (next here (configured "ep_1" slow)) (arrived "ep_1" (invoking [])))
                (fetched 0 refl))
              (ticked 3))
            (configured "ep_1" default_scenario))
          (arrived "ep_1" (invoking [])))
        (fetched 1 refl))
      (finished 1 refl),
)

-- The first wakes up.
abbrev both_done : (w : World) × Reach 5 w
unfolding HandlerOps init finish act lookup insert advance
both_done = (_, next overtaken.1 (finished 0 refl))

abbrev invoked : EndpointState
invoked = record {
  id = "ep_1";
  worker_state = warming;
  worker_count = pos 0;
  workers_min = pos 0;
  last_transition_at = 8;
  last_invoke_at = 8;
  scenario = default_scenario;
}

at_eight : lookup "ep_1" overtaken.0.store ≡ some invoked
unfolding HandlerOps init finish act lookup insert advance
at_eight = refl

-- The last invocation is dated by the request that arrived first.
back_at_five : lookup "ep_1" both_done.0.store ≡ some (record invoked { last_invoke_at = 5 })
unfolding HandlerOps init finish act lookup insert advance
back_at_five = refl

Reach-IsSound_example : IsSound 8 (record invoked { last_invoke_at = 5 })
unfolding HandlerOps init finish act lookup insert advance
Reach-IsSound_example = Reach-IsSound "ep_1" both_done.1 back_at_five

Reach-history_example : lookup "ep_1" both_done.0.store ≡ history "ep_1" (calls_of both_done.1) none
Reach-history_example = Reach-history "ep_1" both_done.1
