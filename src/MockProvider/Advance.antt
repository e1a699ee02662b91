-- ===== src/MockProvider/Advance.antt =====
-- `advance` brings an endpoint to the state that is due, however far time has jumped.
use evictor.Prelude.{ℕ, suc, ◌+◌, ◌≤◌, ◌<◌, ◌≡◌, ◌⊎◌, true, false, some, arith}
use evictor.Prelude.Int.{pos, is_positive}
use evictor.MockProvider.Scenario.{Time}
use evictor.MockProvider.Endpoint.{
  cold, warming, warm, cold_start_duration, idle_timeout, EndpointState, advance_loop, advance,
}

-- The loop of `advance` ends: from three rounds on, more fuel changes nothing.
pub advance_total :
    (k : ℕ) (ep : EndpointState) (now : Time)
    → advance_loop (suc (suc (suc k))) ep now ≡ some (advance ep now)
unfolding advance
advance_total k ep now = ground arith

-- Reading the state in between changes nothing: two advances are one to the later instant.
pub advance-advance :
    (ep : EndpointState) (early late : Time)
    → early ≤ late
    → advance (advance ep early) late ≡ advance ep late
unfolding advance
advance-advance ep early late h = ground arith

-- The whole schedule of a warming endpoint: warming until the cold start is over, then warm from
-- that instant on, until five minutes after the last invocation if no worker has to be kept.
pub advance-warming :
    (ep : EndpointState) (now : Time)
    → ep.worker_state ≡ warming
    → let warmed_at = ep.last_transition_at + cold_start_duration in
      let idle_at = ep.last_invoke_at + idle_timeout in
      ((now < warmed_at) × (advance ep now ≡ ep))
      ⊎ ((warmed_at ≤ now)
          × ((is_positive ep.workers_min ≡ true) ⊎ (now < idle_at))
          × (advance ep now ≡ record ep {
            worker_state = warm;
            worker_count = pos 1;
            last_transition_at = warmed_at;
          }))
      ⊎ ((warmed_at ≤ now)
          × (is_positive ep.workers_min ≡ false)
          × (idle_at ≤ now)
          × (advance ep now ≡ record ep {
            worker_state = cold;
            worker_count = pos 0;
            last_transition_at = idle_at;
          }))
unfolding advance
advance-warming ep now h = ground arith

-- A cold endpoint stays as it is for ever, also one that is to keep workers on.
advance-cold : (ep : EndpointState) (now : Time) → ep.worker_state ≡ cold → advance ep now ≡ ep
unfolding advance
advance-cold ep now h = ground arith
