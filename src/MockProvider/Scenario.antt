-- ===== src/MockProvider/Scenario.antt =====
-- backend/internal/mockprovider/scenario.go: the injected faults of one endpoint.
use evictor.Prelude.{
  ℕ, ◌*◌, String, Bool, true, false, ◌&&◌, List, [], ◌∷◌, ltb, if◌then◌else◌, wrap64, signed,
}
use evictor.Http.{Writer, set_header, write_header}
use evictor.Prelude.Int.{ℤ, pos, negsuc}

-- An instant is the number of nanoseconds since the zero `time.Time`.
abbrev pub Time : Type 0
Time = ℕ

-- `unknown` stands for every other string of the type.
pub data FailureMode : Type 0 where
  no_failure rate_limited server_error : FailureMode
  unknown : String → FailureMode

pub record Scenario : Type 0 where
  pub latency_ms : ℤ
  pub failure : FailureMode
  pub failure_until : Time

abbrev pub default_scenario : Scenario
default_scenario = record { latency_ms = pos 0; failure = no_failure; failure_until = 0 }

-- The durations, in nanoseconds, that `delay` hands to the sleeper. The product is one of int64.
sleep_for : ℤ → List ℤ
sleep_for (pos ms) = if ltb 0 ms then signed (wrap64 (ms * 1000000)) ∷ [] else []
sleep_for (negsuc n) = []

unfoldable pub delay : Scenario → List ℤ
unfolding sleep_for
delay s = sleep_for s.latency_ms

abbrev pub is_failure : FailureMode → Bool
is_failure no_failure = false
is_failure _ = true

module _ {ℓ} {Body : Type ℓ} where
  write_failure : FailureMode → Writer Body → Writer Body
  write_failure rate_limited w = write_header 429 (set_header "Retry-After" "5" w)
  write_failure server_error w = write_header 500 w
  write_failure _ w = w

  unfoldable pub apply_failure_header : Scenario → Time → Writer Body → Writer Body × Bool
  unfolding write_failure
  apply_failure_header s now w =
      if is_failure s.failure && ltb now s.failure_until
      then (write_failure s.failure w, true)
      else (w, false)
