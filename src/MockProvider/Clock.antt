-- ===== src/MockProvider/Clock.antt =====
-- backend/internal/mockprovider/clock.go: the clock that tests move by hand. Its mutex makes each
-- method one step.
use evictor.Prelude.{suc, ◌+◌, ◌-◌}
use evictor.Prelude.Int.{ℤ, pos, negsuc}
use evictor.MockProvider.Scenario.{Time}

pub record VirtualClock : Type 0 where
  pub now : Time

abbrev pub new_virtual_clock : Time → VirtualClock
new_virtual_clock start = record { now = start }

-- `Time.Add`. The zero instant is the least one that a `Time` stands for.
abbrev pub add : Time → ℤ → Time
add t (pos d) = t + d
add t (negsuc d) = t - suc d

unfoldable pub advance_clock : ℤ → VirtualClock → VirtualClock
advance_clock d vc = record vc { now = add vc.now d }
