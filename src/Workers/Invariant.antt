-- ===== src/Workers/Invariant.antt =====
-- The invariant of the pool: what holds in every state that the goroutines can reach.
mod Defs
mod Tally
mod Moves
mod Turns
mod Weights
mod Steps
unfoldable pub use Defs.*
pub use Weights.{outstanding-lt, unaccounted-outstanding, below-held}
pub use Moves.{Move-Same, outstanding-le, Move-live}
use evictor.Prelude.{
  ℕ, ◌+◌, ◌^◌, ◌<◌, ◌≡◌, refl, Option, none, some, replicate, weigh-replicate, length-replicate,
  All-replicate, ltb, if◌then◌else◌, arith,
}
use evictor.Prelude.Int.{ℤ, pos, negsuc}
use evictor.Metrics.{Counters, new_counters}
use evictor.Workers.Pool.{Options, at_least_one, new_pool}
use evictor.Workers.Consumer.{Pc, off}
use evictor.Workers.System.{init, System, Reach, here, next}
pub use Turns.{worker-Shift, drainer-Shift}
pub use Steps.{Step-Inv}

-- Counters that nobody has moved.
abbrev pub IsFresh : Option Counters → Type 0
IsFresh none = Unit
IsFresh (some c) =
    (c.queue_depth ≡ 0) × (c.jobs_processed ≡ 0) × (c.jobs_failed ≡ 0) × (c.jobs_dead_lettered ≡ 0)

-- The channel and the workers can be counted by an int64, and the counters start at zero.
pub record IsSane (o : Options) : Type 0 where
  pub fits : at_least_one o.capacity 1 + at_least_one o.workers 1 + 1 < 2 ^ 63
  pub fresh : IsFresh o.metrics

at_least_one_pos : (n : ℤ) → 0 < at_least_one n 1
unfolding at_least_one
at_least_one_pos (pos n) = ground arith
at_least_one_pos (negsuc n) = omega arith

-- No consumer weighs anything before it is launched.
record Weightless (n : ℕ) : Type 0 where
  holds : held (replicate n off) off ≡ 0
  lags : behind (replicate n off) off ≡ 0
  notes : noted (replicate n off) off ≡ 0
  half : halves (replicate n off) off ≡ 0
  owes : owed (replicate n off) off ≡ 0
  ends : gone (replicate n off) off ≡ 0

weightless : (n : ℕ) → Weightless n
unfolding WeightSums
weightless n = record {
  holds = none_weighs holding refl;
  lags = none_weighs undequeued refl;
  notes = none_weighs recorded refl;
  half = none_weighs half_failed refl;
  owes = none_weighs owing refl;
  ends = none_weighs over refl;
}
  where
    none_weighs : (w : Pc → ℕ) → w off ≡ 0 → overall w (replicate n off) off ≡ 0
    none_weighs w e = omega (arith, weigh-replicate w n off e)

init-Inv : (o : Options) → IsSane o → Inv (init o)
unfolding init new_counters
init-Inv o sane =
    let n = at_least_one o.workers 1 in
    let idle = All-replicate (PcOk (at_least_one o.max_attempts 1)) n off tt in
    ground (
      arith,
      idle,
      weightless n,
      sane.fresh,
      length-replicate n off,
      at_least_one_pos o.workers,
      at_least_one_pos o.max_attempts,
    )

-- Every reachable state of a pool whose counters start at zero, and whose capacity and workers fit
-- an int64, satisfies `Inv`: the counters agree with the jobs in the channel and with what each
-- goroutine holds or has yet to count, the channel is within its capacity, each consumer is at a
-- step that its attempt allows, and the flags of the pool agree with the supervisor's stage.
pub Reach-Inv : {o : Options} {s : System} → IsSane o → Reach o s → Inv s
Reach-Inv {o} sane here = init-Inv o sane
Reach-Inv sane (next r st) = Step-Inv st (Reach-Inv sane r)
