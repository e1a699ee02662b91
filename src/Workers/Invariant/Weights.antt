-- ===== src/Workers/Invariant/Weights.antt =====
-- The weights of all consumers where the supervisor reads or changes them.
use evictor.Prelude.{
  ℕ, ◌+◌, ◌≤◌, ◌<◌, ◌^◌, ◌≡◌, refl, ap, true, List, [], ◌∷◌, length, replicate, weigh,
  weigh-replicate, weigh-le, weigh_mono, arith,
}
use evictor.Workers.Pool.{unaccounted}
use evictor.Workers.Consumer.{Pc, off, receiving}
use evictor.Workers.System.{System, AllFinished}
use evictor.Workers.Invariant.Defs.{
  holding, undequeued, recorded, half_failed, owing, over, live, overall, WeightSums, held, behind,
  noted, halves, owed, gone, Inv, outstanding,
}

-- Equal weights, in all six respects.
pub record SameWeights (ws : List Pc) (d : Pc) (ws' : List Pc) (d' : Pc) : Type 0 where
  pub holds : held ws' d' ≡ held ws d
  pub lags : behind ws' d' ≡ behind ws d
  pub notes : noted ws' d' ≡ noted ws d
  pub half : halves ws' d' ≡ halves ws d
  pub owes : owed ws' d' ≡ owed ws d
  pub ends : gone ws' d' ≡ gone ws d

replicate-weights : (n : ℕ) (d : Pc) → SameWeights (replicate n off) d (replicate n receiving) d
unfolding WeightSums
replicate-weights n d = record {
  holds = same holding refl refl;
  lags = same undequeued refl refl;
  notes = same recorded refl refl;
  half = same half_failed refl refl;
  owes = same owing refl refl;
  ends = same over refl refl;
}
  where
    same :
        (w : Pc → ℕ)
        → w off ≡ 0
        → w receiving ≡ 0
        → overall w (replicate n receiving) d ≡ overall w (replicate n off) d
    same w e q = omega (arith, weigh-replicate w n off e, weigh-replicate w n receiving q)

-- Launching the workers changes no weight.
pub asleep-weights :
    (n : ℕ) (ws : List Pc) (d : Pc)
    → ws ≡ replicate n off
    → SameWeights ws d (replicate n receiving) d
asleep-weights n ws d e = rw e (replicate-weights n d)

-- Nor does launching the drainer.
pub spawn-weights : (ws : List Pc) (d : Pc) → live d ≡ 0 → SameWeights ws d ws receiving
unfolding WeightSums
spawn-weights ws off e = record {
  holds = refl;
  lags = refl;
  notes = refl;
  half = refl;
  owes = refl;
  ends = refl;
}
spawn-weights ws _ e = absurd (omega arith)

finished-weights :
    (ws : List Pc) → AllFinished ws → (weigh holding ws ≡ 0) × (weigh over ws ≡ length ws)
unfolding weigh
finished-weights [] h = (refl, refl)
finished-weights (w ∷ ws) (e, h) =
    let (a, b) = finished-weights ws h in (omega (arith, ap holding e), omega (arith, ap over e))

pub held-le : (ws : List Pc) (d : Pc) → held ws d ≤ length ws + 1
unfolding WeightSums
held-le ws d = omega (arith, weigh-le holding (λ pc. ground arith) ws, holding-le d)
  where
    holding-le : (pc : Pc) → holding pc ≤ 1
    holding-le pc = ground arith

-- Whoever counts in another weight holds a job.
pub record BelowHeld (ws : List Pc) (d : Pc) : Type 0 where
  pub lags : behind ws d ≤ held ws d
  pub notes : noted ws d ≤ held ws d
  pub half : halves ws d ≤ held ws d
  pub owes : owed ws d ≤ held ws d

pub below-held : (ws : List Pc) (d : Pc) → BelowHeld ws d
unfolding WeightSums
below-held ws d = record {
  lags = below undequeued (λ pc. ground arith);
  notes = below recorded (λ pc. ground arith);
  half = below half_failed (λ pc. ground arith);
  owes = below owing (λ pc. ground arith);
}
  where
    below : (w : Pc → ℕ) → ((pc : Pc) → w pc ≤ holding pc) → overall w ws d ≤ overall holding ws d
    below w h = omega (arith, weigh_mono w holding h ws, h d)

module _ {s : System} (inv : Inv s) where
  -- If all consumers are gone, or have never come, nothing is outstanding.
  pub finished-outstanding : AllFinished s.workers → holding s.drain ≡ 0 → outstanding s ≡ 0
  unfolding WeightSums
  finished-outstanding all d =
      let (a, b) = finished-weights s.workers all in
      let empty = inv.emptied (omega (arith, b, inv.crew)) in omega (arith, a, d, empty.1)

  pub outstanding-lt : outstanding s < 2 ^ 63
  outstanding-lt = omega (arith, held-le s.workers s.drain, inv.crew, inv.fits, inv.safe.bounded)

  -- Once the pool has stopped accepting, the difference of the two counters is exact.
  pub unaccounted-outstanding :
      s.pool.stopping ≡ true → unaccounted s.pool.accepted s.pool ≡ outstanding s
  unfolding unaccounted
  unaccounted-outstanding e = ground (arith, inv.tally, inv.safe.quiet e, outstanding-lt)
