-- ===== src/Workers/Invariant/Defs/Stages.antt =====
-- What the stages of the supervisor say of the pool.
use evictor.Prelude.{ℕ, ◌^◌, ◌<◌, ◌≡◌, Bool, true, false}
use evictor.Workers.System.{
  Stage, unstarted, awaiting, halting, spawning, unwinding, tallying, loaded, storing, reporting,
  cancelling, closing, stopped,
}

-- What the stages say: `Start` has run, the channel is closed, the drain deadline has passed,
-- no drainer exists yet, the losses are known, `done` is closed.
abbrev pub launched : Stage → Bool
launched unstarted = false
launched _ = true

abbrev pub halted : Stage → Bool
halted unstarted = false
halted awaiting = false
halted halting = false
halted _ = true

abbrev pub fired : Stage → Bool
fired spawning = true
fired unwinding = true
fired tallying = true
fired (loaded _) = true
fired (storing _) = true
fired (reporting _) = true
fired closing = true
fired stopped = true
fired _ = false

abbrev pub alone : Stage → Bool
alone unwinding = false
alone tallying = false
alone (loaded _) = false
alone (storing _) = false
alone (reporting _) = false
alone cancelling = false
alone closing = false
alone stopped = false
alone _ = true

abbrev pub accounted : Stage → Bool
accounted cancelling = true
accounted closing = true
accounted stopped = true
accounted _ = false

abbrev pub ended : Stage → Bool
ended stopped = true
ended _ = false

-- `recordAbandoned` in progress: what its local variables and `abandoned` are.
abbrev pub LoadOk : Stage → ℕ → ℕ → Type 0
LoadOk (loaded a) accepted abandoned = (a ≡ accepted) × (abandoned ≡ 0)
LoadOk (storing count) _ abandoned = (0 < count) × (count < 2 ^ 63) × (abandoned ≡ 0)
LoadOk (reporting count) _ abandoned = (0 < count) × (count < 2 ^ 63) × (abandoned ≡ count)
LoadOk cancelling _ abandoned = abandoned < 2 ^ 63
LoadOk closing _ abandoned = abandoned < 2 ^ 63
LoadOk stopped _ abandoned = abandoned < 2 ^ 63
LoadOk _ _ abandoned = abandoned ≡ 0
