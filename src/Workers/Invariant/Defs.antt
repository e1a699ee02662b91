-- ===== src/Workers/Invariant/Defs.antt =====
-- What holds of a pool and the goroutines around it in every reachable state.
mod Stages
unfoldable pub use Stages.*
use evictor.Prelude.{
  ℕ, ◌+◌, ◌^◌, ◌≤◌, ◌<◌, ◌≡◌, ◌≢◌, ◌⊎◌, Bool, true, false, Option, none, List, length, wrap64,
  weigh, replicate, All,
}
use evictor.Workers.Pool.{JobError, Pool, Lock, sent, counting}
use evictor.Workers.Consumer.{
  Pc, off, receiving, got, trying, running, erred, failing, failed, sinking, settling, finished,
}
use evictor.Workers.System.{
  System, Stage, unstarted, awaiting, halting, spawning, unwinding, tallying, loaded, storing,
  reporting, cancelling, closing, stopped,
}

-- A consumer owns a job from the receive to `settled.Add(1)`.
abbrev pub holding : Pc → ℕ
holding off = 0
holding receiving = 0
holding finished = 0
holding _ = 1

-- It has received a job, and the depth still counts it.
abbrev pub undequeued : Pc → ℕ
undequeued (got _) = 1
undequeued _ = 0

-- It has counted its job as processed or dead-lettered, and not yet as settled.
abbrev pub recorded : Pc → ℕ
recorded (sinking _ _) = 1
recorded settling = 1
recorded _ = 0

-- It has counted its job as failed, and not yet as dead-lettered.
abbrev pub half_failed : Pc → ℕ
half_failed (failed _ _) = 1
half_failed _ = 0

-- It is about to call the dead-letter function.
abbrev pub owing : Pc → ℕ
owing (sinking _ _) = 1
owing _ = 0

abbrev pub over : Pc → ℕ
over finished = 1
over _ = 0

-- The job is in the channel, and `accepted` or the depth does not count it yet.
abbrev pub unaccepted : Lock → ℕ
unaccepted sent = 1
unaccepted _ = 0

abbrev pub uncounted : Lock → ℕ
uncounted sent = 1
uncounted counting = 1
uncounted _ = 0

-- The weight of all consumers.
abbrev pub overall : (Pc → ℕ) → List Pc → Pc → ℕ
overall w ws d = weigh w ws + w d

unfoldable pub held : List Pc → Pc → ℕ
held = overall holding

unfoldable pub behind : List Pc → Pc → ℕ
behind = overall undequeued

unfoldable pub noted : List Pc → Pc → ℕ
noted = overall recorded

unfoldable pub halves : List Pc → Pc → ℕ
halves = overall half_failed

unfoldable pub owed : List Pc → Pc → ℕ
owed = overall owing

unfoldable pub gone : List Pc → Pc → ℕ
gone = overall over

-- All six, for the `unfolding` lines of proofs.
unfoldable pub WeightSums : Type 0
unfolding held behind noted halves owed gone
WeightSums = Unit

-- What the five weights of one system are, before and after one consumer goes from `pc` to `pc'`.
pub record Shift (w : Pc → ℕ) (pc pc' : Pc) (before after : ℕ) : Type 0 where
  pub moved : after + w pc ≡ before + w pc'
  pub within : w pc ≤ before

-- How the counters stand to each other, given the weights of the consumers.
pub record Tally (p : Pool) (h u n f o : ℕ) : Type 0 where
  pub conserved : wrap64 (p.accepted + unaccepted p.lock) ≡ wrap64 (p.settled + length p.jobs + h)
  pub depth : wrap64 (p.metrics.queue_depth + uncounted p.lock) ≡ wrap64 (length p.jobs + u)
  pub outcomes :
      wrap64 (p.metrics.jobs_processed + p.metrics.jobs_dead_lettered) ≡ wrap64 (p.settled + n)
  pub failures : p.metrics.jobs_failed ≡ wrap64 (p.metrics.jobs_dead_lettered + f)
  pub sunk :
      p.dead_letter ≡ true → p.metrics.jobs_dead_lettered ≡ wrap64 (length p.dead_letters + o)
  pub words :
      (p.accepted < 2 ^ 64)
      × (p.settled < 2 ^ 64)
      × (p.metrics.queue_depth < 2 ^ 64)
      × (p.metrics.jobs_dead_lettered < 2 ^ 64)

-- The channel and the mutex.
pub record IsSafe (p : Pool) : Type 0 where
  pub bounded : length p.jobs ≤ p.capacity
  pub channel : p.closed ≡ p.stopping
  pub whole : p.broken ≡ false
  pub quiet : p.stopping ≡ true → uncounted p.lock ≡ 0

-- What a consumer's own variables satisfy.
abbrev pub PcOk : ℕ → Pc → Type 0
PcOk most (trying _ attempt err) =
    (0 < attempt) × (attempt ≤ most + 1) × ((attempt ≡ 1) ⊎ (err ≢ none))
PcOk most (running _ attempt) = (0 < attempt) × (attempt ≤ most)
PcOk most (erred _ attempt _) = (0 < attempt) × (attempt ≤ most)
PcOk most (failing _ err) = err ≢ none
PcOk most (failed _ err) = err ≢ none
PcOk most (sinking _ err) = err ≢ none
PcOk most _ = Unit

abbrev pub HasError : {A : Type 0} → A × Option JobError → Type 0
HasError (job, err) = err ≢ none

-- No consumer stops while the channel is open or holds a job.
abbrev pub Emptied : Pool → Type 0
Emptied p = (p.closed ≡ true) × (length p.jobs ≡ 0)

-- Jobs that were taken in and not yet settled.
abbrev pub outstanding : System → ℕ
outstanding s = length s.pool.jobs + held s.workers s.drain

abbrev pub live : Pc → ℕ
live off = 0
live _ = 1

pub record Inv (s : System) : Type 0 where
  pub safe : IsSafe s.pool
  pub tally :
      Tally s.pool
        (held s.workers s.drain)
        (behind s.workers s.drain)
        (noted s.workers s.drain)
        (halves s.workers s.drain)
        (owed s.workers s.drain)
  pub attempts : 0 < s.pool.max_attempts
  pub crew : (0 < s.pool.size) × (length s.workers ≡ s.pool.size)
  pub fits : s.pool.capacity + s.pool.size + 1 < 2 ^ 63
  pub pcs : All (PcOk s.pool.max_attempts) s.workers
  pub drain_pc : PcOk s.pool.max_attempts s.drain
  pub letters : All HasError s.pool.dead_letters
  pub emptied : 0 < gone s.workers s.drain → Emptied s.pool
  pub armed : 0 < live s.drain → s.pool.cancelled ≡ true
  pub asleep : launched s.stage ≡ false → s.workers ≡ replicate s.pool.size off
  pub launch : s.pool.started ≡ launched s.stage
  pub halt : s.pool.stopping ≡ halted s.stage
  pub fire : fired s.stage ≡ true → s.pool.cancelled ≡ true
  pub patient : s.pool.cancelled ≡ true → (fired s.stage ≡ true) ⊎ (s.stage ≡ cancelling)
  pub solo : alone s.stage ≡ true → live s.drain ≡ 0
  pub load : LoadOk s.stage s.pool.accepted s.pool.abandoned
  pub account : accounted s.stage ≡ true → (outstanding s ≡ 0) ⊎ (0 < s.pool.abandoned)
  pub end : s.pool.done ≡ ended s.stage
