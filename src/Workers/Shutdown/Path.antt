-- ===== src/Workers/Shutdown/Path.antt =====
-- How a pool stops from each stage, without its workers.
use evictor.Prelude.{
  ℕ, ◌≡◌, inl, inr, refl, sym, ap, ◌∙◌, true, Bool-cases, length, ltb, is_positive64, arith,
}
use evictor.Workers.Pool.{Job, Lock, free, entered, sent, counting, unaccounted}
use evictor.Workers.System.{
  System, Stage, unstarted, awaiting, halting, draining, expired, spawning, unwinding, tallying,
  loaded, storing, reporting, cancelling, closing, stopped, Step, Run, stay, go, SystemOps,
}
use evictor.Workers.Invariant.{Inv, launched, ended}
use evictor.Workers.Shutdown.{Stops}

Run-append : {s t u : System} → Run s t → Run t u → Run s u
Run-append r stay = r
Run-append r (go q st) = go (Run-append r q) st

first : {s t : System} → Step s t → t.workers ≡ s.workers → Stops t → Stops s
first st same later = record {
  last = later.last;
  run = Run-append (go stay st) later.run;
  stage = later.stage;
  done = later.done;
  workers = later.workers ∙ same;
}

from_closing : (s : System) → s.stage ≡ closing → Stops s
unfolding SystemOps
from_closing s e = record {
  last = _;
  run = go stay (Step.close e);
  stage = refl;
  done = refl;
  workers = refl;
}

from_cancelling : (s : System) → s.stage ≡ cancelling → Stops s
from_cancelling s e = first (Step.cancel e) refl (from_closing _ refl)

from_reporting : {count : ℕ} (s : System) → s.stage ≡ reporting count → Stops s
from_reporting s e = first (Step.report e) refl (from_cancelling _ refl)

from_storing : {count : ℕ} (s : System) → s.stage ≡ storing count → Stops s
from_storing s e = first (Step.store e) refl (from_reporting _ refl)

from_loaded : {a : ℕ} (s : System) → s.stage ≡ loaded a → Stops s
from_loaded {a} s e = elim (Bool-cases (is_positive64 (unaccounted a s.pool))) [
  | inl h ↦ first (Step.some_left e h) refl (from_storing _ refl)
  | inr h ↦ first (Step.none_left e h) refl (from_cancelling _ refl)
]

from_tallying : (s : System) → s.stage ≡ tallying → Stops s
from_tallying s e = first (Step.load_accepted e) refl (from_loaded _ refl)

from_unwinding : (s : System) → s.stage ≡ unwinding → Stops s
from_unwinding s e = first (Step.unwind_timeout e) refl (from_tallying _ refl)

from_spawning : (s : System) → s.stage ≡ spawning → Stops s
from_spawning s e = first (Step.spawn e) refl (from_unwinding _ refl)

from_expired : (s : System) → s.stage ≡ expired → Stops s
from_expired s e = first (Step.interrupt e) refl (from_spawning _ refl)

from_draining : (s : System) → s.stage ≡ draining → Stops s
from_draining s e = first (Step.drain_timeout e) refl (from_expired _ refl)

from_free : (s : System) → s.stage ≡ halting → s.pool.lock ≡ free → Stops s
from_free s e h = first (Step.halt e h) refl (from_draining _ refl)

from_counting : (s : System) → s.stage ≡ halting → s.pool.lock ≡ counting → Stops s
from_counting s e h = first (Step.submit_count h) refl (from_free _ e refl)

from_sent : (s : System) → s.stage ≡ halting → s.pool.lock ≡ sent → Stops s
from_sent s e h = first (Step.submit_accept h) refl (from_counting _ e refl)

from_entered : {job : Job} (s : System) → s.stage ≡ halting → s.pool.lock ≡ entered job → Stops s
from_entered s e h = elim (Bool-cases s.pool.stopping) [
  | inl k ↦ first (Step.submit_stopped h k) refl (from_free _ e refl)
  | inr k ↦ elim (Bool-cases (ltb (length s.pool.jobs) s.pool.capacity)) [
    | inl room ↦ first (Step.submit_send h k (ground arith)) refl (from_sent _ e refl)
    | inr full ↦ first (Step.submit_full h k (ground arith)) refl (from_free _ e refl)
  ]
]

from_halting : (s : System) (lock : Lock) → s.stage ≡ halting → s.pool.lock ≡ lock → Stops s
from_halting s free e h = from_free s e h
from_halting s (entered job) e h = from_entered s e h
from_halting s sent e h = from_sent s e h
from_halting s counting e h = from_counting s e h

from_awaiting : (s : System) → s.stage ≡ awaiting → s.ctx_done ≡ true → Stops s
from_awaiting s e h = first (Step.observe e h) refl (from_halting _ s.pool.lock refl refl)

stopped_already : {s : System} → Inv s → s.stage ≡ stopped → Stops s
stopped_already {s} inv e = record {
  last = s;
  run = stay;
  stage = e;
  done = inv.end ∙ ap ended e;
  workers = refl;
}

pub from_stage :
    {s : System} (stage : Stage)
    → Inv s
    → s.pool.started ≡ true
    → s.ctx_done ≡ true
    → s.stage ≡ stage
    → Stops s
from_stage {s} unstarted inv on over e = absurd (ground (arith, sym inv.launch ∙ on, ap launched e))
from_stage {s} awaiting inv on over e = from_awaiting s e over
from_stage {s} halting inv on over e = from_halting s s.pool.lock e refl
from_stage {s} draining inv on over e = from_draining s e
from_stage {s} expired inv on over e = from_expired s e
from_stage {s} spawning inv on over e = from_spawning s e
from_stage {s} unwinding inv on over e = from_unwinding s e
from_stage {s} tallying inv on over e = from_tallying s e
from_stage {s} (loaded a) inv on over e = from_loaded s e
from_stage {s} (storing count) inv on over e = from_storing s e
from_stage {s} (reporting count) inv on over e = from_reporting s e
from_stage {s} cancelling inv on over e = from_cancelling s e
from_stage {s} closing inv on over e = from_closing s e
from_stage {s} stopped inv on over e = stopped_already inv e
