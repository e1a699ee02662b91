-- ===== src/Workers/Timed/Bound.antt =====
-- How long a shutdown takes.
use evictor.Prelude.{
  ℕ, ◌+◌, ◌*◌, ◌≤◌, ◌<◌, ◌≡◌, refl, sym, ap, ◌∙◌, Bool, true, false, Bool-cases, ◌==◌, inl, inr,
  arith,
}
use evictor.Workers.Pool.{Options, new_pool}
use evictor.Workers.System.{
  System, init, Reach, Stage, unstarted, awaiting, halting, draining, expired, spawning, unwinding,
  tallying, loaded, storing, reporting, cancelling, closing, stopped, Step,
}
use evictor.Workers.Invariant.{IsSane, Inv, Reach-Inv, launched, ended}
use evictor.Workers.Shutdown.{supervises}
use evictor.Workers.Timed.{
  Timed, TimedReach, tick, move, here, next, moved, is_busy, stage_busy, patience, unwind_window,
}

-- What a shutdown has taken at most by the time that the supervisor comes to a stage.
abbrev before : (drain lag : ℕ) → Stage → ℕ
before drain lag unstarted = 0
before drain lag awaiting = 0
before drain lag halting = lag
before drain lag draining = 2 * lag
before drain lag expired = drain + 3 * lag
before drain lag spawning = drain + 4 * lag
before drain lag unwinding = drain + 5 * lag
before drain lag tallying = drain + unwind_window + 6 * lag
before drain lag (loaded a) = drain + unwind_window + 7 * lag
before drain lag (storing c) = drain + unwind_window + 8 * lag
before drain lag (reporting c) = drain + unwind_window + 9 * lag
before drain lag cancelling = drain + unwind_window + 10 * lag
before drain lag closing = drain + unwind_window + 11 * lag
before drain lag stopped = drain + unwind_window + 12 * lag

Step-same : {s t : System} (st : Step s t) → (supervises st == 0) ≡ true → t.stage ≡ s.stage
unfolding supervises
Step-same (Step.consume i e mv) h = refl
Step-same _ h = ground arith

never_busy :
    (ctx_done : Bool) (stage : Stage)
    → launched stage ≡ false
    → stage_busy ctx_done stage ≡ true
    → ⊥
never_busy ctx_done stage h k = ground arith

module _ (drain lag : ℕ) where
  Pays : Stage → Stage → Type 0
  Pays x y = before drain lag x + patience drain lag x ≤ before drain lag y

  Step-Pays :
      {s t : System}
      → Inv s
      → (st : Step s t) → is_busy s ≡ true
      → (supervises st == 0) ≡ false
      → Pays s.stage t.stage
  unfolding Pays supervises
  Step-Pays {s} inv (Step.start e) b h =
      absurd (never_busy s.ctx_done s.stage (sym inv.launch ∙ e) b)
  Step-Pays inv (Step.observe e k) b h =
      omega (arith, ap (before drain lag) e, ap (patience drain lag) e)
  Step-Pays inv (Step.halt e k) b h =
      omega (arith, ap (before drain lag) e, ap (patience drain lag) e)
  Step-Pays inv (Step.drained e k) b h =
      omega (arith, ap (before drain lag) e, ap (patience drain lag) e)
  Step-Pays inv (Step.drain_timeout e) b h =
      omega (arith, ap (before drain lag) e, ap (patience drain lag) e)
  Step-Pays inv (Step.interrupt e) b h =
      omega (arith, ap (before drain lag) e, ap (patience drain lag) e)
  Step-Pays inv (Step.spawn e) b h =
      omega (arith, ap (before drain lag) e, ap (patience drain lag) e)
  Step-Pays inv (Step.unwound e k l) b h =
      omega (arith, ap (before drain lag) e, ap (patience drain lag) e)
  Step-Pays inv (Step.unwind_timeout e) b h =
      omega (arith, ap (before drain lag) e, ap (patience drain lag) e)
  Step-Pays inv (Step.load_accepted e) b h =
      omega (arith, ap (before drain lag) e, ap (patience drain lag) e)
  Step-Pays inv (Step.none_left e k) b h =
      omega (arith, ap (before drain lag) e, ap (patience drain lag) e)
  Step-Pays inv (Step.some_left e k) b h =
      omega (arith, ap (before drain lag) e, ap (patience drain lag) e)
  Step-Pays inv (Step.store e) b h =
      omega (arith, ap (before drain lag) e, ap (patience drain lag) e)
  Step-Pays inv (Step.report e) b h =
      omega (arith, ap (before drain lag) e, ap (patience drain lag) e)
  Step-Pays inv (Step.cancel e) b h =
      omega (arith, ap (before drain lag) e, ap (patience drain lag) e)
  Step-Pays inv (Step.close e) b h =
      omega (arith, ap (before drain lag) e, ap (patience drain lag) e)
  Step-Pays inv _ b h = absurd (ground arith)

  -- While the shutdown is on, it keeps to its timetable.
  InTime : Timed → Type 0
  InTime t =
      is_busy t.system ≡ true
      → (t.entered ≤ t.since + before drain lag t.system.stage)
        × (t.now ≤ t.entered + patience drain lag t.system.stage)

  paid :
      (t : Timed) (x y : Stage)
      → (t.entered ≤ t.since + before drain lag x) × (t.now ≤ t.entered + patience drain lag x)
      → Pays x y
      → (t.now ≤ t.since + before drain lag y) × (t.now ≤ t.now + patience drain lag y)
  unfolding Pays
  paid t x y (h, k) p = (omega arith, omega arith)

  moved-InTime :
      (t : Timed) {s : System}
      → Inv t.system
      → InTime t
      → (st : Step t.system s) → InTime (moved t s (supervises st))
  unfolding InTime
  moved-InTime t inv h st busy = elim (Bool-cases (is_busy t.system)) [
    | inr idle ↦ rw idle (omega arith, omega arith)
    | inl b ↦ elim (Bool-cases (supervises st == 0)) [
      | inl other ↦ rw b (rw other (rw (Step-same st other) (h b)))
      | inr own ↦ rw b (rw own (paid t t.system.stage _ (h b) (Step-Pays inv st b own)))
    ]
  ]

  tick-InTime :
      (t : Timed) (d : ℕ)
      → InTime t
      → (is_busy t.system ≡ true → t.now + d ≤ t.entered + patience drain lag t.system.stage)
      → InTime (record t { now = t.now + d })
  unfolding InTime
  tick-InTime t d h k busy = ((h busy).0, k busy)

  total :
      (ctx_done : Bool) (x : Stage)
      → stage_busy ctx_done x ≡ true
      → before drain lag x + patience drain lag x ≤ drain + unwind_window + 12 * lag
  total ctx_done awaiting b = omega arith
  total ctx_done _ b = ground arith

  overdue :
      (t : Timed)
      → InTime t
      → t.since + (drain + unwind_window + 12 * lag) < t.now
      → is_busy t.system ≡ false
  unfolding InTime
  overdue t h late = elim (Bool-cases (is_busy t.system)) [
    | inr idle ↦ idle
    | inl b ↦
        let all = total t.system.ctx_done t.system.stage b in
        absurd (omega (arith, all, (h b).0, (h b).1))
  ]

pub TimedReach-Reach : {o : Options} {lag : ℕ} {t : Timed} → TimedReach o lag t → Reach o t.system
TimedReach-Reach (here start) = Reach.here
TimedReach-Reach (next r (tick d k)) = TimedReach-Reach r
TimedReach-Reach (next r (move st due)) = Reach.next (TimedReach-Reach r) st

TimedReach-InTime :
    {o : Options} {lag : ℕ} {t : Timed}
    → IsSane o
    → TimedReach o lag t
    → InTime (new_pool o).drain_timeout lag t
unfolding InTime init
TimedReach-InTime sane (here start) = λ busy. absurd (ground arith)
TimedReach-InTime {o} {lag} sane (next {t} r (tick d k)) =
    tick-InTime (new_pool o).drain_timeout lag t d (TimedReach-InTime sane r) k
TimedReach-InTime {o} {lag} sane (next {t} r (move st due)) =
    moved-InTime (new_pool o).drain_timeout lag t (Reach-Inv sane (TimedReach-Reach r))
      (TimedReach-InTime sane r) st

idle_is_stopped :
    (stage : Stage) → launched stage ≡ true → stage_busy true stage ≡ false → stage ≡ stopped
idle_is_stopped stopped h k = refl
idle_is_stopped _ h k = absurd (ground arith)

-- A pool that was started and cancelled has stopped by the drain timeout and the window of 100 ms
-- after it, and twelve times what the scheduler costs a step: then `done` is closed, however many
-- jobs there are and whether or not they return.
pub TimedReach-stopped :
    {o : Options} {lag : ℕ} {t : Timed}
    → IsSane o
    → TimedReach o lag t
    → t.system.pool.started ≡ true
    → t.system.ctx_done ≡ true
    → t.since + ((new_pool o).drain_timeout + unwind_window + 12 * lag) < t.now
    → (t.system.stage ≡ stopped) × (t.system.pool.done ≡ true)
TimedReach-stopped {o} {lag} {t} sane r on over late =
    let inv = Reach-Inv sane (TimedReach-Reach r) in
    let idle = overdue (new_pool o).drain_timeout lag t (TimedReach-InTime sane r) late in
    let at_end =
      idle_is_stopped t.system.stage (sym inv.launch ∙ on)
        (ap (λ b. stage_busy b t.system.stage) (sym over) ∙ idle) in
    (at_end, inv.end ∙ ap ended at_end)
