-- ===== src/Workers/Invariant/Turns.antt =====
-- A step of one consumer, worker or drainer, keeps the invariant.
use evictor.Prelude.{
  ℕ, ◌≡◌, refl, sym, ap, ◌∙◌, inl, inr, true, some, List, length, get_elem?, set, weigh-set,
  weight-le-weigh, length-set, All, All-set, All-get, Bool-cases, arith,
}
use evictor.Workers.Pool.{Pool}
use evictor.Workers.Consumer.{Role, worker, drainer, Pc, Move}
use evictor.Workers.System.{System, Stage, unstarted}
use evictor.Workers.Invariant.Defs.{
  holding, undequeued, recorded, half_failed, owing, over, live, overall, WeightSums, launched,
  alone, Shift, PcOk, Inv,
}
use evictor.Workers.Invariant.Tally.{Move-Tally}
use evictor.Workers.Invariant.Moves.{
  Move-Same, Move-IsSafe, Move-PcOk, Move-letters, Move-Emptied, outstanding-le, Move-live,
  get_elem?-replicate_off,
}

-- One consumer, worker or drainer, goes from `pc` to `pc'`; `ws` and `d` are the consumers after it.
record Turn (s : System) (ws : List Pc) (d pc pc' : Pc) : Type 0 where
  shift : (w : Pc → ℕ) → Shift w pc pc' (overall w s.workers s.drain) (overall w ws d)
  crew : length ws ≡ length s.workers
  pcs : PcOk s.pool.max_attempts pc' → All (PcOk s.pool.max_attempts) ws
  drain_pc : PcOk s.pool.max_attempts pc' → PcOk s.pool.max_attempts d
  before : PcOk s.pool.max_attempts pc
  awake : launched s.stage ≡ true
  steady : live d ≡ live s.drain

Turn-Inv :
    {r : Role} (s : System) (ws : List Pc) (d : Pc) {pc pc' : Pc} {p : Pool}
    → (r ≡ drainer → s.pool.cancelled ≡ true)
    → Inv s
    → Turn s ws d pc pc'
    → Move r s.pool pc p pc'
    → Inv (record s { pool = p; workers = ws; drain = d })
unfolding WeightSums
Turn-Inv s ws d {p} armed inv turn mv =
    let same = Move-Same mv in
    let ok = Move-PcOk mv inv.attempts armed turn.before in
    let fewer = outstanding-le mv (turn.shift holding) in
    record {
      safe = Move-IsSafe mv inv.safe;
      tally =
          Move-Tally mv (turn.shift holding) (turn.shift undequeued) (turn.shift recorded)
            (turn.shift half_failed) (turn.shift owing) inv.tally;
      attempts = rw same.max_attempts inv.attempts;
      crew = rw same.size (inv.crew.0, turn.crew ∙ inv.crew.1);
      fits = rw (same.capacity, same.size) inv.fits;
      pcs = rw same.max_attempts (turn.pcs ok);
      drain_pc = rw same.max_attempts (turn.drain_pc ok);
      letters = Move-letters mv turn.before inv.letters;
      emptied = Move-Emptied mv (turn.shift over) inv.emptied;
      armed = rw (same.cancelled, turn.steady) inv.armed;
      asleep = λ e. cc (turn.awake);
      launch = same.started ∙ inv.launch;
      halt = same.stopping ∙ inv.halt;
      fire = rw same.cancelled inv.fire;
      patient = rw same.cancelled inv.patient;
      solo = rw turn.steady inv.solo;
      load = rw (same.accepted, same.abandoned) inv.load;
      account = λ e. ground (arith, same, inv.account e);
      end = same.done ∙ inv.end;
    }

pub worker-Shift :
    (s : System) (w : Pc → ℕ) (i : ℕ) {pc : Pc} (pc' : Pc)
    → get_elem? s.workers i ≡ some pc
    → Shift w pc pc' (overall w s.workers s.drain) (overall w (set s.workers i pc') s.drain)
worker-Shift s w i {pc} pc' e =
    omega (arith, weigh-set w s.workers i pc pc' e, weight-le-weigh w s.workers i pc e)

pub drainer-Shift :
    (s : System) (w : Pc → ℕ) {pc : Pc} (pc' : Pc)
    → s.drain ≡ pc
    → Shift w pc pc' (overall w s.workers s.drain) (overall w s.workers pc')
drainer-Shift s w pc' e = omega (arith, ap w e)

launched_of-live :
    (stage : Stage) (d : Pc)
    → live d ≡ 1
    → (alone stage ≡ true → live d ≡ 0)
    → launched stage ≡ true
launched_of-live unstarted d h k = absurd (omega (arith, k refl))
launched_of-live _ d h k = refl

module _ {s : System} (inv : Inv s) where
  launched_of-worker :
      (i : ℕ) {pc : Pc} → get_elem? s.workers i ≡ some pc → live pc ≡ 1 → launched s.stage ≡ true
  launched_of-worker i e h = elim (Bool-cases (launched s.stage)) [
    | inl up ↦ up
    | inr down ↦
        absurd (omega (arith, get_elem?-replicate_off s.pool.size i (rw (inv.asleep down) at e)))
  ]

  pub consume-Inv :
      (i : ℕ) {pc pc' : Pc} {p : Pool}
      → get_elem? s.workers i ≡ some pc
      → Move worker s.pool pc p pc'
      → Inv (record s { pool = p; workers = set s.workers i pc' })
  consume-Inv i {pc} {pc'} e mv =
      Turn-Inv s (set s.workers i pc') s.drain (λ q. cc) inv
        (record {
          shift = λ w. worker-Shift s w i pc' e;
          crew = length-set s.workers i pc';
          pcs = All-set (PcOk s.pool.max_attempts) s.workers i pc' inv.pcs;
          drain_pc = λ _. inv.drain_pc;
          before = All-get (PcOk s.pool.max_attempts) s.workers i inv.pcs e;
          awake = launched_of-worker i e (Move-live mv).0;
          steady = refl;
        })
        mv

  pub discard-Inv :
      {pc pc' : Pc} {p : Pool}
      → s.drain ≡ pc
      → Move drainer s.pool pc p pc'
      → Inv (record s { pool = p; drain = pc' })
  discard-Inv {pc} {pc'} e mv =
      Turn-Inv s s.workers pc' (λ q. inv.armed (omega (arith, (Move-live mv).0, ap live e))) inv
        (record {
          shift = λ w. drainer-Shift s w pc' e;
          crew = refl;
          pcs = λ _. inv.pcs;
          drain_pc = λ h. h;
          before = rw (← e) inv.drain_pc;
          awake = launched_of-live s.stage s.drain (ap live e ∙ (Move-live mv).0) inv.solo;
          steady = (Move-live mv).1 ∙ sym (ap live e ∙ (Move-live mv).0);
        })
        mv
