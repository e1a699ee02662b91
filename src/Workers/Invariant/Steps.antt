-- ===== src/Workers/Invariant/Steps.antt =====
-- Every step of the system keeps the invariant.
use evictor.Prelude.{
  ◌≡◌, sym, ap, ◌∙◌, true, false, ◌||◌, if◌then◌else◌, [], ◌∷◌, replicate, length-append,
  length-replicate, All-replicate, arith,
}
use evictor.Workers.Pool.{
  Pool, free, send_job, fail_to_send, add_accepted, deepen, stop_accepting, cancel_jobs, close_done,
  store_abandoned, count_abandoned,
}
use evictor.Workers.Consumer.{receiving}
use evictor.Workers.System.{
  System, Step, Stage, unstarted, awaiting, halting, draining, spawning, unwinding, consume,
  discard, submit_lock, submit_stopped, submit_full, submit_send, submit_accept, submit_count,
  start, start_again, cancel_ctx, observe, halt, drained, drain_timeout, interrupt, spawn, unwound,
  unwind_timeout, load_accepted, none_left, some_left, store, report, cancel, close,
}
use evictor.Workers.Invariant.Defs.{launched, halted, alone, PcOk, Inv}
use evictor.Workers.Invariant.Turns.{consume-Inv, discard-Inv}
use evictor.Workers.Invariant.Weights.{
  asleep-weights, spawn-weights, finished-outstanding, outstanding-lt, unaccounted-outstanding,
}

unstarted_of : (stage : Stage) → launched stage ≡ false → stage ≡ unstarted
unstarted_of stage e = ground arith

stop_accepting_open :
    (p : Pool)
    → p.stopping ≡ false
    → stop_accepting p ≡ record p { stopping = true; closed = true; broken = p.broken || p.closed }
unfolding stop_accepting
stop_accepting_open p e = rw (e, if◌then◌else◌)

module _ {s : System} (inv : Inv s) where
  halt-Inv :
      s.stage ≡ halting
      → s.pool.lock ≡ free
      → Inv (record s { pool = stop_accepting s.pool; stage = draining })
  halt-Inv e l =
      rw (stop_accepting_open s.pool (inv.halt ∙ ap halted e)) (ground (arith, inv.tally, inv.safe))

  start-Inv :
      s.pool.started ≡ false
      → Inv (record s {
        pool = record (s.pool) { started = true };
        workers = replicate s.pool.size receiving;
        stage = awaiting;
      })
  start-Inv e =
      let down : launched s.stage ≡ false = sym inv.launch ∙ e in
      let same = asleep-weights s.pool.size s.workers s.drain (inv.asleep down) in
      let rested = All-replicate (PcOk s.pool.max_attempts) s.pool.size receiving tt in
      let count = length-replicate s.pool.size receiving in
      ground (arith, inv.tally, inv.safe, same, rested, count, unstarted_of s.stage down)

  spawn-Inv : s.stage ≡ spawning → Inv (record s { drain = receiving; stage = unwinding })
  spawn-Inv e =
      let same = spawn-weights s.workers s.drain (inv.solo (ap alone e)) in
      ground (arith, inv.tally, inv.safe, same)

pub Step-Inv : {s t : System} → Step s t → Inv s → Inv t
unfolding send_job fail_to_send add_accepted deepen cancel_jobs close_done store_abandoned
    count_abandoned
Step-Inv (consume i e mv) inv = consume-Inv inv i e mv
Step-Inv (discard e mv) inv = discard-Inv inv e mv
Step-Inv (submit_lock job l) inv = ground (arith, inv.tally, inv.safe)
Step-Inv (submit_stopped l q) inv = ground (arith, inv.tally, inv.safe)
Step-Inv (submit_full l q r) inv = ground (arith, inv.tally, inv.safe)
Step-Inv {s} (submit_send {job} l q r) inv =
    ground (arith, inv.tally, inv.safe, length-append s.pool.jobs (job ∷ []))
Step-Inv (submit_accept l) inv = ground (arith, inv.tally, inv.safe)
Step-Inv (submit_count l) inv = ground (arith, inv.tally, inv.safe)
Step-Inv (start e) inv = start-Inv inv e
Step-Inv (start_again e) inv = inv
Step-Inv cancel_ctx inv = ground (arith, inv.tally, inv.safe)
Step-Inv (observe e d) inv = ground (arith, inv.tally, inv.safe)
Step-Inv (halt e l) inv = halt-Inv inv e l
Step-Inv (drained e f) inv = ground (arith, inv.tally, inv.safe, finished-outstanding inv f)
Step-Inv (drain_timeout e) inv = ground (arith, inv.tally, inv.safe)
Step-Inv (interrupt e) inv = ground (arith, inv.tally, inv.safe)
Step-Inv (spawn e) inv = spawn-Inv inv e
Step-Inv (unwound e d f) inv = ground (arith, inv.tally, inv.safe, finished-outstanding inv f)
Step-Inv (unwind_timeout e) inv = ground (arith, inv.tally, inv.safe)
Step-Inv (load_accepted e) inv = ground (arith, inv.tally, inv.safe)
Step-Inv (none_left e q) inv =
    ground (arith, inv.tally, inv.safe, unaccounted-outstanding inv, outstanding-lt inv)
Step-Inv (some_left e q) inv = ground (arith, inv.tally, inv.safe)
Step-Inv (store e) inv = ground (arith, inv.tally, inv.safe)
Step-Inv (report e) inv = ground (arith, inv.tally, inv.safe)
Step-Inv (cancel e) inv = ground (arith, inv.tally, inv.safe)
Step-Inv (close e) inv = ground (arith, inv.tally, inv.safe)
