-- ===== src/App/Observed.antt =====
-- What /metrics shows of a pool that has stopped: the workers, their counters and the API together.
use evictor.Prelude.{
  ℕ, ◌+◌, ◌^◌, ◌≤◌, ◌<◌, ◌≡◌, refl, sym, ap, ◌∙◌, Bool, Option, none, some, List, Text, length,
  signed, wrap64, weigh_mono, arith,
}
use evictor.Prelude.Int.{ℤ, pos}
use evictor.Metrics.{Snapshot, snapshot}
use evictor.Workers.Pool.{Options, wait}
use evictor.Workers.Consumer.{Pc}
use evictor.Workers.System.{System, Reach}
use evictor.Workers.Invariant.{
  IsSane, Reach-Inv, holding, held, overall, owing, WeightSums, below-held, uncounted,
}
use evictor.Workers.Safety.{wait-nil, wait-outstanding}
use evictor.Workers.Ledger.{done_jobs, dead_jobs}
use evictor.Workers.Ledger.Totals.{uncounted_success, Reach-Totals, jobs_processed-lt}
use evictor.Api.Probes.{Dependencies, new_router, get_metrics, plain}
use evictor.Api.Scrape.{scrape, samples, scrape-new_router}

-- No consumer with work weighs less than its hold.
idle-overall :
    (w : Pc → ℕ) (ws : List Pc) (d : Pc)
    → ((pc : Pc) → w pc ≤ holding pc)
    → held ws d ≡ 0
    → overall w ws d ≡ 0
unfolding WeightSums
idle-overall w ws d h e = omega (arith, weigh_mono w holding h ws, h d)

success_held : (pc : Pc) → uncounted_success pc ≤ holding pc
success_held pc = ground arith

owing_held : (pc : Pc) → owing pc ≤ holding pc
owing_held pc = ground arith

-- A total that has not passed 2^63 is read as it is.
signed-total : {c n : ℕ} → c < 2 ^ 64 → wrap64 c ≡ wrap64 n → n < 2 ^ 63 → signed c ≡ pos n
signed-total h e k = ground arith

plus_none : (n : ℕ) → wrap64 (n + 0) ≡ wrap64 n
plus_none n = omega arith

same_samples :
    (c : Snapshot) {depth processed failed dead : ℤ}
    → c.queue_depth ≡ depth
    → c.jobs_processed ≡ processed
    → c.jobs_failed ≡ failed
    → c.jobs_dead_lettered ≡ dead
    → samples c
      ≡ samples (record c {
        queue_depth = depth;
        jobs_processed = processed;
        jobs_failed = failed;
        jobs_dead_lettered = dead;
      })
same_samples c e f g h = rw e (rw f (rw g (rw h refl)))

module _ {o : Options} {s : System} (sane : IsSane o) (r : Reach o s) (prefer_done ctx_over : Bool)
    (e : wait prefer_done ctx_over s.pool ≡ some none) where
  processed :
      length (done_jobs r) < 2 ^ 63
      → (snapshot s.pool.metrics).jobs_processed ≡ pos (length (done_jobs r))
  unfolding snapshot
  processed h =
      let ended = wait-nil sane r prefer_done ctx_over e in
      let none_uncounted = idle-overall uncounted_success s.workers s.drain success_held ended.1 in
      signed-total (jobs_processed-lt sane r)
        (sym (plus_none s.pool.metrics.jobs_processed)
          ∙ ap (λ n. wrap64 (s.pool.metrics.jobs_processed + n)) (sym none_uncounted)
          ∙ (Reach-Totals sane r).processed)
        h

  dead_lettered :
      length (dead_jobs r) < 2 ^ 63
      → (snapshot s.pool.metrics).jobs_dead_lettered ≡ pos (length (dead_jobs r))
  unfolding snapshot
  dead_lettered h =
      let ended = wait-nil sane r prefer_done ctx_over e in
      let none_owed = idle-overall owing s.workers s.drain owing_held ended.1 in
      signed-total (Reach-Inv sane r).tally.words.3
        ((Reach-Totals sane r).dead_lettered
          ∙ ap (λ n. wrap64 (length (dead_jobs r) + n)) none_owed
          ∙ plus_none (length (dead_jobs r)))
        h

  failed :
      length (dead_jobs r) < 2 ^ 63
      → (snapshot s.pool.metrics).jobs_failed ≡ pos (length (dead_jobs r))
  unfolding snapshot
  failed h =
      let ended = wait-nil sane r prefer_done ctx_over e in ap signed ended.4 ∙ dead_lettered h

  -- The channel is closed, so no call of `Submit` is between its send and its count.
  quiet : uncounted s.pool.lock ≡ 0
  quiet =
      let inv = Reach-Inv sane r in inv.safe.quiet (wait-outstanding inv prefer_done ctx_over e).1

  depth : (snapshot s.pool.metrics).queue_depth ≡ pos 0
  unfolding snapshot
  depth =
      let ended = wait-nil sane r prefer_done ctx_over e in
      let inv = Reach-Inv sane r in
      ground (
        arith,
        quiet,
        ended.0,
        ended.1,
        inv.tally.depth,
        inv.tally.words,
        below-held s.workers s.drain,
      )

  -- After `Wait` has returned nil, a scrape of /metrics reads what became of the jobs: no job waits,
  -- the processed ones are as many as have ended with success, and the failed ones, like the
  -- dead-lettered ones, as many as went to the dead-letter function, as long as these are fewer than
  -- 2^63. (The capacity, and the abandoned jobs of earlier, are what the counters hold.)
  pub scrape-wait_nil :
      (database : Option Bool)
      → length (done_jobs r) < 2 ^ 63
      → length (dead_jobs r) < 2 ^ 63
      → let d : Dependencies = record { database = database; metrics = some s.pool.metrics } in
        (text : Text) × (((new_router d get_metrics).body ≡ some (plain text))
          × (scrape text
              ≡ samples (record (snapshot s.pool.metrics) {
                queue_depth = pos 0;
                jobs_processed = pos (length (done_jobs r));
                jobs_failed = pos (length (dead_jobs r));
                jobs_dead_lettered = pos (length (dead_jobs r));
              })))
  scrape-wait_nil database h k =
      let (text, (body, read)) =
        scrape-new_router (record { database = database; metrics = some s.pool.metrics }) in
      (
        text,
        (
          body,
          read
              ∙ same_samples (snapshot s.pool.metrics) depth (processed h) (failed k)
                  (dead_lettered k),
        ),
      )
