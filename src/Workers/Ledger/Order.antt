-- ===== src/Workers/Ledger/Order.antt =====
-- The channel is first in, first out, and the dead-letter function gets what the account says.
use evictor.Prelude.{◌≡◌, refl, ap, ◌∙◌, true, List, [], ◌∷◌, ◌++◌, map, arith}
use evictor.Workers.Pool.{
  Job, Options, Pool, new_pool, send_job, fail_to_send, add_accepted, deepen, stop_accepting,
  cancel_jobs, close_done, store_abandoned, count_abandoned,
}
use evictor.Workers.Consumer.{Role, Pc, Move, ConsumerOps}
use evictor.Workers.System.{System, Step, Reach, here, next, init}
use evictor.Workers.Ledger.{sent_by, dead_by, dead_in, dead_jobs}

-- What a move receives from the channel.
unfoldable pub taken_by : {r : Role} {p q : Pool} {pc pc' : Pc} → Move r p pc q pc' → List Job
taken_by (Move.take {job} e) = job ∷ []
taken_by _ = []

unfoldable pub taken_in : {s t : System} → Step s t → List Job
unfolding taken_by
taken_in (Step.consume i e mv) = taken_by mv
taken_in (Step.discard e mv) = taken_by mv
taken_in _ = []

-- The jobs of a run in the order in which they were sent, and in which they were received.
unfoldable pub sent_in_order : {o : Options} {s : System} → Reach o s → List Job
unfolding sent_by
sent_in_order here = []
sent_in_order (next r st) = sent_in_order r ++ sent_by st

unfoldable pub taken_in_order : {o : Options} {s : System} → Reach o s → List Job
unfolding taken_in
taken_in_order here = []
taken_in_order (next r st) = taken_in_order r ++ taken_in st

dead_letter_by :
    {r : Role} {p q : Pool} {pc pc' : Pc} (mv : Move r p pc q pc')
    → p.dead_letter ≡ true
    → (map (λ d. d.0) q.dead_letters ≡ dead_by mv ++ map (λ d. d.0) p.dead_letters)
      × (q.dead_letter ≡ p.dead_letter)
unfolding dead_by ConsumerOps
dead_letter_by (Move.sink {job} {err}) e = rw e (refl, refl)
dead_letter_by _ e = (refl, refl)

dead_letter_in :
    {s t : System} (st : Step s t)
    → s.pool.dead_letter ≡ true
    → (map (λ d. d.0) t.pool.dead_letters ≡ dead_in st ++ map (λ d. d.0) s.pool.dead_letters)
      × (t.pool.dead_letter ≡ s.pool.dead_letter)
unfolding dead_in send_job fail_to_send add_accepted deepen stop_accepting cancel_jobs close_done
    store_abandoned count_abandoned
dead_letter_in (Step.consume i e mv) h = dead_letter_by mv h
dead_letter_in (Step.discard e mv) h = dead_letter_by mv h
dead_letter_in _ h = ground arith

-- The jobs that the dead-letter function has been called with, where there is one, are those that
-- the account has as its dead letters.
pub dead_letters-dead_jobs :
    {o : Options} {s : System} (r : Reach o s)
    → o.dead_letter ≡ true
    → (map (λ d. d.0) s.pool.dead_letters ≡ dead_jobs r) × (s.pool.dead_letter ≡ true)
unfolding dead_jobs init new_pool
dead_letters-dead_jobs here h = (refl, h)
dead_letters-dead_jobs (next r st) h =
    let (same, on) = dead_letters-dead_jobs r h in
    let (more, kept) = dead_letter_in st on in (more ∙ ap (λ l. dead_in st ++ l) same, kept ∙ on)
