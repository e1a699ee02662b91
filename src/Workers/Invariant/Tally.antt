-- ===== src/Workers/Invariant/Tally.antt =====
-- A move of one consumer keeps the counters in step; the other consumers weigh what they did.
use evictor.Prelude.{ℕ, arith}
use evictor.Workers.Pool.{Pool}
use evictor.Workers.Consumer.{
  Role, Pc, Move, take, dequeue, process, count_failure, count_dead_letter, sink, settle,
  ConsumerOps,
}
use evictor.Workers.Invariant.Defs.{holding, undequeued, recorded, half_failed, owing, Shift, Tally}

pub Move-Tally :
    {r : Role} {p p' : Pool} {pc pc' : Pc} {h h' u u' n n' f f' o o' : ℕ}
    → Move r p pc p' pc'
    → Shift holding pc pc' h h'
    → Shift undequeued pc pc' u u'
    → Shift recorded pc pc' n n'
    → Shift half_failed pc pc' f f'
    → Shift owing pc pc' o o'
    → Tally p h u n f o
    → Tally p' h' u' n' f' o'
unfolding ConsumerOps
Move-Tally (take e) a b c d x t = ground arith
Move-Tally (dequeue l) a b c d x t = ground arith
Move-Tally process a b c d x t = ground arith
Move-Tally count_failure a b c d x t = ground arith
Move-Tally count_dead_letter a b c d x t = ground arith
Move-Tally sink a b c d x t = ground arith
Move-Tally settle a b c d x t = ground arith
Move-Tally _ a b c d x t = ground arith
