-- ===== src/Workers/Invariant/Moves.antt =====
-- What else a move of one consumer keeps: its own variables, the dead letters, the stop condition,
-- and everything in the pool that is not the consumer's.
use evictor.Prelude.{
  ℕ, ◌+◌, ◌≤◌, ◌<◌, ◌≡◌, refl, true, some, replicate, get_elem?, zero, suc, length, All, arith,
}
use evictor.Workers.Pool.{Pool, ctx_err}
use evictor.Workers.Consumer.{
  Role, drainer, Pc, off, Move, take, finish, discard, try, give_up, sink, ConsumerOps,
}
use evictor.Workers.Invariant.Defs.{holding, over, live, Shift, IsSafe, PcOk, HasError, Emptied}

-- The fields that no consumer writes.
pub record Same (p p' : Pool) : Type 0 where
  pub capacity : p'.capacity ≡ p.capacity
  pub size : p'.size ≡ p.size
  pub max_attempts : p'.max_attempts ≡ p.max_attempts
  pub started : p'.started ≡ p.started
  pub done : p'.done ≡ p.done
  pub lock : p'.lock ≡ p.lock
  pub stopping : p'.stopping ≡ p.stopping
  pub cancelled : p'.cancelled ≡ p.cancelled
  pub accepted : p'.accepted ≡ p.accepted
  pub abandoned : p'.abandoned ≡ p.abandoned

pub Move-Same : {r : Role} {p p' : Pool} {pc pc' : Pc} → Move r p pc p' pc' → Same p p'
unfolding ConsumerOps
Move-Same (take e) = ground arith
Move-Same _ = ground arith

pub Move-IsSafe : {r : Role} {p p' : Pool} {pc pc' : Pc} → Move r p pc p' pc' → IsSafe p → IsSafe p'
unfolding ConsumerOps
Move-IsSafe (take e) t = ground arith
Move-IsSafe _ t = ground arith

-- A discarded job has the error of a cancelled context, and the loop ends with some error.
pub Move-PcOk :
    {r : Role} {p p' : Pool} {pc pc' : Pc}
    → Move r p pc p' pc'
    → 0 < p.max_attempts
    → (r ≡ drainer → p.cancelled ≡ true)
    → PcOk p.max_attempts pc
    → PcOk p.max_attempts pc'
unfolding ctx_err
Move-PcOk (discard e) m c t = ground (arith, c e)
Move-PcOk (try g) m c t = ground arith
Move-PcOk (give_up g) m c t = ground arith
Move-PcOk _ m c t = ground arith

pub Move-letters :
    {r : Role} {p p' : Pool} {pc pc' : Pc}
    → Move r p pc p' pc'
    → PcOk p.max_attempts pc
    → All HasError p.dead_letters
    → All HasError p'.dead_letters
unfolding ConsumerOps
Move-letters sink t h = ground arith
Move-letters _ t h = ground arith

pub Move-Emptied :
    {r : Role} {p p' : Pool} {pc pc' : Pc} {v v' : ℕ}
    → Move r p pc p' pc'
    → Shift over pc pc' v v'
    → (0 < v → Emptied p)
    → 0 < v'
    → Emptied p'
unfolding ConsumerOps
Move-Emptied (take e) a h k = ground arith
Move-Emptied (finish e c) a h k = ground arith
Move-Emptied _ a h k = ground arith

-- A consumer takes in no job, so what is outstanding only falls.
pub outstanding-le :
    {r : Role} {p p' : Pool} {pc pc' : Pc} {h h' : ℕ}
    → Move r p pc p' pc'
    → Shift holding pc pc' h h'
    → length p'.jobs + h' ≤ length p.jobs + h
unfolding ConsumerOps
outstanding-le (take e) a = ground arith
outstanding-le _ a = ground arith

pub Move-live :
    {r : Role} {p p' : Pool} {pc pc' : Pc} → Move r p pc p' pc' → (live pc ≡ 1) × (live pc' ≡ 1)
Move-live (take e) = (refl, refl)
Move-live _ = (refl, refl)

pub get_elem?-replicate_off :
    (n i : ℕ) {pc : Pc} → get_elem? (replicate n off) i ≡ some pc → live pc ≡ 0
get_elem?-replicate_off zero i e = cc
get_elem?-replicate_off (suc n) zero e = ground arith
get_elem?-replicate_off (suc n) (suc i) e = get_elem?-replicate_off n i e
