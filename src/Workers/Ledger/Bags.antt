-- ===== src/Workers/Ledger/Bags.antt =====
-- The pool as its callers see it: a bag of jobs, whatever the channel and the goroutines do with it.
use mathlib.Core.Quot
use mathlib.Core.Quot.{Quot, Quot-set}
use evictor.Prelude.{◌≡◌, List, [], ◌∷◌, ◌++◌, weigh, map, concat, arith}
use evictor.Workers.Pool.{Job, Pool}
use evictor.Workers.Consumer.{Pc, got, dequeued, trying, running, erred, failing, failed, sinking}
use evictor.Workers.System.{System}
use evictor.Workers.Ledger.{count}

-- The same jobs, as often.
abbrev pub SameJobs : List Job → List Job → Type 0
SameJobs xs ys = (j : Job) → count j xs ≡ count j ys

abbrev pub Bag : Type 0
Bag = Quot SameJobs

pub SameJobs-cons : (x : Job) (xs ys : List Job) → SameJobs xs ys → SameJobs (x ∷ xs) (x ∷ ys)
unfolding weigh
SameJobs-cons x xs ys h j = omega (arith, h j)

unfoldable pub put : Job → Bag → Bag
put x =
    Quot.lift Quot-set (λ xs. Quot.mk (x ∷ xs)) (λ xs ys h. Quot.sound (SameJobs-cons x xs ys h))

abbrev pub carried : Pc → List Job
carried (got job) = job ∷ []
carried (dequeued job) = job ∷ []
carried (trying job _ _) = job ∷ []
carried (running job _) = job ∷ []
carried (erred job _ _) = job ∷ []
carried (failing job _) = job ∷ []
carried (failed job _) = job ∷ []
carried (sinking job _) = job ∷ []
carried _ = []

unfoldable pub in_hand : System → List Job
in_hand s = s.pool.jobs ++ (concat (map carried s.workers) ++ carried s.drain)

-- The jobs that have not ended, without order or place.
unfoldable pub bag : System → Bag
unfolding in_hand
bag s = Quot.mk (in_hand s)

-- What the pool promises: a job is put in, or one is taken out, or nothing happens.
pub data BagStep (b c : Bag) : Type 0 where
  keeps : c ≡ b → BagStep b c
  submits : (job : Job) → c ≡ put job b → BagStep b c
  ends : (job : Job) → b ≡ put job c → BagStep b c

-- A step puts in one job, or ends one, or neither.
data Kind (put_in done dead : List Job) : Type 0 where
  none : put_in ≡ [] → done ++ dead ≡ [] → Kind put_in done dead
  one_in : (job : Job) → put_in ≡ job ∷ [] → done ++ dead ≡ [] → Kind put_in done dead
  one_out : (job : Job) → put_in ≡ [] → done ++ dead ≡ job ∷ [] → Kind put_in done dead
