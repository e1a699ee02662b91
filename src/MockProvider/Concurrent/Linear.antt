-- ===== src/MockProvider/Concurrent/Linear.antt =====
-- Any interleaving of the handlers is a sequence of calls of the store.
use evictor.Prelude.{
  ◌≡◌, refl, sym, ap, ◌∙◌, String, Bool-cases, none, List, [], ◌∷◌, ◌++◌, lookup, inl, inr,
  if◌then◌else◌,
}
use evictor.MockProvider.Scenario.{Time, Scenario}
use evictor.MockProvider.Store.{Store, new_store}
use evictor.MockProvider.Calls.{
  Call, get_call, status_call, invoke_call, set_scenario_call, reset_call, call, run, history,
  lookup-run,
}
use evictor.MockProvider.Concurrent.{
  Work, reading, invoking, World, act, finish, faulty, Step, ticked, arrived, fetched, finished,
  configured, cleared, Reach, here, next, init,
}

abbrev pub work_call : Work → String → Call
work_call reading id = status_call id
work_call (invoking random) id = invoke_call id

-- The call of the store in a step, with the instant that it is given.
unfoldable pub calls_in : {w v : World} → Step w v → List (Time × Call)
calls_in (ticked d) = []
calls_in (arrived id work) = []
calls_in (fetched i {id} {work} {now} e) = (now, get_call id) ∷ []
calls_in (finished i {id} {work} {now} {scenario} e) =
    if (faulty scenario now).1 then [] else (now, work_call work id) ∷ []
calls_in {w} (configured id scenario) = (w.clock, set_scenario_call id scenario) ∷ []
calls_in {w} cleared = (w.clock, reset_call) ∷ []

-- The calls of a run, in their order.
unfoldable pub calls_of : {start : Time} {w : World} → Reach start w → List (Time × Call)
unfolding calls_in
calls_of here = []
calls_of (next r st) = calls_of r ++ calls_in st

run-append : (xs ys : List (Time × Call)) (s : Store) → run (xs ++ ys) s ≡ run ys (run xs s)
run-append [] ys s = refl
run-append ((now, c) ∷ xs) ys s = run-append xs ys (call c now s)

act-call :
    (work : Work) (id : String) (now : Time) (s : Store)
    → (act work id now s).1 ≡ call (work_call work id) now s
unfolding act
act-call reading id now s = refl
act-call (invoking random) id now s = refl

finish-run :
    (work : Work) (id : String) (now : Time) (scenario : Scenario) (s : Store)
    → (finish work id now scenario s).1
      ≡ run (if (faulty scenario now).1 then [] else (now, work_call work id) ∷ []) s
unfolding finish
finish-run work id now scenario s = elim (Bool-cases (faulty scenario now).1) [
  | inl e ↦ rw e refl
  | inr e ↦ rw e (act-call work id now s)
]

pub Step-run : {w v : World} (st : Step w v) → v.store ≡ run (calls_in st) w.store
unfolding calls_in
Step-run (ticked d) = refl
Step-run (arrived id work) = refl
Step-run (fetched i e) = refl
Step-run {w} (finished i {id} {work} {now} {scenario} e) = finish-run work id now scenario w.store
Step-run (configured id scenario) = refl
Step-run cleared = refl

pub Reach-run :
    {start : Time} {w : World} (r : Reach start w) → w.store ≡ run (calls_of r) new_store
unfolding calls_of init
Reach-run here = refl
Reach-run (next r st) =
    Step-run st
    ∙ ap (run (calls_in st)) (Reach-run r)
    ∙ sym (run-append (calls_of r) (calls_in st) new_store)

-- However the handlers interleave, what the store holds for an endpoint is what this endpoint's own
-- machine reaches from the calls that name it and the resets, in the order in which they got the
-- mutex: requests for other endpoints make no difference.
pub Reach-history :
    (j : String) {start : Time} {w : World} (r : Reach start w)
    → lookup j w.store ≡ history j (calls_of r) none
unfolding lookup
Reach-history j r = ap (lookup j) (Reach-run r) ∙ lookup-run j (calls_of r) new_store
