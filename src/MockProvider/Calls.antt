-- ===== src/MockProvider/Calls.antt =====
-- Calls of the store's methods in any order: the store behaves as one machine for each id.
use evictor.Prelude.{
  ◌≡◌, inl, inr, refl, ap, ◌∙◌, String, Option, none, some, List, [], ◌∷◌, lookup, if◌then◌else◌,
  Bool-cases, str_eq, eq_iff,
}
use evictor.MockProvider.Scenario.{Time, Scenario}
use evictor.MockProvider.Endpoint.{EndpointState, advance}
use evictor.MockProvider.Store.{Store, get, set_scenario, status, invoke, invoke_endpoint, reset}
use evictor.MockProvider.Traffic.{or_new, found, lookup-get, lookup-update}

pub data Call : Type 0 where
  get_call status_call invoke_call : (id : String) → Call
  set_scenario_call : (id : String) (scenario : Scenario) → Call
  reset_call : Call

abbrev pub call : Call → Time → Store → Store
call (get_call id) now s = (get id now s).1
call (status_call id) now s = (status id now s).1
call (invoke_call id) now s = (invoke id now s).1
call (set_scenario_call id scenario) now s = set_scenario id scenario now s
call reset_call now s = reset s

abbrev pub run : List (Time × Call) → Store → Store
run [] s = s
run ((now, c) ∷ calls) s = run calls (call c now s)

-- The machine of the endpoint `j`: a call of another id passes it by.
abbrev pub respond : String → Call → Time → Option EndpointState → Option EndpointState
respond j (get_call id) now o = if str_eq id j then some (or_new id now o) else o
respond j (status_call id) now o = if str_eq id j then some (advance (or_new id now o) now) else o
respond j (invoke_call id) now o =
    if str_eq id j then some (invoke_endpoint now (or_new id now o)) else o
respond j (set_scenario_call id scenario) now o =
    if str_eq id j then some (record (or_new id now o) { scenario = scenario }) else o
respond j reset_call now o = none

abbrev pub history : String → List (Time × Call) → Option EndpointState → Option EndpointState
history j [] o = o
history j ((now, c) ∷ calls) o = history j calls (respond j c now o)

-- With a hit the two ids are one, so the store is looked up at the same place.
same_place :
    (id j : String) (now : Time) (f : EndpointState → EndpointState) (s : Store)
    → (if str_eq id j then some (f (found id now s)) else lookup j s)
      ≡ (if str_eq id j then some (f (or_new id now (lookup j s))) else lookup j s)
same_place id j now f s = elim (Bool-cases (str_eq id j)) [
  | inl e ↦ rw e (ap (λ k. some (f (or_new id now (lookup k s)))) ((eq_iff id j).0 e))
  | inr e ↦ rw e
]

lookup-call :
    (j : String) (c : Call) (now : Time) (s : Store)
    → lookup j (call c now s) ≡ respond j c now (lookup j s)
unfolding status invoke set_scenario reset lookup
lookup-call j (get_call id) now s = (lookup-get id j now s).1 ∙ same_place id j now (λ ep. ep) s
lookup-call j (status_call id) now s =
    (lookup-update id j now (λ ep. advance ep now) s).1
    ∙ same_place id j now (λ ep. advance ep now) s
lookup-call j (invoke_call id) now s =
    (lookup-update id j now (invoke_endpoint now) s).1 ∙ same_place id j now (invoke_endpoint now) s
lookup-call j (set_scenario_call id scenario) now s =
    (lookup-update id j now (λ ep. record ep { scenario = scenario }) s).1
    ∙ same_place id j now (λ ep. record ep { scenario = scenario }) s
lookup-call j reset_call now s = refl

-- Whatever the calls, in whatever order, the store holds for each id what that id's own machine
-- reaches from the calls that name it and the resets.
pub lookup-run :
    (j : String) (calls : List (Time × Call)) (s : Store)
    → lookup j (run calls s) ≡ history j calls (lookup j s)
lookup-run j [] s = refl
lookup-run j ((now, c) ∷ calls) s =
    lookup-run j calls (call c now s) ∙ ap (history j calls) (lookup-call j c now s)
