-- ===== src/MockProvider/Soundness.antt =====
-- Every endpoint after any calls in order of time, and status calls that go unnoticed.
use evictor.Prelude.{
  ◌≤◌, ◌≡◌, sym, subst, ◌∙◌, String, true, false, Bool, Option, none, some, List, [], ◌∷◌, lookup,
  if◌then◌else◌, str_eq, arith,
}
use native.Mathlib.Nat.{le_refl}
use evictor.MockProvider.Scenario.{Time}
use evictor.MockProvider.Endpoint.{EndpointState, advance}
use evictor.MockProvider.Store.{Store, new_store, invoke_endpoint}
use evictor.MockProvider.Lifecycle.{
  IsSound, new_endpoint-IsSound, advance-IsSound, invoke_endpoint-IsSound,
}
use evictor.MockProvider.Traffic.{or_new}
use evictor.MockProvider.Calls.{
  Call, get_call, status_call, invoke_call, set_scenario_call, reset_call, run, respond, history,
  lookup-run,
}

-- The calls come at instants that do not fall, from `start` to `now`.
abbrev pub InOrder : Time → List (Time × Call) → Time → Type 0
InOrder start [] now = start ≤ now
InOrder start ((t, c) ∷ calls) now = (start ≤ t) × InOrder t calls now

abbrev pub AllSound : Time → Option EndpointState → Type 0
AllSound now none = Unit
AllSound now (some ep) = IsSound now ep

or_new-IsSound :
    (id : String) {early : Time} (now : Time) (o : Option EndpointState)
    → early ≤ now
    → AllSound early o
    → IsSound now (or_new id now o)
or_new-IsSound id now none h v = new_endpoint-IsSound id now
or_new-IsSound id now (some ep) h v = ground arith

later-AllSound :
    {early : Time} (now : Time) (o : Option EndpointState)
    → early ≤ now
    → AllSound early o
    → AllSound now o
later-AllSound now none h v = tt
later-AllSound now (some ep) h v = ground arith

pub hit_or_miss :
    (hit : Bool) {now : Time} (ep : EndpointState) (o : Option EndpointState)
    → IsSound now ep
    → AllSound now o
    → AllSound now (if hit then some ep else o)
hit_or_miss true ep o v w = v
hit_or_miss false ep o v w = w

respond-AllSound :
    (j : String) (c : Call) {early : Time} (now : Time) (o : Option EndpointState)
    → early ≤ now
    → AllSound early o
    → AllSound now (respond j c now o)
respond-AllSound j (get_call id) now o h v =
    hit_or_miss (str_eq id j) (or_new id now o) o (or_new-IsSound id now o h v)
      (later-AllSound now o h v)
respond-AllSound j (status_call id) now o h v =
    hit_or_miss (str_eq id j) (advance (or_new id now o) now) o
      (advance-IsSound (or_new id now o) now (le_refl now) (or_new-IsSound id now o h v))
      (later-AllSound now o h v)
respond-AllSound j (invoke_call id) now o h v =
    hit_or_miss (str_eq id j) (invoke_endpoint now (or_new id now o)) o
      (invoke_endpoint-IsSound (or_new id now o) now (le_refl now) (or_new-IsSound id now o h v))
      (later-AllSound now o h v)
respond-AllSound j (set_scenario_call id scenario) now o h v =
    let sound = or_new-IsSound id now o h v in
    hit_or_miss (str_eq id j) (record (or_new id now o) { scenario = scenario }) o (ground arith)
      (later-AllSound now o h v)
respond-AllSound j reset_call now o h v = tt

history-AllSound :
    (j : String) (calls : List (Time × Call)) (start now : Time) (o : Option EndpointState)
    → InOrder start calls now
    → AllSound start o
    → AllSound now (history j calls o)
history-AllSound j [] start now none h v = tt
history-AllSound j [] start now (some ep) h v = ground arith
history-AllSound j ((t, c) ∷ calls) start now o (h, hs) v =
    history-AllSound j calls t now (respond j c t o) hs (respond-AllSound j c t o h v)

-- After any calls in order of time, on a new store, every endpoint counts one worker exactly while
-- it is warm, and has changed and been invoked in the past.
pub run-IsSound :
    (j : String) (calls : List (Time × Call)) (start now : Time) {ep : EndpointState}
    → InOrder start calls now
    → lookup j (run calls new_store) ≡ some ep
    → IsSound now ep
unfolding lookup
run-IsSound j calls start now h e =
    subst (AllSound now) (sym (lookup-run j calls new_store) ∙ e)
      (history-AllSound j calls start now none h tt)
