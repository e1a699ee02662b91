-- ===== src/MockProvider/Concurrent/Sound.antt =====
-- Every endpoint while handlers act with instants that are no longer the clock's.
use evictor.Prelude.{
  ◌+◌, ◌≤◌, ◌≡◌, sym, subst, String, Bool-cases, Option, none, some, List, [], ◌∷◌, lookup, str_eq,
  All, All-append, All-set, All-get, inl, inr, arith,
}
use native.Mathlib.Nat.{le_refl}
use evictor.MockProvider.Scenario.{Time}
use evictor.MockProvider.Endpoint.{EndpointState, new_endpoint, advance}
use evictor.MockProvider.Store.{invoke_endpoint}
use evictor.MockProvider.Lifecycle.{IsSound}
use evictor.MockProvider.Traffic.{or_new}
use evictor.MockProvider.Calls.{
  Call, get_call, status_call, invoke_call, set_scenario_call, reset_call, respond, history,
  lookup-run,
}
use evictor.MockProvider.Soundness.{AllSound, hit_or_miss}
use evictor.MockProvider.Concurrent.{
  Flight, called, sleeping, over, World, faulty, Step, ticked, arrived, fetched, finished,
  configured, cleared, Reach, here, next, init,
}
use evictor.MockProvider.Concurrent.Linear.{calls_in, Step-run}

new-IsSound :
    (id : String) (now clock : Time) (o : Option EndpointState)
    → now ≤ clock
    → AllSound clock o
    → IsSound clock (or_new id now o)
unfolding new_endpoint
new-IsSound id now clock none h v = ground arith
new-IsSound id now clock (some ep) h v = v

advance-stale :
    (ep : EndpointState) (now clock : Time)
    → now ≤ clock
    → IsSound clock ep
    → IsSound clock (advance ep now)
unfolding advance
advance-stale ep now clock h v = ground arith

invoke_endpoint-stale :
    (ep : EndpointState) (now clock : Time)
    → now ≤ clock
    → IsSound clock ep
    → IsSound clock (invoke_endpoint now ep)
unfolding invoke_endpoint advance
invoke_endpoint-stale ep now clock h v = ground arith

respond-stale :
    (j : String) (c : Call) (now clock : Time) (o : Option EndpointState)
    → now ≤ clock
    → AllSound clock o
    → AllSound clock (respond j c now o)
respond-stale j (get_call id) now clock o h v =
    hit_or_miss (str_eq id j) (or_new id now o) o (new-IsSound id now clock o h v) v
respond-stale j (status_call id) now clock o h v =
    hit_or_miss (str_eq id j) (advance (or_new id now o) now) o
      (advance-stale (or_new id now o) now clock h (new-IsSound id now clock o h v)) v
respond-stale j (invoke_call id) now clock o h v =
    hit_or_miss (str_eq id j) (invoke_endpoint now (or_new id now o)) o
      (invoke_endpoint-stale (or_new id now o) now clock h (new-IsSound id now clock o h v)) v
respond-stale j (set_scenario_call id scenario) now clock o h v =
    let sound = new-IsSound id now clock o h v in
    hit_or_miss (str_eq id j) (record (or_new id now o) { scenario = scenario }) o (ground arith) v
respond-stale j reset_call now clock o h v = tt

abbrev IsPast : Time → Time × Call → Type 0
IsPast clock c = c.0 ≤ clock

history-stale :
    (j : String) (calls : List (Time × Call)) (clock : Time) (o : Option EndpointState)
    → All (IsPast clock) calls
    → AllSound clock o
    → AllSound clock (history j calls o)
history-stale j [] clock o h v = v
history-stale j ((now, c) ∷ calls) clock o (h, hs) v =
    history-stale j calls clock (respond j c now o) hs (respond-stale j c now clock o h v)

-- The handler has read the clock in the past.
abbrev FlightOk : Time → Flight → Type 0
FlightOk clock (called id work now) = now ≤ clock
FlightOk clock (sleeping id work now scenario) = now ≤ clock
FlightOk clock (over written) = Unit

record WorldOk (w : World) : Type 0 where
  flights : All (FlightOk w.clock) w.flights
  store : (j : String) → AllSound w.clock (lookup j w.store)

later-FlightOk : (clock d : Time) (f : Flight) → FlightOk clock f → FlightOk (clock + d) f
later-FlightOk clock d f h = ground arith

later-flights :
    (clock d : Time) (fs : List Flight) → All (FlightOk clock) fs → All (FlightOk (clock + d)) fs
later-flights clock d [] h = tt
later-flights clock d (f ∷ fs) (p, h) = (later-FlightOk clock d f p, later-flights clock d fs h)

later-AllSound :
    (clock d : Time) (o : Option EndpointState) → AllSound clock o → AllSound (clock + d) o
later-AllSound clock d none v = tt
later-AllSound clock d (some ep) v = ground arith

-- The instants of a step's calls are those of its handler, or the clock's.
calls_in-IsPast : {w v : World} → WorldOk w → (st : Step w v) → All (IsPast w.clock) (calls_in st)
unfolding calls_in
calls_in-IsPast ok (ticked d) = tt
calls_in-IsPast ok (arrived id work) = tt
calls_in-IsPast {w} ok (fetched i e) = (All-get (FlightOk w.clock) w.flights i ok.flights e, tt)
calls_in-IsPast {w} ok (finished i {id} {work} {now} {scenario} e) =
    let past = All-get (FlightOk w.clock) w.flights i ok.flights e in
    elim (Bool-cases (faulty scenario now).1) [
      | inl h ↦ rw (All, h) tt
      | inr h ↦ rw (All, h) (past, tt)
    ]
calls_in-IsPast {w} ok (configured id scenario) = (le_refl w.clock, tt)
calls_in-IsPast {w} ok cleared = (le_refl w.clock, tt)

after_calls :
    {w v : World} (j : String) → WorldOk w → (st : Step w v) → AllSound w.clock (lookup j v.store)
after_calls {w} {v} j ok st =
    subst (λ s. AllSound w.clock (lookup j s)) (sym (Step-run st))
      (subst (AllSound w.clock) (sym (lookup-run j (calls_in st) w.store)) (
        history-stale j (calls_in st) w.clock (lookup j w.store) (calls_in-IsPast ok st)
          (ok.store j)))

Step-WorldOk : {w v : World} → WorldOk w → Step w v → WorldOk v
Step-WorldOk {w} ok (ticked d) = record {
  flights = later-flights w.clock d w.flights ok.flights;
  store = λ j. later-AllSound w.clock d (lookup j w.store) (ok.store j);
}
Step-WorldOk {w} ok (arrived id work) = record {
  flights =
      All-append (FlightOk w.clock) w.flights (called id work w.clock ∷ []) ok.flights
        (le_refl w.clock, tt);
  store = ok.store;
}
Step-WorldOk {w} ok (fetched i e) = record {
  flights =
      All-set (FlightOk w.clock) w.flights i _ ok.flights
        (All-get (FlightOk w.clock) w.flights i ok.flights e);
  store = λ j. after_calls j ok (fetched i e);
}
Step-WorldOk {w} ok (finished i e) = record {
  flights = All-set (FlightOk w.clock) w.flights i _ ok.flights tt;
  store = λ j. after_calls j ok (finished i e);
}
Step-WorldOk {w} ok (configured id scenario) = record {
  flights = ok.flights;
  store = λ j. after_calls j ok (configured id scenario);
}
Step-WorldOk {w} ok cleared = record { flights = ok.flights; store = λ j. after_calls j ok cleared }

Reach-WorldOk : {start : Time} {w : World} → Reach start w → WorldOk w
unfolding init lookup
Reach-WorldOk here = record { flights = tt; store = λ j. tt }
Reach-WorldOk (next r st) = Step-WorldOk (Reach-WorldOk r) st

-- However the handlers interleave, and although one that slept calls the store with an instant that is
-- long past, every endpoint counts one worker exactly while it is warm, keeps none (`WorkersMin` is
-- 0), and has no transition or invocation that is dated after the clock.
pub Reach-IsSound :
    (j : String) {start : Time} {w : World} {ep : EndpointState}
    → Reach start w
    → lookup j w.store ≡ some ep
    → IsSound w.clock ep
Reach-IsSound j {w = w} r e = subst (AllSound w.clock) e ((Reach-WorldOk r).store j)
