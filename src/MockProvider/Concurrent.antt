-- ===== src/MockProvider/Concurrent.antt =====
-- backend/internal/mockprovider/handlers.go: requests in flight, interleaved. A handler reads the clock,
-- reads the scenario under the store's mutex, sleeps, and calls the store again with the instant that
-- it read at first; other handlers and the scenario's owner come in between.
pub mod Handled
pub mod Linear
pub mod Sound
mod Witnesses
use evictor.Prelude.{
  ◌+◌, ◌≡◌, String, ℕ, Bool, true, false, not, some, List, [], ◌∷◌, ◌++◌, get_elem?, set, ◌/◌,
  if◌then◌else◌,
}
use evictor.Http.{Writer, new_writer}
use evictor.MockProvider.Scenario.{Time, Scenario, apply_failure_header}
use evictor.MockProvider.Endpoint.{cold_start_duration}
use evictor.MockProvider.Store.{Store, new_store, get, status, invoke, set_scenario, reset}
use evictor.MockProvider.Handlers.{
  Body, status_response, invoke_response, write_json, is_warm, warm_latency_ms, new_request_id,
}

-- What the request is for: `handleGetStatus` or `handleInvoke`, which takes bytes of crypto/rand.
pub data Work : Type 0 where
  reading : Work
  invoking : (random : List ℕ) → Work

pub data Flight : Type 0 where
  called : (id : String) (work : Work) (now : Time) → Flight  -- after `clock.Now()`
  sleeping : (id : String) (work : Work) (now : Time) (scenario : Scenario) → Flight  -- in `delay`
  over : (written : Writer Body) → Flight

pub record World : Type 0 where
  pub clock : Time
  pub store : Store
  pub flights : List Flight

unfoldable pub init : Time → World
init start = record { clock = start; store = new_store; flights = [] }

-- The second half of a handler, without a fault.
unfoldable pub act : Work → String → Time → Store → Writer Body × Store
act reading id now s =
    let (ep, after) = status id now s in
    (
      write_json 200 (status_response ep.id ep.worker_state ep.worker_count ep.workers_min now)
          new_writer,
      after,
    )
act (invoking random) id now s =
    let (ep, after) = invoke id now s in
    let was_cold = not (is_warm ep.worker_state) in
    let latency = if was_cold then cold_start_duration / 1000000 else warm_latency_ms in
    (write_json 200 (invoke_response was_cold latency (new_request_id random)) new_writer, after)

abbrev pub faulty : Scenario → Time → Writer Body × Bool
faulty scenario now = apply_failure_header scenario now new_writer

-- From `delay` on.
unfoldable pub finish : Work → String → Time → Scenario → Store → Writer Body × Store
unfolding act
finish work id now scenario s =
    let acted = act work id now s in
    if (faulty scenario now).1 then ((faulty scenario now).0, s) else acted

-- `fetched` and `finished` are the two calls of the store in a handler; `configured` and `cleared` are
-- those of the store's owner.
pub data Step (w : World) : World → Type 0 where
  ticked : (d : Time) → Step w (record w { clock = w.clock + d })
  arrived :
      (id : String) (work : Work)
      → Step w (record w { flights = w.flights ++ called id work w.clock ∷ [] })
  fetched :
      (i : ℕ) {id : String} {work : Work} {now : Time}
      → get_elem? w.flights i ≡ some (called id work now)
      → Step w (record w {
        store = (get id now w.store).1;
        flights = set w.flights i (sleeping id work now (get id now w.store).0.scenario);
      })
  finished :
      (i : ℕ) {id : String} {work : Work} {now : Time} {scenario : Scenario}
      → get_elem? w.flights i ≡ some (sleeping id work now scenario)
      → Step w (record w {
        store = (finish work id now scenario w.store).1;
        flights = set w.flights i (over (finish work id now scenario w.store).0);
      })
  configured :
      (id : String) (scenario : Scenario)
      → Step w (record w { store = set_scenario id scenario w.clock w.store })
  cleared : Step w (record w { store = reset w.store })

pub data Reach (start : Time) : World → Type 0 where
  here : Reach start (init start)
  next : {w v : World} → Reach start w → Step w v → Reach start v

pub data Run (w : World) : World → Type 0 where
  stay : Run w w
  go : {v u : World} → Run w v → Step v u → Run w u
