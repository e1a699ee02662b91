-- ===== src/MockProvider/Store.antt =====
-- backend/internal/mockprovider/state.go: the store of endpoints. Each method runs under the
-- store's mutex, and is one function from the map before it to its result and the map after it.
use evictor.Prelude.{String, Option, none, some, List, [], lookup, insert}
use evictor.MockProvider.Scenario.{Time, Scenario}
use evictor.MockProvider.Endpoint.{WorkerState, cold, warming, EndpointState, new_endpoint, advance}

abbrev pub Store : Type 0
Store = List (String × EndpointState)

abbrev pub new_store : Store
new_store = []

get_or_new : String → Time → Option EndpointState → Store → EndpointState × Store
get_or_new id now (some ep) s = (ep, s)
get_or_new id now none s = let ep = new_endpoint id now in (ep, insert id ep s)

unfoldable pub get_or_create_locked : String → Time → Store → EndpointState × Store
unfolding get_or_new new_endpoint
get_or_create_locked id now s = get_or_new id now (lookup id s) s

unfoldable pub get : String → Time → Store → EndpointState × Store
unfolding get_or_create_locked
get id now s = get_or_create_locked id now s

-- `fn` works on the endpoint through its pointer, so the map holds what it leaves.
unfoldable pub update :
    String → Time → (EndpointState → EndpointState) → Store → EndpointState × Store
unfolding get_or_create_locked
update id now fn s = let (ep, s') = get_or_create_locked id now s in (fn ep, insert id (fn ep) s')

unfoldable pub set_scenario : String → Scenario → Time → Store → Store
unfolding update
set_scenario id scenario now s = (update id now (λ ep. record ep { scenario = scenario }) s).1

unfoldable pub status : String → Time → Store → EndpointState × Store
unfolding update
status id now s = update id now (λ ep. advance ep now) s

wake_from : WorkerState → Time → EndpointState → EndpointState
wake_from cold now ep = record ep { worker_state = warming; last_transition_at = now }
wake_from _ now ep = ep

-- What `Invoke` does to the endpoint.
unfoldable pub invoke_endpoint : Time → EndpointState → EndpointState
unfolding wake_from
invoke_endpoint now ep =
    let current = advance ep now in
    record (wake_from current.worker_state now current) { last_invoke_at = now }

unfoldable pub invoke : String → Time → Store → EndpointState × Store
unfolding update invoke_endpoint
invoke id now s = update id now (invoke_endpoint now) s

unfoldable pub reset : Store → Store
reset s = []
