-- ===== src/Api/Server.antt =====
-- backend/internal/api/handlers/router.go: the router with its middleware, from a request to its
-- response and its log record. chi's matching of a request against the routes is a parameter.
pub mod Logged
mod Witnesses
use evictor.Prelude.{ℕ, ◌≤◌, ◌<◌, ◌≡◌, Option, none, some, List, [], Text, codes}
use evictor.Http.{Writer}
use evictor.Api.Logger.{Served, LogRecord, request_logger}
use evictor.Api.Probes.{Body, Dependencies, Route, get_healthz, get_readyz, get_metrics, new_router}

-- The patterns that the routes are registered with, each for GET.
abbrev pub pattern : Route → Text
pattern get_healthz = codes "/healthz"
pattern get_readyz = codes "/readyz"
pattern get_metrics = codes "/metrics"

-- A request that no route is for has an answer of chi's, and a pattern of what did match.
pub record Mux : Type 0 where
  pub route_of : (method path : Text) → Option Route
  pub refusal : (method path : Text) → Writer Body
  pub refused_pattern : (method path : Text) → Text

-- What chi documents: a route without parameters is for its own path and method, and any other
-- request is answered by 404 or 405.
pub record IsMux (mux : Mux) : Type 0 where
  pub finds : (r : Route) → mux.route_of (codes "GET") (pattern r) ≡ some r
  pub matches :
      (method path : Text) {r : Route}
      → mux.route_of method path ≡ some r
      → (method ≡ codes "GET") × (path ≡ pattern r)
  pub refuses :
      (method path : Text)
      → mux.route_of method path ≡ none
      → (code : ℕ) × (((mux.refusal method path).code ≡ some code) × ((400 ≤ code) × (code < 500)))

abbrev pub code_or_zero : Option ℕ → ℕ
code_or_zero none = 0
code_or_zero (some code) = code

unfoldable pub respond : Mux → Dependencies → Text → Text → Writer Body
unfolding new_router
respond mux dependencies method path = elim (mux.route_of method path) [
  | none ↦ mux.refusal method path
  | some r ↦ new_router dependencies r
]

unfoldable pub route_pattern : Mux → Text → Text → Text
route_pattern mux method path = elim (mux.route_of method path) [
  | none ↦ mux.refused_pattern method path
  | some r ↦ pattern r
]

pub record Exchange : Type 0 where
  pub x_request_id : Text
  pub written : Writer Body
  pub log : Option LogRecord

-- `router.Use(middleware.RequestLogger(...))` puts the middleware around all of the router, its
-- refusals included. No handler adds attributes of its own.
abbrev pub served : Mux → Dependencies → Text → Text → Served
served mux dependencies method path = record {
  status = code_or_zero (respond mux dependencies method path).code;
  route = route_pattern mux method path;
  calls = [];
}

unfoldable pub serve :
    Mux → Dependencies → Option (List ℕ) → ℕ → (method path : Text) → (elapsed : ℕ) → Exchange
unfolding respond route_pattern request_logger
serve mux dependencies random unix_nano method path elapsed =
    let completed =
      request_logger random unix_nano method (λ id. served mux dependencies method path) elapsed in
    record {
      x_request_id = completed.x_request_id;
      written = respond mux dependencies method path;
      log = completed.log;
    }
