-- ===== src/Api/Logger.antt =====
-- backend/internal/api/middleware/request_logging.go: the middleware that logs each request.
-- The inner handler is a function of the request id: the code that it writes (0 when it writes
-- none), the route pattern that chi finds, and its calls of `AddAttrs`. The bytes of crypto/rand,
-- the wall clock and the elapsed time of the monotonic clock are arguments.
use evictor.Prelude.{
  ℕ, ◌/◌, ◌||◌, Bool, false, Option, none, some, List, [], ◌∷◌, ◌++◌, Text, codes, text_eq, hex,
  itoa, ltb, leb, ◌==◌, if◌then◌else◌,
}
use evictor.Prelude.Int.{pos}
use evictor.Api.Attrs.{
  Attr, string, int64, RequestContext, with_request_context, add_attrs, attributes, has_key,
}

-- What the inner handler does.
pub record Served : Type 0 where
  pub status : ℕ
  pub route : Text
  pub calls : List (List Attr)

-- The record "request completed" at the info level; the request id is an attribute of its logger.
pub record LogRecord : Type 0 where
  pub request_id : Text
  pub attrs : List Attr

pub record Completed : Type 0 where
  pub x_request_id : Text
  pub log : Option LogRecord

abbrev pub log_methods : List Text
log_methods =
    codes "CONNECT"
    ∷ codes "DELETE"
    ∷ codes "GET"
    ∷ codes "HEAD"
    ∷ codes "OPTIONS"
    ∷ codes "PATCH"
    ∷ codes "POST"
    ∷ codes "PUT"
    ∷ codes "TRACE"
    ∷ []

unfoldable pub log_safe_method : Text → Text
unfolding has_key
log_safe_method method = if has_key method log_methods then method else codes "OTHER"

unfoldable pub is_successful_probe : Text → ℕ → Bool
unfolding text_eq
is_successful_probe route status =
    if ltb status 200 || leb 400 status
    then false
    else text_eq route (codes "/healthz")
      || text_eq route (codes "/readyz")
      || text_eq route (codes "/metrics")

-- `none` is an error of crypto/rand.
unfoldable pub new_request_id : Option (List ℕ) → ℕ → Text
unfolding hex itoa
new_request_id none unix_nano = itoa unix_nano
new_request_id (some bytes) unix_nano = hex bytes

-- The calls of `AddAttrs` that the handler makes, in the order in which they get the mutex.
unfoldable pub run_calls : Option RequestContext → List (List Attr) → Option RequestContext
unfolding add_attrs
run_calls ctx [] = ctx
run_calls ctx (attrs ∷ calls) = run_calls (add_attrs ctx attrs) calls

unfoldable pub attributes_of : Option RequestContext → List Attr
unfolding attributes
attributes_of none = []
attributes_of (some state) = attributes state

abbrev pub ok_if_unset : ℕ → ℕ
ok_if_unset status = if status == 0 then 200 else status

abbrev pub fixed_attrs : Text → Text → ℕ → ℕ → List Attr
fixed_attrs method route status elapsed =
    record { key = codes "method"; value = string (log_safe_method method) }
    ∷ record { key = codes "route"; value = string route }
    ∷ record { key = codes "status"; value = int64 (pos status) }
    ∷ record { key = codes "duration_ms"; value = int64 (pos (elapsed / 1000000)) }
    ∷ []

unfoldable pub request_logger : Option (List ℕ) → ℕ → Text → (Text → Served) → ℕ → Completed
unfolding new_request_id run_calls is_successful_probe log_safe_method with_request_context
    attributes_of
request_logger random unix_nano method next elapsed =
    let request_id = new_request_id random unix_nano in
    let served = next request_id in
    let state = run_calls (some with_request_context) served.calls in
    let status = ok_if_unset served.status in
    record {
      x_request_id = request_id;
      log =
          if is_successful_probe served.route status
          then none
          else some (record {
            request_id = request_id;
            attrs = fixed_attrs method served.route status elapsed ++ attributes_of state;
          });
    }
