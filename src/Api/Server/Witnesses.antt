-- ===== src/Api/Server/Witnesses.antt =====
-- A concrete mux, and requests to it.
use evictor.Prelude.{
  ◌≡◌, ◌↔◌, inl, inr, refl, false, Bool-cases, Option, none, some, [], Text, codes, text_eq,
  text_eq_iff, if◌then◌else◌, arith,
}
use evictor.Http.{new_writer, write_header}
use evictor.Api.Probes.{Dependencies, Route, get_healthz, get_readyz, get_metrics}
use evictor.Api.Server.{Mux, IsMux, pattern, serve}
use evictor.Api.Server.Logged.{IsSuccessfulProbe, serve-log}

abbrev by_path : Text → Option Route
by_path path =
    if text_eq path (codes "/healthz")
    then some get_healthz
    else if text_eq path (codes "/readyz")
    then some get_readyz
    else if text_eq path (codes "/metrics")
    then some get_metrics
    else none

by_method : Text → Text → Option Route
by_method method path = if text_eq method (codes "GET") then by_path path else none

mux : Mux
unfolding by_method
mux = record {
  route_of = by_method;
  refusal = λ method path. write_header 404 new_writer;
  refused_pattern = λ method path. [];
}

by_path-some : (path : Text) {r : Route} → by_path path ≡ some r → path ≡ pattern r
by_path-some path {r} h = ground (
  arith,
  h,
  text_eq_iff path (codes "/healthz"),
  text_eq_iff path (codes "/readyz"),
  text_eq_iff path (codes "/metrics"),
)

found : (r : Route) → by_method (codes "GET") (pattern r) ≡ some r
unfolding by_method text_eq
found get_healthz = refl
found get_readyz = refl
found get_metrics = refl

mux-IsMux : IsMux mux
unfolding mux text_eq
mux-IsMux = record {
  finds = λ r. found r;
  matches = λ method path {r} h. elim (Bool-cases (text_eq method (codes "GET"))) [
    | inl e ↦ ((text_eq_iff method (codes "GET")).0 e, by_path-some path (ground (arith, e, h)))
    | inr e ↦ absurd (ground (arith, e, h))
  ];
  refuses = λ method path h. (404, (refl, (omega arith, omega arith)));
}

abbrev dependencies : Dependencies
dependencies = record { database = some false; metrics = none }

serve-log_example :
    ((serve mux dependencies none 5 (codes "GET") (codes "/readyz") 0).log ≡ none)
    ↔ IsSuccessfulProbe dependencies (codes "GET") (codes "/readyz")
serve-log_example = serve-log mux mux-IsMux dependencies none 5 (codes "GET") (codes "/readyz") 0
