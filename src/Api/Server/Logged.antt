-- ===== src/Api/Server/Logged.antt =====
-- Which requests to the API are logged.
use evictor.Prelude.{
  ℕ, ◌≤◌, ◌<◌, ◌≡◌, ◌≢◌, ◌↔◌, inl, inr, refl, sym, ap, subst, ◌∙◌, Bool, true, false, Option, none,
  some, List, Text, codes, text_eq, Option-cases, arith,
}
use evictor.Api.Attrs.{has_key}
use evictor.Api.Logger.{
  ok_if_unset, request_logger, fixed_attrs, is_successful_probe, attributes_of, run_calls,
}
use evictor.Api.Probes.{
  Dependencies, Route, get_healthz, get_readyz, get_metrics, new_router, readiness_handler,
}
use evictor.Api.Records.Probed.{probes, logged_iff}
use evictor.Api.Server.{Mux, IsMux, pattern, served, serve, respond, route_pattern, code_or_zero}

-- The probe succeeds: that of the database does when its ping is answered.
unfoldable pub succeeds : Dependencies → Route → Bool
succeeds dependencies get_readyz = elim dependencies.database [ none ↦ false | some b ↦ b ]
succeeds dependencies _ = true

-- A status that the log takes for a success, under the pattern of a probe.
abbrev IsUnlogged : Text → ℕ → Type 0
IsUnlogged route status =
    (has_key route probes ≡ true) × ((200 ≤ ok_if_unset status) × (ok_if_unset status < 400))

ready :
    (database : Option Bool)
    → IsUnlogged (codes "/readyz") (code_or_zero (readiness_handler database).code)
      ↔ (elim database [ none ↦ false | some b ↦ b ] ≡ true)
unfolding readiness_handler has_key text_eq
ready none = ground arith
ready (some true) = (λ _. refl, λ _. (refl, (omega arith, omega arith)))
ready (some false) = ground arith

routed :
    (dependencies : Dependencies) (r : Route)
    → IsUnlogged (pattern r) (code_or_zero (new_router dependencies r).code)
      ↔ (succeeds dependencies r ≡ true)
unfolding new_router succeeds has_key text_eq
routed dependencies get_healthz = (λ _. refl, λ _. (refl, (omega arith, omega arith)))
routed dependencies get_metrics = (λ _. refl, λ _. (refl, (omega arith, omega arith)))
routed dependencies get_readyz = ready dependencies.database

routing :
    (mux : Mux) (dependencies : Dependencies) (method path : Text) {r : Route}
    → mux.route_of method path ≡ some r
    → (route_pattern mux method path ≡ pattern r)
      × (respond mux dependencies method path ≡ new_router dependencies r)
unfolding route_pattern respond
routing mux dependencies method path e = (rw (route_pattern, e) refl, rw (respond, e) refl)

refusing :
    (mux : Mux) (dependencies : Dependencies) (method path : Text)
    → mux.route_of method path ≡ none
    → respond mux dependencies method path ≡ mux.refusal method path
unfolding respond
refusing mux dependencies method path e = rw (respond, e) refl

too_high :
    {code : ℕ} {o : Option ℕ} → o ≡ some code → 400 ≤ code → ok_if_unset (code_or_zero o) < 400 → ⊥
too_high e h k = ground (arith, ap code_or_zero e)

-- A probe that succeeds: a GET of one of the three routes, where that of /readyz needs the database
-- to answer its ping.
abbrev pub IsSuccessfulProbe : Dependencies → Text → Text → Type 0
IsSuccessfulProbe dependencies method path =
    (r : Route) × (((method ≡ codes "GET") × (path ≡ pattern r)) × (succeeds dependencies r ≡ true))

no_log_iff :
    (mux : Mux) (is_mux : IsMux mux) (dependencies : Dependencies) (method path : Text)
    → IsUnlogged
        (route_pattern mux method path)
        (code_or_zero (respond mux dependencies method path).code)
      ↔ IsSuccessfulProbe dependencies method path
no_log_iff mux is_mux dependencies method path = elim (Option-cases (mux.route_of method path)) [
  | inl none_for ↦ (
    λ h.
        let (code, (e, range)) = is_mux.refuses method path none_for in
        absurd (
          too_high (ap (λ w. w.code) (refusing mux dependencies method path none_for) ∙ e) range.0
            h.1.1),
    λ (r, ((m, p), _)).
        let found : mux.route_of method path ≡ some r = rw m (rw p (is_mux.finds r)) in
        absurd (ground (arith, sym none_for ∙ found)),
  )
  | inr (r, e) ↦
      let (same_route, same) = routing mux dependencies method path e in
      let there = routed dependencies r in
      rw same_route (
        rw same (
          λ h. (r, (is_mux.matches method path e, there.0 h)),
          λ (r2, ((m, p), up)).
              let found : mux.route_of method path ≡ some r2 = rw m (rw p (is_mux.finds r2)) in
              let again : r2 ≡ r = ground (arith, sym found ∙ e) in
              there.1 (subst (λ r. succeeds dependencies r ≡ true) again up),
        ))
]

-- The API logs every request but the successful probes, if chi routes as it documents (`IsMux`): so a
-- request that no route is for, and a readiness probe while the database does not answer, are logged.
pub serve-log :
    (mux : Mux) (is_mux : IsMux mux) (dependencies : Dependencies) (random : Option (List ℕ))
    (unix_nano : ℕ) (method path : Text) (elapsed : ℕ)
    → ((serve mux dependencies random unix_nano method path elapsed).log ≡ none)
      ↔ IsSuccessfulProbe dependencies method path
unfolding serve
serve-log mux is_mux dependencies random unix_nano method path elapsed =
    let logged =
      logged_iff random unix_nano method (λ id. served mux dependencies method path) elapsed in
    let unlogged = no_log_iff mux is_mux dependencies method path in
    (λ h. unlogged.0 (logged.0 h), λ h. logged.1 (unlogged.1 h))

not_ready :
    (database : Option Bool)
    → database ≢ some true
    → readiness_handler database ≡ readiness_handler none
unfolding readiness_handler
not_ready none h = refl
not_ready (some true) h = absurd (h refl)
not_ready (some false) h = refl

-- While the database does not answer its ping, or there is none, a GET of /readyz gets a 503, and the
-- log has it with this status, under the request id of the response.
pub serve-not_ready :
    (mux : Mux) (is_mux : IsMux mux) (dependencies : Dependencies) (random : Option (List ℕ))
    (unix_nano elapsed : ℕ)
    → dependencies.database ≢ some true
    → let done = serve mux dependencies random unix_nano (codes "GET") (codes "/readyz") elapsed in
      (done.written.code ≡ some 503)
      × (done.log
          ≡ some (record {
            request_id = done.x_request_id;
            attrs = fixed_attrs (codes "GET") (codes "/readyz") 503 elapsed;
          }))
unfolding serve request_logger is_successful_probe new_router readiness_handler attributes_of
    run_calls
serve-not_ready mux is_mux dependencies random unix_nano elapsed h =
    let (same_route, same) =
      routing mux dependencies (codes "GET") (codes "/readyz") (is_mux.finds get_readyz) in
    rw same_route (rw same (rw (not_ready dependencies.database h) (refl, refl)))
