-- ===== src/Api/Records/Probed.antt =====
-- Which requests the request log leaves out.
use evictor.Prelude.{
  ℕ, ◌≤◌, ◌<◌, ◌≡◌, ◌↔◌, sym, ◌∙◌, Bool, true, false, ◌||◌, Option, none, some, List, [], ◌∷◌, Text,
  codes, text_eq, if◌then◌else◌, ltb, leb, arith,
}
use evictor.Api.Attrs.{has_key}
use evictor.Api.Logger.{Served, request_logger, ok_if_unset, is_successful_probe}
use evictor.Api.Records.{served, status, done-log}

-- The probes that the orchestrator and the scraper poll.
abbrev pub probes : List Text
probes = codes "/healthz" ∷ codes "/readyz" ∷ codes "/metrics" ∷ []

three_probes :
    (a b c : Bool) (status : ℕ)
    → ((if ltb status 200 || leb 400 status then false else a || b || c) ≡ true) ↔ (
        ((if a then true else if b then true else if c then true else false) ≡ true)
        × ((200 ≤ status) × (status < 400)))
three_probes a b c status = ground arith

none_of_if : {A : Type 0} (b : Bool) (a : A) → ((if b then none else some a) ≡ none) ↔ (b ≡ true)
none_of_if b a = ground arith

probe_test :
    (route : Text) (status : ℕ)
    → (is_successful_probe route status ≡ true)
      ↔ ((has_key route probes ≡ true) × ((200 ≤ status) × (status < 400)))
unfolding is_successful_probe has_key
probe_test route status =
    three_probes (text_eq route (codes "/healthz")) (text_eq route (codes "/readyz"))
      (text_eq route (codes "/metrics")) status

-- A completed request goes without a record exactly when it is a probe that succeeded, where a
-- status that is not set stands for 200: a failed probe is always logged, and so is any other
-- request.
pub logged_iff :
    (random : Option (List ℕ)) (unix_nano : ℕ) (method : Text) (next : Text → Served) (elapsed : ℕ)
    → let done = request_logger random unix_nano method next elapsed in
      let served = next done.x_request_id in
      (done.log ≡ none) ↔ (
        (has_key served.route probes ≡ true)
        × ((200 ≤ ok_if_unset served.status) × (ok_if_unset served.status < 400)))
unfolding status
logged_iff random unix_nano method next elapsed =
    let route = (served random unix_nano method next elapsed).route in
    let code = status random unix_nano method next elapsed in
    let same = done-log random unix_nano method next elapsed in
    let test = probe_test route code in
    let no_record = none_of_if (is_successful_probe route code) _ in
    (λ e. test.0 (no_record.0 (sym same ∙ e)), λ h. same ∙ no_record.1 (test.1 h))
