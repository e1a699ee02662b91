-- ===== src/Storage/Schema.antt =====
-- backend/internal/migrations/000001_init.up.sql: the CHECK constraints of the tables, and the
-- constants of backend/internal/models/models.go that they are about.
pub mod Columns
pub mod Fits
pub mod Accepts
pub mod Reads
pub mod Documents
pub mod Scans
pub mod Stays
mod Witnesses
use evictor.Prelude.{
  ◌≡◌, refl, String, str_eq, Bool, true, false, not, ◌&&◌, ◌||◌, Option, none, some, List, [], ◌∷◌,
  Text, codes, text_eq, if◌then◌else◌,
}
use evictor.Storage.Sql.{Value, text, null, Row, Insert, zip, column}
use evictor.Storage.Models.{
  ApiKey, Provider, Endpoint, InferenceRequest, StatusSnapshot, api_key_kinds, provider_kinds,
  polling_healths, endpoint_statuses, price_sources, classifications, cold_start_sources,
  worker_states,
}
use evictor.Storage.Store.{or_null, api_key_insert, provider_insert}
use evictor.Storage.Endpoints.{endpoint_insert}
use evictor.Storage.Telemetry.{status_snapshot_insert}
use evictor.Storage.Requests.{inference_request_insert}

unfoldable pub is_one_of : Text → List Text → Bool
unfolding text_eq
is_one_of t [] = false
is_one_of t (u ∷ us) = text_eq t u || is_one_of t us

unfoldable pub is_null : Option Value → Bool
is_null (some null) = true
is_null none = true
is_null _ = false

-- `CHECK (name IN (...))`. A column that is not given has its default, which is in the list.
unfoldable pub is_in : Option Value → List Text → Bool
unfolding is_one_of
is_in (some (text t)) admitted = is_one_of t admitted
is_in none admitted = true
is_in (some null) admitted = true
is_in _ admitted = false

unfoldable pub check : String → Row → Bool
unfolding is_in is_null column
check table row =
    if str_eq table "api_keys"
    then is_in (column "kind" row) (codes "ingestion" ∷ codes "session" ∷ [])
    else if str_eq table "providers"
    then is_in (column "kind" row) (codes "runpod" ∷ [])
      && is_in (column "polling_health" row) (codes "ok" ∷ codes "degraded" ∷ codes "stopped" ∷ [])
    else if str_eq table "endpoints"
    then is_in (column "status" row) (codes "active" ∷ codes "deleted" ∷ [])
      && ((is_null (column "provider_id" row) || not (is_null (column "provider_endpoint_id" row)))
          && is_in (column "price_source" row) (codes "default" ∷ codes "user_confirmed" ∷ []))
    else if str_eq table "inference_requests"
    then is_in (column "classification" row) (codes "cold" ∷ codes "warm" ∷ codes "pending" ∷ [])
      && is_in (column "cold_start_source" row) (codes "reported" ∷ codes "inferred" ∷ [])
    else if str_eq table "status_snapshots"
    then is_in (column "worker_state" row)
        (codes "cold" ∷ codes "warming" ∷ codes "warm" ∷ codes "unknown" ∷ [])
    else true

-- The checks on the row of an insertion.
unfoldable pub meets_checks : Insert → Bool
unfolding check zip
meets_checks i = check i.table (zip i.columns i.values)

abbrev pub is_none {ℓ} : {A : Type ℓ} → Option A → Bool
is_none none = true
is_none (some a) = false

is_null-or_null : (o : Option Text) → is_null (some (or_null text o)) ≡ is_none o
unfolding is_null
is_null-or_null none = refl
is_null-or_null (some t) = refl

-- The schema admits of the strings of a record exactly the constants that the code declares for them,
-- and of an endpoint besides only one that has an id at its provider, if it has a provider.
pub meets_checks_lem :
    (k : ApiKey) (p : Provider) (e : Endpoint) (r : InferenceRequest) (s : StatusSnapshot)
    → (meets_checks (api_key_insert k) ≡ is_one_of k.kind api_key_kinds)
      × ((meets_checks (provider_insert p)
            ≡ (is_one_of p.kind provider_kinds && is_one_of p.polling_health polling_healths))
          × ((meets_checks (endpoint_insert e) ≡ (
                is_one_of e.status endpoint_statuses
                && ((is_none e.provider_id || not (is_none e.provider_endpoint_id))
                    && is_one_of e.price_source price_sources)))
              × ((meets_checks (inference_request_insert r) ≡ (
                    is_one_of r.classification classifications
                    && is_one_of r.cold_start_source cold_start_sources))
                  × (meets_checks (status_snapshot_insert s)
                      ≡ is_one_of s.worker_state worker_states))))
unfolding meets_checks api_key_insert provider_insert endpoint_insert inference_request_insert
    status_snapshot_insert
meets_checks_lem k p e r s = (
  refl,
  (
    refl,
    (
      rw (is_null-or_null e.provider_id) (rw (is_null-or_null e.provider_endpoint_id) refl),
      (refl, refl),
    ),
  ),
)
