-- ===== src/Storage/Schema/Fits.antt =====
-- The insertions of backend/internal/storage/store.go fit the columns of
-- backend/internal/migrations/000001_init.up.sql.
use evictor.Prelude.{◌≡◌, refl, ℕ, String, Bool, true, false, ◌&&◌, Option, none, some, Text}
use evictor.Prelude.Int.{ℤ}
use evictor.Storage.Sql.{Value, text, integer, instant, boolean}
use evictor.Storage.Models.{
  Project, ApiKey, Provider, Endpoint, InferenceRequest, StatusSnapshot, PricingDefault, WarmMedian,
}
use evictor.Storage.Store.{or_null, project_insert, api_key_insert, provider_insert}
use evictor.Storage.Endpoints.{endpoint_insert}
use evictor.Storage.Telemetry.{status_snapshot_insert, pricing_default_insert, warm_median_upsert}
use evictor.Storage.Requests.{inference_request_insert}
use evictor.Storage.Schema.Columns.{
  ColumnType, string_type, bigint, int4, timestamptz, bool_type, may_be_null, is_int4, takes, fits,
}

or_null-taken :
    {A : Type 0} (name : String) (type : ColumnType) (wrap : A → Value) (o : Option A)
    → ((a : A) → takes (may_be_null name type) (some (wrap a)) ≡ true)
    → takes (may_be_null name type) (some (or_null wrap o)) ≡ true
unfolding takes
or_null-taken name type wrap none wrap-taken = refl
or_null-taken name type wrap (some a) wrap-taken = wrap-taken a

text-taken :
    (name : String) (o : Option Text)
    → takes (may_be_null name string_type) (some (or_null text o)) ≡ true
unfolding takes
text-taken name o = or_null-taken name string_type text o (λ t. refl)

integer-taken :
    (name : String) (o : Option ℤ)
    → takes (may_be_null name bigint) (some (or_null integer o)) ≡ true
unfolding takes
integer-taken name o = or_null-taken name bigint integer o (λ n. refl)

instant-taken :
    (name : String) (o : Option ℕ)
    → takes (may_be_null name timestamptz) (some (or_null instant o)) ≡ true
unfolding takes
instant-taken name o = or_null-taken name timestamptz instant o (λ t. refl)

boolean-taken :
    (name : String) (o : Option Bool)
    → takes (may_be_null name bool_type) (some (or_null boolean o)) ≡ true
unfolding takes
boolean-taken name o = or_null-taken name bool_type boolean o (λ b. refl)

api_key_insert-fits : (k : ApiKey) → fits (api_key_insert k) ≡ true
unfolding fits api_key_insert
api_key_insert-fits k = rw (instant-taken "expires_at" k.expires_at)

endpoint_insert-fits : (e : Endpoint) → fits (endpoint_insert e) ≡ true
unfolding fits endpoint_insert
endpoint_insert-fits e = rw (
  text-taken "provider_id" e.provider_id,
  text-taken "provider_endpoint_id" e.provider_endpoint_id,
  integer-taken "hourly_rate_cents" e.hourly_rate_cents,
  integer-taken "cold_start_threshold_ms" e.cold_start_threshold_ms,
)

inference_request_insert-fits : (r : InferenceRequest) → fits (inference_request_insert r) ≡ true
unfolding fits inference_request_insert
inference_request_insert-fits r = rw (
  boolean-taken "was_cold_start" r.was_cold_start,
  text-taken "provider_request_id" r.provider_request_id,
)

unfoldable pub is_count : Option ℤ → Bool
unfolding is_int4
is_count none = true
is_count (some n) = is_int4 n

count-taken :
    (o : Option ℤ) → takes (may_be_null "worker_count" int4) (some (or_null integer o)) ≡ is_count o
unfolding takes is_count
count-taken none = refl
count-taken (some n) = refl

pub and_true : (b : Bool) → (b && true) ≡ b
and_true true = refl
and_true false = refl

status_snapshot_insert-fits :
    (s : StatusSnapshot) → fits (status_snapshot_insert s) ≡ is_count s.worker_count
unfolding fits status_snapshot_insert
status_snapshot_insert-fits s = rw (count-taken s.worker_count, and_true)

warm_median_upsert-fits : (m : WarmMedian) → fits (warm_median_upsert m) ≡ is_int4 m.sample_count
unfolding fits warm_median_upsert
warm_median_upsert-fits m = and_true (is_int4 m.sample_count)

-- Each insertion of the store names the columns of its table, leaves out only columns that have a
-- default, and gives the others values of their types, null only where the column admits it. The only
-- exceptions are a worker count and a sample count that have more than 32 bits.
pub fits_lem :
    (p : Project) (k : ApiKey) (v : Provider) (e : Endpoint) (r : InferenceRequest)
    (s : StatusSnapshot) (d : PricingDefault) (m : WarmMedian)
    → ((fits (project_insert p) ≡ true)
        × ((fits (api_key_insert k) ≡ true)
            × ((fits (provider_insert v) ≡ true) × (fits (endpoint_insert e) ≡ true))))
      × (((fits (inference_request_insert r) ≡ true) × (fits (pricing_default_insert d) ≡ true))
          × ((fits (status_snapshot_insert s) ≡ is_count s.worker_count)
              × (fits (warm_median_upsert m) ≡ is_int4 m.sample_count)))
unfolding fits project_insert provider_insert pricing_default_insert
fits_lem p k v e r s d m = (
  (refl, (api_key_insert-fits k, (refl, endpoint_insert-fits e))),
  (
    (inference_request_insert-fits r, refl),
    (status_snapshot_insert-fits s, warm_median_upsert-fits m),
  ),
)
