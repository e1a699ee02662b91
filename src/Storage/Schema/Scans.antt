-- ===== src/Storage/Schema/Scans.antt =====
-- The scans of backend/internal/storage/store.go take every row that the columns of
-- backend/internal/migrations/000001_init.up.sql admit.
use evictor.Prelude.{ℕ, ◌≡◌, refl, ◌∙◌, Bool, true, ◌&&◌, Option, none, some, List, [], Text}
use evictor.Storage.Json.{unmarshal}
use evictor.Storage.Sql.{Value, Select}
use evictor.Storage.Store.{
  project_select, scan_project, api_key_select, scan_api_key, provider_select, scan_provider,
}
use evictor.Storage.Endpoints.{endpoint_select, scan_endpoint, text_or_null, ◌>>=◌}
use evictor.Storage.Telemetry.{
  status_snapshot_select, scan_status_snapshot, pricing_default_select, scan_pricing_default,
  warm_median_select, scan_warm_median,
}
use evictor.Storage.Requests.{inference_request_select, scan_inference_request, boolean_or_null}
use evictor.Storage.RoundTrips.{instant_or_null-or_null}
use evictor.Storage.Measured.{text_or_null-or_null, integer_or_null-or_null}
use evictor.Storage.Schema.Reads.{Fields, row_of, reads, columns_read, reads-row_of}
use evictor.Storage.Schema.Documents.{is_some, decodes, row-decodes}

-- The operations of the store that read, with the keys that they read by.
pub data Reader : Type 0 where
  read_project read_api_key read_provider read_endpoint read_inference_request read_status_snapshot
        read_warm_median :
      Text → Reader
  read_pricing_default : Text → Text → ℕ → Reader

unfoldable pub select_of : Reader → Select
unfolding project_select api_key_select provider_select endpoint_select inference_request_select
    status_snapshot_select warm_median_select pricing_default_select
select_of (read_project id) = project_select id
select_of (read_api_key id) = api_key_select id
select_of (read_provider id) = provider_select id
select_of (read_endpoint id) = endpoint_select id
select_of (read_inference_request id) = inference_request_select id
select_of (read_status_snapshot id) = status_snapshot_select id
select_of (read_warm_median endpoint_id) = warm_median_select endpoint_id
select_of (read_pricing_default provider_kind gpu_tier effective_from) =
    pricing_default_select provider_kind gpu_tier effective_from

-- Whether the operation gets a record out of the row.
unfoldable pub scans : Reader → List Value → Bool
unfolding scan_project scan_api_key scan_provider scan_endpoint scan_inference_request
    scan_status_snapshot scan_warm_median scan_pricing_default
scans (read_project id) values = is_some (scan_project values)
scans (read_api_key id) values = is_some (scan_api_key values)
scans (read_provider id) values = is_some (scan_provider values)
scans (read_endpoint id) values = is_some (scan_endpoint values)
scans (read_inference_request id) values = is_some (scan_inference_request values)
scans (read_status_snapshot id) values = is_some (scan_status_snapshot values)
scans (read_warm_median endpoint_id) values = is_some (scan_warm_median values)
scans (read_pricing_default provider_kind gpu_tier effective_from) values =
    is_some (scan_pricing_default values)

project_scans :
    (id : Text) (values : List Value)
    → reads (project_select id) values ≡ true
    → is_some (scan_project values) ≡ true
unfolding columns_read project_select scan_project
project_scans id values h = let (fields, e) = reads-row_of (project_select id) values h in rw e refl

api_key_scans :
    (id : Text) (values : List Value)
    → reads (api_key_select id) values ≡ true
    → is_some (scan_api_key values) ≡ true
unfolding columns_read api_key_select scan_api_key
api_key_scans id values h =
    let ((_, (_, (_, (_, (_, (expires, _)))))), e) = reads-row_of (api_key_select id) values h in
    rw e (rw (scan_api_key, instant_or_null-or_null expires) refl)

provider_scans :
    (id : Text) (values : List Value)
    → reads (provider_select id) values ≡ true
    → is_some (scan_provider values) ≡ true
unfolding columns_read provider_select scan_provider
provider_scans id values h =
    let (fields, e) = reads-row_of (provider_select id) values h in rw e refl

endpoint_scans :
    (id : Text) (values : List Value)
    → reads (endpoint_select id) values ≡ true
    → is_some (scan_endpoint values) ≡ true
unfolding columns_read endpoint_select scan_endpoint
endpoint_scans id values h =
    let (fields, e) = reads-row_of (endpoint_select id) values h in
    rw e (simp (text_or_null-or_null, integer_or_null-or_null))

status_snapshot_scans :
    (id : Text) (values : List Value)
    → reads (status_snapshot_select id) values ≡ true
    → is_some (scan_status_snapshot values) ≡ true
unfolding columns_read status_snapshot_select scan_status_snapshot
status_snapshot_scans id values h =
    let (fields, e) = reads-row_of (status_snapshot_select id) values h in
    rw e (simp (integer_or_null-or_null))

warm_median_scans :
    (id : Text) (values : List Value)
    → reads (warm_median_select id) values ≡ true
    → is_some (scan_warm_median values) ≡ true
unfolding columns_read warm_median_select scan_warm_median
warm_median_scans id values h =
    let (fields, e) = reads-row_of (warm_median_select id) values h in rw e refl

is_some-then :
    {A B : Type 0} (o : Option A) (f : A → B)
    → is_some (o >>= λ a. some (f a)) ≡ (is_some o && true)
is_some-then none f = refl
is_some-then (some a) f = refl

row_scans :
    (fields : Fields (columns_read (inference_request_select [])))
    → is_some (scan_inference_request (row_of (columns_read (inference_request_select [])) fields))
      ≡ decodes (row_of (columns_read (inference_request_select [])) fields)
unfolding columns_read inference_request_select scan_inference_request decodes text_or_null
    boolean_or_null
row_scans (_, (_, (_, (none, (_, (_, (none, (_, (_, (document, _)))))))))) =
    is_some-then (unmarshal document) _
row_scans (_, (_, (_, (none, (_, (_, (some a, (_, (_, (document, _)))))))))) =
    is_some-then (unmarshal document) _
row_scans (_, (_, (_, (some b, (_, (_, (none, (_, (_, (document, _)))))))))) =
    is_some-then (unmarshal document) _
row_scans (_, (_, (_, (some b, (_, (_, (some a, (_, (_, (document, _)))))))))) =
    is_some-then (unmarshal document) _

inference_request_scans :
    (id : Text) (values : List Value)
    → reads (inference_request_select id) values ≡ true
    → is_some (scan_inference_request values) ≡ decodes values
unfolding columns_read inference_request_select scan_inference_request decodes
inference_request_scans id values h =
    let (fields, e) = reads-row_of (inference_request_select id) values h in rw e (row_scans fields)

pricing_default_scans :
    (provider_kind gpu_tier : Text) (effective_from : ℕ) (values : List Value)
    → reads (pricing_default_select provider_kind gpu_tier effective_from) values ≡ true
    → is_some (scan_pricing_default values) ≡ true
unfolding columns_read pricing_default_select scan_pricing_default
pricing_default_scans provider_kind gpu_tier effective_from values h =
    let (fields, e) =
      reads-row_of (pricing_default_select provider_kind gpu_tier effective_from) values h in
    rw e refl

-- Each read of the store gets a record out of every row that the columns of its table admit, be the
-- columns null that may be, if `json.Unmarshal` takes the metadata that the row may have: the columns
-- are in the order of the scan, and of types that it takes.
pub scans-eq-decodes :
    (r : Reader) (values : List Value)
    → reads (select_of r) values ≡ true
    → scans r values ≡ decodes values
unfolding select_of scans columns_read project_select api_key_select provider_select endpoint_select
    status_snapshot_select warm_median_select pricing_default_select
scans-eq-decodes (read_project id) values h =
    project_scans id values h ∙ row-decodes (project_select id) values refl h
scans-eq-decodes (read_api_key id) values h =
    api_key_scans id values h ∙ row-decodes (api_key_select id) values refl h
scans-eq-decodes (read_provider id) values h =
    provider_scans id values h ∙ row-decodes (provider_select id) values refl h
scans-eq-decodes (read_endpoint id) values h =
    endpoint_scans id values h ∙ row-decodes (endpoint_select id) values refl h
scans-eq-decodes (read_status_snapshot id) values h =
    status_snapshot_scans id values h ∙ row-decodes (status_snapshot_select id) values refl h
scans-eq-decodes (read_warm_median id) values h =
    warm_median_scans id values h ∙ row-decodes (warm_median_select id) values refl h
scans-eq-decodes (read_inference_request id) values h = inference_request_scans id values h
scans-eq-decodes (read_pricing_default kind tier from) values h =
    pricing_default_scans kind tier from values h
    ∙ row-decodes (pricing_default_select kind tier from) values refl h
