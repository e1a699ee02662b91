-- ===== src/Storage/Requests.antt =====
-- backend/internal/storage/store.go: the inference requests, whose metadata is a jsonb column.
pub mod Stored
use evictor.Prelude.{Bool, Option, none, some, List, [], ◌∷◌, Text}
use evictor.Storage.Json.{marshal, unmarshal}
use evictor.Storage.Sql.{
  Value, text, integer, instant, boolean, jsonb, null, raise, Insert, Select, Database,
}
use evictor.Storage.Models.{InferenceRequest}
use evictor.Storage.Store.{or_null, scan_row, with_instant}
use evictor.Storage.Endpoints.{text_or_null, ◌>>=◌}

unfoldable pub boolean_or_null : Value → Option (Option Bool)
boolean_or_null null = some none
boolean_or_null (boolean b) = some (some b)
boolean_or_null _ = none

unfoldable pub inference_request_insert : InferenceRequest → Insert
unfolding marshal
inference_request_insert r = record {
  table = "inference_requests";
  on_conflict = raise;
  columns =
      "id" ∷ "endpoint_id" ∷ "latency_ms" ∷ "was_cold_start" ∷ "classification"
      ∷ "cold_start_source" ∷ "provider_request_id" ∷ "occurred_at" ∷ "metadata" ∷ [];
  values =
      text r.id
      ∷ text r.endpoint_id
      ∷ integer r.latency_ms
      ∷ or_null boolean r.was_cold_start
      ∷ text r.classification
      ∷ text r.cold_start_source
      ∷ or_null text r.provider_request_id
      ∷ instant r.occurred_at
      ∷ jsonb (marshal r.metadata)
      ∷ [];
  returning = "received_at" ∷ [];
}

-- The scan, and then `json.Unmarshal` of the metadata.
unfoldable pub scan_inference_request : List Value → Option InferenceRequest
unfolding text_or_null boolean_or_null unmarshal
scan_inference_request
      (text id
        ∷ text endpoint_id
        ∷ integer latency_ms
        ∷ cold
        ∷ text classification
        ∷ text cold_start_source
        ∷ at_provider
        ∷ instant occurred_at
        ∷ instant received_at
        ∷ jsonb document
        ∷ []) =
    do
      was_cold_start ← boolean_or_null cold
      provider_request_id ← text_or_null at_provider
      metadata ← unmarshal document
      some (record {
        id = id;
        endpoint_id = endpoint_id;
        latency_ms = latency_ms;
        was_cold_start = was_cold_start;
        classification = classification;
        cold_start_source = cold_start_source;
        provider_request_id = provider_request_id;
        occurred_at = occurred_at;
        received_at = received_at;
        metadata = metadata;
      })
scan_inference_request _ = none

unfoldable pub inference_request_select : Text → Select
inference_request_select id = record {
  table = "inference_requests";
  columns =
      "id" ∷ "endpoint_id" ∷ "latency_ms" ∷ "was_cold_start" ∷ "classification"
      ∷ "cold_start_source" ∷ "provider_request_id" ∷ "occurred_at" ∷ "received_at" ∷ "metadata"
      ∷ [];
  key = ("id", text id) ∷ [];
}

module _ (db : Database) where
  unfoldable pub insert_inference_request :
      InferenceRequest → db.State → Option (InferenceRequest × db.State)
  unfolding inference_request_insert with_instant
  insert_inference_request r s =
      with_instant (λ t. record r { received_at = t }) (db.execute (inference_request_insert r) s)

  unfoldable pub get_inference_request : Text → db.State → Option InferenceRequest
  unfolding scan_inference_request inference_request_select
  get_inference_request id s =
      scan_row scan_inference_request (db.query (inference_request_select id) s)
