-- ===== src/Storage/Requests/Stored.antt =====
-- An inference request that was stored is read back, its metadata included.
use evictor.Prelude.{◌≡◌, ◌↔◌, refl, ap, ◌∙◌, arith, Bool, Option, none, some, [], ◌∷◌, Text, All}
use evictor.Storage.Json.{Entries, entry}
use evictor.Storage.Json.Order.{entry-sorted}
use evictor.Storage.Json.RoundTrip.{unmarshal-marshal, sorted_map}
use evictor.Storage.Sql.{Value, boolean, Database, IsTable, pick, added, zip, primary_key}
use evictor.Storage.Models.{InferenceRequest}
use evictor.Storage.Store.{or_null, scan_row}
use evictor.Storage.RoundTrips.{with_instant-eq-some}
use evictor.Storage.Measured.{text_or_null-or_null}
use evictor.Storage.Requests.{
  boolean_or_null, inference_request_insert, scan_inference_request, insert_inference_request,
  get_inference_request, inference_request_select,
}

pub boolean_or_null-or_null : (o : Option Bool) → boolean_or_null (or_null boolean o) ≡ some o
unfolding boolean_or_null
boolean_or_null-or_null none = refl
boolean_or_null-or_null (some t) = refl

-- The value of a key, `none` also where the map is nil.
abbrev pub metadata_of : Text → Option Entries → Option Text
metadata_of key none = none
metadata_of key (some m) = entry key m

metadata_of-sorted_map :
    (key : Text) (m : Option Entries) → metadata_of key (sorted_map m) ≡ metadata_of key m
metadata_of-sorted_map key none = refl
metadata_of-sorted_map key (some m) = entry-sorted key m

sorted_map_nil : (m : Option Entries) → (sorted_map m ≡ none) ↔ (m ≡ none)
sorted_map_nil none = (λ e. e, λ e. e)
sorted_map_nil (some m) = ground arith

-- The same request, but for the order of the metadata's entries, which a map does not have.
pub record IsSameRequest (q r : InferenceRequest) : Type 0 where
  pub fields : record q { metadata = r.metadata } ≡ r
  pub nil : (q.metadata ≡ none) ↔ (r.metadata ≡ none)
  pub metadata : (key : Text) → metadata_of key q.metadata ≡ metadata_of key r.metadata

abbrev resorted : InferenceRequest → Option InferenceRequest
resorted p = some (record p { metadata = sorted_map p.metadata })

module _ (db : Database) (exact : Value → Type 0) (sql : IsTable db exact) where
  -- An inference request that was inserted is read back by its id: the fields that may be null are
  -- as they were, `received_at` is as the insertion filled it in, and the metadata has the same value
  -- for each key, and is nil where it was nil, if the database keeps tables (`IsTable`) and
  -- represents its values exactly.
  pub get-insert_inference_request :
      (r : InferenceRequest) {q : InferenceRequest} (s t : db.State)
      → All exact (inference_request_insert r).values
      → insert_inference_request db r s ≡ some (q, t)
      → (read : InferenceRequest) × ((get_inference_request db r.id t ≡ some read)
          × IsSameRequest read q)
  unfolding insert_inference_request get_inference_request inference_request_select pick primary_key
      zip added
  get-insert_inference_request r {q} s t h done =
      let (at, parts) =
        with_instant-eq-some (λ u. record r { received_at = u })
          (db.execute (inference_request_insert r) s) done in
      let read =
        sql.reads_back (inference_request_insert r)
          ("id" ∷ "endpoint_id" ∷ "latency_ms" ∷ "was_cold_start" ∷ "classification"
            ∷ "cold_start_source" ∷ "provider_request_id" ∷ "occurred_at" ∷ "received_at"
            ∷ "metadata" ∷ [])
          parts.0 h refl in
      (
        record q { metadata = sorted_map q.metadata },
        (
          ap (scan_row scan_inference_request) read
              ∙ rw (scan_inference_request, boolean_or_null-or_null r.was_cold_start)
                  (rw (text_or_null-or_null r.provider_request_id)
                    (rw (unmarshal-marshal r.metadata) (ap resorted parts.1))),
          record {
            nil = sorted_map_nil q.metadata;
            fields = refl;
            metadata = λ key. metadata_of-sorted_map key q.metadata;
          },
        ),
      )
