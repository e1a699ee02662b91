-- ===== src/Storage/Witnesses.antt =====
-- Concrete URLs, and rows in a database in memory.
use evictor.Prelude.{◌≡◌, refl, true, none, some, [], ◌∷◌, Text, codes, starts_with}
use evictor.Prelude.Int.{pos}
use evictor.Storage.Json.{Members, sorted, unmarshal, object, other, text_compare}
use evictor.Storage.Requests.{inference_request_insert}
use evictor.Storage.Db.{to_migrate_url}
use evictor.Storage.Sql.{instant, added, primary_key}
use evictor.Storage.Models.{
  Project, Endpoint, ApiKey, Provider, PricingDefault, WarmMedian, InferenceRequest, StatusSnapshot,
}
use evictor.Storage.Tables.{tables, with_returned}
use evictor.Storage.Endpoints.{endpoint_insert, insert_endpoint}

abbrev url : Text
url = codes "postgres://u@h/evictor"

abbrev endpoint : Endpoint
endpoint = record {
  id = codes "ep_1";
  project_id = codes "proj_1";
  name = codes "llama";
  status = codes "active";
  provider_id = some (codes "prov_1");
  provider_endpoint_id = some (codes "abc123");
  hourly_rate_cents = some (pos 150);
  price_source = codes "default";
  cold_start_threshold_ms = none;
  created_at = 0;
  updated_at = 0;
}

abbrev stored_endpoint : Endpoint
stored_endpoint = record endpoint { created_at = 7; updated_at = 7 }

nothing_stored : tables.State
unfolding tables
nothing_stored = []

with_endpoint : tables.State
unfolding tables endpoint_insert added
with_endpoint = ("endpoints", added (endpoint_insert endpoint) (instant 7 ∷ instant 7 ∷ [])) ∷ []

endpoint_inserted :
    insert_endpoint tables endpoint nothing_stored ≡ some (stored_endpoint, with_endpoint)
unfolding insert_endpoint with_endpoint nothing_stored with_returned primary_key
endpoint_inserted = refl

abbrev api_key : ApiKey
api_key = record {
  id = codes "key_1";
  project_id = codes "proj_1";
  key_hash = 1 ∷ 2 ∷ [];
  last4 = codes "a1b2";
  kind = codes "ingestion";
  expires_at = none;
  created_at = 0;
}

abbrev provider : Provider
provider = record {
  id = codes "prov_1";
  project_id = codes "proj_1";
  kind = codes "runpod";
  name = codes "main";
  credentials_encrypted = 9 ∷ 9 ∷ [];
  key_last4 = codes "c3d4";
  polling_health = codes "ok";
  created_at = 3;
}

abbrev request : InferenceRequest
request = record {
  id = codes "req_1";
  endpoint_id = codes "ep_1";
  latency_ms = pos 8120;
  was_cold_start = some true;
  classification = codes "cold";
  cold_start_source = codes "reported";
  provider_request_id = none;
  occurred_at = 5;
  received_at = 0;
  metadata = some ((codes "region", codes "eu") ∷ (codes "model", codes "llama") ∷ []);
}

abbrev stored_request : InferenceRequest
stored_request = record request { received_at = 7 }

with_request : tables.State
unfolding tables inference_request_insert added
with_request =
    ("inference_requests", added (inference_request_insert request) (instant 7 ∷ [])) ∷ []

with_both : tables.State
unfolding tables inference_request_insert endpoint_insert added
with_both =
    ("inference_requests", added (inference_request_insert request) (instant 7 ∷ []))
    ∷ ("endpoints", added (endpoint_insert endpoint) (instant 7 ∷ instant 7 ∷ []))
    ∷ []

-- A second row with the key is refused.
again : insert_endpoint tables endpoint with_endpoint ≡ none
unfolding insert_endpoint with_endpoint with_returned primary_key
again = refl

model_first :
    sorted ((codes "region", codes "eu") ∷ (codes "model", codes "llama") ∷ [])
    ≡ (codes "model", codes "llama") ∷ (codes "region", codes "eu") ∷ []
unfolding sorted text_compare
model_first = refl

a_number :
    unmarshal (object (Members.cons (codes "tokens") (other (codes "12")) Members.nil)) ≡ none
unfolding unmarshal
a_number = refl

abbrev snap : StatusSnapshot
snap = record {
  id = codes "snap_1";
  endpoint_id = codes "ep_1";
  worker_state = codes "warm";
  worker_count = some (pos 1);
  taken_at = 9;
}

abbrev project : Project
project = record { id = codes "proj_1"; name = codes "main"; created_at = 0 }

abbrev pricing : PricingDefault
pricing = record {
  provider_kind = codes "runpod";
  gpu_tier = codes "a100";
  hourly_rate_cents = pos 150;
  effective_from = 2;
}

abbrev median : WarmMedian
median = record {
  endpoint_id = codes "ep_1";
  median_ms = pos 240;
  sample_count = pos 31;
  computed_at = 0;
}

migrated : to_migrate_url url ≡ codes "pgx5://u@h/evictor"
unfolding to_migrate_url starts_with
migrated = refl
