-- ===== src/Storage/Models.antt =====
-- backend/internal/models/models.go: the records of the store.
use evictor.Prelude.{ℕ, Bool, Option, List, [], ◌∷◌, Text, codes}
use evictor.Prelude.Int.{ℤ}
use evictor.Storage.Json.{Entries}

pub record Project : Type 0 where
  pub id : Text
  pub name : Text
  pub created_at : ℕ

-- The kinds and states are strings, each with its constants.
abbrev pub api_key_kinds : List Text
api_key_kinds = codes "ingestion" ∷ codes "session" ∷ []

abbrev pub provider_kinds : List Text
provider_kinds = codes "runpod" ∷ []

abbrev pub polling_healths : List Text
polling_healths = codes "ok" ∷ codes "degraded" ∷ codes "stopped" ∷ []

abbrev pub endpoint_statuses : List Text
endpoint_statuses = codes "active" ∷ codes "deleted" ∷ []

abbrev pub price_sources : List Text
price_sources = codes "default" ∷ codes "user_confirmed" ∷ []

abbrev pub classifications : List Text
classifications = codes "cold" ∷ codes "warm" ∷ codes "pending" ∷ []

abbrev pub cold_start_sources : List Text
cold_start_sources = codes "reported" ∷ codes "inferred" ∷ []

abbrev pub worker_states : List Text
worker_states = codes "cold" ∷ codes "warming" ∷ codes "warm" ∷ codes "unknown" ∷ []

pub record ApiKey : Type 0 where
  pub id : Text
  pub project_id : Text
  pub key_hash : List ℕ
  pub last4 : Text
  pub kind : Text
  pub expires_at : Option ℕ
  pub created_at : ℕ

pub record Provider : Type 0 where
  pub id : Text
  pub project_id : Text
  pub kind : Text
  pub name : Text
  pub credentials_encrypted : List ℕ
  pub key_last4 : Text
  pub polling_health : Text
  pub created_at : ℕ

pub record Endpoint : Type 0 where
  pub id : Text
  pub project_id : Text
  pub name : Text
  pub status : Text
  pub provider_id : Option Text
  pub provider_endpoint_id : Option Text
  pub hourly_rate_cents : Option ℤ
  pub price_source : Text
  pub cold_start_threshold_ms : Option ℤ
  pub created_at : ℕ
  pub updated_at : ℕ

-- The metadata is a map, or nil.
pub record InferenceRequest : Type 0 where
  pub id : Text
  pub endpoint_id : Text
  pub latency_ms : ℤ
  pub was_cold_start : Option Bool
  pub classification : Text
  pub cold_start_source : Text
  pub provider_request_id : Option Text
  pub occurred_at : ℕ
  pub received_at : ℕ
  pub metadata : Option Entries

pub record StatusSnapshot : Type 0 where
  pub id : Text
  pub endpoint_id : Text
  pub worker_state : Text
  pub worker_count : Option ℤ
  pub taken_at : ℕ

pub record PricingDefault : Type 0 where
  pub provider_kind : Text
  pub gpu_tier : Text
  pub hourly_rate_cents : ℤ
  pub effective_from : ℕ

pub record WarmMedian : Type 0 where
  pub endpoint_id : Text
  pub median_ms : ℤ
  pub sample_count : ℤ
  pub computed_at : ℕ
