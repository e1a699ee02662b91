-- ===== src/Storage/Endpoints.antt =====
-- backend/internal/storage/store.go: the operations on endpoints, and the scans of columns that may be
-- null.
use evictor.Prelude.{ℕ, Option, none, some, List, [], ◌∷◌, Text}
use evictor.Prelude.Int.{ℤ}
use evictor.Storage.Sql.{Value, text, integer, instant, null, raise, Insert, Select, Database}
use evictor.Storage.Models.{Endpoint}
use evictor.Storage.Store.{or_null, scan_row}

unfoldable pub text_or_null : Value → Option (Option Text)
text_or_null null = some none
text_or_null (text t) = some (some t)
text_or_null _ = none

unfoldable pub integer_or_null : Value → Option (Option ℤ)
integer_or_null null = some none
integer_or_null (integer n) = some (some n)
integer_or_null _ = none

-- The scan of a column fails, or goes on with the value.
infixl 5 ◌>>=◌
abbrev pub ◌>>=◌ : {A B : Type 0} → Option A → (A → Option B) → Option B
none >>= k = none
some a >>= k = k a

unfoldable pub endpoint_insert : Endpoint → Insert
endpoint_insert e = record {
  table = "endpoints";
  on_conflict = raise;
  columns =
      "id" ∷ "project_id" ∷ "name" ∷ "status" ∷ "provider_id" ∷ "provider_endpoint_id"
      ∷ "hourly_rate_cents" ∷ "price_source" ∷ "cold_start_threshold_ms" ∷ [];
  values =
      text e.id
      ∷ text e.project_id
      ∷ text e.name
      ∷ text e.status
      ∷ or_null text e.provider_id
      ∷ or_null text e.provider_endpoint_id
      ∷ or_null integer e.hourly_rate_cents
      ∷ text e.price_source
      ∷ or_null integer e.cold_start_threshold_ms
      ∷ [];
  returning = "created_at" ∷ "updated_at" ∷ [];
}

-- `Scan` into two timestamps.
unfoldable pub with_instants :
    {A S : Type 0} → (ℕ → ℕ → A) → Option (List Value × S) → Option (A × S)
with_instants set (some (instant t ∷ instant u ∷ [], s)) = some (set t u, s)
with_instants set _ = none

unfoldable pub scan_endpoint : List Value → Option Endpoint
unfolding text_or_null integer_or_null
scan_endpoint
      (text id
        ∷ text project_id
        ∷ text name
        ∷ text status
        ∷ provider
        ∷ at_provider
        ∷ rate
        ∷ text price_source
        ∷ threshold
        ∷ instant created_at
        ∷ instant updated_at
        ∷ []) =
    do
      provider_id ← text_or_null provider
      provider_endpoint_id ← text_or_null at_provider
      hourly_rate_cents ← integer_or_null rate
      cold_start_threshold_ms ← integer_or_null threshold
      some (record {
        id = id;
        project_id = project_id;
        name = name;
        status = status;
        provider_id = provider_id;
        provider_endpoint_id = provider_endpoint_id;
        hourly_rate_cents = hourly_rate_cents;
        price_source = price_source;
        cold_start_threshold_ms = cold_start_threshold_ms;
        created_at = created_at;
        updated_at = updated_at;
      })
scan_endpoint _ = none

unfoldable pub endpoint_select : Text → Select
endpoint_select id = record {
  table = "endpoints";
  columns =
      "id" ∷ "project_id" ∷ "name" ∷ "status" ∷ "provider_id" ∷ "provider_endpoint_id"
      ∷ "hourly_rate_cents" ∷ "price_source" ∷ "cold_start_threshold_ms" ∷ "created_at"
      ∷ "updated_at" ∷ [];
  key = ("id", text id) ∷ [];
}

module _ (db : Database) where
  unfoldable pub insert_endpoint : Endpoint → db.State → Option (Endpoint × db.State)
  unfolding endpoint_insert with_instants
  insert_endpoint e s =
      with_instants (λ t u. record e { created_at = t; updated_at = u })
        (db.execute (endpoint_insert e) s)

  unfoldable pub get_endpoint : Text → db.State → Option Endpoint
  unfolding scan_endpoint endpoint_select
  get_endpoint id s = scan_row scan_endpoint (db.query (endpoint_select id) s)
