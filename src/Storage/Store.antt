-- ===== src/Storage/Store.antt =====
-- backend/internal/storage/store.go: a statement for each operation, and the scan of its row.
use evictor.Prelude.{ℕ, Option, none, some, List, [], ◌∷◌, Text}
use evictor.Storage.Sql.{Value, text, bytes, instant, null, raise, Insert, Select, Database}
use evictor.Storage.Models.{Project, ApiKey, Provider}

-- `QueryRow(...).Scan(&field)`, where the statement returns one timestamp that becomes a field.
unfoldable pub with_instant : {A S : Type 0} → (ℕ → A) → Option (List Value × S) → Option (A × S)
with_instant set (some (instant t ∷ [], s)) = some (set t, s)
with_instant set _ = none

abbrev pub scan_row : {A : Type 0} → (List Value → Option A) → Option (List Value) → Option A
scan_row scan none = none
scan_row scan (some row) = scan row

-- A column that may be null, and the scan of it into a pointer.
abbrev pub or_null : {A : Type 0} → (A → Value) → Option A → Value
or_null make none = null
or_null make (some a) = make a

unfoldable pub instant_or_null : Value → Option (Option ℕ)
instant_or_null null = some none
instant_or_null (instant t) = some (some t)
instant_or_null _ = none

unfoldable pub project_insert : Project → Insert
project_insert p = record {
  table = "projects";
  on_conflict = raise;
  columns = "id" ∷ "name" ∷ [];
  values = text p.id ∷ text p.name ∷ [];
  returning = "created_at" ∷ [];
}

unfoldable pub scan_project : List Value → Option Project
scan_project (text id ∷ text name ∷ instant created_at ∷ []) =
    some (record { id = id; name = name; created_at = created_at })
scan_project _ = none

unfoldable pub api_key_insert : ApiKey → Insert
api_key_insert k = record {
  table = "api_keys";
  on_conflict = raise;
  columns = "id" ∷ "project_id" ∷ "key_hash" ∷ "last4" ∷ "kind" ∷ "expires_at" ∷ [];
  values =
      text k.id
      ∷ text k.project_id
      ∷ bytes k.key_hash
      ∷ text k.last4
      ∷ text k.kind
      ∷ or_null instant k.expires_at
      ∷ [];
  returning = "created_at" ∷ [];
}

unfoldable pub scan_api_key : List Value → Option ApiKey
unfolding instant_or_null
scan_api_key
      (text id
        ∷ text project_id
        ∷ bytes key_hash
        ∷ text last4
        ∷ text kind
        ∷ expires
        ∷ instant created_at
        ∷ []) =
    elim (instant_or_null expires) [
      | none ↦ none
      | some expires_at ↦ some (record {
        id = id;
        project_id = project_id;
        key_hash = key_hash;
        last4 = last4;
        kind = kind;
        expires_at = expires_at;
        created_at = created_at;
      })
    ]
scan_api_key _ = none

unfoldable pub provider_insert : Provider → Insert
provider_insert p = record {
  table = "providers";
  on_conflict = raise;
  columns =
      "id" ∷ "project_id" ∷ "kind" ∷ "name" ∷ "credentials_encrypted" ∷ "key_last4"
      ∷ "polling_health" ∷ [];
  values =
      text p.id
      ∷ text p.project_id
      ∷ text p.kind
      ∷ text p.name
      ∷ bytes p.credentials_encrypted
      ∷ text p.key_last4
      ∷ text p.polling_health
      ∷ [];
  returning = "created_at" ∷ [];
}

unfoldable pub scan_provider : List Value → Option Provider
scan_provider
      (text id
        ∷ text project_id
        ∷ text kind
        ∷ text name
        ∷ bytes credentials
        ∷ text key_last4
        ∷ text polling_health
        ∷ instant created_at
        ∷ []) =
    some (record {
      id = id;
      project_id = project_id;
      kind = kind;
      name = name;
      credentials_encrypted = credentials;
      key_last4 = key_last4;
      polling_health = polling_health;
      created_at = created_at;
    })
scan_provider _ = none

unfoldable pub project_select : Text → Select
project_select id = record {
  table = "projects";
  columns = "id" ∷ "name" ∷ "created_at" ∷ [];
  key = ("id", text id) ∷ [];
}

unfoldable pub api_key_select : Text → Select
api_key_select id = record {
  table = "api_keys";
  columns = "id" ∷ "project_id" ∷ "key_hash" ∷ "last4" ∷ "kind" ∷ "expires_at" ∷ "created_at" ∷ [];
  key = ("id", text id) ∷ [];
}

unfoldable pub provider_select : Text → Select
provider_select id = record {
  table = "providers";
  columns =
      "id" ∷ "project_id" ∷ "kind" ∷ "name" ∷ "credentials_encrypted" ∷ "key_last4"
      ∷ "polling_health" ∷ "created_at" ∷ [];
  key = ("id", text id) ∷ [];
}

module _ (db : Database) where
  unfoldable pub insert_project : Project → db.State → Option (Project × db.State)
  unfolding project_insert with_instant
  insert_project p s =
      with_instant (λ t. record p { created_at = t }) (db.execute (project_insert p) s)

  unfoldable pub get_project : Text → db.State → Option Project
  unfolding scan_project project_select
  get_project id s = scan_row scan_project (db.query (project_select id) s)

  unfoldable pub insert_api_key : ApiKey → db.State → Option (ApiKey × db.State)
  unfolding api_key_insert with_instant
  insert_api_key k s =
      with_instant (λ t. record k { created_at = t }) (db.execute (api_key_insert k) s)

  unfoldable pub get_api_key : Text → db.State → Option ApiKey
  unfolding scan_api_key api_key_select
  get_api_key id s = scan_row scan_api_key (db.query (api_key_select id) s)

  unfoldable pub insert_provider : Provider → db.State → Option (Provider × db.State)
  unfolding provider_insert with_instant
  insert_provider p s =
      with_instant (λ t. record p { created_at = t }) (db.execute (provider_insert p) s)

  unfoldable pub get_provider : Text → db.State → Option Provider
  unfolding scan_provider provider_select
  get_provider id s = scan_row scan_provider (db.query (provider_select id) s)
