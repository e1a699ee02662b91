-- ===== src/Storage/Schema/Columns.antt =====
-- backend/internal/migrations/000001_init.up.sql: the columns of the tables, and what a statement must
-- give them. A string is one without NUL, and a slice of bytes one that is not nil.
use evictor.Prelude.{
  String, str_eq, Bool, true, false, leb, ◌&&◌, ◌||◌, Option, none, some, List, [], ◌∷◌,
  if◌then◌else◌,
}
use evictor.Prelude.Int.{ℤ, pos, negsuc}
use evictor.Storage.Sql.{
  Value, text, bytes, integer, instant, boolean, jsonb, null, Row, Insert, zip, column,
}

pub data ColumnType : Type 0 where
  string_type bytea bigint int4 timestamptz bool_type json_type : ColumnType

pub record Column : Type 0 where
  pub name : String
  pub type : ColumnType
  pub nullable : Bool
  pub default : Bool

abbrev pub not_null : String → ColumnType → Column
not_null name type = record { name = name; type = type; nullable = false; default = false }

abbrev pub may_be_null : String → ColumnType → Column
may_be_null name type = record { name = name; type = type; nullable = true; default = false }

abbrev pub with_default : String → ColumnType → Column
with_default name type = record { name = name; type = type; nullable = false; default = true }

unfoldable pub table_columns : String → List Column
table_columns table =
    if str_eq table "projects"
    then not_null "id" string_type
      ∷ not_null "name" string_type
      ∷ with_default "created_at" timestamptz
      ∷ []
    else if str_eq table "api_keys"
    then not_null "id" string_type
      ∷ not_null "project_id" string_type
      ∷ not_null "key_hash" bytea
      ∷ not_null "last4" string_type
      ∷ not_null "kind" string_type
      ∷ may_be_null "expires_at" timestamptz
      ∷ with_default "created_at" timestamptz
      ∷ []
    else if str_eq table "providers"
    then not_null "id" string_type
      ∷ not_null "project_id" string_type
      ∷ not_null "kind" string_type
      ∷ not_null "name" string_type
      ∷ not_null "credentials_encrypted" bytea
      ∷ not_null "key_last4" string_type
      ∷ with_default "polling_health" string_type
      ∷ with_default "created_at" timestamptz
      ∷ []
    else if str_eq table "endpoints"
    then not_null "id" string_type
      ∷ not_null "project_id" string_type
      ∷ not_null "name" string_type
      ∷ with_default "status" string_type
      ∷ may_be_null "provider_id" string_type
      ∷ may_be_null "provider_endpoint_id" string_type
      ∷ may_be_null "hourly_rate_cents" bigint
      ∷ with_default "price_source" string_type
      ∷ may_be_null "cold_start_threshold_ms" bigint
      ∷ with_default "created_at" timestamptz
      ∷ with_default "updated_at" timestamptz
      ∷ []
    else if str_eq table "inference_requests"
    then not_null "id" string_type
      ∷ not_null "endpoint_id" string_type
      ∷ not_null "latency_ms" bigint
      ∷ may_be_null "was_cold_start" bool_type
      ∷ not_null "classification" string_type
      ∷ not_null "cold_start_source" string_type
      ∷ may_be_null "provider_request_id" string_type
      ∷ not_null "occurred_at" timestamptz
      ∷ with_default "received_at" timestamptz
      ∷ with_default "metadata" json_type
      ∷ []
    else if str_eq table "status_snapshots"
    then not_null "id" string_type
      ∷ not_null "endpoint_id" string_type
      ∷ not_null "worker_state" string_type
      ∷ may_be_null "worker_count" int4
      ∷ not_null "taken_at" timestamptz
      ∷ []
    else if str_eq table "pricing_defaults"
    then not_null "provider_kind" string_type
      ∷ not_null "gpu_tier" string_type
      ∷ not_null "hourly_rate_cents" bigint
      ∷ not_null "effective_from" timestamptz
      ∷ []
    else if str_eq table "warm_medians"
    then not_null "endpoint_id" string_type
      ∷ not_null "median_ms" bigint
      ∷ not_null "sample_count" int4
      ∷ with_default "computed_at" timestamptz
      ∷ []
    else []

-- The numbers of an `integer`, which has 32 bits. A `bigint` has the 64 bits of the code's integers.
unfoldable pub is_int4 : ℤ → Bool
is_int4 (pos n) = leb n 2147483647
is_int4 (negsuc n) = leb n 2147483647

unfoldable pub has_type : ColumnType → Value → Bool
unfolding is_int4
has_type string_type (text t) = true
has_type bytea (bytes b) = true
has_type bigint (integer n) = true
has_type int4 (integer n) = is_int4 n
has_type timestamptz (instant t) = true
has_type bool_type (boolean b) = true
has_type json_type (jsonb j) = true
has_type _ _ = false

-- A column that is given null must be nullable, and one that is not given nullable or have a default.
unfoldable pub takes : Column → Option Value → Bool
unfolding has_type
takes c none = c.nullable || c.default
takes c (some null) = c.nullable
takes c (some v) = has_type c.type v

unfoldable pub all_taken : List Column → Row → Bool
unfolding takes column
all_taken [] row = true
all_taken (c ∷ columns) row = takes c (column c.name row) && all_taken columns row

unfoldable pub is_column : List Column → String → Bool
is_column [] name = false
is_column (c ∷ columns) name = str_eq c.name name || is_column columns name

unfoldable pub are_columns : List Column → List String → Bool
unfolding is_column
are_columns columns [] = true
are_columns columns (name ∷ names) = is_column columns name && are_columns columns names

-- The statement names columns that its table has, and gives each column what it takes.
unfoldable pub fits : Insert → Bool
unfolding table_columns all_taken are_columns zip
fits i =
    let columns = table_columns i.table in
    (are_columns columns i.columns && are_columns columns i.returning)
    && all_taken columns (zip i.columns i.values)
