-- ===== src/Storage/Schema/Reads.antt =====
-- What backend/internal/storage/store.go reads from the columns of
-- backend/internal/migrations/000001_init.up.sql, and that it can scan all of it.
use evictor.Prelude.{
  ℕ, ◌≡◌, refl, String, str_eq, Bool, true, false, ◌&&◌, both_left, both_right, Option, none, some,
  List, [], ◌∷◌, Text, arith, if◌then◌else◌,
}
use evictor.Prelude.Int.{ℤ}
use evictor.Storage.Json.{Json}
use evictor.Storage.Sql.{Value, text, bytes, integer, instant, boolean, jsonb, null, Select}
use evictor.Storage.Store.{or_null}
use evictor.Storage.Schema.Columns.{
  ColumnType, string_type, bytea, bigint, int4, timestamptz, bool_type, json_type, Column, has_type,
  table_columns,
}

-- A value that a row can have in the column.
unfoldable pub holds : Column → Value → Bool
unfolding has_type
holds c null = c.nullable
holds c v = has_type c.type v

unfoldable pub all_hold : List Column → List Value → Bool
unfolding holds
all_hold [] [] = true
all_hold (c ∷ columns) (v ∷ values) = holds c v && all_hold columns values
all_hold _ _ = false

unfoldable pub find_column : String → List Column → Option Column
find_column name [] = none
find_column name (c ∷ columns) = if str_eq name c.name then some c else find_column name columns

abbrev pub cons_column : Option Column → Option (List Column) → Option (List Column)
cons_column (some c) (some columns) = some (c ∷ columns)
cons_column _ _ = none

unfoldable pub columns_of : List String → List Column → Option (List Column)
unfolding find_column
columns_of [] columns = some []
columns_of (name ∷ names) columns =
    cons_column (find_column name columns) (columns_of names columns)

abbrev pub hold_in : Option (List Column) → List Value → Bool
hold_in none values = false
hold_in (some columns) values = all_hold columns values

-- The values are ones that a row of the table can have in the columns of the statement.
unfoldable pub reads : Select → List Value → Bool
unfolding columns_of table_columns all_hold
reads q values = hold_in (columns_of q.columns (table_columns q.table)) values

abbrev pub Raw : ColumnType → Type 0
Raw string_type = Text
Raw bytea = List ℕ
Raw bigint = ℤ
Raw int4 = ℤ
Raw timestamptz = ℕ
Raw bool_type = Bool
Raw json_type = Json

abbrev pub wrap : (type : ColumnType) → Raw type → Value
wrap string_type = text
wrap bytea = bytes
wrap bigint = integer
wrap int4 = integer
wrap timestamptz = instant
wrap bool_type = boolean
wrap json_type = jsonb

has_type-wrap :
    (type : ColumnType) (v : Value) → has_type type v ≡ true → (x : Raw type) × (v ≡ wrap type x)
unfolding has_type
has_type-wrap string_type (text t) h = (t, refl)
has_type-wrap bytea (bytes b) h = (b, refl)
has_type-wrap bigint (integer n) h = (n, refl)
has_type-wrap int4 (integer n) h = (n, refl)
has_type-wrap timestamptz (instant t) h = (t, refl)
has_type-wrap bool_type (boolean b) h = (b, refl)
has_type-wrap json_type (jsonb j) h = (j, refl)
has_type-wrap _ _ h = absurd (ground arith)

-- What a column holds: an optional value where it may be null.
abbrev pub Nullable : Bool → Type 0 → Type 0
Nullable true A = Option A
Nullable false A = A

abbrev pub wrap_nullable :
    (nullable : Bool) (type : ColumnType) → Nullable nullable (Raw type) → Value
wrap_nullable true type = or_null (wrap type)
wrap_nullable false type = wrap type

abbrev pub Fields : List Column → Type 0
Fields [] = Unit
Fields (c ∷ columns) = Nullable c.nullable (Raw c.type) × Fields columns

abbrev pub row_of : (columns : List Column) → Fields columns → List Value
row_of [] fields = []
row_of (c ∷ columns) (x, fields) = wrap_nullable c.nullable c.type x ∷ row_of columns fields

holds-wrap :
    (name : String) (type : ColumnType) (nullable default : Bool) (v : Value)
    → holds (record { name = name; type = type; nullable = nullable; default = default }) v ≡ true
    → (x : Nullable nullable (Raw type)) × (v ≡ wrap_nullable nullable type x)
unfolding holds
holds-wrap name type true default null h = (none, refl)
holds-wrap name type false default null h = absurd (ground arith)
holds-wrap name type true default v h = let (x, e) = has_type-wrap type v h in (some x, e)
holds-wrap name type false default v h = has_type-wrap type v h

all_hold-row_of :
    (columns : List Column) (values : List Value)
    → all_hold columns values ≡ true
    → (fields : Fields columns) × (values ≡ row_of columns fields)
unfolding all_hold
all_hold-row_of [] [] h = (tt, refl)
all_hold-row_of [] (v ∷ values) h = absurd (ground arith)
all_hold-row_of (c ∷ columns) [] h = absurd (ground arith)
all_hold-row_of (c ∷ columns) (v ∷ values) h =
    let (x, e) =
      holds-wrap c.name c.type c.nullable c.default v
        (both_left (holds c v) (all_hold columns values) h) in
    let (fields, f) =
      all_hold-row_of columns values (both_right (holds c v) (all_hold columns values) h) in
    ((x, fields), rw e (rw f refl))

abbrev pub columns_in : Option (List Column) → List Column
columns_in none = []
columns_in (some columns) = columns

hold_in-row_of :
    (o : Option (List Column)) (values : List Value)
    → hold_in o values ≡ true
    → (fields : Fields (columns_in o)) × (values ≡ row_of (columns_in o) fields)
hold_in-row_of none values h = absurd (ground arith)
hold_in-row_of (some columns) values h = all_hold-row_of columns values h

unfoldable pub columns_read : Select → List Column
unfolding columns_of table_columns
columns_read q = columns_in (columns_of q.columns (table_columns q.table))

-- A row that can be read has a value of its column's type for each column.
pub reads-row_of :
    (q : Select) (values : List Value)
    → reads q values ≡ true
    → (fields : Fields (columns_read q)) × (values ≡ row_of (columns_read q) fields)
unfolding reads columns_read
reads-row_of q values h = hold_in-row_of (columns_of q.columns (table_columns q.table)) values h
