-- ===== src/Storage/Sql.antt =====
-- The database of backend/internal/storage/store.go, as its statements use it.
-- PostgreSQL and pgx are a parameter, `Database`: it runs the statements on a state of its own.
use evictor.Prelude.{
  ℕ, ◌≡◌, ◌⊎◌, String, str_eq, Bool, false, Option, none, some, List, [], ◌∷◌, ◌++◌, Text, All,
  if◌then◌else◌,
}
use evictor.Prelude.Int.{ℤ}
use evictor.Storage.Json.{Json}

pub data Value : Type 0 where
  text : Text → Value
  bytes : List ℕ → Value
  integer : ℤ → Value
  instant : ℕ → Value
  boolean : Bool → Value
  jsonb : Json → Value
  null : Value

abbrev pub Row : Type 0
Row = List (String × Value)

-- What is done if the table has a row with the primary key: an error, or `DO UPDATE`, which gives
-- the other columns of that row the values of the statement.
pub data OnConflict : Type 0 where
  raise do_update : OnConflict

pub record Insert : Type 0 where
  pub table : String
  pub on_conflict : OnConflict
  pub columns : List String
  pub values : List Value
  pub returning : List String

-- The row whose columns have the given values.
pub record Select : Type 0 where
  pub table : String
  pub columns : List String
  pub key : Row

-- `none` is an error, for a select also that there is no such row.
pub record Database : Type 1 where
  pub State : Type 0
  pub execute : Insert → State → Option (List Value × State)
  pub query : Select → State → Option (List Value)

unfoldable pub zip : List String → List Value → Row
zip (c ∷ columns) (v ∷ values) = (c, v) ∷ zip columns values
zip _ _ = []

unfoldable pub column : String → Row → Option Value
column name [] = none
column name ((c, v) ∷ row) = if str_eq name c then some v else column name row

unfoldable pub with_value : Option Value → Option (List Value) → Option (List Value)
with_value (some v) (some values) = some (v ∷ values)
with_value _ _ = none

-- The values of some columns of a row.
unfoldable pub pick : List String → Row → Option (List Value)
unfolding column with_value
pick [] row = some []
pick (name ∷ names) row = with_value (column name row) (pick names row)

-- The row that a statement adds, with the columns that the database fills in.
unfoldable pub added : Insert → List Value → Row
unfolding zip
added i returned = zip i.columns i.values ++ zip i.returning returned

-- The columns of the primary keys, as the migrations declare them.
unfoldable pub primary_key : String → List String
primary_key table =
    if str_eq table "pricing_defaults"
    then "provider_kind" ∷ "gpu_tier" ∷ "effective_from" ∷ []
    else if str_eq table "warm_medians"
    then "endpoint_id" ∷ []
    else "id" ∷ []

abbrev pub names_of : Row → List String
names_of [] = []
names_of ((name, v) ∷ row) = name ∷ names_of row

-- What the documentation says of a table with a primary key.
-- reads_back: a row that was added is the row with its key, and it has the values that were given for
-- its columns, where the column's type represents them exactly (`exact`; a timestamp keeps whole
-- microseconds), and those that were returned.
-- keeps: no statement changes a row of another table, and none without `DO UPDATE` a row that is
-- there.
pub record IsTable (db : Database) (exact : Value → Type 0) : Type 0 where
  pub reads_back :
      (i : Insert) (names : List String) {s t : db.State} {returned values : List Value}
      → db.execute i s ≡ some (returned, t)
      → All exact i.values
      → pick (primary_key i.table) (added i returned) ≡ some values
      → db.query
          (record { table = i.table; columns = names; key = zip (primary_key i.table) values })
          t
        ≡ pick names (added i returned)
  pub keeps :
      (i : Insert) (q : Select) {s t : db.State} {returned values : List Value}
      → db.execute i s ≡ some (returned, t)
      → (i.on_conflict ≡ raise) ⊎ (str_eq q.table i.table ≡ false)
      → names_of q.key ≡ primary_key q.table
      → db.query q s ≡ some values
      → db.query q t ≡ some values
