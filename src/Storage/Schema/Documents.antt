-- ===== src/Storage/Schema/Documents.antt =====
-- Which rows of the schema hold documents.
use evictor.Prelude.{
  ◌≡◌, refl, sym, ap, ◌∙◌, both_left, both_right, not, arith, Bool, true, false, ◌&&◌, Option, none,
  some, List, [], ◌∷◌,
}
use evictor.Storage.Json.{unmarshal}
use evictor.Storage.Sql.{Value, jsonb, Select}
use evictor.Storage.Schema.Columns.{
  ColumnType, string_type, bytea, bigint, int4, timestamptz, bool_type, json_type, Column,
}
use evictor.Storage.Schema.Reads.{
  Nullable, Raw, wrap_nullable, Fields, row_of, reads, columns_read, reads-row_of,
}

abbrev pub is_some {ℓ} : {A : Type ℓ} → Option A → Bool
is_some none = false
is_some (some a) = true

-- Whether `json.Unmarshal` takes the documents of the row.
unfoldable pub decodes : List Value → Bool
unfolding unmarshal
decodes [] = true
decodes (jsonb document ∷ values) = is_some (unmarshal document) && decodes values
decodes (_ ∷ values) = decodes values

-- Only a `jsonb` may hold a document that `json.Unmarshal` does not take.
abbrev is_json : ColumnType → Bool
is_json json_type = true
is_json _ = false

abbrev no_json : List Column → Bool
no_json [] = true
no_json (c ∷ columns) = not (is_json c.type) && no_json columns

decodes-wrap :
    (type : ColumnType) (nullable : Bool) (x : Nullable nullable (Raw type)) (values : List Value)
    → not (is_json type) ≡ true
    → decodes (wrap_nullable nullable type x ∷ values) ≡ decodes values
unfolding decodes
decodes-wrap json_type nullable x values h = absurd (ground arith)
decodes-wrap string_type true none values h = refl
decodes-wrap string_type true (some x) values h = refl
decodes-wrap string_type false x values h = refl
decodes-wrap bytea true none values h = refl
decodes-wrap bytea true (some x) values h = refl
decodes-wrap bytea false x values h = refl
decodes-wrap bigint true none values h = refl
decodes-wrap bigint true (some x) values h = refl
decodes-wrap bigint false x values h = refl
decodes-wrap int4 true none values h = refl
decodes-wrap int4 true (some x) values h = refl
decodes-wrap int4 false x values h = refl
decodes-wrap timestamptz true none values h = refl
decodes-wrap timestamptz true (some x) values h = refl
decodes-wrap timestamptz false x values h = refl
decodes-wrap bool_type true none values h = refl
decodes-wrap bool_type true (some x) values h = refl
decodes-wrap bool_type false x values h = refl

decodes-row_of :
    (columns : List Column) (fields : Fields columns)
    → no_json columns ≡ true
    → decodes (row_of columns fields) ≡ true
unfolding decodes
decodes-row_of [] fields h = refl
decodes-row_of (c ∷ columns) (x, fields) h =
    decodes-wrap c.type c.nullable x (row_of columns fields)
      (both_left (not (is_json c.type)) (no_json columns) h)
    ∙ decodes-row_of columns fields (both_right (not (is_json c.type)) (no_json columns) h)

pub row-decodes :
    (q : Select) (values : List Value)
    → no_json (columns_read q) ≡ true
    → reads q values ≡ true
    → true ≡ decodes values
row-decodes q values plain h =
    let (fields, e) = reads-row_of q values h in
    sym (ap decodes e ∙ decodes-row_of (columns_read q) fields plain)
