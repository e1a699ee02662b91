-- ===== src/Storage/Tables.antt =====
-- A database of rows in memory, newest first, which keeps every value exactly.
pub mod Laws
use evictor.Prelude.{
  ◌≡◌, refl, sym, ap, subst, ◌∙◌, String, str_eq, eq_iff, Bool, true, false, ◌&&◌, Option, none,
  some, List, [], ◌∷◌, ◌++◌, ◌||◌, text_eq, text_eq_iff, ◌==◌, ==_iff, All, map, if◌then◌else◌,
  both, arith,
}
use evictor.Prelude.Int.{ℤ, pos, negsuc}
use evictor.Storage.Json.{Json, Members, string, other, object}
use evictor.Storage.Sql.{
  Value, text, bytes, integer, instant, boolean, jsonb, null, Row, Insert, Select, Database,
  OnConflict, raise, do_update, zip, column, pick, added, primary_key,
}

bool_eq : Bool → Bool → Bool
bool_eq true b = b
bool_eq false true = false
bool_eq false false = true

int_eq : ℤ → ℤ → Bool
int_eq (pos m) (pos n) = m == n
int_eq (negsuc m) (negsuc n) = m == n
int_eq _ _ = false

mutual
  unfolding text_eq

  json_eq : Json → Json → Bool
  json_eq Json.null Json.null = true
  json_eq (string s) (string t) = text_eq s t
  json_eq (other s) (other t) = text_eq s t
  json_eq (object a) (object b) = members_eq a b
  json_eq _ _ = false

  members_eq : Members → Members → Bool
  members_eq Members.nil Members.nil = true
  members_eq (Members.cons j v a) (Members.cons k w b) =
      text_eq j k && (json_eq v w && members_eq a b)
  members_eq _ _ = false

mutual
  unfolding json_eq

  json_eq_refl : (j : Json) → json_eq j j ≡ true
  json_eq_refl Json.null = refl
  json_eq_refl (string s) = (text_eq_iff s s).1 refl
  json_eq_refl (other s) = (text_eq_iff s s).1 refl
  json_eq_refl (object a) = members_eq_refl a

  members_eq_refl : (a : Members) → members_eq a a ≡ true
  members_eq_refl Members.nil = refl
  members_eq_refl (Members.cons k v a) =
      both (text_eq k k) (json_eq v v && members_eq a a) ((text_eq_iff k k).1 refl)
        (both (json_eq v v) (members_eq a a) (json_eq_refl v) (members_eq_refl a))

unfoldable pub value_eq : Value → Value → Bool
unfolding text_eq int_eq bool_eq json_eq
value_eq (text s) (text t) = text_eq s t
value_eq (bytes s) (bytes t) = text_eq s t
value_eq (integer a) (integer b) = int_eq a b
value_eq (instant a) (instant b) = a == b
value_eq (boolean a) (boolean b) = bool_eq a b
value_eq (jsonb a) (jsonb b) = json_eq a b
value_eq null null = true
value_eq _ _ = false

pub value_eq_refl : (v : Value) → value_eq v v ≡ true
unfolding value_eq int_eq bool_eq
value_eq_refl (text s) = (text_eq_iff s s).1 refl
value_eq_refl (bytes s) = (text_eq_iff s s).1 refl
value_eq_refl (integer (pos n)) = (==_iff n n).1 refl
value_eq_refl (integer (negsuc n)) = (==_iff n n).1 refl
value_eq_refl (instant n) = (==_iff n n).1 refl
value_eq_refl (boolean true) = refl
value_eq_refl (boolean false) = refl
value_eq_refl (jsonb a) = json_eq_refl a
value_eq_refl null = refl

unfoldable pub is_value : Option Value → Value → Bool
unfolding value_eq
is_value none v = false
is_value (some u) v = value_eq u v

unfoldable pub matches : Row → Row → Bool
unfolding is_value column
matches [] row = true
matches ((name, v) ∷ key) row = is_value (column name row) v && matches key row

abbrev pub Stored : Type 0
Stored = List (String × Row)

unfoldable pub find : Select → Stored → Option (List Value)
unfolding matches pick
find q [] = none
find q ((table, row) ∷ s) =
    let rest = find q s in
    if str_eq q.table table && matches q.key row then pick q.columns row else rest

-- Whether there is a row.
unfoldable pub has : String → Row → Stored → Bool
unfolding matches
has table key [] = false
has table key ((t, row) ∷ s) = (str_eq table t && matches key row) || has table key s

unfoldable pub with_returned : List Value → Option Stored → Option (List Value × Stored)
with_returned returned none = none
with_returned returned (some s) = some (returned, s)

unfoldable pub put : OnConflict → String → Row → Option (List Value) → Stored → Option Stored
unfolding has
put do_update table row key s = some ((table, row) ∷ s)
put raise table row none s = none
put raise table row (some values) s =
    if has table (zip (primary_key table) values) s then none else some (s ++ (table, row) ∷ [])

unfoldable pub append : Insert → Stored → Option (List Value × Stored)
unfolding added put
append i s =
    let returned = map (λ _. instant 7) i.returning in
    let row = added i returned in
    with_returned returned (put i.on_conflict i.table row (pick (primary_key i.table) row) s)

unfoldable pub tables : Database
unfolding find append
tables = record { State = Stored; execute = append; query = find }
