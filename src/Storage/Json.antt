-- ===== src/Storage/Json.antt =====
-- What backend/internal/storage/store.go uses of encoding/json: `json.Marshal` and `json.Unmarshal` of
-- a `map[string]string`, between a map and a document.
pub mod Order
pub mod RoundTrip
use Prim.Native.Nat.{compare, Ordering}
use evictor.Prelude.{
  ◌≡◌, Bool, true, false, Option, none, some, List, [], ◌∷◌, Text, text_eq, if◌then◌else◌,
}

mutual
  -- `other` is a boolean, a number or an array, by its text. The members of an object have no order:
  -- they are listed by their keys.
  pub data Json : Type 0 where
    null : Json
    string : Text → Json
    other : Text → Json
    object : Members → Json

  pub data Members : Type 0 where
    nil : Members
    cons : (key : Text) (value : Json) (rest : Members) → Members

-- The order of Go's strings; in UTF-8 bytes and code points are ordered alike.
unfoldable pub text_compare : Text → Text → Ordering
text_compare [] [] = Ordering.eq
text_compare [] (b ∷ t) = Ordering.lt
text_compare (a ∷ s) [] = Ordering.gt
text_compare (a ∷ s) (b ∷ t) =
    let rest = text_compare s t in
    elim (compare a b) [
      | Ordering.eq ↦ rest
      | Ordering.lt ↦ Ordering.lt
      | Ordering.gt ↦ Ordering.gt
    ]

-- A `map[string]string` that is not nil: its entries, where the first with a key counts.
abbrev pub Entries : Type 0
Entries = List (Text × Text)

unfoldable pub entry : Text → Entries → Option Text
entry key [] = none
entry key ((k, v) ∷ m) = let rest = entry key m in if text_eq key k then some v else rest

-- `m[key] = value`, where the entries are kept in the order of their keys.
unfoldable pub put : Text → Text → Entries → Entries
unfolding text_compare
put key value [] = (key, value) ∷ []
put key value ((k, v) ∷ m) =
    let later = put key value m in
    elim (text_compare key k) [
      | Ordering.lt ↦ (key, value) ∷ (k, v) ∷ m
      | Ordering.eq ↦ (key, value) ∷ m
      | Ordering.gt ↦ (k, v) ∷ later
    ]

-- `json.Marshal` sorts a map by its keys.
unfoldable pub sorted : Entries → Entries
unfolding put
sorted [] = []
sorted ((k, v) ∷ m) = put k v (sorted m)

unfoldable pub members : Entries → Members
members [] = Members.nil
members ((k, v) ∷ m) = Members.cons k (string v) (members m)

-- `none` is a nil map. There is no error for a map of strings.
unfoldable pub marshal : Option Entries → Json
unfolding sorted members
marshal none = Json.null
marshal (some m) = object (members (sorted m))

-- The members are read in turn into the map: a null is the empty string, and anything else that is no
-- string is an error.
unfoldable pub read_members : Members → Entries → Option Entries
unfolding put
read_members Members.nil m = some m
read_members (Members.cons key (string value) rest) m = read_members rest (put key value m)
read_members (Members.cons key Json.null rest) m = read_members rest (put key [] m)
read_members (Members.cons key _ rest) m = none

unfoldable pub unmarshal : Json → Option (Option Entries)
unfolding read_members
unmarshal Json.null = some none
unmarshal (object ms) = elim (read_members ms []) [ none ↦ none | some m ↦ some (some m) ]
unmarshal _ = none
