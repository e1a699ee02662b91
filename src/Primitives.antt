-- ===== src/Primitives.antt =====
-- backend/internal/primitives/id.go: prefixed random identifiers.
pub mod Kinds
mod Witnesses
use evictor.Prelude.{
  ℕ, ◌%◌, Option, none, some, List, [], ◌∷◌, ◌++◌, Text, String, codes, get_elem?, length, map,
}

-- The kinds of objects that have identifiers, each with its constructor function.
pub data Kind : Type 0 where
  project endpoint provider request api_key snapshot : Kind

unfoldable pub prefix : Kind → Text
prefix project = codes "proj_"
prefix endpoint = codes "ep_"
prefix provider = codes "prov_"
prefix request = codes "req_"
prefix api_key = codes "key_"
prefix snapshot = codes "snap_"

abbrev pub id_alphabet : Text
id_alphabet = codes "abcdefghijklmnopqrstuvwxyz0123456789"

abbrev pub id_body_len : ℕ
id_body_len = 12

-- `s[i]`; the index is in range, or Go panics.
abbrev or_zero : Option ℕ → ℕ
or_zero none = 0
or_zero (some c) = c

unfoldable pub id_letter : ℕ → ℕ
id_letter b = or_zero (get_elem? id_alphabet (b % length id_alphabet))

unfoldable pub id_body : List ℕ → Text
unfolding id_letter
id_body [] = []
id_body (b ∷ bytes) = id_letter b ∷ id_body bytes

-- The bytes are those that crypto/rand reads, twelve of them; `none` is its error, and a panic.
unfoldable pub new_id : Kind → Option (List ℕ) → Option Text
unfolding prefix id_body
new_id kind none = none
new_id kind (some bytes) = some (prefix kind ++ id_body bytes)
