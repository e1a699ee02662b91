-- ===== src/Storage/Json/RoundTrip.antt =====
-- A map of strings that is marshalled is read back.
use mathlib.Core.List.{append-nil, append_assoc}
use evictor.Prelude.{
  ◌≡◌, refl, sym, ap, ◌∙◌, Option, none, some, [], ◌∷◌, ◌++◌, Text, All, All-append,
}
use evictor.Storage.Json.{Entries, sorted, members, marshal, read_members, unmarshal}
use evictor.Storage.Json.Order.{IsAbove, IsBelow, IsSorted, put_last, sorted-IsSorted}

-- Every key of `m` is above those of `acc`.
abbrev IsAfter : Entries → Entries → Type 0
IsAfter acc m = All (λ e. All (IsBelow e.0) acc) m

All-extended :
    (k v : Text) (acc m : Entries)
    → IsAfter acc m
    → All (IsAbove k) m
    → IsAfter (acc ++ (k, v) ∷ []) m
All-extended k v acc [] h a = tt
All-extended k v acc (e ∷ m) (b, h) (c, a) =
    (All-append (IsBelow e.0) acc ((k, v) ∷ []) b (c, tt), All-extended k v acc m h a)

read_members-members :
    (acc m : Entries) → IsSorted m → IsAfter acc m → read_members (members m) acc ≡ some (acc ++ m)
unfolding read_members members
read_members-members acc [] s h = ap (λ l. some l) (sym (append-nil acc))
read_members-members acc ((k, v) ∷ m) (a, s) (b, h) =
    ap (read_members (members m)) (put_last k v acc b)
    ∙ read_members-members (acc ++ (k, v) ∷ []) m s (All-extended k v acc m h a)
    ∙ ap (λ l. some l) (append_assoc acc ((k, v) ∷ []) m)

All-empty : (m : Entries) → IsAfter [] m
All-empty [] = tt
All-empty (e ∷ m) = (tt, All-empty m)

abbrev pub sorted_map : Option Entries → Option Entries
sorted_map none = none
sorted_map (some m) = some (sorted m)

-- Nil stays nil, and another map comes back with its entries in the order of their keys.
pub unmarshal-marshal : (m : Option Entries) → unmarshal (marshal m) ≡ some (sorted_map m)
unfolding unmarshal marshal
unmarshal-marshal none = refl
unmarshal-marshal (some m) =
    rw (unmarshal, read_members-members [] (sorted m) (sorted-IsSorted m) (All-empty (sorted m)))
      refl
