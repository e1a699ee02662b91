-- ===== src/Primitives/Kinds.antt =====
-- The shape of the identifiers.
use evictor.Prelude.{
  ℕ, suc, zero, ◌%◌, ◌<◌, ◌≡◌, refl, ap, ◌∙◌, Bool, true, ◌&&◌, ◌||◌, both_left, both_right, Option,
  none, some, List, [], ◌∷◌, ◌++◌, Text, codes, get_elem?, length, All, All-get, leb, starts_with,
  if◌then◌else◌, arith,
}
use evictor.Primitives.{
  Kind, project, endpoint, provider, request, api_key, snapshot, prefix, id_alphabet, id_body_len,
  id_letter, id_body, new_id,
}

-- Who sees an identifier can tell what it identifies.
unfoldable pub read_kind : Text → Option Kind
unfolding starts_with
read_kind s =
    if starts_with (codes "proj_") s
    then some project
    else if starts_with (codes "ep_") s
    then some endpoint
    else if starts_with (codes "prov_") s
    then some provider
    else if starts_with (codes "req_") s
    then some request
    else if starts_with (codes "key_") s
    then some api_key
    else if starts_with (codes "snap_") s
    then some snapshot
    else none

abbrev pub is_id_letter : ℕ → Bool
is_id_letter c = (leb b'a' c && leb c b'z') || (leb b'0' c && leb c b'9')

abbrev pub IsIdBody : Text → Type 0
IsIdBody = All (λ c. is_id_letter c ≡ true)

all_letters : Text → Bool
all_letters [] = true
all_letters (c ∷ s) = is_id_letter c && all_letters s

all_letters-IsIdBody : (s : Text) → all_letters s ≡ true → IsIdBody s
unfolding all_letters
all_letters-IsIdBody [] h = tt
all_letters-IsIdBody (c ∷ s) h = (
  both_left (is_id_letter c) (all_letters s) h,
  all_letters-IsIdBody s (both_right (is_id_letter c) (all_letters s) h),
)

id_alphabet-IsIdBody : IsIdBody id_alphabet
unfolding all_letters
id_alphabet-IsIdBody = all_letters-IsIdBody id_alphabet refl

get_elem?-in_range : (s : Text) (i : ℕ) → i < length s → (c : ℕ) × (get_elem? s i ≡ some c)
get_elem?-in_range [] i h = absurd (omega arith)
get_elem?-in_range (c ∷ s) zero h = (c, refl)
get_elem?-in_range (c ∷ s) (suc i) h = get_elem?-in_range s i (omega arith)

id_letter_lem : (b : ℕ) → is_id_letter (id_letter b) ≡ true
unfolding id_letter
id_letter_lem b =
    let found = get_elem?-in_range id_alphabet (b % 36) (omega arith) in
    rw found.1
      (All-get (λ c. is_id_letter c ≡ true) id_alphabet (b % 36) id_alphabet-IsIdBody found.1)

id_body-IsIdBody : (bytes : List ℕ) → IsIdBody (id_body bytes)
unfolding id_body
id_body-IsIdBody [] = tt
id_body-IsIdBody (b ∷ bytes) = (id_letter_lem b, id_body-IsIdBody bytes)

read_kind-prefix : (kind : Kind) (body : Text) → read_kind (prefix kind ++ body) ≡ some kind
unfolding read_kind prefix
read_kind-prefix project body = refl
read_kind-prefix endpoint body = refl
read_kind-prefix provider body = refl
read_kind-prefix request body = refl
read_kind-prefix api_key body = refl
read_kind-prefix snapshot body = refl

length-id_body : (bytes : List ℕ) → length (id_body bytes) ≡ length bytes
unfolding id_body
length-id_body [] = refl
length-id_body (b ∷ bytes) = ap suc (length-id_body bytes)

-- An identifier made from twelve random bytes is a prefix, from which the kind of the object can be
-- read back whatever follows, and then twelve small letters and digits.
pub new_id-read_kind :
    (kind : Kind) (bytes : List ℕ)
    → length bytes ≡ id_body_len
    → (id : Text) × (body : Text) × ((new_id kind (some bytes) ≡ some id)
        × ((read_kind id ≡ some kind)
            × ((id ≡ prefix kind ++ body) × ((length body ≡ id_body_len) × IsIdBody body))))
unfolding new_id
new_id-read_kind kind bytes h = (
  prefix kind ++ id_body bytes,
  id_body bytes,
  (
    refl,
    (
      read_kind-prefix kind (id_body bytes),
      (refl, (length-id_body bytes ∙ h, id_body-IsIdBody bytes)),
    ),
  ),
)
