-- ===== src/Api/Attrs.antt =====
-- backend/internal/api/middleware/request_context.go: the attributes that handlers add to the log
-- record of a request.
use evictor.Prelude.{
  ℕ, zero, suc, ◌&&◌, Bool, true, false, not, Option, none, some, List, [], ◌∷◌, ◌++◌, Text, codes,
  text_eq, is_blank, to_lower, map, length, ◌==◌, if◌then◌else◌,
}
use evictor.Prelude.Int.{ℤ}

-- The kinds of slog's values. A LogValuer is known by the value that its `LogValue` gives.
mutual
  pub data Value : Type 0 where
    any : Value
    bool : Bool → Value
    int64 : ℤ → Value
    uint64 float64 duration time : ℕ → Value
    string : Text → Value
    group : Attrs → Value
    log_valuer : Value → Value

  pub data Attrs : Type 0 where
    nil : Attrs
    cons : (key : Text) → (value : Value) → Attrs → Attrs

pub record Attr : Type 0 where
  pub key : Text
  pub value : Value

-- slog calls `LogValue` at most this often, and then takes an error, of the kind any.
abbrev pub max_log_values : ℕ
max_log_values = 100

-- `Value.Resolve`
unfoldable pub resolve : ℕ → Value → Value
resolve zero v = any
resolve (suc n) (log_valuer v) = resolve n v
resolve (suc n) v = v

abbrev pub max_request_attrs : ℕ
max_request_attrs = 16

abbrev pub protected_keys : List Text
protected_keys =
    codes "api_key"
    ∷ codes "api_key_hash"
    ∷ codes "authorization"
    ∷ codes "credentials"
    ∷ codes "credentials_encrypted"
    ∷ codes "duration_ms"
    ∷ codes "key_hash"
    ∷ codes "method"
    ∷ codes "password"
    ∷ codes "provider_token"
    ∷ codes "request_id"
    ∷ codes "route"
    ∷ codes "secret"
    ∷ codes "status"
    ∷ codes "token"
    ∷ []

unfoldable pub has_key : Text → List Text → Bool
has_key key [] = false
has_key key (k ∷ keys) = if text_eq key k then true else has_key key keys

abbrev pub underscore : ℕ → ℕ
underscore c = if c == b'-' then b'_' else if c == b'.' then b'_' else c

-- The key in lower case, with its dashes and dots replaced.
unfoldable pub normal_key : Text → Text
unfolding to_lower
normal_key key = map underscore (to_lower key)

unfoldable pub is_safe_key : Text → Bool
is_safe_key key = not (is_blank (normal_key key)) && not (has_key (normal_key key) protected_keys)

unfoldable mutual
  -- The test of the resolved value, the calls of `LogValue` counted down.
  pub is_safe_value : ℕ → Value → Bool
  is_safe_value zero v = false
  is_safe_value (suc n) any = false
  is_safe_value (suc n) (group attrs) = are_safe attrs
  is_safe_value (suc n) (log_valuer v) = is_safe_value n v
  is_safe_value (suc n) (bool _) = true
  is_safe_value (suc n) (int64 _) = true
  is_safe_value (suc n) (uint64 _) = true
  is_safe_value (suc n) (float64 _) = true
  is_safe_value (suc n) (duration _) = true
  is_safe_value (suc n) (time _) = true
  is_safe_value (suc n) (string _) = true

  pub are_safe : Attrs → Bool
  are_safe nil = true
  are_safe (cons key value rest) =
      is_safe_key key && is_safe_value max_log_values value && are_safe rest

unfoldable pub is_safe_request_attr : Attr → Bool
is_safe_request_attr attr = is_safe_key attr.key && is_safe_value max_log_values attr.value

abbrev pub RequestContext : Type 0
RequestContext = List Attr

unfoldable pub with_request_context : RequestContext
with_request_context = []

-- The loop of `AddAttrs`.
unfoldable pub add_each : RequestContext → List Attr → RequestContext
add_each state [] = state
add_each state (attr ∷ attrs) =
    let next = if is_safe_request_attr attr then state ++ attr ∷ [] else state in
    let rest = add_each next attrs in if length state == max_request_attrs then state else rest

-- The context is `none` outside of the request logger.
unfoldable pub add_attrs : Option RequestContext → List Attr → Option RequestContext
unfolding add_each
add_attrs none attrs = none
add_attrs (some state) attrs = some (add_each state attrs)

unfoldable pub attributes : RequestContext → List Attr
attributes state = state ++ []
