-- ===== src/Api/Witnesses.antt =====
-- Requests with concrete handlers.
use evictor.Prelude.{
  ◌^◌, ◌-◌, ◌≡◌, ◌↔◌, refl, true, false, none, some, List, [], ◌∷◌, Text, codes, text_eq, take,
}
use evictor.Prelude.Int.{pos}
use evictor.Metrics.{Counters, new_counters}
use evictor.Api.Probes.{Dependencies}
use evictor.Api.Attrs.{
  Attr, Value, string, int64, any, group, log_valuer, nil, cons, is_safe_request_attr, is_safe_key,
  is_safe_value, has_key, normal_key, resolve, max_request_attrs, with_request_context,
}
use evictor.Api.Safety.{Inside, itself, deeper, first, is_plain, is_safe_iff}
use evictor.Api.Logger.{Served, LogRecord, run_calls}
use evictor.Api.Budget.{safe_ones, run_calls-take}

abbrev endpoint : Attr
endpoint = record { key = codes "endpoint"; value = string (codes "ep_1") }

abbrev key_group : Value
key_group = group (cons (codes "id") (int64 (pos 7)) (cons (codes "Key-Hash") any nil))

abbrev api_key : Attr
api_key = record { key = codes "caller"; value = log_valuer key_group }

abbrev bare_group : Attr
bare_group = record { key = codes "caller"; value = group (cons (codes "id") (int64 (pos 7)) nil) }

abbrev identity : Attr
identity = record { key = codes "id"; value = int64 (pos 7) }

bare_is_safe : is_safe_request_attr bare_group ≡ true
unfolding is_safe_request_attr is_safe_key is_safe_value normal_key text_eq has_key
bare_is_safe = refl

inside : Inside identity bare_group
unfolding resolve
inside = deeper refl first itself

is_safe_iff_example :
    (is_safe_request_attr bare_group ≡ true)
    ↔ ((a : Attr) → Inside a bare_group → is_plain a ≡ true)
is_safe_iff_example = is_safe_iff bare_group

inside_is_plain : is_plain identity ≡ true
inside_is_plain = (is_safe_iff bare_group).0 bare_is_safe identity inside

key_is_unsafe : is_safe_request_attr api_key ≡ false
unfolding is_safe_request_attr is_safe_key is_safe_value normal_key text_eq has_key
key_is_unsafe = refl

abbrev some_calls : List (List Attr)
some_calls = (endpoint ∷ api_key ∷ []) ∷ (identity ∷ []) ∷ []

run_calls-take_example :
    run_calls (some with_request_context) some_calls
    ≡ some (take max_request_attrs (safe_ones (endpoint ∷ api_key ∷ identity ∷ [])))
run_calls-take_example = run_calls-take some_calls

abbrev next : Text → Served
next request_id = record { status = 0; route = codes "/v1/x"; calls = some_calls }

abbrev log_record : LogRecord
log_record = record {
  request_id = codes "0aff";
  attrs =
      record { key = codes "method"; value = string (codes "OTHER") }
      ∷ record { key = codes "route"; value = string (codes "/v1/x") }
      ∷ record { key = codes "status"; value = int64 (pos 200) }
      ∷ record { key = codes "duration_ms"; value = int64 (pos 3) }
      ∷ endpoint
      ∷ identity
      ∷ [];
}

abbrev counters : Counters
counters = record (new_counters 100) { queue_depth = 7; jobs_abandoned = 2 ^ 64 - 1 }

abbrev dependencies : Dependencies
dependencies = record { database = none; metrics = some counters }
