-- ===== src/Api/Records.antt =====
-- What the request log holds.
pub mod Probed
use mathlib.Core.List.{append-nil}
use evictor.Prelude.{
  ℕ, suc, ◌<◌, ◌≡◌, ◌↔◌, refl, ◌||◌, Option, none, some, List, [], ◌∷◌, ◌++◌, Text, codes, text_eq,
  if◌then◌else◌, take, concat, ltb, leb,
}
use evictor.Api.Attrs.{
  Attr, with_request_context, max_request_attrs, attributes, normal_key, has_key,
}
use evictor.Api.Logger.{
  Served, LogRecord, Completed, request_logger, run_calls, fixed_attrs, ok_if_unset, attributes_of,
  is_successful_probe,
}
use evictor.Api.Budget.{safe_ones, run_calls-take}

-- How many attributes have a key that is read as the given one.
unfoldable pub count_key : Text → List Attr → ℕ
count_key key [] = 0
count_key key (a ∷ attrs) =
    let rest = count_key key attrs in if text_eq key (normal_key a.key) then suc rest else rest

abbrev pub fixed_keys : List Text
fixed_keys = codes "method" ∷ codes "route" ∷ codes "status" ∷ codes "duration_ms" ∷ []

module _ (method route : Text) (status elapsed : ℕ) where
  -- Once, where the key is one of the four.
  IsOnce : Text → Type 0
  IsOnce key =
      count_key key (fixed_attrs method route status elapsed)
      ≡ (if has_key key fixed_keys then 1 else 0)

-- What the handler's attributes are in the end.
abbrev pub handler_attrs : Served → List Attr
handler_attrs served = take max_request_attrs (safe_ones (concat served.calls))

attributes-run_calls :
    (served : Served)
    → attributes_of (run_calls (some with_request_context) served.calls) ≡ handler_attrs served
unfolding attributes_of attributes
attributes-run_calls served = rw (run_calls-take served.calls) (append-nil (handler_attrs served))

module _ (random : Option (List ℕ)) (unix_nano : ℕ) (method : Text) (next : Text → Served)
    (elapsed : ℕ) where
  done : Completed
  unfolding request_logger
  done = request_logger random unix_nano method next elapsed

  served : Served
  unfolding done
  served = next done.x_request_id

  status : ℕ
  unfolding served
  status = ok_if_unset served.status

  full_record : LogRecord
  unfolding status
  full_record = record {
    request_id = done.x_request_id;
    attrs = fixed_attrs method served.route status elapsed ++ handler_attrs served;
  }

  done-log : done.log ≡ (if is_successful_probe served.route status then none else some full_record)
  unfolding full_record request_logger
  done-log = rw (attributes-run_calls served) refl
