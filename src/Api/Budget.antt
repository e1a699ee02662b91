-- ===== src/Api/Budget.antt =====
-- Any calls of `AddAttrs`, against a list of the safe attributes.
use evictor.Prelude.{
  ◌≤◌, ◌≡◌, inl, inr, refl, sym, ap, ◌∙◌, true, false, Bool-cases, some, List, [], ◌∷◌, ◌++◌,
  if◌then◌else◌, All, length, length-append, take, concat, take-append, take_all, ◌==◌, ==_iff,
  arith,
}
use mathlib.Core.List.{append_assoc, append-nil}
use evictor.Api.Logger.{run_calls}
use evictor.Api.Attrs.{
  Attr, with_request_context, max_request_attrs, add_each, add_attrs, is_safe_request_attr,
}

unfoldable pub safe_ones : List Attr → List Attr
safe_ones [] = []
safe_ones (a ∷ attrs) = if is_safe_request_attr a then a ∷ safe_ones attrs else safe_ones attrs

abbrev pub IsSafe : Attr → Type 0
IsSafe a = is_safe_request_attr a ≡ true

add_each-full :
    (state attrs : List Attr)
    → (length state == max_request_attrs) ≡ true
    → add_each state attrs ≡ state
unfolding add_each
add_each-full state [] h = refl
add_each-full state (a ∷ attrs) h = rw h refl

add_each-append :
    (state xs ys : List Attr) → add_each (add_each state xs) ys ≡ add_each state (xs ++ ys)
unfolding add_each
add_each-append state [] ys = refl
add_each-append state (a ∷ xs) ys =
    let more = add_each-append (if is_safe_request_attr a then state ++ a ∷ [] else state) xs ys in
    elim (Bool-cases (length state == max_request_attrs)) [
      | inl e ↦ rw e (add_each-full state ys e)
      | inr e ↦ rw e more
    ]

full_take :
    (state rest : List Attr)
    → (length state == max_request_attrs) ≡ true
    → take max_request_attrs (state ++ rest) ≡ state
full_take state rest e =
    ap (λ n. take n (state ++ rest)) (sym ((==_iff (length state) max_request_attrs).0 e))
    ∙ take-append state rest

not_full :
    (state : List Attr) (a : Attr)
    → length state ≤ max_request_attrs
    → (length state == max_request_attrs) ≡ false
    → length (state ++ a ∷ []) ≤ max_request_attrs
not_full state a h e = ground (arith, length-append state (a ∷ []))

add_each-take :
    (state attrs : List Attr)
    → length state ≤ max_request_attrs
    → add_each state attrs ≡ take max_request_attrs (state ++ safe_ones attrs)
unfolding add_each safe_ones
add_each-take state [] h = sym (
    take_all max_request_attrs (state ++ []) (omega (arith, length-append state []))
    ∙ append-nil state)
add_each-take state (a ∷ attrs) h =
    let taken = add_each-take (state ++ a ∷ []) attrs in
    let skipped = add_each-take state attrs h in
    elim (Bool-cases (length state == max_request_attrs)) [
      | inl e ↦ rw e (sym (full_take state (safe_ones (a ∷ attrs)) e))
      | inr e ↦ elim (Bool-cases (is_safe_request_attr a)) [
        | inl k ↦ rw e (
            rw k (
              taken (not_full state a h e)
              ∙ ap (take max_request_attrs) (append_assoc state (a ∷ []) (safe_ones attrs))))
        | inr k ↦ rw e (rw k skipped)
      ]
    ]

run_calls-eq-add_each :
    (state : List Attr) (calls : List (List Attr))
    → run_calls (some state) calls ≡ some (add_each state (concat calls))
unfolding run_calls add_attrs add_each
run_calls-eq-add_each state [] = refl
run_calls-eq-add_each state (attrs ∷ calls) =
    run_calls-eq-add_each (add_each state attrs) calls
    ∙ ap (λ s. some s) (add_each-append state attrs (concat calls))

-- After any calls of `AddAttrs` a request's context holds the first sixteen of the safe attributes
-- that they gave, in their order: how the attributes are spread over calls makes no difference.
pub run_calls-take :
    (calls : List (List Attr))
    → run_calls (some with_request_context) calls
      ≡ some (take max_request_attrs (safe_ones (concat calls)))
unfolding with_request_context
run_calls-take calls =
    run_calls-eq-add_each [] calls
    ∙ ap (λ s. some s) (add_each-take [] (concat calls) (omega arith))

pub IsSafe-safe_ones : (attrs : List Attr) → All IsSafe (safe_ones attrs)
unfolding safe_ones
IsSafe-safe_ones [] = tt
IsSafe-safe_ones (a ∷ attrs) = elim (Bool-cases (is_safe_request_attr a)) [
  | inl e ↦ rw e (e, IsSafe-safe_ones attrs)
  | inr e ↦ rw e (IsSafe-safe_ones attrs)
]
