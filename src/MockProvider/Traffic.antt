-- ===== src/MockProvider/Traffic.antt =====
-- Calls of the store's methods in any order.
use evictor.Prelude.{
  ◌≡◌, inl, inr, refl, ap, ◌∙◌, String, Option, none, some, lookup, insert, lookup-insert,
  if◌then◌else◌, Option-cases, str_eq, eq_iff, arith,
}
use text.Mathlib.TextPositions.{eq_refl}
use evictor.MockProvider.Scenario.{Time}
use evictor.MockProvider.Endpoint.{EndpointState, new_endpoint, advance}
use evictor.MockProvider.Store.{Store, get, update, status, invoke, invoke_endpoint}

-- The endpoint of `id` as the next call will find it.
abbrev pub or_new : String → Time → Option EndpointState → EndpointState
or_new id now none = new_endpoint id now
or_new id now (some ep) = ep

abbrev pub found : String → Time → Store → EndpointState
found id now s = or_new id now (lookup id s)

-- `Get` creates a missing endpoint, cold and without faults, and changes no other one.
pub lookup-get :
    (id j : String) (now : Time) (s : Store)
    → ((get id now s).0 ≡ found id now s)
      × (lookup j (get id now s).1 ≡ (if str_eq id j then some (found id now s) else lookup j s))
unfolding get
lookup-get id j now s = elim (Option-cases (lookup id s)) [
  | inl e ↦ rw e (refl, lookup-insert id j (new_endpoint id now) s)
  | inr (ep, e) ↦ rw e (refl, ground (arith, eq_iff id j, ap (λ k. lookup k s)))
]

-- `Update` applies its function once, to the endpoint that is there or to a new one, returns what
-- it stores, and changes no other endpoint.
pub lookup-update :
    (id j : String) (now : Time) (fn : EndpointState → EndpointState) (s : Store)
    → ((update id now fn s).0 ≡ fn (found id now s))
      × (lookup j (update id now fn s).1
          ≡ (if str_eq id j then some (fn (found id now s)) else lookup j s))
unfolding update
lookup-update id j now fn s = elim (Option-cases (lookup id s)) [
  | inl e ↦
      let new = new_endpoint id now in
      rw e (ground (arith, lookup-insert id j (fn new) (insert id new s), lookup-insert id j new s))
  | inr (ep, e) ↦ rw e (refl, lookup-insert id j (fn ep) s)
]

-- The same for an endpoint that is there.
pub update-found :
    (id : String) (now : Time) (fn : EndpointState → EndpointState) (s : Store) {ep : EndpointState}
    → lookup id s ≡ some ep
    → (update id now fn s).0 ≡ fn ep
update-found id now fn s e = (lookup-update id id now fn s).0 ∙ ap (λ o. fn (or_new id now o)) e

pub updated :
    (id : String) (now : Time) (fn : EndpointState → EndpointState) (s : Store) {ep : EndpointState}
    → lookup id s ≡ some ep
    → lookup id (update id now fn s).1 ≡ some (fn ep)
updated id now fn s e =
    (lookup-update id id now fn s).1 ∙ ground (arith, eq_refl id, ap (λ o. fn (or_new id now o)) e)

pub got :
    (id : String) (now : Time) (s : Store) → lookup id (get id now s).1 ≡ some (found id now s)
got id now s = (lookup-get id id now s).1 ∙ ground (arith, eq_refl id)

module _ (id : String) (now : Time) (s : Store) {ep : EndpointState}
    (e : lookup id s ≡ some ep) where
  pub status_answer :
      ((status id now s).0 ≡ advance ep now)
      × (lookup id (status id now s).1 ≡ some (advance ep now))
  unfolding status
  status_answer =
      (update-found id now (λ x. advance x now) s e, updated id now (λ x. advance x now) s e)

  pub invoke_answer :
      ((invoke id now s).0 ≡ invoke_endpoint now ep)
      × (lookup id (invoke id now s).1 ≡ some (invoke_endpoint now ep))
  unfolding invoke
  invoke_answer =
      (update-found id now (invoke_endpoint now) s e, updated id now (invoke_endpoint now) s e)
