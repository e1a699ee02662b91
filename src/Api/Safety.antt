-- ===== src/Api/Safety.antt =====
-- What `isSafeRequestAttr` lets through, against a description of what an attribute contains.
use evictor.Prelude.{
  ℕ, zero, suc, ◌≡◌, ◌↔◌, ◌⊎◌, inl, inr, refl, sym, ap, ◌∙◌, Bool, true, false, not, ◌&&◌,
  both_left, both_right, both, both-eq-false, Bool-cases, arith,
}
use evictor.Api.Attrs.{
  Value, any, group, log_valuer, bool, int64, uint64, float64, duration, time, string, Attrs, nil,
  cons, Attr, max_log_values, resolve, is_safe_key, is_safe_value, are_safe, is_safe_request_attr,
}

pub data Child : Attr → Attrs → Type 0 where
  first :
      {key : _} {value : Value} {rest : Attrs}
      → Child (record { key = key; value = value }) (cons key value rest)
  later :
      {key : _} {value : Value} {rest : Attrs} {a : Attr}
      → Child a rest
      → Child a (cons key value rest)

-- `Inside a b`: the attribute b is a, or it resolves to a group with a inside.
pub data Inside : Attr → Attr → Type 0 where
  itself : {a : Attr} → Inside a a
  deeper :
      {a b c : Attr} {children : Attrs}
      → resolve max_log_values b.value ≡ group children
      → Child c children
      → Inside a c
      → Inside a b

unfoldable pub is_any : Value → Bool
is_any any = true
is_any _ = false

-- A key that may be logged, and a value that is not of the kind any.
unfoldable pub is_plain : Attr → Bool
is_plain a = is_safe_key a.key && not (is_any (resolve max_log_values a.value))

-- The test of a value that is resolved already.
is_safe_resolved : Value → Bool
unfolding are_safe
is_safe_resolved any = false
is_safe_resolved (group children) = are_safe children
is_safe_resolved _ = true

is_safe_value-resolve : (n : ℕ) (v : Value) → is_safe_value n v ≡ is_safe_resolved (resolve n v)
unfolding resolve is_safe_value is_safe_resolved
is_safe_value-resolve zero v = refl
is_safe_value-resolve (suc n) (log_valuer v) = is_safe_value-resolve n v
is_safe_value-resolve (suc n) any = refl
is_safe_value-resolve (suc n) (group children) = refl
is_safe_value-resolve (suc n) (bool b) = refl
is_safe_value-resolve (suc n) (int64 b) = refl
is_safe_value-resolve (suc n) (uint64 b) = refl
is_safe_value-resolve (suc n) (float64 b) = refl
is_safe_value-resolve (suc n) (duration b) = refl
is_safe_value-resolve (suc n) (time b) = refl
is_safe_value-resolve (suc n) (string b) = refl

safe-Child :
    (children : Attrs) {c : Attr}
    → are_safe children ≡ true
    → Child c children
    → is_safe_request_attr c ≡ true
unfolding is_safe_value is_safe_request_attr
safe-Child nil h c = elim c [ ]
safe-Child (cons key value rest) h first =
    both_left (is_safe_key key && is_safe_value max_log_values value) (are_safe rest) h
safe-Child (cons key value rest) h (later c) =
    safe-Child rest
      (both_right (is_safe_key key && is_safe_value max_log_values value) (are_safe rest) h) c

safe_resolved :
    (b : Attr)
    → is_safe_request_attr b ≡ true
    → is_safe_resolved (resolve max_log_values b.value) ≡ true
unfolding is_safe_request_attr
safe_resolved b h =
    sym (is_safe_value-resolve max_log_values b.value)
    ∙ both_right (is_safe_key b.key) (is_safe_value max_log_values b.value) h

not_any : (v : Value) → is_safe_resolved v ≡ true → not (is_any v) ≡ true
unfolding is_safe_resolved is_any
not_any any h = h
not_any (group c) h = refl
not_any (log_valuer c) h = refl
not_any (bool b) h = refl
not_any (int64 b) h = refl
not_any (uint64 b) h = refl
not_any (float64 b) h = refl
not_any (duration b) h = refl
not_any (time b) h = refl
not_any (string b) h = refl

safe_is_plain : (b : Attr) → is_safe_request_attr b ≡ true → is_plain b ≡ true
unfolding is_safe_request_attr is_plain
safe_is_plain b h =
    both (is_safe_key b.key) (not (is_any (resolve max_log_values b.value)))
      (both_left (is_safe_key b.key) (is_safe_value max_log_values b.value) h)
      (not_any (resolve max_log_values b.value) (safe_resolved b h))

Inside-is_plain : {a b : Attr} → is_safe_request_attr b ≡ true → Inside a b → is_plain a ≡ true
unfolding is_safe_resolved
Inside-is_plain {a} {b} h itself = safe_is_plain b h
Inside-is_plain {a} {b} h (deeper {children = children} e c i) =
    Inside-is_plain (safe-Child children (sym (ap is_safe_resolved e) ∙ safe_resolved b h) c) i

abbrev Culprit : Attr → Type 0
Culprit b = (a : Attr) × (Inside a b × (is_plain a ≡ false))

abbrev CulpritIn : Attrs → Type 0
CulpritIn children = (c : Attr) × (Child c children × Culprit c)

left_false : (a b : Bool) → a ≡ false → (a && b) ≡ false
left_false a b h = ground arith

right_false : (a b : Bool) → not b ≡ false → (a && not b) ≡ false
right_false a b h = ground arith

unsafe-Culprit :
    (b : Attr)
    → (is_safe_key b.key ≡ false)
      ⊎ ((is_any (resolve max_log_values b.value) ≡ true)
          ⊎ ((children : Attrs) × ((resolve max_log_values b.value ≡ group children)
                × CulpritIn children)))
    → Culprit b
unfolding is_plain
unsafe-Culprit b (inl e) =
    (b, (itself, left_false (is_safe_key b.key) (not (is_any (resolve max_log_values b.value))) e))
unsafe-Culprit b (inr (inl e)) = (
  b,
  (itself, right_false (is_safe_key b.key) (is_any (resolve max_log_values b.value)) (ap not e)),
)
unsafe-Culprit b (inr (inr (children, (e, (c, (child, (a, (inside, h)))))))) =
    (a, (deeper e child inside, h))

mutual
  unfolding resolve is_safe_value is_any

  unsafe_value :
      (n : ℕ) (v : Value)
      → is_safe_value n v ≡ false
      → (is_any (resolve n v) ≡ true)
        ⊎ ((children : Attrs) × ((resolve n v ≡ group children) × CulpritIn children))
  unsafe_value zero v h = inl refl
  unsafe_value (suc n) any h = inl refl
  unsafe_value (suc n) (group children) h = inr (children, (refl, unsafe_attrs children h))
  unsafe_value (suc n) (log_valuer v) h = unsafe_value n v h
  unsafe_value (suc n) (bool b) h = absurd (ground arith)
  unsafe_value (suc n) (int64 b) h = absurd (ground arith)
  unsafe_value (suc n) (uint64 b) h = absurd (ground arith)
  unsafe_value (suc n) (float64 b) h = absurd (ground arith)
  unsafe_value (suc n) (duration b) h = absurd (ground arith)
  unsafe_value (suc n) (time b) h = absurd (ground arith)
  unsafe_value (suc n) (string b) h = absurd (ground arith)

  unsafe_attrs : (children : Attrs) → are_safe children ≡ false → CulpritIn children
  unsafe_attrs nil h = absurd (ground arith)
  unsafe_attrs (cons key value rest) h =
      elim (both-eq-false (is_safe_key key && is_safe_value max_log_values value) (are_safe rest)
        h) [
          | inl e ↦ (
            record { key = key; value = value },
            (
              first,
              unsafe-Culprit (record { key = key; value = value })
                  (elim (both-eq-false (is_safe_key key) (is_safe_value max_log_values value) e) [
                    | inl k ↦ inl k
                    | inr k ↦ inr (unsafe_value max_log_values value k)
                  ]),
            ),
          )
          | inr e ↦ let (c, found) = unsafe_attrs rest e in (c, (later found.0, found.1))
        ]

unsafe-is_plain :
    (b : Attr) → is_safe_request_attr b ≡ false → (a : Attr) × (Inside a b × (is_plain a ≡ false))
unfolding is_safe_request_attr
unsafe-is_plain b h =
    unsafe-Culprit b
      (elim (both-eq-false (is_safe_key b.key) (is_safe_value max_log_values b.value) h) [
        | inl k ↦ inl k
        | inr k ↦ inr (unsafe_value max_log_values b.value k)
      ])

-- An attribute is let through exactly if it holds, at any depth, only attributes with a key that may
-- be logged and a value of a known kind: nothing protected passes, and none is refused without a
-- reason.
pub is_safe_iff :
    (b : Attr) → (is_safe_request_attr b ≡ true) ↔ ((a : Attr) → Inside a b → is_plain a ≡ true)
is_safe_iff b = (
  (λ h a i. Inside-is_plain h i),
  (λ plain. elim (Bool-cases (is_safe_request_attr b)) [
    | inl e ↦ e
    | inr e ↦ let (a, (i, refused)) = unsafe-is_plain b e in ground (arith, plain a i, refused)
  ]),
)
