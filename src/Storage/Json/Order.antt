-- ===== src/Storage/Json/Order.antt =====
-- The order of texts, and maps that are kept by it.
use Prim.Native.Nat.{Ordering}
use evictor.Prelude.{
  ◌≡◌, ◌⊎◌, inl, inr, refl, sym, ap, ◌∙◌, Bool, true, false, Bool-cases, Option, some, [], ◌∷◌,
  ◌++◌, Text, text_eq, text_eq_iff, All, if◌then◌else◌, arith,
}
use evictor.Storage.Json.{text_compare, Entries, entry, put, sorted}

Ordering-cases : (o : Ordering) → (o ≡ Ordering.lt) ⊎ ((o ≡ Ordering.eq) ⊎ (o ≡ Ordering.gt))
Ordering-cases Ordering.lt = inl refl
Ordering-cases Ordering.eq = inr (inl refl)
Ordering-cases Ordering.gt = inr (inr refl)

pub text_compare_refl : (s : Text) → text_compare s s ≡ Ordering.eq
unfolding text_compare
text_compare_refl [] = refl
text_compare_refl (a ∷ s) = ground (arith, text_compare_refl s)

pub text_compare-eq : (s t : Text) → text_compare s t ≡ Ordering.eq → s ≡ t
unfolding text_compare
text_compare-eq [] [] h = refl
text_compare-eq [] (b ∷ t) h = absurd (ground arith)
text_compare-eq (a ∷ s) [] h = absurd (ground arith)
text_compare-eq (a ∷ s) (b ∷ t) h = ground (arith, text_compare-eq s t, h)

pub text_compare_flip :
    (s t : Text) → text_compare s t ≡ Ordering.lt → text_compare t s ≡ Ordering.gt
unfolding text_compare
text_compare_flip [] [] h = absurd (ground arith)
text_compare_flip [] (b ∷ t) h = refl
text_compare_flip (a ∷ s) [] h = absurd (ground arith)
text_compare_flip (a ∷ s) (b ∷ t) h = ground (arith, text_compare_flip s t, h)

pub text_compare_unflip :
    (s t : Text) → text_compare s t ≡ Ordering.gt → text_compare t s ≡ Ordering.lt
unfolding text_compare
text_compare_unflip [] [] h = absurd (ground arith)
text_compare_unflip [] (b ∷ t) h = absurd (ground arith)
text_compare_unflip (a ∷ s) [] h = refl
text_compare_unflip (a ∷ s) (b ∷ t) h = ground (arith, text_compare_unflip s t, h)

pub text_compare_trans :
    (s t u : Text)
    → text_compare s t ≡ Ordering.lt
    → text_compare t u ≡ Ordering.lt
    → text_compare s u ≡ Ordering.lt
unfolding text_compare
text_compare_trans [] [] u h k = absurd (ground arith)
text_compare_trans (a ∷ s) [] u h k = absurd (ground arith)
text_compare_trans s (b ∷ t) [] h k = absurd (ground arith)
text_compare_trans [] (b ∷ t) (c ∷ u) h k = refl
text_compare_trans (a ∷ s) (b ∷ t) (c ∷ u) h k = ground (arith, text_compare_trans s t u, h, k)

over :
    (b : Bool) (v w : Text) (o : Option Text)
    → (if b then some v else o) ≡ (if b then some v else if b then some w else o)
over true v w o = refl
over false v w o = refl

apart :
    (key s t v w : Text) (o : Option Text)
    → text_compare s t ≡ Ordering.gt
    → (if text_eq key t then some w else if text_eq key s then some v else o)
      ≡ (if text_eq key s then some v else if text_eq key t then some w else o)
apart key s t v w o e = elim (Bool-cases (text_eq key s)) [
  | inr h ↦ rw h refl
  | inl h ↦ elim (Bool-cases (text_eq key t)) [
    | inr k ↦ rw k refl
    | inl k ↦
        let same = sym ((text_eq_iff key s).0 h) ∙ (text_eq_iff key t).0 k in
        absurd (ground (arith, e, ap (text_compare s) same, text_compare_refl s))
  ]
]

-- What is written is found, and the rest is as it was.
pub entry-put :
    (key k v : Text) (m : Entries)
    → entry key (put k v m) ≡ (if text_eq key k then some v else entry key m)
unfolding entry put
entry-put key k v [] = refl
entry-put key k v ((k2, v2) ∷ m) =
    let later = entry-put key k v m in
    elim (Ordering-cases (text_compare k k2)) [
      | inl e ↦ rw (put, e) refl
      | inr (inl e) ↦ rw (put, e, text_compare-eq k k2 e) (over (text_eq key k2) v v2 (entry key m))
      | inr (inr e) ↦
          rw (put, e)
            (ap (λ o. if text_eq key k2 then some v2 else o) later
              ∙ apart key k k2 v v2 (entry key m) e)
    ]

-- A map is the same after it has been sorted.
pub entry-sorted : (key : Text) (m : Entries) → entry key (sorted m) ≡ entry key m
unfolding entry sorted
entry-sorted key [] = refl
entry-sorted key ((k, v) ∷ m) =
    entry-put key k v (sorted m)
    ∙ ap (λ o. if text_eq key k then some v else o) (entry-sorted key m)

abbrev pub IsAbove : Text → Text × Text → Type 0
IsAbove k e = text_compare k e.0 ≡ Ordering.lt

abbrev pub IsBelow : Text → Text × Text → Type 0
IsBelow k e = text_compare e.0 k ≡ Ordering.lt

-- The keys go up, so that each is there once.
abbrev pub IsSorted : Entries → Type 0
IsSorted [] = Unit
IsSorted ((k, v) ∷ m) = All (IsAbove k) m × IsSorted m

All-lower :
    (s t : Text) (m : Entries)
    → text_compare s t ≡ Ordering.lt
    → All (IsAbove t) m
    → All (IsAbove s) m
All-lower s t [] h a = tt
All-lower s t (e ∷ m) h (a, rest) = (text_compare_trans s t e.0 h a, All-lower s t m h rest)

All-put :
    (P : Text × Text → Type 0) (k v : Text) (m : Entries) → P (k, v) → All P m → All P (put k v m)
unfolding put
All-put P k v [] p h = (p, tt)
All-put P k v ((k2, v2) ∷ m) p (q, h) =
    let rest = All-put P k v m p h in
    elim (Ordering-cases (text_compare k k2)) [
      | inl e ↦ rw (All, put, e) (p, (q, h))
      | inr (inl e) ↦ rw (All, put, e) (p, h)
      | inr (inr e) ↦ rw (All, put, e) (q, rest)
    ]

put-IsSorted : (k v : Text) (m : Entries) → IsSorted m → IsSorted (put k v m)
unfolding put
put-IsSorted k v [] s = (tt, tt)
put-IsSorted k v ((k2, v2) ∷ m) (a, s) =
    let rest = put-IsSorted k v m s in
    elim (Ordering-cases (text_compare k k2)) [
      | inl e ↦ rw (IsSorted, put, e) ((e, All-lower k k2 m e a), (a, s))
      | inr (inl e) ↦ rw (IsSorted, put, e) (rw (text_compare-eq k k2 e) a, s)
      | inr (inr e) ↦
          rw (IsSorted, put, e) (All-put (IsAbove k2) k v m (text_compare_unflip k k2 e) a, rest)
    ]

pub sorted-IsSorted : (m : Entries) → IsSorted (sorted m)
unfolding sorted
sorted-IsSorted [] = tt
sorted-IsSorted ((k, v) ∷ m) = put-IsSorted k v (sorted m) (sorted-IsSorted m)

-- A key above all others is written at the end.
pub put_last : (k v : Text) (m : Entries) → All (IsBelow k) m → put k v m ≡ m ++ (k, v) ∷ []
unfolding put
put_last k v [] h = refl
put_last k v ((k2, v2) ∷ m) (b, h) =
    rw (put, text_compare_flip k2 k b) (ap (λ l. (k2, v2) ∷ l) (put_last k v m h))
