-- ===== src/Prelude/Lists.antt =====
-- Lists measured and indexed by native numbers, under the library's names.
use Prim.Native.Nat.{ℕ, zero, suc, ◌+◌, ◌≤◌}
use mathlib.Core.Path.{◌≡◌, refl, ap}
use mathlib.Core.List.{List, [], ◌∷◌, ◌++◌}
use mathlib.Core.Option.{Option, none, some}
use native.Mathlib.Omega.{arith}

module _ {ℓ} {A : Type ℓ} where
  abbrev pub length : List A → ℕ
  length [] = 0
  length (x ∷ xs) = suc (length xs)

  abbrev pub get_elem? : List A → ℕ → Option A
  get_elem? [] i = none
  get_elem? (x ∷ xs) zero = some x
  get_elem? (x ∷ xs) (suc i) = get_elem? xs i

  -- A write out of bounds changes nothing.
  abbrev pub set : List A → ℕ → A → List A
  set [] i v = []
  set (x ∷ xs) zero v = v ∷ xs
  set (x ∷ xs) (suc i) v = x ∷ set xs i v

  abbrev pub replicate : ℕ → A → List A
  replicate zero a = []
  replicate (suc n) a = a ∷ replicate n a

  pub length-append : (xs ys : List A) → length (xs ++ ys) ≡ length xs + length ys
  length-append [] ys = omega arith
  length-append (x ∷ xs) ys = omega (arith, length-append xs ys)

module _ {ℓ} {A : Type ℓ} where
  pub length-set : (xs : List A) (i : ℕ) (v : A) → length (set xs i v) ≡ length xs
  length-set [] i v = refl
  length-set (x ∷ xs) zero v = refl
  length-set (x ∷ xs) (suc i) v = ap suc (length-set xs i v)

  pub length-replicate : (n : ℕ) (a : A) → length (replicate n a) ≡ n
  length-replicate zero a = refl
  length-replicate (suc n) a = ap suc (length-replicate n a)

-- The sum of a weight over a list, and how a write moves it.
module _ {ℓ} {A : Type ℓ} (w : A → ℕ) where
  unfoldable pub weigh : List A → ℕ
  weigh [] = 0
  weigh (x ∷ xs) = w x + weigh xs

  pub weigh-set :
      (xs : List A) (i : ℕ) (x y : A)
      → get_elem? xs i ≡ some x
      → weigh (set xs i y) + w x ≡ weigh xs + w y
  unfolding weigh
  weigh-set [] i x y h = ground arith
  weigh-set (z ∷ xs) zero x y h = ground arith
  weigh-set (z ∷ xs) (suc i) x y h = omega (arith, weigh-set xs i x y h)

  pub weigh-replicate : (n : ℕ) (x : A) → w x ≡ 0 → weigh (replicate n x) ≡ 0
  unfolding weigh
  weigh-replicate zero x h = refl
  weigh-replicate (suc n) x h = omega (arith, weigh-replicate n x h)

  pub weigh-le : ((x : A) → w x ≤ 1) → (xs : List A) → weigh xs ≤ length xs
  unfolding weigh
  weigh-le small [] = omega arith
  weigh-le small (x ∷ xs) = omega (arith, small x, weigh-le small xs)

  pub weight-le-weigh : (xs : List A) (i : ℕ) (x : A) → get_elem? xs i ≡ some x → w x ≤ weigh xs
  unfolding weigh
  weight-le-weigh [] i x h = ground arith
  weight-le-weigh (z ∷ xs) zero x h = ground arith
  weight-le-weigh (z ∷ xs) (suc i) x h = omega (arith, weight-le-weigh xs i x h)

module _ {ℓ} {A : Type ℓ} where
  pub weigh_mono : (v w : A → ℕ) → ((x : A) → v x ≤ w x) → (xs : List A) → weigh v xs ≤ weigh w xs
  unfolding weigh
  weigh_mono v w h [] = omega arith
  weigh_mono v w h (x ∷ xs) = omega (arith, h x, weigh_mono v w h xs)

  pub length-eq-zero : (xs : List A) → length xs ≡ 0 → xs ≡ []
  length-eq-zero [] e = refl
  length-eq-zero (x ∷ xs) e = absurd (omega arith)

-- A predicate that holds of each element.
module _ {ℓ κ} {A : Type ℓ} (P : A → Type κ) where
  abbrev pub All : List A → Type κ
  All [] = Unit
  All (x ∷ xs) = P x × All xs

  pub All-set : (xs : List A) (i : ℕ) (y : A) → All xs → P y → All (set xs i y)
  All-set [] i y h p = tt
  All-set (x ∷ xs) zero y (q, h) p = (p, h)
  All-set (x ∷ xs) (suc i) y (q, h) p = (q, All-set xs i y h p)

  pub All-get : (xs : List A) (i : ℕ) {x : A} → All xs → get_elem? xs i ≡ some x → P x
  All-get [] i h e = cc
  All-get (x ∷ xs) zero (q, h) e = ground arith
  All-get (x ∷ xs) (suc i) (q, h) e = All-get xs i h e

  pub All-replicate : (n : ℕ) (x : A) → P x → All (replicate n x)
  All-replicate zero x p = tt
  All-replicate (suc n) x p = (p, All-replicate n x p)

  pub All-append : (xs ys : List A) → All xs → All ys → All (xs ++ ys)
  All-append [] ys h k = k
  All-append (x ∷ xs) ys (p, h) k = (p, All-append xs ys h k)

module _ {ℓ} {A : Type ℓ} where
  abbrev pub take : ℕ → List A → List A
  take zero xs = []
  take (suc n) [] = []
  take (suc n) (x ∷ xs) = x ∷ take n xs

  abbrev pub concat : List (List A) → List A
  concat [] = []
  concat (xs ∷ rest) = xs ++ concat rest

  pub take-append : (xs ys : List A) → take (length xs) (xs ++ ys) ≡ xs
  take-append [] ys = refl
  take-append (x ∷ xs) ys = ap (λ l. x ∷ l) (take-append xs ys)

  pub take_all : (n : ℕ) (xs : List A) → length xs ≤ n → take n xs ≡ xs
  take_all zero [] h = refl
  take_all zero (x ∷ xs) h = absurd (omega arith)
  take_all (suc n) [] h = refl
  take_all (suc n) (x ∷ xs) h = ap (λ l. x ∷ l) (take_all n xs (omega arith))

  pub length-take : (n : ℕ) (xs : List A) → length (take n xs) ≤ n
  length-take zero xs = omega arith
  length-take (suc n) [] = omega arith
  length-take (suc n) (x ∷ xs) = omega (arith, length-take n xs)

module _ {ℓ} {A : Type ℓ} where
  abbrev pub drop : ℕ → List A → List A
  drop zero xs = xs
  drop (suc n) [] = []
  drop (suc n) (x ∷ xs) = drop n xs

  pub drop-append : (xs ys : List A) → drop (length xs) (xs ++ ys) ≡ ys
  drop-append [] ys = refl
  drop-append (x ∷ xs) ys = drop-append xs ys
