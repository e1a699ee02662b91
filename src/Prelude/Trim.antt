-- ===== src/Prelude/Trim.antt =====
-- Trimming padded texts, and printing numbers in decimal.
use Prim.Native.Nat.{ℕ, suc, zero, ◌+◌, ◌*◌, ◌/◌, ◌%◌, ◌<◌}
use mathlib.Core.Path.{◌≡◌, refl, ap, ◌∙◌, ◌≡⟨◌⟩◌, ◌∎}
use mathlib.Core.Logic.{inl, inr}
use mathlib.Core.Bool.{true, false}
use mathlib.Core.Option.{some}
use mathlib.Core.List.{[], ◌∷◌, ◌++◌, reverse, reverse-append, reverse-reverse, reverse-cons}
use native.Mathlib.Omega.{arith}
use evictor.Prelude.Tests.{◌==◌, Bool-cases, if◌then◌else◌}
use evictor.Prelude.Lists.{All, All-append}
use evictor.Prelude.Strings.{
  Text, is_space, trim_left, trim_space, is_blank, read_digits, read_number,
}

abbrev pub IsSpaces : Text → Type 0
IsSpaces = All (λ c. is_space c ≡ true)

abbrev pub IsTight : Text → Type 0
IsTight = All (λ c. is_space c ≡ false)

All-reverse : (P : ℕ → Type 0) (s : Text) → All P s → All P (reverse s)
All-reverse P [] h = tt
All-reverse P (c ∷ s) (p, h) =
    rw (reverse-cons c s) (All-append P (reverse s) (c ∷ []) (All-reverse P s h) (p, tt))

trim_left-append : (s t : Text) → IsSpaces s → trim_left (s ++ t) ≡ trim_left t
unfolding trim_left
trim_left-append [] t h = refl
trim_left-append (c ∷ s) t (p, h) = rw p (trim_left-append s t h)

trim_left_of_IsTight : (s : Text) → IsTight s → trim_left s ≡ s
unfolding trim_left
trim_left_of_IsTight [] h = refl
trim_left_of_IsTight (c ∷ s) (p, h) = rw p

all_trimmed : (s : Text) → IsSpaces s → trim_left s ≡ []
unfolding trim_left
all_trimmed [] h = refl
all_trimmed (c ∷ s) (p, h) = rw p (all_trimmed s h)

-- White space around a text without any is trimmed, and nothing else.
pub trim_space-append :
    (before s after : Text)
    → IsSpaces before
    → IsTight s
    → IsSpaces after
    → trim_space (before ++ (s ++ after)) ≡ s
unfolding trim_space trim_left
trim_space-append before [] after h t k =
    ap (λ u. reverse (trim_left (reverse u)))
      (trim_left-append before after h ∙ all_trimmed after k)
trim_space-append before (c ∷ s) after h t k =
    let tight = All-reverse (λ d. is_space d ≡ false) (c ∷ s) t in
    reverse (trim_left (reverse (trim_left (before ++ (c ∷ s ++ after)))))
    ≡⟨ ap (λ u. reverse (trim_left (reverse u))) (trim_left-append before (c ∷ s ++ after) h) ⟩
      reverse (trim_left (reverse (trim_left (c ∷ s ++ after))))
    ≡⟨ (rw t.0) ⟩ reverse (trim_left (reverse (c ∷ s ++ after)))
    ≡⟨ ap (λ u. reverse (trim_left u)) (reverse-append (c ∷ s) after) ⟩
      reverse (trim_left (reverse after ++ reverse (c ∷ s)))
    ≡⟨ ap reverse (
        trim_left-append (reverse after) (reverse (c ∷ s))
          (All-reverse (λ d. is_space d ≡ true) after k)) ⟩
      reverse (trim_left (reverse (c ∷ s)))
    ≡⟨ ap reverse (trim_left_of_IsTight (reverse (c ∷ s)) tight) ⟩ reverse (reverse (c ∷ s))
    ≡⟨ reverse-reverse (c ∷ s) ⟩ c ∷ s ∎

show_from : ℕ → ℕ → Text → Text
show_from zero n acc = acc
show_from (suc fuel) n acc =
    let digits = (b'0' + n % 10) ∷ acc in
    let more = show_from fuel (n / 10) digits in if n / 10 == 0 then digits else more

-- `strconv.Itoa` of a number that is not negative.
unfoldable pub itoa : ℕ → Text
unfolding show_from
itoa n = show_from (suc n) n []

read-show_from :
    (fuel n : ℕ) (acc : Text) → n < fuel → read_digits 0 (show_from fuel n acc) ≡ read_digits n acc
unfolding read_digits show_from
read-show_from zero n acc h = absurd (omega arith)
read-show_from (suc fuel) n acc h = ground (
  arith,
  read-show_from fuel (n / 10) ((b'0' + n % 10) ∷ acc),
  ap (λ k. read_digits k acc) (digits_join n),
)
  where
    digits_join : (n : ℕ) → 10 * (n / 10) + n % 10 ≡ n
    digits_join n = omega arith

digit-IsTight : (c : ℕ) → c < 10 → is_space (b'0' + c) ≡ false
unfolding is_space
digit-IsTight c h = ground arith

show_from-IsTight : (fuel n : ℕ) (acc : Text) → IsTight acc → IsTight (show_from fuel n acc)
unfolding show_from
show_from-IsTight zero n acc t = t
show_from-IsTight (suc fuel) n acc t =
    let more =
      show_from-IsTight fuel (n / 10) ((b'0' + n % 10) ∷ acc)
        (digit-IsTight (n % 10) (omega arith), t) in
    elim (Bool-cases (n / 10 == 0)) [
      | inl e ↦ rw e (digit-IsTight (n % 10) (omega arith), t)
      | inr e ↦ rw e more
    ]

pub itoa-IsTight : (n : ℕ) → IsTight (itoa n)
unfolding itoa
itoa-IsTight n = show_from-IsTight (suc n) n [] tt

show_from-not_blank :
    (fuel n : ℕ) (acc : Text) → is_blank acc ≡ false → is_blank (show_from fuel n acc) ≡ false
unfolding show_from
show_from-not_blank zero n acc h = h
show_from-not_blank (suc fuel) n acc h =
    let more = show_from-not_blank fuel (n / 10) ((b'0' + n % 10) ∷ acc) refl in
    elim (Bool-cases (n / 10 == 0)) [ inl e ↦ rw e refl | inr e ↦ rw e more ]

read_number_of_not_blank : (s : Text) → is_blank s ≡ false → read_number s ≡ read_digits 0 s
unfolding read_number
read_number_of_not_blank [] h = cc
read_number_of_not_blank (c ∷ s) h = refl

pub itoa-not_blank : (n : ℕ) → is_blank (itoa n) ≡ false
unfolding itoa show_from
itoa-not_blank n =
    let more = show_from-not_blank n (n / 10) ((b'0' + n % 10) ∷ []) refl in
    elim (Bool-cases (n / 10 == 0)) [ inl e ↦ rw e refl | inr e ↦ rw e more ]

-- What is printed is read back.
pub read_number-itoa : (n : ℕ) → read_number (itoa n) ≡ some n
unfolding itoa read_digits
read_number-itoa n =
    read_number_of_not_blank (itoa n) (itoa-not_blank n) ∙ read-show_from (suc n) n [] (omega arith)
