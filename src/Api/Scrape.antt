-- ===== src/Api/Scrape.antt =====
-- A scraper of /metrics reads what the counters hold.
use evictor.Prelude.{
  ℕ, suc, zero, ◌≡◌, inl, inr, refl, sym, ap, subst, ==_iff, both, ◌∙◌, Bool, true, false, not,
  ◌&&◌, Bool-cases, Option, none, some, List, [], ◌∷◌, ◌++◌, map, Text, String, codes, itoa,
  read_number, read_digits, read_number-itoa, itoa-IsTight, IsTight, is_space, ◌==◌, if◌then◌else◌,
  arith, both_right,
}
use mathlib.Core.List.{append_assoc, append-nil}
use evictor.Prelude.Int.{ℤ, pos, negsuc}
use evictor.Metrics.{Snapshot, snapshot}
use evictor.Api.Probes.{
  show_int, sample_line, metrics_text, Dependencies, new_router, get_metrics, plain,
  counters_or_new,
}

abbrev with_head : ℕ → List Text → List Text
with_head c [] = (c ∷ []) ∷ []
with_head c (line ∷ lines) = (c ∷ line) ∷ lines

unfoldable pub split_lines : Text → List Text
split_lines [] = []
split_lines (c ∷ s) = let rest = split_lines s in if c == 10 then [] ∷ rest else with_head c rest

-- A text before the first space, and after it.
unfoldable pub cut : Text → Text × Text
cut [] = ([], [])
cut (c ∷ s) = let rest = cut s in if c == b' ' then ([], s) else (c ∷ rest.0, rest.1)

abbrev minus : ℕ → ℤ
minus zero = pos zero
minus (suc n) = negsuc n

abbrev map_option : (ℕ → ℤ) → Option ℕ → Option ℤ
map_option f none = none
map_option f (some n) = some (f n)

unfoldable pub read_int : Text → Option ℤ
read_int [] = none
read_int (c ∷ s) =
    if c == b'-' then map_option minus (read_number s) else map_option pos (read_number (c ∷ s))

unfoldable pub read_sample : Text → Text × Option ℤ
read_sample line = let parts = cut line in (parts.0, read_int parts.1)

unfoldable pub scrape : Text → List (Text × Option ℤ)
scrape text = map read_sample (split_lines text)

-- A text without the character.
unfoldable pub lacks : ℕ → Text → Bool
lacks sep [] = true
lacks sep (c ∷ s) = not (c == sep) && lacks sep s

lacks-append :
    (sep : ℕ) (s t : Text) → lacks sep s ≡ true → lacks sep t ≡ true → lacks sep (s ++ t) ≡ true
unfolding lacks
lacks-append sep [] t h k = k
lacks-append sep (c ∷ s) t h k =
    let rest = lacks-append sep s t (both_right (not (c == sep)) (lacks sep s) h) k in
    ground (arith, rest)

split_lines-append :
    (line rest : Text)
    → lacks 10 line ≡ true
    → split_lines (line ++ (10 ∷ rest)) ≡ line ∷ split_lines rest
unfolding lacks split_lines
split_lines-append [] rest h = refl
split_lines-append (c ∷ line) rest h =
    let more = split_lines-append line rest (both_right (not (c == 10)) (lacks 10 line) h) in
    elim (Bool-cases (c == 10)) [ inl e ↦ absurd (ground arith) | inr e ↦ rw e (rw more refl) ]

cut-append : (name s : Text) → lacks b' ' name ≡ true → cut (name ++ (b' ' ∷ s)) ≡ (name, s)
unfolding lacks cut
cut-append [] s h = refl
cut-append (c ∷ name) s h =
    let more = cut-append name s (both_right (not (c == b' ')) (lacks b' ' name) h) in
    elim (Bool-cases (c == b' ')) [ inl e ↦ absurd (ground arith) | inr e ↦ rw e (rw more refl) ]

not_newline : (c : ℕ) → is_space c ≡ false → not (c == 10) ≡ true
unfolding is_space
not_newline c p = elim (Bool-cases (c == 10)) [
  | inl e ↦ absurd (
      let same : is_space 10 ≡ false = subst (λ d. is_space d ≡ false) ((==_iff c 10).0 e) p in
      ground (arith, same))
  | inr e ↦ rw e refl
]

lacks_of_IsTight : (s : Text) → IsTight s → lacks 10 s ≡ true
unfolding lacks
lacks_of_IsTight [] h = refl
lacks_of_IsTight (c ∷ s) (p, h) =
    both (not (c == 10)) (lacks 10 s) (not_newline c p) (lacks_of_IsTight s h)

lacks-show_int : (v : ℤ) → lacks 10 (show_int v) ≡ true
unfolding show_int lacks
lacks-show_int (pos n) = lacks_of_IsTight (itoa n) (itoa-IsTight n)
lacks-show_int (negsuc n) = lacks_of_IsTight (itoa (suc n)) (itoa-IsTight (suc n))

read_int_of_read_number : (s : Text) {n : ℕ} → read_number s ≡ some n → read_int s ≡ some (pos n)
unfolding read_int read_number read_digits
read_int_of_read_number [] h = cc
read_int_of_read_number (c ∷ s) {n} h = elim (Bool-cases (c == b'-')) [
  | inl e ↦ absurd (ground arith)
  | inr e ↦ rw (read_int, e) (rw h refl)
]

read_int-show_int : (v : ℤ) → read_int (show_int v) ≡ some v
unfolding show_int read_int
read_int-show_int (pos n) = read_int_of_read_number (itoa n) (read_number-itoa n)
read_int-show_int (negsuc n) = rw (read_number-itoa (suc n)) refl

regroup :
    (a : Text) (x : ℕ) (b c rest : Text)
    → (a ++ (x ∷ (b ++ c))) ++ rest ≡ (a ++ (x ∷ b)) ++ (c ++ rest)
regroup [] x b c rest = ap (λ l. x ∷ l) (append_assoc b c rest)
regroup (d ∷ a) x b c rest = ap (λ l. d ∷ l) (regroup a x b c rest)

-- A line is read as its sample, and the lines after it are read on their own.
scrape-sample_line :
    (name : String) (v : ℤ) (rest : Text)
    → lacks b' ' (codes name) ≡ true
    → lacks 10 (codes name) ≡ true
    → scrape (sample_line name v ++ rest) ≡ (codes name, some v) ∷ scrape rest
unfolding scrape sample_line read_sample lacks
scrape-sample_line name v rest h k =
    let line = codes name ++ (b' ' ∷ show_int v) in
    let clean = lacks-append 10 (codes name) (b' ' ∷ show_int v) k (lacks-show_int v) in
    ap scrape (regroup (codes name) b' ' (show_int v) (codes "\n") rest)
    ∙ ap (map read_sample) (split_lines-append line rest clean)
    ∙ ap (λ sample. sample ∷ scrape rest)
        (ap (λ parts. (parts.0, read_int parts.1)) (cut-append (codes name) (show_int v) h)
          ∙ ap (λ value. (codes name, value)) (read_int-show_int v))

scrape_cons :
    (name : String) (v : ℤ) (rest : Text) {tail : List (Text × Option ℤ)}
    → lacks b' ' (codes name) ≡ true
    → lacks 10 (codes name) ≡ true
    → scrape rest ≡ tail
    → scrape (sample_line name v ++ rest) ≡ (codes name, some v) ∷ tail
scrape_cons name v rest h k e =
    scrape-sample_line name v rest h k ∙ ap (λ l. (codes name, some v) ∷ l) e

scrape_last :
    (name : String) (v : ℤ)
    → lacks b' ' (codes name) ≡ true
    → lacks 10 (codes name) ≡ true
    → scrape (sample_line name v) ≡ (codes name, some v) ∷ []
unfolding scrape split_lines
scrape_last name v h k =
    ap scrape (sym (append-nil (sample_line name v))) ∙ scrape_cons name v [] h k refl

-- The samples of a snapshot.
abbrev pub samples : Snapshot → List (Text × Option ℤ)
samples s =
    (codes "evictor_queue_depth", some s.queue_depth)
    ∷ (codes "evictor_queue_capacity", some s.queue_capacity)
    ∷ (codes "evictor_jobs_processed_total", some s.jobs_processed)
    ∷ (codes "evictor_jobs_failed_total", some s.jobs_failed)
    ∷ (codes "evictor_jobs_dead_lettered_total", some s.jobs_dead_lettered)
    ∷ (codes "evictor_jobs_abandoned_total", some s.jobs_abandoned)
    ∷ []

-- Whoever reads the text of /metrics line by line gets each value of the snapshot under its own
-- name, negative values included.
pub scrape-metrics_text : (s : Snapshot) → scrape (metrics_text s) ≡ samples s
unfolding metrics_text lacks
scrape-metrics_text s = scrape_cons "evictor_queue_depth" s.queue_depth _ refl refl (
    scrape_cons "evictor_queue_capacity" s.queue_capacity _ refl refl (
      scrape_cons "evictor_jobs_processed_total" s.jobs_processed _ refl refl (
        scrape_cons "evictor_jobs_failed_total" s.jobs_failed _ refl refl (
          scrape_cons "evictor_jobs_dead_lettered_total" s.jobs_dead_lettered _ refl refl
            (scrape_last "evictor_jobs_abandoned_total" s.jobs_abandoned refl refl)))))

-- The answer of the route /metrics is a text from which a scraper reads the snapshot of the
-- counters that the router was given, or of new ones.
pub scrape-new_router :
    (d : Dependencies)
    → (text : Text) × (((new_router d get_metrics).body ≡ some (plain text))
        × (scrape text ≡ samples (snapshot (counters_or_new d.metrics))))
unfolding new_router snapshot
scrape-new_router d =
    let s = snapshot (counters_or_new d.metrics) in (metrics_text s, (refl, scrape-metrics_text s))
