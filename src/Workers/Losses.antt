-- ===== src/Workers/Losses.antt =====
-- Where the count of abandoned jobs that `Wait` reports comes from.
use evictor.Prelude.{ℕ, ◌<◌, ◌≡◌, ◌⊎◌, inl, inr, Bool, some, sym, ◌∙◌, arith}
use evictor.Workers.Pool.{
  Pool, drain_incomplete, Options, new_pool, send_job, fail_to_send, add_accepted, deepen,
  stop_accepting, cancel_jobs, close_done, store_abandoned, count_abandoned, unaccounted, wait,
}
use evictor.Workers.System.{
  System, Step, Reach, here, next, Run, stay, go, loaded, storing, init, consume, discard,
  some_left, store,
}
use evictor.Workers.Invariant.{IsSane, outstanding, Move-Same}
use evictor.Workers.Safety.{unaccounted-exact}

-- The supervisor is about to store `n`, or has stored it.
abbrev Lost : ℕ → System → Type 0
Lost n s = (s.stage ≡ storing n) ⊎ ((0 < n) × (s.pool.abandoned ≡ n))

-- The supervisor has loaded `accepted` and is about to see `n` jobs missing.
abbrev Losing : ℕ → System → Type 0
Losing n s = (a : ℕ) × (s.stage ≡ loaded a) × (n ≡ unaccounted a s.pool)

Step-Lost : {s t : System} (n : ℕ) → Step s t → Lost n t → Lost n s ⊎ Losing n s
unfolding send_job fail_to_send add_accepted deepen stop_accepting cancel_jobs close_done
    store_abandoned count_abandoned
Step-Lost n (consume i e mv) l = inl (ground (arith, Move-Same mv))
Step-Lost n (discard e mv) l = inl (ground (arith, Move-Same mv))
Step-Lost n (store e) l = inl (ground arith)
Step-Lost n (some_left {a} e q) (inl l) = inr (a, e, ground arith)
Step-Lost n (some_left {a} e q) (inr l) = inl (inr l)
Step-Lost n _ l = inl (ground arith)

-- An earlier state of the run to `s`, with `n` jobs outstanding while the counters are compared.
abbrev pub Origin : Options → ℕ → System → Type 0
Origin o n s =
    (u : System) × (a : ℕ) × Reach o u × Run u s × (u.stage ≡ loaded a) × (outstanding u ≡ n)

Lost-Origin : {o : Options} {s : System} (n : ℕ) → IsSane o → Reach o s → Lost n s → Origin o n s
unfolding init new_pool
Lost-Origin n sane here l = absurd (ground arith)
Lost-Origin {o} n sane (next {s} r st) l = elim (Step-Lost n st l) [
  | inl old ↦
      let (u, a, reach, run, at, count) = Lost-Origin n sane r old in
      (u, a, reach, go run st, at, count)
  | inr (a, at, count) ↦ (s, a, r, go stay st, at, sym (unaccounted-exact sane r at) ∙ sym count)
]

wait-abandoned :
    (p : Pool) (prefer_done ctx_over : Bool) {n : ℕ}
    → wait prefer_done ctx_over p ≡ some (some (drain_incomplete n))
    → (0 < n) × (p.abandoned ≡ n)
unfolding wait
wait-abandoned p prefer_done ctx_over e = ground arith

-- If `Wait` reports `n` jobs unaccounted for, then `n` is positive, and earlier in the run, as
-- `recordAbandoned` compared the counters, exactly `n` accepted jobs were in the channel or in the
-- hands of a consumer.
pub wait-drain_incomplete :
    {o : Options} {s : System} (sane : IsSane o) (r : Reach o s) (prefer_done ctx_over : Bool)
    {n : ℕ}
    → wait prefer_done ctx_over s.pool ≡ some (some (drain_incomplete n))
    → (0 < n) × Origin o n s
wait-drain_incomplete {s} sane r prefer_done ctx_over {n} e =
    let lost = wait-abandoned s.pool prefer_done ctx_over e in
    (lost.0, Lost-Origin n sane r (inr lost))
