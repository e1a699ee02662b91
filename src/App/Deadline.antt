-- ===== src/App/Deadline.antt =====
-- backend/internal/app/shutdown.go: the one deadline of the shutdown.
-- `newShutdownBudget` starts a goroutine that waits for the cancellation; the steps are the
-- cancellation and what that goroutine does, in the order in which they happen.
use evictor.Prelude.{ℕ, ◌+◌, ◌≡◌, refl, ap, ◌∙◌, Bool, true, false, Option, none, some, arith}

-- `end` is none until `ready` is closed.
pub record ShutdownBudget : Type 0 where
  pub timeout : ℕ
  pub margin : ℕ
  pub cancelled : Bool
  pub end : Option ℕ

unfoldable pub new_shutdown_budget : ℕ → ℕ → ShutdownBudget
new_shutdown_budget timeout margin = record {
  timeout = timeout;
  margin = margin;
  cancelled = false;
  end = none;
}

unfoldable pub cancel : ShutdownBudget → ShutdownBudget
cancel b = record b { cancelled = true }

-- The goroutine reads the clock, sets the end and closes `ready`.
unfoldable pub observe : ℕ → ShutdownBudget → ShutdownBudget
observe now b = record b { end = some (now + (b.timeout + b.margin)) }

-- `none` is a call that waits for `ready`.
unfoldable pub deadline : ℕ → ShutdownBudget → Option ℕ
deadline now b = elim b.cancelled [ false ↦ some (now + (b.timeout + b.margin)) | true ↦ b.end ]

-- The goroutine gets past `<-parent.Done()` once the context is cancelled, and runs once.
pub data BudgetStep : ShutdownBudget → ShutdownBudget → Type 0 where
  cancels : {b : ShutdownBudget} → BudgetStep b (cancel b)
  observes :
      {b : ShutdownBudget} (now : ℕ)
      → b.cancelled ≡ true
      → b.end ≡ none
      → BudgetStep b (observe now b)

pub data BudgetSteps : ShutdownBudget → ShutdownBudget → Type 0 where
  stay : {b : ShutdownBudget} → BudgetSteps b b
  step : {a b c : ShutdownBudget} → BudgetStep a b → BudgetSteps b c → BudgetSteps a c

anchored-step :
    {t : ℕ} {a b : ShutdownBudget}
    → (a.cancelled ≡ true) × (a.end ≡ some t)
    → BudgetStep a b
    → (b.cancelled ≡ true) × (b.end ≡ some t)
unfolding cancel
anchored-step (c, e) cancels = (refl, e)
anchored-step (c, e) (observes now k unset) = absurd (ground arith)

anchored-steps :
    {t : ℕ} {a b : ShutdownBudget}
    → (a.cancelled ≡ true) × (a.end ≡ some t)
    → BudgetSteps a b
    → (b.cancelled ≡ true) × (b.end ≡ some t)
anchored-steps h stay = h
anchored-steps h (step s rest) = anchored-steps (anchored-step h s) rest

-- Once the context is cancelled, every call of `deadline` that returns gives one and the same
-- instant, whenever it is made and whatever happens in between: the budget does not start anew.
pub deadline-fixed :
    {a b : ShutdownBudget} {t : ℕ} (now later : ℕ)
    → a.cancelled ≡ true
    → deadline now a ≡ some t
    → BudgetSteps a b
    → deadline later b ≡ some t
unfolding deadline
deadline-fixed {a} {b} {t} now later c e steps =
    let first : a.end ≡ some t = ground arith in
    let anchored = anchored-steps (c, first) steps in rw anchored.0 anchored.1

same_length :
    {a b : ShutdownBudget} → BudgetSteps a b → (b.timeout ≡ a.timeout) × (b.margin ≡ a.margin)
unfolding cancel observe
same_length stay = (refl, refl)
same_length (step cancels rest) = same_length rest
same_length (step (observes now c unset) rest) = same_length rest

sums : {s t m n : ℕ} (now : ℕ) → s ≡ t → m ≡ n → now + (s + m) ≡ now + (t + n)
sums now h k = omega arith

-- The deadline is the instant at which the goroutine observes the cancellation, plus the timeout
-- and the margin: every later call of `deadline` returns it, however late the call comes.
pub deadline-observed :
    (timeout margin : ℕ) {a b : ShutdownBudget} (now later : ℕ)
    → BudgetSteps (new_shutdown_budget timeout margin) a
    → a.cancelled ≡ true
    → a.end ≡ none
    → BudgetSteps (observe now a) b
    → deadline later b ≡ some (now + (timeout + margin))
unfolding deadline observe new_shutdown_budget
deadline-observed timeout margin {a} {b} now later before c unset after =
    let lengths = same_length before in
    let anchored = anchored-steps (c, refl) after in
    rw anchored.0 (anchored.1 ∙ ap (λ n. some n) (sums now lengths.0 lengths.1))
