-- ===== src/Workers/Ledger/Logs/Told.antt =====
-- The number of abandoned jobs that is logged.
use evictor.Prelude.{
  ℕ, zero, suc, ◌<◌, ◌^◌, ◌≢◌, Bool, ◌≡◌, refl, sym, subst, ap, true, false, ◌∙◌, Option, some,
  List, [], ◌∷◌, ◌++◌, arith,
}
use evictor.Workers.Pool.{
  wait, wait_expired, drain_incomplete, PoolError, Pool, send_job, fail_to_send, add_accepted,
  deepen, stop_accepting, cancel_jobs, close_done, store_abandoned, count_abandoned,
}
use evictor.Workers.Consumer.{Role, Pc, Move}
use evictor.Workers.System.{Stage, cancelling, closing, stopped, System, Step}
use evictor.Workers.Invariant.{Inv, launched, ended, LoadOk, Move-Same}
use evictor.Workers.Ledger.Logs.{Record, logged_by, logged_in, log, abandonments}

-- What is logged of the number `abandoned`, once the pool has settled it.
abbrev pub told : ℕ → List ℕ
told zero = []
told (suc n) = suc n ∷ []

abbrev pub Told : Stage → ℕ → List ℕ → Type 0
Told cancelling abandoned counts = counts ≡ told abandoned
Told closing abandoned counts = counts ≡ told abandoned
Told stopped abandoned counts = counts ≡ told abandoned
Told _ abandoned counts = counts ≡ []

told-pos : (n : ℕ) → 0 < n → n ∷ [] ≡ told n
told-pos zero h = absurd (omega arith)
told-pos (suc n) h = refl

Move-abandonments :
    {r : Role} {p q : Pool} {pc pc' : Pc} (mv : Move r p pc q pc') (log : List Record)
    → abandonments (logged_by mv ++ log) ≡ abandonments log
unfolding logged_by
Move-abandonments (Move.break e) log = refl
Move-abandonments (Move.retry e) log = refl
Move-abandonments Move.count_dead_letter log = refl
Move-abandonments _ log = refl

-- What is told and loaded, at the stage that a step starts from.
at_stage :
    {s : System} {stage : Stage} (log : List Record)
    → Inv s
    → Told s.stage s.pool.abandoned (abandonments log)
    → s.stage ≡ stage
    → Told stage s.pool.abandoned (abandonments log) × LoadOk stage s.pool.accepted s.pool.abandoned
at_stage {s} log inv h e = (
  subst (λ g. Told g s.pool.abandoned (abandonments log)) e h,
  subst (λ g. LoadOk g s.pool.accepted s.pool.abandoned) e inv.load,
)

turn-Told :
    {r : Role} (stage : Stage) {p q : Pool} {pc pc' : Pc} (mv : Move r p pc q pc')
    (log : List Record)
    → Told stage p.abandoned (abandonments log)
    → Told stage q.abandoned (abandonments (logged_by mv ++ log))
turn-Told stage {p} mv log h =
    subst (λ n. Told stage n (abandonments (logged_by mv ++ log))) (sym (Move-Same mv).abandoned)
      (subst (Told stage p.abandoned) (sym (Move-abandonments mv log)) h)

before_launch :
    (stage : Stage) (abandoned : ℕ) (counts : List ℕ)
    → launched stage ≡ false
    → Told stage abandoned counts
    → counts ≡ []
before_launch cancelling abandoned counts e h = absurd (ground arith)
before_launch closing abandoned counts e h = absurd (ground arith)
before_launch stopped abandoned counts e h = absurd (ground arith)
before_launch _ abandoned counts e h = h

pub Step-Told :
    {s t : System} (log : List Record)
    → Inv s
    → (st : Step s t) → Told s.stage s.pool.abandoned (abandonments log)
    → Told t.stage t.pool.abandoned (abandonments (logged_in st ++ log))
unfolding logged_in fail_to_send add_accepted deepen stop_accepting cancel_jobs close_done
    store_abandoned count_abandoned send_job
Step-Told {s} log inv (Step.consume i e mv) h = turn-Told s.stage mv log h
Step-Told {s} log inv (Step.discard e mv) h = turn-Told s.stage mv log h
Step-Told {s} log inv (Step.start e) h =
    before_launch s.stage s.pool.abandoned _ (sym inv.launch ∙ e) h
Step-Told log inv (Step.observe e d) h = (at_stage log inv h e).0
Step-Told log inv (Step.halt e d) h = (at_stage log inv h e).0
Step-Told log inv (Step.drain_timeout e) h = (at_stage log inv h e).0
Step-Told log inv (Step.interrupt e) h = (at_stage log inv h e).0
Step-Told log inv (Step.spawn e) h = (at_stage log inv h e).0
Step-Told log inv (Step.unwind_timeout e) h = (at_stage log inv h e).0
Step-Told log inv (Step.load_accepted e) h = (at_stage log inv h e).0
Step-Told log inv (Step.some_left e d) h = (at_stage log inv h e).0
Step-Told log inv (Step.store e) h = (at_stage log inv h e).0
Step-Told log inv (Step.cancel e) h = (at_stage log inv h e).0
Step-Told log inv (Step.close e) h = (at_stage log inv h e).0
Step-Told log inv (Step.drained e f) h =
    let (quiet, zeroed) = at_stage log inv h e in quiet ∙ sym (ap told zeroed)
Step-Told log inv (Step.unwound e f g) h =
    let (quiet, zeroed) = at_stage log inv h e in quiet ∙ sym (ap told zeroed)
Step-Told log inv (Step.none_left e f) h =
    let (quiet, (_, zeroed)) = at_stage log inv h e in quiet ∙ sym (ap told zeroed)
Step-Told log inv (Step.report {count} e) h =
    let (quiet, (positive, _, stored)) = at_stage log inv h e in
    ap (λ counts. count ∷ counts) quiet ∙ told-pos count positive ∙ sym (ap told stored)
Step-Told log inv _ h = h

abbrev pub lost : Option PoolError → List ℕ
lost (some (drain_incomplete n)) = n ∷ []
lost _ = []

wait-told :
    (p : Pool) (prefer_done ctx_over : Bool) {answer : Option PoolError} (counts : List ℕ)
    → wait prefer_done ctx_over p ≡ some answer
    → answer ≢ some wait_expired
    → p.abandoned < 2 ^ 63
    → counts ≡ told p.abandoned
    → counts ≡ lost answer
unfolding wait
wait-told p prefer_done ctx_over counts e n lt h = ground (arith, e, n, lt, h)

wait-done :
    (p : Pool) (prefer_done ctx_over : Bool) {answer : Option PoolError}
    → wait prefer_done ctx_over p ≡ some answer
    → answer ≢ some wait_expired
    → p.done ≡ true
unfolding wait
wait-done p prefer_done ctx_over e n = ground (arith, e, n)

at_end :
    (stage : Stage) (accepted abandoned : ℕ) (counts : List ℕ)
    → ended stage ≡ true
    → Told stage abandoned counts
    → LoadOk stage accepted abandoned
    → (abandoned < 2 ^ 63) × (counts ≡ told abandoned)
at_end stopped accepted abandoned counts e h load = (load, h)
at_end _ accepted abandoned counts e h load = absurd (ground arith)

pub Told-wait :
    {s : System} (log : List Record)
    → Inv s
    → Told s.stage s.pool.abandoned (abandonments log)
    → (prefer_done ctx_over : Bool) {answer : Option PoolError}
    → wait prefer_done ctx_over s.pool ≡ some answer
    → answer ≢ some wait_expired
    → abandonments log ≡ lost answer
Told-wait {s} log inv h prefer_done ctx_over e n =
    let over = sym inv.end ∙ wait-done s.pool prefer_done ctx_over e n in
    let (lt, told) = at_end s.stage s.pool.accepted s.pool.abandoned _ over h inv.load in
    wait-told s.pool prefer_done ctx_over (abandonments log) e n lt told
