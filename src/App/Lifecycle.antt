-- ===== src/App/Lifecycle.antt =====
-- The order of the effects of a run of the process.
use evictor.Prelude.{
  ◌≡◌, inl, inr, refl, Bool, true, false, Bool-cases, Option, none, some, List, [], ◌∷◌, ◌++◌, Text,
  codes,
}
use evictor.Config
use evictor.Config.{Config, Level, Result, ok, err, load}
use evictor.Workers.Pool.{PoolError, drain_incomplete, queue_full, pool_stopped, wait_expired}
use evictor.App.Server.{ServerError, serve}
use evictor.App.Process.{
  Process, Event, run, role, serve_api, after_wait, after_serve, by_role, with_config, printed,
  opened_database, closed_database, ran_worker, new_workers, started_workers, listened, served,
  awaited_workers, logged,
}
use evictor.App.Outcomes.{address_of}

-- How far the process has come.
pub data Phase : Type 0 where
  fresh opened created started listening stopped drained closed : Phase

-- The phase after an event, where the event may happen in the phase.
unfoldable pub next_phase : Phase → Event → Option Phase
next_phase fresh (printed e) = some fresh
next_phase fresh (logged l m) = some fresh
next_phase fresh (opened_database url) = some opened
next_phase opened (logged l m) = some opened
next_phase opened ran_worker = some opened
next_phase opened (new_workers o) = some created
next_phase opened closed_database = some closed
next_phase created started_workers = some started
next_phase started (listened a) = some listening
next_phase listening (logged l m) = some listening
next_phase listening served = some stopped
next_phase listening closed_database = some closed
next_phase stopped (logged l m) = some stopped
next_phase stopped awaited_workers = some drained
next_phase stopped closed_database = some closed
next_phase drained (logged l m) = some drained
next_phase drained closed_database = some closed
next_phase _ _ = none

unfoldable pub phase_after : Phase → List Event → Option Phase
phase_after phase [] = some phase
phase_after phase (e ∷ events) = elim (next_phase phase e) [
  | none ↦ none
  | some next ↦ phase_after next events
]

-- A database that was opened is closed; one that was not is left alone.
unfoldable pub is_end : Option Phase → Bool
is_end (some fresh) = true
is_end (some closed) = true
is_end _ = false

IsWhole : List Event → Type 0
IsWhole events = is_end (phase_after opened (events ++ closed_database ∷ [])) ≡ true

after_serve-IsWhole :
    (result : Option ServerError) (wait : Option PoolError) (l : Level) (a : Text)
    → is_end (
        phase_after listening
          ((logged l a ∷ (after_serve result wait).events) ++ closed_database ∷ []))
      ≡ true
unfolding phase_after next_phase is_end after_serve after_wait
after_serve-IsWhole (some e) wait l a = refl
after_serve-IsWhole none none l a = refl
after_serve-IsWhole none (some (drain_incomplete n)) l a = refl
after_serve-IsWhole none (some queue_full) l a = refl
after_serve-IsWhole none (some pool_stopped) l a = refl
after_serve-IsWhole none (some wait_expired) l a = refl

by_role-IsWhole :
    (p : Process) (cfg : Config) (r : Result Config.Role) → IsWhole (by_role p cfg r).events
unfolding IsWhole phase_after next_phase is_end by_role serve_api
by_role-IsWhole p cfg (err e) = refl
by_role-IsWhole p cfg (ok Config.worker) = refl
by_role-IsWhole p cfg (ok Config.api) = elim (Bool-cases (p.listen (address_of cfg))) [
  | inl e ↦
      rw e (after_serve-IsWhole (serve p.server) p.wait Level.info (codes "starting Evictor API"))
  | inr e ↦ rw e refl
]

with_config-phase :
    (p : Process) (r : Result Config) → is_end (phase_after fresh (with_config p r).events) ≡ true
unfolding phase_after next_phase is_end with_config IsWhole
with_config-phase p (err e) = refl
with_config-phase p (ok cfg) =
    let whole = by_role-IsWhole p cfg (role p.args cfg.role) in
    elim (Bool-cases (p.open_database cfg.database_url.reveal)) [
      | inl e ↦ rw e whole
      | inr e ↦ rw e refl
    ]

-- Every run goes through the phases in their order, on every path, errors included: the database is
-- opened before anything else runs and closed last, exactly once and only if it was opened; the
-- pool is created and started once and before the API listens; it is awaited only after serving.
pub run-phase : (p : Process) → is_end (phase_after fresh (run p).events) ≡ true
unfolding run
run-phase p = with_config-phase p (load p.read_file p.lookup)
