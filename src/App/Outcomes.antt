-- ===== src/App/Outcomes.antt =====
-- What a run of the process comes to.
use evictor.Prelude.{
  ℕ, ◌<◌, ◌*◌, ◌^◌, ◌≡◌, ◌⊎◌, ◌↔◌, inl, inr, refl, sym, ap, subst, signed, ◌∙◌, Bool, true, false,
  Bool-cases, Option, none, some, ◌++◌, Text, codes, itoa, arith,
}
use evictor.Prelude.Int.{pos}
use evictor.Config
use evictor.Config.{Config, Result, ok, err, load, parse_role}
use evictor.Config.Laws.{load-IsValid}
use evictor.Workers.Pool.{
  PoolError, drain_incomplete, queue_full, pool_stopped, wait_expired, new_pool, at_least_one,
}
use evictor.App.Server.{ServerError, serve}
use evictor.App.Process.{
  Process, run, role, serve_api, after_wait, after_serve, by_role, with_config, pool_options,
}

-- The workers stopped, or the pool gave up on jobs and counted them.
unfoldable pub is_orderly : Option PoolError → Bool
is_orderly none = true
is_orderly (some (drain_incomplete n)) = true
is_orderly (some _) = false

after_wait-code :
    (wait : Option PoolError) → ((after_wait wait).code ≡ 0) ↔ (is_orderly wait ≡ true)
unfolding after_wait is_orderly
after_wait-code none = ground arith
after_wait-code (some (drain_incomplete n)) = ground arith
after_wait-code (some queue_full) = ground arith
after_wait-code (some pool_stopped) = ground arith
after_wait-code (some wait_expired) = ground arith

after_serve-code :
    (served : Option ServerError) (wait : Option PoolError)
    → ((after_serve served wait).code ≡ 0) ↔ ((served ≡ none) × (is_orderly wait ≡ true))
unfolding after_serve
after_serve-code none wait =
    (λ h. (refl, (after_wait-code wait).0 h), λ (e, h). (after_wait-code wait).1 h)
after_serve-code (some e) wait = ground arith

abbrev pub address_of : Config → Text
address_of cfg = codes ":" ++ itoa cfg.port

serve_api-code :
    (p : Process) (cfg : Config)
    → ((serve_api p cfg).code ≡ 0) ↔ (
        (p.listen (address_of cfg) ≡ true) × ((serve p.server ≡ none) × (is_orderly p.wait ≡ true)))
unfolding serve_api
serve_api-code p cfg = elim (Bool-cases (p.listen (address_of cfg))) [
  | inl e ↦ rw e (
    λ h. (refl, (after_serve-code (serve p.server) p.wait).0 h),
    λ (_, h). (after_serve-code (serve p.server) p.wait).1 h,
  )
  | inr e ↦ rw e (ground arith)
]

-- What has to go well for the process to exit with 0.
abbrev pub IsSuccess : Process → Type 0
IsSuccess p =
    (cfg : Config) × ((load p.read_file p.lookup ≡ ok cfg)
      × ((p.open_database cfg.database_url.reveal ≡ true)
          × ((role p.args cfg.role ≡ ok Config.worker)
              ⊎ ((role p.args cfg.role ≡ ok Config.api)
                  × ((p.listen (address_of cfg) ≡ true)
                      × ((serve p.server ≡ none) × (is_orderly p.wait ≡ true)))))))

IsRoleSuccess : Process → Config → Result Config.Role → Type 0
IsRoleSuccess p cfg r =
    (r ≡ ok Config.worker)
    ⊎ ((r ≡ ok Config.api)
        × ((p.listen (address_of cfg) ≡ true)
            × ((serve p.server ≡ none) × (is_orderly p.wait ≡ true))))

by_role-code :
    (p : Process) (cfg : Config) (r : Result Config.Role)
    → ((by_role p cfg r).code ≡ 0) ↔ IsRoleSuccess p cfg r
unfolding by_role IsRoleSuccess
by_role-code p cfg (err e) = ground arith
by_role-code p cfg (ok Config.worker) = (λ _. inl refl, λ _. refl)
by_role-code p cfg (ok Config.api) = (
  λ h. inr (refl, (serve_api-code p cfg).0 h),
  λ s. elim s [ inl e ↦ absurd (ground arith) | inr h ↦ (serve_api-code p cfg).1 h.1 ],
)

abbrev IsOpenSuccess : Process → Config → Type 0
IsOpenSuccess p cfg =
    (p.open_database cfg.database_url.reveal ≡ true) × IsRoleSuccess p cfg (role p.args cfg.role)

opened-code :
    (p : Process) (cfg : Config) → ((with_config p (ok cfg)).code ≡ 0) ↔ IsOpenSuccess p cfg
unfolding with_config
opened-code p cfg =
    let later = by_role-code p cfg (role p.args cfg.role) in
    elim (Bool-cases (p.open_database cfg.database_url.reveal)) [
      | inl e ↦ rw e (λ h. (refl, later.0 h), λ (_, h). later.1 h)
      | inr e ↦ rw e (ground arith)
    ]

abbrev pub config_or : Config → Result Config → Config
config_or c (ok cfg) = cfg
config_or c (err e) = c

with_config-code :
    (p : Process) (r : Result Config)
    → ((with_config p r).code ≡ 0) ↔ ((cfg : Config) × ((r ≡ ok cfg) × IsOpenSuccess p cfg))
unfolding with_config
with_config-code p (err e) = (λ h. absurd (ground arith), λ (cfg, rest). absurd (ground arith))
with_config-code p (ok cfg) = (
  λ h. (cfg, (refl, (opened-code p cfg).0 h)),
  λ (c, (same, h)).
      (opened-code p cfg).1 (subst (IsOpenSuccess p) (sym (ap (config_or cfg) same)) h),
)

-- The exit code is 0 exactly when the configuration loads, the database opens, the role is known,
-- and then either it is the worker role, or the API listens, serves until it is shut down in order,
-- and its workers stop, where giving up on jobs at the drain deadline counts as stopping.
pub run-code : (p : Process) → ((run p).code ≡ 0) ↔ IsSuccess p
unfolding run IsRoleSuccess
run-code p = with_config-code p (load p.read_file p.lookup)

pub kept : {n : ℕ} (d : ℕ) → 0 < n → at_least_one (pos n) d ≡ n
unfolding at_least_one
kept d h = ground arith

channel_size : {n : ℕ} → 0 < n → n < 2 ^ 63 → signed n ≡ pos (at_least_one (pos n) 1)
unfolding at_least_one
channel_size h k = ground arith

-- The pool is made from a loaded configuration as it is: no setting is replaced by a default of the
-- pool's, the drain may take fifteen seconds, and the counters report the capacity that the
-- channel has.
pub new_pool-pool_options :
    (read_file : Config.ReadFile) (lookup : Config.Lookup) {cfg : Config}
    → load read_file lookup ≡ ok cfg
    → let pool = new_pool (pool_options cfg) in
      (pool.size ≡ cfg.worker_count)
      × ((pool.capacity ≡ cfg.queue_capacity)
          × ((pool.max_attempts ≡ cfg.worker_max_attempts)
              × ((pool.drain_timeout ≡ 15 * 1000000000)
                  × (signed pool.metrics.queue_capacity ≡ pos pool.capacity))))
unfolding new_pool pool_options
new_pool-pool_options read_file lookup {cfg} h =
    let valid = load-IsValid read_file lookup h in
    (
      kept 1 valid.worker_count.0,
      (
        kept 1 valid.queue_capacity.0,
        (
          kept 1 valid.worker_max_attempts.0,
          (
            kept 15000000000 (omega (arith, valid.shutdown_timeout)) ∙ valid.shutdown_timeout,
            channel_size valid.queue_capacity.0 valid.queue_capacity.1,
          ),
        ),
      ),
    )
