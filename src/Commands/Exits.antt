-- ===== src/Commands/Exits.antt =====
-- When the command `evictor` exits with 0.
use evictor.Prelude.{◌≡◌, ◌↔◌, ◌⊎◌, Bool, true, none, Text, arith}
use evictor.Config
use evictor.Config.{Config, ok, load}
use evictor.Storage.Db
use evictor.App.Server.{serve}
use evictor.App.Process.{role}
use evictor.App.Outcomes.{run-code, is_orderly, address_of}
use evictor.Commands.{Host, evictor_process, evictor_main, succeeds}

new-succeeds :
    (opens answers : Bool) (url : Text)
    → (succeeds (Db.new opens answers url) ≡ true) ↔ ((opens ≡ true) × (answers ≡ true))
unfolding Db.new
new-succeeds opens answers url = ground arith

-- The configuration loads, the database opens and answers a ping, and then either the role is that
-- of the worker, or the API listens, serves until it is shut down, and its workers stop or are
-- given up on.
abbrev pub IsUp : Host → Type 0
IsUp host =
    (cfg : Config) × ((load host.read_file host.getenv ≡ ok cfg)
      × (((host.opens cfg.database_url.reveal ≡ true)
            × (host.answers cfg.database_url.reveal ≡ true))
          × ((role host.args cfg.role ≡ ok Config.worker)
              ⊎ ((role host.args cfg.role ≡ ok Config.api)
                  × ((host.listen (address_of cfg) ≡ true)
                      × ((serve host.server ≡ none) × (is_orderly host.wait ≡ true)))))))

-- The command exits with 0 exactly when it came up (`IsUp`): so not unless PostgreSQL answered the
-- ping of `storage.New`.
pub evictor_main-code : (host : Host) → (evictor_main host ≡ 0) ↔ IsUp host
unfolding evictor_main evictor_process
evictor_main-code host =
    let code = run-code (evictor_process host) in
    (
      λ zero.
          let (cfg, (loaded, (opened, rest))) = code.0 zero in
          let url = cfg.database_url.reveal in
          (cfg, (loaded, ((new-succeeds (host.opens url) (host.answers url) url).0 opened, rest))),
      λ (cfg, (loaded, (opened, rest))).
          let url = cfg.database_url.reveal in
          code.1 (
            cfg,
            (loaded, ((new-succeeds (host.opens url) (host.answers url) url).1 opened, rest)),
          ),
    )
