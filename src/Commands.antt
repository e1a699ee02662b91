-- ===== src/Commands.antt =====
-- backend/cmd/evictor/main.go and backend/cmd/mock-provider/main.go: what the commands plug together.
pub mod Exits
mod Witnesses
use evictor.Prelude.{
  ℕ, Bool, true, false, Option, none, some, List, [], ◌∷◌, ◌++◌, Text, codes, is_blank,
  if◌then◌else◌,
}
use evictor.Config.{Lookup, ReadFile}
use evictor.Workers.Pool.{PoolError}
use evictor.Storage.Db
use evictor.Storage.Db.{Outcome}
use evictor.App.Server.{Course, ServerError, server_closed}
use evictor.App.Process.{Process, run}
use evictor.MockProvider.Store.{Store, new_store}

-- What the operating system, pgx, net/http and the scheduler of the workers answer in a run.
pub record Host : Type 0 where
  pub getenv : Lookup
  pub read_file : ReadFile
  pub args : List Text
  pub listen : (address : Text) → Bool
  pub opens : (url : Text) → Bool
  pub answers : (url : Text) → Bool
  pub server : Course
  pub wait : Option PoolError

abbrev pub succeeds : Outcome → Bool
succeeds o = elim o.error [ none ↦ true | some e ↦ false ]

unfoldable pub evictor_process : Host → Process
unfolding Db.new
evictor_process host = record {
  lookup = host.getenv;
  read_file = host.read_file;
  args = host.args;
  open_database = λ url. succeeds (Db.new (host.opens url) (host.answers url) url);
  listen = host.listen;
  server = host.server;
  wait = host.wait;
}

-- The exit code of `evictor`.
unfoldable pub evictor_main : Host → ℕ
unfolding evictor_process run
evictor_main host = (run (evictor_process host)).code

pub record MockServer : Type 0 where
  pub address : Text
  pub store : Store

unfoldable pub mock_server : Lookup → MockServer
mock_server getenv =
    let port = getenv (codes "PORT") in
    record {
      address = codes ":" ++ (if is_blank port then codes "8091" else port);
      store = new_store;
    }

-- The exit code of `mock-provider`, by what `ListenAndServe` returns.
unfoldable pub mock_main : Option ServerError → ℕ
mock_main none = 0
mock_main (some server_closed) = 0
mock_main (some _) = 1
