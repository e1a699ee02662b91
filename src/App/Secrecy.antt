-- ===== src/App/Secrecy.antt =====
-- Neither the database URL nor the encryption key shows in what the process prints.
mod Witnesses
use evictor.Prelude.{
  ℕ, ◌*◌, ◌≡◌, Bool, true, false, Option, none, some, List, [], ◌∷◌, ◌++◌, Text, codes, All,
  if◌then◌else◌,
}
use evictor.Config
use evictor.Config.{
  Config, Secret, Lookup, ReadFile, Result, ok, err, required_secret, ◌>>=◌, Environment, Level,
  shutdown_seconds,
}
use evictor.Logging
use evictor.App.Process.{Process, Event, Run, role, deferring_close}

-- The variables that hold no secret.
abbrev settings : List Text
settings =
    codes "PORT"
    ∷ codes "WORKER_COUNT"
    ∷ codes "WORKER_QUEUE_CAPACITY"
    ∷ codes "WORKER_MAX_ATTEMPTS"
    ∷ codes "EVICTOR_ENV"
    ∷ codes "LOG_LEVEL"
    ∷ codes "EVICTOR_ROLE"
    ∷ []

abbrev pub SameSettings : Lookup → Lookup → Type 0
SameSettings l m = All (λ name. m name ≡ l name) settings

abbrev with_secrets : Secret → Secret → Config → Config
with_secrets url key c = record c { database_url = url; encryption_key = key }

abbrev result_with : Secret → Secret → Result Config → Result Config
result_with url key (ok c) = ok (with_secrets url key c)
result_with url key (err e) = err e

-- What `load` does once it has the secrets.
abbrev assemble :
    Secret
    → Secret
    → Result ℕ
    → Result ℕ
    → Result ℕ
    → Result ℕ
    → Result Environment
    → Result Level
    → Result Config.Role
    → Result Config
assemble database_url encryption_key p w c m e l r = do
  port ← p
  workers ← w
  capacity ← c
  max_attempts ← m
  environment ← e
  log_level ← l
  role ← r
  ok (record {
    environment = environment;
    log_level = log_level;
    role = role;
    port = port;
    database_url = database_url;
    encryption_key = encryption_key;
    worker_count = workers;
    queue_capacity = capacity;
    worker_max_attempts = max_attempts;
    shutdown_timeout = shutdown_seconds * 1000000000;
  })

-- Both secrets can be read.
pub record HasSecrets (read_file : ReadFile) (lookup : Lookup) (url key : Secret) : Type 0 where
  pub url_read : required_secret read_file lookup (codes "DATABASE_URL") ≡ ok url
  pub key_read : required_secret read_file lookup (codes "EVICTOR_ENCRYPTION_KEY") ≡ ok key

-- The same process with other secrets, wherever they come from, and another database.
abbrev pub other_process : Process → ReadFile → Lookup → (Text → Bool) → Process
other_process p other_file m open_database = record p {
  lookup = m;
  read_file = other_file;
  open_database = open_database;
}
