-- ===== src/Storage/Db.antt =====
-- backend/internal/storage/db.go: opening the store, and migrating its schema.
-- pgx and golang-migrate are parameters: their answers, and the list of the calls that they get.
use evictor.Prelude.{
  Bool, Option, none, some, List, [], ◌∷◌, ◌++◌, Text, codes, starts_with, drop, length,
  if◌then◌else◌,
}

abbrev pub schemes : List Text
schemes = codes "postgresql://" ∷ codes "postgres://" ∷ []

-- The loop of `toMigrateURL` over the schemes.
unfoldable pub with_scheme : List Text → Text → Text
with_scheme [] database_url = database_url
with_scheme (scheme ∷ rest) database_url =
    if starts_with scheme database_url
    then codes "pgx5://" ++ drop (length scheme) database_url
    else with_scheme rest database_url

unfoldable pub to_migrate_url : Text → Text
unfolding with_scheme
to_migrate_url database_url = with_scheme schemes database_url

pub data Call : Type 0 where
  opened : (url : Text) → Call
  pinged closed_pool : Call
  migrator : (url : Text) → Call
  migrated_up migrated_down closed_migrator : Call

pub data StorageError : Type 0 where
  open_pool ping open_source init_migrator migrate_up migrate_down : StorageError

pub record Outcome : Type 0 where
  pub error : Option StorageError
  pub calls : List Call

-- Whether pgxpool opens, and whether the ping is answered.
unfoldable pub new : Bool → Bool → Text → Outcome
new opens answers url =
    if opens
    then (if answers
        then record { error = none; calls = opened url ∷ pinged ∷ [] }
        else record { error = some ping; calls = opened url ∷ pinged ∷ closed_pool ∷ [] })
    else record { error = some open_pool; calls = opened url ∷ [] }

-- The result of `Up` and `Down`; `no_change` is an error value of the library.
pub data Migrated : Type 0 where
  done no_change failed : Migrated

unfoldable pub migration_error : StorageError → Migrated → Option StorageError
migration_error e failed = some e
migration_error e _ = none

-- What `newMigrator` comes to: the embedded files and the database driver may fail to open.
unfoldable pub run_migrations : Bool → Bool → Migrated → Text → Outcome
unfolding to_migrate_url migration_error
run_migrations source_opens driver_opens result url =
    if source_opens
    then (if driver_opens
        then record {
          error = migration_error migrate_up result;
          calls = migrator (to_migrate_url url) ∷ migrated_up ∷ closed_migrator ∷ [];
        }
        else record { error = some init_migrator; calls = migrator (to_migrate_url url) ∷ [] })
    else record { error = some open_source; calls = [] }

unfoldable pub migrate_down_all : Bool → Bool → Migrated → Text → Outcome
unfolding to_migrate_url migration_error
migrate_down_all source_opens driver_opens result url =
    if source_opens
    then (if driver_opens
        then record {
          error = migration_error migrate_down result;
          calls = migrator (to_migrate_url url) ∷ migrated_down ∷ closed_migrator ∷ [];
        }
        else record { error = some init_migrator; calls = migrator (to_migrate_url url) ∷ [] })
    else record { error = some open_source; calls = [] }
