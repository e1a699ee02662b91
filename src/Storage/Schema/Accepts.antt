-- ===== src/Storage/Schema/Accepts.antt =====
-- Which records the schema of backend/internal/migrations/000001_init.up.sql accepts from the
-- insertions of backend/internal/storage/store.go.
use evictor.Prelude.{Bool, ◌&&◌}
use evictor.Storage.Sql.{Insert}
use evictor.Storage.Schema.{meets_checks}
use evictor.Storage.Schema.Columns.{fits}

-- The columns and the checks of a table, not its keys.
unfoldable pub accepts : Insert → Bool
unfolding fits meets_checks
accepts i = fits i && meets_checks i
