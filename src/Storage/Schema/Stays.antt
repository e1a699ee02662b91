-- ===== src/Storage/Schema/Stays.antt =====
-- What backend/internal/storage/store.go reads does not change by what it writes.
use evictor.Prelude.{Bool, true, false}
use evictor.Storage.Schema.Scans.{Reader, read_warm_median}

abbrev pub reads_median : Reader → Bool
reads_median (read_warm_median endpoint_id) = true
reads_median _ = false
