-- ===== src/Storage/Telemetry.antt =====
-- backend/internal/storage/store.go: the operations on what is measured of the endpoints.
use evictor.Prelude.{ℕ, Option, none, some, List, [], ◌∷◌, Text}
use evictor.Storage.Sql.{Value, text, integer, instant, raise, do_update, Insert, Select, Database}
use evictor.Storage.Models.{StatusSnapshot, PricingDefault, WarmMedian}
use evictor.Storage.Store.{or_null, scan_row, with_instant}
use evictor.Storage.Endpoints.{integer_or_null, ◌>>=◌}

unfoldable pub status_snapshot_insert : StatusSnapshot → Insert
status_snapshot_insert snap = record {
  table = "status_snapshots";
  on_conflict = raise;
  columns = "id" ∷ "endpoint_id" ∷ "worker_state" ∷ "worker_count" ∷ "taken_at" ∷ [];
  values =
      text snap.id
      ∷ text snap.endpoint_id
      ∷ text snap.worker_state
      ∷ or_null integer snap.worker_count
      ∷ instant snap.taken_at
      ∷ [];
  returning = [];
}

-- `Exec`, which returns no row.
abbrev pub executed : {S : Type 0} → Option (List Value × S) → Option S
executed none = none
executed (some (row, s)) = some s

unfoldable pub scan_status_snapshot : List Value → Option StatusSnapshot
unfolding integer_or_null
scan_status_snapshot
      (text id ∷ text endpoint_id ∷ text worker_state ∷ count ∷ instant taken_at ∷ []) =
    do
      worker_count ← integer_or_null count
      some (record {
        id = id;
        endpoint_id = endpoint_id;
        worker_state = worker_state;
        worker_count = worker_count;
        taken_at = taken_at;
      })
scan_status_snapshot _ = none

unfoldable pub pricing_default_insert : PricingDefault → Insert
pricing_default_insert d = record {
  table = "pricing_defaults";
  on_conflict = raise;
  columns = "provider_kind" ∷ "gpu_tier" ∷ "hourly_rate_cents" ∷ "effective_from" ∷ [];
  values =
      text d.provider_kind
      ∷ text d.gpu_tier
      ∷ integer d.hourly_rate_cents
      ∷ instant d.effective_from
      ∷ [];
  returning = [];
}

unfoldable pub scan_pricing_default : List Value → Option PricingDefault
scan_pricing_default
      (text provider_kind ∷ text gpu_tier ∷ integer cents ∷ instant effective_from ∷ []) =
    some (record {
      provider_kind = provider_kind;
      gpu_tier = gpu_tier;
      hourly_rate_cents = cents;
      effective_from = effective_from;
    })
scan_pricing_default _ = none

unfoldable pub warm_median_upsert : WarmMedian → Insert
warm_median_upsert m = record {
  table = "warm_medians";
  on_conflict = do_update;
  columns = "endpoint_id" ∷ "median_ms" ∷ "sample_count" ∷ [];
  values = text m.endpoint_id ∷ integer m.median_ms ∷ integer m.sample_count ∷ [];
  returning = "computed_at" ∷ [];
}

unfoldable pub scan_warm_median : List Value → Option WarmMedian
scan_warm_median
      (text endpoint_id ∷ integer median_ms ∷ integer sample_count ∷ instant computed_at ∷ []) =
    some (record {
      endpoint_id = endpoint_id;
      median_ms = median_ms;
      sample_count = sample_count;
      computed_at = computed_at;
    })
scan_warm_median _ = none

unfoldable pub status_snapshot_select : Text → Select
status_snapshot_select id = record {
  table = "status_snapshots";
  columns = "id" ∷ "endpoint_id" ∷ "worker_state" ∷ "worker_count" ∷ "taken_at" ∷ [];
  key = ("id", text id) ∷ [];
}

unfoldable pub pricing_default_select : Text → Text → ℕ → Select
pricing_default_select provider_kind gpu_tier effective_from = record {
  table = "pricing_defaults";
  columns = "provider_kind" ∷ "gpu_tier" ∷ "hourly_rate_cents" ∷ "effective_from" ∷ [];
  key =
      ("provider_kind", text provider_kind)
      ∷ ("gpu_tier", text gpu_tier)
      ∷ ("effective_from", instant effective_from)
      ∷ [];
}

unfoldable pub warm_median_select : Text → Select
warm_median_select endpoint_id = record {
  table = "warm_medians";
  columns = "endpoint_id" ∷ "median_ms" ∷ "sample_count" ∷ "computed_at" ∷ [];
  key = ("endpoint_id", text endpoint_id) ∷ [];
}

module _ (db : Database) where
  unfoldable pub insert_status_snapshot : StatusSnapshot → db.State → Option db.State
  unfolding status_snapshot_insert
  insert_status_snapshot snap s = executed (db.execute (status_snapshot_insert snap) s)

  unfoldable pub get_status_snapshot : Text → db.State → Option StatusSnapshot
  unfolding scan_status_snapshot status_snapshot_select
  get_status_snapshot id s = scan_row scan_status_snapshot (db.query (status_snapshot_select id) s)

  unfoldable pub insert_pricing_default : PricingDefault → db.State → Option db.State
  unfolding pricing_default_insert
  insert_pricing_default d s = executed (db.execute (pricing_default_insert d) s)

  unfoldable pub get_pricing_default : Text → Text → ℕ → db.State → Option PricingDefault
  unfolding scan_pricing_default pricing_default_select
  get_pricing_default provider_kind gpu_tier effective_from s =
      scan_row scan_pricing_default
        (db.query (pricing_default_select provider_kind gpu_tier effective_from) s)

  unfoldable pub upsert_warm_median : WarmMedian → db.State → Option (WarmMedian × db.State)
  unfolding warm_median_upsert with_instant
  upsert_warm_median m s =
      with_instant (λ t. record m { computed_at = t }) (db.execute (warm_median_upsert m) s)

  unfoldable pub get_warm_median : Text → db.State → Option WarmMedian
  unfolding scan_warm_median warm_median_select
  get_warm_median endpoint_id s =
      scan_row scan_warm_median (db.query (warm_median_select endpoint_id) s)
