-- ===== src/Storage/Measured.antt =====
-- Endpoints, snapshots, prices and medians that were stored are read back.
use evictor.Prelude.{ℕ, ◌≡◌, refl, ap, ◌∙◌, Option, none, some, List, [], ◌∷◌, Text, All, arith}
use evictor.Prelude.Int.{ℤ}
use evictor.Storage.Sql.{
  Value, text, bytes, integer, instant, boolean, jsonb, null, Database, IsTable, pick, added, zip,
  primary_key,
}
use evictor.Storage.Models.{Endpoint, StatusSnapshot, PricingDefault, WarmMedian}
use evictor.Storage.Store.{or_null, scan_row}
use evictor.Storage.RoundTrips.{with_instant-eq-some}
use evictor.Storage.Endpoints.{
  text_or_null, integer_or_null, endpoint_insert, with_instants, scan_endpoint, insert_endpoint,
  get_endpoint, endpoint_select,
}
use evictor.Storage.Telemetry.{
  status_snapshot_insert, executed, scan_status_snapshot, pricing_default_insert,
  scan_pricing_default, warm_median_upsert, scan_warm_median, insert_status_snapshot,
  get_status_snapshot, status_snapshot_select, insert_pricing_default, get_pricing_default,
  pricing_default_select, upsert_warm_median, get_warm_median, warm_median_select,
}

pub text_or_null-or_null : (o : Option Text) → text_or_null (or_null text o) ≡ some o
unfolding text_or_null
text_or_null-or_null none = refl
text_or_null-or_null (some t) = refl

pub integer_or_null-or_null : (o : Option ℤ) → integer_or_null (or_null integer o) ≡ some o
unfolding integer_or_null
integer_or_null-or_null none = refl
integer_or_null-or_null (some t) = refl

pub with_instants-eq-some :
    {A S : Type 0} (set : ℕ → ℕ → A) (o : Option (List Value × S)) {a : A} {s : S}
    → with_instants set o ≡ some (a, s)
    → (t : ℕ) × (u : ℕ) × ((o ≡ some (instant t ∷ instant u ∷ [], s)) × (set t u ≡ a))
unfolding with_instants
with_instants-eq-some set none h = absurd (ground arith)
with_instants-eq-some set (some ([], q)) h = absurd (ground arith)
with_instants-eq-some set (some (text v ∷ r, q)) h = absurd (ground arith)
with_instants-eq-some set (some (bytes v ∷ r, q)) h = absurd (ground arith)
with_instants-eq-some set (some (integer v ∷ r, q)) h = absurd (ground arith)
with_instants-eq-some set (some (boolean v ∷ r, q)) h = absurd (ground arith)
with_instants-eq-some set (some (jsonb v ∷ r, q)) h = absurd (ground arith)
with_instants-eq-some set (some (null ∷ r, q)) h = absurd (ground arith)
with_instants-eq-some set (some (instant t ∷ [], q)) h = absurd (ground arith)
with_instants-eq-some set (some (instant t ∷ text v ∷ r, q)) h = absurd (ground arith)
with_instants-eq-some set (some (instant t ∷ bytes v ∷ r, q)) h = absurd (ground arith)
with_instants-eq-some set (some (instant t ∷ integer v ∷ r, q)) h = absurd (ground arith)
with_instants-eq-some set (some (instant t ∷ boolean v ∷ r, q)) h = absurd (ground arith)
with_instants-eq-some set (some (instant t ∷ jsonb v ∷ r, q)) h = absurd (ground arith)
with_instants-eq-some set (some (instant t ∷ null ∷ r, q)) h = absurd (ground arith)
with_instants-eq-some set (some (instant t ∷ instant u ∷ [], q)) h =
    (t, u, (ground arith, ground arith))
with_instants-eq-some set (some (instant t ∷ instant u ∷ v ∷ r, q)) h = absurd (ground arith)

pub executed-eq-some :
    {S : Type 0} (o : Option (List Value × S)) {s : S}
    → executed o ≡ some s
    → (row : List Value) × (o ≡ some (row, s))
executed-eq-some none h = absurd (ground arith)
executed-eq-some (some (row, t)) h = (row, ground arith)

module _ (db : Database) (exact : Value → Type 0) (sql : IsTable db exact) where
  -- An endpoint that was inserted is read back by its id, each column that may be null included, if
  -- the database keeps tables (`IsTable`) and represents its values exactly.
  pub get-insert_endpoint :
      (e : Endpoint) {f : Endpoint} (s t : db.State)
      → All exact (endpoint_insert e).values
      → insert_endpoint db e s ≡ some (f, t)
      → get_endpoint db e.id t ≡ some f
  unfolding insert_endpoint get_endpoint endpoint_select pick primary_key zip added
  get-insert_endpoint e {f} s t h done =
      let (at, later, parts) =
        with_instants-eq-some (λ u v. record e { created_at = u; updated_at = v })
          (db.execute (endpoint_insert e) s) done in
      let read =
        sql.reads_back (endpoint_insert e)
          ("id" ∷ "project_id" ∷ "name" ∷ "status" ∷ "provider_id" ∷ "provider_endpoint_id"
            ∷ "hourly_rate_cents" ∷ "price_source" ∷ "cold_start_threshold_ms" ∷ "created_at"
            ∷ "updated_at" ∷ [])
          parts.0 h refl in
      ap (scan_row scan_endpoint) read
      ∙ rw (scan_endpoint, text_or_null-or_null e.provider_id)
          (rw (text_or_null-or_null e.provider_endpoint_id) (
            rw (integer_or_null-or_null e.hourly_rate_cents)
              (rw (integer_or_null-or_null e.cold_start_threshold_ms) (ap (λ r. some r) parts.1))))

  -- A snapshot that was inserted is read back by its id, under the same condition.
  pub get-insert_status_snapshot :
      (snap : StatusSnapshot) (s t : db.State)
      → All exact (status_snapshot_insert snap).values
      → insert_status_snapshot db snap s ≡ some t
      → get_status_snapshot db snap.id t ≡ some snap
  unfolding insert_status_snapshot get_status_snapshot status_snapshot_select pick primary_key zip
      added
  get-insert_status_snapshot snap s t h done =
      let (row, e) = executed-eq-some (db.execute (status_snapshot_insert snap) s) done in
      let read =
        sql.reads_back (status_snapshot_insert snap)
          ("id" ∷ "endpoint_id" ∷ "worker_state" ∷ "worker_count" ∷ "taken_at" ∷ []) e h refl in
      ap (scan_row scan_status_snapshot) read
      ∙ rw (scan_status_snapshot, integer_or_null-or_null snap.worker_count) refl

  -- A price that was inserted is read back by its three keys, under the same condition.
  pub get-insert_pricing_default :
      (d : PricingDefault) (s t : db.State)
      → All exact (pricing_default_insert d).values
      → insert_pricing_default db d s ≡ some t
      → get_pricing_default db d.provider_kind d.gpu_tier d.effective_from t ≡ some d
  unfolding insert_pricing_default get_pricing_default pricing_default_select pick primary_key zip
      added
  get-insert_pricing_default d s t h done =
      let (row, e) = executed-eq-some (db.execute (pricing_default_insert d) s) done in
      let read =
        sql.reads_back (pricing_default_insert d)
          ("provider_kind" ∷ "gpu_tier" ∷ "hourly_rate_cents" ∷ "effective_from" ∷ []) e h refl in
      ap (scan_row scan_pricing_default) read

  -- A median that was stored, for the first time or over an earlier one, is read back, under
  -- the same condition.
  pub get-upsert_warm_median :
      (m : WarmMedian) {n : WarmMedian} (s t : db.State)
      → All exact (warm_median_upsert m).values
      → upsert_warm_median db m s ≡ some (n, t)
      → get_warm_median db m.endpoint_id t ≡ some n
  unfolding upsert_warm_median get_warm_median warm_median_select pick primary_key zip added
  get-upsert_warm_median m {n} s t h done =
      let (at, parts) =
        with_instant-eq-some (λ u. record m { computed_at = u })
          (db.execute (warm_median_upsert m) s) done in
      let read =
        sql.reads_back (warm_median_upsert m)
          ("endpoint_id" ∷ "median_ms" ∷ "sample_count" ∷ "computed_at" ∷ []) parts.0 h refl in
      ap (scan_row scan_warm_median) read ∙ ap (λ r. some r) parts.1
