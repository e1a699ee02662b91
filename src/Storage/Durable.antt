-- ===== src/Storage/Durable.antt =====
-- What backend/internal/storage/store.go has stored stays, whatever it stores afterwards.
use evictor.Prelude.{◌≡◌, ◌⊎◌, inl, inr, refl, ap, ◌∙◌, str_eq, false, some, List}
use evictor.Storage.Sql.{Value, raise, Insert, Select, Database, IsTable, names_of, primary_key}
use evictor.Storage.Models.{
  Project, ApiKey, Provider, Endpoint, InferenceRequest, StatusSnapshot, PricingDefault, WarmMedian,
}
use evictor.Storage.Store.{
  project_insert, api_key_insert, provider_insert, insert_project, insert_api_key, insert_provider,
}
use evictor.Storage.Endpoints.{endpoint_insert, insert_endpoint}
use evictor.Storage.Telemetry.{
  status_snapshot_insert, pricing_default_insert, warm_median_upsert, insert_status_snapshot,
  insert_pricing_default, upsert_warm_median,
}
use evictor.Storage.RoundTrips.{with_instant-eq-some}
use evictor.Storage.Measured.{with_instants-eq-some, executed-eq-some}
use evictor.Storage.Requests.{inference_request_insert, insert_inference_request}

module _ (db : Database) where
  -- An operation of the store that changes the database, with its result.
  pub data Write : db.State → db.State → Type 0 where
    new_project :
        {s t : db.State} (p : Project) {q : Project}
        → insert_project db p s ≡ some (q, t)
        → Write s t
    new_api_key :
        {s t : db.State} (k : ApiKey) {l : ApiKey} → insert_api_key db k s ≡ some (l, t) → Write s t
    new_provider :
        {s t : db.State} (p : Provider) {q : Provider}
        → insert_provider db p s ≡ some (q, t)
        → Write s t
    new_endpoint :
        {s t : db.State} (e : Endpoint) {f : Endpoint}
        → insert_endpoint db e s ≡ some (f, t)
        → Write s t
    new_inference_request :
        {s t : db.State} (r : InferenceRequest) {q : InferenceRequest}
        → insert_inference_request db r s ≡ some (q, t)
        → Write s t
    new_status_snapshot :
        {s t : db.State} (snap : StatusSnapshot)
        → insert_status_snapshot db snap s ≡ some t
        → Write s t
    new_pricing_default :
        {s t : db.State} (d : PricingDefault) → insert_pricing_default db d s ≡ some t → Write s t
    new_warm_median :
        {s t : db.State} (m : WarmMedian) {n : WarmMedian}
        → upsert_warm_median db m s ≡ some (n, t)
        → Write s t

  pub data Later : db.State → db.State → Type 0 where
    now : {s : db.State} → Later s s
    after : {s t u : db.State} → Write s t → Later t u → Later s u

  -- The statement of a write, which has `DO UPDATE` only for the warm medians.
  pub record Ran (s t : db.State) : Type 0 where
    pub insert : Insert
    pub returned : List Value
    pub done : db.execute insert s ≡ some (returned, t)
    pub conflict : (insert.on_conflict ≡ raise) ⊎ (insert.table ≡ "warm_medians")

  ran : {s t : db.State} → Write s t → Ran s t
  unfolding insert_project insert_api_key insert_provider insert_endpoint insert_inference_request
      insert_status_snapshot insert_pricing_default upsert_warm_median project_insert api_key_insert
      provider_insert endpoint_insert inference_request_insert status_snapshot_insert
      pricing_default_insert warm_median_upsert
  ran {s} (new_project p e) =
      let (at, parts) =
        with_instant-eq-some (λ u. record p { created_at = u }) (db.execute (project_insert p) s)
          e in
      record { insert = project_insert p; returned = _; done = parts.0; conflict = inl refl }
  ran {s} (new_api_key k e) =
      let (at, parts) =
        with_instant-eq-some (λ u. record k { created_at = u }) (db.execute (api_key_insert k) s)
          e in
      record { insert = api_key_insert k; returned = _; done = parts.0; conflict = inl refl }
  ran {s} (new_provider p e) =
      let (at, parts) =
        with_instant-eq-some (λ u. record p { created_at = u }) (db.execute (provider_insert p) s)
          e in
      record { insert = provider_insert p; returned = _; done = parts.0; conflict = inl refl }
  ran {s} (new_endpoint e h) =
      let (at, of, parts) =
        with_instants-eq-some (λ u v. record e { created_at = u; updated_at = v })
          (db.execute (endpoint_insert e) s) h in
      record { insert = endpoint_insert e; returned = _; done = parts.0; conflict = inl refl }
  ran {s} (new_inference_request r e) =
      let (at, parts) =
        with_instant-eq-some (λ u. record r { received_at = u })
          (db.execute (inference_request_insert r) s) e in
      record {
        insert = inference_request_insert r;
        returned = _;
        done = parts.0;
        conflict = inl refl;
      }
  ran {s} (new_status_snapshot snap e) =
      let (row, done) = executed-eq-some (db.execute (status_snapshot_insert snap) s) e in
      record {
        insert = status_snapshot_insert snap;
        returned = row;
        done = done;
        conflict = inl refl;
      }
  ran {s} (new_pricing_default d e) =
      let (row, done) = executed-eq-some (db.execute (pricing_default_insert d) s) e in
      record { insert = pricing_default_insert d; returned = row; done = done; conflict = inl refl }
  ran {s} (new_warm_median m e) =
      let (at, parts) =
        with_instant-eq-some (λ u. record m { computed_at = u })
          (db.execute (warm_median_upsert m) s) e in
      record { insert = warm_median_upsert m; returned = _; done = parts.0; conflict = inr refl }

module _ (db : Database) (exact : Value → Type 0) (sql : IsTable db exact) where
  pub Later-query :
      {s t : db.State} (q : Select) {values : List Value}
      → names_of q.key ≡ primary_key q.table
      → str_eq q.table "warm_medians" ≡ false
      → Later db s t
      → db.query q s ≡ some values
      → db.query q t ≡ some values
  Later-query q keyed other now there = there
  Later-query {s} q keyed other (after {t = u} w later) there =
      let r = ran db w in
      let different : (r.insert.on_conflict ≡ raise) ⊎ (str_eq q.table r.insert.table ≡ false) =
        elim r.conflict [
          | inl raises ↦ inl raises
          | inr medians ↦ inr (ap (str_eq q.table) medians ∙ other)
        ] in
      Later-query q keyed other later (sql.keeps r.insert q r.done different keyed there)
