-- ===== src/Storage/RoundTrips.antt =====
-- What was inserted is what is read.
use evictor.Prelude.{ℕ, ◌≡◌, refl, ap, ◌∙◌, Option, none, some, List, [], ◌∷◌, All, arith}
use evictor.Storage.Sql.{
  Value, text, bytes, integer, instant, boolean, jsonb, null, Database, IsTable, pick, added, zip,
  primary_key,
}
use evictor.Storage.Models.{Project, ApiKey, Provider}
use evictor.Storage.Store.{
  project_insert, scan_project, insert_project, get_project, project_select, with_instant, or_null,
  instant_or_null, api_key_insert, scan_api_key, insert_api_key, get_api_key, api_key_select,
  provider_insert, scan_provider, insert_provider, get_provider, provider_select, scan_row,
}

pub with_instant-eq-some :
    {A S : Type 0} (set : ℕ → A) (o : Option (List Value × S)) {a : A} {s : S}
    → with_instant set o ≡ some (a, s)
    → (t : ℕ) × ((o ≡ some (instant t ∷ [], s)) × (set t ≡ a))
unfolding with_instant
with_instant-eq-some set none h = absurd (ground arith)
with_instant-eq-some set (some (instant t ∷ [], u)) h = (t, (ground arith, ground arith))
with_instant-eq-some set (some (instant t ∷ v ∷ r, u)) h = absurd (ground arith)
with_instant-eq-some set (some ([], u)) h = absurd (ground arith)
with_instant-eq-some set (some (text t ∷ r, u)) h = absurd (ground arith)
with_instant-eq-some set (some (bytes t ∷ r, u)) h = absurd (ground arith)
with_instant-eq-some set (some (integer t ∷ r, u)) h = absurd (ground arith)
with_instant-eq-some set (some (boolean t ∷ r, u)) h = absurd (ground arith)
with_instant-eq-some set (some (jsonb t ∷ r, u)) h = absurd (ground arith)
with_instant-eq-some set (some (null ∷ r, u)) h = absurd (ground arith)

pub instant_or_null-or_null : (o : Option ℕ) → instant_or_null (or_null instant o) ≡ some o
unfolding instant_or_null
instant_or_null-or_null none = refl
instant_or_null-or_null (some t) = refl

module _ (db : Database) (exact : Value → Type 0) (sql : IsTable db exact) where
  -- A project that was inserted is read back by its id, with the timestamp that the insertion
  -- filled in, if the database keeps tables (`IsTable`) and represents its values exactly.
  pub get-insert_project :
      (p : Project) {q : Project} (s t : db.State)
      → All exact (project_insert p).values
      → insert_project db p s ≡ some (q, t)
      → get_project db p.id t ≡ some q
  unfolding insert_project get_project project_select pick primary_key zip added
  get-insert_project p {q} s t h e =
      let (at, parts) =
        with_instant-eq-some (λ u. record p { created_at = u }) (db.execute (project_insert p) s)
          e in
      let read =
        sql.reads_back (project_insert p) ("id" ∷ "name" ∷ "created_at" ∷ []) parts.0 h refl in
      ap (scan_row scan_project) read ∙ ap (λ r. some r) parts.1

  -- An API key that was inserted is read back by its id, with its expiry or without one, and with
  -- the timestamp that the insertion filled in, if the database keeps tables (`IsTable`) and
  -- represents its values exactly.
  pub get-insert_api_key :
      (k : ApiKey) {l : ApiKey} (s t : db.State)
      → All exact (api_key_insert k).values
      → insert_api_key db k s ≡ some (l, t)
      → get_api_key db k.id t ≡ some l
  unfolding insert_api_key get_api_key api_key_select pick primary_key zip added
  get-insert_api_key k {l} s t h e =
      let (at, parts) =
        with_instant-eq-some (λ u. record k { created_at = u }) (db.execute (api_key_insert k) s)
          e in
      let read =
        sql.reads_back (api_key_insert k)
          ("id" ∷ "project_id" ∷ "key_hash" ∷ "last4" ∷ "kind" ∷ "expires_at" ∷ "created_at" ∷ [])
          parts.0 h refl in
      ap (scan_row scan_api_key) read
      ∙ rw (scan_api_key, instant_or_null-or_null k.expires_at) (ap (λ r. some r) parts.1)

  -- A provider that was inserted is read back by its id, under the same condition.
  pub get-insert_provider :
      (p : Provider) {q : Provider} (s t : db.State)
      → All exact (provider_insert p).values
      → insert_provider db p s ≡ some (q, t)
      → get_provider db p.id t ≡ some q
  unfolding insert_provider get_provider provider_select pick primary_key zip added
  get-insert_provider p {q} s t h e =
      let (at, parts) =
        with_instant-eq-some (λ u. record p { created_at = u }) (db.execute (provider_insert p) s)
          e in
      let read =
        sql.reads_back (provider_insert p)
          ("id" ∷ "project_id" ∷ "kind" ∷ "name" ∷ "credentials_encrypted" ∷ "key_last4"
            ∷ "polling_health" ∷ "created_at" ∷ [])
          parts.0 h refl in
      ap (scan_row scan_provider) read ∙ ap (λ r. some r) parts.1
