-- ===== src/Storage/Urls.antt =====
-- What the migrator is opened with.
use evictor.Prelude.{
  ◌≡◌, ◌⊎◌, inl, inr, refl, false, Bool-cases, ◌++◌, Text, codes, starts_with,
  append-drop_of_starts_with, drop,
}
use evictor.Storage.Db.{to_migrate_url}

-- What becomes of a URL: one of either scheme of PostgreSQL keeps everything that follows the
-- scheme and gets the migrator's, and any other is left as it is.
pub to_migrate_url-cases :
    (url : Text)
    → ((rest : Text) × (((url ≡ codes "postgresql://" ++ rest)
            ⊎ (url ≡ codes "postgres://" ++ rest))
          × (to_migrate_url url ≡ codes "pgx5://" ++ rest)))
      ⊎ ((starts_with (codes "postgresql://") url ≡ false)
          × ((starts_with (codes "postgres://") url ≡ false) × (to_migrate_url url ≡ url)))
unfolding to_migrate_url
to_migrate_url-cases url = elim (Bool-cases (starts_with (codes "postgresql://") url)) [
  | inl e ↦
      inl (drop 13 url, (inl (append-drop_of_starts_with (codes "postgresql://") url e), rw e refl))
  | inr e ↦ elim (Bool-cases (starts_with (codes "postgres://") url)) [
    | inl f ↦ inl (
      drop 11 url,
      (inr (append-drop_of_starts_with (codes "postgres://") url f), rw e (rw f refl)),
    )
    | inr f ↦ inr (e, (f, rw e (rw f refl)))
  ]
]
