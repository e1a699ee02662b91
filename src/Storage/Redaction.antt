-- ===== src/Storage/Redaction.antt =====
-- backend/internal/models/models.go: the log values of the records that hold secrets, and what the
-- request log makes of them.
use evictor.Prelude.{◌≡◌, refl, Bool, true, false, ◌&&◌, Text, codes, text_eq}
use evictor.Api.Attrs.{
  Value, string, group, log_valuer, nil, cons, is_safe_request_attr, is_safe_value, is_safe_key,
  normal_key, has_key,
}
use evictor.Storage.Models.{ApiKey, Provider}

abbrev redacted : Value
redacted = string (codes "[REDACTED]")

unfoldable pub api_key_log_value : ApiKey → Value
api_key_log_value key = group (
    cons (codes "id") (string key.id) (
      cons (codes "project_id") (string key.project_id) (
        cons (codes "last4") (string key.last4)
          (cons (codes "kind") (string key.kind) (cons (codes "key_hash") redacted nil)))))

unfoldable pub provider_log_value : Provider → Value
provider_log_value provider = group (
    cons (codes "id") (string provider.id) (
      cons (codes "project_id") (string provider.project_id) (
        cons (codes "kind") (string provider.kind) (
          cons (codes "name") (string provider.name) (
            cons (codes "key_last4") (string provider.key_last4) (
              cons (codes "polling_health") (string provider.polling_health)
                (cons (codes "credentials_encrypted") redacted nil)))))))

and_false : (b : Bool) → (b && false) ≡ false
and_false true = refl
and_false false = refl

-- The request log takes neither an API key nor a provider as an attribute, under whatever key: the
-- redacted field of its log value has a protected name. Nor does the log value depend on the secret.
pub is_safe_request_attr-log_value :
    (name : Text) (key other_key : ApiKey) (provider other_provider : Provider)
    → ((is_safe_request_attr (record { key = name; value = log_valuer (api_key_log_value key) })
          ≡ false)
        × (is_safe_request_attr
              (record { key = name; value = log_valuer (provider_log_value provider) })
            ≡ false))
      × ((api_key_log_value (record key { key_hash = other_key.key_hash }) ≡ api_key_log_value key)
          × (provider_log_value
                (record provider { credentials_encrypted = other_provider.credentials_encrypted })
              ≡ provider_log_value provider))
unfolding is_safe_request_attr is_safe_value is_safe_key normal_key has_key text_eq
    api_key_log_value provider_log_value
is_safe_request_attr-log_value name key other_key provider other_provider =
    ((and_false _, and_false _), (refl, refl))
