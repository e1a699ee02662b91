-- ===== src/Config.antt =====
-- backend/internal/config/config.go: the settings, read from the environment and from secret files.
pub mod Laws
mod Witnesses
use evictor.Prelude.{
  ℕ, ◌*◌, ◌^◌, ◌<◌, ◌&&◌, Bool, true, false, Option, none, some, List, [], ◌∷◌, ◌++◌, Text, codes,
  text_eq, is_blank, trim_space, to_lower, read_number, ltb, ◌==◌, if◌then◌else◌,
}

pub data Environment : Type 0 where
  development production : Environment

pub data Role : Type 0 where
  api worker : Role

pub data Level : Type 0 where
  debug info warn error : Level

pub data ConfigError : Type 0 where
  read_failed : (name : Text) → ConfigError
  missing : (name : Text) → ConfigError
  not_positive : (name : Text) → ConfigError
  bad_environment bad_log_level bad_role : ConfigError

pub data Result {ℓ} (A : Type ℓ) : Type ℓ where
  ok : A → Result A
  err : ConfigError → Result A

infixl 5 ◌>>=◌
abbrev pub ◌>>=◌ {ℓ κ} : {A : Type ℓ} {B : Type κ} → Result A → (A → Result B) → Result B
ok a >>= k = k a
err e >>= k = err e

-- A secret is opened by `reveal` alone; a log record of it holds a constant.
pub record Secret : Type 0 where
  pub reveal : Text

unfoldable pub log_value : Secret → Text
log_value s = codes "[REDACTED]"

pub record Config : Type 0 where
  pub environment : Environment
  pub log_level : Level
  pub role : Role
  pub port : ℕ
  pub database_url : Secret
  pub encryption_key : Secret
  pub worker_count : ℕ
  pub queue_capacity : ℕ
  pub worker_max_attempts : ℕ
  pub shutdown_timeout : ℕ

abbrev pub Lookup : Type 0
Lookup = Text → Text

-- `os.ReadFile`: `none` is its error.
abbrev pub ReadFile : Type 0
ReadFile = Text → Option Text

non_blank : Text → ConfigError → Result Secret
non_blank [] e = err e
non_blank (c ∷ s) e = ok (record { reveal = c ∷ s })

from_file : Text → Option Text → Result Secret
unfolding non_blank
from_file name none = err (read_failed name)
from_file name (some content) = non_blank (trim_space content) (missing name)

unfoldable pub required_secret : ReadFile → Lookup → Text → Result Secret
unfolding from_file non_blank
required_secret read_file lookup name =
    let value = trim_space (lookup name) in
    let path = trim_space (lookup (name ++ codes "_FILE")) in
    if is_blank value
    then (if is_blank path then err (missing name) else from_file name (read_file path))
    else ok (record { reveal = value })

-- `strconv.Atoi` and the test of its result: a sign, then digits, in the range of an int.
unfoldable pub atoi_positive : Text → Option ℕ
atoi_positive [] = none
atoi_positive (c ∷ s) = elim (read_number (if c == b'+' then s else c ∷ s)) [
  | none ↦ none
  | some n ↦ if ltb 0 n && ltb n (2 ^ 63) then some n else none
]

or_not_positive : Text → Option ℕ → Result ℕ
or_not_positive name none = err (not_positive name)
or_not_positive name (some n) = ok n

unfoldable pub positive_int : Lookup → Text → ℕ → Result ℕ
unfolding or_not_positive atoi_positive
positive_int lookup name fallback =
    let raw = trim_space (lookup name) in
    if is_blank raw then ok fallback else or_not_positive name (atoi_positive raw)

unfoldable pub default_value : Text → Text → Text
default_value value fallback = if is_blank (trim_space value) then fallback else trim_space value

unfoldable pub parse_environment : Text → Result Environment
parse_environment s =
    if text_eq s (codes "development")
    then ok development
    else if text_eq s (codes "production")
    then ok production
    else err bad_environment

unfoldable pub parse_role : Text → Result Role
parse_role value =
    let role = trim_space value in
    if text_eq role (codes "api")
    then ok api
    else if text_eq role (codes "worker")
    then ok worker
    else err bad_role

unfoldable pub parse_log_level : Text → Result Level
parse_log_level value =
    let level = to_lower value in
    if text_eq level (codes "info")
    then ok info
    else if text_eq level (codes "debug")
    then ok debug
    else if text_eq level (codes "warn")
    then ok warn
    else if text_eq level (codes "error")
    then ok error
    else err bad_log_level

abbrev pub shutdown_seconds : ℕ
shutdown_seconds = 15

unfoldable pub load : ReadFile → Lookup → Result Config
load read_file lookup = do
  database_url ← required_secret read_file lookup (codes "DATABASE_URL")
  encryption_key ← required_secret read_file lookup (codes "EVICTOR_ENCRYPTION_KEY")
  port ← positive_int lookup (codes "PORT") 8080
  workers ← positive_int lookup (codes "WORKER_COUNT") 4
  capacity ← positive_int lookup (codes "WORKER_QUEUE_CAPACITY") 100
  max_attempts ← positive_int lookup (codes "WORKER_MAX_ATTEMPTS") 3
  environment ←
      parse_environment (default_value (lookup (codes "EVICTOR_ENV")) (codes "development"))
  log_level ← parse_log_level (default_value (lookup (codes "LOG_LEVEL")) (codes "info"))
  role ← parse_role (default_value (lookup (codes "EVICTOR_ROLE")) (codes "api"))
  ok (record {
    environment = environment;
    log_level = log_level;
    role = role;
    port = port;
    database_url = database_url;
    encryption_key = encryption_key;
    worker_count = workers;
    queue_capacity = capacity;
    worker_max_attempts = max_attempts;
    shutdown_timeout = shutdown_seconds * 1000000000;
  })
