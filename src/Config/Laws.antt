-- ===== src/Config/Laws.antt =====
-- What `Load` accepts, and what it makes of it.
use evictor.Prelude.{
  IsSpaces, trim_space-append, itoa, itoa-IsTight, itoa-not_blank, read_number-itoa, ℕ, ◌*◌, ◌^◌,
  ◌<◌, ◌≡◌, ◌↔◌, inl, inr, refl, ap, ◌∙◌, false, some, [], ◌∷◌, ◌++◌, Text, codes, is_blank,
  trim_space, read_number, read_digits, ◌==◌, Bool-cases, arith,
}
use evictor.Config.{
  ok, Secret, Config, Lookup, ReadFile, required_secret, atoi_positive, positive_int, default_value,
  parse_environment, parse_role, parse_log_level, load,
}

-- Every value in its range: a positive int, and secrets that are not empty.
pub record IsValid (c : Config) : Type 0 where
  pub port : (0 < c.port) × (c.port < 2 ^ 63)
  pub worker_count : (0 < c.worker_count) × (c.worker_count < 2 ^ 63)
  pub queue_capacity : (0 < c.queue_capacity) × (c.queue_capacity < 2 ^ 63)
  pub worker_max_attempts : (0 < c.worker_max_attempts) × (c.worker_max_attempts < 2 ^ 63)
  pub database_url : is_blank c.database_url.reveal ≡ false
  pub encryption_key : is_blank c.encryption_key.reveal ≡ false
  pub shutdown_timeout : c.shutdown_timeout ≡ 15 * 1000000000

positive_int-pos :
    (lookup : Lookup) (name : Text) (fallback : ℕ) {n : ℕ}
    → 0 < fallback
    → fallback < 2 ^ 63
    → positive_int lookup name fallback ≡ ok n
    → (0 < n) × (n < 2 ^ 63)
unfolding positive_int
positive_int-pos lookup name fallback f g h = ground arith

required_secret-not_blank :
    (read_file : ReadFile) (lookup : Lookup) (name : Text) {s : Secret}
    → required_secret read_file lookup name ≡ ok s
    → is_blank s.reveal ≡ false
unfolding required_secret
required_secret-not_blank read_file lookup name h = ground arith

-- The parts of a configuration, each read from its own variable with its own default.
pub record IsRead (read_file : ReadFile) (lookup : Lookup) (c : Config) : Type 0 where
  pub database_url : required_secret read_file lookup (codes "DATABASE_URL") ≡ ok c.database_url
  pub encryption_key :
      required_secret read_file lookup (codes "EVICTOR_ENCRYPTION_KEY") ≡ ok c.encryption_key
  pub port : positive_int lookup (codes "PORT") 8080 ≡ ok c.port
  pub worker_count : positive_int lookup (codes "WORKER_COUNT") 4 ≡ ok c.worker_count
  pub queue_capacity : positive_int lookup (codes "WORKER_QUEUE_CAPACITY") 100 ≡ ok c.queue_capacity
  pub worker_max_attempts :
      positive_int lookup (codes "WORKER_MAX_ATTEMPTS") 3 ≡ ok c.worker_max_attempts
  pub environment :
      parse_environment (default_value (lookup (codes "EVICTOR_ENV")) (codes "development"))
      ≡ ok c.environment
  pub log_level :
      parse_log_level (default_value (lookup (codes "LOG_LEVEL")) (codes "info")) ≡ ok c.log_level
  pub role : parse_role (default_value (lookup (codes "EVICTOR_ROLE")) (codes "api")) ≡ ok c.role
  pub shutdown_timeout : c.shutdown_timeout ≡ 15 * 1000000000

load-IsRead :
    (read_file : ReadFile) (lookup : Lookup) (c : Config)
    → load read_file lookup ≡ ok c
    → IsRead read_file lookup c
unfolding load
load-IsRead read_file lookup c h = record {
  database_url = ground arith;
  encryption_key = ground arith;
  port = ground arith;
  worker_count = ground arith;
  queue_capacity = ground arith;
  worker_max_attempts = ground arith;
  environment = ground arith;
  log_level = ground arith;
  role = ground arith;
  shutdown_timeout = ground arith;
}

IsRead-load :
    (read_file : ReadFile) (lookup : Lookup) (c : Config)
    → IsRead read_file lookup c
    → load read_file lookup ≡ ok c
unfolding load
IsRead-load read_file lookup c r = rw r.database_url (
    rw r.encryption_key (
      rw r.port (
        rw r.worker_count (
          rw r.queue_capacity (
            rw r.worker_max_attempts (
              rw r.environment
                (rw r.log_level (rw r.role (ground (arith, r.shutdown_timeout))))))))))

pub load-eq-ok_iff :
    (read_file : ReadFile) (lookup : Lookup) (c : Config)
    → (load read_file lookup ≡ ok c) ↔ IsRead read_file lookup c
load-eq-ok_iff read_file lookup c = (load-IsRead read_file lookup c, IsRead-load read_file lookup c)

-- A configuration that `Load` returns has positive numbers that fit an int, secrets that are not
-- empty, and fifteen seconds for the shutdown.
pub load-IsValid :
    (read_file : ReadFile) (lookup : Lookup) {c : Config} → load read_file lookup ≡ ok c → IsValid c
load-IsValid read_file lookup {c} h =
    let parts = (load-eq-ok_iff read_file lookup c).0 h in
    record {
      port = positive_int-pos lookup (codes "PORT") 8080 (omega arith) (omega arith) parts.port;
      worker_count =
          positive_int-pos lookup (codes "WORKER_COUNT") 4 (omega arith) (omega arith)
            parts.worker_count;
      queue_capacity =
          positive_int-pos lookup (codes "WORKER_QUEUE_CAPACITY") 100 (omega arith) (omega arith)
            parts.queue_capacity;
      worker_max_attempts =
          positive_int-pos lookup (codes "WORKER_MAX_ATTEMPTS") 3 (omega arith) (omega arith)
            parts.worker_max_attempts;
      database_url =
          required_secret-not_blank read_file lookup (codes "DATABASE_URL") parts.database_url;
      encryption_key =
          required_secret-not_blank read_file lookup (codes "EVICTOR_ENCRYPTION_KEY")
            parts.encryption_key;
      shutdown_timeout = parts.shutdown_timeout;
    }

atoi_positive_of_read_number :
    (s : Text) {n : ℕ} → read_number s ≡ some n → 0 < n → n < 2 ^ 63 → atoi_positive s ≡ some n
unfolding atoi_positive read_number read_digits
atoi_positive_of_read_number [] h p q = cc
atoi_positive_of_read_number (c ∷ s) {n} h p q = elim (Bool-cases (c == b'+')) [
  | inl e ↦ absurd (ground arith)
  | inr e ↦ rw (atoi_positive, e) (rw h (ground arith))
]

-- A setting that is printed as a decimal number in the positive ints, with any white space around
-- it, is read back as that number, whatever its default is.
pub positive_int-itoa :
    (lookup : Lookup) (name : Text) (fallback n : ℕ) (before after : Text)
    → IsSpaces before
    → IsSpaces after
    → 0 < n
    → n < 2 ^ 63
    → lookup name ≡ before ++ (itoa n ++ after)
    → positive_int lookup name fallback ≡ ok n
unfolding positive_int
positive_int-itoa lookup name fallback n before after h k p q e =
    let raw = ap trim_space e ∙ trim_space-append before (itoa n) after h (itoa-IsTight n) k in
    rw raw (
      rw (itoa-not_blank n)
        (rw (atoi_positive_of_read_number (itoa n) (read_number-itoa n) p q) refl))
