-- ===== src/Config/Witnesses.antt =====
-- Configurations read from concrete environments.
use evictor.Prelude.{
  ◌*◌, ◌≡◌, refl, none, some, [], codes, text_eq, trim_space, read_number, to_lower, if◌then◌else◌,
}
use evictor.Config.{
  Lookup, ReadFile, Config, development, worker, debug, ok, load, positive_int, required_secret,
  default_value, parse_environment, parse_role, parse_log_level,
}

abbrev no_files : ReadFile
no_files path = none

abbrev one_file : ReadFile
one_file path = if text_eq path (codes "/run/key") then some (codes "k3y\n") else none

abbrev vars : Lookup
vars name =
    if text_eq name (codes "DATABASE_URL")
    then codes "db"
    else if text_eq name (codes "EVICTOR_ENCRYPTION_KEY_FILE")
    then codes " /run/key"
    else if text_eq name (codes "PORT")
    then codes " 90 "
    else if text_eq name (codes "EVICTOR_ROLE")
    then codes "worker"
    else if text_eq name (codes "LOG_LEVEL")
    then codes "DEBUG"
    else []

abbrev expected : Config
expected = record {
  environment = development;
  log_level = debug;
  role = worker;
  port = 90;
  database_url = record { reveal = codes "db" };
  encryption_key = record { reveal = codes "k3y" };
  worker_count = 4;
  queue_capacity = 100;
  worker_max_attempts = 3;
  shutdown_timeout = 15 * 1000000000;
}

loaded : load one_file vars ≡ ok expected
unfolding load required_secret trim_space text_eq positive_int read_number parse_environment
    default_value parse_log_level to_lower parse_role
loaded = refl
