-- ===== src/Commands/Witnesses.antt =====
-- A run of `evictor` on a concrete host.
use evictor.Prelude.{
  ◌≡◌, refl, none, some, [], ◌∷◌, codes, text_eq, trim_space, read_number, to_lower, if◌then◌else◌,
}
use evictor.Config.{
  Lookup, ReadFile, required_secret, positive_int, parse_environment, default_value,
  parse_log_level,
}
use evictor.App.Server.{cancelled, server_closed}
use evictor.Commands.{Host, evictor_main, mock_server, mock_main}

abbrev vars : Lookup
vars name =
    if text_eq name (codes "DATABASE_URL")
    then codes "db"
    else if text_eq name (codes "EVICTOR_ENCRYPTION_KEY")
    then codes "k"
    else []

abbrev no_files : ReadFile
no_files path = none

abbrev host : Host
host = record {
  getenv = vars;
  read_file = no_files;
  args = codes "evictor" ∷ [];
  listen = λ address. text_eq address (codes ":8080");
  opens = λ url. text_eq url (codes "db");
  answers = λ url. text_eq url (codes "db");
  server = cancelled none (some server_closed);
  wait = none;
}

default_port : (mock_server vars).address ≡ codes ":8091"
unfolding mock_server text_eq
default_port = refl

closed_is_orderly : mock_main (some server_closed) ≡ 0
unfolding mock_main
closed_is_orderly = refl

up : evictor_main host ≡ 0
unfolding evictor_main required_secret trim_space text_eq positive_int read_number parse_environment
    default_value parse_log_level to_lower
up = refl
