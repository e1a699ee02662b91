-- ===== src/App/Secrecy/Witnesses.antt =====
-- Two processes, one with its secrets in variables and one with them in files.
use evictor.Prelude.{true, none, some, [], ◌∷◌, Text, codes, text_eq, if◌then◌else◌}
use evictor.Config.{Lookup, ReadFile, Secret}
use evictor.App.Server.{cancelled, server_closed}
use evictor.App.Process.{Process}

abbrev variables : Lookup
variables name =
    if text_eq name (codes "DATABASE_URL")
    then codes "db"
    else if text_eq name (codes "EVICTOR_ENCRYPTION_KEY")
    then codes "k"
    else []

abbrev no_files : ReadFile
no_files path = none

abbrev paths : Lookup
paths name =
    if text_eq name (codes "DATABASE_URL_FILE")
    then codes "/run/url"
    else if text_eq name (codes "EVICTOR_ENCRYPTION_KEY_FILE")
    then codes "/run/key"
    else []

abbrev files : ReadFile
files path = if text_eq path (codes "/run/url") then some (codes "pg\n") else some (codes "k3y\n")

abbrev process : Process
process = record {
  lookup = variables;
  read_file = no_files;
  args = codes "evictor" ∷ [];
  open_database = λ url. text_eq url (codes "db");
  listen = λ address. true;
  server = cancelled none (some server_closed);
  wait = none;
}

abbrev secret : Text → Secret
secret text = record { reveal = text }
