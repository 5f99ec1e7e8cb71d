-- ===== src/Witnesses/Settings.antt =====
-- Examples for the configuration.
use agenthub_server.Base.{str, ◌==◌, ◌≡◌, ◌↔◌, none, some, [], ◌++◌, if◌then◌else◌}
use agenthub_server.Config.{Host, missing}
use agenthub_server.Config.Load.{default}
use agenthub_server.Config.Validate.{validate}
use agenthub_server.Config.Validity.{IsFormed, validate-IsFormed}

-- A host with AGENTHUB_DB_URL set and nothing else.
abbrev host : Host
host = record {
  getenv = λ name. if name == str "AGENTHUB_DB_URL" then str "postgres://db" else [];
  read_file = λ path. none;
  home_dir = some (str "/root");
  stat = λ path. missing;
  join_path = λ a b. a ++ (str "/" ++ b);
  yaml_unmarshal = λ text c. none;
}

validate-IsFormed_example : (validate host (default host) ≡ []) ↔ IsFormed host (default host)
validate-IsFormed_example = validate-IsFormed host (default host)
