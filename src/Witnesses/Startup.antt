-- ===== src/Witnesses/Startup.antt =====
-- Examples for the start of the server and of its Headscale.
use agenthub_server.Base.{
  str, ◌==◌, ℕ, ◌*◌, ◌≡◌, refl, Bool, true, false, none, some, [], ◌∷◌, ◌++◌, eqb, ltb, find, has,
}
use agenthub_server.Base.Int.{pos}
use agenthub_server.World.{World, world_of}
use agenthub_server.Devices.{PreAuthKeyInput}
use agenthub_server.Config.{Config, Host, missing}
use agenthub_server.Config.Load.{default}
use agenthub_server.Headscale.{link_of, HeadscaleUser, named, Service, mint_pre_auth_key}
use agenthub_server.Headscale.Links.{IsFailed, second_account_refused}
use agenthub_server.Headscale.Config.{Options, Printer}
use agenthub_server.Headscale.Supervisor.{Answer, Outside, Started, start, status, refused}
use agenthub_server.Headscale.Supervisor.Returns.{IsRight, start_returns}
use agenthub_server.Witnesses.Fixtures.{db}
use agenthub_server.World.{second}

abbrev printer : Printer
printer = record { join = λ base name. base ++ (b'/' ∷ name); decimal = λ z. str "n" }

-- A subprocess that answers from its third second on
abbrev warm_up : ℕ → Bool → Answer
warm_up took true = status 200 took
warm_up took false = refused took

abbrev outside : Outside
outside = record {
  has_binary = λ path. true;
  makes_dir = λ path. true;
  writes = λ path text. true;
  spawns = λ binary args. true;
  exited = λ now. false;
  health = λ now. warm_up 1000000 (ltb (3 * second) now);
  oversleep = λ now. 0;
}

abbrev options : Options
options = record {
  binary_path = str "/bin/headscale";
  data_dir = str "/var/hs";
  server_url = str "https://x/headscale";
  listen_addr = str "127.0.0.1:18081";
  grpc_listen_addr = str "127.0.0.1:50443";
  unix_socket = str "/run/hs.sock";
  shutdown_timeout = 10 * second;
  ready_timeout = 10 * second;
  derp_enabled = false;
  derp_region_id = pos 0;
  derp_region_code = [];
  derp_region_name = [];
  derp_stun_listen_addr = [];
  derp_verify_clients = false;
  derp_ipv4 = [];
  derp_ipv6 = [];
}

start_returns_example :
    (r : Started) × (start outside printer options second ≡ some r)
    × IsRight outside printer options second r
start_returns_example = start_returns outside printer options second

-- A Headscale that knows one user, who is linked in the account "b"
abbrev headscale_user : HeadscaleUser
headscale_user = record { id = 7; name = str "u-u" }

abbrev service : Service
service = record {
  client = record {
    list_users = λ now name. some (headscale_user ∷ []);
    create_user = λ now name. none;
    create_pre_auth_key = λ now user_id expiry. some (str "key");
  };
  server_url = str "https://x/headscale";
  user_prefix = str "u-";
  derp_map_json = [];
}

abbrev linked : World
linked = record {
  db = record db {
    headscale_user_links =
        record {
          account_id = str "b";
          user_id = str "u";
          headscale_user_id = 7;
          headscale_user_name = str "u-u";
          created_at = 5;
        }
        ∷ [];
  };
  now = 1000 * second;
  fresh = 0;
  faults = [];
  outbox = [];
}

abbrev key_input : PreAuthKeyInput
key_input = record {
  account_id = str "a";
  user_id = str "u";
  device_id = str "d";
  ttl = 300 * second;
}

user_found : find (named (str "u-u")) (headscale_user ∷ []) ≡ some headscale_user
unfolding find ◌==◌
user_found = refl

user_taken : has (λ l. eqb l.headscale_user_id 7) linked.db.headscale_user_links ≡ true
unfolding has
user_taken = refl

not_linked : find (link_of (str "a") (str "u")) linked.db.headscale_user_links ≡ none
unfolding find ◌==◌
not_linked = refl

second_account_refused_example :
    IsFailed (mint_pre_auth_key service key_input linked)
    × ((world_of (mint_pre_auth_key service key_input linked)).db ≡ linked.db)
second_account_refused_example =
    second_account_refused service key_input linked (headscale_user ∷ []) headscale_user refl
      user_found user_taken not_linked

-- The defaults, with TLS off
abbrev bare_host : Host
bare_host = record {
  getenv = λ name. [];
  read_file = λ path. none;
  home_dir = some (str "/root");
  stat = λ path. missing;
  join_path = λ a b. a ++ (str "/" ++ b);
  yaml_unmarshal = λ text c. none;
}

abbrev tls_off : Config
tls_off = record (default bare_host) {
  tls = record { mode = str "off"; email = []; cert_file = []; key_file = [] };
}
