-- ===== src/Config/Load.antt =====
-- Default, applyEnv and Load of internal/config/config.go.
use agenthub_server.Base.{
  Text, str, ◌==◌, is_empty, ℕ, ◌*◌, Bool, true, false, ◌||◌, Option, none, some, [], ◌∷◌,
  if◌then◌else◌,
}
use agenthub_server.Base.Int.{ℤ, pos, atoi}
use agenthub_server.Strings.{strip_prefix_fold}
use agenthub_server.World.{second}
use agenthub_server.Config.{
  Config, Host, OauthProviderConfig, HeadscaleConfig, DbConfig, SmtpConfig,
}

abbrev pub home_data_dir : Host → Option Text → Text
home_data_dir h none = str "./data"
home_data_dir h (some home) =
    h.join_path (h.join_path (h.join_path home (str ".local")) (str "share"))
      (str "agenthub-server")

unfoldable pub default_data_dir : Host → Text
default_data_dir h =
    if is_empty (h.getenv (str "XDG_DATA_HOME"))
    then home_data_dir h h.home_dir
    else h.join_path (h.getenv (str "XDG_DATA_HOME")) (str "agenthub-server")

abbrev pub no_provider : OauthProviderConfig
no_provider = record {
  client_id = [];
  client_secret = [];
  client_secret_env = [];
  redirect_url = [];
}

abbrev pub hour : ℕ
hour = 3600 * second

unfoldable pub default_headscale : HeadscaleConfig
default_headscale = record {
  enabled = false;
  binary_path = str "./bin/headscale";
  data_dir = [];
  server_url = str "http://127.0.0.1:18081";
  listen_addr = str "127.0.0.1:18081";
  metrics_listen_addr = [];
  grpc_listen_addr = str "127.0.0.1:50443";
  unix_socket = [];
  shutdown_timeout = 10 * second;
  ready_timeout = 10 * second;
  derp_enabled = false;
  derp_region_id = pos 999;
  derp_region_code = str "agenthub";
  derp_region_name = str "AgentHub Embedded DERP";
  derp_stun_listen_addr = str "0.0.0.0:3478";
  derp_hostname = [];
  derp_port = pos 443;
  derp_ipv4 = [];
  derp_ipv6 = [];
  derp_verify_clients = true;
}

unfoldable pub default : Host → Config
default h = record {
  mode = str "solo";
  hostname = str "localhost";
  data_dir = default_data_dir h;
  http = record { port = pos 443; http_port = pos 80 };
  tls = record { mode = str "auto"; email = []; cert_file = []; key_file = [] };
  db = record { driver = str "sqlite"; url = [] };
  obs = record { log_level = str "info"; log_format = str "json" };
  mail = record {
    provider = str "noop";
    from = [];
    smtp = record { host = []; port = pos 0; username = []; password = []; password_env = [] };
  };
  auth = record {
    issuer = str "agenthub-server";
    session_ttl = 24 * hour;
    email_verify_ttl = 24 * hour;
    password_reset_ttl = hour;
    verify_url_prefix = [];
    reset_url_prefix = [];
  };
  oauth = record { google = no_provider; github = no_provider };
  rate_limit = record { requests_per_second = 5000; burst = pos 20 };
  headscale = default_headscale;
}

-- if v := os.Getenv(name); v != "" { field = v }
abbrev pub or_old : Text → Text → Text
or_old [] old = old
or_old (c ∷ v) old = c ∷ v

-- if n, err := strconv.Atoi(v); err == nil { field = n }
abbrev pub parsed_or_old : Option ℤ → ℤ → ℤ
parsed_or_old none old = old
parsed_or_old (some n) old = n

abbrev pub number_or_old : Text → ℤ → ℤ
number_or_old [] old = old
number_or_old (c ∷ v) old = parsed_or_old (atoi (c ∷ v)) old

-- field = v == "1" || strings.EqualFold(v, "true")
abbrev pub is_end : Option Text → Bool
is_end none = false
is_end (some []) = true
is_end (some (c ∷ s)) = false

abbrev pub flag_or_old : Text → Bool → Bool
flag_or_old [] old = old
flag_or_old (c ∷ v) old = (c ∷ v) == str "1" || is_end (strip_prefix_fold (str "true") (c ∷ v))

-- if name != "" { if v := os.Getenv(name); v != "" { field = v } }
abbrev pub secret_or_old : Host → Text → Text → Text
secret_or_old h [] old = old
secret_or_old h (c ∷ name) old = or_old (h.getenv (c ∷ name)) old

-- AGENTHUB_DB_URL also chooses the driver where none is set.
abbrev pub driver_for_url : Text → Text → Text
driver_for_url [] driver = driver
driver_for_url (c ∷ url) [] = str "postgres"
driver_for_url (c ∷ url) (d ∷ driver) = d ∷ driver

unfoldable pub apply_env_db : Host → DbConfig → DbConfig
apply_env_db h c =
    let driver = or_old (h.getenv (str "AGENTHUB_DB_DRIVER")) c.driver in
    let url = h.getenv (str "AGENTHUB_DB_URL") in
    record { driver = driver_for_url url driver; url = or_old url c.url }

unfoldable pub apply_env_smtp : Host → SmtpConfig → SmtpConfig
apply_env_smtp h c = record {
  host = or_old (h.getenv (str "AGENTHUB_MAIL_SMTP_HOST")) c.host;
  port = number_or_old (h.getenv (str "AGENTHUB_MAIL_SMTP_PORT")) c.port;
  username = or_old (h.getenv (str "AGENTHUB_MAIL_SMTP_USER")) c.username;
  password =
      secret_or_old h c.password_env (or_old (h.getenv (str "AGENTHUB_MAIL_SMTP_PASS")) c.password);
  password_env = c.password_env;
}

unfoldable pub apply_env_google : Host → OauthProviderConfig → OauthProviderConfig
apply_env_google h c = record {
  client_id = or_old (h.getenv (str "AGENTHUB_OAUTH_GOOGLE_CLIENT_ID")) c.client_id;
  client_secret =
      secret_or_old h c.client_secret_env
        (or_old (h.getenv (str "AGENTHUB_OAUTH_GOOGLE_CLIENT_SECRET")) c.client_secret);
  client_secret_env = c.client_secret_env;
  redirect_url = or_old (h.getenv (str "AGENTHUB_OAUTH_GOOGLE_REDIRECT_URL")) c.redirect_url;
}

unfoldable pub apply_env_github : Host → OauthProviderConfig → OauthProviderConfig
apply_env_github h c = record {
  client_id = or_old (h.getenv (str "AGENTHUB_OAUTH_GITHUB_CLIENT_ID")) c.client_id;
  client_secret =
      secret_or_old h c.client_secret_env
        (or_old (h.getenv (str "AGENTHUB_OAUTH_GITHUB_CLIENT_SECRET")) c.client_secret);
  client_secret_env = c.client_secret_env;
  redirect_url = or_old (h.getenv (str "AGENTHUB_OAUTH_GITHUB_REDIRECT_URL")) c.redirect_url;
}

unfoldable pub apply_env_headscale : Host → HeadscaleConfig → HeadscaleConfig
apply_env_headscale h c = record c {
  enabled = flag_or_old (h.getenv (str "AGENTHUB_HEADSCALE_ENABLED")) c.enabled;
  binary_path = or_old (h.getenv (str "AGENTHUB_HEADSCALE_BINARY_PATH")) c.binary_path;
  data_dir = or_old (h.getenv (str "AGENTHUB_HEADSCALE_DATA_DIR")) c.data_dir;
  server_url = or_old (h.getenv (str "AGENTHUB_HEADSCALE_SERVER_URL")) c.server_url;
  listen_addr = or_old (h.getenv (str "AGENTHUB_HEADSCALE_LISTEN_ADDR")) c.listen_addr;
  unix_socket = or_old (h.getenv (str "AGENTHUB_HEADSCALE_UNIX_SOCKET")) c.unix_socket;
  derp_enabled = flag_or_old (h.getenv (str "AGENTHUB_HEADSCALE_DERP_ENABLED")) c.derp_enabled;
  derp_region_id =
      number_or_old (h.getenv (str "AGENTHUB_HEADSCALE_DERP_REGION_ID")) c.derp_region_id;
  derp_region_code =
      or_old (h.getenv (str "AGENTHUB_HEADSCALE_DERP_REGION_CODE")) c.derp_region_code;
  derp_hostname = or_old (h.getenv (str "AGENTHUB_HEADSCALE_DERP_HOSTNAME")) c.derp_hostname;
  derp_port = number_or_old (h.getenv (str "AGENTHUB_HEADSCALE_DERP_PORT")) c.derp_port;
  derp_ipv4 = or_old (h.getenv (str "AGENTHUB_HEADSCALE_DERP_IPV4")) c.derp_ipv4;
  derp_ipv6 = or_old (h.getenv (str "AGENTHUB_HEADSCALE_DERP_IPV6")) c.derp_ipv6;
  derp_stun_listen_addr =
      or_old (h.getenv (str "AGENTHUB_HEADSCALE_DERP_STUN_LISTEN_ADDR")) c.derp_stun_listen_addr;
}

unfoldable pub apply_env : Host → Config → Config
apply_env h c = record {
  mode = or_old (h.getenv (str "AGENTHUB_MODE")) c.mode;
  hostname = or_old (h.getenv (str "AGENTHUB_HOSTNAME")) c.hostname;
  data_dir = or_old (h.getenv (str "AGENTHUB_DATA_DIR")) c.data_dir;
  http = record {
    port = number_or_old (h.getenv (str "AGENTHUB_HTTP_PORT")) c.http.port;
    http_port = c.http.http_port;
  };
  tls = record {
    mode = or_old (h.getenv (str "AGENTHUB_TLS_MODE")) c.tls.mode;
    email = or_old (h.getenv (str "AGENTHUB_TLS_EMAIL")) c.tls.email;
    cert_file = c.tls.cert_file;
    key_file = c.tls.key_file;
  };
  db = apply_env_db h c.db;
  obs = record {
    log_level = or_old (h.getenv (str "AGENTHUB_LOG_LEVEL")) c.obs.log_level;
    log_format = or_old (h.getenv (str "AGENTHUB_LOG_FORMAT")) c.obs.log_format;
  };
  mail = record {
    provider = or_old (h.getenv (str "AGENTHUB_MAIL_PROVIDER")) c.mail.provider;
    from = or_old (h.getenv (str "AGENTHUB_MAIL_FROM")) c.mail.from;
    smtp = apply_env_smtp h c.mail.smtp;
  };
  auth = record {
    issuer = c.auth.issuer;
    session_ttl = c.auth.session_ttl;
    email_verify_ttl = c.auth.email_verify_ttl;
    password_reset_ttl = c.auth.password_reset_ttl;
    verify_url_prefix =
        or_old (h.getenv (str "AGENTHUB_VERIFY_URL_PREFIX")) c.auth.verify_url_prefix;
    reset_url_prefix = or_old (h.getenv (str "AGENTHUB_RESET_URL_PREFIX")) c.auth.reset_url_prefix;
  };
  oauth = record {
    google = apply_env_google h c.oauth.google;
    github = apply_env_github h c.oauth.github;
  };
  rate_limit = c.rate_limit;
  headscale = apply_env_headscale h c.headscale;
}

-- The paths and the hostname that follow from others where they are left empty.
unfoldable pub derive : Host → Config → Config
derive h c =
    let data_dir = or_old c.headscale.data_dir (h.join_path c.data_dir (str "headscale")) in
    record c {
      headscale = record (c.headscale) {
        data_dir = data_dir;
        unix_socket = or_old c.headscale.unix_socket (h.join_path data_dir (str "headscale.sock"));
        derp_hostname = or_old c.headscale.derp_hostname c.hostname;
      };
    }

-- Load's error is that of reading the file or of parsing it.
pub data LoadError : Type 0 where
  read_failed parse_failed : LoadError

pub data Loaded : Type 0 where
  loaded : Config → Loaded
  load_failed : LoadError → Loaded

abbrev pub unmarshalled : Option Config → Loaded
unmarshalled none = load_failed parse_failed
unmarshalled (some c) = loaded c

abbrev pub read_yaml : Host → Option Text → Config → Loaded
read_yaml h none c = load_failed read_failed
read_yaml h (some text) c = unmarshalled (h.yaml_unmarshal text c)

abbrev pub from_file : Host → Text → Config → Loaded
from_file h [] c = loaded c
from_file h (p ∷ path) c = read_yaml h (h.read_file (p ∷ path)) c

abbrev pub finish : Host → Loaded → Loaded
finish h (loaded c) = loaded (derive h (apply_env h c))
finish h (load_failed e) = load_failed e

unfoldable pub load : Host → Text → Loaded
load h path = finish h (from_file h path (default h))
