-- ===== src/Boot.antt =====
-- cmd/agenthub-server/main.go and internal/httpfront: what a configuration starts.
pub mod Accepted
use agenthub_server.Base.{
  Text, str, ◌==◌, is_empty, Bool, true, false, not, ◌||◌, Option, none, some, List, [], ◌∷◌, ◌++◌,
  if◌then◌else◌,
}
use agenthub_server.Base.Int.{pos}
use agenthub_server.Strings.{to_lower}
use agenthub_server.Config.{OauthProviderConfig, HeadscaleConfig, Config, directory}
use agenthub_server.Headscale.Config.{Options, Printer, DerpMapInput}

-- slog.Level
pub data Level : Type 0 where
  debug info warn error : Level

unfoldable pub parse_level : (Text → Text) → Text → Level
parse_level to_lower s =
    if to_lower s == str "debug"
    then debug
    else if to_lower s == str "warn"
    then warn
    else if to_lower s == str "error"
    then error
    else info

-- httpfront.Mode
pub data FrontMode : Type 0 where
  plain file auto : FrontMode

-- httpfront.Options; the handler is the router, which is never nil.
pub record FrontOptions : Type 0 where
  pub mode : FrontMode
  pub address : Text
  pub cert_file : Text
  pub key_file : Text
  pub email : Text
  pub domains : List Text

abbrev pub is_none_of : List Text → Bool
is_none_of [] = true
is_none_of (d ∷ ds) = false

abbrev pub front_refuses : FrontOptions → Bool
front_refuses o = elim o.mode [
  | plain ↦ is_empty o.address
  | file ↦ is_empty o.address
  | auto ↦ is_empty o.email || is_none_of o.domains
]

-- httpfront.New
unfoldable pub new_server : FrontOptions → Option FrontOptions
new_server o = if front_refuses o then none else some o

-- fmt.Sprintf("0.0.0.0:%d", cfg.HTTP.Port)
abbrev pub any_address : Printer → Config → Text
any_address p c = str "0.0.0.0:" ++ p.decimal c.http.port

abbrev pub plain_front : Printer → Config → FrontOptions
plain_front p c = record {
  mode = plain;
  address = any_address p c;
  cert_file = [];
  key_file = [];
  email = [];
  domains = [];
}

abbrev pub file_front : Printer → Config → FrontOptions
file_front p c = record {
  mode = file;
  address = any_address p c;
  cert_file = c.tls.cert_file;
  key_file = c.tls.key_file;
  email = [];
  domains = [];
}

abbrev pub auto_front : Config → FrontOptions
auto_front c = record {
  mode = auto;
  address = [];
  cert_file = [];
  key_file = [];
  email = c.tls.email;
  domains = c.hostname ∷ [];
}

unfoldable pub new_frontend : Printer → Config → Option FrontOptions
new_frontend p c =
    if c.tls.mode == str "off"
    then new_server (plain_front p c)
    else if c.tls.mode == str "file"
    then new_server (file_front p c)
    else if c.tls.mode == str "auto"
    then new_server (auto_front c)
    else none

-- openDB: the database file that sqlite.Open is called with, or an error. `makes_dir` is whether
-- os.MkdirAll of a directory succeeds.
pub data OpenedDb : Type 0 where
  sqlite_at : Text → OpenedDb
  mkdir_failed unsupported_driver : OpenedDb

unfoldable pub open_db : Printer → (Text → Bool) → Config → OpenedDb
open_db p makes_dir c =
    if c.db.driver == str "sqlite"
    then if makes_dir c.data_dir
      then sqlite_at (p.join c.data_dir (str "agenthub.db"))
      else mkdir_failed
    else unsupported_driver

-- The BaseURL of the file store
unfoldable pub blob_base_url : Printer → Config → Text
blob_base_url p c =
    if c.tls.mode == str "off"
    then str "http://" ++ (c.hostname ++ (str ":" ++ (p.decimal c.http.port ++ str "/api/blobs")))
    else str "https://" ++ (c.hostname ++ str "/api/blobs")

-- buildHeadscaler's Options
unfoldable pub headscale_options : HeadscaleConfig → Options
headscale_options h = record {
  binary_path = h.binary_path;
  data_dir = h.data_dir;
  server_url = h.server_url;
  listen_addr = h.listen_addr;
  grpc_listen_addr = h.grpc_listen_addr;
  unix_socket = h.unix_socket;
  shutdown_timeout = h.shutdown_timeout;
  ready_timeout = h.ready_timeout;
  derp_enabled = h.derp_enabled;
  derp_region_id = h.derp_region_id;
  derp_region_code = h.derp_region_code;
  derp_region_name = h.derp_region_name;
  derp_stun_listen_addr = h.derp_stun_listen_addr;
  derp_verify_clients = h.derp_verify_clients;
  derp_ipv4 = h.derp_ipv4;
  derp_ipv6 = h.derp_ipv6;
}

-- buildHeadscaler's DERPMapInput
unfoldable pub derp_map_input : HeadscaleConfig → DerpMapInput
derp_map_input h = record {
  region_id = h.derp_region_id;
  region_code = h.derp_region_code;
  region_name = h.derp_region_name;
  hostname = h.derp_hostname;
  derp_port = h.derp_port;
  stun_port = pos 3478;
  ipv4 = h.derp_ipv4;
  ipv6 = h.derp_ipv6;
}

-- buildRFC5322 of internal/mail/smtp.go
abbrev pub header : Text → Text → Text → Text
header name value rest = name ++ (value ++ (13 ∷ 10 ∷ rest))

unfoldable pub build_rfc5322 : Text → Text → Text → Text → Text
build_rfc5322 from to subject text = header (str "From: ") from (
    header (str "To: ") to (
      header (str "Subject: ") subject (
        header (str "MIME-Version: 1.0") []
          (header (str "Content-Type: text/plain; charset=utf-8") [] (header [] [] text)))))
