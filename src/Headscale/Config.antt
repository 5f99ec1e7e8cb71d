-- ===== src/Headscale/Config.antt =====
-- internal/headscale: types.go, config.go and derpmap.go, what the subprocess and the clients are told.
use agenthub_server.Base.{
  Text, str, is_empty, ℕ, Bool, true, false, ◌&&◌, ◌||◌, Option, none, some, List, [], ◌∷◌, ◌++◌,
  if◌then◌else◌,
}
use agenthub_server.Base.Int.{ℤ, is_zero}

pub record Options : Type 0 where
  pub binary_path : Text
  pub data_dir : Text
  pub server_url : Text
  pub listen_addr : Text
  pub grpc_listen_addr : Text
  pub unix_socket : Text
  pub shutdown_timeout : ℕ
  pub ready_timeout : ℕ
  pub derp_enabled : Bool
  pub derp_region_id : ℤ
  pub derp_region_code : Text
  pub derp_region_name : Text
  pub derp_stun_listen_addr : Text
  pub derp_verify_clients : Bool
  pub derp_ipv4 : Text
  pub derp_ipv6 : Text

-- filepath.Join, and the %d and {{}} of an int
pub record Printer : Type 0 where
  pub join : Text → Text → Text
  pub decimal : ℤ → Text

-- A line of the template, ended by its newline
abbrev pub line : Text → Text → Text → Text
line name value rest = name ++ (value ++ (10 ∷ rest))

abbrev pub bool_text : Bool → Text
bool_text true = str "true"
bool_text false = str "false"

-- {{- if .DERPIPv4 }}
abbrev pub line_if : Text → Text → Text → Text
line_if name value rest = if is_empty value then rest else line name value rest

-- The server block of an embedded DERP
unfoldable pub embedded_derp : Printer → Options → Text → Text
embedded_derp p o rest = line (str "  server:") [] (
    line (str "    enabled: ") (str "true") (
      line (str "    region_id: ") (p.decimal o.derp_region_id) (
        line (str "    region_code: ") o.derp_region_code (
          line (str "    region_name: ") o.derp_region_name (
            line (str "    verify_clients: ") (bool_text o.derp_verify_clients) (
              line (str "    stun_listen_addr: ") o.derp_stun_listen_addr (
                line (str "    private_key_path: ")
                  (p.join o.data_dir (str "derp_server_private.key"))
                  (line (str "    automatically_add_embedded_derp_region: ") (str "true") (
                    line_if (str "    ipv4: ") o.derp_ipv4 (
                      line_if (str "    ipv6: ") o.derp_ipv6 (
                        line (str "  urls: []") []
                          (line (str "  auto_update_enabled: ") (str "false") rest))))))))))))

unfoldable pub public_derp : Text → Text
public_derp rest = line (str "  urls:") [] (
    line (str "    - https://controlplane.tailscale.com/derpmap/default") []
      (line (str "  auto_update_enabled: ") (str "true") rest))

-- configTmpl after its derp block
unfoldable pub config_tail : Printer → Options → Text
config_tail p o = line (str "  update_frequency: 24h") [] (
    line (str "database:") [] (
      line (str "  type: sqlite") [] (
        line (str "  sqlite:") [] (
          line (str "    path: ") (p.join o.data_dir (str "db.sqlite")) (
            line (str "    write_ahead_log: true") [] (
              line (str "log:") [] (
                line (str "  level: info") [] (
                  line (str "  format: json") [] (
                    line (str "policy:") [] (
                      line (str "  mode: file") [] (
                        line (str "  path: \"\"") [] (
                          line (str "dns:") [] (
                            line (str "  magic_dns: false") [] (
                              line (str "  base_domain: \"\"") [] (
                                line (str "  override_local_dns: false") [] (
                                  line (str "  nameservers:") []
                                    (line (str "    global: []") [] [])))))))))))))))))

-- configTmpl
unfoldable pub config_text : Printer → Options → Text
config_text p o = line (str "server_url: ") o.server_url (
    line (str "listen_addr: ") o.listen_addr (
      line (str "metrics_listen_addr: \"\"") [] (
        line (str "grpc_listen_addr: ") o.grpc_listen_addr (
          line (str "grpc_allow_insecure: true") [] (
            line (str "unix_socket: ") o.unix_socket (
              line (str "unix_socket_permission: \"0770\"") [] (
                line (str "disable_check_updates: true") [] (
                  line (str "noise:") [] (
                    line (str "  private_key_path: ") (p.join o.data_dir (str "noise_private.key"))
                      (line (str "prefixes:") [] (
                        line (str "  v4: 100.64.0.0/10") [] (
                          line (str "  v6: fd7a:115c:a1e0::/48") [] (
                            line (str "derp:") [] (
                              if o.derp_enabled
                              then embedded_derp p o (config_tail p o)
                              else public_derp (config_tail p o)))))))))))))))

-- The two checks of RenderConfig
abbrev pub lacks_option : Options → Bool
lacks_option o =
    is_empty o.data_dir
    || is_empty o.server_url
    || is_empty o.listen_addr
    || is_empty o.grpc_listen_addr
    || is_empty o.unix_socket

abbrev pub lacks_stun : Options → Bool
lacks_stun o = o.derp_enabled && is_empty o.derp_stun_listen_addr

unfoldable pub render_config : Printer → Options → Option Text
render_config p o =
    if lacks_option o then none else if lacks_stun o then none else some (config_text p o)

pub record DerpMapInput : Type 0 where
  pub region_id : ℤ
  pub region_code : Text
  pub region_name : Text
  pub hostname : Text
  pub derp_port : ℤ
  pub stun_port : ℤ
  pub ipv4 : Text
  pub ipv6 : Text

pub record DerpNode : Type 0 where
  pub name : Text
  pub region_id : ℤ
  pub host_name : Text
  pub ipv4 : Text
  pub ipv6 : Text
  pub derp_port : ℤ
  pub stun_port : ℤ

pub record DerpRegion : Type 0 where
  pub region_id : ℤ
  pub region_code : Text
  pub region_name : Text
  pub nodes : List DerpNode

-- derpMap: its one region under its key
pub record DerpMap : Type 0 where
  pub key : Text
  pub region : DerpRegion

abbrev pub lacks_derp : DerpMapInput → Bool
lacks_derp i =
    is_zero i.region_id
    || is_empty i.region_code
    || is_empty i.region_name
    || is_empty i.hostname
    || is_zero i.derp_port
    || is_zero i.stun_port

abbrev pub derp_map : Printer → DerpMapInput → DerpMap
derp_map p i = record {
  key = p.decimal i.region_id;
  region = record {
    region_id = i.region_id;
    region_code = i.region_code;
    region_name = i.region_name;
    nodes =
        record {
          name = p.decimal i.region_id ++ str "a";
          region_id = i.region_id;
          host_name = i.hostname;
          ipv4 = i.ipv4;
          ipv6 = i.ipv6;
          derp_port = i.derp_port;
          stun_port = i.stun_port;
        }
        ∷ [];
  };
}

-- BuildDERPMap before json.Marshal
unfoldable pub build_derp_map : Printer → DerpMapInput → Option DerpMap
build_derp_map p i = if lacks_derp i then none else some (derp_map p i)
