-- ===== src/Config.antt =====
-- internal/config/config.go: the configuration, its sources and its validation.
pub mod Load
pub mod Validate
pub mod Precedence
pub mod Validity
use agenthub_server.Base.{Text, ℕ, Bool, Option, List}
use agenthub_server.Base.Int.{ℤ}

pub record OauthProviderConfig : Type 0 where
  pub client_id : Text
  pub client_secret : Text
  pub client_secret_env : Text
  pub redirect_url : Text

pub record OauthConfigGroup : Type 0 where
  pub google : OauthProviderConfig
  pub github : OauthProviderConfig

-- `requests_per_second` is a float64, here in thousandths.
pub record RateLimitConfig : Type 0 where
  pub requests_per_second : ℕ
  pub burst : ℤ

-- Durations are nanoseconds.
pub record HeadscaleConfig : Type 0 where
  pub enabled : Bool
  pub binary_path : Text
  pub data_dir : Text
  pub server_url : Text
  pub listen_addr : Text
  pub metrics_listen_addr : Text
  pub grpc_listen_addr : Text
  pub unix_socket : Text
  pub shutdown_timeout : ℕ
  pub ready_timeout : ℕ
  pub derp_enabled : Bool
  pub derp_region_id : ℤ
  pub derp_region_code : Text
  pub derp_region_name : Text
  pub derp_stun_listen_addr : Text
  pub derp_hostname : Text
  pub derp_port : ℤ
  pub derp_ipv4 : Text
  pub derp_ipv6 : Text
  pub derp_verify_clients : Bool

pub record HttpConfig : Type 0 where
  pub port : ℤ
  pub http_port : ℤ

pub record TlsConfig : Type 0 where
  pub mode : Text
  pub email : Text
  pub cert_file : Text
  pub key_file : Text

pub record DbConfig : Type 0 where
  pub driver : Text
  pub url : Text

pub record ObsConfig : Type 0 where
  pub log_level : Text
  pub log_format : Text

pub record SmtpConfig : Type 0 where
  pub host : Text
  pub port : ℤ
  pub username : Text
  pub password : Text
  pub password_env : Text

pub record MailConfig : Type 0 where
  pub provider : Text
  pub from : Text
  pub smtp : SmtpConfig

pub record AuthConfig : Type 0 where
  pub issuer : Text
  pub session_ttl : ℕ
  pub email_verify_ttl : ℕ
  pub password_reset_ttl : ℕ
  pub verify_url_prefix : Text
  pub reset_url_prefix : Text

pub record Config : Type 0 where
  pub mode : Text
  pub hostname : Text
  pub data_dir : Text
  pub http : HttpConfig
  pub tls : TlsConfig
  pub db : DbConfig
  pub obs : ObsConfig
  pub mail : MailConfig
  pub auth : AuthConfig
  pub oauth : OauthConfigGroup
  pub rate_limit : RateLimitConfig
  pub headscale : HeadscaleConfig

-- What os.Stat says of a path.
pub data Stat : Type 0 where
  missing directory other_file stat_failed : Stat

-- The process's surroundings: os.Getenv (empty if unset), os.ReadFile, os.UserHomeDir, os.Stat,
-- filepath.Join of two parts, and yaml.Unmarshal over a configuration.
pub record Host : Type 0 where
  pub getenv : Text → Text
  pub read_file : Text → Option Text
  pub home_dir : Option Text
  pub stat : Text → Stat
  pub join_path : Text → Text → Text
  pub yaml_unmarshal : Text → Config → Option Config
