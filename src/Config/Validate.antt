-- ===== src/Config/Validate.antt =====
-- Validate of internal/config/config.go: every problem that it reports, in its order.
use agenthub_server.Base.{
  Text, str, ◌==◌, is_empty, Bool, true, false, ◌&&◌, ◌||◌, not, List, [], ◌∷◌, ◌++◌, if◌then◌else◌,
}
use agenthub_server.Base.Int.{is_zero, is_negative, is_above}
use agenthub_server.Config.{
  Config, Host, HeadscaleConfig, Stat, missing, directory, other_file, stat_failed,
}

-- One constructor for each message.
pub data Problem : Type 0 where
  mode_invalid db_url_for_postgres db_driver_invalid db_url_for_hosted : Problem
  tls_email_required tls_files_required tls_mode_invalid : Problem
  port_invalid http_port_invalid : Problem
  data_dir_stat data_dir_not_directory : Problem
  headscale_binary_required headscale_binary_stat headscale_url_required headscale_addr_required :
      Problem
  derp_stun_required derp_region_required derp_hostname_required : Problem

-- if test { errs = append(errs, problem) }
abbrev pub report : Bool → Problem → List Problem
report true p = p ∷ []
report false p = []

abbrev pub is_solo : Text → Bool
is_solo m = m == str "solo"

abbrev pub is_hosted : Text → Bool
is_hosted m = m == str "hosted"

abbrev pub check_mode : Config → List Problem
check_mode c = report (not (is_solo c.mode || is_hosted c.mode)) mode_invalid

abbrev pub check_driver : Config → List Problem
check_driver c =
    if c.db.driver == str "sqlite"
    then []
    else if c.db.driver == str "postgres"
    then report (is_empty c.db.url) db_url_for_postgres
    else db_driver_invalid ∷ []

abbrev pub check_hosted : Config → List Problem
check_hosted c = report (is_hosted c.mode && is_empty c.db.url) db_url_for_hosted

abbrev pub check_tls : Config → List Problem
check_tls c =
    if c.tls.mode == str "off"
    then []
    else if c.tls.mode == str "auto"
    then report (is_empty c.tls.email) tls_email_required
    else if c.tls.mode == str "file"
    then report (is_empty c.tls.cert_file || is_empty c.tls.key_file) tls_files_required
    else tls_mode_invalid ∷ []

abbrev pub check_port : Config → List Problem
check_port c =
    report (is_zero c.http.port || is_negative c.http.port || is_above 65535 c.http.port)
      port_invalid

abbrev pub check_http_port : Config → List Problem
check_http_port c =
    report (is_negative c.http.http_port || is_above 65535 c.http.http_port) http_port_invalid

abbrev pub stat_problem : Stat → List Problem
stat_problem missing = []
stat_problem directory = []
stat_problem other_file = data_dir_not_directory ∷ []
stat_problem stat_failed = data_dir_stat ∷ []

abbrev pub check_data_dir : Host → Config → List Problem
check_data_dir h c = if is_empty c.data_dir then [] else stat_problem (h.stat c.data_dir)

-- err != nil
abbrev pub stat_errs : Stat → Bool
stat_errs missing = true
stat_errs stat_failed = true
stat_errs _ = false

abbrev pub check_derp : HeadscaleConfig → List Problem
check_derp c =
    report (is_empty c.derp_stun_listen_addr) derp_stun_required
    ++ (report (is_zero c.derp_region_id) derp_region_required
        ++ report (is_empty c.derp_hostname) derp_hostname_required)

abbrev pub check_headscale : Host → HeadscaleConfig → List Problem
check_headscale h c =
    if c.enabled
    then report (is_empty c.binary_path) headscale_binary_required
      ++ (report (stat_errs (h.stat c.binary_path)) headscale_binary_stat
          ++ (report (is_empty c.server_url) headscale_url_required
              ++ (report (is_empty c.listen_addr) headscale_addr_required
                  ++ (if c.derp_enabled then check_derp c else []))))
    else []

-- The problems whose messages Validate joins into its error; none means that it returns nil.
unfoldable pub validate : Host → Config → List Problem
validate h c =
    check_mode c
    ++ (check_driver c
        ++ (check_hosted c
            ++ (check_tls c
                ++ (check_port c
                    ++ (check_http_port c
                        ++ (check_data_dir h c ++ check_headscale h c.headscale))))))
