-- ===== src/Boot/Accepted.antt =====
-- What Validate promises to the start-up.
use agenthub_server.Base.{
  Text, str, is_empty, zero, suc, ◌≡◌, ◌≢◌, refl, Bool, true, false, Option, none, some, [], ◌∷◌,
  ◌⊎◌, arith,
}
use agenthub_server.Base.Int.{ℤ, is_zero, pos, negsuc}
use agenthub_server.Config.{HeadscaleConfig, Config, Host}
use agenthub_server.Config.Validate.{validate}
use agenthub_server.Config.Validity.{validate-IsFormed}
use agenthub_server.Headscale.Config.{
  Options, Printer, config_text, lacks_option, lacks_stun, render_config, derp_map, build_derp_map,
}
use agenthub_server.Boot.{
  FrontOptions, OpenedDb, headscale_options, derp_map_input, plain, file, auto, sqlite_at,
  mkdir_failed, unsupported_driver,
}

-- A front end for the TLS mode of the configuration
abbrev pub IsServed : Config → Option FrontOptions → Type 0
IsServed c none = ⊥
IsServed c (some o) =
    ((c.tls.mode ≡ str "off") × (o.mode ≡ plain))
    ⊎ (((c.tls.mode ≡ str "file") × (o.mode ≡ file) × (o.cert_file ≢ []) × (o.key_file ≢ []))
        ⊎ ((c.tls.mode ≡ str "auto")
            × (o.mode ≡ auto)
            × (o.email ≢ [])
            × (o.domains ≡ c.hostname ∷ [])))

-- The database file in the data directory, where that is made; and otherwise why there is none
abbrev pub IsOpened : Printer → (Text → Bool) → Config → OpenedDb → Type 0
IsOpened p makes_dir c (sqlite_at path) =
    (c.db.driver ≡ str "sqlite")
    × (makes_dir c.data_dir ≡ true)
    × (path ≡ p.join c.data_dir (str "agenthub.db"))
IsOpened p makes_dir c mkdir_failed = (c.db.driver ≡ str "sqlite") × (makes_dir c.data_dir ≡ false)
IsOpened p makes_dir c unsupported_driver = c.db.driver ≡ str "postgres"

not_empty : (s : Text) → s ≢ [] → is_empty s ≡ false
not_empty [] h = ground arith
not_empty (x ∷ s) h = refl

rendered_lem :
    (p : Printer) (o : Options)
    → lacks_option o ≡ false
    → lacks_stun o ≡ false
    → render_config p o ≡ some (config_text p o)
unfolding render_config
rendered_lem p o options stun = ground (arith, options, stun)

-- What Validate does not ask of the Headscale section
pub record Unchecked (h : HeadscaleConfig) : Type 0 where
  pub data_dir : is_empty h.data_dir ≡ false
  pub grpc : is_empty h.grpc_listen_addr ≡ false
  pub socket : is_empty h.unix_socket ≡ false
  pub region_code : is_empty h.derp_region_code ≡ false
  pub region_name : is_empty h.derp_region_name ≡ false
  pub port : is_zero h.derp_port ≡ false

region_set : (z : ℤ) → z ≢ pos 0 → is_zero z ≡ false
region_set (pos zero) h = ground arith
region_set (pos (suc n)) h = ground arith
region_set (negsuc n) h = refl

-- Where Validate accepts a Headscale section with its own DERP server, and the fields that it does
-- not look at are set, its configuration is rendered and its DERP map built.
pub headscale_starts :
    (h : Host) (p : Printer) (c : Config)
    → validate h c ≡ []
    → c.headscale.enabled ≡ true
    → c.headscale.derp_enabled ≡ true
    → Unchecked c.headscale
    → (render_config p (headscale_options c.headscale)
        ≡ some (config_text p (headscale_options c.headscale)))
      × (build_derp_map p (derp_map_input c.headscale)
          ≡ some (derp_map p (derp_map_input c.headscale)))
unfolding headscale_options derp_map_input build_derp_map
headscale_starts h p c valid enabled with_derp rest =
    let formed = (validate-IsFormed h c).0 valid in
    let head = formed.headscale enabled in
    let derp = head.derp with_derp in
    let url = not_empty c.headscale.server_url head.url in
    let addr = not_empty c.headscale.listen_addr head.addr in
    let stun = not_empty c.headscale.derp_stun_listen_addr derp.stun in
    let region = region_set c.headscale.derp_region_id derp.region in
    let hostname = not_empty c.headscale.derp_hostname derp.hostname in
    (
      rendered_lem p (headscale_options c.headscale)
          (ground (arith, rest.data_dir, rest.grpc, rest.socket, url, addr)) (ground (arith, stun)),
      ground (arith, rest.region_code, rest.region_name, rest.port, region, hostname),
    )
