-- ===== src/Config/Validity.antt =====
-- Validate accepts exactly the well-formed configurations.
use agenthub_server.Base.{
  str, ==_iff, ◌≡◌, ◌≢◌, ◌↔◌, ℕ, ◌≤◌, refl, true, false, List, [], ◌∷◌, ◌++◌, ◌⊎◌, inl, inr, arith,
  Bool-cases,
}
use agenthub_server.Base.Int.{ℤ, pos, negsuc}
use agenthub_server.Config.{Config, Host, HeadscaleConfig, missing, directory}
use agenthub_server.Config.Validate.{
  validate, Problem, check_mode, check_driver, check_hosted, check_tls, check_port, check_http_port,
  check_data_dir, check_headscale, check_derp, stat_errs,
}

-- A port that can be listened on.
abbrev pub InPorts : ℕ → ℤ → Type 0
InPorts low (pos n) = (low ≤ n) × (n ≤ 65535)
InPorts low (negsuc n) = ⊥

pub record DerpFormed (c : HeadscaleConfig) : Type 0 where
  pub stun : c.derp_stun_listen_addr ≢ []
  pub region : c.derp_region_id ≢ pos 0
  pub hostname : c.derp_hostname ≢ []

pub record HeadscaleFormed (h : Host) (c : HeadscaleConfig) : Type 0 where
  pub binary : c.binary_path ≢ []
  pub binary_there : stat_errs (h.stat c.binary_path) ≡ false
  pub url : c.server_url ≢ []
  pub addr : c.listen_addr ≢ []
  pub derp : c.derp_enabled ≡ true → DerpFormed c

-- What a configuration needs, said without the order of the checks.
pub record IsFormed (h : Host) (c : Config) : Type 0 where
  pub mode : (c.mode ≡ str "solo") ⊎ ((c.mode ≡ str "hosted") × (c.db.url ≢ []))
  pub driver : (c.db.driver ≡ str "sqlite") ⊎ ((c.db.driver ≡ str "postgres") × (c.db.url ≢ []))
  pub tls :
      (c.tls.mode ≡ str "off")
      ⊎ (((c.tls.mode ≡ str "auto") × (c.tls.email ≢ []))
          ⊎ ((c.tls.mode ≡ str "file") × (c.tls.cert_file ≢ []) × (c.tls.key_file ≢ [])))
  pub port : InPorts 1 c.http.port
  pub http_port : InPorts 0 c.http.http_port
  pub data_dir :
      (c.data_dir ≡ []) ⊎ ((h.stat c.data_dir ≡ missing) ⊎ (h.stat c.data_dir ≡ directory))
  pub headscale : c.headscale.enabled ≡ true → HeadscaleFormed h c.headscale

nothing_appended : (xs ys : List Problem) → (xs ++ ys ≡ []) ↔ ((xs ≡ []) × (ys ≡ []))
nothing_appended [] ys = (λ e. (refl, e), λ e. e.1)
nothing_appended (x ∷ xs) ys = (λ e. ground arith, λ e. ground arith)

mode_formed :
    (c : Config)
    → ((check_mode c ≡ []) × (check_hosted c ≡ []))
      ↔ ((c.mode ≡ str "solo") ⊎ ((c.mode ≡ str "hosted") × (c.db.url ≢ [])))
mode_formed c = (
  λ e. ground (arith, ==_iff c.mode (str "solo"), ==_iff c.mode (str "hosted")),
  λ e. ground (arith, ==_iff c.mode (str "solo"), ==_iff c.mode (str "hosted")),
)

driver_formed :
    (c : Config)
    → (check_driver c ≡ [])
      ↔ ((c.db.driver ≡ str "sqlite") ⊎ ((c.db.driver ≡ str "postgres") × (c.db.url ≢ [])))
driver_formed c = (
  λ e. ground (arith, ==_iff c.db.driver (str "sqlite"), ==_iff c.db.driver (str "postgres")),
  λ e. ground (arith, ==_iff c.db.driver (str "sqlite"), ==_iff c.db.driver (str "postgres")),
)

tls_formed :
    (c : Config)
    → (check_tls c ≡ []) ↔ (
        (c.tls.mode ≡ str "off")
        ⊎ (((c.tls.mode ≡ str "auto") × (c.tls.email ≢ []))
            ⊎ ((c.tls.mode ≡ str "file") × (c.tls.cert_file ≢ []) × (c.tls.key_file ≢ []))))
tls_formed c = (
  λ e. ground (
    arith,
    ==_iff c.tls.mode (str "off"),
    ==_iff c.tls.mode (str "auto"),
    ==_iff c.tls.mode (str "file"),
  ),
  λ e. ground (
    arith,
    ==_iff c.tls.mode (str "off"),
    ==_iff c.tls.mode (str "auto"),
    ==_iff c.tls.mode (str "file"),
  ),
)

port_formed : (c : Config) → (check_port c ≡ []) ↔ InPorts 1 c.http.port
port_formed c = (λ e. ground arith, λ e. ground arith)

http_port_formed : (c : Config) → (check_http_port c ≡ []) ↔ InPorts 0 c.http.http_port
http_port_formed c = (λ e. ground arith, λ e. ground arith)

data_dir_formed :
    (h : Host) (c : Config)
    → (check_data_dir h c ≡ [])
      ↔ ((c.data_dir ≡ []) ⊎ ((h.stat c.data_dir ≡ missing) ⊎ (h.stat c.data_dir ≡ directory)))
data_dir_formed h c = (λ e. ground arith, λ e. ground arith)

derp_formed : (c : HeadscaleConfig) → (check_derp c ≡ []) ↔ DerpFormed c
derp_formed c = (λ e. ground arith, λ e. ground (arith, e.stun, e.region, e.hostname))

headscale_formed :
    (h : Host) (c : HeadscaleConfig)
    → (check_headscale h c ≡ []) ↔ (c.enabled ≡ true → HeadscaleFormed h c)
headscale_formed h c = (λ e on. to_formed e on, from_formed)
  where
    to_formed : check_headscale h c ≡ [] → c.enabled ≡ true → HeadscaleFormed h c
    to_formed e on = record {
      binary = ground arith;
      binary_there = ground arith;
      url = ground arith;
      addr = ground arith;
      derp = λ derp. (derp_formed c).0 (ground arith);
    }

    from_formed : (c.enabled ≡ true → HeadscaleFormed h c) → check_headscale h c ≡ []
    from_formed f = elim (Bool-cases c.enabled) [
      | inr off ↦ ground arith
      | inl on ↦ elim (Bool-cases c.derp_enabled) [
        | inr no_derp ↦ ground (arith, (f on).binary, (f on).binary_there, (f on).url, (f on).addr)
        | inl derp ↦ ground (
          arith,
          (f on).binary,
          (f on).binary_there,
          (f on).url,
          (f on).addr,
          (derp_formed c).1 ((f on).derp derp),
        )
      ]
    ]

-- Validate returns nil exactly for the well-formed configurations: those with a known mode, driver
-- and TLS mode, the settings that these need, ports in range, a data directory that is absent or
-- can be one, and, where Headscale is enabled, its binary there and its settings and those of DERP.
pub validate-IsFormed : (h : Host) (c : Config) → (validate h c ≡ []) ↔ IsFormed h c
unfolding validate
validate-IsFormed h c = (to_formed, from_formed)
  where
    parts : List Problem
    parts = check_data_dir h c ++ check_headscale h c.headscale

    to_formed : validate h c ≡ [] → IsFormed h c
    to_formed e =
        let (mode, e₁) = (nothing_appended (check_mode c) _).0 e in
        let (driver, e₂) = (nothing_appended (check_driver c) _).0 e₁ in
        let (hosted, e₃) = (nothing_appended (check_hosted c) _).0 e₂ in
        let (tls, e₄) = (nothing_appended (check_tls c) _).0 e₃ in
        let (port, e₅) = (nothing_appended (check_port c) _).0 e₄ in
        let (http_port, e₆) = (nothing_appended (check_http_port c) _).0 e₅ in
        let (data_dir, headscale) = (nothing_appended (check_data_dir h c) _).0 e₆ in
        record {
          mode = (mode_formed c).0 (mode, hosted);
          driver = (driver_formed c).0 driver;
          tls = (tls_formed c).0 tls;
          port = (port_formed c).0 port;
          http_port = (http_port_formed c).0 http_port;
          data_dir = (data_dir_formed h c).0 data_dir;
          headscale = (headscale_formed h c.headscale).0 headscale;
        }

    from_formed : IsFormed h c → validate h c ≡ []
    from_formed f =
        let (mode, hosted) = (mode_formed c).1 f.mode in
        simp (
          mode,
          hosted,
          (driver_formed c).1 f.driver,
          (tls_formed c).1 f.tls,
          (port_formed c).1 f.port,
          (http_port_formed c).1 f.http_port,
          (data_dir_formed h c).1 f.data_dir,
          (headscale_formed h c.headscale).1 f.headscale,
        )
