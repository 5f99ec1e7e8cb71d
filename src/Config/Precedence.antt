-- ===== src/Config/Precedence.antt =====
-- Which source of a setting wins.
use agenthub_server.Base.{Text, str, ◌≡◌, refl, Bool, [], ◌∷◌, arith}
use agenthub_server.Base.Int.{ℤ}
use agenthub_server.Config.{
  Config, Host, DbConfig, SmtpConfig, OauthProviderConfig, HeadscaleConfig,
}
use agenthub_server.Config.Load.{
  or_old, number_or_old, flag_or_old, secret_or_old, driver_for_url, apply_env, apply_env_db,
  apply_env_smtp, apply_env_google, apply_env_github, apply_env_headscale, default, load, loaded,
  derive,
}

or_old_twice : (v old : Text) → or_old v (or_old v old) ≡ or_old v old
or_old_twice [] old = refl
or_old_twice (c ∷ v) old = refl

number_twice : (v : Text) (old : ℤ) → number_or_old v (number_or_old v old) ≡ number_or_old v old
number_twice [] old = refl
number_twice (c ∷ v) old = ground arith

flag_twice : (v : Text) (old : Bool) → flag_or_old v (flag_or_old v old) ≡ flag_or_old v old
flag_twice [] old = refl
flag_twice (c ∷ v) old = refl

-- A setting, and one that the value of a variable named in the configuration overrides.
secret_twice :
    (h : Host) (name v old : Text)
    → secret_or_old h name (or_old v (secret_or_old h name (or_old v old)))
      ≡ secret_or_old h name (or_old v old)
secret_twice h name [] old = inner name
  where
    inner : (n : Text) → secret_or_old h n (secret_or_old h n old) ≡ secret_or_old h n old
    inner [] = refl
    inner (c ∷ n) = or_old_twice (h.getenv (c ∷ n)) old
secret_twice h name (c ∷ v) old = refl

driver_twice :
    (d url old : Text)
    → driver_for_url url (or_old d (driver_for_url url (or_old d old)))
      ≡ driver_for_url url (or_old d old)
driver_twice (c ∷ d) [] old = refl
driver_twice (c ∷ d) (u ∷ url) old = refl
driver_twice [] [] old = refl
driver_twice [] (u ∷ url) [] = refl
driver_twice [] (u ∷ url) (o ∷ old) = refl

db_twice : (h : Host) (c : DbConfig) → apply_env_db h (apply_env_db h c) ≡ apply_env_db h c
unfolding apply_env_db
db_twice h c = cc (
  driver_twice (h.getenv (str "AGENTHUB_DB_DRIVER")) (h.getenv (str "AGENTHUB_DB_URL")) c.driver,
  or_old_twice (h.getenv (str "AGENTHUB_DB_URL")) c.url,
)

smtp_twice :
    (h : Host) (c : SmtpConfig) → apply_env_smtp h (apply_env_smtp h c) ≡ apply_env_smtp h c
unfolding apply_env_smtp
smtp_twice h c = simp (or_old_twice, number_twice, secret_twice)

google_twice :
    (h : Host) (c : OauthProviderConfig)
    → apply_env_google h (apply_env_google h c) ≡ apply_env_google h c
unfolding apply_env_google
google_twice h c = simp (or_old_twice, secret_twice)

github_twice :
    (h : Host) (c : OauthProviderConfig)
    → apply_env_github h (apply_env_github h c) ≡ apply_env_github h c
unfolding apply_env_github
github_twice h c = simp (or_old_twice, secret_twice)

headscale_twice :
    (h : Host) (c : HeadscaleConfig)
    → apply_env_headscale h (apply_env_headscale h c) ≡ apply_env_headscale h c
unfolding apply_env_headscale
headscale_twice h c = simp (or_old_twice, number_twice, flag_twice)

-- Applying the environment a second time changes nothing: no variable's effect depends on the
-- value that it, or a later one, has left, secrets named by other settings and the driver that
-- AGENTHUB_DB_URL chooses included.
pub apply_env_idempotent : (h : Host) (c : Config) → apply_env h (apply_env h c) ≡ apply_env h c
unfolding apply_env
apply_env_idempotent h c =
    simp (
      or_old_twice, number_twice, db_twice, smtp_twice, google_twice, github_twice, headscale_twice,
    )

driver_kept : (url : Text) → driver_for_url url (str "sqlite") ≡ str "sqlite"
driver_kept [] = refl
driver_kept (c ∷ url) = refl

or_old_nil : (v : Text) → or_old v [] ≡ v
or_old_nil [] = refl
or_old_nil (c ∷ v) = refl

-- Without a configuration file and without AGENTHUB_DB_DRIVER, Load keeps the driver sqlite
-- whatever AGENTHUB_DB_URL says: the default has already set a driver, so the URL never chooses
-- postgres.
pub db_url_ignored :
    (h : Host)
    → h.getenv (str "AGENTHUB_DB_DRIVER") ≡ []
    → (c : Config) × (load h [] ≡ loaded c)
      × (c.db.driver ≡ str "sqlite")
      × (c.db.url ≡ h.getenv (str "AGENTHUB_DB_URL"))
unfolding load derive apply_env apply_env_db default
db_url_ignored h unset = (
  derive h (apply_env h (default h)),
  refl,
  rw unset (driver_kept (h.getenv (str "AGENTHUB_DB_URL"))),
  or_old_nil (h.getenv (str "AGENTHUB_DB_URL")),
)
