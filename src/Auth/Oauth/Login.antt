-- ===== src/Auth/Oauth/Login.antt =====
-- What FinishLogin has asked of the provider, and what it leaves.
use agenthub_server.Base.{
  Text, is_empty, ℕ, ◌<◌, ◌≡◌, subst, false, some, [], ◌∷◌, ◌++◌, arith, ◌∙◌,
}
use agenthub_server.Schema.{Provider, Database}
use agenthub_server.Schema.Inserts.{insert_auth_session}
use agenthub_server.Tenancy.{get_user_by_email, first_account}
use agenthub_server.World.{World, Env, in_tx, ok}
use agenthub_server.Auth.Sessions.{session_row, create_session}
use agenthub_server.Auth.Jwt.{registered_claims, sign}
use agenthub_server.Auth.Service.{Config, session_claims}
use agenthub_server.Auth.Oauth.{
  JsonObject, Response, OauthServiceConfig, FinishLoginInput, FinishLoginOutput, UserInfo,
  parse_user_info, fetch_user_info, Upserted, add_identity, existing_identity, link_identity,
  create_identity_statements, create_identity, upsert_by_email, upsert_identity, oauth_session,
  finish_session, vouched, finish_login,
}
use agenthub_server.Auth.Oauth.Upsert.{Upserts, upsert_sound}

-- The provider exchanged the code and answered the GET of the userinfo URL with a status below 400
-- and an object, whose parts are `ui`; e-mail and subject are not empty.
pub record Vouches (o : OauthServiceConfig) (now : ℕ) (code : Text) (ui : UserInfo) : Type 0 where
  pub access_token : Text
  pub response : Response
  pub raw : JsonObject
  pub exchanged : o.exchange now code ≡ some access_token
  pub answered : o.get now o.user_info_url access_token ≡ some response
  pub status : response.status < 400
  pub decoded : response.body ≡ some raw
  pub parsed : ui ≡ parse_user_info o.provider raw
  pub has_email : is_empty ui.email ≡ false
  pub has_subject : is_empty ui.provider_user_id ≡ false

fetch_lem :
    (o : OauthServiceConfig) (token : Text) (w : World) {ui : UserInfo} {v : World}
    → fetch_user_info o token w ≡ ok ui v
    → (response : Response) × (raw : JsonObject) × (o.get w.now o.user_info_url token
        ≡ some response)
      × (response.status < 400)
      × (response.body ≡ some raw)
      × (ui ≡ parse_user_info o.provider raw)
      × (v ≡ w)
unfolding fetch_user_info
fetch_lem o token w h = ground arith

vouched_facts :
    (o : OauthServiceConfig) (code : Text) (w : World) {ui : UserInfo} {v : World}
    → vouched o code w ≡ ok ui v
    → (token : Text) × (u : World) × (o.exchange w.now code ≡ some token)
      × (fetch_user_info o token w ≡ ok ui u)
      × (is_empty ui.email ≡ false)
      × (is_empty ui.provider_user_id ≡ false)
      × (v ≡ u)
unfolding vouched
vouched_facts o code w h = ground arith

vouched_lem :
    (o : OauthServiceConfig) (code : Text) (w : World) {ui : UserInfo} {v : World}
    → vouched o code w ≡ ok ui v
    → Vouches o w.now code ui × (v ≡ w)
vouched_lem o code w h =
    let (token, u, exchanged, fetched, has_email, has_subject, same) = vouched_facts o code w h in
    let (response, raw, answered, status, decoded, parsed, here) = fetch_lem o token w fetched in
    (
      record {
        access_token = token;
        response = response;
        raw = raw;
        exchanged = exchanged;
        answered = answered;
        status = status;
        decoded = decoded;
        parsed = parsed;
        has_email = has_email;
        has_subject = has_subject;
      },
      same ∙ here,
    )

session_lem :
    (env : Env) (cfg : Config) (i : FinishLoginInput) (ui : UserInfo) (u : Upserted) (w : World)
    {out : FinishLoginOutput} {v : World}
    → finish_session env cfg i ui u w ≡ ok out v
    → (out.user_id ≡ u.user_id)
      × (out.account_id ≡ u.account_id)
      × (out.email ≡ ui.email)
      × (out.created ≡ u.created)
      × (v.db ≡ record (w.db) {
        auth_sessions =
            w.db.auth_sessions ++ session_row (oauth_session cfg i out.session_id u) w ∷ [];
      })
      × (out.token
          ≡ env.jwt_sign cfg.signer.key cfg.signer.issuer
              (registered_claims (session_claims cfg out.session_id out.user_id out.account_id) w))
unfolding finish_session create_session sign insert_auth_session
session_lem env cfg i ui u w h = ground arith

upsert-now :
    (env : Env) (p : Provider) (ui : UserInfo) (w : World) {u : Upserted} {v : World}
    → upsert_identity env p ui w ≡ ok u v
    → v.now ≡ w.now
unfolding upsert_identity existing_identity upsert_by_email link_identity create_identity
    create_identity_statements add_identity get_user_by_email first_account in_tx
upsert-now env p ui w h = ground arith

login_facts :
    (env : Env) (cfg : Config) (o : OauthServiceConfig) (i : FinishLoginInput) (w : World)
    {out : FinishLoginOutput} {w' : World}
    → finish_login env cfg o i w ≡ ok out w'
    → (ui : UserInfo) × (v : World) × (u : Upserted) × (w₂ : World) × (vouched o i.code w ≡ ok ui v)
      × (upsert_identity env o.provider ui v ≡ ok u w₂)
      × (finish_session env cfg i ui u w₂ ≡ ok out w')
unfolding finish_login
login_facts env cfg o i w h = ground arith

-- A FinishLogin that succeeds was vouched for by the provider: it exchanged the code and answered
-- with a status below 400 and an e-mail and subject that are not empty. The user and account in the
-- answer are those that upsertIdentity returns for them, and besides what that stores, exactly one
-- session row of that user and account is added, over whose id the JWT of the answer is signed.
pub finish_login_sound :
    (env : Env) (cfg : Config) (o : OauthServiceConfig) (i : FinishLoginInput) (w : World)
    {out : FinishLoginOutput} {w' : World}
    → finish_login env cfg o i w ≡ ok out w'
    → (ui : UserInfo) × (u : Upserted) × (d : Database) × Vouches o w.now i.code ui
      × Upserts env o.provider ui w u d
      × (out.user_id ≡ u.user_id)
      × (out.account_id ≡ u.account_id)
      × (out.email ≡ ui.email)
      × (out.created ≡ u.created)
      × (w'.db ≡ record d {
        auth_sessions =
            d.auth_sessions ++ session_row (oauth_session cfg i out.session_id u) w ∷ [];
      })
      × (out.token
          ≡ env.jwt_sign cfg.signer.key cfg.signer.issuer
              (registered_claims (session_claims cfg out.session_id out.user_id out.account_id) w))
finish_login_sound env cfg o i w {out} h =
    let (ui, v, u, w₂, asked, upserted, rest) = login_facts env cfg o i w h in
    let (by_provider, same) = vouched_lem o i.code w asked in
    let here = subst (λ (x : World). upsert_identity env o.provider ui x ≡ ok u w₂) same upserted in
    let (user, account, email, created, db, token) = session_lem env cfg i ui u w₂ rest in
    let clock = upsert-now env o.provider ui w here in
    (
      ui,
      u,
      w₂.db,
      by_provider,
      upsert_sound env o.provider ui w here,
      user,
      account,
      email,
      created,
      ground (arith, db, clock),
      ground (arith, token, clock),
    )
