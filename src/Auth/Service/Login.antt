-- ===== src/Auth/Service/Login.antt =====
-- Who is let in by Login, and what a login leaves in the database.
use agenthub_server.Base.{
  Text, ◌==◌, ◌≡◌, refl, subst, true, false, Option, none, some, [], ◌∷◌, ◌++◌, inr, arith, find,
}
use agenthub_server.Schema.{Database, UserRow}
use agenthub_server.Schema.Inserts.{insert_auth_session}
use agenthub_server.Strings.{to_lower}
use agenthub_server.Tenancy.{live_email, coalesce, account_of, get_user_by_email, first_account}
use agenthub_server.World.{Env, World, ok, invalid_credentials, result_of, world_of}
use agenthub_server.Auth.Password.{verify_password}
use agenthub_server.Auth.Sessions.{session_row, create_session}
use agenthub_server.Auth.Jwt.{sign, registered_claims}
use agenthub_server.Auth.Service.{
  Config, LoginInput, LoginOutput, login, login_session, session_claims, is_set, accepted,
}

-- Who may log in: a live user of the lowercased e-mail whose stored hash accepts the password, whose
-- e-mail is verified, and whose first account is the one given.
pub record MayLogin (env : Env) (i : LoginInput) (d : Database) (user_id account_id : Text)
    : Type 0 where
  pub user : UserRow
  pub selected : find (live_email (to_lower env i.email)) d.users ≡ some user
  pub named : user.id ≡ user_id
  pub accepts : verify_password env i.password (coalesce user.password_hash) ≡ some true
  pub verified : is_set user.email_verified_at ≡ true
  pub member : account_of (find (λ m. m.user_id == user_id) d.memberships) ≡ some account_id

login_facts :
    (env : Env) (cfg : Config) (i : LoginInput) (w : World) {out : LoginOutput} {w' : World}
    → login env cfg i w ≡ ok out w'
    → (u : UserRow) × (find (live_email (to_lower env i.email)) w.db.users ≡ some u)
      × (u.id ≡ out.user_id)
      × (verify_password env i.password (coalesce u.password_hash) ≡ some true)
      × (is_set u.email_verified_at ≡ true)
      × (account_of (find (λ m. m.user_id == u.id) w.db.memberships) ≡ some out.account_id)
      × (w'.db ≡ record (w.db) {
        auth_sessions =
            w.db.auth_sessions
            ++ session_row (login_session cfg i out.session_id out.user_id out.account_id) w ∷ [];
      })
      × (out.token
          ≡ env.jwt_sign cfg.signer.key cfg.signer.issuer
              (registered_claims (session_claims cfg out.session_id out.user_id out.account_id) w))
unfolding login create_session sign insert_auth_session get_user_by_email first_account
login_facts env cfg i w h = ground arith

-- If Login succeeds, the caller may log in; the answer names the user and the account, its JWT is
-- signed over the new session's id, the user and the account, and the only change of the database
-- is the one auth_sessions row of that id.
pub login_sound :
    (env : Env) (cfg : Config) (i : LoginInput) (w : World) {out : LoginOutput} {w' : World}
    → login env cfg i w ≡ ok out w'
    → MayLogin env i w.db out.user_id out.account_id
      × (w'.db ≡ record (w.db) {
        auth_sessions =
            w.db.auth_sessions
            ++ session_row (login_session cfg i out.session_id out.user_id out.account_id) w ∷ [];
      })
      × (out.token
          ≡ env.jwt_sign cfg.signer.key cfg.signer.issuer
              (registered_claims (session_claims cfg out.session_id out.user_id out.account_id) w))
login_sound env cfg i w {out} h =
    let (u, selected, named, accepts, verified, member, db, token) = login_facts env cfg i w h in
    (
      record {
        user = u;
        selected = selected;
        named = named;
        accepts = accepts;
        verified = verified;
        member =
            subst
              (λ n. account_of (find (λ m. m.user_id == n) w.db.memberships) ≡ some out.account_id)
              named member;
      },
      db,
      token,
    )

-- A refused login says the same whether the e-mail is unknown, the user has no password, or the
-- password is wrong: ErrInvalidCredentials, with the database as it was.
pub login_uniform :
    (env : Env) (cfg : Config) (i : LoginInput) (w : World)
    → w.faults ≡ []
    → ((u : UserRow)
        → find (live_email (to_lower env i.email)) w.db.users ≡ some u
        → accepted (verify_password env i.password (coalesce u.password_hash)) ≡ false)
    → (result_of (login env cfg i w) ≡ inr invalid_credentials)
      × ((world_of (login env cfg i w)).db ≡ w.db)
unfolding login get_user_by_email
login_uniform env cfg i w calm wrong =
    by_row (find (live_email (to_lower env i.email)) w.db.users) refl
  where
    by_row :
        (o : Option UserRow)
        → find (live_email (to_lower env i.email)) w.db.users ≡ o
        → (result_of (login env cfg i w) ≡ inr invalid_credentials)
          × ((world_of (login env cfg i w)).db ≡ w.db)
    by_row none e = (ground arith, ground arith)
    by_row (some u) e = (ground (arith, wrong u e), ground (arith, wrong u e))
