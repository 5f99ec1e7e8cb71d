-- ===== src/Api/Oauth/Callback.antt =====
-- A callback that lets somebody in has used up a pending sign-in.
use agenthub_server.Base.{Text, ◌*◌, ◌≤◌, ◌≡◌, ap, subst, none, some, [], ◌∷◌, ◌++◌, arith, ◌∙◌}
use agenthub_server.Schema.{Provider, Database}
use agenthub_server.World.{World, Env, world_of, second, in_tx, ok}
use agenthub_server.Auth.Sessions.{session_row}
use agenthub_server.Auth.Service.{Config}
use agenthub_server.Auth.OauthState.{OauthState, consume_state_statements, consume_oauth_state}
use agenthub_server.Auth.OauthState.Pending.{Pending, view, put, Allows, taken_event, event, after}
use agenthub_server.Auth.OauthState.Refines.{consume-Allows, same_view}
use agenthub_server.Auth.Oauth.{
  OauthServiceConfig, FinishLoginOutput, UserInfo, Upserted, oauth_session, finish_login,
}
use agenthub_server.Auth.Oauth.Upsert.{Upserts, known, linked, new_tenant}
use agenthub_server.Auth.Oauth.Login.{Vouches, finish_login_sound}
use agenthub_server.Api.{write_json}
use agenthub_server.Api.Oauth.{CallbackInput, finish_input, finish_callback, oauth_callback_handler}

sent_lem :
    (env : Env) (cfg : Config) (o : OauthServiceConfig) (i : CallbackInput) (w : World)
    {out : FinishLoginOutput}
    → (oauth_callback_handler env cfg o i w).reply ≡ write_json 200 out
    → (s : OauthState) × (v : World) × (v' : World) × (consume_oauth_state i.state w ≡ ok s v)
      × (finish_login env cfg o (finish_input i) v ≡ ok out v')
      × ((oauth_callback_handler env cfg o i w).world ≡ v')
unfolding oauth_callback_handler finish_callback
sent_lem env cfg o i w h = ground arith

-- Of the OAuth tables, upsertIdentity leaves the states alone.
Upserts-states :
    (env : Env) (p : Provider) (ui : UserInfo) (w : World) (u : Upserted) (d : Database)
    → Upserts env p ui w u d
    → d.oauth_states ≡ w.db.oauth_states
Upserts-states env p ui w u d (known r there user account old same) =
    ap (λ (x : Database). x.oauth_states) same
Upserts-states env p ui w u d (linked r none_such there user account old rows) =
    ap (λ (x : Database). x.oauth_states) rows
Upserts-states env p ui w u d
      (new_tenant none_such no_user (made, new, membership_id, identity_id, rows)) =
    ap (λ (x : Database). x.oauth_states) rows

consumed_others :
    (s : Text) (w : World) {g : OauthState} {v : World}
    → consume_oauth_state s w ≡ ok g v
    → (v.now ≡ w.now) × (v.db ≡ record (w.db) { oauth_states = v.db.oauth_states })
unfolding consume_oauth_state consume_state_statements in_tx
consumed_others s w h = (ground arith, ground arith)

-- The pending sign-in that a consumption takes, as the view shows it before and after.
taken_view :
    (env : Env) (s : Text) (w : World) {g : OauthState} {v : World}
    → consume_oauth_state s w ≡ ok g v
    → (p : Pending) × (view w.db s ≡ some p)
      × (w.now ≤ p.expires_at * second)
      × (view v.db ≡ put (view w.db) s none)
taken_view env s w h =
    let (p, there, e, soon, gone) =
      subst (λ o. Allows w.now (view w.db) (taken_event s o) (view (world_of o).db)) h
        (unfold event after in consume-Allows env s w) in
    (p, there, soon, gone)

-- A callback that answers 200 came with a state that was pending and had not expired, and has taken
-- it out of the pending sign-ins, whatever provider it was created for; the provider of the callback
-- vouched for the code, upsertIdentity returned the user and account of the answer, and besides what
-- that stores exactly one session of them was added.
pub callback_sound :
    (env : Env) (cfg : Config) (o : OauthServiceConfig) (i : CallbackInput) (w : World)
    {out : FinishLoginOutput}
    → (oauth_callback_handler env cfg o i w).reply ≡ write_json 200 out
    → (p : Pending) × (ui : UserInfo) × (u : Upserted) × (v : World) × (d : Database) × (view w.db
          i.state
        ≡ some p)
      × (w.now ≤ p.expires_at * second)
      × (view (oauth_callback_handler env cfg o i w).world.db ≡ put (view w.db) i.state none)
      × (v.db ≡ record (w.db) { oauth_states = v.db.oauth_states })
      × Vouches o w.now i.code ui
      × Upserts env o.provider ui v u d
      × (out.user_id ≡ u.user_id)
      × (out.account_id ≡ u.account_id)
      × ((oauth_callback_handler env cfg o i w).world.db ≡ record d {
        auth_sessions =
            d.auth_sessions
            ++ session_row (oauth_session cfg (finish_input i) out.session_id u) w ∷ [];
      })
callback_sound env cfg o i w {out} h =
    let (s, v, v', consumed, finished, here) = sent_lem env cfg o i w h in
    let (p, there, soon, gone) = taken_view env i.state w consumed in
    let (clock, others) = consumed_others i.state w consumed in
    let (ui, u, d, by_provider, upserted, user, account, email, made, db, token) =
      finish_login_sound env cfg o (finish_input i) v finished in
    let states : v'.db.oauth_states ≡ v.db.oauth_states =
      ap (λ (x : Database). x.oauth_states) db ∙ Upserts-states env o.provider ui v u d upserted in
    (
      p,
      ui,
      u,
      v,
      d,
      there,
      soon,
      rw here (same_view v.db v'.db states ∙ gone),
      others,
      subst (λ now. Vouches o now i.code ui) clock by_provider,
      upserted,
      user,
      account,
      rw here (ground (arith, db, clock)),
    )
