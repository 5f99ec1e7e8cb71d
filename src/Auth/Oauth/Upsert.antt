-- ===== src/Auth/Oauth/Upsert.antt =====
-- Whom upsertIdentity returns, and what it stores.
use agenthub_server.Base.{
  Text, ◌==◌, suc, ◌≡◌, refl, true, false, Option, none, some, [], ◌∷◌, ◌++◌, ◌⊎◌, inl, inr, arith,
  find,
}
use agenthub_server.Schema.{Provider, UserRow, OauthIdentityRow, Database}
use agenthub_server.Schema.Inserts.{
  user_clash, insert_user, insert_account, insert_membership, insert_oauth_identity,
}
use agenthub_server.Strings.{to_lower}
use agenthub_server.Tenancy.{live_email, get_user_by_email, account_of, first_account}
use agenthub_server.World.{Err, World, Env, pure, spend, in_tx, ok, err}
use agenthub_server.World.Laws.{in_tx-ok, bind-ok}
use agenthub_server.Auth.Oauth.{
  UserInfo, Upserted, identity_of, identity_row, add_identity, existing_identity, link_identity,
  oauth_user_row, oauth_account_row, owner_row, create_identity_statements, create_identity,
  upsert_by_email, upsert_identity,
}

known_lem :
    (env : Env) (p : Provider) (ui : UserInfo) (w : World) (r : OauthIdentityRow) {u : Upserted}
    {v : World}
    → find (identity_of p ui.provider_user_id) w.db.oauth_identities ≡ some r
    → upsert_identity env p ui w ≡ ok u v
    → (u.user_id ≡ r.user_id)
      × (account_of (find (λ m. m.user_id == r.user_id) w.db.memberships) ≡ some u.account_id)
      × (u.created ≡ false)
      × (v.db ≡ w.db)
unfolding upsert_identity existing_identity first_account
known_lem env p ui w r there h = ground (arith, there)

linked_lem :
    (env : Env) (p : Provider) (ui : UserInfo) (w : World) (r : UserRow) {u : Upserted} {v : World}
    → find (identity_of p ui.provider_user_id) w.db.oauth_identities ≡ none
    → find (live_email (to_lower env ui.email)) w.db.users ≡ some r
    → upsert_identity env p ui w ≡ ok u v
    → (u.user_id ≡ r.id)
      × (account_of (find (λ m. m.user_id == r.id) w.db.memberships) ≡ some u.account_id)
      × (u.created ≡ false)
      × (v.db ≡ record (w.db) {
        oauth_identities =
            w.db.oauth_identities ++ identity_row env (env.new_id w.fresh) r.id p ui w ∷ [];
      })
unfolding upsert_identity upsert_by_email link_identity get_user_by_email first_account add_identity
    insert_oauth_identity
linked_lem env p ui w r new there h = ground (arith, new, there)

-- The rows of a new tenant
abbrev pub with_tenant : Env → Provider → UserInfo → Text → Text → Text → Text → World → Database
with_tenant env p ui user_id account_id membership_id identity_id w = record (w.db) {
  users = w.db.users ++ oauth_user_row env user_id ui w ∷ [];
  accounts = w.db.accounts ++ oauth_account_row env account_id ui w ∷ [];
  memberships = w.db.memberships ++ owner_row membership_id account_id user_id w ∷ [];
  oauth_identities = w.db.oauth_identities ++ identity_row env identity_id user_id p ui w ∷ [];
}

statements_lem :
    (env : Env) (p : Provider) (ui : UserInfo) (user_id account_id membership_id identity_id : Text)
    (w : World) {v : World}
    → create_identity_statements env p ui user_id account_id membership_id identity_id w ≡ ok tt v
    → (v.db ≡ with_tenant env p ui user_id account_id membership_id identity_id w)
      × (user_clash w.db (oauth_user_row env user_id ui w) ≡ false)
unfolding create_identity_statements add_identity insert_user insert_account insert_membership
    insert_oauth_identity
statements_lem env p ui user_id account_id membership_id identity_id w h = ground arith

-- What a new tenant's login says and stores
abbrev pub IsNewTenant : Env → Provider → UserInfo → World → Upserted → Database → Type 0
IsNewTenant env p ui w u d =
    (u.created ≡ true)
    × (user_clash w.db (oauth_user_row env u.user_id ui w) ≡ false)
    × (membership_id : Text) × (identity_id : Text) × (d
        ≡ with_tenant env p ui u.user_id u.account_id membership_id identity_id w)

create_lem :
    (env : Env) (p : Provider) (ui : UserInfo) (w : World) {u : Upserted} {v : World}
    → create_identity env p ui w ≡ ok u v
    → IsNewTenant env p ui w u v.db
unfolding create_identity
create_lem env p ui w h =
    let a = env.new_id w.fresh in
    let b = env.new_id (suc w.fresh) in
    let c = env.new_id (suc (suc w.fresh)) in
    let d = env.new_id (suc (suc (suc w.fresh))) in
    let drawn : World = record w { fresh = suc (suc (suc (suc w.fresh))) } in
    let (t, v, tx, done) =
      bind-ok (in_tx (create_identity_statements env p ui a b c d))
        (λ t. pure (record { user_id = a; account_id = b; created = true })) drawn h in
    let (s, body, spent) = in_tx-ok (create_identity_statements env p ui a b c d) drawn tx in
    let (rows, new) = statements_lem env p ui a b c d (spend drawn) body in
    (ground arith, ground arith, c, d, ground arith)

-- Where neither the identity nor the e-mail is known, the call goes on to the transaction.
new_lem :
    (env : Env) (p : Provider) (ui : UserInfo) (w : World) {u : Upserted} {v : World}
    → find (identity_of p ui.provider_user_id) w.db.oauth_identities ≡ none
    → find (live_email (to_lower env ui.email)) w.db.users ≡ none
    → upsert_identity env p ui w ≡ ok u v
    → create_identity env p ui (spend (spend w)) ≡ ok u v
unfolding upsert_identity upsert_by_email get_user_by_email
new_lem env p ui w no_identity no_user h = ground (arith, no_identity, no_user)

-- Who is returned, and what is stored: a user whom the identity already names, a live user of the
-- same e-mail who gets the identity, or a new user with a new account.
pub data Upserts (env : Env) (p : Provider) (ui : UserInfo) (w : World) (u : Upserted)
    (d : Database) : Type 0 where
  known :
      (r : OauthIdentityRow)
      → find (identity_of p ui.provider_user_id) w.db.oauth_identities ≡ some r
      → u.user_id ≡ r.user_id
      → account_of (find (λ m. m.user_id == r.user_id) w.db.memberships) ≡ some u.account_id
      → u.created ≡ false
      → d ≡ w.db
      → Upserts env p ui w u d
  linked :
      (r : UserRow)
      → find (identity_of p ui.provider_user_id) w.db.oauth_identities ≡ none
      → find (live_email (to_lower env ui.email)) w.db.users ≡ some r
      → u.user_id ≡ r.id
      → account_of (find (λ m. m.user_id == r.id) w.db.memberships) ≡ some u.account_id
      → u.created ≡ false
      → d ≡ record (w.db) {
        oauth_identities =
            w.db.oauth_identities ++ identity_row env (env.new_id w.fresh) r.id p ui w ∷ [];
      }
      → Upserts env p ui w u d
  new_tenant :
      find (identity_of p ui.provider_user_id) w.db.oauth_identities ≡ none
      → find (live_email (to_lower env ui.email)) w.db.users ≡ none
      → IsNewTenant env p ui w u d
      → Upserts env p ui w u d

-- upsertIdentity, where it succeeds, either returns the user whom the provider's identity already
-- names and stores nothing; or, for an unknown identity whose lowercased e-mail is a live user's,
-- returns that user and stores the identity alone; or, where no live user has the e-mail, commits a
-- verified user with that e-mail, an account, the owner membership that joins them and the identity.
-- The account is the user's first one, or the new one.
pub upsert_sound :
    (env : Env) (p : Provider) (ui : UserInfo) (w : World) {u : Upserted} {v : World}
    → upsert_identity env p ui w ≡ ok u v
    → Upserts env p ui w u v.db
upsert_sound env p ui w {u} {v} h =
    by_identity (find (identity_of p ui.provider_user_id) w.db.oauth_identities) refl
  where
    by_user :
        (o : Option UserRow)
        → find (identity_of p ui.provider_user_id) w.db.oauth_identities ≡ none
        → find (live_email (to_lower env ui.email)) w.db.users ≡ o
        → Upserts env p ui w u v.db
    by_user none no_identity no_user =
        new_tenant no_identity no_user
          (create_lem env p ui (spend (spend w)) (new_lem env p ui w no_identity no_user h))
    by_user (some r) no_identity there =
        let (user, account, old, rows) = linked_lem env p ui w r no_identity there h in
        linked r no_identity there user account old rows

    by_identity :
        (o : Option OauthIdentityRow)
        → find (identity_of p ui.provider_user_id) w.db.oauth_identities ≡ o
        → Upserts env p ui w u v.db
    by_identity none e = by_user (find (live_email (to_lower env ui.email)) w.db.users) e refl
    by_identity (some r) e =
        let (user, account, old, same) = known_lem env p ui w r e h in
        known r e user account old same

-- The identity is stored for the live user of the e-mail, and nothing else.
abbrev pub Links : Env → Provider → UserInfo → World → Database → Type 0
Links env p ui w d =
    (r : UserRow) × (find (live_email (to_lower env ui.email)) w.db.users ≡ some r)
    × (d ≡ record (w.db) {
      oauth_identities =
          w.db.oauth_identities ++ identity_row env (env.new_id w.fresh) r.id p ui w ∷ [];
    })

-- A failed call stores nothing, or, where it found the user by e-mail, the link alone.
pub upsert-err-db :
    (env : Env) (p : Provider) (ui : UserInfo) (w : World) {e : Err} {v : World}
    → upsert_identity env p ui w ≡ err e v
    → (v.db ≡ w.db) ⊎ Links env p ui w v.db
unfolding upsert_identity upsert_by_email existing_identity link_identity create_identity
    get_user_by_email first_account add_identity insert_oauth_identity in_tx
upsert-err-db env p ui w {e} {v} h =
    by_user (find (live_email (to_lower env ui.email)) w.db.users) refl
  where
    by_user :
        (o : Option UserRow)
        → find (live_email (to_lower env ui.email)) w.db.users ≡ o
        → (v.db ≡ w.db) ⊎ Links env p ui w v.db
    by_user none no_user = inl (ground arith)
    by_user (some r) there = either_way (ground arith)
      where
        either_way :
            (v.db ≡ w.db)
              ⊎ (v.db ≡ record (w.db) {
                oauth_identities =
                    w.db.oauth_identities ++ identity_row env (env.new_id w.fresh) r.id p ui w ∷ [];
              })
            → (v.db ≡ w.db) ⊎ Links env p ui w v.db
        either_way (inl same) = inl same
        either_way (inr rows) = inr (r, there, rows)
