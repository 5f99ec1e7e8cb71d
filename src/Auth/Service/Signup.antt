-- ===== src/Auth/Service/Signup.antt =====
-- Signup commits a user, an account and the membership that joins them, or nothing.
use agenthub_server.Base.{
  Text, ◌≡◌, refl, subst, suc, not, ◌||◌, is_empty, Bool-cases, false, none, List, [], ◌∷◌, ◌++◌,
  ◌⊎◌, inl, inr, arith,
}
use agenthub_server.Schema.{
  Database, UserRow, AccountRow, MembershipRow, VerificationTokenRow, owner,
}
use agenthub_server.Schema.Inserts.{
  insert_user, insert_account, insert_membership, insert_verification_token, user_clash,
}
use agenthub_server.Strings.{to_lower}
use agenthub_server.Tenancy.{User, Account, Membership, user_row, account_row, membership_row}
use agenthub_server.World.{
  Env, World, Outcome, ok, err, Err, world_of, in_tx, spend, pure, send, ◌>>◌,
}
use agenthub_server.World.Laws.{in_tx-ok, in_tx-err-db}
use agenthub_server.Auth.Password.{hash_password}
use agenthub_server.Auth.Tokens.{VerificationTokenInput, create_verification_token}
use agenthub_server.Auth.Slug.{slugify}
use agenthub_server.Auth.Service.{
  Config, SignupInput, SignupOutput, Registered, register, register_with, verify_mail, verify_input,
  signup_statements, signup, new_user, new_account, owner_membership, verify_mail, verify_input,
}

pub hashed-db :
    (env : Env) (pw : Text) (w : World) {hash : Text} {v : World}
    → hash_password env pw w ≡ ok hash v
    → v.db ≡ w.db
unfolding hash_password
hashed-db env pw w h = ground arith

pub unhashed-db :
    (env : Env) (pw : Text) (w : World) {e : Err} {v : World}
    → hash_password env pw w ≡ err e v
    → v.db ≡ w.db
unfolding hash_password
unhashed-db env pw w h = ground arith

pub hash_password-db :
    (env : Env) (pw : Text) (w : World) → (world_of (hash_password env pw w)).db ≡ w.db
unfolding hash_password
hash_password-db env pw w = ground arith

-- Creating a verification token touches no other table.
pub create_token-db :
    (env : Env) (i : VerificationTokenInput) (w : World)
    → (rows : List VerificationTokenRow) × ((world_of (create_verification_token env i w)).db
        ≡ record (w.db) { verification_tokens = rows })
create_token-db env i w =
    ((world_of (create_verification_token env i w)).db.verification_tokens, others)
  where
    others : (world_of (create_verification_token env i w)).db ≡ record (w.db) {
      verification_tokens = (world_of (create_verification_token env i w)).db.verification_tokens;
    }
    others = unfold create_verification_token insert_verification_token in ground arith

statements_lem :
    (env : Env) (u : User) (a : Account) (m : Membership) (w : World) {w' : World}
    → signup_statements env u a m w ≡ ok tt w'
    → (w'.db ≡ record (w.db) {
      users = w.db.users ++ user_row env u w ∷ [];
      accounts = w.db.accounts ++ account_row a w ∷ [];
      memberships = w.db.memberships ++ membership_row m w ∷ [];
    })
      × (user_clash w.db (user_row env u w) ≡ false)
unfolding signup_statements insert_user insert_account insert_membership
statements_lem env u a m w h = ground arith

-- The rows of a new tenant: a user who has not verified the e-mail, an account with the slug of its
-- name, and the owner's membership that joins them.
pub record Tenant (env : Env) (i : SignupInput) (user_id account_id : Text) (d d' : Database)
    : Type 0 where
  pub user : UserRow
  pub account : AccountRow
  pub membership : MembershipRow
  pub users_grow : d'.users ≡ d.users ++ user ∷ []
  pub accounts_grow : d'.accounts ≡ d.accounts ++ account ∷ []
  pub memberships_grow : d'.memberships ≡ d.memberships ++ membership ∷ []
  pub user_named : user.id ≡ user_id
  pub account_named : account.id ≡ account_id
  pub email : user.email ≡ to_lower env i.email
  pub unverified : user.email_verified_at ≡ none
  pub slug : account.slug ≡ slugify env i.account_name account_id
  pub joins_user : membership.user_id ≡ user_id
  pub joins_account : membership.account_id ≡ account_id
  pub as_owner : membership.role ≡ owner
  pub sessions_kept : d'.auth_sessions ≡ d.auth_sessions

-- The statements of a sign-up with the ids drawn.
abbrev tenant_tx : Env → SignupInput → Text → Text → Text → Text → World → Outcome (Unit {0})
tenant_tx env i hash user_id account_id membership_id = in_tx (
    signup_statements env (new_user user_id hash i) (new_account env account_id i)
      (owner_membership membership_id account_id user_id))

tenant_tx_lem :
    (env : Env) (i : SignupInput) (hash user_id account_id membership_id : Text) (w : World)
    {w' : World}
    → tenant_tx env i hash user_id account_id membership_id w ≡ ok tt w'
    → Tenant env i user_id account_id w.db w'.db
tenant_tx_lem env i hash user_id account_id membership_id w h =
    let u = new_user user_id hash i in
    let a = new_account env account_id i in
    let m = owner_membership membership_id account_id user_id in
    let (v, body, spent) = in_tx-ok (signup_statements env u a m) w h in
    let rows = statements_lem env u a m (spend w) body in
    record {
      user = user_row env u w;
      account = account_row a w;
      membership = membership_row m w;
      users_grow = ground (arith, rows.0);
      accounts_grow = ground (arith, rows.0);
      memberships_grow = ground (arith, rows.0);
      user_named = refl;
      account_named = refl;
      email = refl;
      unverified = refl;
      slug = refl;
      joins_user = refl;
      joins_account = refl;
      as_owner = refl;
      sessions_kept = ground (arith, rows.0);
    }

-- A whole tenant with the ids that are returned, or nothing.
abbrev Registers : Env → SignupInput → Database → Outcome Registered → Type 0
Registers env i d (ok r v) = Tenant env i r.user_id r.account_id d v.db
Registers env i d (err e v) = v.db ≡ d

register_with_lem :
    (env : Env) (i : SignupInput) (hash : Text) (w : World)
    → Registers env i w.db (register_with env i hash w)
unfolding register_with
register_with_lem env i hash w =
    by_outcome (tenant_tx env i hash user_id account_id membership_id drawn) refl
  where
    user_id : Text
    user_id = env.new_id w.fresh

    account_id : Text
    account_id = env.new_id (suc w.fresh)

    membership_id : Text
    membership_id = env.new_id (suc (suc w.fresh))

    drawn : World
    drawn = record w { fresh = suc (suc (suc (suc w.fresh))) }

    registered : Registered
    registered = record {
      user_id = user_id;
      account_id = account_id;
      token_id = env.new_id (suc (suc (suc w.fresh)));
    }

    by_outcome :
        (o : Outcome (Unit {0}))
        → tenant_tx env i hash user_id account_id membership_id drawn ≡ o
        → Registers env i w.db (elim o [ ok a v ↦ ok registered v | err e v ↦ err e v ])
    by_outcome (ok a v) h = tenant_tx_lem env i hash user_id account_id membership_id drawn h
    by_outcome (err e v) h =
        in_tx-err-db
          (signup_statements env (new_user user_id hash i) (new_account env account_id i)
            (owner_membership membership_id account_id user_id))
          drawn h

register_lem : (env : Env) (i : SignupInput) (w : World) → Registers env i w.db (register env i w)
unfolding register
register_lem env i w = elim (Bool-cases (not (is_empty i.email || is_empty i.password))) [
  | inr refused ↦ rw refused refl
  | inl given ↦ rw given (by_outcome (hash_password env i.password w) refl)
]
  where
    by_outcome :
        (o : Outcome Text)
        → hash_password env i.password w ≡ o
        → Registers env i w.db
            (elim o [ ok hash v ↦ register_with env i hash v | err e v ↦ err e v ])
    by_outcome (ok hash v) h =
        subst (λ d. Registers env i d (register_with env i hash v)) (hashed-db env i.password w h)
          (register_with_lem env i hash v)
    by_outcome (err e v) h = unhashed-db env i.password w h

-- Rows of verification_tokens are no part of a tenant.
with_tokens :
    (env : Env) (i : SignupInput) (user_id account_id : Text) (d d' : Database)
    (rows : List VerificationTokenRow)
    → Tenant env i user_id account_id d d'
    → Tenant env i user_id account_id d (record d' { verification_tokens = rows })
with_tokens env i user_id account_id d d' rows t = record {
  user = t.user;
  account = t.account;
  membership = t.membership;
  users_grow = t.users_grow;
  accounts_grow = t.accounts_grow;
  memberships_grow = t.memberships_grow;
  user_named = t.user_named;
  account_named = t.account_named;
  email = t.email;
  unverified = t.unverified;
  slug = t.slug;
  joins_user = t.joins_user;
  joins_account = t.joins_account;
  as_owner = t.as_owner;
  sessions_kept = t.sessions_kept;
}

-- What a call of Signup has done to a database.
abbrev pub SignsUp : Env → SignupInput → Database → Outcome SignupOutput → Type 0
SignsUp env i d (ok out v) = Tenant env i out.user_id out.account_id d v.db
SignsUp env i d (err e v) =
    (v.db ≡ d) ⊎ ((user_id : Text) × (account_id : Text) × Tenant env i user_id account_id d v.db)

-- Whatever fails and whenever, Signup leaves no part of a tenant behind: if it succeeds, it has
-- added exactly one user (with the lowercased e-mail, unverified), one account (with the slug of
-- its name) and one membership that joins them as owner, with the ids that it returns; if it
-- returns an error, the database is as it was, or all three rows are there and the call failed
-- after the commit.
pub signup_atomic :
    (env : Env) (cfg : Config) (i : SignupInput) (w : World)
    → SignsUp env i w.db (signup env cfg i w)
unfolding signup
signup_atomic env cfg i w = by_outcome (register env i w) (register_lem env i w)
  where
    mailed : Registered → Text → World → Outcome SignupOutput
    mailed r raw v =
        (do
          send (verify_mail env cfg (to_lower env i.email) raw)
          pure (record { user_id = r.user_id; account_id = r.account_id }))
          v

    input : Registered → VerificationTokenInput
    input r = verify_input env cfg r.token_id r.user_id i

    after :
        (r : Registered) (v : World)
        → Tenant env i r.user_id r.account_id w.db v.db
        → Tenant env i r.user_id r.account_id w.db
            (world_of (create_verification_token env (input r) v)).db
    after r v t =
        let (rows, e) = create_token-db env (input r) v in
        rw e (with_tokens env i r.user_id r.account_id w.db v.db rows t)

    by_token :
        (r : Registered) (o : Outcome Text)
        → Tenant env i r.user_id r.account_id w.db (world_of o).db
        → SignsUp env i w.db (elim o [ ok raw v ↦ mailed r raw v | err e v ↦ err e v ])
    by_token r (ok raw v) t = t
    by_token r (err e v) t = inr (r.user_id, r.account_id, t)

    by_outcome :
        (o : Outcome Registered)
        → Registers env i w.db o
        → SignsUp env i w.db (elim o [
          | ok r v ↦ (elim (create_verification_token env (input r) v) [
            | ok raw u ↦ mailed r raw u
            | err e u ↦ err e u
          ])
          | err e v ↦ err e v
        ])
    by_outcome (ok r v) t = by_token r (create_verification_token env (input r) v) (after r v t)
    by_outcome (err e v) same = inl same
