-- ===== src/Auth/Oauth/Again.antt =====
-- A second login with one identity.
use agenthub_server.Base.{
  Text, ◌==◌, ◌≡◌, refl, sym, ap, subst, true, false, ◌||◌, none, some, List, [], ◌∷◌, ◌++◌, inl,
  arith, find, has, All, ◌∙◌, ==_iff, ==_refl, find-append-none, has-wider,
}
use agenthub_server.Schema.{
  Provider, provider_eq, UserRow, MembershipRow, OauthIdentityRow, Database, google, github,
}
use agenthub_server.Schema.Inserts.{user_clash}
use agenthub_server.Tenancy.{account_of, first_account}
use agenthub_server.World.{World, Env, world_of, result_of, ok}
use agenthub_server.Auth.Oauth.{
  UserInfo, Upserted, identity_of, identity_row, existing_identity, oauth_user_row, owner_row,
  upsert_identity,
}
use agenthub_server.Auth.Oauth.Upsert.{Upserts, upsert_sound, known, linked, new_tenant}

-- The REFERENCES constraint of memberships.user_id
abbrev pub MembershipsJoinUsers : Database → Type 0
MembershipsJoinUsers d = All (λ m. has (λ u. u.id == m.user_id) d.users ≡ true) d.memberships

-- The identity names the user, and the account is the user's first one.
pub record IsKnown (p : Provider) (subject : Text) (d : Database) (user_id account_id : Text)
    : Type 0 where
  pub row : OauthIdentityRow
  pub there : find (identity_of p subject) d.oauth_identities ≡ some row
  pub names : row.user_id ≡ user_id
  pub member : account_of (find (λ m. m.user_id == user_id) d.memberships) ≡ some account_id

-- A user of a new id is in no membership.
joins_none :
    (users : List UserRow) (r : UserRow) (ms : List MembershipRow)
    → has (λ u. u.id == r.id || u.email == r.email) users ≡ false
    → All (λ m. has (λ u. u.id == m.user_id) users ≡ true) ms
    → find (λ m. m.user_id == r.id) ms ≡ none
unfolding find
joins_none users r [] new all = refl
joins_none users r (m ∷ ms) new all =
    ground (arith, ==_iff m.user_id r.id, joined, joins_none users r ms new all.1)
  where
    joined : m.user_id ≡ r.id → has (λ u. u.id == r.id || u.email == r.email) users ≡ true
    joined same =
        has-wider (λ u. u.id == r.id) (λ u. u.id == r.id || u.email == r.email) users
          (λ u e. ground arith) (subst (λ i. has (λ u. u.id == i) users ≡ true) same all.0)

provider_eq_refl : (p : Provider) → provider_eq p p ≡ true
provider_eq_refl google = refl
provider_eq_refl github = refl

new_identity :
    (p : Provider) (ui : UserInfo) (rows : List OauthIdentityRow) (r : OauthIdentityRow)
    → find (identity_of p ui.provider_user_id) rows ≡ none
    → r.provider ≡ p
    → r.provider_user_id ≡ ui.provider_user_id
    → find (identity_of p ui.provider_user_id) (rows ++ r ∷ []) ≡ some r
unfolding find
new_identity p ui rows r none_such same_provider same_subject =
    find-append-none (identity_of p ui.provider_user_id) rows (r ∷ []) none_such
    ∙ ground (arith, same_provider, same_subject, ==_refl ui.provider_user_id, provider_eq_refl p)

first_membership :
    (ms : List MembershipRow) (m : MembershipRow)
    → find (λ n. n.user_id == m.user_id) ms ≡ none
    → account_of (find (λ n. n.user_id == m.user_id) (ms ++ m ∷ [])) ≡ some m.account_id
unfolding find
first_membership ms m none_such =
    ap account_of (find-append-none (λ n. n.user_id == m.user_id) ms (m ∷ []) none_such)
    ∙ ground (arith, ==_refl m.user_id)

upserted-IsKnown :
    (env : Env) (p : Provider) (ui : UserInfo) (w : World) (u : Upserted) (d : Database)
    → MembershipsJoinUsers w.db
    → Upserts env p ui w u d
    → IsKnown p ui.provider_user_id d u.user_id u.account_id
upserted-IsKnown env p ui w u d joined (known r there user account old same) =
    rw same (record { row = r; there = there; names = sym user; member = rw user account })
upserted-IsKnown env p ui w u d joined (linked r no_identity there user account old rows) =
    rw rows (record {
      row = identity_row env (env.new_id w.fresh) r.id p ui w;
      there =
          new_identity p ui w.db.oauth_identities
            (identity_row env (env.new_id w.fresh) r.id p ui w) no_identity refl refl;
      names = sym user;
      member = rw user account;
    })
upserted-IsKnown env p ui w u d joined
      (new_tenant no_identity no_user (made, new, membership_id, identity_id, rows)) =
    rw rows (record {
      row = identity_row env identity_id u.user_id p ui w;
      there =
          new_identity p ui w.db.oauth_identities (identity_row env identity_id u.user_id p ui w)
            no_identity refl refl;
      names = refl;
      member =
          first_membership w.db.memberships (owner_row membership_id u.account_id u.user_id w) (
            unfold user_clash in
            joins_none w.db.users (oauth_user_row env u.user_id ui w) w.db.memberships new joined);
    })

known-upsert :
    (env : Env) (p : Provider) (ui : UserInfo) (w : World) (user_id account_id : Text)
    → IsKnown p ui.provider_user_id w.db user_id account_id
    → w.faults ≡ []
    → (result_of (upsert_identity env p ui w)
        ≡ inl (record { user_id = user_id; account_id = account_id; created = false }))
      × ((world_of (upsert_identity env p ui w)).db ≡ w.db)
unfolding upsert_identity existing_identity first_account
known-upsert env p ui w user_id account_id k calm =
    (ground (arith, k.there, k.names, k.member), ground (arith, k.there, k.names, k.member))

-- After a successful upsertIdentity of an identity, where every membership is of a stored user, a
-- second one of the same provider and subject, whatever e-mail and name it now comes with, on the
-- database as the first left it and where no call fails, returns the same user and account, says
-- that nothing was created, and changes nothing.
pub upsert-upsert :
    (env : Env) (p : Provider) (ui ui₂ : UserInfo) (w v w₂ : World) (u : Upserted)
    → upsert_identity env p ui w ≡ ok u v
    → MembershipsJoinUsers w.db
    → ui₂.provider_user_id ≡ ui.provider_user_id
    → w₂.db ≡ v.db
    → w₂.faults ≡ []
    → (result_of (upsert_identity env p ui₂ w₂)
        ≡ inl (record { user_id = u.user_id; account_id = u.account_id; created = false }))
      × ((world_of (upsert_identity env p ui₂ w₂)).db ≡ v.db)
upsert-upsert env p ui ui₂ w v w₂ u h joined same_subject same calm =
    let k = upserted-IsKnown env p ui w u v.db joined (upsert_sound env p ui w h) in
    let (result, db) =
      known-upsert env p ui₂ w₂ u.user_id u.account_id (rw (same, same_subject) k) calm in
    (result, db ∙ same)
