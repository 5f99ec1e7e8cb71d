-- ===== src/Tenancy.antt =====
-- internal/tenancy: users.go, accounts.go, memberships.go and types.go.
pub mod Users
use agenthub_server.Base.{
  Text, str, ◌==◌, is_empty, ℕ, Bool, true, false, ◌&&◌, Option, none, some, List, [], ◌∷◌, eqb,
  find, update, if◌then◌else◌,
}
use agenthub_server.Schema.{Database, UserRow, AccountRow, MembershipRow, Role}
use agenthub_server.Schema.Inserts.{insert_user, insert_account, insert_membership}
use agenthub_server.Strings.{to_lower}
use agenthub_server.World.{
  Env, M, World, Outcome, ok, err, Err, no_rows, pure, fail, on_err, ◌>>=◌, ◌>>◌, query_row, exec,
  exec_update, seconds_now,
}

-- A zero time.Time is `none`.
pub record User : Type 0 where
  pub id : Text
  pub email : Text
  pub name : Text
  pub avatar_url : Text
  pub password_hash : Text
  pub email_verified_at : Option ℕ
  pub created_at : ℕ

pub record Account : Type 0 where
  pub id : Text
  pub slug : Text
  pub name : Text
  pub plan : Text

pub record Membership : Type 0 where
  pub id : Text
  pub account_id : Text
  pub user_id : Text
  pub role : Role

abbrev pub null_if_empty : Text → Option Text
null_if_empty s = if is_empty s then none else some s

-- COALESCE(column, '')
abbrev pub coalesce : Option Text → Text
coalesce none = []
coalesce (some s) = s

abbrev pub is_null : Option ℕ → Bool
is_null none = true
is_null (some t) = false

abbrev pub user_row : Env → User → World → UserRow
user_row env u w = record {
  id = u.id;
  email = to_lower env u.email;
  password_hash = null_if_empty u.password_hash;
  email_verified_at = none;
  name = u.name;
  avatar_url = u.avatar_url;
  created_at = seconds_now w;
  deleted_at = none;
  is_operator = 0;
}

unfoldable pub create_user : Env → User → M (Unit {0})
unfolding exec
create_user env u = exec (λ w. insert_user w.db (user_row env u w))

abbrev pub scan_user : UserRow → User
scan_user r = record {
  id = r.id;
  email = r.email;
  name = r.name;
  avatar_url = r.avatar_url;
  password_hash = coalesce r.password_hash;
  email_verified_at = r.email_verified_at;
  created_at = r.created_at;
}

abbrev pub scanned : Option UserRow → Option User
scanned none = none
scanned (some r) = some (scan_user r)

-- WHERE email = ? AND deleted_at IS NULL
abbrev pub live_email : Text → UserRow → Bool
live_email email r = r.email == email && is_null r.deleted_at

-- WHERE id = ? AND deleted_at IS NULL
abbrev pub live_id : Text → UserRow → Bool
live_id i r = r.id == i && is_null r.deleted_at

unfoldable pub get_user_by_email : Env → Text → M User
unfolding query_row
get_user_by_email env email =
    query_row (λ w. scanned (find (live_email (to_lower env email)) w.db.users))

unfoldable pub get_user_by_id : Text → M User
unfolding query_row
get_user_by_id i = query_row (λ w. scanned (find (live_id i) w.db.users))

unfoldable pub mark_email_verified : Text → M (Unit {0})
unfolding exec_update
mark_email_verified i = exec_update λ w. record (w.db) {
  users =
      update (live_id i) (λ r. record r { email_verified_at = some (seconds_now w) }) w.db.users;
}

unfoldable pub update_password_hash : Text → Text → M (Unit {0})
unfolding exec_update
update_password_hash i hash = exec_update λ w. record (w.db) {
  users = update (live_id i) (λ r. record r { password_hash = some hash }) w.db.users;
}

abbrev pub operator_flag : Option UserRow → Option ℕ
operator_flag none = none
operator_flag (some r) = some r.is_operator

abbrev pub no_rows_is_false : Err → M Bool
no_rows_is_false no_rows w = ok false w
no_rows_is_false e w = err e w

unfoldable pub is_operator : Text → M Bool
unfolding query_row
is_operator i =
    on_err
      (do flag ← query_row (λ w. operator_flag (find (live_id i) w.db.users)); pure (eqb flag 1))
      no_rows_is_false

abbrev pub account_row : Account → World → AccountRow
account_row a w = record {
  id = a.id;
  slug = a.slug;
  name = a.name;
  plan = if is_empty a.plan then str "self_hosted" else a.plan;
  created_at = seconds_now w;
  deleted_at = none;
}

unfoldable pub create_account : Account → M (Unit {0})
unfolding exec
create_account a = exec (λ w. insert_account w.db (account_row a w))

abbrev pub membership_row : Membership → World → MembershipRow
membership_row m w = record {
  id = m.id;
  account_id = m.account_id;
  user_id = m.user_id;
  role = m.role;
  created_at = seconds_now w;
}

unfoldable pub add_membership : Membership → M (Unit {0})
unfolding exec
add_membership m = exec (λ w. insert_membership w.db (membership_row m w))

-- SELECT account_id FROM memberships WHERE user_id = ? ORDER BY created_at LIMIT 1: rows stand in
-- the order of insertion, and the clock does not run backwards.
abbrev pub account_of : Option MembershipRow → Option Text
account_of none = none
account_of (some m) = some m.account_id

unfoldable pub first_account : Text → M Text
unfolding query_row
first_account user_id =
    query_row (λ w. account_of (find (λ m. m.user_id == user_id) w.db.memberships))

abbrev pub live_account : Text → AccountRow → Bool
live_account i r = r.id == i && is_null r.deleted_at

abbrev pub scan_account : AccountRow → Account
scan_account r = record { id = r.id; slug = r.slug; name = r.name; plan = r.plan }

abbrev pub scanned_account : Option AccountRow → Option Account
scanned_account none = none
scanned_account (some r) = some (scan_account r)

unfoldable pub get_account_by_id : Text → M Account
unfolding query_row
get_account_by_id i = query_row (λ w. scanned_account (find (live_account i) w.db.accounts))

abbrev pub scanned_membership : Option MembershipRow → Option Membership
scanned_membership none = none
scanned_membership (some r) =
    some (record { id = r.id; account_id = r.account_id; user_id = r.user_id; role = r.role })

unfoldable pub get_membership_by_account_user : Text → Text → M Membership
unfolding query_row
get_membership_by_account_user account_id user_id = query_row (λ w.
    scanned_membership
      (find (λ m. m.account_id == account_id && m.user_id == user_id) w.db.memberships))
