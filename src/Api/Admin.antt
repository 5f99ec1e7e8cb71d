-- ===== src/Api/Admin.antt =====
-- internal/api/admin.go and health.go: what operators see, and the health check.
use agenthub_server.Base.{
  Text, str, ℕ, ◌-◌, Bool, true, false, List, map, eqb, where_rows, order_desc,
}
use agenthub_server.Schema.{UserRow, AccountRow}
use agenthub_server.Tenancy.{is_null}
use agenthub_server.World.{World, Env, M, pure, ◌>>=◌, query}
use agenthub_server.Auth.Jwt.{JwtSigner}
use agenthub_server.Auth.Middleware.{
  Identity, Gate, require_auth_or_token, require_operator, serve, reject,
}
use agenthub_server.Api.{Served, send_reply, handle, fails_with, behind, write_json}

pub record AdminUser : Type 0 where
  pub id : Text
  pub email : Text
  pub name : Text
  pub avatar_url : Text
  pub is_operator : Bool
  pub created_at : ℕ

abbrev pub admin_user : UserRow → AdminUser
admin_user r = record {
  id = r.id;
  email = r.email;
  name = r.name;
  avatar_url = r.avatar_url;
  is_operator = eqb r.is_operator 1;
  created_at = r.created_at;
}

pub record AdminAccount : Type 0 where
  pub id : Text
  pub slug : Text
  pub name : Text
  pub plan : Text
  pub created_at : ℕ

abbrev pub admin_account : AccountRow → AdminAccount
admin_account r = record {
  id = r.id;
  slug = r.slug;
  name = r.name;
  plan = r.plan;
  created_at = r.created_at;
}

-- WHERE deleted_at IS NULL ORDER BY created_at DESC
unfoldable pub admin_list_users_handler : Identity → World → Served (List AdminUser)
unfolding query
admin_list_users_handler c w =
    handle
      (query
        (λ v. map admin_user (
          order_desc (λ (r : UserRow). r.created_at)
            (where_rows (λ (r : UserRow). is_null r.deleted_at) v.db.users)))
        w)
      (λ us. send_reply (write_json 200 us)) (fails_with 500 (str "query_failed"))

unfoldable pub admin_list_accounts_handler : Identity → World → Served (List AdminAccount)
unfolding query
admin_list_accounts_handler c w =
    handle
      (query
        (λ v. map admin_account (
          order_desc (λ (r : AccountRow). r.created_at)
            (where_rows (λ (r : AccountRow). is_null r.deleted_at) v.db.accounts)))
        w)
      (λ us. send_reply (write_json 200 us)) (fails_with 500 (str "query_failed"))

-- The status and the time
unfoldable pub admin_health_handler : Identity → World → Served (Text × ℕ)
admin_health_handler c w = send_reply (write_json 200 (str "ok", w.now)) w

abbrev pub operator_only : Gate → M Gate
operator_only (serve c) = require_operator c
operator_only (reject status) = pure (reject status)

-- r.Use(RequireAuthOrToken), r.Use(RequireOperator)
unfoldable pub admin_gate : Env → JwtSigner → Text → M Gate
admin_gate env signer header = do gate ← require_auth_or_token env signer header; operator_only gate

unfoldable pub admin_route {ℓ} :
    {B : Type ℓ} → Env → JwtSigner → Text → (Identity → World → Served B) → World → Served B
admin_route env signer header h w = behind (admin_gate env signer header w) h

-- ServeHTTP of HealthChecker: the status and the state of the database; the process statistics are
-- left out. The uptime is in nanoseconds.
pub record Health : Type 0 where
  pub status : Text
  pub version : Text
  pub uptime : ℕ
  pub db : Text

abbrev pub health_status : Bool → Text
health_status true = str "ok"
health_status false = str "degraded"

abbrev pub health_db : Bool → Text
health_db true = str "ok"
health_db false = str "down"

abbrev pub health_code : Bool → ℕ
health_code true = 200
health_code false = 503

-- `pings` is whether Pinger.Ping succeeds.
unfoldable pub health_handler : Text → ℕ → Bool → World → Served Health
health_handler version start_time pings w =
    send_reply
      (write_json (health_code pings) (record {
        status = health_status pings;
        version = version;
        uptime = w.now - start_time;
        db = health_db pings;
      }))
      w
