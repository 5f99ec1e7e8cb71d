-- ===== src/Httpmw.antt =====
-- internal/httpmw/idempotency.go: the cache of responses under an Idempotency-Key.
pub mod Replay
pub mod Stale
pub mod RateLimit
use agenthub_server.Base.{
  Text, str, ◌==◌, is_empty, ℕ, ◌*◌, ◌+◌, Bool, true, false, ◌&&◌, Option, none, some, ◌++◌, eqb,
  leb, ltb, find, if◌then◌else◌,
}
use agenthub_server.Schema.{Database, IdempotencyRow}
use agenthub_server.Schema.Inserts.{insert_idempotency_key}
use agenthub_server.World.{
  Env, World, Outcome, ok, err, world_of, query_row, exec, seconds_now, seconds_after, second,
}

-- What the middleware reads of a request; `key` is the Idempotency-Key header, empty if there is
-- none, and `body` the bytes of the body.
pub record Request : Type 0 where
  pub key : Text
  pub body : Text
  pub method : Text
  pub path : Text
  pub remote_addr : Text

pub record Response : Type 0 where
  pub code : ℕ
  pub body : Text

-- next.ServeHTTP: the code (200 if it sets none) and the body that it writes.
abbrev pub Handler : Type 0
Handler = Request → World → Response × World

-- The host of net.SplitHostPort, if it can split.
abbrev pub HostOf : Type 0
HostOf = Text → Option Text

abbrev pub host_or : Option Text → Text → Text
host_or none addr = addr
host_or (some host) addr = host

-- clientIP
abbrev pub client_ip : HostOf → Request → Text
client_ip host_of r = host_or (host_of r.remote_addr) r.remote_addr

abbrev pub scope_of : HostOf → Request → Text
scope_of host_of r = str "ip:" ++ client_ip host_of r

-- cfg.TTL, or 24 hours
abbrev pub effective_ttl : ℕ → ℕ
effective_ttl ttl = if eqb ttl 0 then 86400 * second else ttl

-- WHERE key = ? AND scope = ? AND request_hash = ? AND expires_at > datetime('now')
abbrev pub is_cached : Text → Text → Text → World → IdempotencyRow → Bool
is_cached key scope hash w k =
    k.key == key && k.scope == scope && k.request_hash == hash && ltb (seconds_now w) k.expires_at

abbrev pub cached_response : IdempotencyRow → Response
cached_response k = record { code = k.response_code; body = k.response_body }

-- rec.code >= 200 && rec.code < 300
abbrev pub is_success : ℕ → Bool
is_success code = leb 200 code && ltb code 300

abbrev pub cache_row : Env → HostOf → ℕ → Request → Response → World → IdempotencyRow
cache_row env host_of ttl r resp w = record {
  key = r.key;
  scope = scope_of host_of r;
  method = r.method;
  path = r.path;
  request_hash = env.sha256_hex r.body;
  response_code = resp.code;
  response_body = resp.body;
  created_at = seconds_now w;
  expires_at = seconds_after w (effective_ttl ttl);
}

-- The INSERT, whose error is dropped.
unfoldable pub store_response : Env → HostOf → ℕ → Request → Response → World → World
unfolding exec
store_response env host_of ttl r resp w =
    if is_success resp.code
    then world_of (exec (λ v. insert_idempotency_key v.db (cache_row env host_of ttl r resp v)) w)
    else w

unfoldable pub run_and_store : Env → HostOf → ℕ → Handler → Handler
run_and_store env host_of ttl next r w =
    let (resp, v) = next r w in (resp, store_response env host_of ttl r resp v)

-- if err := row.Scan(...); err == nil: any error of the lookup runs the handler.
abbrev pub replay_or_run :
    Env → HostOf → ℕ → Handler → Request → Outcome IdempotencyRow → Response × World
replay_or_run env host_of ttl next r (ok k w) = (cached_response k, w)
replay_or_run env host_of ttl next r (err e w) = run_and_store env host_of ttl next r w

-- NewIdempotency around a handler
unfoldable pub idempotent : Env → HostOf → ℕ → Handler → Handler
unfolding query_row
idempotent env host_of ttl next r w = elim (is_empty r.key) [
  | true ↦ next r w
  | false ↦ replay_or_run env host_of ttl next r (
      query_row
        (λ v.
          find (is_cached r.key (scope_of host_of r) (env.sha256_hex r.body) v)
            v.db.idempotency_keys)
        w)
]
