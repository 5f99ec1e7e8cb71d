-- ===== src/Api/Ws.antt =====
-- internal/api/ws.go: who may open a WebSocket, and for which account.
use agenthub_server.Base.{Text, str, is_empty, Bool, true, false, Option, none, some, []}
use agenthub_server.Strings.{strip_prefix}
use agenthub_server.World.{World, Env, Outcome, M, pure, fail, ◌>>=◌, ◌>>◌, bad_token, ok, err}
use agenthub_server.Auth.Jwt.{ParsedClaims, JwtSigner, parse}
use agenthub_server.Auth.Sessions.{check_session_active}

-- What becomes of the request: http.Error, a failed websocket.Accept, which has answered itself, or
-- hub.Register of the connection under an account.
pub data WsReply : Type 0 where
  unauthorized not_upgraded : WsReply
  register : Text → WsReply

abbrev pub or_empty : Option Text → Text
or_empty none = []
or_empty (some s) = s

-- bearerFromHeader: what follows "Bearer ", or nothing
unfoldable pub bearer_from_header : Text → Text
bearer_from_header header = or_empty (strip_prefix (str "Bearer ") header)

-- The Authorization header, or else the query's token; errMissingToken where both are empty
unfoldable pub resolve_ws_auth : Env → JwtSigner → Text → Text → M ParsedClaims
resolve_ws_auth env signer header query_token = elim (is_empty (bearer_from_header header)) [
  | false ↦ parse env signer (bearer_from_header header)
  | true ↦ elim (is_empty query_token) [
    | false ↦ parse env signer query_token
    | true ↦ fail bad_token
  ]
]

unfoldable pub ws_claims : Env → JwtSigner → Text → Text → M ParsedClaims
ws_claims env signer header query_token = do
  claims ← resolve_ws_auth env signer header query_token
  check_session_active claims.session_id
  pure claims

-- `accepts` is whether websocket.Accept succeeds.
abbrev pub upgraded : Bool → Outcome ParsedClaims → WsReply
upgraded true (ok claims w) = register claims.account_id
upgraded false (ok claims w) = not_upgraded
upgraded accepts (err e w) = unauthorized

unfoldable pub ws_handler : Env → JwtSigner → Text → Text → Bool → World → WsReply
ws_handler env signer header query_token accepts w =
    upgraded accepts (ws_claims env signer header query_token w)
