-- ===== src/Lib.antt =====
-- agenthub-server: a model of its accounts, credentials, OAuth sign-in, device pairing, agent sessions,
-- blobs, HTTP handlers, Headscale integration, configuration, start-up, idempotency cache, rate limit
-- and realtime fan-out, with the theorems that make them correct.
--
-- Parts, and the files that model them:
--   Base       Boolean tests, text and list lemmas, and the integers that the other files share.
--   Schema     internal/db/migrations/sqlite: a record for each table's row; Inserts has INSERT with
--              the PRIMARY KEY, UNIQUE and REFERENCES constraints.
--   World      what a call runs in: database, clock, random draws, outbox and coming failures; the
--              monad of calls that return an error, and db.BeginTx as `in_tx`.
--   Strings    the functions of package strings that the sources use.
--   Tenancy    internal/tenancy: users, accounts and memberships.
--   Auth       internal/auth, one module per file: Tokens (tokens.go), Sessions (sessions.go),
--              ApiTokens (apitokens.go), Password (password.go), Jwt (jwt.go), Service and Slug
--              (service.go), Middleware (middleware.go, tokenauth_middleware.go), OauthState
--              (oauth.go), Oauth (oauth_service.go), Keys (keys.go).
--   Devices    internal/devices: the registry, pair codes and ClaimDevice.
--   AgentSessions  internal/sessions: the rows of the terminal sessions, running or stopped.
--   Blobs      internal/blobs: the rows of the objects; Store is internal/blob, the files.
--   Api        internal/api: a handler is a function from a request and a World to the reply that
--              it writes, and each router puts its handlers behind its middleware.
--   Headscale  internal/headscale: the links of users and the minting of keys (service.go), Config
--              (config.go, derpmap.go), Supervisor (supervisor.go).
--   Config     internal/config/config.go: Load is Default, YAML, applyEnv and the derived paths;
--              Validate is the list of problems.
--   Httpmw     internal/httpmw: idempotency.go, the cache of responses under an Idempotency-Key;
--              RateLimit (ratelimit.go).
--   Realtime   internal/realtime/inmem.go: the hub's goroutines as steps of a relation.
--   Boot       cmd/agenthub-server/main.go: the choice of front end, database and log level, the
--              inputs of Headscale; with New of internal/httpfront and the text of internal/mail.
--   Witnesses  a small concrete server on which the theorems are applied.
--
-- A Go function `F(ctx, db, ...)` that returns an error is a function `f ... : M A`, from a World to an
-- Outcome: `ok` with a result, or `err` with the error, each with the World that is left. The
-- statements inside a transaction are a definition of their own (consume_statements,
-- claim_statements, signup_statements). The service layer calls the functions of Tokens, Sessions,
-- Password, Jwt and Tenancy; the middleware calls Jwt, Sessions and ApiTokens; the claim of a device
-- draws its API token from ApiTokens and asks a Headscaler, an interface record, for a key. Headscale.Links
-- fills that interface, as the stub of internal/devices does. The handlers of Api call all of them.
--
-- Choices:
--   - Time is in nanoseconds. A stored time is the text of a second, modelled as the number of that
--     second, so parsing it back never fails. The clock stands still within one call and is free
--     between calls. Durations are not negative.
--   - `faults` of a World says for each database call, random draw and mail in turn whether it fails;
--     a remote call answers, or fails, as its parameter says at that time. The theorems hold for every such list, so for a failure at any point. An
--     UPDATE or INSERT that fails changes nothing, and a transaction that fails is rolled back.
--   - internal/db/sqlite opens one connection, so transactions do not interleave: concurrency is
--     any sequence of calls. The hub's goroutines do interleave, between any two sends.
--   - Whether a write or a ping on a WebSocket succeeds is free, also on one that was closed.
--   - A string is the list of its code points; bytes are numbers.
--   - ORDER BY on equal times keeps the order of insertion.
--   - The file system of the blobs is a list of files, with the paths that it refuses to write, open or
--     look up, and the points where a copy to or from a file stops.
--   - SHA-256, argon2, base64, UUIDs, JWT, YAML, the file system, the OAuth provider, Headscale's gRPC
--     service, the operating system around its subprocess, filepath.Join and the %d verb, and
--     golang.org/x/time/rate are parameters: the fields of Env, Host, Headscaler, Disk,
--     OauthServiceConfig, Rpc, Outside, Printer and RateLib, and HostOf. What a theorem asks of them
--     is a named hypothesis.
--   - A panic of ids.New, when the random source fails, is not modelled; nor is logging.
--   - The body of a response to which nothing was written is a nil []byte, which SQL takes as NULL.
--   - The loop that waits for Headscale runs on fuel: one poll for each 100 ms up to the deadline, and
--     two more. It needs no more, since each poll that goes on waits for 100 ms at least. Every other
--     function is structurally recursive or has no loop.
--
-- Not modelled: the listeners and the TLS of the HTTP front, certmagic, the mounting of the routes and
-- the shutdown in main.go, internal/supervisor, the admin page, signals and logging, SMTP and the
-- database driver, which are input and output; and Dial, Close and Wait of the Headscale parts, which only
-- pass on.
pub mod Base
pub mod World
pub mod Schema
pub mod Strings
pub mod Tenancy
pub mod Auth
pub mod Devices
pub mod Config
pub mod AgentSessions
pub mod Httpmw
pub mod Realtime
pub mod Blobs
pub mod Headscale
pub mod Boot
pub mod Api
pub mod Witnesses
