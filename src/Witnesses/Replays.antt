-- ===== src/Witnesses/Replays.antt =====
-- Examples for the idempotency cache.
use agenthub_server.Base.{str, ◌==◌, ◌*◌, ◌≡◌, refl, ◌+◌, arith, none, [], ◌∷◌, find, has}
use agenthub_server.Schema.{IdempotencyRow}
use agenthub_server.World.{World, second, spend}
use agenthub_server.Httpmw.{Request, Handler, HostOf, idempotent}
use agenthub_server.Httpmw.Replay.{replay_first}
use agenthub_server.Httpmw.Stale.{
  LeavesKeys, CacheSteps, at_first, requested, passed, stale_key_stays,
}
use agenthub_server.Witnesses.Fixtures.{env, db, start}

abbrev request : Request
request = record {
  key = str "k";
  body = str "hello";
  method = str "POST";
  path = str "/a";
  remote_addr = str "10.0.0.1";
}

abbrev whole_addr : HostOf
whole_addr addr = none

abbrev created : Handler
created r w = (record { code = 201; body = str "made" }, w)

abbrev broken : Handler
broken r w = (record { code = 500; body = [] }, w)

abbrev answered : World
answered = (idempotent env whole_addr 0 created request start).1

-- A minute later the request is repeated on another path, and would fail.
abbrev a_minute_later : World
a_minute_later = record answered { now = 1060 * second; faults = [] }

replay_first_example :
    idempotent env whole_addr 0 broken (record request { path = str "/b" }) a_minute_later
    ≡ ((idempotent env whole_addr 0 created request start).0, spend a_minute_later)
unfolding has
replay_first_example =
    replay_first env whole_addr 0 created broken request (record request { path = str "/b" }) start
      a_minute_later refl refl refl refl refl (omega arith) (omega arith) refl refl refl refl refl
      refl refl

-- The key was used long ago.
abbrev old_row : IdempotencyRow
old_row = record {
  key = str "k";
  scope = str "ip:10.0.0.1";
  method = str "POST";
  path = str "/a";
  request_hash = str "#hello";
  response_code = 201;
  response_body = str "made";
  created_at = 0;
  expires_at = 500;
}

abbrev expired : World
expired = record start { db = record db { idempotency_keys = old_row ∷ [] } }

created_leaves : LeavesKeys created
created_leaves r w = (refl, omega arith)

-- The request is made twice, the second time an hour later.
abbrev once_again : World
once_again = (idempotent env whole_addr 0 created request expired).1

abbrev an_hour_later : World
an_hour_later = record once_again { now = once_again.now + 3600 * second }

abbrev repetitions : CacheSteps env whole_addr 0 expired an_hour_later
repetitions = passed refl (omega arith) (requested created request created_leaves at_first)

stale_key_stays_example :
    (idempotent env whole_addr 0 created request an_hour_later).0
    ≡ record { code = 201; body = str "made" }
unfolding has find ◌==◌
stale_key_stays_example =
    stale_key_stays env whole_addr 0 created request expired an_hour_later refl refl refl
      repetitions
