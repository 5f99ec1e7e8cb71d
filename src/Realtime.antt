-- ===== src/Realtime.antt =====
-- internal/realtime: the in-memory WebSocket hub. The goroutines of the hub are steps of a relation:
-- a Publish takes its targets under the lock and then makes one non-blocking send after another,
-- with steps of other goroutines in between; `pending` holds the sends still to be made, as
-- `farewells` holds the connections that Close and BroadcastReconnect have still to part with.
pub mod Steps
pub mod Owned
pub mod Invariant
pub mod Isolation
pub mod Farewell
use agenthub_server.Base.{
  Text, ◌==◌, ℕ, suc, ◌*◌, Bool, true, false, not, Option, none, some, List, [], ◌∷◌, ◌++◌, map,
  eqb, ltb, length, ◌&&◌, if◌then◌else◌,
}
use agenthub_server.World.{second}

-- Durations are nanoseconds.
pub record HubConfig : Type 0 where
  pub heartbeat_interval : ℕ
  pub stale_cull_timeout : ℕ
  pub send_buffer : ℕ

-- The marshalled event, with the account that it was published to.
pub record Message : Type 0 where
  pub account_id : Text
  pub payload : Text

-- A send of Publish that is still to be made: the connection and the message.
pub record Delivery : Type 0 where
  pub to : ℕ
  pub message : Message

-- What is written to a WebSocket: an event of an account, or the reconnect event.
pub data Frame : Type 0 where
  event : Message → Frame
  reconnect : Frame

-- A connection that is to be closed, by BroadcastReconnect after a reconnect event.
pub record Goodbye : Type 0 where
  pub to : ℕ
  pub announced : Bool

-- A *conn is a number below `next`. `conns` is the map from accounts to sets of connections; the
-- other fields are the fields of each conn: accountID, ch, whether done is closed, whether its writer
-- and its heartbeat run, and of its WebSocket what was written and whether it was closed.
pub record Hub : Type 0 where
  pub config : HubConfig
  pub shut : Bool
  pub next : ℕ
  pub conns : List (Text × List ℕ)
  pub owner : ℕ → Text
  pub queue : ℕ → List Message
  pub finished : ℕ → Bool
  pub writing : ℕ → Bool
  pub beating : ℕ → Bool
  pub written : ℕ → List Frame
  pub socket_closed : ℕ → Bool
  pub pending : List Delivery
  pub farewells : List Goodbye

abbrev pub or_default : ℕ → ℕ → ℕ
or_default value preset = if eqb value 0 then preset else value

unfoldable pub new_in_memory_hub : HubConfig → Hub
new_in_memory_hub cfg = record {
  config = record {
    heartbeat_interval = or_default cfg.heartbeat_interval (30 * second);
    stale_cull_timeout = or_default cfg.stale_cull_timeout (90 * second);
    send_buffer = or_default cfg.send_buffer 32;
  };
  shut = false;
  next = 0;
  conns = [];
  owner = λ c. [];
  queue = λ c. [];
  finished = λ c. false;
  writing = λ c. false;
  beating = λ c. false;
  written = λ c. [];
  socket_closed = λ c. false;
  pending = [];
  farewells = [];
}

-- f with the value v at c
abbrev pub assign {ℓ} : {A : Type ℓ} → (ℕ → A) → ℕ → A → ℕ → A
assign f c v d = if eqb c d then v else f d

-- h.conns[accountID], or a new set
unfoldable pub add_conn : Text → ℕ → List (Text × List ℕ) → List (Text × List ℕ)
add_conn account c [] = (account, c ∷ []) ∷ []
add_conn account c ((a, set) ∷ conns) =
    if a == account then (a, c ∷ set) ∷ conns else (a, set) ∷ add_conn account c conns

-- Register up to the loop that reads the socket
unfoldable pub register_conn : Hub → Text → Hub
register_conn h account = record h {
  next = suc h.next;
  conns = add_conn account h.next h.conns;
  owner = assign h.owner h.next account;
  writing = assign h.writing h.next true;
  beating = assign h.beating h.next true;
}

-- The set of an account; a missing key reads as the empty set.
unfoldable pub conns_of : Text → List (Text × List ℕ) → List ℕ
conns_of account [] = []
conns_of account ((a, set) ∷ conns) = if a == account then set else conns_of account conns

-- Publish up to the sends
unfoldable pub publish : Hub → Text → Text → Hub
publish h account payload = record h {
  pending =
      h.pending
      ++ map (λ c. record { to = c; message = record { account_id = account; payload = payload } })
          (conns_of account h.conns);
}

-- select { case c.ch <- data: default: } with ch of capacity SendBuffer
abbrev pub try_send : ℕ → List Message → Message → List Message
try_send cap ch m = if ltb (length ch) cap then ch ++ m ∷ [] else ch

unfoldable pub deliver : Hub → Delivery → List Delivery → Hub
deliver h d rest = record h {
  queue = assign h.queue d.to (try_send h.config.send_buffer (h.queue d.to) d.message);
  pending = rest;
}

-- case data, ok := <-c.ch: the write, which may fail; that closes the socket and ends the writer
unfoldable pub write_one : Hub → ℕ → Message → List Message → Bool → Hub
write_one h c m rest write_ok = record h {
  queue = assign h.queue c rest;
  writing = if write_ok then h.writing else assign h.writing c false;
  written = if write_ok then assign h.written c (h.written c ++ event m ∷ []) else h.written;
  socket_closed = if write_ok then h.socket_closed else assign h.socket_closed c true;
}

-- The write that fails with context.Canceled, after which the writer goes on
unfoldable pub skip_one : Hub → ℕ → List Message → Hub
skip_one h c rest = record h { queue = assign h.queue c rest }

-- case <-t.C: the ping, which may fail; that closes the socket and ends the heartbeat
unfoldable pub ping_one : Hub → ℕ → Bool → Hub
ping_one h c ping_ok = record h {
  beating = if ping_ok then h.beating else assign h.beating c false;
  socket_closed = if ping_ok then h.socket_closed else assign h.socket_closed c true;
}

-- The other returns of writer and heartbeat
unfoldable pub stop_writer : Hub → ℕ → Hub
stop_writer h c = record h { writing = assign h.writing c false }

unfoldable pub stop_heartbeat : Hub → ℕ → Hub
stop_heartbeat h c = record h { beating = assign h.beating c false }

unfoldable pub without_conn : ℕ → List ℕ → List ℕ
without_conn c [] = []
without_conn c (d ∷ set) = if eqb d c then without_conn c set else d ∷ without_conn c set

-- if len(set) == 0 { delete(h.conns, accountID) }
abbrev pub put_set : Text → List ℕ → List (Text × List ℕ) → List (Text × List ℕ)
put_set a [] conns = conns
put_set a (c ∷ set) conns = (a, c ∷ set) ∷ conns

unfoldable pub remove_conn : Text → ℕ → List (Text × List ℕ) → List (Text × List ℕ)
unfolding without_conn
remove_conn account c [] = []
remove_conn account c ((a, set) ∷ conns) =
    if a == account
    then put_set a (without_conn c set) conns
    else (a, set) ∷ remove_conn account c conns

unfoldable pub deregister : Hub → ℕ → Hub
deregister h c = record h {
  conns = remove_conn (h.owner c) c h.conns;
  finished = assign h.finished c true;
}

abbrev pub all_conns : List (Text × List ℕ) → List ℕ
all_conns [] = []
all_conns ((a, set) ∷ conns) = set ++ all_conns conns

abbrev pub goodbyes : Bool → List (Text × List ℕ) → List Goodbye
goodbyes announced conns = map (λ c. record { to = c; announced = announced }) (all_conns conns)

-- Close up to the sockets
unfoldable pub close : Hub → Hub
close h = record h { shut = true; farewells = h.farewells ++ goodbyes false h.conns }

-- BroadcastReconnect up to the sockets
unfoldable pub broadcast_reconnect : Hub → Hub
broadcast_reconnect h = record h { farewells = h.farewells ++ goodbyes true h.conns }

-- One socket of Close or BroadcastReconnect, whose errors are not looked at
unfoldable pub part_with : Hub → Goodbye → List Goodbye → Bool → Hub
part_with h g rest write_ok = record h {
  written =
      if g.announced && write_ok
      then assign h.written g.to (h.written g.to ++ reconnect ∷ [])
      else h.written;
  socket_closed = assign h.socket_closed g.to true;
  farewells = rest;
}

-- accountConnCount
unfoldable pub account_conn_count : Hub → Text → ℕ
unfolding conns_of
account_conn_count h account = length (conns_of account h.conns)
