-- ===== src/Realtime/Steps.antt =====
-- What the goroutines of the hub may do next.
use agenthub_server.Base.{Text, ℕ, ◌<◌, ◌≡◌, Bool, true, false, List, ◌∷◌, ◌++◌, ◌⊎◌}
use agenthub_server.Realtime.{
  Hub, Delivery, Message, Goodbye, register_conn, publish, deliver, write_one, skip_one, ping_one,
  stop_writer, stop_heartbeat, deregister, close, broadcast_reconnect, part_with,
}

-- Any pending send or farewell may come next. A writer takes the oldest message of its channel, and
-- may do so also after its connection was deregistered or the hub was closed, as select chooses
-- freely. The heartbeat also ends with the request, at any time. A connection is deregistered once.
pub data HubStep (h : Hub) (h' : Hub) : Type 0 where
  registers : (account : Text) → h' ≡ register_conn h account → HubStep h h'
  publishes : (account payload : Text) → h' ≡ publish h account payload → HubStep h h'
  delivers :
      (before after : List Delivery) (d : Delivery)
      → h.pending ≡ before ++ d ∷ after
      → h' ≡ deliver h d (before ++ after)
      → HubStep h h'
  writes :
      (c : ℕ) (m : Message) (rest : List Message) (write_ok : Bool)
      → h.writing c ≡ true
      → h.queue c ≡ m ∷ rest
      → h' ≡ write_one h c m rest write_ok
      → HubStep h h'
  skips :
      (c : ℕ) (m : Message) (rest : List Message)
      → h.writing c ≡ true
      → h.queue c ≡ m ∷ rest
      → h' ≡ skip_one h c rest
      → HubStep h h'
  writer_returns :
      (c : ℕ) → (h.finished c ≡ true) ⊎ (h.shut ≡ true) → h' ≡ stop_writer h c → HubStep h h'
  pings : (c : ℕ) (ping_ok : Bool) → h.beating c ≡ true → h' ≡ ping_one h c ping_ok → HubStep h h'
  heartbeat_returns : (c : ℕ) → h' ≡ stop_heartbeat h c → HubStep h h'
  deregisters : (c : ℕ) → c < h.next → h.finished c ≡ false → h' ≡ deregister h c → HubStep h h'
  closes : h' ≡ close h → HubStep h h'
  broadcasts : h' ≡ broadcast_reconnect h → HubStep h h'
  parts :
      (before after : List Goodbye) (g : Goodbye) (write_ok : Bool)
      → h.farewells ≡ before ++ g ∷ after
      → h' ≡ part_with h g (before ++ after) write_ok
      → HubStep h h'

pub data HubSteps (h : Hub) : Hub → Type 0 where
  unmoved : HubSteps h h
  moved : {u v : Hub} → HubSteps h u → HubStep u v → HubSteps h v
