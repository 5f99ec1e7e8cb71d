-- ===== src/Witnesses/Hubs.antt =====
-- Examples for the realtime hub.
use agenthub_server.Base.{str, true, false, inl, has, eqb, ◌==◌, ◌≤◌, ◌≡◌, refl, [], ◌∷◌, length}
use agenthub_server.Realtime.{
  HubConfig, Delivery, Hub, new_in_memory_hub, add_conn, register_conn, conns_of, publish, deliver,
  Goodbye, close, part_with,
}
use agenthub_server.Realtime.Steps.{HubSteps, registers, publishes, delivers, parts, unmoved, moved}
use agenthub_server.Realtime.Owned.{ForAccount, WrittenFor}
use agenthub_server.Realtime.Isolation.{hub_isolates}
use agenthub_server.Realtime.Farewell.{farewell_closes}

abbrev hub_config : HubConfig
hub_config = record { heartbeat_interval = 0; stale_cull_timeout = 0; send_buffer = 1 }

-- One connection, to which one message is published and delivered.
abbrev registered : Hub
registered = register_conn (new_in_memory_hub hub_config) (str "a")

abbrev published : Hub
published = publish registered (str "a") (str "hello")

abbrev delivery : Delivery
delivery = record { to = 0; message = record { account_id = str "a"; payload = str "hello" } }

abbrev delivered : Hub
delivered = deliver published delivery []

one_pending : published.pending ≡ delivery ∷ []
unfolding publish register_conn new_in_memory_hub conns_of add_conn ◌==◌
one_pending = refl

delivery_steps : HubSteps (new_in_memory_hub hub_config) delivered
delivery_steps =
    moved
      (moved (moved unmoved (registers (str "a") refl)) (publishes (str "a") (str "hello") refl))
      (delivers [] [] delivery one_pending refl)

hub_isolates_example :
    WrittenFor (delivered.owner 0) (delivered.written 0)
    × ForAccount (delivered.owner 0) (delivered.queue 0)
    × (length (delivered.queue 0) ≤ 1)
hub_isolates_example = hub_isolates hub_config delivered delivery_steps 0

-- The hub is closed, and parts with its one connection.
abbrev goodbye : Goodbye
goodbye = record { to = 0; announced = false }

abbrev parted : Hub
parted = part_with (close delivered) goodbye [] true

one_farewell : (close delivered).farewells ≡ goodbye ∷ []
unfolding close deliver publish register_conn new_in_memory_hub conns_of add_conn ◌==◌
one_farewell = refl

still_there : has (eqb 0) (conns_of (str "a") delivered.conns) ≡ true
unfolding deliver publish register_conn new_in_memory_hub conns_of add_conn ◌==◌ has
still_there = refl

all_said : parted.farewells ≡ []
unfolding part_with
all_said = refl

farewell_closes_example : parted.socket_closed 0 ≡ true
farewell_closes_example =
    farewell_closes delivered (close delivered) (str "a") 0 (inl refl) still_there
      (moved unmoved (parts [] [] goodbye true one_farewell refl)) all_said
