-- ===== src/Realtime/Isolation.antt =====
-- Events never cross accounts, and channels never grow past their capacity.
use agenthub_server.Base.{
  ℕ, ◌≤◌, ◌<◌, ◌≡◌, sym, subst, Bool, true, false, List, ◌∷◌, ◌++◌, ◌&&◌, All, length,
}
use agenthub_server.Realtime.{
  Message, Hub, HubConfig, Goodbye, reconnect, new_in_memory_hub, or_default, all_conns, goodbyes,
  write_one, skip_one, ping_one, stop_writer, stop_heartbeat, deregister, close,
  broadcast_reconnect, part_with,
}
use agenthub_server.Realtime.Steps.{
  HubStep, registers, publishes, delivers, writes, skips, writer_returns, pings, heartbeat_returns,
  deregisters, closes, broadcasts, parts, HubSteps, unmoved, moved,
}
use agenthub_server.Realtime.Owned.{
  ForAccount, WrittenFor, all_conns-bounded, parted-bounded, wrote-unused, All-append, All-remove,
  remove-owned, wrote-owned,
}
use agenthub_server.Realtime.Invariant.{
  Inv, new-Inv, registers-Inv, publishes-Inv, delivers-Inv, writes-Inv,
}

skips-Inv :
    (cap : ℕ) (h : Hub) (c : ℕ) (m : Message) (rest : List Message)
    → h.queue c ≡ m ∷ rest
    → Inv cap h
    → Inv cap (skip_one h c rest)
unfolding skip_one write_one
skips-Inv cap h c m rest e inv =
    let failed = writes-Inv cap h c m rest false e inv in
    record {
      capacity = inv.capacity;
      conns_owned = inv.conns_owned;
      pending_addressed = inv.pending_addressed;
      farewells_bounded = inv.farewells_bounded;
      queue_owned = failed.queue_owned;
      written_owned = inv.written_owned;
      queue_bounded = failed.queue_bounded;
      unused = failed.unused;
    }

pings-Inv :
    (cap : ℕ) (h : Hub) (c : ℕ) (ping_ok : Bool) → Inv cap h → Inv cap (ping_one h c ping_ok)
unfolding ping_one
pings-Inv cap h c ping_ok inv = record {
  capacity = inv.capacity;
  conns_owned = inv.conns_owned;
  pending_addressed = inv.pending_addressed;
  farewells_bounded = inv.farewells_bounded;
  queue_owned = inv.queue_owned;
  written_owned = inv.written_owned;
  queue_bounded = inv.queue_bounded;
  unused = inv.unused;
}

writer_stops-Inv : (cap : ℕ) (h : Hub) (c : ℕ) → Inv cap h → Inv cap (stop_writer h c)
unfolding stop_writer
writer_stops-Inv cap h c inv = record {
  capacity = inv.capacity;
  conns_owned = inv.conns_owned;
  pending_addressed = inv.pending_addressed;
  farewells_bounded = inv.farewells_bounded;
  queue_owned = inv.queue_owned;
  written_owned = inv.written_owned;
  queue_bounded = inv.queue_bounded;
  unused = inv.unused;
}

heartbeat_stops-Inv : (cap : ℕ) (h : Hub) (c : ℕ) → Inv cap h → Inv cap (stop_heartbeat h c)
unfolding stop_heartbeat
heartbeat_stops-Inv cap h c inv = record {
  capacity = inv.capacity;
  conns_owned = inv.conns_owned;
  pending_addressed = inv.pending_addressed;
  farewells_bounded = inv.farewells_bounded;
  queue_owned = inv.queue_owned;
  written_owned = inv.written_owned;
  queue_bounded = inv.queue_bounded;
  unused = inv.unused;
}

deregisters-Inv : (cap : ℕ) (h : Hub) (c : ℕ) → Inv cap h → Inv cap (deregister h c)
unfolding deregister
deregisters-Inv cap h c inv = record {
  capacity = inv.capacity;
  conns_owned = remove-owned h.owner h.next (h.owner c) c h.conns inv.conns_owned;
  pending_addressed = inv.pending_addressed;
  farewells_bounded = inv.farewells_bounded;
  queue_owned = inv.queue_owned;
  written_owned = inv.written_owned;
  queue_bounded = inv.queue_bounded;
  unused = inv.unused;
}

said-Inv :
    (cap : ℕ) (h : Hub) (announced : Bool)
    → Inv cap h
    → All (λ (g : Goodbye). g.to < h.next) (h.farewells ++ goodbyes announced h.conns)
said-Inv cap h announced inv =
    All-append (λ (g : Goodbye). g.to < h.next) h.farewells _ inv.farewells_bounded
      (parted-bounded announced h.next (all_conns h.conns)
        (all_conns-bounded h.owner h.next h.conns inv.conns_owned))

closes-Inv : (cap : ℕ) (h : Hub) → Inv cap h → Inv cap (close h)
unfolding close
closes-Inv cap h inv = record {
  capacity = inv.capacity;
  conns_owned = inv.conns_owned;
  pending_addressed = inv.pending_addressed;
  farewells_bounded = said-Inv cap h false inv;
  queue_owned = inv.queue_owned;
  written_owned = inv.written_owned;
  queue_bounded = inv.queue_bounded;
  unused = inv.unused;
}

broadcasts-Inv : (cap : ℕ) (h : Hub) → Inv cap h → Inv cap (broadcast_reconnect h)
unfolding broadcast_reconnect
broadcasts-Inv cap h inv = record {
  capacity = inv.capacity;
  conns_owned = inv.conns_owned;
  pending_addressed = inv.pending_addressed;
  farewells_bounded = said-Inv cap h true inv;
  queue_owned = inv.queue_owned;
  written_owned = inv.written_owned;
  queue_bounded = inv.queue_bounded;
  unused = inv.unused;
}

parts-Inv :
    (cap : ℕ) (h : Hub) (before after : List Goodbye) (g : Goodbye) (write_ok : Bool)
    → h.farewells ≡ before ++ g ∷ after
    → Inv cap h
    → Inv cap (part_with h g (before ++ after) write_ok)
unfolding part_with
parts-Inv cap h before after g write_ok e inv =
    let bounded =
      All-remove (λ (x : Goodbye). x.to < h.next) before g after
        (subst (All (λ (x : Goodbye). x.to < h.next)) e inv.farewells_bounded) in
    record {
      capacity = inv.capacity;
      conns_owned = inv.conns_owned;
      pending_addressed = inv.pending_addressed;
      farewells_bounded = bounded.1;
      queue_owned = inv.queue_owned;
      written_owned = λ c.
          wrote-owned h.owner h.written g.to reconnect (g.announced && write_ok) tt c
            inv.written_owned;
      queue_bounded = inv.queue_bounded;
      unused = λ c k. (
        (inv.unused c k).0,
        wrote-unused h.written h.next g.to reconnect (g.announced && write_ok) bounded.0 c k
            (inv.unused c k).1,
      );
    }

step-Inv : (cap : ℕ) (h h' : Hub) → HubStep h h' → Inv cap h → Inv cap h'
step-Inv cap h h' (registers account e) inv =
    subst (Inv cap) (sym e) (registers-Inv cap h account inv)
step-Inv cap h h' (publishes account payload e) inv =
    subst (Inv cap) (sym e) (publishes-Inv cap h account payload inv)
step-Inv cap h h' (delivers before after d p e) inv =
    subst (Inv cap) (sym e) (delivers-Inv cap h before after d p inv)
step-Inv cap h h' (writes c m rest write_ok on q e) inv =
    subst (Inv cap) (sym e) (writes-Inv cap h c m rest write_ok q inv)
step-Inv cap h h' (skips c m rest on q e) inv =
    subst (Inv cap) (sym e) (skips-Inv cap h c m rest q inv)
step-Inv cap h h' (writer_returns c why e) inv =
    subst (Inv cap) (sym e) (writer_stops-Inv cap h c inv)
step-Inv cap h h' (pings c ping_ok on e) inv =
    subst (Inv cap) (sym e) (pings-Inv cap h c ping_ok inv)
step-Inv cap h h' (heartbeat_returns c e) inv =
    subst (Inv cap) (sym e) (heartbeat_stops-Inv cap h c inv)
step-Inv cap h h' (deregisters c there once e) inv =
    subst (Inv cap) (sym e) (deregisters-Inv cap h c inv)
step-Inv cap h h' (closes e) inv = subst (Inv cap) (sym e) (closes-Inv cap h inv)
step-Inv cap h h' (broadcasts e) inv = subst (Inv cap) (sym e) (broadcasts-Inv cap h inv)
step-Inv cap h h' (parts before after g write_ok p e) inv =
    subst (Inv cap) (sym e) (parts-Inv cap h before after g write_ok p inv)

steps-Inv : (cap : ℕ) (h : Hub) → Inv cap h → {h' : Hub} → HubSteps h h' → Inv cap h'
steps-Inv cap h inv unmoved = inv
steps-Inv cap h inv (moved {u} {v} steps step) = step-Inv cap u v step (steps-Inv cap h inv steps)

-- However the steps of a new hub (registrations, publishings, their single sends, writes, pings,
-- deregistrations, closing, reconnect events and the ends of its goroutines) are interleaved, every
-- message that was written to a connection or waits in its channel was published to the account that
-- registered the connection, except for the reconnect event, which carries nothing of an account; and
-- the channel holds at most the configured number of messages (32 if that is 0).
pub hub_isolates :
    (cfg : HubConfig) (h : Hub)
    → HubSteps (new_in_memory_hub cfg) h
    → (c : ℕ)
    → WrittenFor (h.owner c) (h.written c)
      × ForAccount (h.owner c) (h.queue c)
      × (length (h.queue c) ≤ or_default cfg.send_buffer 32)
hub_isolates cfg h steps c =
    let inv =
      steps-Inv (or_default cfg.send_buffer 32) (new_in_memory_hub cfg) (new-Inv cfg) steps in
    (inv.written_owned c, inv.queue_owned c, inv.queue_bounded c)
