-- ===== src/Realtime/Invariant.antt =====
-- What holds of the hub at all times, and is kept by registrations, sends and writes.
use agenthub_server.Base.{
  Text, ℕ, suc, ◌≤◌, ◌<◌, ◌≡◌, refl, subst, Bool, List, [], ◌∷◌, ◌++◌, All, length, arith,
}
use agenthub_server.Realtime.{
  Hub, HubConfig, Message, Delivery, Goodbye, event, new_in_memory_hub, or_default, assign,
  register_conn, conns_of, publish, deliver, write_one,
}
use agenthub_server.Realtime.Owned.{
  OwnedBy, ForAccount, IsFor, WrittenFor, All-append, All-remove, All-weaken, owner_kept, add-owned,
  conns_of-owned, kept_messages, addressed, sent-owned, sent-bounded, sent-unused, assigned-owned,
  wrote-owned, taken-bounded, taken-unused,
}

pub record Inv (cap : ℕ) (h : Hub) : Type 0 where
  pub capacity : h.config.send_buffer ≡ cap
  pub conns_owned : All (λ e. OwnedBy h.owner h.next e.0 e.1) h.conns
  pub pending_addressed :
      All (λ (d : Delivery). (h.owner d.to ≡ d.message.account_id) × (d.to < h.next)) h.pending
  pub farewells_bounded : All (λ (g : Goodbye). g.to < h.next) h.farewells
  pub queue_owned : (c : ℕ) → ForAccount (h.owner c) (h.queue c)
  pub written_owned : (c : ℕ) → WrittenFor (h.owner c) (h.written c)
  pub queue_bounded : (c : ℕ) → length (h.queue c) ≤ cap
  pub unused : (c : ℕ) → h.next ≤ c → (h.queue c ≡ []) × (h.written c ≡ [])

pub new-Inv : (cfg : HubConfig) → Inv (or_default cfg.send_buffer 32) (new_in_memory_hub cfg)
unfolding new_in_memory_hub
new-Inv cfg = record {
  capacity = refl;
  conns_owned = tt;
  pending_addressed = tt;
  farewells_bounded = tt;
  queue_owned = λ c. tt;
  written_owned = λ c. tt;
  queue_bounded = λ c. omega arith;
  unused = λ c h. (refl, refl);
}

pub registers-Inv :
    (cap : ℕ) (h : Hub) (account : Text) → Inv cap h → Inv cap (register_conn h account)
unfolding register_conn
registers-Inv cap h account inv = record {
  capacity = inv.capacity;
  conns_owned = add-owned h.owner h.next account h.conns inv.conns_owned;
  pending_addressed =
      All-weaken (λ (d : Delivery). (h.owner d.to ≡ d.message.account_id) × (d.to < h.next))
        (λ d. (assign h.owner h.next account d.to ≡ d.message.account_id) × (d.to < suc h.next))
        h.pending (λ d. owner_kept h.owner h.next account d.message.account_id d.to)
        inv.pending_addressed;
  farewells_bounded =
      All-weaken (λ (g : Goodbye). g.to < h.next) (λ (g : Goodbye). g.to < suc h.next) h.farewells
        (λ g k. omega arith) inv.farewells_bounded;
  queue_owned = λ c.
      kept_messages (λ a (m : Message). m.account_id ≡ a) h.owner h.next account c (h.queue c)
        (inv.queue_owned c) (λ k. (inv.unused c k).0);
  written_owned = λ c.
      kept_messages IsFor h.owner h.next account c (h.written c) (inv.written_owned c)
        (λ k. (inv.unused c k).1);
  queue_bounded = inv.queue_bounded;
  unused = λ c k. inv.unused c (omega arith);
}

pub publishes-Inv :
    (cap : ℕ) (h : Hub) (account payload : Text) → Inv cap h → Inv cap (publish h account payload)
unfolding publish
publishes-Inv cap h account payload inv = record {
  capacity = inv.capacity;
  conns_owned = inv.conns_owned;
  pending_addressed =
      All-append (λ (d : Delivery). (h.owner d.to ≡ d.message.account_id) × (d.to < h.next))
        h.pending _ inv.pending_addressed
        (addressed h.owner h.next account payload (conns_of account h.conns)
          (conns_of-owned h.owner h.next account h.conns inv.conns_owned));
  farewells_bounded = inv.farewells_bounded;
  queue_owned = inv.queue_owned;
  written_owned = inv.written_owned;
  queue_bounded = inv.queue_bounded;
  unused = inv.unused;
}

pub delivers-Inv :
    (cap : ℕ) (h : Hub) (before after : List Delivery) (d : Delivery)
    → h.pending ≡ before ++ d ∷ after
    → Inv cap h
    → Inv cap (deliver h d (before ++ after))
unfolding deliver
delivers-Inv cap h before after d e inv =
    let Addressed : Delivery → Type 0 =
      λ x. (h.owner x.to ≡ x.message.account_id) × (x.to < h.next) in
    let taken =
      All-remove Addressed before d after (subst (All Addressed) e inv.pending_addressed) in
    record {
      capacity = inv.capacity;
      conns_owned = inv.conns_owned;
      pending_addressed = taken.1;
      farewells_bounded = inv.farewells_bounded;
      queue_owned = λ c.
          sent-owned h.owner h.queue h.config.send_buffer d.to d.message taken.0.0 inv.queue_owned
            c;
      written_owned = inv.written_owned;
      queue_bounded = λ c.
          sent-bounded h.queue h.config.send_buffer cap d.to d.message inv.capacity c
            (inv.queue_bounded c);
      unused = λ c k. (
        sent-unused h.queue h.config.send_buffer h.next d c taken.0.1 k (inv.unused c k).0,
        (inv.unused c k).1,
      );
    }

pub writes-Inv :
    (cap : ℕ) (h : Hub) (c : ℕ) (m : Message) (rest : List Message) (write_ok : Bool)
    → h.queue c ≡ m ∷ rest
    → Inv cap h
    → Inv cap (write_one h c m rest write_ok)
unfolding write_one
writes-Inv cap h c m rest write_ok e inv =
    let taken : ForAccount (h.owner c) (m ∷ rest) =
      subst (ForAccount (h.owner c)) e (inv.queue_owned c) in
    record {
      capacity = inv.capacity;
      conns_owned = inv.conns_owned;
      pending_addressed = inv.pending_addressed;
      farewells_bounded = inv.farewells_bounded;
      queue_owned = λ d.
          assigned-owned (λ a (x : Message). x.account_id ≡ a) h.owner h.queue c rest taken.1 d
            (inv.queue_owned d);
      written_owned =
          λ d. wrote-owned h.owner h.written c (event m) write_ok taken.0 d inv.written_owned;
      queue_bounded = λ d. taken-bounded h.queue cap c m rest e d inv.queue_bounded;
      unused = λ d k. taken-unused h c m rest write_ok e d (inv.unused d k);
    }
