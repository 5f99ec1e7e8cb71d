-- ===== src/Realtime/Farewell.antt =====
-- What Close and BroadcastReconnect do to the connections.
use agenthub_server.Base.{
  has-append, ◌==◌, Text, ℕ, ◌≡◌, refl, sym, subst, Bool, true, false, List, [], ◌∷◌, ◌++◌, ◌⊎◌,
  inl, inr, map, arith, eqb, has, Bool-cases,
}
use agenthub_server.Realtime.{
  Hub, Goodbye, assign, conns_of, all_conns, goodbyes, register_conn, publish, deliver, write_one,
  skip_one, ping_one, stop_writer, stop_heartbeat, deregister, close, broadcast_reconnect,
  part_with,
}
use agenthub_server.Realtime.Steps.{
  HubStep, registers, publishes, delivers, writes, skips, writer_returns, pings, heartbeat_returns,
  deregisters, closes, broadcasts, parts, HubSteps, unmoved, moved,
}

abbrev is_to : ℕ → Goodbye → Bool
is_to c g = eqb c g.to

-- The socket is closed, or is about to be.
abbrev IsParting : ℕ → Hub → Type 0
IsParting c h = (h.socket_closed c ≡ true) ⊎ (has (is_to c) h.farewells ≡ true)

-- Without an element that the test refuses, a list passes as before.
has-remove :
    {A : Type 0} (t : A → Bool) (xs : List A) (y : A) (ys : List A)
    → t y ≡ false
    → has t (xs ++ y ∷ ys) ≡ true
    → has t (xs ++ ys) ≡ true
unfolding has
has-remove t xs y ys refused h =
    ground (arith, refused, has-append t xs (y ∷ ys), has-append t xs ys)

has-goodbye :
    (announced : Bool) (c : ℕ) (set : List ℕ)
    → has (eqb c) set ≡ true
    → has (is_to c) (map (λ (d : ℕ). record { to = d; announced = announced }) set) ≡ true
unfolding has
has-goodbye announced c [] h = h
has-goodbye announced c (d ∷ set) h = elim (Bool-cases (eqb c d)) [
  | inl here ↦ rw here refl
  | inr other ↦ rw other (has-goodbye announced c set (ground (arith, other)))
]

assigned-closed : (f : ℕ → Bool) (d c : ℕ) → f c ≡ true → assign f d true c ≡ true
assigned-closed f d c h = ground arith

-- Closing another socket too
closed_too :
    (c d : ℕ) (h : Hub)
    → IsParting c h
    → (assign h.socket_closed d true c ≡ true) ⊎ (has (is_to c) h.farewells ≡ true)
closed_too c d h (inl done) = inl (assigned-closed h.socket_closed d c done)
closed_too c d h (inr waits) = inr waits

-- More farewells change nothing for a connection that is parting.
said-IsParting :
    (c : ℕ) (closed : Bool) (gs more : List Goodbye)
    → (closed ≡ true) ⊎ (has (is_to c) gs ≡ true)
    → (closed ≡ true) ⊎ (has (is_to c) (gs ++ more) ≡ true)
said-IsParting c closed gs more h = ground (arith, has-append (is_to c) gs more)

parts-IsParting :
    (c : ℕ) (h : Hub) (before after : List Goodbye) (g : Goodbye) (write_ok : Bool)
    → h.farewells ≡ before ++ g ∷ after
    → IsParting c h
    → IsParting c (part_with h g (before ++ after) write_ok)
unfolding part_with
parts-IsParting c h before after g write_ok e (inl done) =
    inl (assigned-closed h.socket_closed g.to c done)
parts-IsParting c h before after g write_ok e (inr waits) = elim (Bool-cases (is_to c g)) [
  | inl here ↦ inl (ground arith)
  | inr other ↦
      inr (has-remove (is_to c) before g after other (subst (λ x. has (is_to c) x ≡ true) e waits))
]

step-IsParting : (c : ℕ) (h h' : Hub) → HubStep h h' → IsParting c h → IsParting c h'
unfolding register_conn publish deliver write_one skip_one stop_writer ping_one stop_heartbeat
    deregister close broadcast_reconnect
step-IsParting c h h' (registers account e) parting = subst (IsParting c) (sym e) parting
step-IsParting c h h' (publishes account payload e) parting = subst (IsParting c) (sym e) parting
step-IsParting c h h' (delivers before after d p e) parting = subst (IsParting c) (sym e) parting
step-IsParting c h h' (writes d m rest true on q e) parting = subst (IsParting c) (sym e) parting
step-IsParting c h h' (writes d m rest false on q e) parting =
    subst (IsParting c) (sym e) (closed_too c d h parting)
step-IsParting c h h' (skips d m rest on q e) parting = subst (IsParting c) (sym e) parting
step-IsParting c h h' (writer_returns d why e) parting = subst (IsParting c) (sym e) parting
step-IsParting c h h' (pings d true on e) parting = subst (IsParting c) (sym e) parting
step-IsParting c h h' (pings d false on e) parting =
    subst (IsParting c) (sym e) (closed_too c d h parting)
step-IsParting c h h' (heartbeat_returns d e) parting = subst (IsParting c) (sym e) parting
step-IsParting c h h' (deregisters d there once e) parting = subst (IsParting c) (sym e) parting
step-IsParting c h h' (closes e) parting =
    subst (IsParting c) (sym e)
      (said-IsParting c (h.socket_closed c) h.farewells (goodbyes false h.conns) parting)
step-IsParting c h h' (broadcasts e) parting =
    subst (IsParting c) (sym e)
      (said-IsParting c (h.socket_closed c) h.farewells (goodbyes true h.conns) parting)
step-IsParting c h h' (parts before after g write_ok p e) parting =
    subst (IsParting c) (sym e) (parts-IsParting c h before after g write_ok p parting)

steps-IsParting : (c : ℕ) (h : Hub) → IsParting c h → {h' : Hub} → HubSteps h h' → IsParting c h'
steps-IsParting c h parting unmoved = parting
steps-IsParting c h parting (moved {u} {v} steps step) =
    step-IsParting c u v step (steps-IsParting c h parting steps)

-- A connection of an account is one of all connections.
has-all_conns :
    (account : Text) (c : ℕ) (conns : List (Text × List ℕ))
    → has (eqb c) (conns_of account conns) ≡ true
    → has (eqb c) (all_conns conns) ≡ true
unfolding conns_of
has-all_conns account c [] h = h
has-all_conns account c ((a, set) ∷ conns) h = elim (Bool-cases (a == account)) [
  | inl same ↦ ground (arith, same, has-append (eqb c) set (all_conns conns))
  | inr other ↦
      let rest = has-all_conns account c conns (ground (arith, other)) in
      ground (arith, rest, has-append (eqb c) set (all_conns conns))
]

said_to :
    (announced : Bool) (account : Text) (c : ℕ) (h : Hub)
    → has (eqb c) (conns_of account h.conns) ≡ true
    → has (is_to c) (h.farewells ++ goodbyes announced h.conns) ≡ true
said_to announced account c h there =
    let said =
      has-goodbye announced c (all_conns h.conns) (has-all_conns account c h.conns there) in
    ground (arith, said, has-append (is_to c) h.farewells (goodbyes announced h.conns))

begun_lem :
    (h start : Hub) (account : Text) (c : ℕ)
    → (start ≡ close h) ⊎ (start ≡ broadcast_reconnect h)
    → has (eqb c) (conns_of account h.conns) ≡ true
    → IsParting c start
unfolding close broadcast_reconnect
begun_lem h start account c (inl e) there =
    subst (IsParting c) (sym e) (inr (said_to false account c h there))
begun_lem h start account c (inr e) there =
    subst (IsParting c) (sym e) (inr (said_to true account c h there))

over_lem : (c : ℕ) (h : Hub) → h.farewells ≡ [] → IsParting c h → h.socket_closed c ≡ true
unfolding has
over_lem c h over (inl closed) = closed
over_lem c h over (inr waits) =
    let never : false ≡ true = subst (λ x. has (is_to c) x ≡ true) over waits in ground arith

-- From a Close or a BroadcastReconnect on, whatever the goroutines of the hub do in between: once
-- every farewell has been said, the socket of each connection that was registered at that call is
-- closed.
pub farewell_closes :
    (h start : Hub) (account : Text) (c : ℕ)
    → (start ≡ close h) ⊎ (start ≡ broadcast_reconnect h)
    → has (eqb c) (conns_of account h.conns) ≡ true
    → {h' : Hub} → HubSteps start h'
    → h'.farewells ≡ []
    → h'.socket_closed c ≡ true
farewell_closes h start account c call there {h'} steps over =
    over_lem c h' over (steps-IsParting c start (begun_lem h start account c call there) steps)
