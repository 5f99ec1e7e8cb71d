-- ===== src/Realtime/Owned.antt =====
-- The lists of the hub: whose connections a set has, and whose messages a channel.
use agenthub_server.Base.{
  Text, ◌==◌, ==_iff, ℕ, suc, ◌≤◌, ◌<◌, ◌≡◌, sym, subst, Bool, true, false, List, [], ◌∷◌, ◌++◌,
  map, All, length, length-append, arith, eqb, ltb, if◌then◌else◌, Bool-cases, inl, inr,
}
use agenthub_server.Realtime.{
  Hub, Message, Frame, Goodbye, event, reconnect, Delivery, all_conns, assign, add_conn, conns_of,
  try_send, write_one, without_conn, put_set, remove_conn,
}

-- The connections of a set belong to the account and exist.
abbrev pub OwnedBy : (ℕ → Text) → ℕ → Text → List ℕ → Type 0
OwnedBy owner bound account = All (λ c. (owner c ≡ account) × (c < bound))

-- The messages are for the account.
abbrev pub ForAccount : Text → List Message → Type 0
ForAccount account = All (λ m. m.account_id ≡ account)

-- An event on a socket is of the account.
abbrev pub IsFor : Text → Frame → Type 0
IsFor account (event m) = m.account_id ≡ account
IsFor account reconnect = Unit

abbrev pub WrittenFor : Text → List Frame → Type 0
WrittenFor account = All (IsFor account)

pub All-append {ℓ κ} :
    {A : Type ℓ} (P : A → Type κ) (xs ys : List A) → All P xs → All P ys → All P (xs ++ ys)
All-append P [] ys hx hy = hy
All-append P (x ∷ xs) ys hx hy = (hx.0, All-append P xs ys hx.1 hy)

pub All-remove {ℓ κ} :
    {A : Type ℓ} (P : A → Type κ) (xs : List A) (y : A) (ys : List A)
    → All P (xs ++ y ∷ ys)
    → P y × All P (xs ++ ys)
All-remove P [] y ys h = (h.0, h.1)
All-remove P (x ∷ xs) y ys h = let r = All-remove P xs y ys h.1 in (r.0, (h.0, r.1))

pub All-weaken {ℓ κ} :
    {A : Type ℓ} (P Q : A → Type κ) (xs : List A) → ((x : A) → P x → Q x) → All P xs → All Q xs
All-weaken P Q [] f h = tt
All-weaken P Q (x ∷ xs) f h = (f x h.0, All-weaken P Q xs f h.1)

-- A connection that is there keeps its owner when the bound one is registered.
pub owner_kept :
    (owner : ℕ → Text) (bound : ℕ) (account a : Text) (c : ℕ)
    → (owner c ≡ a) × (c < bound)
    → (assign owner bound account c ≡ a) × (c < suc bound)
owner_kept owner bound account a c h = ground arith

pub kept_set :
    (owner : ℕ → Text) (bound : ℕ) (account a : Text) (set : List ℕ)
    → OwnedBy owner bound a set
    → OwnedBy (assign owner bound account) (suc bound) a set
kept_set owner bound account a set =
    All-weaken (λ c. (owner c ≡ a) × (c < bound))
      (λ c. (assign owner bound account c ≡ a) × (c < suc bound)) set
      (owner_kept owner bound account a)

pub kept_conns :
    (owner : ℕ → Text) (bound : ℕ) (account : Text) (conns : List (Text × List ℕ))
    → All (λ e. OwnedBy owner bound e.0 e.1) conns
    → All (λ e. OwnedBy (assign owner bound account) (suc bound) e.0 e.1) conns
kept_conns owner bound account conns =
    All-weaken (λ e. OwnedBy owner bound e.0 e.1)
      (λ e. OwnedBy (assign owner bound account) (suc bound) e.0 e.1) conns
      (λ e. kept_set owner bound account e.0 e.1)

pub assigned :
    (owner : ℕ → Text) (bound : ℕ) (account a : Text)
    → a ≡ account
    → assign owner bound account bound ≡ a
assigned owner bound account a h = ground arith

pub add-owned :
    (owner : ℕ → Text) (bound : ℕ) (account : Text) (conns : List (Text × List ℕ))
    → All (λ e. OwnedBy owner bound e.0 e.1) conns
    → All
        (λ e. OwnedBy (assign owner bound account) (suc bound) e.0 e.1)
        (add_conn account bound conns)
unfolding add_conn
add-owned owner bound account [] h = ((ground arith, tt), tt)
add-owned owner bound account ((a, set) ∷ conns) h = elim (Bool-cases (a == account)) [
  | inl same ↦ rw same (
    (
      (assigned owner bound account a ((==_iff a account).0 same), omega arith),
      kept_set owner bound account a set h.0,
    ),
    kept_conns owner bound account conns h.1,
  )
  | inr other ↦
      rw other (kept_set owner bound account a set h.0, add-owned owner bound account conns h.1)
]

pub conns_of-owned :
    (owner : ℕ → Text) (bound : ℕ) (account : Text) (conns : List (Text × List ℕ))
    → All (λ e. OwnedBy owner bound e.0 e.1) conns
    → OwnedBy owner bound account (conns_of account conns)
unfolding conns_of
conns_of-owned owner bound account [] h = tt
conns_of-owned owner bound account ((a, set) ∷ conns) h = elim (Bool-cases (a == account)) [
  | inl same ↦ rw same (subst (λ b. OwnedBy owner bound b set) ((==_iff a account).0 same) h.0)
  | inr other ↦ rw other (conns_of-owned owner bound account conns h.1)
]

pub without-owned :
    (owner : ℕ → Text) (bound : ℕ) (account : Text) (c : ℕ) (set : List ℕ)
    → OwnedBy owner bound account set
    → OwnedBy owner bound account (without_conn c set)
unfolding without_conn
without-owned owner bound account c [] h = tt
without-owned owner bound account c (d ∷ set) h = elim (Bool-cases (eqb d c)) [
  | inl gone ↦ rw gone (without-owned owner bound account c set h.1)
  | inr kept ↦ rw kept (h.0, without-owned owner bound account c set h.1)
]

pub put-owned :
    (owner : ℕ → Text) (bound : ℕ) (a : Text) (set : List ℕ) (conns : List (Text × List ℕ))
    → OwnedBy owner bound a set
    → All (λ e. OwnedBy owner bound e.0 e.1) conns
    → All (λ e. OwnedBy owner bound e.0 e.1) (put_set a set conns)
put-owned owner bound a [] conns h k = k
put-owned owner bound a (c ∷ set) conns h k = (h, k)

pub remove-owned :
    (owner : ℕ → Text) (bound : ℕ) (account : Text) (c : ℕ) (conns : List (Text × List ℕ))
    → All (λ e. OwnedBy owner bound e.0 e.1) conns
    → All (λ e. OwnedBy owner bound e.0 e.1) (remove_conn account c conns)
unfolding remove_conn
remove-owned owner bound account c [] h = tt
remove-owned owner bound account c ((a, set) ∷ conns) h = elim (Bool-cases (a == account)) [
  | inl same ↦ rw same (
      put-owned owner bound a (without_conn c set) conns (without-owned owner bound a c set h.0)
        h.1)
  | inr other ↦ rw other (h.0, remove-owned owner bound account c conns h.1)
]

pub kept_messages :
    {A : Type 0} (P : Text → A → Type 0) (owner : ℕ → Text) (bound : ℕ) (account : Text) (c : ℕ)
    (ms : List A)
    → All (P (owner c)) ms
    → (bound ≤ c → ms ≡ [])
    → All (P (assign owner bound account c)) ms
kept_messages P owner bound account c ms h unused = elim (Bool-cases (eqb bound c)) [
  | inl same ↦ subst (All (P (assign owner bound account c))) (sym (unused (ground arith))) tt
  | inr other ↦ rw other h
]

pub addressed :
    (owner : ℕ → Text) (bound : ℕ) (account payload : Text) (set : List ℕ)
    → OwnedBy owner bound account set
    → All
        (λ (d : Delivery). (owner d.to ≡ d.message.account_id) × (d.to < bound))
        (map
          (λ (c : ℕ). record {
            to = c;
            message = record { account_id = account; payload = payload };
          })
          set)
addressed owner bound account payload [] h = tt
addressed owner bound account payload (c ∷ set) h =
    (h.0, addressed owner bound account payload set h.1)

pub try_send-owned :
    (account : Text) (cap : ℕ) (ch : List Message) (m : Message)
    → m.account_id ≡ account
    → ForAccount account ch
    → ForAccount account (try_send cap ch m)
try_send-owned account cap ch m hm h = elim (Bool-cases (ltb (length ch) cap)) [
  | inl room ↦ rw room (All-append (λ x. x.account_id ≡ account) ch (m ∷ []) h (hm, tt))
  | inr full ↦ rw full h
]

pub sent-owned :
    (owner : ℕ → Text) (queue : ℕ → List Message) (cap to : ℕ) (m : Message)
    → owner to ≡ m.account_id
    → ((c : ℕ) → ForAccount (owner c) (queue c))
    → (c : ℕ) → ForAccount (owner c) (assign queue to (try_send cap (queue to) m) c)
sent-owned owner queue cap to m hm h c = elim (Bool-cases (eqb to c)) [
  | inl same ↦ rw same (
      let there : to ≡ c = ground arith in
      try_send-owned (owner c) cap (queue to) m (subst (λ x. m.account_id ≡ owner x) there (sym hm))
        (subst (λ x. ForAccount (owner x) (queue to)) there (h to)))
  | inr other ↦ rw other (h c)
]

pub sent-bounded :
    (queue : ℕ → List Message) (buffer cap to : ℕ) (m : Message)
    → buffer ≡ cap
    → (c : ℕ) → length (queue c) ≤ cap
    → length (assign queue to (try_send buffer (queue to) m) c) ≤ cap
sent-bounded queue buffer cap to m e c h =
    let grown = length-append (queue to) (m ∷ []) in ground arith

pub sent-unused :
    (queue : ℕ → List Message) (cap bound : ℕ) (d : Delivery) (c : ℕ)
    → d.to < bound
    → bound ≤ c
    → queue c ≡ []
    → assign queue d.to (try_send cap (queue d.to) d.message) c ≡ []
sent-unused queue cap bound d c lt k e = ground arith

pub assigned-owned :
    {A : Type 0} (P : Text → A → Type 0) (owner : ℕ → Text) (queue : ℕ → List A) (c : ℕ)
    (ms : List A)
    → All (P (owner c)) ms
    → (d : ℕ) → All (P (owner d)) (queue d)
    → All (P (owner d)) (assign queue c ms d)
assigned-owned P owner queue c ms h d k = elim (Bool-cases (eqb c d)) [
  | inl same ↦
      rw same (let there : c ≡ d = ground arith in subst (λ x. All (P (owner x)) ms) there h)
  | inr other ↦ rw other k
]

pub wrote-owned :
    (owner : ℕ → Text) (written : ℕ → List Frame) (c : ℕ) (f : Frame) (write_ok : Bool)
    → IsFor (owner c) f
    → (d : ℕ) → ((x : ℕ) → WrittenFor (owner x) (written x))
    → WrittenFor
        (owner d)
        ((if write_ok then assign written c (written c ++ f ∷ []) else written) d)
wrote-owned owner written c f true hf d k =
    assigned-owned IsFor owner written c (written c ++ f ∷ [])
      (All-append (IsFor (owner c)) (written c) (f ∷ []) (k c) (hf, tt)) d (k d)
wrote-owned owner written c f false hf d k = k d

pub wrote-unused :
    (written : ℕ → List Frame) (bound c : ℕ) (f : Frame) (write_ok : Bool)
    → c < bound
    → (d : ℕ) → bound ≤ d
    → written d ≡ []
    → (if write_ok then assign written c (written c ++ f ∷ []) else written) d ≡ []
wrote-unused written bound c f write_ok lt d k e = ground arith

-- The connections that are parted with exist.
pub all_conns-bounded :
    (owner : ℕ → Text) (bound : ℕ) (conns : List (Text × List ℕ))
    → All (λ e. OwnedBy owner bound e.0 e.1) conns
    → All (λ c. c < bound) (all_conns conns)
all_conns-bounded owner bound [] h = tt
all_conns-bounded owner bound ((a, set) ∷ conns) h =
    All-append (λ c. c < bound) set (all_conns conns)
      (All-weaken (λ c. (owner c ≡ a) × (c < bound)) (λ c. c < bound) set (λ c k. k.1) h.0)
      (all_conns-bounded owner bound conns h.1)

pub parted-bounded :
    (announced : Bool) (bound : ℕ) (set : List ℕ)
    → All (λ c. c < bound) set
    → All
        (λ (g : Goodbye). g.to < bound)
        (map (λ (c : ℕ). record { to = c; announced = announced }) set)
parted-bounded announced bound [] h = tt
parted-bounded announced bound (c ∷ set) h = (h.0, parted-bounded announced bound set h.1)

pub taken-bounded :
    (queue : ℕ → List Message) (cap c : ℕ) (m : Message) (rest : List Message)
    → queue c ≡ m ∷ rest
    → (d : ℕ) → ((x : ℕ) → length (queue x) ≤ cap)
    → length (assign queue c rest d) ≤ cap
taken-bounded queue cap c m rest e d k =
    let here : length (m ∷ rest) ≤ cap = subst (λ q. length q ≤ cap) e (k c) in
    let there = k d in ground arith

pub taken-unused :
    (h : Hub) (c : ℕ) (m : Message) (rest : List Message) (write_ok : Bool)
    → h.queue c ≡ m ∷ rest
    → (d : ℕ) → (h.queue d ≡ []) × (h.written d ≡ [])
    → ((write_one h c m rest write_ok).queue d ≡ [])
      × ((write_one h c m rest write_ok).written d ≡ [])
unfolding write_one
taken-unused h c m rest write_ok e d k = ground arith
