-- ===== src/Api/Sessions/Rows.antt =====
-- The rows of the agent sessions before and after a request: what is kept and what is added.
use agenthub_server.Base.{
  Text, ◌==◌, ◌≡◌, refl, sym, subst, Bool, true, false, ◌&&◌, Option, none, some, List, [], ◌∷◌,
  ◌⊎◌, inl, inr, arith, find, update, ==_iff, Bool-cases, find-update, find_test, ap, ◌∙◌,
  if◌then◌else◌,
}
use agenthub_server.Schema.{AgentSessionRow}
use agenthub_server.World.{World}
use agenthub_server.AgentSessions.{agent_session_with}
use agenthub_server.Auth.Middleware.{Identity}

abbrev pub is_own_row : Identity → AgentSessionRow → Bool
is_own_row c r = r.account_id == c.account_id && r.device_id == c.device_id

-- A session of another account or another device is as it was.
abbrev pub KeepsOthers : Identity → List AgentSessionRow → List AgentSessionRow → Type 0
KeepsOthers c rows rows' =
    (i : Text) (r : AgentSessionRow)
    → find (agent_session_with i) rows ≡ some r
    → is_own_row c r ≡ false
    → find (agent_session_with i) rows' ≡ some r

-- What is new or other than before is a session of the caller's account and device.
abbrev pub AddsOwn : Identity → List AgentSessionRow → List AgentSessionRow → Type 0
AddsOwn c rows rows' =
    (i : Text) (r : AgentSessionRow)
    → find (agent_session_with i) rows' ≡ some r
    → (find (agent_session_with i) rows ≡ some r) ⊎ (is_own_row c r ≡ true)

-- Both, of the rows before and after a request
abbrev pub Keeps : Identity → List AgentSessionRow → List AgentSessionRow → Type 0
Keeps c rows rows' = KeepsOthers c rows rows' × AddsOwn c rows rows'

pub others_same :
    (c : Identity) (rows rows' : List AgentSessionRow) → rows' ≡ rows → Keeps c rows rows'
others_same c rows rows' same =
    ((λ i r there other. rw same there), (λ i r there. inl (rw (sym same) there)))

-- Updating rows of the id of an own session leaves what the id of another one selects.
update-other :
    (p : AgentSessionRow → Bool) (f : AgentSessionRow → AgentSessionRow) (id i : Text)
    (rows : List AgentSessionRow) (r : AgentSessionRow)
    → (i == id) ≡ false
    → find (agent_session_with i) rows ≡ some r
    → ((x : AgentSessionRow) → (f x).id ≡ x.id)
    → ((x : AgentSessionRow) → p x ≡ true → (x.id == id) ≡ true)
    → find (agent_session_with i) (update p f rows) ≡ some r
unfolding find update
update-other p f id i [] r differ there keeps narrow = ground arith
update-other p f id i (x ∷ rows) r differ there keeps narrow =
    ground
      (arith, keeps x, narrow x, ==_iff x.id i, ==_iff x.id id, update-other p f id i rows r differ)

other_id :
    (c : Identity) (rows : List AgentSessionRow) (id i : Text) (r own : AgentSessionRow)
    → find (agent_session_with id) rows ≡ some own
    → is_own_row c own ≡ true
    → find (agent_session_with i) rows ≡ some r
    → is_own_row c r ≡ false
    → (i == id) ≡ false
other_id c rows id i r own found_own is_own there other = elim (Bool-cases (i == id)) [
  | inl same ↦
      (let e = (==_iff i id).0 same in
        let both = subst (λ j. find (agent_session_with j) rows ≡ some r) e there in
        ground (arith, both, found_own, is_own, other))
  | inr differ ↦ differ
]

-- An update of rows of an own session's id adds nothing else.
update-AddsOwn :
    (c : Identity) (p : AgentSessionRow → Bool) (f : AgentSessionRow → AgentSessionRow) (id : Text)
    (rows : List AgentSessionRow) (own : AgentSessionRow)
    → ((x : AgentSessionRow) → (f x).id ≡ x.id)
    → ((x : AgentSessionRow) → is_own_row c (f x) ≡ is_own_row c x)
    → ((x : AgentSessionRow) → p x ≡ true → (x.id == id) ≡ true)
    → find (agent_session_with id) rows ≡ some own
    → is_own_row c own ≡ true
    → AddsOwn c rows (update p f rows)
update-AddsOwn c p f id rows own keeps owner narrow there is_own i r now_there =
    by_old (find (agent_session_with i) rows) refl
  where
    selected :
        find (agent_session_with i) (update p f rows) ≡ (elim (find (agent_session_with i) rows) [
          | none ↦ none
          | some x ↦ some (if p x then f x else x)
        ])
    selected = find-update p (agent_session_with i) f rows (λ x. ap (λ n. n == i) (keeps x))

    by_old :
        (o : Option AgentSessionRow)
        → find (agent_session_with i) rows ≡ o
        → (find (agent_session_with i) rows ≡ some r) ⊎ (is_own_row c r ≡ true)
    by_old none e = let gone = selected in ground (arith, gone, e, now_there)
    by_old (some x) e = elim (Bool-cases (p x)) [
      | inr other ↦ (let kept = selected in inl (ground (arith, kept, e, now_there, other)))
      | inl reached ↦
          (let changed = selected in
            let made : f x ≡ r = ground (arith, changed, e, now_there, reached) in
            let x_id : x.id ≡ id = (==_iff x.id id).0 (narrow x reached) in
            let x_i : x.id ≡ i = (==_iff x.id i).0 (find_test (agent_session_with i) rows e) in
            let here : find (agent_session_with id) rows ≡ some x =
              subst (λ n. find (agent_session_with n) rows ≡ some x) (sym x_i ∙ x_id) e in
            let same : own ≡ x = ground (arith, here, there) in
            inr (
              subst (λ z. is_own_row c z ≡ true) made
                (owner x ∙ subst (λ z. is_own_row c z ≡ true) same is_own)))
    ]

-- Either no row changes, or the rows of an own session's id do.
pub update-Keeps :
    (c : Identity) (w : World) (p : AgentSessionRow → Bool) (f : AgentSessionRow → AgentSessionRow)
    (id : Text) (rows : List AgentSessionRow) (own : AgentSessionRow)
    → ((x : AgentSessionRow) → (f x).id ≡ x.id)
    → ((x : AgentSessionRow) → is_own_row c (f x) ≡ is_own_row c x)
    → ((x : AgentSessionRow) → p x ≡ true → (x.id == id) ≡ true)
    → find (agent_session_with id) w.db.agent_sessions ≡ some own
    → (rows ≡ w.db.agent_sessions)
      ⊎ ((is_own_row c own ≡ true) × (rows ≡ update p f w.db.agent_sessions))
    → Keeps c w.db.agent_sessions rows
update-Keeps c w p f id rows own keeps owner narrow there (inl same) =
    others_same c w.db.agent_sessions rows same
update-Keeps c w p f id rows own keeps owner narrow there (inr (is_own, updated)) = (
  (λ i r there_r other. rw updated (
      update-other p f id i w.db.agent_sessions r
        (other_id c w.db.agent_sessions id i r own there is_own there_r other) there_r keeps
        narrow)),
  subst (AddsOwn c w.db.agent_sessions) (sym updated)
      (update-AddsOwn c p f id w.db.agent_sessions own keeps owner narrow there is_own),
)
