-- ===== src/Auth/OauthState/Pending.antt =====
-- The specification of the OAuth states: a map of pending sign-ins, and what a call may do to it.
use agenthub_server.Base.{
  Text, ◌==◌, ◌≡◌, ℕ, ◌≤◌, ◌<◌, ◌*◌, Option, none, some, find, if◌then◌else◌,
}
use agenthub_server.Schema.{Database, OauthStateRow}
use agenthub_server.World.{
  Env, World, Outcome, ok, err, token_not_found, token_expired, world_of, second, seconds_after,
}
use agenthub_server.Auth.OauthState.{
  OauthStateInput, OauthState, create_oauth_state, consume_oauth_state, state_with, scan_state,
}

-- A pending sign-in, with the second at which it expires.
pub record Pending : Type 0 where
  pub state : OauthState
  pub expires_at : ℕ

-- The abstract view: what is pending under each state.
abbrev pub View : Type 0
View = Text → Option Pending

abbrev pub pending_row : OauthStateRow → Option Pending
pending_row r = elim r.consumed_at [
  | none ↦ some (record { state = scan_state r; expires_at = r.expires_at })
  | some t ↦ none
]

abbrev pub pending_of : Option OauthStateRow → Option Pending
pending_of none = none
pending_of (some r) = pending_row r

unfoldable pub view : Database → View
view d s = pending_of (find (state_with s) d.oauth_states)

-- The view with another entry under s
abbrev pub put : View → Text → Option Pending → View
put v s p t = if s == t then p else v t

-- What a call tells its caller.
pub data Event : Type 0 where
  created : Text → Pending → Event
  taken : Text → OauthState → Event
  unknown : Text → Event
  expired : Text → Event
  failed : Event

-- The specification: when an event may happen at a time, and what it does to the view.
abbrev pub Allows : ℕ → View → Event → View → Type 0
Allows now v (created s p) v' = (v s ≡ none) × (v' ≡ put v s (some p))
Allows now v (taken s g) v' =
    (p : Pending) × (v s ≡ some p)
    × (p.state ≡ g)
    × (now ≤ p.expires_at * second)
    × (v' ≡ put v s none)
Allows now v (unknown s) v' = (v s ≡ none) × (v' ≡ v)
Allows now v (expired s) v' =
    (p : Pending) × (v s ≡ some p) × (p.expires_at * second < now) × (v' ≡ v)
Allows now v failed v' = v' ≡ v

pub data Call : Type 0 where
  create : OauthStateInput → Call
  consume : Text → Call

abbrev pub created_event : OauthStateInput → World → Outcome Text → Event
created_event i w (ok s w') = created s (record {
  state = record { provider = i.provider; redirect_uri = i.redirect_uri };
  expires_at = seconds_after w i.ttl;
})
created_event i w (err e w') = failed

abbrev pub taken_event : Text → Outcome OauthState → Event
taken_event s (ok g w') = taken s g
taken_event s (err token_not_found w') = unknown s
taken_event s (err token_expired w') = expired s
taken_event s (err e w') = failed

unfoldable pub event : Env → Call → World → Event
event env (create i) w = created_event i w (create_oauth_state env i w)
event env (consume s) w = taken_event s (consume_oauth_state s w)

unfoldable pub after : Env → Call → World → World
after env (create i) w = world_of (create_oauth_state env i w)
after env (consume s) w = world_of (consume_oauth_state s w)
