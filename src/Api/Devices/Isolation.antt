-- ===== src/Api/Devices/Isolation.antt =====
-- The device endpoints leave the devices of other accounts alone.
use agenthub_server.Base.{
  Text, ◌==◌, ◌≡◌, refl, sym, ap, subst, true, false, Option, none, some, List, [], ◌∷◌, ◌⊎◌, inl,
  inr, arith, find, update, ==_iff, Bool-cases,
}
use agenthub_server.Schema.{DeviceRow}
use agenthub_server.Schema.Inserts.{insert_pair_code}
use agenthub_server.World.{
  World, Env, Outcome, world_of, seconds_now, query, query_row, exec, exec_update, ok, err,
}
use agenthub_server.Auth.Jwt.{JwtSigner, parse}
use agenthub_server.Auth.Sessions.{check_session_active}
use agenthub_server.Auth.ApiTokens.{touch_api_token, lookup_api_token}
use agenthub_server.Devices.{
  issue_pair_code, live_device, get_device_by_id, list_devices_for_account, soft_delete_device,
  update_tailscale_info,
}
use agenthub_server.Auth.Middleware.{
  Identity, Gate, session_identity, token_identity, require_auth_or_token, serve, reject,
}
use agenthub_server.Api.{Served, behind, with_auth_or_token, http_error}
use agenthub_server.Api.Devices.{
  issue_pair_code_handler, list_devices_handler, get_device_handler, delete_device,
  delete_device_handler, update_tailscale, tailscale_info_handler, DeviceRequest, DeviceBody,
  device_group, device_routes, pair_code, list, get, delete, tailscale_info,
}
use agenthub_server.Api.Devices.Own.{IsOwnReply, group-IsOwn}

-- A live device of another account, which is not the one that the token is bound to, is as it was.
abbrev pub KeepsOthers : Identity → List DeviceRow → List DeviceRow → Type 0
KeepsOthers c rows rows' =
    (i : Text) (r : DeviceRow)
    → find (live_device i) rows ≡ some r
    → (r.account_id == c.account_id) ≡ false
    → (i == c.device_id) ≡ false
    → find (live_device i) rows' ≡ some r

-- The reads and the reply of a pair code do not touch the devices.
others_same : (c : Identity) (rows rows' : List DeviceRow) → rows' ≡ rows → KeepsOthers c rows rows'
others_same c rows rows' same i r there other unbound = rw same there

-- Updating the row of one id leaves what another id selects.
update-other :
    (f : DeviceRow → DeviceRow) (id i : Text) (rows : List DeviceRow) (r : DeviceRow)
    → (i == id) ≡ false
    → find (live_device i) rows ≡ some r
    → ((x : DeviceRow) → (f x).id ≡ x.id)
    → find (live_device i) (update (live_device id) f rows) ≡ some r
unfolding find update
update-other f id i [] r differ there keeps = ground arith
update-other f id i (x ∷ rows) r differ there keeps =
    ground (arith, keeps x, ==_iff x.id i, ==_iff x.id id, update-other f id i rows r differ)

abbrev Keeps : Identity → World → World → Type 0
Keeps c w v = KeepsOthers c w.db.devices v.db.devices

-- An UPDATE of the device with an id that others do not have
update-Keeps :
    (c : Identity) (w : World) (id : Text) (f : DeviceRow → DeviceRow) (rows : List DeviceRow)
    → ((x : DeviceRow) → (f x).id ≡ x.id)
    → rows ≡ update (live_device id) f w.db.devices
    → ((i : Text) (r : DeviceRow)
        → find (live_device i) w.db.devices ≡ some r
        → (r.account_id == c.account_id) ≡ false
        → (i == c.device_id) ≡ false
        → (i == id) ≡ false)
    → KeepsOthers c w.db.devices rows
update-Keeps c w id f rows keeps updated differ i r there other unbound =
    rw updated (update-other f id i w.db.devices r (differ i r there other unbound) there keeps)

abbrev delete_row : World → DeviceRow → DeviceRow
delete_row w r = record r { deleted_at = some (seconds_now w) }

abbrev deleted_rows : Text → World → List DeviceRow
deleted_rows id w = update (live_device id) (delete_row w) w.db.devices

-- A deletion that changes the table found the device in the caller's account.
delete_own :
    (c : Identity) (id : Text) (w : World) (r : DeviceRow)
    → find (live_device id) w.db.devices ≡ some r
    → ((delete_device_handler c id w).world.db.devices ≡ w.db.devices)
      ⊎ (((r.account_id == c.account_id) ≡ true)
          × ((delete_device_handler c id w).world.db.devices ≡ deleted_rows id w))
unfolding delete_device_handler delete_device get_device_by_id soft_delete_device exec_update exec
    query_row
delete_own c id w r there = ground (arith, there)

delete_missing :
    (c : Identity) (id : Text) (w : World)
    → find (live_device id) w.db.devices ≡ none
    → (delete_device_handler c id w).world.db.devices ≡ w.db.devices
unfolding delete_device_handler delete_device get_device_by_id query_row
delete_missing c id w missing = ground (arith, missing)

-- A row that is another account's has another id.
other_id :
    (c : Identity) (w : World) (id i : Text) (r own : DeviceRow)
    → find (live_device id) w.db.devices ≡ some own
    → (own.account_id == c.account_id) ≡ true
    → find (live_device i) w.db.devices ≡ some r
    → (r.account_id == c.account_id) ≡ false
    → (i == id) ≡ false
other_id c w id i r own found_own is_own there other = elim (Bool-cases (i == id)) [
  | inl same ↦
      (let e = (==_iff i id).0 same in
        let both = subst (λ j. find (live_device j) w.db.devices ≡ some r) e there in
        ground (arith, both, found_own, is_own, other))
  | inr differ ↦ differ
]

delete-Keeps :
    (c : Identity) (id : Text) (w : World) → Keeps c w (delete_device_handler c id w).world
delete-Keeps c id w = by_row (find (live_device id) w.db.devices) refl
  where
    by_row :
        (o : Option DeviceRow)
        → find (live_device id) w.db.devices ≡ o
        → Keeps c w (delete_device_handler c id w).world
    by_row none missing = others_same c w.db.devices _ (delete_missing c id w missing)
    by_row (some own) there = elim (delete_own c id w own there) [
      | inl same ↦ others_same c w.db.devices _ same
      | inr (is_own, rows) ↦
          update-Keeps c w id (delete_row w) _ (λ x. refl) rows
            (λ i r found_r other unbound. other_id c w id i r own there is_own found_r other)
    ]

abbrev report_row : Text → World → DeviceRow → DeviceRow
report_row node w r = record r {
  tailscale_node_id = some node;
  last_seen_at = some (seconds_now w);
}

abbrev reported_rows : Text → Text → World → List DeviceRow
reported_rows id node w = update (live_device id) (report_row node w) w.db.devices

-- A report that changes the table is of the device that the token is bound to.
report_own :
    (c : Identity) (id node : Text) (w : World)
    → ((tailscale_info_handler c id (some node) w).world.db.devices ≡ w.db.devices)
      ⊎ (((id == c.device_id) ≡ true)
          × ((tailscale_info_handler c id (some node) w).world.db.devices
              ≡ reported_rows id node w))
unfolding tailscale_info_handler update_tailscale update_tailscale_info exec_update exec
report_own c id node w = ground arith

report_undecoded :
    (c : Identity) (id : Text) (w : World) → (tailscale_info_handler c id none w).world ≡ w
unfolding tailscale_info_handler
report_undecoded c id w = ground arith

report-Keeps :
    (c : Identity) (id : Text) (body : Option Text) (w : World)
    → Keeps c w (tailscale_info_handler c id body w).world
report-Keeps c id none w =
    others_same c w.db.devices _ (ap (λ (v : World). v.db.devices) (report_undecoded c id w))
report-Keeps c id (some node) w = elim (report_own c id node w) [
  | inl same ↦ others_same c w.db.devices _ same
  | inr (bound, rows) ↦
      update-Keeps c w id (report_row node w) _ (λ x. refl) rows
        (λ i r found_r other unbound. ground (arith, unbound, bound, ==_iff id c.device_id))
]

group-Keeps :
    (env : Env) (r : DeviceRequest) (c : Identity) (w : World)
    → Keeps c w (device_group env r c w).world
unfolding device_group
group-Keeps env pair_code c w =
    others_same c w.db.devices _
      (unfold issue_pair_code_handler issue_pair_code insert_pair_code in ground arith)
group-Keeps env list c w =
    others_same c w.db.devices _
      (unfold list_devices_handler list_devices_for_account query in ground arith)
group-Keeps env (get i) c w =
    others_same c w.db.devices _
      (unfold get_device_handler get_device_by_id query_row in ground arith)
group-Keeps env (delete i) c w = delete-Keeps c i w
group-Keeps env (tailscale_info i body) c w = report-Keeps c i body w

gate-devices :
    (env : Env) (signer : JwtSigner) (header : Text) (w : World)
    → (world_of (require_auth_or_token env signer header w)).db.devices ≡ w.db.devices
unfolding require_auth_or_token session_identity token_identity parse check_session_active
    lookup_api_token touch_api_token query_row exec_update exec
gate-devices env signer header w = ground arith

-- What the routes answer and leave, by what the middleware said.
abbrev pub DevicesIsolated : World → Outcome Gate → Served DeviceBody → Type 0
DevicesIsolated w (ok (serve c) v) s =
    IsOwnReply c.account_id s.reply × KeepsOthers c w.db.devices s.world.db.devices
DevicesIsolated w (ok (reject status) v) s =
    (s.reply ≡ http_error status) × (s.world.db.devices ≡ w.db.devices)
DevicesIsolated w (err e v) s = s.world.db.devices ≡ w.db.devices

-- Every request under /api/devices but the claim: if RequireAuthOrToken lets it in, the reply carries
-- only devices and pair codes of the caller's account, and every live device of another account,
-- other than the one that the caller's token is bound to, is as it was; if it does not, the reply is
-- its status and no device changes.
pub device_routes_isolate :
    (env : Env) (signer : JwtSigner) (header : Text) (r : DeviceRequest) (w : World)
    → DevicesIsolated w
        (require_auth_or_token env signer header w)
        (device_routes env signer header r w)
unfolding device_routes with_auth_or_token
device_routes_isolate env signer header r w =
    by_gate (require_auth_or_token env signer header w) (gate-devices env signer header w)
  where
    by_gate :
        (o : Outcome Gate)
        → (world_of o).db.devices ≡ w.db.devices
        → DevicesIsolated w o (behind o (device_group env r))
    by_gate (ok (serve c) v) same = (group-IsOwn env r c v, rw (sym same) (group-Keeps env r c v))
    by_gate (ok (reject status) v) same = (refl, same)
    by_gate (err e v) same = same
