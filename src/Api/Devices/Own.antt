-- ===== src/Api/Devices/Own.antt =====
-- The device endpoints keep to the account of the caller.
use agenthub_server.Base.{
  Text, ◌==◌, ◌≡◌, sym, subst, true, ◌&&◌, List, [], ◌∷◌, map, inl, inr, arith, where_rows,
  order_desc, All, ==_iff, Bool-cases, All-order_desc, All-where_rows,
}
use agenthub_server.Schema.{DeviceRow}
use agenthub_server.World.{World, Env, query, ok}
use agenthub_server.Tenancy.{is_null}
use agenthub_server.Devices.{
  Device, PairCode, PairCodeInput, issue_pair_code, scan_device, get_device_by_id,
  list_devices_for_account,
}
use agenthub_server.Auth.Middleware.{Identity}
use agenthub_server.Api.{
  Reply, Served, map_reply, map_served, handle_lem, write_json, write_error, write_header,
  http_error, redirect,
}
use agenthub_server.Api.Devices.{
  issue_pair_code_handler, list_devices_handler, get_device_handler, delete_device_handler,
  tailscale_info_handler, DeviceRequest, DeviceBody, device_group, pair_code, list, get, delete,
  tailscale_info, code, devices, device, empty,
}

-- A reply carries only what is the account's.
abbrev pub IsOwnBody : Text → DeviceBody → Type 0
IsOwnBody account_id (code p) = p.account_id ≡ account_id
IsOwnBody account_id (devices ds) = All (λ (d : Device). d.account_id ≡ account_id) ds
IsOwnBody account_id (device d) = d.account_id ≡ account_id
IsOwnBody account_id empty = Unit

abbrev pub IsOwnReply : Text → Reply DeviceBody → Type 0
IsOwnReply account_id (write_json status b) = IsOwnBody account_id b
IsOwnReply account_id r = Unit

owned_rows :
    (account_id : Text) (rows : List DeviceRow)
    → All (λ (r : DeviceRow). (r.account_id == account_id && is_null r.deleted_at) ≡ true) rows
    → All (λ (d : Device). d.account_id ≡ account_id) (map scan_device rows)
owned_rows account_id [] h = tt
owned_rows account_id (r ∷ rows) h =
    ((==_iff r.account_id account_id).0 (ground (arith, h.0)), owned_rows account_id rows h.1)

listed_lem :
    (account_id : Text) (w : World) {ds : List Device} {v : World}
    → list_devices_for_account account_id w ≡ ok ds v
    → All (λ (d : Device). d.account_id ≡ account_id) ds
listed_lem account_id w {ds} h =
    subst (All (λ (d : Device). d.account_id ≡ account_id)) (sym rows) (
      owned_rows account_id _ (
        All-order_desc
          (λ (r : DeviceRow). (r.account_id == account_id && is_null r.deleted_at) ≡ true)
          (λ (r : DeviceRow). r.created_at) _
          (All-where_rows (λ r. r.account_id == account_id && is_null r.deleted_at) w.db.devices)))
  where
    rows :
        ds
        ≡ map scan_device (
            order_desc
              (λ (r : DeviceRow). r.created_at)
              (where_rows (λ r. r.account_id == account_id && is_null r.deleted_at) w.db.devices))
    rows = unfold list_devices_for_account query in ground arith

abbrev IsOwn : Text → Served DeviceBody → Type 0
IsOwn account_id s = IsOwnReply account_id s.reply

list-IsOwn :
    (c : Identity) (w : World) → IsOwn c.account_id (map_served devices (list_devices_handler c w))
unfolding list_devices_handler
list-IsOwn c w =
    handle_lem (λ s. IsOwn c.account_id (map_served devices s))
      (list_devices_for_account c.account_id w) _ _ (λ ds v h. listed_lem c.account_id w h)
      (λ e v h. tt)

get-IsOwn :
    (c : Identity) (i : Text) (w : World)
    → IsOwn c.account_id (map_served device (get_device_handler c i w))
unfolding get_device_handler
get-IsOwn c i w =
    handle_lem (λ s. IsOwn c.account_id (map_served device s)) (get_device_by_id i w) _ _
      (λ d v h. elim (Bool-cases (d.account_id == c.account_id)) [
        | inl own ↦ rw own ((==_iff d.account_id c.account_id).0 own)
        | inr other ↦ rw other tt
      ])
      (λ e v h. tt)

issued_lem :
    (env : Env) (i : PairCodeInput) (w : World) {p : PairCode} {v : World}
    → issue_pair_code env i w ≡ ok p v
    → p.account_id ≡ i.account_id
unfolding issue_pair_code
issued_lem env i w h = ground arith

pair_code-IsOwn :
    (env : Env) (c : Identity) (w : World)
    → IsOwn c.account_id (map_served code (issue_pair_code_handler env c w))
unfolding issue_pair_code_handler
pair_code-IsOwn env c w =
    handle_lem (λ s. IsOwn c.account_id (map_served code s)) (issue_pair_code env _ w) _ _
      (λ p v h. issued_lem env _ w h) (λ e v h. tt)

-- The handlers without a body
empty-own :
    (account_id : Text) (r : Reply (Unit {0})) → IsOwnReply account_id (map_reply (λ t. empty) r)
empty-own account_id (write_json status a) = tt
empty-own account_id (write_error status c) = tt
empty-own account_id (write_header status) = tt
empty-own account_id (http_error status) = tt
empty-own account_id (redirect url) = tt

pub group-IsOwn :
    (env : Env) (r : DeviceRequest) (c : Identity) (w : World)
    → IsOwn c.account_id (device_group env r c w)
unfolding device_group
group-IsOwn env pair_code c w = pair_code-IsOwn env c w
group-IsOwn env list c w = list-IsOwn c w
group-IsOwn env (get i) c w = get-IsOwn c i w
group-IsOwn env (delete i) c w = empty-own c.account_id (delete_device_handler c i w).reply
group-IsOwn env (tailscale_info i body) c w =
    empty-own c.account_id (tailscale_info_handler c i body w).reply
