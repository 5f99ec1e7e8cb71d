-- ===== src/Api/Devices.antt =====
-- internal/api/devices.go: the endpoints under /api/devices.
pub mod Own
pub mod Isolation
use agenthub_server.Base.{
  Text, str, ◌==◌, is_empty, ℕ, ◌*◌, true, false, not, Option, List, [], ◌∷◌, if◌then◌else◌,
}
use agenthub_server.World.{Err, World, Env, second, pair_code_invalid, err}
use agenthub_server.Auth.Jwt.{JwtSigner}
use agenthub_server.Devices.{
  Device, PairCode, ClaimInput, ClaimOutput, Headscaler, issue_pair_code, claim_device,
  get_device_by_id, list_devices_for_account, soft_delete_device, update_tailscale_info,
}
use agenthub_server.Auth.Middleware.{Identity}
use agenthub_server.Api.{
  Served, send_reply, map_served, handle, fails_with, decoded, behind, with_auth_or_token,
  write_json, write_error, write_header, device_created,
}

-- 5*time.Minute
abbrev pub pair_code_ttl : ℕ
pair_code_ttl = 300 * second

unfoldable pub issue_pair_code_handler : Env → Identity → World → Served PairCode
issue_pair_code_handler env c w =
    handle
      (issue_pair_code env
        (record { account_id = c.account_id; user_id = c.user_id; ttl = pair_code_ttl }) w)
      (λ p. send_reply (write_json 200 p)) (fails_with 500 (str "pair_code_failed"))

-- if errors.Is(err, devices.ErrPairCodeInvalid)
abbrev pub claim_failed : Err → World → Served ClaimOutput
claim_failed pair_code_invalid w = send_reply (write_error 400 (str "invalid_code")) w
claim_failed e w = send_reply (write_error 500 (str "claim_failed")) w

-- pub is the server's hub, and is not nil.
abbrev pub claim_served : ClaimOutput → World → Served ClaimOutput
claim_served out w = record {
  reply = write_json 200 out;
  published = record { account_id = out.device.account_id; event = device_created out.device } ∷ [];
  world = w;
}

unfoldable pub claim_device_handler :
    Env → Headscaler → Option ClaimInput → World → Served ClaimOutput
claim_device_handler env hs body =
    decoded body (λ i w. handle (claim_device env hs i w) claim_served claim_failed)

unfoldable pub list_devices_handler : Identity → World → Served (List Device)
list_devices_handler c w =
    handle (list_devices_for_account c.account_id w) (λ ds. send_reply (write_json 200 ds))
      (fails_with 500 (str "list_failed"))

abbrev pub device_not_found {ℓ} : {B : Type ℓ} → World → Served B
device_not_found w = send_reply (write_error 404 (str "not_found")) w

unfoldable pub get_device_handler : Identity → Text → World → Served Device
get_device_handler c id w =
    handle (get_device_by_id id w)
      (λ d v.
        if d.account_id == c.account_id
        then send_reply (write_json 200 d) v
        else device_not_found v)
      (λ e. device_not_found)

-- SoftDeleteDevice, once the device is the caller's
unfoldable pub delete_device : Text → World → Served (Unit {0})
delete_device id w =
    handle (soft_delete_device id w) (λ t. send_reply (write_header 204))
      (fails_with 500 (str "delete_failed"))

unfoldable pub delete_device_handler : Identity → Text → World → Served (Unit {0})
delete_device_handler c id w =
    handle (get_device_by_id id w)
      (λ d v. elim (d.account_id == c.account_id) [
        | true ↦ delete_device id v
        | false ↦ device_not_found v
      ])
      (λ e. device_not_found)

-- UpdateTailscaleInfo, once the token is the device's
unfoldable pub update_tailscale : Text → Text → World → Served (Unit {0})
update_tailscale id node w =
    handle (update_tailscale_info id node w) (λ t. send_reply (write_header 204))
      (fails_with 500 (str "update_failed"))

unfoldable pub tailscale_info_handler : Identity → Text → Option Text → World → Served (Unit {0})
tailscale_info_handler c id body w = elim (is_empty c.device_id) [
  | true ↦ send_reply (write_error 403 (str "device_token_required")) w
  | false ↦ elim (id == c.device_id) [
    | true ↦ decoded body (update_tailscale id) w
    | false ↦ send_reply (write_error 403 (str "wrong_device")) w
  ]
]

-- The requests of the group behind RequireAuthOrToken, with their path parameter and body.
pub data DeviceRequest : Type 0 where
  pair_code list : DeviceRequest
  get delete : Text → DeviceRequest
  tailscale_info : Text → Option Text → DeviceRequest

-- What their replies carry
pub data DeviceBody : Type 0 where
  code : PairCode → DeviceBody
  devices : List Device → DeviceBody
  device : Device → DeviceBody
  empty : DeviceBody

unfoldable pub device_group : Env → DeviceRequest → Identity → World → Served DeviceBody
device_group env pair_code c w = map_served code (issue_pair_code_handler env c w)
device_group env list c w = map_served devices (list_devices_handler c w)
device_group env (get id) c w = map_served device (get_device_handler c id w)
device_group env (delete id) c w = map_served (λ t. empty) (delete_device_handler c id w)
device_group env (tailscale_info id body) c w =
    map_served (λ t. empty) (tailscale_info_handler c id body w)

unfoldable pub device_routes : Env → JwtSigner → Text → DeviceRequest → World → Served DeviceBody
device_routes env signer header r = with_auth_or_token env signer header (device_group env r)
