-- ===== src/Devices/Registry.antt =====
-- The device registry: who is listed, and what a deletion hides.
use agenthub_server.Base.{
  Text, ◌==◌, ==_iff, ◌≡◌, ◌≢◌, subst, sym, ◌∙◌, ap, Bool, false, ◌&&◌, none, some, List, [], ◌∷◌,
  map, inl, inr, arith, All, find, has, has-update_gone, find-eq-none, where_rows, order_desc,
  All-order_desc, update, Bool-cases,
}
use agenthub_server.Schema.{DeviceRow}
use agenthub_server.Tenancy.{is_null}
use agenthub_server.World.{
  World, ok, no_rows, result_of, query, query_row, exec_update, exec, seconds_now,
}
use agenthub_server.Devices.{
  Device, scan_device, live_device, get_device_by_id, list_devices_for_account, soft_delete_device,
}

-- WHERE account_id = ? AND deleted_at IS NULL
abbrev listed : Text → DeviceRow → Bool
listed account_id r = r.account_id == account_id && is_null r.deleted_at

-- The device is the account's, and another one than i.
abbrev pub IsOther : Text → Text → Device → Type 0
IsOther account_id i d = (d.account_id ≡ account_id) × (d.id ≢ i)

All-where_rows_gone :
    (account_id i : Text) (rows : List DeviceRow)
    → has (live_device i) rows ≡ false
    → All
        (λ (r : DeviceRow). IsOther account_id i (scan_device r))
        (where_rows (listed account_id) rows)
unfolding has where_rows
All-where_rows_gone account_id i [] gone = tt
All-where_rows_gone account_id i (r ∷ rows) gone = elim (Bool-cases (listed account_id r)) [
  | inl kept ↦ rw kept (
    (
      (==_iff r.account_id account_id).0 (ground arith),
      λ same. (let e = (==_iff r.id i).1 same in ground arith),
    ),
    All-where_rows_gone account_id i rows (ground arith),
  )
  | inr left ↦ rw left (All-where_rows_gone account_id i rows (ground arith))
]

All-scan :
    (account_id i : Text) (rows : List DeviceRow)
    → All (λ (r : DeviceRow). IsOther account_id i (scan_device r)) rows
    → All (IsOther account_id i) (map scan_device rows)
All-scan account_id i [] h = tt
All-scan account_id i (r ∷ rows) h = (h.0, All-scan account_id i rows h.1)

-- The table after SoftDeleteDevice.
abbrev deleted_rows : Text → World → List DeviceRow
deleted_rows i w =
    update (live_device i) (λ r. record r { deleted_at = some (seconds_now w) }) w.db.devices

delete-devices :
    (i : Text) (w : World) {w' : World}
    → soft_delete_device i w ≡ ok tt w'
    → w'.db.devices ≡ deleted_rows i w
unfolding soft_delete_device exec_update exec
delete-devices i w h = ground arith

none_live : (i : Text) (w : World) → has (live_device i) (deleted_rows i w) ≡ false
none_live i w =
    has-update_gone (live_device i) (λ r. record r { deleted_at = some (seconds_now w) })
      w.db.devices (λ r h. ground arith)

get_missing :
    (i : Text) (w : World)
    → find (live_device i) w.db.devices ≡ none
    → w.faults ≡ []
    → result_of (get_device_by_id i w) ≡ inr no_rows
unfolding get_device_by_id query_row
get_missing i w missed calm = ground arith

list-rows :
    (account_id : Text) (w : World) {ds : List Device} {w' : World}
    → list_devices_for_account account_id w ≡ ok ds w'
    → ds
      ≡ map scan_device
          (order_desc (λ r. r.created_at) (where_rows (listed account_id) w.db.devices))
unfolding list_devices_for_account query
list-rows account_id w h = ground arith

-- After a successful SoftDeleteDevice, where the devices table is as it left it and the database
-- does not fail, GetDeviceByID of the id finds no row, and every device that
-- ListDevicesForAccount of an account returns is that account's and is not the deleted one.
pub delete_hides :
    (i account_id : Text) (w w₁ w₂ w₃ : World) (ds : List Device)
    → soft_delete_device i w ≡ ok tt w₁
    → w₂.db.devices ≡ w₁.db.devices
    → w₂.faults ≡ []
    → list_devices_for_account account_id w₂ ≡ ok ds w₃
    → (result_of (get_device_by_id i w₂) ≡ inr no_rows) × All (IsOther account_id i) ds
delete_hides i account_id w w₁ w₂ w₃ ds deleted same calm listing =
    let gone : has (live_device i) w₂.db.devices ≡ false =
      ap (has (live_device i)) (same ∙ delete-devices i w deleted) ∙ none_live i w in
    (
      get_missing i w₂ (find-eq-none (live_device i) w₂.db.devices gone) calm,
      subst (All (IsOther account_id i)) (sym (list-rows account_id w₂ listing)) (
          All-scan account_id i _ (
            All-order_desc (λ (r : DeviceRow). IsOther account_id i (scan_device r))
              (λ r. r.created_at) (where_rows (listed account_id) w₂.db.devices)
              (All-where_rows_gone account_id i w₂.db.devices gone))),
    )
