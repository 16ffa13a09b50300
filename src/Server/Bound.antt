-- ===== src/Server/Bound.antt =====
-- `_ensure_shared_devices_bound` of server/app/main.py: every shared device is bound, its clients are
-- told, and the snapshot of serials is brought up to date.
use mathlib.Core.List.{foldl}
use usbover_ip.Base.{
  String, ◌<>◌, Bool, false, not, ◌&&◌, ◌||◌, Option, none, some, List, [], ◌∷◌, ◌==◌, contains,
  if◌then◌else◌, or_default, truthy_text,
}
use usbover_ip.Base.Dict.{Dict, lookup, insert}
use usbover_ip.Base.Exec.{
  Result, ok, err, runtime_error, pure, raise, attempt, ◌>>=◌, ◌>>◌, for_each,
}
use usbover_ip.Server.State.{Env, App, read, update, log_event}
use usbover_ip.Server.Devices.{UsbDevice, list_local_devices, bind_device}
use usbover_ip.Server.Notify.{notify_clients_device_available}
use usbover_ip.Server.Rename.{by_busid, rename_of, plan_renames, apply_renames}

unfoldable pub is_shared_status : Option UsbDevice → Bool
is_shared_status none = false
is_shared_status (some dev) = dev.status == "shared_idle" || dev.status == "shared_in_use"

-- `{b: s for b, s in known_serials.items() if b in shared}`
unfoldable pub still_shared : List String → Dict String → Dict String
still_shared shared [] = []
still_shared shared ((busid, serial) ∷ known) =
    let rest = still_shared shared known in
    if contains shared busid then (busid, serial) ∷ rest else rest

unfoldable pub remember : Dict UsbDevice → Dict String → String → Dict String
remember final known busid = elim (lookup busid final) [
  | none ↦ known
  | some dev ↦ if truthy_text dev.serial then insert busid dev.serial known else known
]

-- The snapshot after a scan. Where nothing is new the source leaves the file alone, and this is the
-- snapshot that it holds.
unfoldable pub refresh_known : Dict UsbDevice → List String → Dict String → Dict String
unfolding still_shared remember
refresh_known final shared known = foldl (remember final) (still_shared shared known) shared

module _ ⦃env : Env⦄ where
  -- The events of the renames that are found.
  unfoldable pub log_rename : List UsbDevice → Dict String → List String → String → App Unit
  log_rename current known shared busid = elim (rename_of current known shared busid) [
    | none ↦ pure tt
    | some new ↦ log_event (
        busid
        <> " not found; relocated to "
        <> new
        <> " (same serial "
        <> or_default (lookup busid known) ""
        <> ")")
  ]

  unfoldable pub report_bind : Bool → String → Result (Unit {0}) → App Unit
  report_bind force busid (ok _) =
      if force then log_event ("rebound " <> busid <> " on startup") else pure tt
  report_bind force busid (err (runtime_error m)) = log_event (
      (if force then "bind for " <> busid <> " on startup" else "watchdog: bind for " <> busid)
      <> " failed: "
      <> m)
  report_bind force busid (err e) = raise e

  unfoldable pub confirm : Bool → String → Option UsbDevice → App Unit
  confirm force busid none =
      log_event ("could not confirm " <> busid <> " is shared after bind attempt")
  confirm force busid (some dev) =
      if is_shared_status (some dev)
      then (do
        if force
            then pure tt
            else log_event
                ("watchdog: rebound " <> busid <> " (was unbound while server was running)")
        notify_clients_device_available busid dev.serial)
      else log_event ("could not confirm " <> busid <> " is shared after bind attempt")

  unfoldable pub rebind_one : Bool → Dict UsbDevice → String → App Unit
  rebind_one force devices busid =
      if not force && is_shared_status (lookup busid devices) then pure tt else do
        r ← attempt (bind_device busid)
        report_bind force busid r
        refreshed ← list_local_devices []
        confirm force busid (lookup busid (by_busid refreshed))

  unfoldable pub relocate_shared :
      List UsbDevice → Dict String → List String → App (List String × Dict UsbDevice)
  relocate_shared current known shared = do
    for_each shared (log_rename current known shared)
    elim (plan_renames current known shared shared) [
      | [] ↦ pure (shared, by_busid current)
      | r ∷ renames ↦ do
        update (apply_renames (r ∷ renames))
        cfg ← read
        devices ← list_local_devices []
        pure (cfg.shared_devices, by_busid devices)
    ]

  unfoldable pub refresh_serials : List String → Dict String → App Unit
  refresh_serials shared known = do
    devices ← list_local_devices []
    update (λ d. record d { known_serials = refresh_known (by_busid devices) shared known })

  unfoldable pub bind_all : Bool → List String → Dict String → App Unit
  bind_all force shared known = do
    current ← list_local_devices []
    found ← relocate_shared current known shared
    for_each found.0 (rebind_one force found.1)
    refresh_serials found.0 known

  unfoldable pub ensure_shared_devices_bound : Bool → App Unit
  ensure_shared_devices_bound force = do
    cfg ← read
    elim cfg.shared_devices [
      | [] ↦ pure tt
      | b ∷ shared ↦ bind_all force (b ∷ shared) cfg.known_serials
    ]
