-- ===== src/Server/Share.antt =====
-- The handlers of server/app/main.py that share a device, stop sharing it, bind it anew and label it.
pub mod Effects
use usbover_ip.Base.{
  String, ◌<>◌, Option, none, some, List, [], ◌∷◌, ◌==◌, contains, if◌then◌else◌, or_default,
}
use usbover_ip.Base.Dict.{insert}
use usbover_ip.Base.Exec.{
  Result, ok, err, runtime_error, validation_error, http_error, pure, raise, lift, attempt, ◌>>=◌,
  ◌>>◌,
}
use usbover_ip.Server.State.{Env, App, Config, read, update, log_event}
use usbover_ip.Server.Devices.{bind_device, unbind_device, get_device_serial}
use usbover_ip.Server.Notify.{notify_clients_device_available}
use usbover_ip.Validate.{validate_busid}
use usbover_ip.Web.{Request, require_session_user, require_safe_ajax}

-- `[b for b in shared if b != busid]`
unfoldable pub without : String → List String → List String
without busid [] = []
without busid (b ∷ bs) = let rest = without busid bs in if b == busid then rest else b ∷ rest

unfoldable pub mark_unshared : String → Config → Config
unfolding without
mark_unshared busid d = record d { shared_devices = without busid d.shared_devices }

module _ ⦃env : Env⦄ where
  -- What both ways of sharing write; a device without a serial leaves the snapshot alone.
  unfoldable pub mark_shared : String → Option String → Config → Config
  mark_shared busid serial d = record d {
    shared_devices = env.sorted_set (busid ∷ d.shared_devices);
    known_serials = elim serial [
      | none ↦ d.known_serials
      | some s ↦ insert busid s d.known_serials
    ];
  }

  -- The two `except` clauses of these handlers: 400 and 502.
  unfoldable pub refuse : String → Result (Unit {0}) → App Unit
  refuse complaint (ok _) = pure tt
  refuse complaint (err (validation_error m)) = raise (http_error 400 m)
  refuse complaint (err (runtime_error m)) = do log_event (complaint <> m); raise (http_error 502 m)
  refuse complaint (err e) = raise e

  unfoldable pub announce : String → Option String → String → App Unit
  announce busid serial event = do
    update (mark_shared busid serial)
    log_event event
    notify_clients_device_available busid (or_default serial "")

  unfoldable pub api_share : Request → String → App Unit
  api_share request busid = do
    lift (require_session_user request)
    lift (require_safe_ajax request)
    r ← attempt (do lift (validate_busid env.is_digit busid); bind_device busid)
    refuse ("failed to share " <> busid <> ": ") r
    serial ← get_device_serial busid
    announce busid serial ("shared " <> busid)

  unfoldable pub api_request_share : String → String → App Unit
  api_request_share caller busid = do
    r ← attempt (do lift (validate_busid env.is_digit busid); bind_device busid)
    refuse (caller <> " failed to share " <> busid <> ": ") r
    serial ← get_device_serial busid
    announce busid serial (caller <> " requested share of " <> busid)

  unfoldable pub api_unshare : Request → String → App Unit
  api_unshare request busid = do
    lift (require_session_user request)
    lift (require_safe_ajax request)
    r ← attempt (do lift (validate_busid env.is_digit busid); unbind_device busid)
    refuse ("failed to unshare " <> busid <> ": ") r
    update (mark_unshared busid)
    log_event ("unshared " <> busid)

  unfoldable pub unbind_and_bind : String → App Unit
  unbind_and_bind busid = do
    lift (validate_busid env.is_digit busid)
    unbind_device busid
    bind_device busid

  unfoldable pub notify_if_shared : String → App Unit
  notify_if_shared busid = do
    cfg ← read
    if contains cfg.shared_devices busid
        then (do
          serial ← get_device_serial busid
          notify_clients_device_available busid (or_default serial ""))
        else pure tt

  unfoldable pub api_rebind : String → App Unit
  api_rebind busid = do
    r ← attempt (unbind_and_bind busid)
    refuse ("failed to rebind " <> busid <> ": ") r
    log_event ("force-rebound " <> busid <> " to clear a stale export")
    notify_if_shared busid

  unfoldable pub api_label : Request → String → String → App Unit
  api_label request busid label = do
    lift (require_session_user request)
    lift (require_safe_ajax request)
    lift (validate_busid env.is_digit busid)
    update (λ d. record d { device_labels = insert busid (env.prefix 80 label) d.device_labels })
    log_event ("labeled " <> busid <> " as '" <> env.prefix 80 label <> "'")
