-- ===== src/Client/Watchdog.antt =====
-- The two callers of the recovery in client/app/groups.py: a server's push (`reconnect_device`) and
-- the watchdog's tick.
pub mod Entries
pub mod Tick
use usbover_ip.Base.{
  String, ◌<>◌, Bool, true, false, not, ◌&&◌, Option, none, some, [], ◌∷◌, ◌==◌, if◌then◌else◌,
  or_default, truthy_text,
}
use usbover_ip.Base.Dict.{Dict, lookup}
use usbover_ip.Base.Exec.{Result, ok, err, usbip_error, pure, raise, attempt, ◌>>=◌, ◌>>◌, for_each}
use usbover_ip.Outside.{Env}
use usbover_ip.Client.State.{App, Attachment, read, update_attachments, log_event}
use usbover_ip.Client.Usbip.{detach, live_port_map}
use usbover_ip.Client.Nodes.{adjust}
use usbover_ip.Client.Backoff.{watchdog_should_skip}
use usbover_ip.Client.Groups.{is_text}
use usbover_ip.Client.Restore.{Status, restore_dropped_attachment}

unfoldable pub same_text : Option String → Option String → Bool
same_text none none = true
same_text (some s) (some t) = s == t
same_text _ _ = false

-- `live.get(port)`, told apart from a port with no bus id
unfoldable pub port_entry : Dict (Option String) → Option String → Option (Option String)
port_entry live none = none
port_entry live (some port) = lookup port live

-- `stored_local_busid is None or stored_local_busid == live[port]`
unfoldable pub is_ours : Option String → Option String → Bool
unfolding same_text
is_ours none local_busid = true
is_ours (some stored) local_busid = same_text (some stored) local_busid

-- `port in live and (…)`: the attachment still sits on its port.
unfoldable pub is_live : Dict (Option String) → Attachment → Bool
unfolding port_entry is_ours
is_live live att = elim (port_entry live att.port) [
  | none ↦ false
  | some local_busid ↦ is_ours att.local_busid local_busid
]

unfoldable pub by_busid : String → String → Attachment → Bool
by_busid server_id busid att = att.server_id == server_id && att.busid == busid

unfoldable pub by_serial : Dict (Option String) → String → String → Attachment → Bool
unfolding is_live is_text
by_serial live server_id serial att =
    att.server_id == server_id && is_text att.serial serial && not (is_live live att)

-- The record at which a loop that returns from its body stops.
unfoldable pub first_record : (Attachment → Bool) → Dict Attachment → Option (String × Attachment)
first_record test [] = none
first_record test ((att_id, att) ∷ rest) =
    if test att then some (att_id, att) else first_record test rest

module _ ⦃env : Env⦄ where
  unfoldable pub report_detach : String → Result (Unit {0}) → App Unit
  report_detach port (ok _) =
      log_event ("reconnect: detached possibly-stale port " <> port <> " before reattaching")
  report_detach port (err (usbip_error m)) =
      log_event ("reconnect: could not detach possibly-stale port " <> port <> ": " <> m)
  report_detach port (err e) = raise e

  -- A port that is ours is detached, since the session on it may be dead.
  unfoldable pub clear_port : Attachment → Option (Option String) → App Unit
  clear_port att none = pure tt
  clear_port att (some local_busid) =
      if is_ours att.local_busid local_busid
      then (do
        r ← attempt (detach (or_default att.port ""))
        report_detach (or_default att.port "") r)
      else log_event (
          "reconnect: port "
          <> or_default att.port ""
          <> " is live but now belongs to a different local device than this attachment last used - not touching it")

  unfoldable pub reconnect_by_serial :
      String → String → String → Option (String × Attachment) → App (Option Status)
  reconnect_by_serial server_id busid serial none = pure none
  reconnect_by_serial server_id busid serial (some (att_id, att)) = do
    update_attachments (adjust att_id (λ a. record a { busid = busid }))
    status ← restore_dropped_attachment att_id (record att { busid = busid })
    pure (some status)

  unfoldable pub reconnect_device : String → String → String → App (Option Status)
  reconnect_device server_id busid serial = do
    cfg ← read
    live ← live_port_map
    elim (first_record (by_busid server_id busid) cfg.attachments) [
      | some (att_id, att) ↦ do
        clear_port att (port_entry live att.port)
        status ← restore_dropped_attachment att_id att
        pure (some status)
      | none ↦
          if truthy_text serial
          then reconnect_by_serial server_id busid serial
              (first_record (by_serial live server_id serial) cfg.attachments)
          else pure none
    ]

  unfoldable pub watch_one : Dict (Option String) → String × Attachment → App Unit
  watch_one live (att_id, att) = if is_live live att then pure tt else do
    skip ← watchdog_should_skip att
    if skip then pure tt else (do restore_dropped_attachment att_id att; pure tt)

  unfoldable pub watchdog_tick : App Unit
  watchdog_tick = do cfg ← read; live ← live_port_map; for_each cfg.attachments (watch_one live)
