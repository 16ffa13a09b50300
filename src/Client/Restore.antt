-- ===== src/Client/Restore.antt =====
-- `_restore_dropped_attachment` and `_find_relocated_busid` of client/app/groups.py: the recovery of
-- one attachment that dropped.
pub mod Renewal
pub mod Records
pub mod OneKey
pub mod Only
pub mod Settling
pub mod Outcomes
pub mod Others
pub mod Bystanders
use usbover_ip.Base.{
  String, ◌<>◌, Bool, true, false, not, ◌&&◌, Option, none, some, List, [], ◌∷◌, ◌==◌,
  if◌then◌else◌, or_text, or_default, truthy,
}
use usbover_ip.Base.Dict.{lookup, insert, erase}
use usbover_ip.Base.Exec.{
  Result, ok, err, remote_error, group_error, usbip_error, pure, raise, attempt, ◌>>=◌, ◌>>◌,
}
use usbover_ip.Outside.{Env, Device}
use usbover_ip.Client.State.{App, Attachment, Server, outside, read, update_attachments, log_event}
use usbover_ip.Client.Remote.{fetch_devices}
use usbover_ip.Client.Usbip.{AttachedPort, attach}
use usbover_ip.Client.Nodes.{update_node_for_port}
use usbover_ip.Client.Restart.{run_restart_actions}
use usbover_ip.Client.Backoff.{
  stamp, note_reconnect_failure, note_reconnect_success, maybe_force_rebind,
}
use usbover_ip.Client.Groups.{is_text, Joined, attach_group, log_stable_path}

-- The status that a recovery returns; a reattached group names its server's id too.
pub data Status : Type 0 where
  dropped : Status
  failed : String → Status
  reattached : (port : String) (server_id : Option String) (server busid : String) → Status

-- `f"{value}"` of a value that may be `None`
abbrev pub shown : Option String → String
shown o = or_default o "None"

unfoldable pub find_moved : String → String → List Device → Option Device
unfolding is_text
find_moved serial old_busid [] = none
find_moved serial old_busid (d ∷ devices) =
    if is_text d.serial serial && not (d.busid == old_busid)
    then some d
    else find_moved serial old_busid devices

unfoldable pub moved_busid : Option Device → Option String
moved_busid none = none
moved_busid (some d) = if d.status == "shared_idle" then some d.busid else none

module _ ⦃env : Env⦄ where
  unfoldable pub relocation : String → String → Result (List Device) → App (Option String)
  relocation serial old_busid (ok devices) =
      pure (moved_busid (find_moved serial old_busid devices))
  relocation serial old_busid (err (remote_error m)) = pure none
  relocation serial old_busid (err e) = raise e

  unfoldable pub find_relocated_busid : Server → Option String → String → App (Option String)
  find_relocated_busid server serial old_busid =
      if truthy serial
      then (do
        r ← attempt (fetch_devices server.host server.api_port server.token)
        relocation (or_default serial "") old_busid r)
      else pure none

  -- What follows a successful `usbip attach` in a recovery.
  unfoldable pub reattach : String → Attachment → Server → String → AttachedPort → App Status
  reattach att_id att server busid attached = do
    now ← outside env.utcnow
    update_attachments (
        insert att_id (record att {
          busid = busid;
          attached_at = some (stamp now);
          port = some attached.port;
          local_busid = attached.local_busid;
        }))
    note_reconnect_success att_id
    log_event (
        "auto-reconnect: reattached " <> server.name <> "/" <> busid <> " on port "
        <> attached.port)
    stable_path ← update_node_for_port att_id attached.port att_id
    log_stable_path (server.name <> "/" <> busid <> " stable device path: ") stable_path
    run_restart_actions att.restart_actions
    pure (reattached attached.port none server.name busid)

  unfoldable pub give_up : String → Attachment → Server → String → String → App Status
  give_up att_id att server busid error = do
    log_event ("auto-reconnect failed for " <> server.name <> "/" <> busid <> ": " <> error)
    count ← note_reconnect_failure att_id
    maybe_force_rebind att att_id server busid count error
    pure (failed error)

  unfoldable pub after_second_attach :
      String → Attachment → Server → String → Result AttachedPort → App Status
  after_second_attach att_id att server busid (ok attached) =
      reattach att_id att server busid attached
  after_second_attach att_id att server busid (err (usbip_error m)) =
      give_up att_id att server busid m
  after_second_attach att_id att server busid (err e) = raise e

  unfoldable pub attach_relocated :
      String → Attachment → Server → String → Option String → App Status
  attach_relocated att_id att server error none = give_up att_id att server att.busid error
  attach_relocated att_id att server error (some relocated) =
      if truthy (some relocated)
      then (do
        log_event (
            server.name
            <> "/"
            <> att.busid
            <> " not found; relocated to "
            <> relocated
            <> " (same serial "
            <> shown att.serial
            <> ") - retrying")
        r ← attempt (attach server.host server.usbip_port relocated)
        after_second_attach att_id att server relocated r)
      else give_up att_id att server att.busid error

  unfoldable pub after_first_attach :
      String → Attachment → Server → Result AttachedPort → App Status
  after_first_attach att_id att server (ok attached) = reattach att_id att server att.busid attached
  after_first_attach att_id att server (err (usbip_error m)) = do
    relocated ← find_relocated_busid server att.serial att.busid
    attach_relocated att_id att server m relocated
  after_first_attach att_id att server (err e) = raise e

  unfoldable pub with_server : String → Attachment → Option Server → App Status
  with_server att_id att none = do
    log_event ("auto-reconnect failed: server " <> att.server_id <> " is no longer registered")
    note_reconnect_failure att_id
    pure (failed "server not registered")
  with_server att_id att (some server) = do
    r ← attempt (attach server.host server.usbip_port att.busid)
    after_first_attach att_id att server r

  unfoldable pub restore_direct : String → Attachment → App Status
  restore_direct att_id att = do
    cfg ← read
    with_server att_id att (lookup att.server_id cfg.servers)

  -- Only a `GroupError` puts the record back.
  unfoldable pub after_group : String → Attachment → Result Joined → App Status
  after_group att_id att (ok j) = do
    log_event ("auto-reconnect: reattached via " <> j.server <> "/" <> j.busid)
    pure (reattached j.port (some j.server_id) j.server j.busid)
  after_group att_id att (err (group_error m)) = do
    log_event ("auto-reconnect failed: " <> m)
    update_attachments (insert att_id att)
    note_reconnect_failure att_id
    pure (failed m)
  after_group att_id att (err e) = raise e

  unfoldable pub restore_group : String → Attachment → String → App Status
  restore_group att_id att group_id = do
    update_attachments (erase att_id)
    r ← attempt (attach_group group_id)
    after_group att_id att r

  unfoldable pub restore_dropped_attachment : String → Attachment → App Status
  restore_dropped_attachment att_id att = do
    log_event (
        "port "
        <> shown att.port
        <> " not attached (server="
        <> att.server_id
        <> " busid="
        <> att.busid
        <> "); attempting reconnect")
    if not (or_default att.auto_failover true)
        then (do update_attachments (erase att_id); pure dropped)
        else if truthy att.group_id
        then restore_group att_id att (or_default att.group_id "")
        else restore_direct att_id att
