-- ===== src/Client/Api/Attachments.antt =====
-- The handlers of client/app/main.py that attach a device, edit and detach an attachment, and take a
-- server's push; and the migration to records keyed by id.
use usbover_ip.Base.{
  String, ◌<>◌, Bool, true, false, Option, none, some, List, [], ◌∷◌, ◌==◌, if◌then◌else◌, or_text,
  or_default,
}
use usbover_ip.Base.Dict.{Dict, lookup, insert, erase}
use usbover_ip.Base.Exec.{
  Result, ok, err, usbip_error, remote_error, http_error, pure, raise, lift, attempt, ◌>>=◌, ◌>>◌,
}
use usbover_ip.Outside.{Env, Device}
use usbover_ip.Client.Files.Place.{remove_attachment_node}
use usbover_ip.Client.State.{
  App, Attachment, Server, outside, files, read, update_attachments, log_event,
}
use usbover_ip.Client.Remote.{fetch_devices, request_share}
use usbover_ip.Client.Usbip.{AttachedPort, attach, detach}
use usbover_ip.Client.Nodes.{adjust, node_key, update_node_for_port, sync_tmpfiles_conf}
use usbover_ip.Client.Restart.{run_restart_actions}
use usbover_ip.Client.Backoff.{stamp}
use usbover_ip.Client.Groups.{log_stable_path}
use usbover_ip.Client.Restore.{Status}
use usbover_ip.Client.Watchdog.{reconnect_device}
use usbover_ip.Client.Api.Servers.{guard_browser, require_server_token}
use usbover_ip.Client.Api.GroupEdits.{RawAction, clean_restart_actions, old_actions}
use usbover_ip.Validate.{validate_busid}
use usbover_ip.Web.{Request}

pub record AttachmentBody : Type 0 where
  pub label : Option String
  pub auto_failover : Option Bool
  pub auto_rebind_on_backoff : Option Bool
  pub restart_actions : Option (List (Option RawAction))

-- `next((d for d in devices if d["busid"] == busid), None)`
unfoldable pub find_device : String → List Device → Option Device
find_device busid [] = none
find_device busid (d ∷ devices) = if d.busid == busid then some d else find_device busid devices

module _ ⦃env : Env⦄ where
  -- The handlers' `except RemoteError` and `except UsbipCommandError`: 502, with a text before the
  -- message.
  unfoldable pub remote_failure : {A : Type 0} → String → Result A → App A
  remote_failure before (ok a) = pure a
  remote_failure before (err (remote_error m)) = raise (http_error 502 (before <> m))
  remote_failure before (err e) = raise e

  unfoldable pub usbip_failure : {A : Type 0} → Result A → App A
  usbip_failure (ok a) = pure a
  usbip_failure (err (usbip_error m)) = raise (http_error 502 m)
  usbip_failure (err e) = raise e

  unfoldable pub share_if_needed : Server → Device → String → App Unit
  share_if_needed server device busid =
      if device.status == "unshared"
      then (do
        r ← attempt (request_share server.host server.api_port server.token busid)
        remote_failure "could not share device on server: " r
        log_event ("requested share of " <> server.name <> "/" <> busid))
      else pure tt

  unfoldable pub direct_record :
      String → String → String → Device → AttachmentBody → String → AttachedPort → Attachment
  direct_record att_id server_id busid device body now attached = record {
    id = some att_id;
    server_id = server_id;
    busid = busid;
    serial = some (or_default device.serial "");
    label = some (env.prefix 80 (or_text body.label (or_text device.label "")));
    group_id = none;
    attached_at = some now;
    auto_failover = some (or_default body.auto_failover true);
    auto_rebind_on_backoff = some (or_default body.auto_rebind_on_backoff false);
    restart_actions = some (clean_restart_actions body.restart_actions);
    port = some attached.port;
    local_busid = attached.local_busid;
    failure_count = none;
    next_retry_at = none;
    stable_node = none;
    proxmox = none;
  }

  unfoldable pub attach_device :
      Server → String → String → AttachmentBody → Option Device → App (String × String)
  attach_device server server_id busid body none =
      raise (http_error 404 "device not found on that server")
  attach_device server server_id busid body (some device) =
      if device.status == "shared_in_use"
      then raise (http_error 409 "device is already attached to another client")
      else do
        share_if_needed server device busid
        r ← attempt (attach server.host server.usbip_port busid)
        attached ← usbip_failure r
        att_id ← outside env.new_id
        now ← outside env.utcnow
        let att = direct_record att_id server_id busid device body (stamp now) attached
        update_attachments (insert att_id att)
        log_event ("direct attach: " <> server.name <> "/" <> busid <> " -> port " <> attached.port)
        stable_path ← update_node_for_port att_id attached.port att_id
        log_stable_path (server.name <> "/" <> busid <> " stable device path: ") stable_path
        run_restart_actions att.restart_actions
        pure (attached.port, att_id)

  unfoldable pub attach_at :
      String → String → AttachmentBody → Option Server → App (String × String)
  attach_at server_id busid body none = raise (http_error 404 "unknown server")
  attach_at server_id busid body (some server) = do
    r ← attempt (fetch_devices server.host server.api_port server.token)
    devices ← remote_failure "could not reach server: " r
    attach_device server server_id busid body (find_device busid devices)

  unfoldable pub api_direct_attach :
      Request → String → String → AttachmentBody → App (String × String)
  api_direct_attach request server_id busid body = do
    guard_browser request
    lift (validate_busid env.is_digit busid)
    cfg ← read
    attach_at server_id busid body (lookup server_id cfg.servers)

  unfoldable pub edit_attachment : AttachmentBody → Attachment → Attachment
  edit_attachment body att = record att {
    label = some (env.prefix 80 (or_default body.label (or_default att.label "")));
    auto_failover = some (or_default body.auto_failover (or_default att.auto_failover true));
    auto_rebind_on_backoff =
        some (or_default body.auto_rebind_on_backoff (or_default att.auto_rebind_on_backoff false));
    restart_actions = some (elim body.restart_actions [
      | none ↦ clean_restart_actions (old_actions att.restart_actions)
      | some raw ↦ clean_restart_actions (some raw)
    ]);
  }

  unfoldable pub api_update_attachment : Request → String → AttachmentBody → App Unit
  api_update_attachment request att_id body = do
    guard_browser request
    cfg ← read
    elim (lookup att_id cfg.attachments) [
      | none ↦ raise (http_error 404 "no such attachment")
      | some att ↦ update_attachments (adjust att_id (edit_attachment body))
    ]

  unfoldable pub detach_found : String → Option Attachment → App Unit
  detach_found att_id none = raise (http_error 404 "no such attachment")
  detach_found att_id (some att) = do
    r ← attempt (detach (or_default att.port ""))
    usbip_failure r
    update_attachments (erase att_id)
    files (remove_attachment_node (node_key att_id att))
    sync_tmpfiles_conf
    log_event ("detached port " <> or_default att.port "")

  unfoldable pub api_detach : Request → String → App Unit
  api_detach request att_id = do
    guard_browser request
    cfg ← read
    detach_found att_id (lookup att_id cfg.attachments)

  -- `none` is the answer `no_attachment_on_record`.
  unfoldable pub api_remote_reconnect : Request → String → Option String → App (Option Status)
  api_remote_reconnect request busid serial = do
    server_id ← require_server_token request
    lift (validate_busid env.is_digit busid)
    reconnect_device server_id busid (or_default serial "")

  -- A record without an id takes a new one, and its old key becomes its port.
  unfoldable pub migrate_records : Dict Attachment → Dict Attachment → App (Dict Attachment)
  migrate_records migrated [] = pure migrated
  migrate_records migrated ((key, att) ∷ rest) = elim att.id [
    | some id ↦ migrate_records (insert key att migrated) rest
    | none ↦ do
      new_id ← outside env.new_id
      migrate_records (insert new_id (record att { id = some new_id; port = some key }) migrated)
          rest
  ]

  unfoldable pub all_have_ids : Dict Attachment → Bool
  all_have_ids [] = true
  all_have_ids ((key, att) ∷ rest) =
      let others = all_have_ids rest in elim att.id [ none ↦ false | some id ↦ others ]

  unfoldable pub migrate_attachments_to_id_keys : App Unit
  migrate_attachments_to_id_keys = do
    cfg ← read
    migrated ← migrate_records [] cfg.attachments
    if all_have_ids cfg.attachments then pure tt else update_attachments (λ d. migrated)
