-- ===== src/Client/Api/Views.antt =====
-- The handlers of client/app/main.py that only show: the attachments, the groups and the events.
pub mod Agreement
use mathlib.Core.List.{foldl}
use usbover_ip.Base.{
  ℕ, String, Bool, true, false, Option, none, some, List, [], ◌∷◌, ◌==◌, if◌then◌else◌, truthy,
  truthy_text, or_text, or_default,
}
use usbover_ip.Base.Dict.{Dict, lookup, insert}
use usbover_ip.Base.Exec.{http_error, pure, raise, lift, gets, ◌>>=◌, ◌>>◌}
use usbover_ip.Outside.{Env}
use usbover_ip.Client.State.{
  App, Action, Attachment, Config, Event, Group, Passthrough, Server, files, read,
}
use usbover_ip.Client.Files.{DevPaths, NodeRecord}
use usbover_ip.Client.Files.Paths.{no_paths, resolve_device_paths}
use usbover_ip.Client.Files.Place.{attachment_node_path}
use usbover_ip.Client.Files.Tmpfiles.{tmpfiles_available}
use usbover_ip.Client.Usbip.{AttachedPort, list_ports}
use usbover_ip.Client.Nodes.{find_port}
use usbover_ip.Web.{Request, require_session_user}

-- An entry of the list of attachments.
pub record AttachmentView : Type 0 where
  pub id : String
  pub port : Option String
  pub server_id : String
  pub server_name : String
  pub busid : String
  pub serial : String
  pub local_busid : Option String
  pub label : String
  pub group_id : Option String
  pub stable_path : Option String
  pub attached_at : Option String
  pub auto_failover : Bool
  pub auto_rebind_on_backoff : Bool
  pub restart_actions : List Action
  pub proxmox : Option Passthrough
  pub live : Bool
  pub failure_count : ℕ
  pub next_retry_at : Option String

-- The page of one attachment.
pub record Details : Type 0 where
  pub id : String
  pub port : Option String
  pub live : Bool
  pub local_busid : Option String
  pub dev_paths : DevPaths
  pub server_id : String
  pub server_name : String
  pub busid : String
  pub serial : String
  pub label : String
  pub group_id : Option String
  pub stable_path : Option String
  pub stable_node : Option NodeRecord
  pub boot_persistent : Bool
  pub attached_at : Option String
  pub auto_failover : Bool
  pub auto_rebind_on_backoff : Bool
  pub restart_actions : List Action
  pub proxmox : Option Passthrough

unfoldable pub name_of : Option Server → String
name_of none = "(deleted server)"
name_of (some server) = server.name

-- `{p.port: p for p in ports}`
unfoldable pub by_port : List AttachedPort → Dict AttachedPort
by_port ports = foldl (λ d p. insert p.port p d) [] ports

-- `live_ports.get(port)`, where the port may be missing
unfoldable pub live_of : Option String → Dict AttachedPort → Option AttachedPort
live_of none live_ports = none
live_of (some port) live_ports = lookup port live_ports

-- `next((p for p in ports if p.port == port), None)`
unfoldable pub live_port : Option String → List AttachedPort → Option AttachedPort
live_port none ports = none
live_port (some port) ports = find_port port ports

unfoldable pub busid_of : Option AttachedPort → Option String
busid_of none = none
busid_of (some p) = p.local_busid

unfoldable pub is_live : Option AttachedPort → Bool
is_live none = false
is_live (some p) = true

-- `{att["group_id"]: att.get("port") for att in attachments if att.get("group_id")}`
unfoldable pub note_active : Dict (Option String) → String × Attachment → Dict (Option String)
note_active active (att_id, att) =
    if truthy att.group_id then insert (or_default att.group_id "") att.port active else active

unfoldable pub active_ports : Dict Attachment → Dict (Option String)
active_ports attachments = foldl note_active [] attachments

-- `active.get(g["id"])`
unfoldable pub active_port : String → Dict (Option String) → Option String
active_port group_id active = elim (lookup group_id active) [ none ↦ none | some port ↦ port ]

unfoldable pub shown_groups : Dict (Option String) → Dict Group → List (Group × Option String)
shown_groups active [] = []
shown_groups active ((group_id, g) ∷ groups) =
    (g, active_port g.id active) ∷ shown_groups active groups

module _ ⦃env : Env⦄ where
  unfoldable pub view_of : Config → Dict AttachedPort → String → Attachment → App AttachmentView
  unfolding name_of live_of busid_of is_live
  view_of cfg live_ports att_id att = do
    stable_path ← files (attachment_node_path (or_text att.group_id att_id))
    let live = live_of att.port live_ports
    pure (record {
      id = att_id;
      port = att.port;
      server_id = att.server_id;
      server_name = name_of (lookup att.server_id cfg.servers);
      busid = att.busid;
      serial = or_text att.serial "";
      local_busid = busid_of live;
      label = or_text att.label "";
      group_id = att.group_id;
      stable_path = stable_path;
      attached_at = att.attached_at;
      auto_failover = or_default att.auto_failover false;
      auto_rebind_on_backoff = or_default att.auto_rebind_on_backoff false;
      restart_actions = or_default att.restart_actions [];
      proxmox = att.proxmox;
      live = is_live live;
      failure_count = or_default att.failure_count 0;
      next_retry_at = att.next_retry_at;
    })

  unfoldable pub views_of : Config → Dict AttachedPort → Dict Attachment → App (List AttachmentView)
  views_of cfg live_ports [] = pure []
  views_of cfg live_ports ((att_id, att) ∷ attachments) = do
    view ← view_of cfg live_ports att_id att
    rest ← views_of cfg live_ports attachments
    pure (view ∷ rest)

  unfoldable pub api_attachments : Request → App (List AttachmentView)
  unfolding by_port
  api_attachments request = do
    lift (require_session_user request)
    cfg ← read
    ports ← list_ports
    views_of cfg (by_port ports) cfg.attachments

  unfoldable pub paths_of : Option String → App DevPaths
  paths_of none = pure no_paths
  paths_of (some local_busid) =
      if truthy_text local_busid then files (resolve_device_paths local_busid) else pure no_paths

  unfoldable pub boot_persistent : Option NodeRecord → App Bool
  boot_persistent none = pure false
  boot_persistent (some node) = files tmpfiles_available

  unfoldable pub details_of : Config → String → Option Attachment → App Details
  unfolding name_of live_port busid_of is_live
  details_of cfg att_id none = raise (http_error 404 "no such attachment")
  details_of cfg att_id (some att) = do
    ports ← list_ports
    let live = live_port att.port ports
    dev_paths ← paths_of (busid_of live)
    stable_path ← files (attachment_node_path (or_text att.group_id att_id))
    persistent ← boot_persistent att.stable_node
    pure (record {
      id = att_id;
      port = att.port;
      live = is_live live;
      local_busid = busid_of live;
      dev_paths = dev_paths;
      server_id = att.server_id;
      server_name = name_of (lookup att.server_id cfg.servers);
      busid = att.busid;
      serial = or_text att.serial "";
      label = or_text att.label "";
      group_id = att.group_id;
      stable_path = stable_path;
      stable_node = att.stable_node;
      boot_persistent = persistent;
      attached_at = att.attached_at;
      auto_failover = or_default att.auto_failover true;
      auto_rebind_on_backoff = or_default att.auto_rebind_on_backoff false;
      restart_actions = or_default att.restart_actions [];
      proxmox = att.proxmox;
    })

  unfoldable pub api_attachment_details : Request → String → App Details
  api_attachment_details request att_id = do
    lift (require_session_user request)
    cfg ← read
    details_of cfg att_id (lookup att_id cfg.attachments)

  unfoldable pub api_list_groups : Request → App (List (Group × Option String))
  unfolding active_ports shown_groups
  api_list_groups request = do
    lift (require_session_user request)
    cfg ← read
    pure (shown_groups (active_ports cfg.attachments) cfg.groups)

  unfoldable pub api_events : Request → App (List Event)
  api_events request = do lift (require_session_user request); gets (λ s. s.events)
