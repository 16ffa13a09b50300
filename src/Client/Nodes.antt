-- ===== src/Client/Nodes.antt =====
-- The stable device node of an attachment, as client/app/groups.py keeps it: `update_node_for_port`
-- and what it calls. The node itself is the work of the functions of `Env`.
use mathlib.Core.List.{foldl}
use usbover_ip.Base.{
  String, ◌==◌, Option, none, some, List, [], ◌∷◌, if◌then◌else◌, or_text, truthy, ◌<>◌,
}
use usbover_ip.Base.Dict.{Dict, lookup, insert}
use usbover_ip.Base.Exec.{pure, ◌>>=◌, ◌>>◌, attempt}
use usbover_ip.Outside.{Env}
use usbover_ip.Client.State.{App, Attachment, Config, files, read, update_attachments, log_event}
use usbover_ip.Client.Files.{StableNode, DevPaths, from_record, to_record}
use usbover_ip.Client.Files.Paths.{no_paths, resolve_device_paths}
use usbover_ip.Client.Files.Place.{update_attachment_node, place_persisted_node}
use usbover_ip.Client.Files.Tmpfiles.{write_tmpfiles_conf}
use usbover_ip.Client.Usbip.{AttachedPort, list_ports}

-- `d["attachments"][i]` changed in place, where it is there
unfoldable pub adjust : String → (Attachment → Attachment) → Dict Attachment → Dict Attachment
adjust k f d = elim (lookup k d) [ none ↦ d | some att ↦ insert k (f att) d ]

-- `next((p for p in ports if p.port == port), None)`
unfoldable pub find_port : String → List AttachedPort → Option AttachedPort
find_port port [] = none
find_port port (p ∷ ports) = if p.port == port then some p else find_port port ports

-- `att.get("group_id") or att_id`
abbrev pub node_key : String → Attachment → String
node_key att_id att = or_text att.group_id att_id

unfoldable pub add_node : Dict StableNode → String × Attachment → Dict StableNode
add_node nodes (att_id, att) = elim (from_record att.stable_node) [
  | none ↦ nodes
  | some node ↦ insert (node_key att_id att) node nodes
]

unfoldable pub persisted_nodes : Config → Dict StableNode
unfolding add_node
persisted_nodes cfg = foldl add_node [] cfg.attachments

module _ ⦃env : Env⦄ where
  unfoldable pub sync_tmpfiles_conf : App Unit
  sync_tmpfiles_conf = do cfg ← read; files (write_tmpfiles_conf (persisted_nodes cfg)); pure tt

  unfoldable pub device_paths : Option AttachedPort → App DevPaths
  device_paths none = pure no_paths
  device_paths (some live) =
      if truthy live.local_busid
      then files (resolve_device_paths (or_text live.local_busid ""))
      else pure no_paths

  unfoldable pub persist_node : String → Option (String × StableNode) → App (Option String)
  persist_node att_id none = pure none
  persist_node att_id (some (path, node)) = do
    update_attachments (adjust att_id (λ att. record att { stable_node = some (to_record node) }))
    sync_tmpfiles_conf
    pure (some path)

  unfoldable pub update_node_for_port : String → String → String → App (Option String)
  update_node_for_port key port att_id = do
    ports ← list_ports
    paths ← device_paths (find_port port ports)
    result ← files (update_attachment_node key paths)
    persist_node att_id result

  -- `att.get("label") or att.get("busid") or att_id`
  abbrev shown_as : String → Attachment → String
  shown_as att_id att = or_text att.label (or_text (some att.busid) att_id)

  unfoldable pub node_placed : String → StableNode → Option String → App Unit
  node_placed label node none = pure tt
  node_placed label node (some path) = log_event (
      label
      <> ": recreated stable device node "
      <> path
      <> " ("
      <> env.str node.major
      <> ":"
      <> env.str node.minor
      <> ") ahead of its reconnect")

  unfoldable pub place_again : String → Attachment → Option StableNode → App Unit
  unfolding node_placed
  place_again att_id att none = pure tt
  place_again att_id att (some node) = do
    placed ← files (place_persisted_node (node_key att_id att) node)
    node_placed (shown_as att_id att) node placed

  -- The port of a record, where it is in use.
  abbrev pub live_port : List AttachedPort → Attachment → Option String
  live_port ports att = elim att.port [
    | none ↦ none
    | some port ↦ elim (find_port port ports) [ none ↦ none | some live ↦ some port ]
  ]

  unfoldable pub restore_node : List AttachedPort → String × Attachment → App Unit
  unfolding place_again
  restore_node ports (att_id, att) = elim (live_port ports att) [
    | none ↦ place_again att_id att (from_record att.stable_node)
    | some port ↦ do update_node_for_port (node_key att_id att) port att_id; pure tt
  ]

  -- An exception of one attachment does not keep the others from their nodes.
  unfoldable pub restore_nodes : List AttachedPort → Dict Attachment → App Unit
  unfolding restore_node
  restore_nodes ports [] = pure tt
  restore_nodes ports (entry ∷ attachments) = do
    attempt (restore_node ports entry)
    restore_nodes ports attachments

  unfoldable pub restore_persisted_nodes : App Unit
  unfolding restore_nodes
  restore_persisted_nodes = do
    cfg ← read
    ports ← list_ports
    restore_nodes ports cfg.attachments
    sync_tmpfiles_conf
