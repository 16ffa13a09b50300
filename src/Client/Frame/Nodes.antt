-- ===== src/Client/Frame/Nodes.antt =====
-- What the upkeep of the stable node does to the configuration: it sets `stable_node` of one record.
use usbover_ip.Base.{String, Option, none, some}
use usbover_ip.Base.Dict.{Dict}
use usbover_ip.Base.Exec.{Exc, ◌>>=◌}
use usbover_ip.Base.Exec.Triple.{Triple, Triple-bind, Triple-pure}
use usbover_ip.Outside.{Env}
use usbover_ip.Client.Files.{StableNode, to_record}
use usbover_ip.Client.State.{Attachment, Config, Client, update_attachments}
use usbover_ip.Client.Usbip.{AttachedPort}
use usbover_ip.Client.Nodes.{
  adjust, update_node_for_port, persist_node, device_paths, sync_tmpfiles_conf,
}
use usbover_ip.Client.Frame.{
  Foreign, Frame, Frame→Triple, Frame-pure, Frame-outside_try, Frame-if, frame_rules,
}
use usbover_ip.Client.Frame.Calls.{list_ports-Frame}

abbrev pub with_attachments : Config → Dict Attachment → Config
with_attachments cfg d = record cfg { attachments = d }

abbrev pub set_node : StableNode → Attachment → Attachment
set_node node att = record att { stable_node = some (to_record node) }

-- What is not about the persisted node of the record at `k`, or of any record.
abbrev pub NodeStableAt : String → (Config → Type 0) → Type 0
NodeStableAt k D =
    (cfg : Config) (node : StableNode)
    → D cfg
    → D (with_attachments cfg (adjust k (set_node node) cfg.attachments))

abbrev pub NodeStable : (Config → Type 0) → Type 0
NodeStable D =
    (cfg : Config) (k : String) (node : StableNode)
    → D cfg
    → D (with_attachments cfg (adjust k (set_node node) cfg.attachments))

module _ ⦃env : Env⦄ where
  abbrev pub On : (Config → Type 0) → Client env.World → Type 0
  On C s = C s.cfg

  pub Triple-update :
      {E : Exc → Client env.World → Type 0} (C D : Config → Type 0)
      (f : Dict Attachment → Dict Attachment)
      → ((cfg : Config) → C cfg → D (with_attachments cfg (f cfg.attachments)))
      → Triple (On C) (update_attachments f) (λ _. On D) E
  unfolding update_attachments ◌>>=◌
  Triple-update C D f h = record { at = λ s c. h s.cfg c }

  pub sync_tmpfiles_conf-Frame : Frame sync_tmpfiles_conf
  unfolding sync_tmpfiles_conf
  sync_tmpfiles_conf-Frame = search frame_rules

  device_paths-Frame : (p : Option AttachedPort) → Frame (device_paths p)
  unfolding device_paths
  device_paths-Frame none = Frame-pure _
  device_paths-Frame (some p) = Frame-if _ (Frame-outside_try _) (Frame-pure _)

  module _ (att_id : String) {D : Config → Type 0} (stable : NodeStableAt att_id D) where
    persist_node-Triple :
        (r : Option (String × StableNode))
        → Triple (On D) (persist_node att_id r) (λ _. On D) (λ e s. D s.cfg × Foreign e)
    unfolding persist_node
    persist_node-Triple none = Triple-pure _ (λ s d. d)
    persist_node-Triple (some (path, node)) =
        Triple-bind (Triple-update D D _ (λ cfg d. stable cfg node d)) (λ _.
          Triple-bind (Frame→Triple D sync_tmpfiles_conf-Frame) (λ _. Triple-pure _ (λ s d. d)))

    pub update_node_for_port-Triple :
        (key port : String)
        → Triple
            (On D)
            (update_node_for_port key port att_id)
            (λ _. On D)
            (λ e s. D s.cfg × Foreign e)
    unfolding update_node_for_port
    update_node_for_port-Triple key port = Triple-bind (Frame→Triple D list_ports-Frame) (λ ports.
        Triple-bind (Frame→Triple D (device_paths-Frame _)) (λ paths.
          Triple-bind (Frame→Triple D (Frame-outside_try _)) (λ r. persist_node-Triple r)))
