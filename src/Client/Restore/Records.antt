-- ===== src/Client/Restore/Records.antt =====
-- What the recovery of a dropped attachment does to the records.
use usbover_ip.Base.{String, refl, Option, none, some, truthy}
use usbover_ip.Base.Dict.{lookup}
use usbover_ip.Base.Exec.{Result, ok, err, usbip_error}
use usbover_ip.Base.Exec.Triple.{
  Triple, Triple-bind, Triple-pure, Triple-raise, Triple-if, Triple-weaken,
}
use usbover_ip.Outside.{Env}
use usbover_ip.Client.State.{App, Attachment, Server, Config}
use usbover_ip.Client.Usbip.{AttachedPort}
use usbover_ip.Client.Frame.{
  Frame, Frame→Triple, attempt-Triple, Frame-outside, Frame-log_event, Frame-read,
}
use usbover_ip.Client.Frame.Calls.{attach-Frame, run_restart_actions-Frame}
use usbover_ip.Client.Frame.Nodes.{On, Triple-update, update_node_for_port-Triple}
use usbover_ip.Client.Backoff.{reset_failures, note_reconnect_success}
use usbover_ip.Client.Backoff.Records.{
  At, At-insert, Has, Counted, maybe_force_rebind-Frame, note_reconnect_failure-Triple,
}
use usbover_ip.Client.Groups.Candidates.{log_stable_path-Frame}
use usbover_ip.Client.Restore.{
  Status, reattach, give_up, after_second_attach, attach_relocated, after_first_attach, with_server,
  restore_direct,
}
use usbover_ip.Client.Restore.Renewal.{
  Renewed, Healthy, reset_failures-Healthy, Healthy-stable, Recovered, Present,
  find_relocated_busid-Frame,
}

module _ ⦃env : Env⦄ where
  module _ (att_id : String) (att : Attachment) where
    abbrev Recovers : App Status → Type 0
    Recovers m =
        Triple (On (Has att_id att)) m (λ r. On (Recovered att_id att r))
          (λ _. On (Present att_id att))

    Has-Present : (cfg : Config) → Has att_id att cfg → Present att_id att cfg
    Has-Present cfg h = record { att = att; there = h; holds = refl }

    has :
        {A : Type 0} {m : App A}
        → Frame m
        → Triple (On (Has att_id att)) m (λ _. On (Has att_id att)) (λ _. On (Present att_id att))
    has h =
        Triple-weaken (Frame→Triple (Has att_id att) h) (λ s c. c) (λ a s c. c)
          (λ e s c. Has-Present s.cfg c.0)

    module _ (port busid : String) where
      Healthy-Present :
          (cfg : Config) → At att_id (Healthy att port busid) cfg → Present att_id att cfg
      Healthy-Present cfg h = record {
        att = h.att;
        there = h.there;
        holds = h.holds.renewed.same_server;
      }

      still :
          {A : Type 0} {m : App A}
          → Frame m
          → Triple
              (On (At att_id (Healthy att port busid)))
              m
              (λ _. On (At att_id (Healthy att port busid)))
              (λ _. On (Present att_id att))
      still h =
          Triple-weaken (Frame→Triple (At att_id (Healthy att port busid)) h) (λ s c. c)
            (λ a s c. c) (λ e s c. Healthy-Present s.cfg c.0)

    reattach-Recovers :
        (server : Server) (busid : String) (attached : AttachedPort)
        → Recovers (reattach att_id att server busid attached)
    unfolding reattach note_reconnect_success
    reattach-Recovers server busid attached = Triple-bind (has (Frame-outside env.utcnow)) λ now.
        Triple-bind
          (Triple-update (Has att_id att) (At att_id (Renewed att attached.port busid)) _ (λ cfg h.
            At-insert att_id (Renewed att attached.port busid) cfg _ (record {
              on_port = refl;
              with_busid = refl;
              same_server = refl;
              same_group = refl;
              same_serial = refl;
              same_failover = refl;
            })))
          λ _.
            Triple-bind
              (Triple-update (At att_id (Renewed att attached.port busid))
                (At att_id (Healthy att attached.port busid)) (reset_failures att_id)
                (reset_failures-Healthy att_id att attached.port busid))
              λ _. Triple-bind (still attached.port busid (Frame-log_event _)) λ _.
                Triple-bind
                  (Triple-weaken
                    (update_node_for_port-Triple att_id
                      (λ cfg. Healthy-stable att_id att attached.port busid cfg att_id) att_id
                      attached.port)
                    (λ s d. d) (λ a s d. d)
                    (λ e s d. Healthy-Present attached.port busid s.cfg d.0))
                  λ path.
                    Triple-bind (still attached.port busid (log_stable_path-Frame _ path)) λ _.
                      Triple-bind (still attached.port busid (run_restart_actions-Frame _))
                        λ _. Triple-pure _ (λ s d. d)

    give_up-Recovers :
        (server : Server) (busid error : String) → Recovers (give_up att_id att server busid error)
    unfolding give_up
    give_up-Recovers server busid error = Triple-bind (has (Frame-log_event _)) λ _.
        Triple-bind
          (Triple-weaken (note_reconnect_failure-Triple att_id att) (λ s h. h) (λ a s h. h)
            (λ e s h. Has-Present s.cfg h.0))
          λ count.
            Triple-bind
              (Triple-weaken
                (Frame→Triple (Counted att_id att)
                  (maybe_force_rebind-Frame att att_id server busid count error))
                (λ s h. h) (λ a s h. h)
                (λ e s h. record {
                  att = h.0.att;
                  there = h.0.there;
                  holds = h.0.holds.same_server;
                }))
              λ _. Triple-pure _ (λ s h. h)

    after_second_attach-Recovers :
        (server : Server) (busid : String) (r : Result AttachedPort)
        → Recovers (after_second_attach att_id att server busid r)
    unfolding after_second_attach
    after_second_attach-Recovers server busid (ok attached) =
        reattach-Recovers server busid attached
    after_second_attach-Recovers server busid (err (usbip_error m)) =
        give_up-Recovers server busid m
    after_second_attach-Recovers server busid (err e) = Triple-raise _ (λ s h. Has-Present s.cfg h)

    attach_relocated-Recovers :
        (server : Server) (error : String) (relocated : Option String)
        → Recovers (attach_relocated att_id att server error relocated)
    unfolding attach_relocated
    attach_relocated-Recovers server error none = give_up-Recovers server att.busid error
    attach_relocated-Recovers server error (some relocated) =
        Triple-if (truthy (some relocated))
          (λ _. Triple-bind (has (Frame-log_event _)) λ _.
            Triple-bind (attempt-Triple (Has att_id att) (attach-Frame _ _ relocated))
              (after_second_attach-Recovers server relocated))
          (λ _. give_up-Recovers server att.busid error)

    after_first_attach-Recovers :
        (server : Server) (r : Result AttachedPort)
        → Recovers (after_first_attach att_id att server r)
    unfolding after_first_attach
    after_first_attach-Recovers server (ok attached) = reattach-Recovers server att.busid attached
    after_first_attach-Recovers server (err (usbip_error m)) =
        Triple-bind (has (find_relocated_busid-Frame server att.serial att.busid))
          (attach_relocated-Recovers server m)
    after_first_attach-Recovers server (err e) = Triple-raise _ (λ s h. Has-Present s.cfg h)

    with_server-Recovers : (o : Option Server) → Recovers (with_server att_id att o)
    unfolding with_server
    with_server-Recovers none = Triple-bind (has (Frame-log_event _)) λ _.
        Triple-bind
          (Triple-weaken (note_reconnect_failure-Triple att_id att) (λ s h. h) (λ a s h. h)
            (λ e s h. Has-Present s.cfg h.0))
          λ count. Triple-pure _ (λ s h. h)
    with_server-Recovers (some server) =
        Triple-bind (attempt-Triple (Has att_id att) (attach-Frame _ _ att.busid))
          (after_first_attach-Recovers server)

    pub restore_direct-Recovers : Recovers (restore_direct att_id att)
    unfolding restore_direct
    restore_direct-Recovers =
        Triple-bind (has Frame-read) λ cfg. with_server-Recovers (lookup att.server_id cfg.servers)
