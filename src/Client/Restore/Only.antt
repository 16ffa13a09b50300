-- ===== src/Client/Restore/Only.antt =====
-- The recovery of a direct attachment writes to the record of that attachment and to nothing else.
use mathlib.Core.Option.{some-injective}
use usbover_ip.Base.{
  ℕ, ◌+◌, String, ◌≡◌, refl, ap, sym, ◌∙◌, Option, none, some, or_default, truthy, leb,
}
use usbover_ip.Base.Dict.{lookup}
use usbover_ip.Base.Exec.{Result, ok, err, usbip_error}
use usbover_ip.Base.Exec.Triple.{
  Triple, Keeps, Triple-bind, Triple-pure, Triple-raise, Triple-if, Triple-gets, Triple-weaken,
}
use usbover_ip.Outside.{Env}
use usbover_ip.Client.State.{App, Attachment, Server, Config, read}
use usbover_ip.Client.Usbip.{AttachedPort}
use usbover_ip.Client.Frame.{
  Frame, Frame→Triple, attempt-Triple, Frame-outside, Frame-log_event, Frame-read,
}
use usbover_ip.Client.Frame.Calls.{attach-Frame, run_restart_actions-Frame}
use usbover_ip.Client.Frame.Nodes.{On, Triple-update, update_node_for_port-Triple}
use usbover_ip.Client.Backoff.{
  backoff_threshold, bump, bump_found, count_only, count_and_back_off, note_reconnect_failure,
  reset_failures, note_reconnect_success,
}
use usbover_ip.Client.Backoff.Records.{maybe_force_rebind-Frame}
use usbover_ip.Client.Groups.Candidates.{log_stable_path-Frame}
use usbover_ip.Client.Restore.{
  reattach, give_up, after_second_attach, attach_relocated, after_first_attach, with_server,
  restore_direct,
}
use usbover_ip.Client.Restore.Renewal.{find_relocated_busid-Frame}
use usbover_ip.Client.Restore.OneKey.{
  OnlyAt, OnlyAt-insert, OnlyAt-lookup, OnlyAt-stable, OnlyAt-reset,
}

module _ ⦃env : Env⦄ (att_id : String) (att : Attachment) (before : Config) where
  abbrev Own : Config → Type 0
  Own = OnlyAt att_id att.group_id before

  abbrev KeepsOwn : {A : Type 0} → App A → Type 0
  KeepsOwn m = Keeps (On Own) m

  own : {A : Type 0} {m : App A} → Frame m → KeepsOwn m
  own h = Triple-weaken (Frame→Triple Own h) (λ s c. c) (λ a s c. c) (λ e s c. c.0)

  count_only-Own :
      (a : Attachment) (n : ℕ) → a.group_id ≡ att.group_id → KeepsOwn (count_only att_id a n)
  unfolding count_only
  count_only-Own a n e =
      Triple-bind
        (Triple-update Own Own _ (λ cfg o.
          OnlyAt-insert att_id att.group_id before cfg (record a { failure_count = some n }) e o))
        (λ _. Triple-pure n (λ s o. o))

  count_and_back_off-Own :
      (a : Attachment) (n : ℕ)
      → a.group_id ≡ att.group_id
      → KeepsOwn (count_and_back_off att_id a n)
  unfolding count_and_back_off
  count_and_back_off-Own a n e = Triple-bind (own (Frame-outside env.utcnow)) λ now.
      Triple-bind (own (Frame-log_event _)) λ _.
        Triple-bind
          (Triple-update Own Own _ (λ cfg o. OnlyAt-insert att_id att.group_id before cfg _ e o))
          (λ _. Triple-pure n (λ s o. o))

  bump-Own : (a : Attachment) → a.group_id ≡ att.group_id → KeepsOwn (bump att_id a)
  unfolding bump
  bump-Own a e =
      Triple-if (leb backoff_threshold (or_default a.failure_count 0 + 1))
        (λ _. count_and_back_off-Own a _ e) (λ _. count_only-Own a _ e)

  pub note_reconnect_failure-Own : KeepsOwn (note_reconnect_failure att_id)
  unfolding note_reconnect_failure bump_found read
  note_reconnect_failure-Own =
      Triple-bind (Triple-gets (λ s. s.cfg)) (λ cfg. go cfg (lookup att_id cfg.attachments) refl)
    where
      go :
          (cfg : Config) (o : Option Attachment)
          → lookup att_id cfg.attachments ≡ o
          → Triple
              (λ s. Own s.cfg × (cfg ≡ s.cfg))
              (bump_found att_id o)
              (λ _. On Own)
              (λ _. On Own)
      go cfg none e = Triple-pure 0 (λ s h. h.0)
      go cfg (some a) e = record {
        at = λ s h.
            let o : Own s.cfg = h.0 in
            let same : o.att ≡ a = some-injective _ _ (
              sym (OnlyAt-lookup att_id att.group_id before s.cfg o)
              ∙ ap (λ (k : Config). lookup att_id k.attachments) (sym h.1)
              ∙ e) in
            (bump-Own a (ap (λ (x : Attachment). x.group_id) (sym same) ∙ o.same_group)).at s o;
      }

  reattach-Own :
      (server : Server) (busid : String) (attached : AttachedPort)
      → KeepsOwn (reattach att_id att server busid attached)
  unfolding reattach note_reconnect_success
  reattach-Own server busid attached = Triple-bind (own (Frame-outside env.utcnow)) λ now.
      Triple-bind
        (Triple-update Own Own _ (λ cfg o. OnlyAt-insert att_id att.group_id before cfg _ refl o))
        λ _.
          Triple-bind
            (Triple-update Own Own (reset_failures att_id)
              (OnlyAt-reset att_id att.group_id before))
            λ _. Triple-bind (own (Frame-log_event _)) λ _.
              Triple-bind
                (Triple-weaken
                  (update_node_for_port-Triple att_id (OnlyAt-stable att_id att.group_id before)
                    att_id attached.port)
                  (λ s d. d) (λ a s d. d) (λ e s d. d.0))
                λ path.
                  Triple-bind (own (log_stable_path-Frame _ path)) λ _.
                    Triple-bind (own (run_restart_actions-Frame _)) λ _. Triple-pure _ (λ s d. d)

  give_up-Own :
      (server : Server) (busid error : String) → KeepsOwn (give_up att_id att server busid error)
  unfolding give_up
  give_up-Own server busid error = Triple-bind (own (Frame-log_event _)) λ _.
      Triple-bind note_reconnect_failure-Own λ count.
        Triple-bind (own (maybe_force_rebind-Frame att att_id server busid count error))
          λ _. Triple-pure _ (λ s h. h)

  after_second_attach-Own :
      (server : Server) (busid : String) (r : Result AttachedPort)
      → KeepsOwn (after_second_attach att_id att server busid r)
  unfolding after_second_attach
  after_second_attach-Own server busid (ok attached) = reattach-Own server busid attached
  after_second_attach-Own server busid (err (usbip_error m)) = give_up-Own server busid m
  after_second_attach-Own server busid (err e) = Triple-raise _ (λ s h. h)

  attach_relocated-Own :
      (server : Server) (error : String) (relocated : Option String)
      → KeepsOwn (attach_relocated att_id att server error relocated)
  unfolding attach_relocated
  attach_relocated-Own server error none = give_up-Own server att.busid error
  attach_relocated-Own server error (some relocated) =
      Triple-if (truthy (some relocated))
        (λ _. Triple-bind (own (Frame-log_event _)) λ _.
          Triple-bind (attempt-Triple Own (attach-Frame _ _ relocated))
            (after_second_attach-Own server relocated))
        (λ _. give_up-Own server att.busid error)

  after_first_attach-Own :
      (server : Server) (r : Result AttachedPort)
      → KeepsOwn (after_first_attach att_id att server r)
  unfolding after_first_attach
  after_first_attach-Own server (ok attached) = reattach-Own server att.busid attached
  after_first_attach-Own server (err (usbip_error m)) =
      Triple-bind (own (find_relocated_busid-Frame server att.serial att.busid))
        (attach_relocated-Own server m)
  after_first_attach-Own server (err e) = Triple-raise _ (λ s h. h)

  with_server-Own : (o : Option Server) → KeepsOwn (with_server att_id att o)
  unfolding with_server
  with_server-Own none =
      Triple-bind (own (Frame-log_event _))
        λ _. Triple-bind note_reconnect_failure-Own λ count. Triple-pure _ (λ s h. h)
  with_server-Own (some server) =
      Triple-bind (attempt-Triple Own (attach-Frame _ _ att.busid)) (after_first_attach-Own server)

  pub restore_direct-Own : KeepsOwn (restore_direct att_id att)
  unfolding restore_direct
  restore_direct-Own =
      Triple-bind (own Frame-read) λ cfg. with_server-Own (lookup att.server_id cfg.servers)
