-- ===== src/Client/Proxmox/Recording.antt =====
-- What the handler of a passthrough writes.
use usbover_ip.Client.Api.Servers.{guard_browser}
use usbover_ip.Base.{String, ◌≡◌, refl, ◌∙◌, sym, ap, Option, none, some}
use usbover_ip.Base.Dict.{lookup, insert}
use usbover_ip.Base.Exec.{Exc, ◌>>=◌}
use usbover_ip.Base.Exec.Triple.{
  Triple, Outcome, Triple-bind, Triple-pure, Triple-raise, Triple-weaken, Triple-lift, Triple-gets,
}
use usbover_ip.Outside.{Env}
use usbover_ip.Client.State.{
  Client, Config, Attachment, Passthrough, read, update_attachments, log_event, outside,
}
use usbover_ip.Client.Nodes.{adjust}
use usbover_ip.Client.Frame.{Frame→Triple}
use usbover_ip.Client.Proxmox.{Lines, with_slot, pass_through, api_proxmox_attach}
use usbover_ip.Web.{Request}
use usbover_ip.Client.Proxmox.Frames.{pass_port-Frame}

module _ ⦃env : Env⦄ (text : Lines) where
  -- The record gets the slot and no other field of the configuration changes.
  abbrev pub Passed : String → Config → Passthrough → Config → Type 0
  Passed att_id cfg p cfg' =
      (att : Attachment) × (lookup att_id cfg.attachments ≡ some att)
      × (cfg' ≡ record cfg {
        attachments = insert att_id (record att { proxmox = some p }) cfg.attachments;
      })

  -- The log is written without an exception.
  log_event-Triple :
      (P : Config → Type 0) {E : Exc → Client env.World → Type 0} (line : String)
      → Triple (λ s. P s.cfg) (log_event line) (λ _ s. P s.cfg) E
  unfolding log_event outside ◌>>=◌
  log_event-Triple P line = record { at = λ s h. h }

  record_slot-Triple :
      (att_id vmid slot : String) (cfg : Config) (att : Attachment)
      → lookup att_id cfg.attachments ≡ some att
      → Triple
          (λ (s : Client env.World). s.cfg ≡ cfg)
          (update_attachments (adjust att_id (with_slot text vmid slot)))
          (λ _ s. Passed att_id cfg (record { vmid = vmid; slot = slot }) s.cfg)
          (λ _ s. s.cfg ≡ cfg)
  unfolding update_attachments adjust with_slot ◌>>=◌
  record_slot-Triple att_id vmid slot cfg att e =
      let edit : Attachment → Attachment = with_slot text vmid slot in
      record {
        at = λ s h. (
          att,
          e,
          ap (λ (c : Config). record c { attachments = adjust att_id edit c.attachments }) h
              ∙ ap
                  (λ o. record cfg {
                    attachments = elim o [
                      | none ↦ cfg.attachments
                      | some a ↦ insert att_id (edit a) cfg.attachments
                    ];
                  })
                  e,
        );
      }

  pass_through-Triple :
      (att_id vmid : String) (cfg : Config) (o : Option Attachment)
      → lookup att_id cfg.attachments ≡ o
      → Triple
          (λ (s : Client env.World). s.cfg ≡ cfg)
          (pass_through text att_id vmid o)
          (λ p s. Passed att_id cfg p s.cfg)
          (λ _ s. s.cfg ≡ cfg)
  unfolding pass_through
  pass_through-Triple att_id vmid cfg none e = Triple-raise _ (λ s h. h)
  pass_through-Triple att_id vmid cfg (some att) e =
      Triple-bind
        (Triple-weaken (Frame→Triple (λ c. c ≡ cfg) (pass_port-Frame text vmid att)) (λ s h. h)
          (λ slot s h. h) (λ x s h. h.0))
        λ slot.
          Triple-bind
            {Q = λ _ (s : Client env.World).
              Passed att_id cfg (record { vmid = vmid; slot = slot }) s.cfg}
            (record_slot-Triple att_id vmid slot cfg att e)
            λ _.
              Triple-bind
                (log_event-Triple (Passed att_id cfg (record { vmid = vmid; slot = slot })) _)
                (λ _. Triple-pure _ (λ s h. h))

  -- The handler records the passthrough that it answers at the attachment, and changes no other
  -- field of the configuration; where it raises, at whichever step, the configuration is unchanged.
  pub api_proxmox_attach-Passed :
      (request : Request) (att_id vmid : String) (s : Client env.World)
      → Outcome
          (λ p s'. Passed att_id s.cfg p s'.cfg)
          (λ _ s'. s'.cfg ≡ s.cfg)
          (api_proxmox_attach text request att_id vmid s).0
          (api_proxmox_attach text request att_id vmid s).1
  unfolding api_proxmox_attach guard_browser read
  api_proxmox_attach-Passed request att_id vmid s = whole.at s refl
    where
      whole :
          Triple
            (λ (s' : Client env.World). s'.cfg ≡ s.cfg)
            (api_proxmox_attach text request att_id vmid)
            (λ p s'. Passed att_id s.cfg p s'.cfg)
            (λ _ s'. s'.cfg ≡ s.cfg)
      whole =
          Triple-bind {Q = λ _ s'. s'.cfg ≡ s.cfg}
            (Triple-bind {Q = λ _ s'. s'.cfg ≡ s.cfg} (Triple-lift _) (λ _. Triple-lift _))
            λ _. Triple-bind (Triple-gets (λ s'. s'.cfg)) λ cfg. record {
              at = λ s' h.
                  (pass_through-Triple att_id vmid s.cfg (lookup att_id cfg.attachments)
                      (ap (λ c. lookup att_id c.attachments) (sym h.0 ∙ sym h.1))).at
                    s' h.0;
            }
