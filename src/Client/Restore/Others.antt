-- ===== src/Client/Restore/Others.antt =====
-- What the recovery of a direct attachment leaves alone.
use usbover_ip.Base.{String, ◌≡◌, ◌≢◌, refl, ap, ◌∙◌, none, some, arith, eq_iff}
use usbover_ip.Base.Dict.{lookup, lookup-insert}
use usbover_ip.Base.Exec.{Result, ok, err}
use usbover_ip.Base.Exec.Triple.{Triple-both, Outcome, Triple-weaken}
use usbover_ip.Outside.{Env}
use usbover_ip.Client.State.{Attachment, Config, Client}
use usbover_ip.Client.Frame.Nodes.{On}
use usbover_ip.Client.Backoff.Records.{Has}
use usbover_ip.Client.Restore.{Status, dropped, failed, reattached, restore_direct}
use usbover_ip.Client.Restore.Records.{restore_direct-Recovers}
use usbover_ip.Client.Restore.Renewal.{Recovered, Present}
use usbover_ip.Client.Restore.Only.{restore_direct-Own}
use usbover_ip.Client.Restore.OneKey.{OnlyAt, OnlyAt-refl}

module _ ⦃env : Env⦄ (att_id : String) (att : Attachment) (s : Client env.World) where
  direct :
      (r : Result Status)
      → Outcome
          (λ _. On (λ c. Present att_id att c × OnlyAt att_id att.group_id s.cfg c))
          (λ _. On (λ c. Present att_id att c × OnlyAt att_id att.group_id s.cfg c))
          r
          (restore_direct att_id att s).1
      → Present att_id att (restore_direct att_id att s).1.cfg
        × OnlyAt att_id att.group_id s.cfg (restore_direct att_id att s).1.cfg
  direct (ok t) h = h
  direct (err e) h = h

  Recovered-Present : (t : Status) (c : Config) → Recovered att_id att t c → Present att_id att c
  Recovered-Present dropped c h = absurd h
  Recovered-Present (failed m) c h = record {
    att = h.att;
    there = h.there;
    holds = h.holds.same_server;
  }
  Recovered-Present (reattached port none server busid) c h = record {
    att = h.att;
    there = h.there;
    holds = h.holds.renewed.same_server;
  }
  Recovered-Present (reattached port (some sid) server busid) c h = absurd h

  -- The recovery of a direct attachment on record, whether it returns or raises, keeps a record of
  -- the same server at its key, and leaves the record at any other key, the servers and the groups
  -- alone.
  pub restore_direct-others :
      Has att_id att s.cfg
      → (j : String) → j ≢ att_id
      → ((a : Attachment) × (lookup att_id (restore_direct att_id att s).1.cfg.attachments ≡ some a)
          × (a.server_id ≡ att.server_id))
        × (lookup j (restore_direct att_id att s).1.cfg.attachments ≡ lookup j s.cfg.attachments)
        × ((restore_direct att_id att s).1.cfg.servers ≡ s.cfg.servers)
        × ((restore_direct att_id att s).1.cfg.groups ≡ s.cfg.groups)
  restore_direct-others has j ne =
      let both = direct (restore_direct att_id att s).0 (
        (Triple-weaken
            (Triple-both (restore_direct-Recovers att_id att) (restore_direct-Own att_id att s.cfg))
            (λ s h. h) (λ t s h. (Recovered-Present t s.cfg h.0, h.1)) (λ e s h. h)).at
          s (has, OnlyAt-refl att_id att.group_id s.cfg att has refl)) in
      let p = both.0 in
      let o = both.1 in
      (
        (p.att, p.there, p.holds),
        ap (λ (c : Config). lookup j c.attachments) o.rest
            ∙ rw lookup-insert (ground (arith, eq_iff att_id j)),
        ap (λ (c : Config). c.servers) o.rest,
        ap (λ (c : Config). c.groups) o.rest,
      )
