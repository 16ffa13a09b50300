-- ===== src/Client/Restore/Renewal.antt =====
-- What a record is like after a recovery, by the status that the recovery returns.
use usbover_ip.Base.{
  String, ◌≡◌, refl, Bool, true, false, Option, none, some, List, arith, if◌then◌else◌, or_default,
  truthy, eqb, not, ◌||◌,
}
use usbover_ip.Base.Dict.{insert}
use usbover_ip.Base.Exec.{Result, ok, err, remote_error}
use usbover_ip.Outside.{Env, Device}
use usbover_ip.Client.State.{Attachment, Server, Config}
use usbover_ip.Client.Frame.{ForeignResult, Frame, Frame-pure, Frame-raise, Frame-if, Frame-try}
use usbover_ip.Client.Frame.Calls.{fetch_devices-Frame}
use usbover_ip.Client.Frame.Nodes.{NodeStable, with_attachments}
use usbover_ip.Client.Backoff.{reset_failures}
use usbover_ip.Client.Backoff.Records.{At, At-insert, At-adjust, NoFailures, Counted}
use usbover_ip.Client.Restore.{
  Status, dropped, failed, reattached, relocation, find_relocated_busid,
}

-- The same attachment on a new port, perhaps under a new bus id.
pub record Renewed (att : Attachment) (port busid : String) (a : Attachment) : Type 0 where
  pub on_port : a.port ≡ some port
  pub with_busid : a.busid ≡ busid
  pub same_server : a.server_id ≡ att.server_id
  pub same_group : a.group_id ≡ att.group_id
  pub same_serial : a.serial ≡ att.serial
  pub same_failover : a.auto_failover ≡ att.auto_failover

pub record Healthy (att : Attachment) (port busid : String) (a : Attachment) : Type 0 where
  pub renewed : Renewed att port busid a
  pub healthy : NoFailures a

pub reset_failures-Healthy :
    (att_id : String) (att : Attachment) (port busid : String) (cfg : Config)
    → At att_id (Renewed att port busid) cfg
    → At att_id
        (Healthy att port busid)
        (with_attachments cfg (reset_failures att_id cfg.attachments))
unfolding reset_failures
reset_failures-Healthy att_id att port busid cfg r =
    rw (r.there, reset_failures)
      (go (not (eqb (or_default r.att.failure_count 0) 0) || truthy r.att.next_retry_at) refl)
  where
    go :
        (b : Bool)
        → (not (eqb (or_default r.att.failure_count 0) 0) || truthy r.att.next_retry_at) ≡ b
        → At att_id (Healthy att port busid) (
            with_attachments cfg (
              if b
              then insert att_id
                  (record r.att { failure_count = some 0; next_retry_at = none })
                  cfg.attachments
              else cfg.attachments))
    go true e = At-insert att_id (Healthy att port busid) cfg _ (record {
      renewed = record {
        on_port = r.holds.on_port;
        with_busid = r.holds.with_busid;
        same_server = r.holds.same_server;
        same_group = r.holds.same_group;
        same_serial = r.holds.same_serial;
        same_failover = r.holds.same_failover;
      };
      healthy = record { zero_failures = refl; no_retry = refl };
    })
    go false e = record {
      att = r.att;
      there = r.there;
      holds = record {
        renewed = r.holds;
        healthy = record { zero_failures = ground arith; no_retry = ground arith };
      };
    }

pub Healthy-stable :
    (att_id : String) (att : Attachment) (port busid : String)
    → NodeStable (At att_id (Healthy att port busid))
Healthy-stable att_id att port busid = At-adjust att_id (Healthy att port busid) (λ a node h.
    record {
      renewed = record {
        on_port = h.renewed.on_port;
        with_busid = h.renewed.with_busid;
        same_server = h.renewed.same_server;
        same_group = h.renewed.same_group;
        same_serial = h.renewed.same_serial;
        same_failover = h.renewed.same_failover;
      };
      healthy = record { zero_failures = h.healthy.zero_failures; no_retry = h.healthy.no_retry };
    })

-- After the recovery of a direct attachment.
abbrev pub Recovered : String → Attachment → Status → Config → Type 0
Recovered att_id att dropped cfg = ⊥
Recovered att_id att (failed m) cfg = Counted att_id att cfg
Recovered att_id att (reattached port none server busid) cfg =
    At att_id (Healthy att port busid) cfg
Recovered att_id att (reattached port (some server_id) server busid) cfg = ⊥

-- Its record is still there, whatever was raised.
abbrev pub Present : String → Attachment → Config → Type 0
Present att_id att = At att_id (λ a. a.server_id ≡ att.server_id)

module _ ⦃env : Env⦄ where
  pub relocation-Frame :
      (serial busid : String) (r : Result (List Device))
      → ForeignResult r
      → Frame (relocation serial busid r)
  unfolding relocation
  relocation-Frame serial busid (ok devices) h = Frame-pure _
  relocation-Frame serial busid (err (remote_error m)) h = Frame-pure _
  relocation-Frame serial busid (err e) h = Frame-raise _ h

  pub find_relocated_busid-Frame :
      (server : Server) (serial : Option String) (busid : String)
      → Frame (find_relocated_busid server serial busid)
  unfolding find_relocated_busid
  find_relocated_busid-Frame server serial busid =
      Frame-if (truthy serial) (Frame-try (fetch_devices-Frame _ _ _) (relocation-Frame _ busid))
        (Frame-pure _)
