-- ===== src/Client/Restore/Settling.antt =====
-- What each status promises, and a record that is taken out and put back.
use usbover_ip.Base.{
  String, ◌≡◌, refl, sym, subst, inl, inr, true, false, Option, none, some, arith, or_default,
  truthy, Bool-cases,
}
use usbover_ip.Base.Dict.{lookup, insert, erase}
use usbover_ip.Client.State.{Attachment, Config}
use usbover_ip.Client.Frame.Nodes.{with_attachments}
use usbover_ip.Client.Backoff.Records.{At, Counted}
use usbover_ip.Client.Groups.{is_text}
use usbover_ip.Client.Groups.Members.{
  Unique, members-insert_same, members-erase, members-erase_own, members-insert,
}
use usbover_ip.Client.Groups.Unique.{Recorded}
use usbover_ip.Client.Restore.{Status, dropped, failed, reattached}
use usbover_ip.Client.Restore.Renewal.{Healthy}
use usbover_ip.Client.Restore.OneKey.{OnlyAt}

-- What each status says of the configuration that the recovery of `att` leaves.
abbrev pub Settled : String → Attachment → Status → Config → Type 0
Settled att_id att dropped cfg =
    (lookup att_id cfg.attachments ≡ none) × (or_default att.auto_failover true ≡ false)
Settled att_id att (failed m) cfg = Counted att_id att cfg
Settled att_id att (reattached port none server busid) cfg = At att_id (Healthy att port busid) cfg
Settled att_id att (reattached port (some server_id) server busid) cfg =
    Recorded (or_default att.group_id "")
      (record { port = port; server_id = server_id; server = server; busid = busid }) cfg

pub truthy-some : (o : Option String) → truthy o ≡ true → o ≡ some (or_default o "")
truthy-some none h = cc
truthy-some (some t) h = refl

-- Another record of the same group at the key leaves the groups as large as they were.
pub OnlyAt-Unique :
    (key : String) (old : Attachment) (before cfg : Config)
    → lookup key before.attachments ≡ some old
    → OnlyAt key old.group_id before cfg
    → Unique before
    → Unique cfg
OnlyAt-Unique key old before cfg h o u =
    subst Unique (sym o.rest)
      (λ g. rw (members-insert_same g key o.att old before.attachments h o.same_group) (u g))

-- A record that is taken out and put back.
pub put_back-Unique :
    (key : String) (att : Attachment) (cfg : Config)
    → lookup key cfg.attachments ≡ some att
    → Unique cfg
    → Unique (with_attachments cfg (insert key att (erase key cfg.attachments)))
put_back-Unique key att cfg h u g = elim (Bool-cases (is_text att.group_id g)) [
  | inl own ↦ ground (
    arith,
    members-insert g key att (erase key cfg.attachments),
    members-erase_own g key att cfg.attachments h own,
    u g,
  )
  | inr other ↦ ground (
    arith,
    members-insert g key att (erase key cfg.attachments),
    members-erase g key cfg.attachments,
    u g,
  )
]
