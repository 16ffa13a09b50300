-- ===== src/Client/Api/Views/Agreement.antt =====
-- The list of groups and `attach_group` look for the attachment of a group in two ways.
use mathlib.Core.List.{foldl}
use usbover_ip.Base.{
  ◌≤◌, String, ◌≡◌, refl, ◌∙◌, ap, Option, none, some, [], ◌∷◌, arith, if◌then◌else◌, truthy,
  truthy_text, or_default, true, false, Bool-cases, inl, inr, eq_iff, eq_refl,
}
use usbover_ip.Base.Dict.{Dict, lookup, insert, lookup-insert}
use usbover_ip.Client.State.{Attachment, Config}
use usbover_ip.Client.Groups.{is_text, active_attachment_for_group}
use usbover_ip.Client.Groups.Members.{Unique, members}
use usbover_ip.Client.Api.Views.{note_active, active_ports, active_port}

-- The port of what `active_attachment_for_group` finds.
abbrev pub port_found : Option (String × Attachment) → Option String
port_found none = none
port_found (some (att_id, att)) = att.port

-- The entry of a group, where `d` may have a later one.
abbrev entry_found : Option (String × Attachment) → Option (Option String) → Option (Option String)
entry_found none before = before
entry_found (some (att_id, att)) before = some att.port

members-none :
    (g : String) (d : Dict Attachment) → members g d ≡ 0 → active_attachment_for_group g d ≡ none
unfolding members active_attachment_for_group
members-none g [] h = refl
members-none g ((k, att) ∷ d) h = ground (arith, members-none g d)

noted_own :
    (g att_id : String) (att : Attachment) (active : Dict (Option String))
    → truthy_text g ≡ true
    → is_text att.group_id g ≡ true
    → lookup g (note_active active (att_id, att)) ≡ some att.port
unfolding note_active is_text
noted_own g att_id att active t own = go att.group_id own refl
  where
    go :
        (o : Option String)
        → is_text o g ≡ true
        → att.group_id ≡ o
        → lookup g (if truthy o then insert (or_default o "") att.port active else active)
          ≡ some att.port
    go none h e = ground (arith, h)
    go (some x) h e =
        let same : x ≡ g = (eq_iff x g).0 h in rw (same, t) (rw (lookup-insert, eq_refl))

noted_other :
    (g att_id : String) (att : Attachment) (active : Dict (Option String))
    → is_text att.group_id g ≡ false
    → lookup g (note_active active (att_id, att)) ≡ lookup g active
unfolding note_active is_text
noted_other g att_id att active other = go att.group_id other
  where
    go :
        (o : Option String)
        → is_text o g ≡ false
        → lookup g (if truthy o then insert (or_default o "") att.port active else active)
          ≡ lookup g active
    go none h = refl
    go (some x) h = elim (Bool-cases (truthy_text x)) [
      | inl y ↦ rw y (rw (lookup-insert, h) refl)
      | inr n ↦ rw n refl
    ]

noted_all :
    (g : String) (d : Dict Attachment) (active : Dict (Option String))
    → truthy_text g ≡ true
    → members g d ≤ 1
    → lookup g (foldl note_active active d)
      ≡ entry_found (active_attachment_for_group g d) (lookup g active)
unfolding members active_attachment_for_group
noted_all g [] active t u = refl
noted_all g ((k, att) ∷ d) active t u = elim (Bool-cases (is_text att.group_id g)) [
  | inl own ↦
      noted_all g d (note_active active (k, att)) t (ground (arith, own))
      ∙ rw (members-none g d (ground (arith, own))) (rw own (noted_own g k att active t own))
  | inr other ↦
      noted_all g d (note_active active (k, att)) t (ground (arith, other))
      ∙ rw other
          (ap (entry_found (active_attachment_for_group g d)) (noted_other g k att active other))
]

-- If no group has two attachments, then for each group with an id that is not empty the list of
-- groups shows the port of the attachment that `attach_group` and `detach_group` find for it, and
-- none where they find none.
pub active_port-eq-active_attachment_for_group :
    (cfg : Config) (g : String)
    → Unique cfg
    → truthy_text g ≡ true
    → active_port g (active_ports cfg.attachments)
      ≡ port_found (active_attachment_for_group g cfg.attachments)
unfolding active_ports active_port
active_port-eq-active_attachment_for_group cfg g u t =
    go (active_attachment_for_group g cfg.attachments) (noted_all g cfg.attachments [] t (u g))
  where
    go :
        (o : Option (String × Attachment))
        → lookup g (foldl note_active [] cfg.attachments) ≡ entry_found o (lookup g [])
        → (elim (lookup g (foldl note_active [] cfg.attachments)) [
          | none ↦ none
          | some port ↦ port
        ])
          ≡ port_found o
    go none e = rw e (unfold lookup in refl)
    go (some (k, a)) e = rw e refl
