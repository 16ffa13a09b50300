-- ===== src/Client/Groups/Members.antt =====
-- How many attachments a group has, and what the changes of a dict do to that number.
use mathlib.Core.Option.{some-injective}
use usbover_ip.Base.{
  ap, ℕ, suc, ◌≤◌, String, ◌≡◌, refl, true, Option, none, some, [], ◌∷◌, arith, if◌then◌else◌, ◌==◌,
  inl, inr, Bool-cases,
}
use usbover_ip.Base.Dict.{Dict, lookup, insert, erase}
use usbover_ip.Client.Files.{StableNode}
use usbover_ip.Client.State.{Attachment, Config}
use usbover_ip.Client.Nodes.{adjust}
use usbover_ip.Client.Groups.{is_text, active_attachment_for_group}
use usbover_ip.Client.Frame.Nodes.{set_node}

unfoldable pub members : String → Dict Attachment → ℕ
members g [] = 0
members g ((k, att) ∷ d) = if is_text att.group_id g then suc (members g d) else members g d

-- No group has two attachments.
abbrev pub Unique : Config → Type 0
Unique cfg = (g : String) → members g cfg.attachments ≤ 1

pub members-inactive :
    (g : String) (d : Dict Attachment) → active_attachment_for_group g d ≡ none → members g d ≡ 0
unfolding members active_attachment_for_group
members-inactive g [] h = refl
members-inactive g ((k, att) ∷ d) h = ground (arith, members-inactive g d)

pub is_text-some : (s t : String) → is_text (some s) t ≡ (s == t)
unfolding is_text
is_text-some s t = refl

-- A record of another group does not make a group larger, and one of its own by one at most.
pub members-insert :
    (g k : String) (att : Attachment) (d : Dict Attachment)
    → members g (insert k att d)
      ≤ (if is_text att.group_id g then suc (members g d) else members g d)
unfolding members insert
members-insert g k att [] = ground arith
members-insert g k att ((j, a) ∷ d) = ground (arith, members-insert g k att d)

-- A record that replaces one of the same group.
pub members-insert_same :
    (g k : String) (att old : Attachment) (d : Dict Attachment)
    → lookup k d ≡ some old
    → att.group_id ≡ old.group_id
    → members g (insert k att d) ≡ members g d
unfolding members insert lookup
members-insert_same g k att old [] h e = ground arith
members-insert_same g k att old ((j, a) ∷ d) h e = elim (Bool-cases (j == k)) [
  | inl same ↦
      ground (
        arith,
        ap is_text (ap (λ (x : Attachment). x.group_id) (some-injective _ _ (rw same at h))),
      )
  | inr differ ↦ ground (arith, members-insert_same g k att old d)
]

pub members-erase : (g k : String) (d : Dict Attachment) → members g (erase k d) ≤ members g d
unfolding members erase
members-erase g k [] = omega arith
members-erase g k ((j, a) ∷ d) = ground (arith, members-erase g k d)

-- Without its own record, the group of a record is smaller.
pub members-erase_own :
    (g k : String) (att : Attachment) (d : Dict Attachment)
    → lookup k d ≡ some att
    → is_text att.group_id g ≡ true
    → suc (members g (erase k d)) ≤ members g d
unfolding members erase lookup
members-erase_own g k att [] h e = ground arith
members-erase_own g k att ((j, a) ∷ d) h e = elim (Bool-cases (j == k)) [
  | inl same ↦ ground (
    arith,
    members-erase g k d,
    ap (λ (x : Attachment). is_text x.group_id g) (some-injective _ _ (rw same at h)),
  )
  | inr differ ↦ ground (arith, members-erase_own g k att d)
]

pub members-adjust :
    (g k : String) (node : StableNode) (d : Dict Attachment)
    → members g (adjust k (set_node node) d) ≡ members g d
unfolding adjust
members-adjust g k node d = go (lookup k d) refl
  where
    go :
        (o : Option Attachment)
        → lookup k d ≡ o
        → members g (elim o [ none ↦ d | some att ↦ insert k (set_node node att) d ]) ≡ members g d
    go none e = refl
    go (some att) e = members-insert_same g k _ att d e refl
