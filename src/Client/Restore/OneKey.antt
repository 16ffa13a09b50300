-- ===== src/Client/Restore/OneKey.antt =====
-- A configuration that differs from another at one key alone.
use usbover_ip.Base.{
  String, ◌≡◌, ap, sym, ◌∙◌, Bool, true, false, Option, none, some, if◌then◌else◌, eq_refl,
  or_default, truthy, eqb, not, ◌||◌,
}
use usbover_ip.Base.Dict.{lookup, insert, lookup-insert, insert-insert, insert-lookup}
use usbover_ip.Client.State.{Attachment, Config}
use usbover_ip.Client.Nodes.{adjust}
use usbover_ip.Client.Frame.Nodes.{NodeStableAt, with_attachments, set_node}
use usbover_ip.Client.Backoff.{reset_failures}

-- `cfg` is `before` with another record at the key, of the same group.
pub record OnlyAt (key : String) (group : Option String) (before cfg : Config) : Type 0 where
  pub att : Attachment
  pub same_group : att.group_id ≡ group
  pub rest : cfg ≡ with_attachments before (insert key att before.attachments)

module _ (key : String) (group : Option String) (before : Config) where
  pub OnlyAt-insert :
      (cfg : Config) (a : Attachment)
      → a.group_id ≡ group
      → OnlyAt key group before cfg
      → OnlyAt key group before (with_attachments cfg (insert key a cfg.attachments))
  OnlyAt-insert cfg a e o = record {
    att = a;
    same_group = e;
    rest =
        ap (λ (c : Config). with_attachments c (insert key a c.attachments)) o.rest
        ∙ ap (with_attachments before) (insert-insert key a o.att before.attachments);
  }

  pub OnlyAt-lookup :
      (cfg : Config) (o : OnlyAt key group before cfg) → lookup key cfg.attachments ≡ some o.att
  OnlyAt-lookup cfg o =
      ap (λ (c : Config). lookup key c.attachments) o.rest ∙ rw (lookup-insert, eq_refl)

  pub OnlyAt-stable : NodeStableAt key (OnlyAt key group before)
  unfolding adjust
  OnlyAt-stable cfg node o =
      rw (OnlyAt-lookup cfg o, adjust) (OnlyAt-insert cfg (set_node node o.att) o.same_group o)

  pub OnlyAt-reset :
      (cfg : Config)
      → OnlyAt key group before cfg
      → OnlyAt key group before (with_attachments cfg (reset_failures key cfg.attachments))
  unfolding reset_failures
  OnlyAt-reset cfg o =
      rw (OnlyAt-lookup cfg o, reset_failures)
        (go (not (eqb (or_default o.att.failure_count 0) 0) || truthy o.att.next_retry_at))
    where
      go :
          (b : Bool)
          → OnlyAt key group before (
              with_attachments cfg (
                if b
                then insert key
                    (record o.att { failure_count = some 0; next_retry_at = none })
                    cfg.attachments
                else cfg.attachments))
      go true = OnlyAt-insert cfg _ o.same_group o
      go false = o

  pub OnlyAt-refl :
      (old : Attachment)
      → lookup key before.attachments ≡ some old
      → old.group_id ≡ group
      → OnlyAt key group before before
  OnlyAt-refl old h e = record {
    att = old;
    same_group = e;
    rest = ap (with_attachments before) (sym (insert-lookup key old before.attachments h));
  }
