-- ===== src/Client/Restore/Bystanders.antt =====
-- What the recovery of any attachment, direct or of a group, leaves alone.
use usbover_ip.Base.{
  String, ◌≡◌, ◌≢◌, refl, ap, ◌∙◌, inl, inr, true, not, Option, none, some, arith, eq_iff, eq_refl,
  or_default, truthy, ◌==◌, false,
}
use usbover_ip.Base.Dict.{lookup, insert, erase, lookup-insert, lookup-erase}
use usbover_ip.Base.Exec.{Result, ok, err, group_error}
use usbover_ip.Base.Exec.Triple.{
  Triple, Keeps, Outcome, Triple-bind, Triple-pure, Triple-raise, Triple-if, Triple-weaken,
  Triple-attempt,
}
use usbover_ip.Outside.{Env}
use usbover_ip.Client.State.{App, Attachment, Config, Client, log_event, update_attachments}
use usbover_ip.Client.Nodes.{adjust}
use usbover_ip.Client.Frame.{Frame→Triple, Frame-log_event}
use usbover_ip.Client.Frame.Nodes.{On, NodeStableAt, with_attachments, set_node, Triple-update}
use usbover_ip.Client.Backoff.Records.{Has}
use usbover_ip.Client.Groups.{Joined, attach_group}
use usbover_ip.Client.Groups.Joining.{attach_group-Triple}
use usbover_ip.Client.Restore.{dropped, after_group, restore_group, restore_dropped_attachment}
use usbover_ip.Client.Restore.Only.{note_reconnect_failure-Own, restore_direct-Own}
use usbover_ip.Client.Restore.OneKey.{OnlyAt, OnlyAt-refl}

-- The record `b` at the key `k`, which is no new id, during the recovery of another.
module _ ⦃env : Env⦄ (k : String) (b : Attachment) (fresh : (w : env.World) → (env.new_id w).0 ≢ k)
    (att_id : String) (att : Attachment) (other : att_id ≢ k) where
  abbrev Stays : Config → Type 0
  Stays = Has k b

  differ : (id : String) → id ≢ k → (id == k) ≡ false
  differ id ne = ground (arith, eq_iff id k)

  insert-Stays :
      (id : String) (a : Attachment) (cfg : Config)
      → id ≢ k
      → Stays cfg
      → Stays (with_attachments cfg (insert id a cfg.attachments))
  insert-Stays id a cfg ne h = rw (lookup-insert, differ id ne) h

  erase-Stays :
      (cfg : Config) → Stays cfg → Stays (with_attachments cfg (erase att_id cfg.attachments))
  erase-Stays cfg h = rw (lookup-erase, differ att_id other) h

  adjust-Stays : (id : String) → id ≢ k → NodeStableAt id Stays
  unfolding adjust
  adjust-Stays id ne cfg node h = go (lookup id cfg.attachments)
    where
      go :
          (o : Option Attachment)
          → Stays (
              with_attachments cfg (elim o [
                | none ↦ cfg.attachments
                | some a ↦ insert id (set_node node a) cfg.attachments
              ]))
      go none = h
      go (some a) = insert-Stays id _ cfg ne h

  abbrev Leaves : {A : Type 0} → App A → Type 0
  Leaves m = Triple (λ s. Has att_id att s.cfg × Stays s.cfg) m (λ _. On Stays) (λ _. On Stays)

  -- Code that writes to the record at `att_id` alone.
  own-Leaves :
      {A : Type 0} {m : App A}
      → ((before : Config) → Keeps (On (OnlyAt att_id att.group_id before)) m)
      → Leaves m
  own-Leaves {A} {m} own = record {
    at = λ s h.
        go s (m s).0 (m s).1 h.1
          ((own s.cfg).at s (OnlyAt-refl att_id att.group_id s.cfg att h.0 refl));
  }
    where
      still :
          (s t : Client env.World)
          → Stays s.cfg
          → OnlyAt att_id att.group_id s.cfg t.cfg
          → Stays t.cfg
      still s t h o =
          ap (λ (c : Config). lookup k c.attachments) o.rest
          ∙ insert-Stays att_id o.att s.cfg other h

      go :
          (s : Client env.World) (r : Result A) (t : Client env.World)
          → Stays s.cfg
          → Outcome
              (λ _. On (OnlyAt att_id att.group_id s.cfg))
              (λ _. On (OnlyAt att_id att.group_id s.cfg))
              r
              t
          → Outcome (λ _. On Stays) (λ _. On Stays) r t
      go s (ok a) t h o = still s t h o
      go s (err e) t h o = still s t h o

  log-Keeps : (C : Config → Type 0) (line : String) → Keeps (On C) (log_event line)
  log-Keeps C line =
      Triple-weaken (Frame→Triple C (Frame-log_event line)) (λ s h. h) (λ a s h. h) (λ e s h. h.0)

  put_back-Triple :
      Triple
        (On Stays)
        (update_attachments (insert att_id att))
        (λ _ s. Has att_id att s.cfg × Stays s.cfg)
        (λ _. On Stays)
  put_back-Triple =
      Triple-update Stays (λ c. Has att_id att c × Stays c) (insert att_id att)
        (λ c h. (rw (lookup-insert, eq_refl), insert-Stays att_id att c other h))

  after_group-Stays : (r : Result Joined) → Keeps (On Stays) (after_group att_id att r)
  unfolding after_group
  after_group-Stays (ok j) = Triple-bind (log-Keeps Stays _) (λ _. Triple-pure _ (λ s h. h))
  after_group-Stays (err (group_error m)) = Triple-bind (log-Keeps Stays _) λ _.
      Triple-bind put_back-Triple λ _.
        Triple-bind (own-Leaves (note_reconnect_failure-Own att_id att))
          (λ n. Triple-pure _ (λ s h. h))
  after_group-Stays (err e) = Triple-raise e (λ s h. h)

  either :
      {A : Type 0} (r : Result A) (s : Client env.World)
      → Outcome (λ _. On Stays) (λ _. On Stays) r s
      → Stays s.cfg
  either (ok a) s h = h
  either (err e) s h = h

  attach-Stays : (group_id : String) → Keeps (On Stays) (attach_group group_id)
  attach-Stays group_id =
      Triple-weaken
        (attach_group-Triple group_id (λ id. id ≢ k) fresh Stays (λ j. Stays)
          (λ cfg id a j ne m c. insert-Stays id a cfg ne c.0) (λ j id ne. adjust-Stays id ne))
        (λ s h. h) (λ j s h. h) (λ e s f. elim f [ inl c ↦ c | inr d ↦ d.1 ])

  group-Stays : (group_id : String) → Keeps (On Stays) (restore_group att_id att group_id)
  unfolding restore_group
  group-Stays group_id = Triple-bind (Triple-update Stays Stays (erase att_id) erase-Stays) λ _.
      Triple-bind (Triple-attempt (attach-Stays group_id))
        λ r. Triple-weaken (after_group-Stays r) (either r) (λ a s h. h) (λ e s h. h)

  -- The recovery of an attachment on record, direct or of a group, keeps each other record whose
  -- key is no new id, whether it returns or raises.
  pub restore-Leaves : Leaves (restore_dropped_attachment att_id att)
  unfolding restore_dropped_attachment
  restore-Leaves =
      Triple-bind
        (Triple-weaken (Frame→Triple (λ c. Has att_id att c × Stays c) (Frame-log_event _))
          (λ s h. h) (λ a s h. h) (λ e s h. h.0.1))
        λ _.
          Triple-if (not (or_default att.auto_failover true))
            (λ off.
              Triple-weaken
                (Triple-bind {P = On Stays} {E = λ _. On Stays}
                  (Triple-update Stays Stays (erase att_id) erase-Stays)
                  (λ _. Triple-pure dropped (λ s h. h)))
                (λ s h. h.1) (λ a s h. h) (λ e s h. h))
            (λ on.
              Triple-if (truthy att.group_id)
                (λ g. Triple-weaken (group-Stays _) (λ s h. h.1) (λ a s h. h) (λ e s h. h))
                (λ _. own-Leaves (restore_direct-Own att_id att)))
