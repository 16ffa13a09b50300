-- ===== src/Client/Restore/Outcomes.antt =====
-- The recovery of a dropped attachment, for direct attachments and for groups alike.
use mathlib.Core.Bool.{false≢true}
use usbover_ip.Base.{
  String, ◌≡◌, refl, ap, sym, subst, ◌⊎◌, inl, inr, true, not, none, some, arith, eq_refl,
  or_default, truthy,
}
use usbover_ip.Base.Dict.{lookup, insert, erase, lookup-insert, lookup-erase}
use usbover_ip.Base.Exec.{Exc, Result, ok, err, group_error, ok-injective}
use usbover_ip.Base.Exec.Triple.{
  Triple-both, Triple, Outcome, Triple-bind, Triple-pure, Triple-raise, Triple-if, Triple-weaken,
  Triple-attempt,
}
use usbover_ip.Outside.{Env}
use usbover_ip.Client.State.{App, Attachment, Config, Client}
use usbover_ip.Client.Frame.{Foreign, Frame→Triple, Frame-log_event}
use usbover_ip.Client.Frame.Nodes.{On, with_attachments, Triple-update}
use usbover_ip.Client.Backoff.Records.{Has, note_reconnect_failure-Triple}
use usbover_ip.Client.Groups.{Joined}
use usbover_ip.Client.Groups.Joining.{Matches, Inactive, attach_group-Triple}
use usbover_ip.Client.Groups.Members.{Unique, members-inactive, members-erase}
use usbover_ip.Client.Groups.Unique.{
  Recorded, adjusted-Recorded, Recorded-join, Unique-join, Unique-stable,
}
use usbover_ip.Client.Restore.{
  Status, dropped, failed, reattached, after_group, restore_group, restore_direct,
  restore_dropped_attachment,
}
use usbover_ip.Client.Restore.Records.{restore_direct-Recovers}
use usbover_ip.Client.Restore.Renewal.{Recovered}
use usbover_ip.Client.Restore.Only.{note_reconnect_failure-Own, restore_direct-Own}
use usbover_ip.Client.Restore.OneKey.{OnlyAt, OnlyAt-refl}
use usbover_ip.Client.Restore.Settling.{Settled, truthy-some, OnlyAt-Unique, put_back-Unique}

module _ ⦃env : Env⦄ (att_id : String) (att : Attachment) (before : Config)
    (has : Has att_id att before) where
  -- What the recovery promises, from a configuration that has the record.
  abbrev StaysUnique : Config → Type 0
  StaysUnique cfg = Unique before → Unique cfg

  abbrev Settles : App Status → Type 0
  Settles m =
      Triple (λ s. s.cfg ≡ before) m (λ r s. Settled att_id att r s.cfg × StaysUnique s.cfg)
        (λ _. On StaysUnique)

  direct-Settles : Settles (restore_direct att_id att)
  direct-Settles =
      Triple-weaken
        (Triple-both (restore_direct-Recovers att_id att) (restore_direct-Own att_id att before))
        (λ s e. (
          subst (Has att_id att) (sym e) has,
          subst (OnlyAt att_id att.group_id before) (sym e)
              (OnlyAt-refl att_id att.group_id before att has refl),
        ))
        (λ r s h. (weaker r s h.0, OnlyAt-Unique att_id att before s.cfg has h.1))
        (λ e s h. OnlyAt-Unique att_id att before s.cfg has h.1)
    where
      weaker :
          (r : Status) (s : Client env.World)
          → Recovered att_id att r s.cfg
          → Settled att_id att r s.cfg
      weaker dropped s h = absurd h
      weaker (failed m) s h = h
      weaker (reattached port none server busid) s h = h
      weaker (reattached port (some sid) server busid) s h = absurd h

  module _ (group_id : String) (own : att.group_id ≡ some group_id) where
    abbrev erased : Config
    erased = with_attachments before (erase att_id before.attachments)

    abbrev put_back : Config
    put_back = with_attachments erased (insert att_id att erased.attachments)

    abbrev Joins : Joined → Config → Type 0
    Joins j cfg = Recorded group_id j cfg × StaysUnique cfg

    erased-Unique : Unique before → Unique erased
    erased-Unique u g = ground (arith, members-erase g att_id before.attachments, u g)

    joining :
        (cfg : Config) (key : String) (a : Attachment) (j : Joined)
        → Matches group_id a j
        → (cfg ≡ erased) × Inactive group_id cfg
        → Joins j (with_attachments cfg (insert key a cfg.attachments))
    joining cfg key a j m c = (
      Recorded-join group_id cfg key a j m,
      λ u.
          Unique-join group_id cfg key a j m (subst Unique (sym c.0) (erased-Unique u))
            (members-inactive group_id cfg.attachments c.1),
    )

    abbrev Failed : Exc → Config → Type 0
    Failed e cfg = (cfg ≡ erased) ⊎ ((j : Joined) × Joins j cfg × Foreign e)

    failed-Unique : (e : Exc) (cfg : Config) → Failed e cfg → StaysUnique cfg
    failed-Unique e cfg (inl c) u = subst Unique (sym c) (erased-Unique u)
    failed-Unique e cfg (inr d) u = d.1.1 u

    after_group-Settles :
        (r : Result Joined)
        → Triple
            (λ s. Outcome (λ j. On (Joins j)) (λ e. On (Failed e)) r s)
            (after_group att_id att r)
            (λ t s. Settled att_id att t s.cfg × StaysUnique s.cfg)
            (λ _. On StaysUnique)
    unfolding after_group
    after_group-Settles (ok j) =
        Triple-bind
          (Triple-weaken (Frame→Triple (Joins j) (Frame-log_event _)) (λ s h. h) (λ a s h. h)
            (λ e s h. h.0.1))
          (λ _. Triple-pure _ (λ s h. (rw own h.0, h.1)))
    after_group-Settles (err (group_error m)) =
        Triple-weaken
          (Triple-bind
            (Triple-weaken (Frame→Triple (λ c. c ≡ erased) (Frame-log_event _)) (λ s h. h)
              (λ a s h. h) (λ e s h. λ u. subst Unique (sym h.0) (erased-Unique u)))
            λ _.
              Triple-bind
                (Triple-update (λ c. c ≡ erased) (λ c. c ≡ put_back) (insert att_id att)
                  (λ c e.
                    ap (λ (x : Config). with_attachments x (insert att_id att x.attachments)) e))
                λ _.
                  Triple-bind
                    (Triple-weaken
                      (Triple-both (note_reconnect_failure-Triple att_id att)
                        (note_reconnect_failure-Own att_id att put_back))
                      (λ s e. (
                        subst (Has att_id att) (sym e) put_back-Has,
                        subst (OnlyAt att_id att.group_id put_back) (sym e)
                            (OnlyAt-refl att_id att.group_id put_back att put_back-Has refl),
                      ))
                      (λ n s h. (h.0, unique s.cfg h.1)) (λ e s h. unique s.cfg h.1))
                    λ n. Triple-pure (failed m) (λ s h. h))
          (λ s f. elim f [ inl c ↦ c | inr d ↦ absurd (false≢true (sym d.2)) ]) (λ r s h. h)
          (λ e s h. h)
      where
        put_back-Has : Has att_id att put_back
        put_back-Has = rw (lookup-insert, eq_refl)

        unique : (cfg : Config) → OnlyAt att_id att.group_id put_back cfg → StaysUnique cfg
        unique cfg o u =
            OnlyAt-Unique att_id att put_back cfg put_back-Has o
              (put_back-Unique att_id att before has u)
    after_group-Settles (err e) = Triple-raise e (λ s f. failed-Unique e s.cfg f)

    group-Settles : Settles (restore_group att_id att group_id)
    unfolding restore_group
    group-Settles =
        Triple-bind
          (Triple-update (λ c. c ≡ before) (λ c. c ≡ erased) (erase att_id)
            (λ c e. ap (λ (x : Config). with_attachments x (erase att_id x.attachments)) e))
          λ _.
            Triple-bind
              (Triple-attempt (
                attach_group-Triple group_id (λ _. Unit {0}) (λ w. tt) (λ c. c ≡ erased) Joins
                  (λ cfg key a j n. joining cfg key a j)
                  (λ j k n cfg node d. (
                    adjusted-Recorded group_id k node j cfg d.0,
                    λ u. Unique-stable cfg k node (d.1 u),
                  ))))
              after_group-Settles

  restore-Settles : Settles (restore_dropped_attachment att_id att)
  unfolding restore_dropped_attachment
  restore-Settles =
      Triple-bind
        (Triple-weaken (Frame→Triple (λ c. c ≡ before) (Frame-log_event _)) (λ s h. h) (λ a s h. h)
          (λ e s h. λ u. subst Unique (sym h.0) u))
        λ _.
          Triple-if (not (or_default att.auto_failover true))
            (λ off.
              Triple-bind
                (Triple-update (λ c. c ≡ before)
                  (λ c. (lookup att_id c.attachments ≡ none) × StaysUnique c) (erase att_id)
                  (λ c e. (rw (lookup-erase, eq_refl), gone c e)))
                (λ _. Triple-pure dropped (λ s h. ((h.0, ground arith), h.1))))
            (λ on.
              Triple-if (truthy att.group_id)
                (λ g. group-Settles (or_default att.group_id "") (truthy-some att.group_id g))
                (λ _. direct-Settles))
    where
      gone :
          (c : Config) → c ≡ before → StaysUnique (with_attachments c (erase att_id c.attachments))
      gone c e u g = ground (arith, members-erase g att_id c.attachments, subst Unique (sym e) u g)

module _ ⦃env : Env⦄ (att_id : String) (att : Attachment) (s : Client env.World)
    (has : Has att_id att s.cfg) where
  abbrev after : Result Status × Client env.World
  after = restore_dropped_attachment att_id att s

  settled :
      (r : Result Status)
      → Outcome
          (λ t s'. Settled att_id att t s'.cfg × (Unique s.cfg → Unique s'.cfg))
          (λ _ s'. Unique s.cfg → Unique s'.cfg)
          r
          after.1
      → ((t : Status) → r ≡ ok t → Settled att_id att t after.1.cfg)
        × (Unique s.cfg → Unique after.1.cfg)
  settled (ok t) h =
      (λ u e. subst (λ x. Settled att_id att x after.1.cfg) (ok-injective e) h.0, h.1)
  settled (err x) h = (λ t e. cc, h)

  -- When the recovery of an attachment on record returns, its status tells what is on record. After
  -- `dropped` the record is gone, and the attachment had auto-failover off. After `failed` the
  -- record is there with one more failure counted and with its port, bus id, serial, server, group
  -- and failover flag as they were. After `reattached` a direct attachment is at its key with the
  -- port and the bus id that the status names and no failures, and a group has a record that
  -- matches the status.
  pub restore-Settled :
      (t : Status)
      → (restore_dropped_attachment att_id att s).0 ≡ ok t
      → Settled att_id att t (restore_dropped_attachment att_id att s).1.cfg
  restore-Settled = (settled after.0 ((restore-Settles att_id att s.cfg has).at s refl)).0

  -- If no group has two attachments, then none has after the recovery of an attachment on record,
  -- whether it returns or raises.
  pub restore-Unique : Unique s.cfg → Unique (restore_dropped_attachment att_id att s).1.cfg
  restore-Unique = (settled after.0 ((restore-Settles att_id att s.cfg has).at s refl)).1
