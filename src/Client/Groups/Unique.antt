-- ===== src/Client/Groups/Unique.antt =====
-- `attach_group` at its boundary: a group has one attachment at most, a refusal changes nothing, and
-- a success leaves a record of what it returns.
use mathlib.Core.Option.{some-injective}
use mathlib.Core.Bool.{false≢true}
use usbover_ip.Base.{
  String, ◌≡◌, refl, ap, subst, sym, ◌∙◌, ◌⊎◌, inl, inr, true, Option, none, some, arith, eq_iff,
  ◌==◌, Bool-cases, eq_refl,
}
use usbover_ip.Base.Dict.{lookup, insert, lookup-insert}
use usbover_ip.Base.Exec.{Result, ok, err, group_error, ok-injective}
use usbover_ip.Base.Exec.Triple.{Outcome, Triple-weaken, Keeps}
use usbover_ip.Outside.{Env}
use usbover_ip.Client.Files.{StableNode}
use usbover_ip.Client.State.{Attachment, Config, Client}
use usbover_ip.Client.Nodes.{adjust}
use usbover_ip.Client.Frame.{Foreign}
use usbover_ip.Client.Frame.Nodes.{NodeStable, On, with_attachments, set_node}
use usbover_ip.Client.Groups.{Joined, is_text, attach_group}
use usbover_ip.Client.Groups.Joining.{Matches, attach_group-Triple}
use usbover_ip.Client.Groups.Members.{
  Unique, members, members-inactive, members-insert, members-adjust,
}

pub Unique-stable : NodeStable Unique
Unique-stable cfg k node u g = rw members-adjust (u g)

joining_group :
    (gid : Option String) (group_id g : String)
    → gid ≡ some group_id
    → is_text gid g ≡ true
    → group_id ≡ g
unfolding is_text
joining_group gid group_id g e h = (eq_iff group_id g).0 (rw e at h)

pub Unique-join :
    (group_id : String) (cfg : Config) (att_id : String) (att : Attachment) (j : Joined)
    → Matches group_id att j
    → Unique cfg
    → members group_id cfg.attachments ≡ 0
    → Unique (with_attachments cfg (insert att_id att cfg.attachments))
Unique-join group_id cfg att_id att j m u z g = elim (Bool-cases (is_text att.group_id g)) [
  | inl own ↦
      let e : group_id ≡ g = joining_group att.group_id group_id g m.of_group own in
      let z' : members g cfg.attachments ≡ 0 = subst (λ x. members x cfg.attachments ≡ 0) e z in
      ground (arith, members-insert g att_id att cfg.attachments)
  | inr foreign ↦ ground (arith, members-insert g att_id att cfg.attachments, u g)
]

-- The record at a key with the group and the port of the answer.
pub record Recorded (group_id : String) (j : Joined) (cfg : Config) : Type 0 where
  pub key : String
  pub att : Attachment
  pub there : lookup key cfg.attachments ≡ some att
  pub matches : Matches group_id att j

pub adjusted-Recorded :
    (group_id k : String) (node : StableNode) (j : Joined) (cfg : Config)
    → Recorded group_id j cfg
    → Recorded group_id j (with_attachments cfg (adjust k (set_node node) cfg.attachments))
unfolding adjust
adjusted-Recorded group_id k node j cfg r = go (lookup k cfg.attachments) refl
  where
    -- the record that is adjusted is this one, or another
    go :
        (o : Option Attachment)
        → lookup k cfg.attachments ≡ o
        → Recorded group_id j (
            with_attachments cfg (elim o [
              | none ↦ cfg.attachments
              | some att ↦ insert k (set_node node att) cfg.attachments
            ]))
    go none e = r
    go (some a) e = elim (Bool-cases (k == r.key)) [
      | inl same ↦
          let e' : a ≡ r.att =
            some-injective _ _
              (sym e ∙ ap (λ x. lookup x cfg.attachments) ((eq_iff k r.key).0 same) ∙ r.there) in
          record {
            key = r.key;
            att = set_node node a;
            there = rw (lookup-insert, same);
            matches =
                subst (λ x. Matches group_id (set_node node x) j) (sym e')
                  (record {
                    of_group = r.matches.of_group;
                    on_port = r.matches.on_port;
                    from_server = r.matches.from_server;
                    with_busid = r.matches.with_busid;
                    no_failures = r.matches.no_failures;
                  });
          }
      | inr differ ↦ record {
        key = r.key;
        att = r.att;
        there = rw (lookup-insert, differ) r.there;
        matches = r.matches;
      }
    ]

pub Recorded-join :
    (group_id : String) (cfg : Config) (att_id : String) (att : Attachment) (j : Joined)
    → Matches group_id att j
    → Recorded group_id j (with_attachments cfg (insert att_id att cfg.attachments))
Recorded-join group_id cfg att_id att j m = record {
  key = att_id;
  att = att;
  there = rw (lookup-insert, eq_refl);
  matches = m;
}

module _ ⦃env : Env⦄ where
  pub attach_group-Unique_triple : (group_id : String) → Keeps (On Unique) (attach_group group_id)
  attach_group-Unique_triple group_id =
      Triple-weaken
        (attach_group-Triple group_id (λ _. Unit {0}) (λ w. tt) Unique (λ j. Unique)
          (λ cfg att_id att j n m c.
            Unique-join group_id cfg att_id att j m c.0
              (members-inactive group_id cfg.attachments c.1))
          (λ j id n cfg node. Unique-stable cfg id node))
        (λ s c. c) (λ j s d. d) (λ e s f. elim f [ inl c ↦ c | inr d ↦ d.1 ])

  -- If no group has two attachments, none has after `attach_group`, whether it returns or raises.
  pub attach_group-Unique :
      (group_id : String) (s : Client env.World)
      → Unique s.cfg
      → Unique (attach_group group_id s).1.cfg
  attach_group-Unique group_id s u =
      either (attach_group group_id s).0 ((attach_group-Unique_triple group_id).at s u)
    where
      either :
          (r : Result Joined)
          → Outcome (λ _. On Unique) (λ _. On Unique) r (attach_group group_id s).1
          → Unique (attach_group group_id s).1.cfg
      either (ok j) h = h
      either (err e) h = h

  attach_group-outcome :
      (group_id : String) (s : Client env.World)
      → ((m : String)
          → (attach_group group_id s).0 ≡ err (group_error m)
          → (attach_group group_id s).1.cfg ≡ s.cfg)
        × ((j : Joined)
            → (attach_group group_id s).0 ≡ ok j
            → Recorded group_id j (attach_group group_id s).1.cfg)
  attach_group-outcome group_id s = both (attach_group group_id s).0 (
      (attach_group-Triple group_id (λ _. Unit {0}) (λ w. tt) (λ c. c ≡ s.cfg) (Recorded group_id)
          (λ cfg att_id att j n m c. record {
            key = att_id;
            att = att;
            there = rw (lookup-insert, eq_refl);
            matches = m;
          })
          (λ j k n cfg node r. adjusted-Recorded group_id k node j cfg r)).at
        s refl)
    where
      after : Client env.World
      after = (attach_group group_id s).1

      both :
          (r : Result Joined)
          → Outcome
              (λ j. On (Recorded group_id j))
              (λ e t. (t.cfg ≡ s.cfg) ⊎ ((j : Joined) × Recorded group_id j t.cfg × Foreign e))
              r
              after
          → ((m : String) → r ≡ err (group_error m) → after.cfg ≡ s.cfg)
            × ((j : Joined) → r ≡ ok j → Recorded group_id j after.cfg)
      both (ok j) h =
          (λ m e. cc, λ k e. subst (λ x. Recorded group_id x after.cfg) (ok-injective e) h)
      both (err x) (inl h) = (λ m e. h, λ k e. cc)
      both (err (group_error n)) (inr h) = (λ m e. absurd (false≢true (sym h.2)), λ k e. cc)
      both (err x) (inr h) = (λ m e. cc, λ k e. cc)

  -- When `attach_group` raises a `GroupError` the configuration is what it was.
  pub attach_group-refused :
      (group_id m : String) (s : Client env.World)
      → (attach_group group_id s).0 ≡ err (group_error m)
      → (attach_group group_id s).1.cfg ≡ s.cfg
  attach_group-refused group_id m s = (attach_group-outcome group_id s).0 m

  -- When `attach_group` returns, there is a record of the group with the port, the server and the
  -- bus id that it returns and with no failures counted.
  pub attach_group-Recorded :
      (group_id : String) (j : Joined) (s : Client env.World)
      → (attach_group group_id s).0 ≡ ok j
      → Recorded group_id j (attach_group group_id s).1.cfg
  attach_group-Recorded group_id j s = (attach_group-outcome group_id s).1 j
