-- ===== src/Client/Backoff/Records.antt =====
-- What the bookkeeping of reconnects does to the configuration.
use mathlib.Core.Option.{some-injective}
use usbover_ip.Base.{
  leb, ℕ, ◌+◌, String, ◌≡◌, refl, ap, sym, subst, ◌∙◌, inl, inr, false, Option, none, some, ◌==◌,
  eq_iff, eq_refl, or_default, truthy, Bool-cases,
}
use usbover_ip.Base.Dict.{lookup, insert, lookup-insert}
use usbover_ip.Base.Exec.{Result, ok, err, remote_error}
use usbover_ip.Base.Exec.Triple.{Triple, Triple-bind, Triple-pure, Triple-if, Triple-gets, Outcome}
use usbover_ip.Outside.{Env}
use usbover_ip.Client.Files.{StableNode}
use usbover_ip.Client.State.{App, Attachment, Server, Config, read}
use usbover_ip.Client.Nodes.{adjust}
use usbover_ip.Client.Frame.{
  Foreign, ForeignResult, Frame, Frame→Triple, Frame-pure, Frame-raise, Frame-outside, Frame-if,
  Frame-try, Frame-bind, Frame-log_event, Frame-gets, Frame-record,
}
use usbover_ip.Client.Frame.Calls.{request_rebind-Frame}
use usbover_ip.Client.Frame.Nodes.{On, NodeStable, with_attachments, set_node, Triple-update}
use usbover_ip.Client.Backoff.{
  backoff_threshold, bump, bump_found, count_only, count_and_back_off, note_reconnect_failure,
  report_rebind, force_rebind, startup_rebind, maybe_force_rebind,
}

-- The configuration has a record at `key` that meets `F`.
pub record At (key : String) (F : Attachment → Type 0) (cfg : Config) : Type 0 where
  pub att : Attachment
  pub there : lookup key cfg.attachments ≡ some att
  pub holds : F att

module _ (key : String) (F : Attachment → Type 0) where
  pub At-insert :
      (cfg : Config) (a : Attachment)
      → F a
      → At key F (with_attachments cfg (insert key a cfg.attachments))
  At-insert cfg a h = record { att = a; there = rw (lookup-insert, eq_refl); holds = h }

  pub At-adjust :
      ((a : Attachment) (node : StableNode) → F a → F (set_node node a)) → NodeStable (At key F)
  unfolding adjust
  At-adjust keep cfg k node r = go (lookup k cfg.attachments) refl
    where
      go :
          (o : Option Attachment)
          → lookup k cfg.attachments ≡ o
          → At key F (
              with_attachments cfg (elim o [
                | none ↦ cfg.attachments
                | some att ↦ insert k (set_node node att) cfg.attachments
              ]))
      go none e = r
      go (some a) e = elim (Bool-cases (k == key)) [
        | inl same ↦
            let e' : r.att ≡ a = some-injective _ _ (
              sym r.there ∙ ap (λ x. lookup x cfg.attachments) (sym ((eq_iff k key).0 same)) ∙ e) in
            record {
              att = set_node node a;
              there = rw (lookup-insert, same);
              holds = keep a node (subst F e' r.holds);
            }
        | inr differ ↦ record {
          att = r.att;
          there = rw (lookup-insert, differ) r.there;
          holds = r.holds;
        }
      ]

-- One more failure, and otherwise the record as it was.
pub record OneMoreFailure (att a : Attachment) : Type 0 where
  pub counted : a.failure_count ≡ some (or_default att.failure_count 0 + 1)
  pub same_port : a.port ≡ att.port
  pub same_busid : a.busid ≡ att.busid
  pub same_server : a.server_id ≡ att.server_id
  pub same_group : a.group_id ≡ att.group_id
  pub same_serial : a.serial ≡ att.serial
  pub same_failover : a.auto_failover ≡ att.auto_failover

-- A record with no failures and no pause.
pub record NoFailures (a : Attachment) : Type 0 where
  pub zero_failures : or_default a.failure_count 0 ≡ 0
  pub no_retry : truthy a.next_retry_at ≡ false

-- The record of an attachment, as it is, and with one more failure.
abbrev pub Has : String → Attachment → Config → Type 0
Has att_id att cfg = lookup att_id cfg.attachments ≡ some att

abbrev pub Counted : String → Attachment → Config → Type 0
Counted att_id att = At att_id (OneMoreFailure att)

module _ ⦃env : Env⦄ where
  report_rebind-Frame :
      (label why : String) (server : Server) (r : Result (Unit {0}))
      → ForeignResult r
      → Frame (report_rebind label why server r)
  unfolding report_rebind
  report_rebind-Frame label why server (ok _) h = Frame-log_event _
  report_rebind-Frame label why server (err (remote_error m)) h = Frame-log_event _
  report_rebind-Frame label why server (err e) h = Frame-raise _ h

  force_rebind-Frame :
      (label why : String) (server : Server) (busid : String)
      → Frame (force_rebind label why server busid)
  unfolding force_rebind
  force_rebind-Frame label why server busid =
      Frame-try (request_rebind-Frame _ _ _ _) (report_rebind-Frame label why server)

  startup_rebind-Frame :
      (att_id label : String) (server : Server) (busid : String)
      → Frame (startup_rebind att_id label server busid)
  unfolding startup_rebind
  startup_rebind-Frame att_id label server busid = Frame-bind (Frame-gets _) λ requested.
      Frame-if _ (Frame-pure _) (
        Frame-bind (Frame-outside _) λ now. Frame-bind (Frame-gets _) λ started.
          Frame-if _
            (Frame-bind (Frame-record _ (λ s. refl)) (λ _. force_rebind-Frame _ _ server busid))
            (Frame-pure _))

  pub maybe_force_rebind-Frame :
      (att : Attachment) (att_id : String) (server : Server) (busid : String) (n : ℕ)
      (error : String)
      → Frame (maybe_force_rebind att att_id server busid n error)
  unfolding maybe_force_rebind
  maybe_force_rebind-Frame att att_id server busid n error = Frame-if _ (Frame-pure _) (
      Frame-if _ (force_rebind-Frame _ _ server busid)
        (Frame-if _ (startup_rebind-Frame att_id _ server busid) (Frame-pure _)))

  module _ (att_id : String) (att : Attachment) where
    abbrev count : ℕ
    count = or_default att.failure_count 0 + 1

    abbrev Counts : App ℕ → Type 0
    Counts m =
        Triple (On (Has att_id att)) m (λ _. On (Counted att_id att))
          (λ e s. (Has att_id att) s.cfg × Foreign e)

    count_only-Triple : Counts (count_only att_id att count)
    unfolding count_only
    count_only-Triple =
        Triple-bind
          (Triple-update (Has att_id att) (Counted att_id att) _ (λ cfg h.
            At-insert att_id (OneMoreFailure att) cfg (record att { failure_count = some count })
              one_more))
          (λ _. Triple-pure count (λ s c. c))
      where
        one_more : OneMoreFailure att (record att { failure_count = some count })
        one_more = record {
          counted = refl;
          same_port = refl;
          same_busid = refl;
          same_server = refl;
          same_group = refl;
          same_serial = refl;
          same_failover = refl;
        }

    count_and_back_off-Triple : Counts (count_and_back_off att_id att count)
    unfolding count_and_back_off
    count_and_back_off-Triple =
        Triple-bind (Frame→Triple (Has att_id att) (Frame-outside env.utcnow)) λ now.
          Triple-bind (Frame→Triple (Has att_id att) (Frame-log_event _)) λ _.
            Triple-bind
              (Triple-update (Has att_id att) (Counted att_id att) _
                (λ cfg h. At-insert att_id (OneMoreFailure att) cfg _ (one_more _)))
              (λ _. Triple-pure count (λ s c. c))
      where
        one_more :
            (retry : Option String)
            → OneMoreFailure att (record att { failure_count = some count; next_retry_at = retry })
        one_more retry = record {
          counted = refl;
          same_port = refl;
          same_busid = refl;
          same_server = refl;
          same_group = refl;
          same_serial = refl;
          same_failover = refl;
        }

    bump-Triple : Counts (bump att_id att)
    unfolding bump
    bump-Triple =
        Triple-if (leb backoff_threshold count) (λ _. count_and_back_off-Triple)
          (λ _. count_only-Triple)

    pub note_reconnect_failure-Triple :
        Triple
          (On (Has att_id att))
          (note_reconnect_failure att_id)
          (λ _. On (Counted att_id att))
          (λ e s. (Has att_id att) s.cfg × Foreign e)
    unfolding note_reconnect_failure bump_found read
    note_reconnect_failure-Triple =
        Triple-bind (Triple-gets (λ s. s.cfg)) (λ cfg. go cfg (lookup att_id cfg.attachments) refl)
      where
        go :
            (cfg : Config) (o : Option Attachment)
            → lookup att_id cfg.attachments ≡ o
            → Triple
                (λ s. (Has att_id att) s.cfg × (cfg ≡ s.cfg))
                (bump_found att_id o)
                (λ _. On (Counted att_id att))
                (λ e s. (Has att_id att) s.cfg × Foreign e)
        go cfg none e = record { at = λ s h. cc }
        go cfg (some a) e = record {
          at = λ s h.
              let same : att ≡ a =
                some-injective _ _
                  (sym h.0 ∙ ap (λ (k : Config). lookup att_id k.attachments) (sym h.1) ∙ e) in
              subst
                (λ x.
                  Outcome (λ _. On (Counted att_id att)) (λ e s. (Has att_id att) s.cfg × Foreign e)
                    (bump att_id x s).0 (bump att_id x s).1)
                same (bump-Triple.at s h.0);
        }
