-- ===== src/Client/Groups/Joining.antt =====
-- What `attach_group` does to the configuration: nothing, or one new record of the group.
use usbover_ip.Base.{
  sym, ap, ◌∙◌, String, ◌≡◌, refl, ◌⊎◌, inl, inr, Option, none, some, List, [], ◌∷◌, ◌++◌,
}
use usbover_ip.Base.Dict.{Dict, lookup, insert}
use usbover_ip.Base.Exec.{Exc, Result, ok, err, raise, usbip_error, group_error}
use usbover_ip.Base.Exec.Triple.{
  Triple, Triple-bind, Triple-pure, Triple-raise, Triple-if, Triple-weaken, Triple-gets,
}
use usbover_ip.Outside.{Env}
use usbover_ip.Client.State.{
  App, Attachment, Server, Group, Candidate, Config, Client, read, outside,
}
use usbover_ip.Client.Usbip.{AttachedPort}
use usbover_ip.Client.Backoff.{stamp}
use usbover_ip.Client.Frame.{
  attempt-Triple, Foreign, Frame, Frame→Triple, Frame-outside, Frame-log_event,
}
use usbover_ip.Client.Frame.Calls.{attach-Frame, run_restart_actions-Frame}
use usbover_ip.Client.Frame.Nodes.{
  On, NodeStableAt, with_attachments, Triple-update, update_node_for_port-Triple,
}
use usbover_ip.Client.Groups.{
  Joined, group_record, join_group, after_attach, try_candidate, try_candidates, attach_group,
  active_attachment_for_group,
}
use usbover_ip.Client.Groups.Candidates.{candidate_status-Frame, log_stable_path-Frame}

-- The record that attaching a group adds, beside what attaching it returns.
pub record Matches (group_id : String) (att : Attachment) (j : Joined) : Type 0 where
  pub of_group : att.group_id ≡ some group_id
  pub on_port : att.port ≡ some j.port
  pub from_server : att.server_id ≡ j.server_id
  pub with_busid : att.busid ≡ j.busid
  pub no_failures : att.failure_count ≡ none

abbrev pub Inactive : String → Config → Type 0
Inactive group_id cfg = active_attachment_for_group group_id cfg.attachments ≡ none

module _ ⦃env : Env⦄ where
  group_record-Matches :
      (group_id att_id : String) (server : Server) (c : Candidate) (serial : String) (group : Group)
      (now : String) (attached : AttachedPort)
      → Matches group_id (group_record att_id server c serial group group_id now attached) (record {
        port = attached.port;
        server_id = server.id;
        server = server.name;
        busid = c.busid;
      })
  unfolding group_record
  group_record-Matches group_id att_id server c serial group now attached = record {
    of_group = refl;
    on_port = refl;
    from_server = refl;
    with_busid = refl;
    no_failures = refl;
  }

  -- `C` holds until the record is added, and `D` from then on; a new id is `New`.
  module _ (group_id : String) (New : String → Type 0)
      (news : (w : env.World) → New (env.new_id w).0) (C : Config → Type 0)
      (D : Joined → Config → Type 0)
      (joins : (cfg : Config) (att_id : String) (att : Attachment) (j : Joined)
        → New att_id
        → Matches group_id att j
        → C cfg
        → D j (with_attachments cfg (insert att_id att cfg.attachments)))
      (stable : (j : Joined) (att_id : String) → New att_id → NodeStableAt att_id (D j)) where
    abbrev Failed : Exc → Client env.World → Type 0
    Failed e s = C s.cfg ⊎ ((j : Joined) × D j s.cfg × Foreign e)

    before : {A : Type 0} {m : App A} → Frame m → Triple (On C) m (λ _. On C) Failed
    before h = Triple-weaken (Frame→Triple C h) (λ s c. c) (λ a s c. c) (λ e s c. inl c.0)

    after :
        {A : Type 0} {m : App A} (j : Joined) → Frame m → Triple (On (D j)) m (λ _. On (D j)) Failed
    after j h =
        Triple-weaken (Frame→Triple (D j) h) (λ s c. c) (λ a s c. c) (λ e s c. inr (j, c.0, c.1))

    after-New :
        {A : Type 0} {m : App A} (j : Joined) (id : String)
        → Frame m
        → Triple (λ s. D j s.cfg × New id) m (λ _ s. D j s.cfg × New id) Failed
    after-New j id h =
        Triple-weaken (Frame→Triple (λ c. D j c × New id) h) (λ s c. c) (λ a s c. c)
          (λ e s c. inr (j, c.0.0, c.1))

    with-New :
        {A : Type 0} {P : Client env.World → Type 0} {m : App A} {Q : A → Client env.World → Type 0}
        (id : String)
        → (New id → Triple P m Q Failed)
        → Triple (λ s. P s × New id) m Q Failed
    with-New id h = record { at = λ s c. (h c.1).at s c.0 }

    new_id-Triple : Triple (On C) (outside env.new_id) (λ id s. C s.cfg × New id) Failed
    unfolding outside
    new_id-Triple = record { at = λ s c. (c, news s.world) }

    join_group-Triple :
        (server : Server) (c : Candidate) (serial : String) (group : Group)
        (attached : AttachedPort)
        → Triple (On C) (join_group group_id server c serial group attached) (λ j. On (D j)) Failed
    unfolding join_group
    join_group-Triple server c serial group attached =
        let j : Joined = record {
          port = attached.port;
          server_id = server.id;
          server = server.name;
          busid = c.busid;
        } in
        Triple-bind (before (Frame-outside _)) λ now. Triple-bind new_id-Triple λ att_id.
          Triple-bind
            (Triple-update (λ cfg. C cfg × New att_id) (λ cfg. D j cfg × New att_id) _
              (λ cfg k. (
                joins cfg att_id _ j k.1
                    (group_record-Matches group_id att_id server c serial group (stamp now)
                      attached)
                    k.0,
                k.1,
              )))
            λ _. Triple-bind (after-New j att_id (Frame-log_event _)) λ _. with-New att_id λ new.
              Triple-bind
                (Triple-weaken
                  (update_node_for_port-Triple att_id (stable j att_id new) group_id attached.port)
                  (λ s d. d) (λ a s d. d) (λ e s d. inr (j, d.0, d.1)))
                λ path. Triple-bind (after j (log_stable_path-Frame _ path)) λ _.
                  Triple-bind (after j (run_restart_actions-Frame _)) λ _. Triple-pure j (λ s d. d)

    after_attach-Triple :
        (server : Server) (c : Candidate) (serial : String) (group : Group)
        (next : String → App Joined)
        → ((e : String) → Triple (On C) (next e) (λ j. On (D j)) Failed)
        → (r : Result AttachedPort)
        → Triple (On C) (after_attach group_id server c serial group next r) (λ j. On (D j)) Failed
    unfolding after_attach
    after_attach-Triple server c serial group next h (ok attached) =
        join_group-Triple server c serial group attached
    after_attach-Triple server c serial group next h (err (usbip_error m)) = h _
    after_attach-Triple server c serial group next h (err e) = Triple-raise e (λ s k. inl k)

    try_candidate-Triple :
        (group : Group) (c : Candidate) (server : Option Server) (next : String → App Joined)
        → ((e : String) → Triple (On C) (next e) (λ j. On (D j)) Failed)
        → Triple (On C) (try_candidate group_id group c server next) (λ j. On (D j)) Failed
    unfolding try_candidate
    try_candidate-Triple group c none next h = h _
    try_candidate-Triple group c (some server) next h =
        Triple-bind (before (candidate_status-Frame server c.busid)) λ a.
          Triple-if a.available
            (λ _.
              Triple-bind (attempt-Triple C (attach-Frame server.host server.usbip_port c.busid))
                (after_attach-Triple server c a.serial group next h))
            (λ _. h _)

    try_candidates-Triple :
        (servers : Dict Server) (group : Group) (cs : List Candidate) (errors : List String)
        → Triple (On C) (try_candidates servers group_id group cs errors) (λ j. On (D j)) Failed
    unfolding try_candidates
    try_candidates-Triple servers group [] errors =
        Triple-bind (before (Frame-log_event _)) (λ _. Triple-raise _ (λ s k. inl k))
    try_candidates-Triple servers group (c ∷ rest) errors =
        try_candidate-Triple group c (lookup c.server_id servers) _
          (λ e. try_candidates-Triple servers group rest (errors ++ (e ∷ [])))

  -- `attach_group` looks for an active attachment first, so the record joins a group that has none.
  module _ (group_id : String) (New : String → Type 0)
      (news : (w : env.World) → New (env.new_id w).0) (C : Config → Type 0)
      (D : Joined → Config → Type 0)
      (joins : (cfg : Config) (att_id : String) (att : Attachment) (j : Joined)
        → New att_id
        → Matches group_id att j
        → C cfg × Inactive group_id cfg
        → D j (with_attachments cfg (insert att_id att cfg.attachments)))
      (stable : (j : Joined) (att_id : String) → New att_id → NodeStableAt att_id (D j)) where
    abbrev pub Failure : Exc → Client env.World → Type 0
    Failure e s = C s.cfg ⊎ ((j : Joined) × D j s.cfg × Foreign e)

    from_inactive :
        (cfg : Config) (group : Option Group) (found : Option (String × Attachment))
        → found ≡ active_attachment_for_group group_id cfg.attachments
        → Triple
            (λ s. C s.cfg × (s.cfg ≡ cfg))
            (elim group [
              | none ↦ raise (group_error "unknown group")
              | some g ↦ elim found [
                | some f ↦ raise (group_error "group is already attached")
                | none ↦ try_candidates cfg.servers group_id g g.candidates []
              ]
            ])
            (λ j. On (D j))
            Failure
    from_inactive cfg none found e = Triple-raise _ (λ s c. inl c.0)
    from_inactive cfg (some g) (some f) e = Triple-raise _ (λ s c. inl c.0)
    from_inactive cfg (some g) none e =
        Triple-weaken
          (try_candidates-Triple group_id New news (λ c. C c × Inactive group_id c) D joins stable
            cfg.servers g g.candidates [])
          (λ s c. (
            c.0,
            ap (λ (k : Config). active_attachment_for_group group_id k.attachments) c.1 ∙ sym e,
          ))
          (λ j s d. d) (λ e s f. elim f [ inl c ↦ inl c.0 | inr d ↦ inr d ])

    pub attach_group-Triple : Triple (On C) (attach_group group_id) (λ j. On (D j)) Failure
    unfolding attach_group read
    attach_group-Triple = Triple-bind (Triple-gets (λ s. s.cfg)) (λ cfg.
        Triple-weaken (from_inactive cfg (lookup group_id cfg.groups) _ refl)
          (λ s c. (c.0, sym c.1)) (λ j s d. d) (λ e s f. f))
