-- ===== src/Client/Groups.antt =====
-- Device groups in client/app/groups.py: attaching a group through the first candidate that is
-- free, and detaching it.
pub mod Candidates
pub mod Joining
pub mod Members
pub mod Unique
use usbover_ip.Base.{
  ℕ, String, ◌<>◌, Bool, true, false, Option, none, some, List, [], ◌∷◌, ◌++◌, ◌==◌, if◌then◌else◌,
  or_text, or_default,
}
use usbover_ip.Base.Dict.{Dict, lookup, insert, erase}
use usbover_ip.Base.Exec.{
  Result, ok, err, message, remote_error, group_error, usbip_error, pure, raise, attempt, ◌>>=◌,
  ◌>>◌,
}
use usbover_ip.Outside.{Env, Device}
use usbover_ip.Client.State.{
  App, Attachment, Server, Group, Candidate, Config, outside, files, read, update_attachments,
  log_event,
}
use usbover_ip.Client.Files.Place.{remove_attachment_node}
use usbover_ip.Client.Remote.{fetch_devices}
use usbover_ip.Client.Usbip.{AttachedPort, attach, detach}
use usbover_ip.Client.Nodes.{update_node_for_port, sync_tmpfiles_conf}
use usbover_ip.Client.Restart.{run_restart_actions}
use usbover_ip.Client.Backoff.{stamp}

-- `a.get(k) == s`, where the key may be missing
unfoldable pub is_text : Option String → String → Bool
is_text none s = false
is_text (some t) s = t == s

-- The answer of `_candidate_status`: may it be attached, why not, and its serial.
pub record Availability : Type 0 where
  pub available : Bool
  pub reason : String
  pub serial : String

unfoldable pub status_of : String → List Device → Availability
status_of busid [] = record {
  available = false;
  reason = "device not currently shared on that server";
  serial = "";
}
status_of busid (d ∷ devices) =
    if d.busid == busid
    then (if d.status == "shared_idle"
        then record { available = true; reason = "available"; serial = or_default d.serial "" }
        else record {
          available = false;
          reason = "status is " <> d.status;
          serial = or_default d.serial "";
        })
    else status_of busid devices

unfoldable pub active_attachment_for_group : String → Dict Attachment → Option (String × Attachment)
unfolding is_text
active_attachment_for_group group_id [] = none
active_attachment_for_group group_id ((att_id, att) ∷ rest) =
    if is_text att.group_id group_id
    then some (att_id, att)
    else active_attachment_for_group group_id rest

-- `"; ".join(errors)`
unfoldable pub join_errors : List String → String
join_errors [] = ""
join_errors (e ∷ []) = e
join_errors (e ∷ f ∷ rest) = e <> "; " <> join_errors (f ∷ rest)

-- What attaching a group answers.
pub record Joined : Type 0 where
  pub port : String
  pub server_id : String
  pub server : String
  pub busid : String

module _ ⦃env : Env⦄ where
  unfoldable pub availability : String → Result (List Device) → App Availability
  availability busid (ok devices) = pure (status_of busid devices)
  availability busid (err (remote_error m)) =
      pure (record { available = false; reason = "unreachable (" <> m <> ")"; serial = "" })
  availability busid (err e) = raise e

  unfoldable pub candidate_status : Server → String → App Availability
  candidate_status server busid = do
    r ← attempt (fetch_devices server.host server.api_port server.token)
    availability busid r

  unfoldable pub group_record :
      String → Server → Candidate → String → Group → String → String → AttachedPort → Attachment
  group_record att_id server c serial group group_id now attached = record {
    id = some att_id;
    server_id = server.id;
    busid = c.busid;
    serial = some serial;
    label = some (or_text c.label group.name);
    group_id = some group_id;
    attached_at = some now;
    auto_failover = some (or_default group.auto_failover true);
    auto_rebind_on_backoff = none;
    restart_actions = some [];
    port = some attached.port;
    local_busid = attached.local_busid;
    failure_count = none;
    next_retry_at = none;
    stable_node = none;
    proxmox = none;
  }

  unfoldable pub log_stable_path : String → Option String → App Unit
  log_stable_path prefix none = pure tt
  log_stable_path prefix (some path) = log_event (prefix <> path)

  -- What follows a successful `usbip attach` of a candidate.
  unfoldable pub join_group :
      String → Server → Candidate → String → Group → AttachedPort → App Joined
  join_group group_id server c serial group attached = do
    now ← outside env.utcnow
    att_id ← outside env.new_id
    update_attachments
        (insert att_id (group_record att_id server c serial group group_id (stamp now) attached))
    log_event (
        "group '" <> group.name <> "' attached via " <> server.name <> "/" <> c.busid <> " (port "
        <> attached.port <> ")")
    stable_path ← update_node_for_port group_id attached.port att_id
    log_stable_path ("group '" <> group.name <> "' stable device path: ") stable_path
    run_restart_actions group.restart_actions
    pure (record {
      port = attached.port;
      server_id = server.id;
      server = server.name;
      busid = c.busid;
    })

  -- `next` goes on with the next candidate, after one more complaint.
  unfoldable pub after_attach :
      String
      → Server
      → Candidate
      → String
      → Group
      → (String → App Joined)
      → Result AttachedPort
      → App Joined
  after_attach group_id server c serial group next (ok attached) =
      join_group group_id server c serial group attached
  after_attach group_id server c serial group next (err (usbip_error m)) =
      next (server.name <> "/" <> c.busid <> ": " <> m)
  after_attach group_id server c serial group next (err e) = raise e

  unfoldable pub try_candidate :
      String → Group → Candidate → Option Server → (String → App Joined) → App Joined
  try_candidate group_id group c none next = next (c.server_id <> ": server not registered")
  try_candidate group_id group c (some server) next = do
    a ← candidate_status server c.busid
    if a.available
        then (do
          r ← attempt (attach server.host server.usbip_port c.busid)
          after_attach group_id server c a.serial group next r)
        else next (server.name <> "/" <> c.busid <> ": " <> a.reason)

  unfoldable pub try_candidates :
      Dict Server → String → Group → List Candidate → List String → App Joined
  try_candidates servers group_id group [] errors = do
    log_event ("group '" <> group.name <> "' attach failed: no candidate available")
    raise (group_error ("no candidate available: " <> join_errors errors))
  try_candidates servers group_id group (c ∷ rest) errors =
      try_candidate group_id group c (lookup c.server_id servers)
        λ complaint. try_candidates servers group_id group rest (errors ++ (complaint ∷ []))

  unfoldable pub attach_group : String → App Joined
  attach_group group_id = do
    cfg ← read
    elim (lookup group_id cfg.groups) [
      | none ↦ raise (group_error "unknown group")
      | some group ↦ elim (active_attachment_for_group group_id cfg.attachments) [
        | some found ↦ raise (group_error "group is already attached")
        | none ↦ try_candidates cfg.servers group_id group group.candidates []
      ]
    ]

  unfoldable pub detach_group : String → App Unit
  detach_group group_id = do
    cfg ← read
    elim (active_attachment_for_group group_id cfg.attachments) [
      | none ↦ raise (group_error "group is not currently attached")
      | some (att_id, att) ↦ do
        detach (or_default att.port "")
        update_attachments (erase att_id)
        files (remove_attachment_node group_id)
        sync_tmpfiles_conf
        log_event ("group detached (was on port " <> or_default att.port "" <> ")")
    ]
