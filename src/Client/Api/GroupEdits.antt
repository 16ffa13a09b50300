-- ===== src/Client/Api/GroupEdits.antt =====
-- The handlers of client/app/main.py that create, edit and remove groups, and attach and detach them.
use usbover_ip.Base.{
  ℕ, String, ◌<>◌, Bool, true, false, ◌&&◌, ◌||◌, Option, none, some, List, [], ◌∷◌, ◌==◌, take,
  if◌then◌else◌, or_text, or_default, truthy_text,
}
use usbover_ip.Base.Dict.{Dict, lookup, insert, erase}
use usbover_ip.Base.Exec.{
  Result, ok, err, group_error, http_error, pure, raise, lift, attempt, ◌>>=◌, ◌>>◌,
}
use usbover_ip.Outside.{Env}
use usbover_ip.Client.State.{
  App, Attachment, Server, Group, Candidate, Action, Config, outside, read, update,
}
use usbover_ip.Client.Groups.{is_text, Joined, attach_group, detach_group}
use usbover_ip.Client.Api.Servers.{guard_browser}
use usbover_ip.Validate.{validate_busid}
use usbover_ip.Web.{Request}

-- An item of a body's `restart_actions`, where it is an object; its texts are already `str(…)`.
pub record RawAction : Type 0 where
  pub kind : String
  pub name : String

-- A candidate of a body, and the body.
pub record GroupBody : Type 0 where
  pub name : Option String
  pub candidates : Option (List Candidate)
  pub auto_failover : Option Bool
  pub restart_actions : Option (List (Option RawAction))

unfoldable pub group_in_use : String → Dict Attachment → Bool
unfolding is_text
group_in_use group_id [] = false
group_in_use group_id ((att_id, att) ∷ rest) =
    is_text att.group_id group_id || group_in_use group_id rest

unfoldable pub put_group : String → Group → Config → Config
put_group group_id group d = record d { groups = insert group_id group d.groups }

unfoldable pub remove_group : String → Config → Config
remove_group group_id d = record d { groups = erase group_id d.groups }

module _ ⦃env : Env⦄ where
  -- The loop of `_clean_restart_actions`, after its cut to ten items.
  unfoldable pub clean_actions : List (Option RawAction) → List Action
  clean_actions [] = []
  clean_actions (none ∷ rest) = clean_actions rest
  clean_actions (some item ∷ rest) =
      let kind = env.strip item.kind in
      let name = env.prefix 128 (env.strip item.name) in
      let others = clean_actions rest in
      if (kind == "docker" || kind == "systemd") && truthy_text name
      then record { kind = some kind; name = some name } ∷ others
      else others

  unfoldable pub clean_restart_actions : Option (List (Option RawAction)) → List Action
  clean_restart_actions none = []
  clean_restart_actions (some raw) = clean_actions (take 10 raw)

  -- Each candidate names a registered server and a well-formed bus id.
  unfoldable pub clean_candidates : Dict Server → List Candidate → App (List Candidate)
  clean_candidates servers [] = pure []
  clean_candidates servers (c ∷ rest) = elim (lookup c.server_id servers) [
    | none ↦ raise (http_error 400 ("unknown server_id " <> c.server_id))
    | some server ↦ do
      lift (validate_busid env.is_digit c.busid)
      others ← clean_candidates servers rest
      pure (record c { label = some (env.prefix 60 (or_default c.label "")) } ∷ others)
  ]

  unfoldable pub create_with : String → GroupBody → List Candidate → App Group
  create_with name body [] = raise (http_error 400 "name and at least one candidate are required")
  create_with name body (c ∷ rest) = do
    cfg ← read
    clean ← clean_candidates cfg.servers (c ∷ rest)
    group_id ← outside env.new_id
    let group : Group = record {
      id = group_id;
      name = name;
      candidates = clean;
      auto_failover = some (or_default body.auto_failover true);
      restart_actions = some (clean_restart_actions body.restart_actions);
    }
    update (put_group group_id group)
    pure group

  unfoldable pub api_create_group : Request → GroupBody → App Group
  api_create_group request body = do
    guard_browser request
    let name = env.prefix 60 (env.strip (or_default body.name ""))
    if truthy_text name
        then create_with name body (or_default body.candidates [])
        else raise (http_error 400 "name and at least one candidate are required")

  -- Actions that the body leaves out are cleaned again from the record.
  unfoldable pub raw_actions : List Action → List (Option RawAction)
  raw_actions [] = []
  raw_actions (a ∷ rest) =
      some (record { kind = or_default a.kind ""; name = or_default a.name "" }) ∷ raw_actions rest

  unfoldable pub old_actions : Option (List Action) → Option (List (Option RawAction))
  old_actions none = none
  old_actions (some actions) = some (raw_actions actions)

  unfoldable pub update_with : String → GroupBody → Group → List Candidate → App Group
  update_with group_id body existing [] =
      raise (http_error 400 "at least one candidate is required")
  update_with group_id body existing (c ∷ rest) = do
    cfg ← read
    clean ← clean_candidates cfg.servers (c ∷ rest)
    let name = env.prefix 60 (env.strip (or_default body.name existing.name))
    let updated : Group = record {
      id = group_id;
      name = or_text (some name) existing.name;
      candidates = clean;
      auto_failover = some (or_default body.auto_failover (or_default existing.auto_failover true));
      restart_actions = some (elim body.restart_actions [
        | none ↦ clean_restart_actions (old_actions existing.restart_actions)
        | some raw ↦ clean_restart_actions (some raw)
      ]);
    }
    update (put_group group_id updated)
    pure updated

  unfoldable pub update_found : String → GroupBody → Dict Attachment → Option Group → App Group
  update_found group_id body attachments none = raise (http_error 404 "unknown group")
  update_found group_id body attachments (some existing) =
      if group_in_use group_id attachments
      then raise (http_error 409 "group is currently attached, detach first")
      else update_with group_id body existing (or_default body.candidates existing.candidates)

  unfoldable pub api_update_group : Request → String → GroupBody → App Group
  api_update_group request group_id body = do
    guard_browser request
    cfg ← read
    update_found group_id body cfg.attachments (lookup group_id cfg.groups)

  unfoldable pub api_delete_group : Request → String → App Unit
  api_delete_group request group_id = do
    guard_browser request
    cfg ← read
    if group_in_use group_id cfg.attachments
        then raise (http_error 409 "group is currently attached, detach first")
        else update (remove_group group_id)

  -- `except GroupError` with the status that the handler answers.
  unfoldable pub group_failure : {A : Type 0} → ℕ → Result A → App A
  group_failure status (ok a) = pure a
  group_failure status (err (group_error m)) = raise (http_error status m)
  group_failure status (err e) = raise e

  unfoldable pub api_attach_group : Request → String → App Joined
  api_attach_group request group_id = do
    guard_browser request
    r ← attempt (attach_group group_id)
    group_failure 502 r

  unfoldable pub api_detach_group : Request → String → App Unit
  api_detach_group request group_id = do
    guard_browser request
    r ← attempt (detach_group group_id)
    group_failure 404 r
