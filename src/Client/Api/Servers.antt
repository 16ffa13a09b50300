-- ===== src/Client/Api/Servers.antt =====
-- The handlers of client/app/main.py that register, edit and remove servers, and the check of a
-- server's token.
pub mod Links
use usbover_ip.Base.{
  ℕ, String, ◌<>◌, Bool, true, false, not, ◌&&◌, ◌||◌, Option, none, some, List, [], ◌∷◌, ◌==◌,
  if◌then◌else◌, or_text, or_default, truthy_text,
}
use text.Mathlib.Text.{starts_with}
use usbover_ip.Base.Dict.{Dict, lookup, insert, erase}
use usbover_ip.Base.Exec.{
  Result, ok, err, validation_error, http_error, pure, raise, lift, ◌>>=◌, ◌>>◌,
}
use usbover_ip.Outside.{Env}
use usbover_ip.Client.State.{App, Attachment, Server, Config, outside, read, update}
use usbover_ip.Validate.{validate_hostname, validate_port_number}
use usbover_ip.Web.{compare_digest, matched, Request, require_session_user, require_safe_ajax}

-- The texts of a body, each where it has one, and what `int` gives for its ports.
pub record ServerBody : Type 0 where
  pub name : Option String
  pub host : Option String
  pub role : Option String
  pub token : Option String
  pub api_port : Option (Option (Bool × ℕ))
  pub usbip_port : Option (Option (Bool × ℕ))

-- `role if role in ("primary", "backup") else "primary"`
unfoldable pub known_role : String → String
known_role role = if role == "primary" || role == "backup" then role else "primary"

-- `any(a.get("server_id") == server_id for a in attachments.values())`
unfoldable pub has_attachment : String → Dict Attachment → Bool
has_attachment server_id [] = false
has_attachment server_id ((att_id, att) ∷ rest) =
    att.server_id == server_id || has_attachment server_id rest

-- The first server with the token; a server without one is passed over.
unfoldable pub server_of_token : String → Dict Server → Result (Option String)
unfolding matched
server_of_token token [] = ok none
server_of_token token ((server_id, server) ∷ rest) =
    let later = server_of_token token rest in
    if truthy_text server.token
    then matched server_id (compare_digest token server.token) later
    else later

unfoldable pub put_server : String → Server → Config → Config
put_server server_id server d = record d { servers = insert server_id server d.servers }

unfoldable pub remove_server : String → Config → Config
remove_server server_id d = record d { servers = erase server_id d.servers }

module _ ⦃env : Env⦄ where
  unfoldable pub require_server_token : Request → App String
  require_server_token request =
      if starts_with (env.lower request.authorization) "bearer "
      then (do
        cfg ← read
        found ← lift (server_of_token (env.strip (env.suffix 7 request.authorization)) cfg.servers)
        elim found [
          | none ↦ raise (http_error 401 "Not authenticated")
          | some server_id ↦ pure server_id
        ])
      else raise (http_error 401 "Not authenticated")

  unfoldable pub bad_request : {A : Type 0} → Result A → App A
  bad_request (ok a) = pure a
  bad_request (err (validation_error m)) = raise (http_error 400 m)
  bad_request (err e) = raise e

  unfoldable pub guard_browser : Request → App Unit
  guard_browser request = do lift (require_session_user request); lift (require_safe_ajax request)

  unfoldable pub api_add_server : Request → ServerBody → App Server
  api_add_server request body = do
    guard_browser request
    let name = env.prefix 60 (env.strip (or_default body.name ""))
    let host = env.strip (or_default body.host "")
    let role = or_text (some (env.strip (or_default body.role "primary"))) "primary"
    let token = env.strip (or_default body.token "")
    bad_request (validate_hostname host)
    api_port ← bad_request (validate_port_number (or_default body.api_port (some (false, 8000))))
    usbip_port ←
        bad_request (validate_port_number (or_default body.usbip_port (some (false, 3240))))
    if truthy_text name && truthy_text token
        then (do
          server_id ← outside env.new_id
          let server : Server = record {
            id = server_id;
            name = name;
            host = host;
            api_port = api_port;
            usbip_port = usbip_port;
            token = token;
            role = some (known_role role);
            wireguard = none;
          }
          update (put_server server_id server)
          pure server)
        else raise (http_error 400 "name and token are required")

  -- The record is written anew, from the body and from the fields of the old one that it names.
  unfoldable pub edited_server : String → Server → ServerBody → ℕ → ℕ → Server
  edited_server server_id existing body api_port usbip_port =
      let name = env.prefix 60 (env.strip (or_default body.name existing.name)) in
      let role =
        or_text (some (env.strip (or_default body.role (or_default existing.role "primary"))))
          "primary" in
      record {
        id = server_id;
        name = or_text (some name) existing.name;
        host = env.strip (or_default body.host existing.host);
        api_port = api_port;
        usbip_port = usbip_port;
        token = or_text (some (env.strip (or_default body.token ""))) existing.token;
        role = some (known_role role);
        wireguard = none;
      }

  unfoldable pub update_found : String → ServerBody → Option Server → App Server
  update_found server_id body none = raise (http_error 404 "unknown server")
  update_found server_id body (some existing) = do
    bad_request (validate_hostname (env.strip (or_default body.host existing.host)))
    api_port ←
        bad_request
          (validate_port_number (or_default body.api_port (some (false, existing.api_port))))
    usbip_port ←
        bad_request
          (validate_port_number (or_default body.usbip_port (some (false, existing.usbip_port))))
    let updated = edited_server server_id existing body api_port usbip_port
    update (put_server server_id updated)
    pure updated

  unfoldable pub api_update_server : Request → String → ServerBody → App Server
  api_update_server request server_id body = do
    guard_browser request
    cfg ← read
    update_found server_id body (lookup server_id cfg.servers)

  unfoldable pub api_delete_server : Request → String → App Unit
  api_delete_server request server_id = do
    guard_browser request
    cfg ← read
    if has_attachment server_id cfg.attachments
        then raise (http_error 409 "server has an active attachment, detach first")
        else update (remove_server server_id)
