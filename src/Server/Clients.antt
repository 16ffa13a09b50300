-- ===== src/Server/Clients.antt =====
-- The clients that are registered at the server: the handlers of server/app/main.py and the check of
-- a bearer token.
pub mod Tokens
use usbover_ip.Base.{
  ℕ, String, ◌<>◌, Bool, true, false, ◌&&◌, Option, none, some, List, [], ◌∷◌, ◌==◌, if◌then◌else◌,
  truthy, truthy_text, or_default,
}
use text.Mathlib.Text.{starts_with}
use usbover_ip.Base.Dict.{Dict, lookup, insert, erase}
use usbover_ip.Base.Exec.{
  Result, ok, err, validation_error, http_error, pure, raise, lift, attempt, ◌>>=◌, ◌>>◌,
}
use usbover_ip.Server.State.{Env, App, ClientRecord, Config, outside, read, update, log_event}
use usbover_ip.Validate.{validate_hostname, validate_port_number}
use usbover_ip.Web.{Request, compare_digest, matched, require_session_user, require_safe_ajax}

-- The first client with the token; a client without one is passed over.
unfoldable pub client_of_token : String → Dict ClientRecord → Result (Option String)
unfolding matched
client_of_token token [] = ok none
client_of_token token ((client_id, client) ∷ rest) =
    let later = client_of_token token rest in
    if truthy_text client.token
    then matched client_id (compare_digest token client.token) later
    else later

unfoldable pub set_found :
    String → (ClientRecord → ClientRecord) → Config → Option ClientRecord → Config
set_found client_id f d none = d
set_found client_id f d (some client) = record d { clients = insert client_id (f client) d.clients }

unfoldable pub set_client : String → (ClientRecord → ClientRecord) → Config → Config
unfolding set_found
set_client client_id f d = set_found client_id f d (lookup client_id d.clients)

unfoldable pub set_token : String → String → Config → Config
unfolding set_client
set_token client_id token = set_client client_id (λ client. record client { token = token })

unfoldable pub remove_client : String → Config → Config
remove_client client_id d = record d { clients = erase client_id d.clients }

module _ ⦃env : Env⦄ where
  unfoldable pub accept_client : Option String → App String
  accept_client none = raise (http_error 401 "Not authenticated")
  accept_client (some client_id) = do
    now ← outside env.utcnow
    update (
        set_client client_id
          (λ client. record client { last_seen = some (env.isoformat now <> "Z") }))
    pure ("client:" <> client_id)

  -- A session, or the token of a client.
  unfoldable pub require_bearer_or_session : Request → App String
  require_bearer_or_session request =
      if truthy request.user
      then pure ("session:" <> or_default request.user "")
      else if starts_with (env.lower request.authorization) "bearer "
      then (do
        cfg ← read
        found ← lift (client_of_token (env.strip (env.suffix 7 request.authorization)) cfg.clients)
        accept_client found)
      else raise (http_error 401 "Not authenticated")

  unfoldable pub bad_request : {A : Type 0} → Result A → App A
  bad_request (ok a) = pure a
  bad_request (err (validation_error m)) = raise (http_error 400 m)
  bad_request (err e) = raise e

  -- `api_port` is what `int` gives for the port of the body.
  unfoldable pub api_add_client :
      Request → String → String → Option (Bool × ℕ) → App (ClientRecord × String)
  api_add_client request body_name body_host api_port = do
    lift (require_session_user request)
    lift (require_safe_ajax request)
    let name = env.prefix 60 (env.strip body_name)
    let host = env.strip body_host
    if truthy_text name
        then (do
          bad_request (validate_hostname host)
          port ← bad_request (validate_port_number api_port)
          client_id ← outside env.new_id
          token ← outside env.new_token
          now ← outside env.utcnow
          let client : ClientRecord = record {
            id = client_id;
            name = name;
            host = host;
            api_port = port;
            token = token;
            created_at = env.isoformat now <> "Z";
            last_seen = none;
          }
          update (λ d. record d { clients = insert client_id client d.clients })
          log_event ("registered client '" <> name <> "' (" <> host <> ":" <> env.str port <> ")")
          pure (client, token))
        else raise (http_error 400 "name is required")

  unfoldable pub rotate_found : String → Option ClientRecord → App String
  rotate_found client_id none = raise (http_error 404 "unknown client")
  rotate_found client_id (some client) = do
    new_token ← outside env.new_token
    update (set_token client_id new_token)
    log_event ("rotated token for client '" <> client.name <> "'")
    pure new_token

  unfoldable pub api_rotate_client : Request → String → App String
  api_rotate_client request client_id = do
    lift (require_session_user request)
    lift (require_safe_ajax request)
    cfg ← read
    rotate_found client_id (lookup client_id cfg.clients)

  unfoldable pub log_removal : Option ClientRecord → App Unit
  log_removal none = pure tt
  log_removal (some client) = log_event ("removed client '" <> client.name <> "'")

  unfoldable pub api_delete_client : Request → String → App Unit
  api_delete_client request client_id = do
    lift (require_session_user request)
    lift (require_safe_ajax request)
    cfg ← read
    update (remove_client client_id)
    log_removal (lookup client_id cfg.clients)
