-- ===== src/Client/Remote.antt =====
-- client/app/remote_client.py: requests to a server's API, and what its answers mean.
use usbover_ip.Base.{
  ℕ, String, ◌<>◌, false, not, some, none, Bool, List, eqb, if◌then◌else◌, truthy_text,
}
use usbover_ip.Base.Exec.{Result, ok, err, remote_error, lift, attempt, pure, ◌>>=◌, ◌>>◌}
use usbover_ip.Outside.{Env, Call, Device, Method, Reply, request_error, response, returned, raised}
use usbover_ip.Client.State.{App, outcome, outside}
use usbover_ip.Validate.{validate_hostname, validate_port_number, validate_busid}

module _ ⦃env : Env⦄ where
  unfoldable pub base_url : String → ℕ → App String
  base_url host api_port = do
    lift (validate_hostname host)
    port ← lift (validate_port_number (some (false, api_port)))
    lift (ok ("http://" <> host <> ":" <> env.str port))

  unfoldable pub devices_of : Reply → Result (List Device)
  devices_of (request_error e) = err (remote_error ("could not reach server: " <> e))
  devices_of (response r) =
      if eqb r.status_code 401
      then err (remote_error "server rejected token (unauthorized)")
      else if not (eqb r.status_code 200)
      then err (remote_error ("server returned HTTP " <> env.str r.status_code))
      else outcome r.devices

  unfoldable pub fetch_devices : String → ℕ → String → App (List Device)
  fetch_devices host api_port token = do
    base ← base_url host api_port
    reply ← outside (
        env.http (record {
          method = Method.get;
          url = base <> "/api/devices";
          token = some token;
          timeout = 8;
        }))
    lift (devices_of reply)

  -- `detail` stays empty if the body is no JSON.
  unfoldable pub error_detail : Call String → String
  error_detail (raised m) = ""
  error_detail (returned text) = text

  unfoldable pub check_status : ℕ → Call String → Result (Unit {0})
  unfolding error_detail
  check_status status_code body =
      let detail = error_detail body in
      if eqb status_code 401
      then err (remote_error "server rejected token (unauthorized)")
      else if not (eqb status_code 200)
      then err (
          remote_error (
            "server returned HTTP "
            <> env.str status_code
            <> (if truthy_text detail then ": " <> detail else "")))
      else ok tt

  unfoldable pub accepted : Reply → Result (Unit {0})
  unfolding check_status
  accepted (request_error e) = err (remote_error ("could not reach server: " <> e))
  accepted (response r) = check_status r.status_code r.detail

  -- The shared text of `request_share` and `request_rebind`.
  unfoldable pub post_device : String → String → ℕ → String → String → App Unit
  post_device action host api_port token busid = do
    lift (validate_busid env.is_digit busid)
    base ← base_url host api_port
    reply ← outside (
        env.http (record {
          method = Method.post;
          url = base <> "/api/devices/" <> busid <> action;
          token = some token;
          timeout = 10;
        }))
    lift (accepted reply)

  unfoldable pub request_share : String → ℕ → String → String → App Unit
  request_share = post_device "/request-share"

  unfoldable pub request_rebind : String → ℕ → String → String → App Unit
  request_rebind = post_device "/rebind"

  unfoldable pub healthy : Reply → Result Bool
  healthy (request_error e) = err (remote_error e)
  healthy (response r) = ok (eqb r.status_code 200)

  unfoldable pub ask_health : String → ℕ → App Bool
  ask_health host api_port = do
    base ← base_url host api_port
    reply ← outside (
        env.http
          (record { method = Method.get; url = base <> "/api/health"; token = none; timeout = 4 }))
    lift (healthy reply)

  -- `except Exception: return False`
  unfoldable pub health_known : Result Bool → App Bool
  health_known (ok online) = pure online
  health_known (err e) = pure false

  unfoldable pub check_health : String → ℕ → App Bool
  check_health host api_port = do r ← attempt (ask_health host api_port); health_known r
