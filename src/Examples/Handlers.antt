-- ===== src/Examples/Handlers.antt =====
-- Runs of the handlers on devices and servers.
use usbover_ip.Base.{◌≡◌, refl, true, ◌&&◌, ◌||◌, none, some, [], ◌∷◌}
use usbover_ip.Base.Lists.{contains}
use usbover_ip.Base.Dict.{lookup}
use usbover_ip.Base.Exec.{ok, err, http_error, ◌>>=◌, for_each}
use usbover_ip.Web.{require_session_user, require_safe_ajax}
use usbover_ip.Client.State.{Server}
use usbover_ip.Client.Api.Servers.{
  ServerBody, api_update_server, guard_browser, update_found, edited_server, known_role,
  bad_request,
}
use usbover_ip.Client.Api.Servers.Links.{api_update_server_lem}
use usbover_ip.Server.Devices.{
  bind_device, unbind_device, check_proc, get_device_serial, list_local_devices, scan_lines,
}
use usbover_ip.Client.State
use usbover_ip.Server.State.{outside, outside_try, update, read, log_event}
use usbover_ip.Server.Notify.{push_to, report_push, notify_clients_device_available}
use usbover_ip.Server.Share.{mark_shared, api_share, api_unshare, refuse, announce}
use usbover_ip.Server.Share.Effects.{api_unshare_lem, api_share_lem, api_share-err}
use usbover_ip.Validate.{validate_busid, validate_hostname, validate_port_number}
use usbover_ip.Examples.Home.{Home, client, hub}
use usbover_ip.Examples.Gateway.{Gateway, browser, stranger, sharing, server_config, same_elements}

unshared : (api_unshare browser "1-2" sharing).0 ≡ ok tt
unfolding api_unshare ◌>>=◌ require_session_user require_safe_ajax refuse validate_busid
    unbind_device check_proc outside_try outside update log_event
unshared = refl

api_unshare_lem_example :
    (contains (api_unshare browser "1-2" sharing).1.cfg.shared_devices "1-1"
      ≡ (contains ("1-1" ∷ "1-2" ∷ []) "1-1" && true))
    × ((api_unshare browser "1-2" sharing).1.cfg.device_labels ≡ server_config.device_labels)
api_unshare_lem_example = api_unshare_lem browser "1-2" sharing unshared "1-1"

shared : (api_share browser "1-3" sharing).0 ≡ ok tt
unfolding api_share ◌>>=◌ require_session_user require_safe_ajax refuse validate_busid bind_device
    check_proc outside_try outside update log_event get_device_serial list_local_devices scan_lines
    announce notify_clients_device_available read for_each push_to report_push mark_shared
shared = refl

api_share_lem_example :
    contains (api_share browser "1-3" sharing).1.cfg.shared_devices "1-3"
    ≡ (true || contains ("1-1" ∷ "1-2" ∷ []) "1-3")
api_share_lem_example = api_share_lem browser "1-3" sharing shared same_elements "1-3"

refused_share : (api_share stranger "1-3" sharing).0 ≡ err (http_error 401 "Not authenticated")
unfolding api_share ◌>>=◌ require_session_user
refused_share = refl

api_share-err_example : (api_share stranger "1-3" sharing).1.cfg ≡ server_config
api_share-err_example =
    api_share-err stranger "1-3" sharing (http_error 401 "Not authenticated") refused_share

abbrev body : ServerBody
body = record {
  name = none;
  host = some "10.77.0.1";
  role = none;
  token = none;
  api_port = none;
  usbip_port = none;
}

abbrev moved : Server
moved = record hub { host = "10.77.0.1" }

edited : (api_update_server browser "hub" body client).0 ≡ ok moved
unfolding api_update_server ◌>>=◌ guard_browser require_session_user require_safe_ajax
    usbover_ip.Client.State.read update_found lookup bad_request validate_hostname
    validate_port_number usbover_ip.Client.State.update edited_server known_role
edited = refl

api_update_server_lem_example :
    (lookup "hub" (api_update_server browser "hub" body client).1.cfg.servers ≡ some moved)
    × (moved.wireguard ≡ none)
api_update_server_lem_example = api_update_server_lem browser "hub" body moved client edited
