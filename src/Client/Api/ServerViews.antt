-- ===== src/Client/Api/ServerViews.antt =====
-- The handlers of client/app/main.py that show the servers: their list, the devices of one, whether
-- it answers, and the tunnels.
use usbover_ip.Base.{
  ℕ, String, Bool, Option, none, some, List, [], ◌∷◌, ◌==◌, if◌then◌else◌, truthy_text, or_default,
}
use usbover_ip.Base.Dict.{Dict, lookup}
use usbover_ip.Base.Exec.{
  Result, ok, err, remote_error, http_error, pure, raise, lift, attempt, ◌>>=◌, ◌>>◌,
}
use usbover_ip.Outside.{Env, Device}
use usbover_ip.Client.State.{App, Server, Tunnel, outside, on_machine, read}
use usbover_ip.Client.Remote.{fetch_devices, check_health}
use usbover_ip.Client.Tunnels.{Tools, box}
use usbover_ip.Web.{Request, require_session_user}
use usbover_ip.Wireguard.Status.{PeerStatus, InterfaceStatus, interface_status, is_down}

-- A server without its token.
pub record PublicServer : Type 0 where
  pub id : String
  pub name : String
  pub host : String
  pub api_port : ℕ
  pub usbip_port : ℕ
  pub role : String
  pub has_token : Bool
  pub wireguard : Option Tunnel

unfoldable pub public_server : Server → PublicServer
public_server s = record {
  id = s.id;
  name = s.name;
  host = s.host;
  api_port = s.api_port;
  usbip_port = s.usbip_port;
  role = or_default s.role "primary";
  has_token = truthy_text s.token;
  wireguard = s.wireguard;
}

unfoldable pub public_servers : Dict Server → List PublicServer
unfolding public_server
public_servers [] = []
public_servers ((server_id, server) ∷ servers) = public_server server ∷ public_servers servers

-- The live state of a tunnel.
pub record TunnelView : Type 0 where
  pub server_id : String
  pub server_name : String
  pub assigned_ip : String
  pub server_wg_ip : String
  pub up : Bool
  pub latest_handshake : ℕ

pub record TunnelsView : Type 0 where
  pub available : Bool
  pub public_key : String
  pub tunnels : List TunnelView

-- `next((p for p in peers if p["public_key"] == key), None)`
unfoldable pub find_peer : String → List PeerStatus → Option PeerStatus
find_peer key [] = none
find_peer key (p ∷ peers) = if p.public_key == key then some p else find_peer key peers

-- `peer["latest_handshake"] if peer else 0`
unfoldable pub handshake_of : Option PeerStatus → ℕ
handshake_of none = 0
handshake_of (some peer) = peer.latest_handshake

unfoldable pub tunnel_view : String → Server → Tunnel → InterfaceStatus → TunnelView
unfolding find_peer handshake_of
tunnel_view server_id server t live = record {
  server_id = server_id;
  server_name = server.name;
  assigned_ip = t.assigned_ip;
  server_wg_ip = t.server_wg_ip;
  up = live.up;
  latest_handshake = handshake_of (find_peer t.server_pubkey live.peers);
}

module _ ⦃env : Env⦄ where
  unfoldable pub api_list_servers : Request → App (List PublicServer)
  unfolding public_servers
  api_list_servers request = do
    lift (require_session_user request)
    cfg ← read
    pure (public_servers cfg.servers)

  unfoldable pub devices_failure : Result (List Device) → App (List Device)
  devices_failure (ok devices) = pure devices
  devices_failure (err (remote_error m)) = raise (http_error 502 m)
  devices_failure (err e) = raise e

  unfoldable pub devices_found : Option Server → App (List Device)
  devices_found none = raise (http_error 404 "unknown server")
  devices_found (some server) = do
    r ← attempt (fetch_devices server.host server.api_port server.token)
    devices_failure r

  unfoldable pub api_server_devices : Request → String → App (List Device)
  api_server_devices request server_id = do
    lift (require_session_user request)
    cfg ← read
    devices_found (lookup server_id cfg.servers)

  unfoldable pub health_found : Option Server → App Bool
  health_found none = raise (http_error 404 "unknown server")
  health_found (some server) = check_health server.host server.api_port

  unfoldable pub api_server_health : Request → String → App Bool
  api_server_health request server_id = do
    lift (require_session_user request)
    cfg ← read
    health_found (lookup server_id cfg.servers)

module _ ⦃env : Env⦄ (tools : Tools) where
  unfoldable pub live_status : Bool → String → App InterfaceStatus
  live_status available interface =
      if available then on_machine (interface_status (box tools) interface) else pure is_down

  unfoldable pub tunnel_views : Bool → Dict Server → App (List TunnelView)
  unfolding tunnel_view
  tunnel_views available [] = pure []
  tunnel_views available ((server_id, server) ∷ servers) = elim server.wireguard [
    | none ↦ tunnel_views available servers
    | some t ↦ do
      live ← live_status available t.interface
      rest ← tunnel_views available servers
      pure (tunnel_view server_id server t live ∷ rest)
  ]

  unfoldable pub api_wireguard_status : Request → App TunnelsView
  api_wireguard_status request = do
    lift (require_session_user request)
    cfg ← read
    available ← outside tools.available
    tunnels ← tunnel_views available cfg.servers
    pure
        (record { available = available; public_key = cfg.wireguard.public_key; tunnels = tunnels })
