-- ===== src/Server/Views.antt =====
-- The handlers of server/app/main.py that show, and the name of the server.
use mathlib.Core.List.{foldl}
use usbover_ip.Base.{
  ℕ, String, Bool, Option, none, some, List, [], ◌∷◌, if◌then◌else◌, truthy_text, or_text,
  or_default,
}
use usbover_ip.Base.Dict.{Dict, lookup, insert}
use usbover_ip.Base.Exec.{pure, lift, gets, ◌>>=◌, ◌>>◌}
use usbover_ip.Server.State.{
  Env, App, ClientRecord, Config, Event, Peer, outside, on_machine, read, update,
}
use usbover_ip.Server.Clients.{require_bearer_or_session}
use usbover_ip.Server.Devices.{UsbDevice, list_local_devices}
use usbover_ip.Server.Host.{Host, box}
use usbover_ip.Web.{Request, require_session_user, require_safe_ajax}
use usbover_ip.Wireguard.Status.{PeerStatus, InterfaceStatus, interface_status, is_down}

-- A client without its token.
pub record PublicClient : Type 0 where
  pub id : String
  pub name : String
  pub host : String
  pub api_port : ℕ
  pub created_at : String
  pub last_seen : Option String
  pub has_token : Bool

unfoldable pub public_client : ClientRecord → PublicClient
public_client c = record {
  id = c.id;
  name = c.name;
  host = c.host;
  api_port = c.api_port;
  created_at = c.created_at;
  last_seen = c.last_seen;
  has_token = truthy_text c.token;
}

unfoldable pub public_clients : Dict ClientRecord → List PublicClient
unfolding public_client
public_clients [] = []
public_clients ((client_id, client) ∷ clients) = public_client client ∷ public_clients clients

pub record Info : Type 0 where
  pub name : String
  pub usbip_port : ℕ

pub record PeerView : Type 0 where
  pub client_id : String
  pub client_name : String
  pub wg_ip : String
  pub latest_handshake : ℕ

pub record TunnelView : Type 0 where
  pub available : Bool
  pub up : Bool
  pub public_key : String
  pub listen_port : ℕ
  pub subnet : String
  pub peers : List PeerView
  pub require_wireguard : Bool

unfoldable pub name_of : Option ClientRecord → String
name_of none = "(deleted client)"
name_of (some client) = client.name

-- `live_peer["latest_handshake"] if live_peer else 0`
unfoldable pub handshake_of : Option PeerStatus → ℕ
handshake_of none = 0
handshake_of (some peer) = peer.latest_handshake

-- `{p["public_key"]: p for p in peers}`
unfoldable pub by_pubkey : List PeerStatus → Dict PeerStatus
by_pubkey peers = foldl (λ d p. insert p.public_key p d) [] peers

unfoldable pub peer_views : Dict ClientRecord → Dict PeerStatus → Dict Peer → List PeerView
unfolding name_of handshake_of
peer_views clients live [] = []
peer_views clients live ((client_id, peer) ∷ peers) =
    record {
      client_id = client_id;
      client_name = name_of (lookup client_id clients);
      wg_ip = peer.wg_ip;
      latest_handshake = handshake_of (lookup peer.pubkey live);
    }
    ∷ peer_views clients live peers

unfoldable pub set_name : String → Config → Config
set_name name d = record d { server_name = name }

module _ ⦃env : Env⦄ (host : Host) where
  unfoldable pub api_info : App Info
  api_info = do cfg ← read; pure (record { name = cfg.server_name; usbip_port = host.usbipd_port })

  -- `body_name` is the name of the body, if it has one.
  unfoldable pub api_set_name : Request → Option String → App String
  api_set_name request body_name = do
    lift (require_session_user request)
    lift (require_safe_ajax request)
    let name = or_text (some (env.prefix 60 (env.strip (or_default body_name "")))) "usbip-server"
    update (set_name name)
    pure name

  unfoldable pub api_list_devices : Request → App (List UsbDevice)
  api_list_devices request = do
    require_bearer_or_session request
    cfg ← read
    list_local_devices cfg.device_labels

  unfoldable pub api_list_clients : Request → App (List PublicClient)
  unfolding public_clients
  api_list_clients request = do
    lift (require_session_user request)
    cfg ← read
    pure (public_clients cfg.clients)

  unfoldable pub live_status : Bool → App InterfaceStatus
  live_status available =
      if available then on_machine (interface_status (box host) "wg0") else pure is_down

  unfoldable pub api_wireguard_status : Request → App TunnelView
  unfolding peer_views by_pubkey
  api_wireguard_status request = do
    lift (require_session_user request)
    cfg ← read
    let wg = cfg.wireguard
    available ← outside env.wireguard_available
    live ← live_status available
    pure (record {
      available = available;
      up = live.up;
      public_key = wg.public_key;
      listen_port = wg.listen_port;
      subnet = wg.subnet;
      peers = peer_views cfg.clients (by_pubkey live.peers) wg.peers;
      require_wireguard = cfg.require_wireguard;
    })

  unfoldable pub api_events : Request → App (List Event)
  api_events request = do lift (require_session_user request); gets (λ s. s.events)
