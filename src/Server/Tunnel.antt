-- ===== src/Server/Tunnel.antt =====
-- The WireGuard peers of the server: `api_wireguard_register` of server/app/main.py and its route.
pub mod Addresses
pub mod Assigned
pub mod Registered
pub mod Owned
use usbover_ip.Base.{
  ℕ, suc, ◌+◌, String, ◌<>◌, Bool, true, false, not, Option, none, some, List, [], ◌∷◌, ◌==◌, eqb,
  if◌then◌else◌, or_text, truthy_text,
}
use text.Mathlib.Text.{starts_with}
use usbover_ip.Base.Dict.{Dict, lookup, insert}
use usbover_ip.Base.Exec.{
  Result, ok, err, wireguard_error, validation_error, http_error, pure, raise, lift, attempt, ◌>>=◌,
  ◌>>◌,
}
use usbover_ip.Server.State.{
  Env, App, Config, Peer, Wireguard, outside, on_machine, read, update, log_event,
}
use usbover_ip.Server.Host.{Host, box}
use usbover_ip.Web.{Request}
use usbover_ip.Server.Clients.{require_bearer_or_session}
use usbover_ip.Validate.{validate_wg_key}
use usbover_ip.Wireguard.{apply_peer}

-- What the server answers.
pub record Registration : Type 0 where
  pub server_pubkey : String
  pub endpoint : String
  pub assigned_ip : String
  pub server_wg_ip : String
  pub subnet : String

module _ ⦃env : Env⦄ where
  -- The address of a host in the subnet, and the next one that is free.
  unfoldable pub host_address : Wireguard → ℕ → String
  host_address wg host = env.first_three wg.subnet <> "." <> env.str host

  -- `_save_peer`: the new peer takes the next host number, which is then used up.
  unfoldable pub save_peer : String → String → String → Config → Config
  unfolding host_address
  save_peer client_id pubkey now d =
      let wg = d.wireguard in
      record d {
        wireguard = record wg {
          peers =
              insert client_id
                (record { pubkey = pubkey; wg_ip = host_address wg wg.next_host; added_at = now })
                wg.peers;
          next_host = wg.next_host + 1;
        };
      }

  -- The address that the client has with this key, if it has one.
  unfoldable pub kept_address : String → Option Peer → Option String
  kept_address pubkey none = none
  kept_address pubkey (some peer) = if peer.pubkey == pubkey then some peer.wg_ip else none

  unfoldable pub assign : String → String → Wireguard → Option String → App String
  assign client_id pubkey wg (some address) = pure address
  assign client_id pubkey wg none = do
    now ← outside env.utcnow
    update (save_peer client_id pubkey (env.isoformat now <> "Z"))
    pure (host_address wg wg.next_host)

  unfoldable pub tunnel_failure : Result (Unit {0}) → App Unit
  tunnel_failure (ok _) = pure tt
  tunnel_failure (err (wireguard_error m)) = raise (http_error 502 m)
  tunnel_failure (err e) = raise e

  unfoldable pub key_failure : Result String → App Unit
  key_failure (ok key) = pure tt
  key_failure (err (validation_error m)) = raise (http_error 400 m)
  key_failure (err e) = raise e

  unfoldable pub register_peer : Host → String → String → String → App Registration
  register_peer host caller client_id pubkey = do
    key_failure (validate_wg_key pubkey)
    cfg ← read
    let wg = cfg.wireguard
    if truthy_text wg.private_key
        then (do
          wg_ip ← assign client_id pubkey wg (kept_address pubkey (lookup client_id wg.peers))
          r ← attempt (on_machine (apply_peer (box host) pubkey (wg_ip <> "/32") none "wg0"))
          tunnel_failure r
          log_event ("wireguard: registered peer for " <> caller <> " at " <> wg_ip)
          pure (record {
            server_pubkey = wg.public_key;
            endpoint = wg.endpoint_host <> ":" <> env.str wg.listen_port;
            assigned_ip = wg_ip;
            server_wg_ip = env.before_slash wg.address;
            subnet = wg.subnet;
          }))
        else raise (http_error 503 "server tunnel not ready yet")

  unfoldable pub api_wireguard_register : Host → String → String → App Registration
  api_wireguard_register host caller body_pubkey =
      if not (starts_with caller "client:")
      then raise (http_error 403 "must be called by a registered client")
      else do
        available ← outside env.wireguard_available
        if available
            then register_peer host caller (env.suffix 7 caller) (env.strip body_pubkey)
            else raise (http_error 501 "wireguard-tools not installed on this server")

  -- The route: the caller is what the check of the request returns.
  unfoldable pub post_wireguard_register : Host → Request → String → App Registration
  post_wireguard_register host request body_pubkey = do
    caller ← require_bearer_or_session request
    api_wireguard_register host caller body_pubkey
