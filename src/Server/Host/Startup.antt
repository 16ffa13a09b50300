-- ===== src/Server/Host/Startup.antt =====
-- `_ensure_wireguard_up` of server/app/main.py.
pub mod Keys
pub mod Kept
use usbover_ip.Base.{
  String, ◌<>◌, Bool, none, some, [], ◌∷◌, if◌then◌else◌, truthy_text, true, false,
}
use usbover_ip.Base.Exec.{
  Result, ok, err, wireguard_error, firewall_error, pure, raise, attempt, ◌>>=◌, ◌>>◌,
}
use usbover_ip.Base.Dict.{Dict}
use usbover_ip.Server.State.{
  Env, App, Config, Peer, Wireguard, outside, on_machine, read, update, log_event,
}
use usbover_ip.Server.Host.{Host, box, detect_lan_ip}
use usbover_ip.Wireguard.{generate_keypair, ensure_interface_up, apply_peer}
use usbover_ip.Server.Host.Firewall.{enable}

module _ ⦃env : Env⦄ (host : Host) where
  unfoldable pub save_keys : String × String → Config → Config
  save_keys (private_key, public_key) d = record d {
    wireguard = record d.wireguard { private_key = private_key; public_key = public_key };
  }

  -- The first start makes the keys; `false` is the early return.
  unfoldable pub keys_made : Result (String × String) → App Bool
  keys_made (ok keys) = do
    update (save_keys keys)
    log_event "wireguard: generated server keypair"
    pure true
  keys_made (err (wireguard_error m)) = pure false
  keys_made (err e) = raise e

  unfoldable pub ensure_keys : App Bool
  ensure_keys = do
    cfg ← read
    if truthy_text cfg.wireguard.private_key
        then pure true
        else (do r ← attempt (on_machine (generate_keypair (box host))); keys_made r)

  unfoldable pub save_endpoint : String → Config → Config
  save_endpoint detected d = record d {
    wireguard = record d.wireguard { endpoint_host = detected };
  }

  unfoldable pub ensure_endpoint : App Unit
  ensure_endpoint = do
    cfg ← read
    if truthy_text cfg.wireguard.endpoint_host then pure tt else (do
      detected ← detect_lan_ip host
      update (save_endpoint detected)
      log_event (
          "wireguard: auto-detected endpoint address " <> detected
          <> " (set SERVER_WG_ENDPOINT_HOST to override)"))

  unfoldable pub interface_raised : Result (Unit {0}) → App Bool
  interface_raised (ok u) = pure true
  interface_raised (err (wireguard_error m)) = do
    log_event ("wireguard: failed to bring up wg0: " <> m)
    pure false
  interface_raised (err e) = raise e

  unfoldable pub peer_applied : String → Result (Unit {0}) → App Unit
  peer_applied client_id (ok u) = pure tt
  peer_applied client_id (err (wireguard_error m)) =
      log_event ("wireguard: failed to reapply peer for client " <> client_id <> ": " <> m)
  peer_applied client_id (err e) = raise e

  unfoldable pub reapply_peers : Dict Peer → App Unit
  reapply_peers [] = pure tt
  reapply_peers ((client_id, peer) ∷ peers) = do
    r ← attempt (on_machine (apply_peer (box host) peer.pubkey (peer.wg_ip <> "/32") none "wg0"))
    peer_applied client_id r
    reapply_peers peers

  unfoldable pub rule_applied : Result (Unit {0}) → App Unit
  rule_applied (ok u) = pure tt
  rule_applied (err (firewall_error m)) =
      log_event ("wireguard: failed to reapply tunnel-only firewall rule: " <> m)
  rule_applied (err e) = raise e

  -- `cfg` is the document from before the keys.
  unfoldable pub reapply_rule : Config → Wireguard → App Unit
  reapply_rule cfg wg =
      if cfg.require_wireguard
      then (do
        installed ← outside host.nft_installed
        if installed
            then (do r ← attempt (enable host wg.subnet (host.usbipd_port ∷ [])); rule_applied r)
            else pure tt)
      else pure tt

  unfoldable pub raise_interface : Config → Wireguard → App Unit
  raise_interface cfg wg = do
    r ← attempt (
        on_machine
          (ensure_interface_up (box host) wg.private_key wg.address (some wg.listen_port) "wg0"))
    up ← interface_raised r
    if up then (do reapply_peers wg.peers; reapply_rule cfg wg) else pure tt

  unfoldable pub ensure_wireguard_up : App Unit
  ensure_wireguard_up = do
    available ← outside env.wireguard_available
    if available
        then (do
          cfg ← read
          made ← ensure_keys
          if made then (do ensure_endpoint; d ← read; raise_interface cfg d.wireguard) else pure tt)
        else pure tt
