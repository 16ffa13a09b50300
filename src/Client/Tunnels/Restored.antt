-- ===== src/Client/Tunnels/Restored.antt =====
-- `_ensure_wireguard_tunnels_up` of client/app/main.py: the tunnels that are brought up again.
use usbover_ip.Base.{◌<>◌, Option, none, some, [], ◌∷◌, if◌then◌else◌, truthy_text}
use usbover_ip.Base.Dict.{Dict}
use usbover_ip.Base.Exec.{
  Result, ok, err, wireguard_error, validation_error, pure, raise, attempt, ◌>>=◌, ◌>>◌,
}
use usbover_ip.Outside.{Env}
use usbover_ip.Client.State.{App, Keys, Server, Tunnel, outside, on_machine, read}
use usbover_ip.Wireguard.{ensure_interface_up, apply_peer}
use usbover_ip.Client.Tunnels.{Tools, box}

module _ ⦃env : Env⦄ (tools : Tools) where
  unfoldable pub restore_tunnel : Keys → Tunnel → App Unit
  restore_tunnel keys t = do
    on_machine
        (ensure_interface_up (box tools) keys.private_key (t.assigned_ip <> "/32") none t.interface)
    on_machine (
        apply_peer (box tools) t.server_pubkey (t.server_wg_ip <> "/32") (some t.endpoint)
          t.interface)

  -- `except (WireguardError, ValidationError)`, which is only logged
  unfoldable pub tunnel_restored : Result (Unit {0}) → App Unit
  tunnel_restored (ok u) = pure u
  tunnel_restored (err (wireguard_error m)) = pure tt
  tunnel_restored (err (validation_error m)) = pure tt
  tunnel_restored (err e) = raise e

  unfoldable pub restore_server : Keys → Option Tunnel → App Unit
  restore_server keys none = pure tt
  restore_server keys (some t) = do r ← attempt (restore_tunnel keys t); tunnel_restored r

  unfoldable pub restore_tunnels : Keys → Dict Server → App Unit
  restore_tunnels keys [] = pure tt
  restore_tunnels keys ((server_id, server) ∷ servers) = do
    restore_server keys server.wireguard
    restore_tunnels keys servers

  unfoldable pub ensure_wireguard_tunnels_up : App Unit
  ensure_wireguard_tunnels_up = do
    available ← outside tools.available
    if available
        then (do
          cfg ← read
          if truthy_text cfg.wireguard.private_key
              then restore_tunnels cfg.wireguard cfg.servers
              else pure tt)
        else pure tt
