-- ===== src/Client/Tunnels/Recording.antt =====
-- The client brings the tunnel up and records it, step by step.
use mathlib.Core.Option.{some-injective}
use usbover_ip.Base.{String, ◌≡◌, refl, sym, ◌∙◌, ap, subst, Option, none, some}
use usbover_ip.Base.Dict.{Dict, lookup, insert}
use usbover_ip.Base.Exec.{Result, ok, err, wireguard_error, validation_error, remote_error, ◌>>=◌}
use usbover_ip.Base.Exec.Triple.{
  Triple, Keeps, Outcome, Triple-bind, Triple-pure, Triple-raise, Triple-gets, Triple-lift,
}
use usbover_ip.Outside.{Env}
use usbover_ip.Client.State.{Client, Config, Keys, Server, Tunnel, read, update}
use usbover_ip.Client.Api.Servers.{put_server}
use usbover_ip.Client.Tunnels.{
  Answer, Tools, box, item, remote_failure, raise_tunnel, tunnel_failure, tunnel_of, put_tunnel,
  save_tunnel,
}
use usbover_ip.Client.Tunnels.Wired.{Wired, on_machine-Both, apart_cfg}
use usbover_ip.Wireguard.Local.{ensure_interface_up-Keeps, apply_peer-Keeps}
use usbover_ip.Server.State as Remote
use usbover_ip.Server.Host.{Host}
use usbover_ip.Server.Tunnel.Addresses.{Numbered}
use usbover_ip.Server.Clients.Tokens.{Owner}
use usbover_ip.Server.Tunnel.Assigned.{Peered}
use usbover_ip.Client.Tunnels.Registering.{With, Servers, Own, Left, Answering}

module _ ⦃env : Env⦄ (tools : Tools) ⦃senv : Remote.Env⦄ (host : Host) (numbered : Numbered)
    (wired : Wired tools host) (S : Dict Server) where
  open wired use {process}

  pub remote_failure-Triple :
      {Q : Answer → Client env.World → Type 0} (r : Result Answer)
      → Triple
          (Outcome Q (Left tools host numbered wired S) r)
          (remote_failure tools r)
          Q
          (Left tools host numbered wired S)
  unfolding remote_failure
  remote_failure-Triple (ok a) = Triple-pure a (λ s h. h)
  remote_failure-Triple (err (remote_error m)) = Triple-raise _ (λ s h. h)
  remote_failure-Triple (err e) = Triple-raise e (λ s h. h)

  pub tunnel_failure-Triple :
      {P P' : Client env.World → Type 0} (r : Result (Unit {0}))
      → ((s : Client env.World) → P' s → (Servers tools host numbered wired S) s.cfg)
      → Triple
          (Outcome (λ _. P) (λ _. P') r)
          (tunnel_failure tools r)
          (λ _. P)
          (Left tools host numbered wired S)
  unfolding tunnel_failure
  tunnel_failure-Triple (ok u) left = Triple-pure u (λ s h. h)
  tunnel_failure-Triple (err (wireguard_error m)) left = Triple-raise _ left
  tunnel_failure-Triple (err (validation_error m)) left = Triple-raise _ left
  tunnel_failure-Triple (err e) left = Triple-raise e left

  pub raise_tunnel-Triple :
      (C : Config → Type 0) (D : Remote.Config → Type 0) (keys : Keys) (a : Answer)
      (interface : String)
      → Keeps (With tools host numbered wired S C D) (raise_tunnel tools keys a interface)
  unfolding raise_tunnel
  raise_tunnel-Triple C D keys a interface =
      let local = apart_cfg tools host wired C D in
      Triple-bind (Triple-lift _) λ assigned_ip.
        Triple-bind
          (on_machine-Both tools host wired C D
            (ensure_interface_up-Keeps (box tools) local _ _ _ _))
          λ _. Triple-bind (Triple-lift _) λ server_pubkey.
            Triple-bind (Triple-lift _) λ server_wg_ip. Triple-bind (Triple-lift _) λ endpoint.
              on_machine-Both tools host wired C D (apply_peer-Keeps (box tools) local _ _ _ _)

  -- The tunnel is at the interface, and the client to whom the server has given the token is a peer
  -- of it, with this client's key and the address of the tunnel.
  pub record Tunneled (token interface : String) (keys : Keys) (t : Tunnel) (d : Remote.Config)
      : Type 0 where
    pub client_id : String
    pub owner : Owner (senv.strip token) client_id d.clients
    pub peered : Peered client_id (senv.strip keys.public_key) t.assigned_ip d.wireguard
    pub key : t.server_pubkey ≡ d.wireguard.public_key
    pub subnet : t.subnet ≡ d.wireguard.subnet
    pub at_interface : t.interface ≡ interface

  pub tunnel_of-Triple :
      (token : String) (keys : Keys) (a : Answer) (interface : String)
      → Triple
          (With tools host numbered wired S
            (Own tools host numbered wired S keys)
            (Answering tools host numbered wired S token keys a))
          (tunnel_of tools a interface)
          (λ t.
            With tools host numbered wired S
              (Own tools host numbered wired S keys)
              (Tunneled token interface keys t))
          (Left tools host numbered wired S)
  unfolding tunnel_of item ◌>>=◌
  tunnel_of-Triple token keys a interface = record {
    at = λ s h.
        let (reg, same, found) = h.1 in
        subst
          (λ x.
            Outcome
              (λ t.
                With tools host numbered wired S (Own tools host numbered wired S keys)
                  (Tunneled token interface keys t))
              (Left tools host numbered wired S) (tunnel_of tools x interface s).0
              (tunnel_of tools x interface s).1)
          (sym same)
          (
            h.0,
            record {
              client_id = found.client_id;
              owner = found.owner;
              peered = found.answered.peered;
              key = found.answered.key;
              subnet = found.answered.subnet;
              at_interface = refl;
            },
          );
  }

  -- The record of the server, with the tunnel.
  abbrev pub Saved : String → Server → Tunnel → Config → Type 0
  Saved server_id server t d = d.servers ≡ insert server_id (record server { wireguard = some t }) S

  pub put_tunnel-Triple :
      (D : Remote.Config → Type 0) (keys : Keys) (server_id : String) (t : Tunnel) (server : Server)
      (o : Option Server)
      → o ≡ some server
      → Triple
          (With tools host numbered wired S (Own tools host numbered wired S keys) D)
          (put_tunnel tools server_id t o)
          (λ _.
            With tools host numbered wired S
              (λ d. Saved server_id server t d × (d.wireguard ≡ keys))
              D)
          (Left tools host numbered wired S)
  unfolding put_tunnel put_server update ◌>>=◌
  put_tunnel-Triple D keys server_id t server none e = absurd (cc)
  put_tunnel-Triple D keys server_id t server (some x) e = record {
    at = λ s h. (
      (
        ap (insert server_id (record x { wireguard = some t })) h.0.0
            ∙ ap (λ y. insert server_id (record y { wireguard = some t }) S) (some-injective _ _ e),
        h.0.1,
      ),
      h.1,
    );
  }

  pub save_tunnel-Triple :
      (D : Remote.Config → Type 0) (keys : Keys) (server_id : String) (t : Tunnel) (server : Server)
      → lookup server_id S ≡ some server
      → Triple
          (With tools host numbered wired S (Own tools host numbered wired S keys) D)
          (save_tunnel tools server_id t)
          (λ _.
            With tools host numbered wired S
              (λ d. Saved server_id server t d × (d.wireguard ≡ keys))
              D)
          (Left tools host numbered wired S)
  unfolding save_tunnel read
  save_tunnel-Triple D keys server_id t server found = Triple-bind (Triple-gets (λ s. s.cfg)) λ d.
      record {
        at = λ s h.
            (put_tunnel-Triple D keys server_id t server (lookup server_id d.servers)
                (ap (lookup server_id) (ap (λ (x : Config). x.servers) h.1 ∙ h.0.0.0) ∙ found)).at
              s h.0;
      }
