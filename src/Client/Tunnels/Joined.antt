-- ===== src/Client/Tunnels/Joined.antt =====
-- A client joins the tunnel of a server: what the two programs have on record afterwards.
use usbover_ip.Base.{String, ◌<>◌, ◌≡◌, refl, sym, ◌∙◌, ap, subst, Option, none, some}
use usbover_ip.Base.Dict.{Dict, DistinctKeys, lookup, insert}
use usbover_ip.Base.Exec.{Exc}
use usbover_ip.Base.Exec.Triple.{
  Triple, Outcome, Triple-both, Triple-bind, Triple-pure, Triple-raise, Triple-if, Triple-weaken,
  Triple-attempt, Triple-gets, Triple-lift,
}
use usbover_ip.Outside.{Env}
use usbover_ip.Client.State.{App, Client, Config, Keys, Server, Tunnel, read}
use usbover_ip.Client.Api.Servers.{guard_browser}
use usbover_ip.Client.Tunnels.Raising.{
  Nothing, Settled, Up, raise_tunnel-Up, tunnel_of-Up, save_tunnel-Up, log_event-Up,
}
use usbover_ip.Wireguard.Links.{Links}
use usbover_ip.Client.Tunnels.{Tools, box, enable_found, api_enable_wireguard}
use usbover_ip.Client.Tunnels.Wired.{Wired, address, log_event-Both, probe-Both}
use usbover_ip.Web.{Request, require_session_user, require_safe_ajax}
use usbover_ip.Server.State as Remote
use usbover_ip.Server.Host.{Host}
use usbover_ip.Server.Clients.Tokens.{Owner}
use usbover_ip.Server.Tunnel.Addresses.{Numbered, WellNumbered}
use usbover_ip.Server.Tunnel.Assigned.{Peered}
use usbover_ip.Client.Tunnels.Registering.{
  With, Servers, Own, Left, Before, own_keys-Triple, Answering, register-Triple,
}
use usbover_ip.Client.Tunnels.Recording.{
  remote_failure-Triple, tunnel_failure-Triple, raise_tunnel-Triple, Tunneled, tunnel_of-Triple,
  Saved, save_tunnel-Triple,
}

module _ ⦃env : Env⦄ (tools : Tools) ⦃senv : Remote.Env⦄ (host : Host) (numbered : Numbered)
    (wired : Wired tools host) (S : Dict Server) (server_id : String)
    (links : Links (box tools) ("wg-" <> server_id)) (settled : Settled tools links) where
  open wired use {process}

  -- A step of the joining, with what it does to the interface.
  both :
      {A : Type 0} {P P' : Client env.World → Type 0} {m : App A}
      {Q Q' : A → Client env.World → Type 0} {E : Exc → Client env.World → Type 0}
      → Triple P m Q E
      → Triple P' m Q' Nothing
      → Triple (λ s. P s × P' s) m (λ a s. Q a s × Q' a s) E
  both t t' = Triple-weaken (Triple-both t t') (λ s h. h) (λ _ s h. h) (λ _ s h. h.0)

  -- What the two programs have on record when the server `server_id` is joined. The client has the
  -- same servers, with the tunnel at this one and at its own interface. The server has a peer with
  -- the client's key and the address of the tunnel, for the client to whom it has given the token
  -- that the client has for this server; and the tunnel has the server's key and subnet.
  -- The interface is up, with the file for the client's private key and the address of the tunnel.
  pub record Joined (t : Tunnel) (s : Client env.World) : Type 0 where
    pub server : Server
    pub registered : lookup server_id S ≡ some server
    pub recorded : s.cfg.servers ≡ insert server_id (record server { wireguard = some t }) S
    pub client_id : String
    pub peered :
        Peered client_id
          (senv.strip s.cfg.wireguard.public_key)
          t.assigned_ip
          (process s.world).cfg.wireguard
    pub owner : Owner (senv.strip server.token) client_id (process s.world).cfg.clients
    pub key : t.server_pubkey ≡ (process s.world).cfg.wireguard.public_key
    pub subnet : t.subnet ≡ (process s.world).cfg.wireguard.subnet
    pub interface : t.interface ≡ ("wg-" <> server_id)
    pub raised : Up tools links s.cfg.wireguard.private_key t.assigned_ip s.world

  joined :
      (t : Tunnel) (keys : Keys) (server : Server) (s : Client env.World)
      → lookup server_id S ≡ some server
      → With tools host numbered wired S
          (λ d. Saved tools host numbered wired S server_id server t d × (d.wireguard ≡ keys))
          (Tunneled tools host numbered wired S server.token ("wg-" <> server_id) keys t)
          s
      → Up tools links keys.private_key t.assigned_ip s.world
      → Joined t s
  joined t keys server s found h up = record {
    raised =
        subst (λ (k : Keys). Up tools links k.private_key t.assigned_ip s.world) (sym h.0.1) up;
    server = server;
    registered = found;
    recorded = h.0.0;
    client_id = h.1.client_id;
    owner = h.1.owner;
    subnet = h.1.subnet;
    interface = h.1.at_interface;
    peered =
        subst
          (λ (k : Keys).
            Peered h.1.client_id (senv.strip k.public_key) t.assigned_ip
              (process s.world).cfg.wireguard)
          (sym h.0.1) h.1.peered;
    key = h.1.key;
  }

  enable_found-Triple :
      (cfg : Config) (o : Option Server)
      → o ≡ lookup server_id S
      → ((server : Server) → o ≡ some server → address server.host server.api_port ≡ wired.origin)
      → Triple
          (With tools host numbered wired S
            (Own tools host numbered wired S cfg.wireguard)
            (Before tools host numbered wired S))
          (enable_found tools server_id cfg o)
          Joined
          (Left tools host numbered wired S)
  unfolding enable_found
  enable_found-Triple cfg none e located = Triple-raise _ (λ s h. h.0.0)
  enable_found-Triple cfg (some server) e located =
      Triple-bind
        (own_keys-Triple tools host numbered wired S (Before tools host numbered wired S)
          cfg.wireguard)
        λ keys.
          Triple-bind
            (Triple-attempt (
              register-Triple tools host numbered wired S server.host server.api_port server.token
                keys (located server refl)))
            λ r. Triple-bind (remote_failure-Triple tools host numbered wired S r) λ a.
              Triple-bind
                (Triple-attempt (
                  Triple-weaken
                    (both
                      (raise_tunnel-Triple tools host numbered wired S
                        (Own tools host numbered wired S keys)
                        (Answering tools host numbered wired S server.token keys a) keys a _)
                      (raise_tunnel-Up tools links settled keys a))
                    (λ s h. (h, tt)) (λ _ s h. h) (λ _ s h. h)))
                λ up.
                  Triple-bind (tunnel_failure-Triple tools host numbered wired S up (λ s h. h.0.0))
                    λ _.
                      Triple-bind
                        (both (tunnel_of-Triple tools host numbered wired S server.token keys a _)
                          (tunnel_of-Up tools links settled keys a))
                        λ t.
                          Triple-bind
                            (both
                              (save_tunnel-Triple tools host numbered wired S
                                (Tunneled tools host numbered wired S server.token
                                  ("wg-" <> server_id) keys t)
                                keys server_id t server (sym e))
                              (save_tunnel-Up tools links settled keys.private_key t.assigned_ip
                                server_id t))
                            λ _.
                              Triple-bind
                                (both
                                  (log_event-Both tools host wired _
                                    (Tunneled tools host numbered wired S server.token
                                      ("wg-" <> server_id) keys t)
                                    _)
                                  (log_event-Up tools links settled keys.private_key t.assigned_ip
                                    _))
                                λ _. Triple-pure t λ s h. joined t keys server s (sym e) h.0 h.1

  enable-Triple :
      (request : Request)
      → ((server : Server)
          → lookup server_id S ≡ some server
          → address server.host server.api_port ≡ wired.origin)
      → Triple
          (With tools host numbered wired S
            (Servers tools host numbered wired S)
            (Before tools host numbered wired S))
          (api_enable_wireguard tools request server_id)
          Joined
          (Left tools host numbered wired S)
  unfolding api_enable_wireguard guard_browser read
  enable-Triple request located =
      Triple-bind {E = (Left tools host numbered wired S)}
        (Triple-bind
          (Triple-weaken (Triple-lift (require_session_user request)) (λ s h. h) (λ _ s h. h)
            (λ _ s h. h.0))
          (λ _.
            Triple-weaken (Triple-lift (require_safe_ajax request)) (λ s h. h) (λ _ s h. h)
              (λ _ s h. h.0)))
        λ _.
          Triple-bind
            (Triple-weaken
              (probe-Both tools host wired (Servers tools host numbered wired S)
                (Before tools host numbered wired S))
              (λ s h. h) (λ _ s h. h) (λ _ s h. h.0))
            λ available.
              Triple-if available
                (λ _. Triple-bind (Triple-gets (λ s. s.cfg)) λ cfg. record {
                  at = λ s h.
                      (enable_found-Triple cfg (lookup server_id cfg.servers)
                          (ap (λ (x : Config). lookup server_id x.servers) h.1
                            ∙ ap (lookup server_id) h.0.0)
                          (λ server e. located server (
                            sym (
                              ap (λ (x : Config). lookup server_id x.servers) h.1
                              ∙ ap (lookup server_id) h.0.0)
                            ∙ e))).at
                        s ((h.0.0, ap (λ (x : Config). x.wireguard) (sym h.1)), h.0.1);
                })
                (λ _. Triple-raise _ (λ s h. h.0))

module _ ⦃env : Env⦄ (tools : Tools) ⦃senv : Remote.Env⦄ (host : Host) (numbered : Numbered)
    (wired : Wired tools host) where
  -- Where the server prints host numbers differently, its peers have different addresses with used
  -- host numbers, and it has each client once; where the address on record for the server that is
  -- asked for is that of this server; and where an answer of 200 to a POST to its route means that it
  -- has run the route: if joining the tunnel returns, then the client's servers are those from before
  -- with the returned tunnel, at the interface named after it, at the one that was asked for; the
  -- client of the server that owns the token which is on record for it is a peer of the server, with
  -- this client's key and the address of the tunnel; the key and the subnet of the tunnel are the
  -- server's; and the interface is up, with exactly the file for the client's private key and that
  -- address, if the calls of the box do to it what `Links` and `Settled` say. If joining raises, at
  -- whichever step, the client's servers are those from before.
  pub api_enable_wireguard-Joined :
      (request : Request) (server_id : String) (links : Links (box tools) ("wg-" <> server_id))
      (settled : Settled tools links) (s : Client env.World)
      → ((server : Server)
          → lookup server_id s.cfg.servers ≡ some server
          → address server.host server.api_port ≡ wired.origin)
      → WellNumbered (wired.process s.world).cfg.wireguard
      → DistinctKeys (wired.process s.world).cfg.clients
      → Outcome
          (Joined tools host numbered wired s.cfg.servers server_id links settled)
          (λ _ s'. s'.cfg.servers ≡ s.cfg.servers)
          (api_enable_wireguard tools request server_id s).0
          (api_enable_wireguard tools request server_id s).1
  api_enable_wireguard-Joined request server_id links settled s located w distinct =
      (enable-Triple tools host numbered wired s.cfg.servers server_id links settled request
          located).at
        s (refl, (w, distinct))
