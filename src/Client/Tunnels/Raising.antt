-- ===== src/Client/Tunnels/Raising.antt =====
-- The interface of a tunnel, while a client joins it: it is up, and its file is the one that was
-- written for this client's key and the address from the server.
use mathlib.Core.Option.{some-injective}
use usbover_ip.Base.{
  String, ◌<>◌, ◌≡◌, refl, sym, ◌∙◌, subst, true, Option, none, some, List, ◌∷◌, eqb,
}
use usbover_ip.Base.Dict.{lookup}
use usbover_ip.Base.Exec.{Exc, Exec, Result, ok, err, lift, ◌>>=◌}
use usbover_ip.Base.Exec.Triple.{
  Triple, Outcome, Triple-bind, Triple-pure, Triple-raise, Triple-if, Triple-weaken, Triple-gets,
  Triple-lift,
}
use usbover_ip.Outside.{Env}
use usbover_ip.Client.State.{
  Client, Keys, Server, Tunnel, on_machine, read, update, log_event, outside,
}
use usbover_ip.Client.Tunnels.{
  Answer, Tools, box, item, raise_tunnel, tunnel_of, put_tunnel, save_tunnel,
}
use usbover_ip.Wireguard.{run, check_wg, ensure_interface_up, apply_peer, set_peer, endpoint_args}
use usbover_ip.Wireguard.Links.{Links, conf_path, call-Triple}
use usbover_ip.Wireguard.Raised.{conf_file, ensure_interface_up-Raised}
use usbover_ip.Validate.{validate_wg_key}
use usbover_ip.Validate.Cidr.{validate_ipv4_cidr}

abbrev pub Nothing : {S : Type 0} → Exc → S → Type 0
Nothing e s = Unit

module _ {S : Type 0} where
  checked-Triple : {A : Type 0} {P : S → Type 0} (r : Result A) → Triple P (lift r) (λ _. P) Nothing
  checked-Triple r = Triple-weaken (Triple-lift r) (λ s h. h) (λ _ s h. h) (λ _ s h. tt)

  item-Triple :
      {P : S → Type 0} (key : String) (o : Option String)
      → Triple P (lift (item key o)) (λ x s. P s × (o ≡ some x)) Nothing
  unfolding item ◌>>=◌
  item-Triple key none = record { at = λ s h. tt }
  item-Triple key (some x) = record { at = λ s h. (h, refl) }

module _ ⦃env : Env⦄ (tools : Tools) {interface : String}
    (links : Links (box tools) interface) where
  -- The file and the link of the interface are the same.
  abbrev Still : env.World → env.World → Type 0
  Still v w =
      (links.file v (conf_path interface) ≡ links.file w (conf_path interface))
      × (links.up v ≡ links.up w)

  -- Neither the peers nor the routes nor the clock touch the link or the file of the interface.
  pub record Settled : Type 0 where
    pub set_still :
        (args : List String) (w : env.World) → Still (env.run ("wg" ∷ "set" ∷ args) w).1 w
    pub route_still :
        (args : List String) (w : env.World) → Still (env.run ("ip" ∷ "route" ∷ args) w).1 w
    pub clock_still : (w : env.World) → Still (env.utcnow w).1 w

  -- The interface is up, with the file for the key and the address.
  abbrev pub Up : String → String → env.World → Type 0
  Up private_key ip w =
      (links.file w (conf_path interface)
        ≡ some (conf_file (box tools) private_key (ip <> "/32") none))
      × (links.up w ≡ true)

  stays :
      (private_key ip : String) {v w : env.World}
      → Still v w
      → Up private_key ip w
      → Up private_key ip v
  stays private_key ip still h = (still.0 ∙ h.0, still.1 ∙ h.1)

  -- The interface is up for the address of an answer.
  abbrev pub UpFor : Keys → Answer → Client env.World → Type 0
  UpFor keys a s = (ip : String) × (a.assigned_ip ≡ some ip) × Up keys.private_key ip s.world

  machine-Triple :
      {A : Type 0} {P : env.World → Type 0} {Q : A → env.World → Type 0} {m : Exec env.World A}
      → Triple P m Q Nothing
      → Triple (λ s. P s.world) (on_machine m) (λ a s. Q a s.world) Nothing
  unfolding on_machine
  machine-Triple {A} {P} {Q} {m} t = record {
    at = λ s h. go s (m s.world).0 (m s.world).1 (t.at s.world h);
  }
    where
      go :
          (s : Client env.World) (r : Result A) (w : env.World)
          → Outcome Q Nothing r w
          → Outcome (λ a s'. Q a s'.world) Nothing r (record s { world = w })
      go s (ok a) w h = h
      go s (err e) w h = tt

  ensure-Up :
      (private_key ip : String) {X : Type 0}
      → Triple
          (λ _. X)
          (ensure_interface_up (box tools) private_key (ip <> "/32") none interface)
          (λ _ w. X × Up private_key ip w)
          Nothing
  ensure-Up private_key ip {X} = record {
    at = λ w x.
        go _ x (ensure_interface_up (box tools) private_key (ip <> "/32") none interface w).0
          (ensure_interface_up (box tools) private_key (ip <> "/32") none interface w).1
          (ensure_interface_up-Raised (box tools) private_key (ip <> "/32") none interface links w);
  }
    where
      go :
          (E : Exc → env.World → Type 0)
          → X
          → (r : Result (Unit {0})) (w : env.World) → Outcome (λ _. Up private_key ip) E r w
          → Outcome (λ _ v. X × Up private_key ip v) Nothing r w
      go E x (ok u) w h = (x, h)
      go E x (err e) w h = tt

  module _ (settled : Settled) where
    apply_peer-Up :
        (private_key ip pubkey allowed_ips : String) (endpoint : Option String) {X : Type 0}
        → Triple
            (λ w. X × Up private_key ip w)
            (apply_peer (box tools) pubkey allowed_ips endpoint interface)
            (λ _ w. X × Up private_key ip w)
            Nothing
    unfolding apply_peer set_peer run check_wg
    apply_peer-Up private_key ip pubkey allowed_ips endpoint {X} =
        Triple-bind (checked-Triple (validate_wg_key pubkey)) λ _.
          Triple-bind
            (checked-Triple (validate_ipv4_cidr env.is_digit tools.digit_value allowed_ips))
            λ _. Triple-bind (checked-Triple (endpoint_args (box tools) endpoint)) λ more.
              Triple-bind {Q = λ _ w. X × Up private_key ip w}
                (call-Triple _ (λ p w r h. (h.0, stays private_key ip (settled.set_still _ w) h.1))
                  (λ m e w r h. tt))
                λ proc.
                  Triple-bind {Q = λ _ w. X × Up private_key ip w}
                    (Triple-if (eqb proc.returncode 0) (λ _. Triple-pure tt (λ w h. h))
                      (λ _. Triple-raise _ (λ w h. tt)))
                    λ _.
                      Triple-bind {Q = λ _ w. X × Up private_key ip w}
                        (call-Triple _
                          (λ p w r h. (h.0, stays private_key ip (settled.route_still _ w) h.1))
                          (λ m e w r h. tt))
                        (λ _. Triple-pure tt (λ w h. h))

    pub raise_tunnel-Up :
        (keys : Keys) (a : Answer)
        → Triple (λ _. Unit {0}) (raise_tunnel tools keys a interface) (λ _. UpFor keys a) Nothing
    unfolding raise_tunnel
    raise_tunnel-Up keys a = Triple-bind (item-Triple "assigned_ip" a.assigned_ip) λ ip.
        Triple-bind
          (Triple-weaken
            (machine-Triple (ensure-Up keys.private_key ip {X = a.assigned_ip ≡ some ip}))
            (λ s h. h.1) (λ _ s h. h) (λ _ s h. tt))
          λ _. Triple-bind (checked-Triple _) λ server_pubkey.
            Triple-bind (checked-Triple _) λ server_wg_ip.
              Triple-bind (checked-Triple _) λ endpoint.
                Triple-weaken
                  (machine-Triple
                    (apply_peer-Up keys.private_key ip _ _ _ {X = a.assigned_ip ≡ some ip}))
                  (λ s h. h) (λ _ s h. (ip, h.0, h.1)) (λ _ s h. tt)

    pub tunnel_of-Up :
        (keys : Keys) (a : Answer)
        → Triple
            (UpFor keys a)
            (tunnel_of tools a interface)
            (λ t s. Up keys.private_key t.assigned_ip s.world)
            Nothing
    unfolding tunnel_of
    tunnel_of-Up keys a = Triple-bind (checked-Triple _) λ server_pubkey.
        Triple-bind (checked-Triple _) λ endpoint.
          Triple-bind (item-Triple "assigned_ip" a.assigned_ip) λ ip.
            Triple-bind (checked-Triple _) λ server_wg_ip. Triple-bind (checked-Triple _) λ subnet.
              Triple-pure _ λ s h.
                subst (λ x. Up keys.private_key x s.world) (some-injective _ _ (sym h.0.1 ∙ h.1))
                  h.0.2

    module _ (private_key ip : String) where
      put_tunnel-Up :
          (server_id : String) (t : Tunnel) (o : Option Server)
          → Triple
              (λ s. Up private_key ip s.world)
              (put_tunnel tools server_id t o)
              (λ _ s. Up private_key ip s.world)
              Nothing
      unfolding put_tunnel update ◌>>=◌
      put_tunnel-Up server_id t none = record { at = λ s h. tt }
      put_tunnel-Up server_id t (some server) = record { at = λ s h. h }

      pub save_tunnel-Up :
          (server_id : String) (t : Tunnel)
          → Triple
              (λ s. Up private_key ip s.world)
              (save_tunnel tools server_id t)
              (λ _ s. Up private_key ip s.world)
              Nothing
      unfolding save_tunnel read
      save_tunnel-Up server_id t = Triple-bind (Triple-gets (λ s. s.cfg)) λ d.
          Triple-weaken (put_tunnel-Up server_id t (lookup server_id d.servers)) (λ s h. h.0)
            (λ _ s h. h) (λ _ s h. tt)

      pub log_event-Up :
          (text : String)
          → Triple
              (λ s. Up private_key ip s.world)
              (log_event text)
              (λ _ s. Up private_key ip s.world)
              Nothing
      unfolding log_event outside ◌>>=◌
      log_event-Up text = record {
        at = λ s h. stays private_key ip (settled.clock_still s.world) h;
      }
