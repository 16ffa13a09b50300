-- ===== src/Client/Tunnels/Registering.antt =====
-- The client registers its key at the server, step by step.
use usbover_ip.Base.{String, ◌<>◌, ◌≡◌, refl, sym, ◌∙◌, ap, subst, true, truthy_text, eqb, ℕ, arith}
use usbover_ip.Base.Dict.{Dict, DistinctKeys}
use usbover_ip.Base.Exec.{Exc, Result, ok, err, wireguard_error, lift, ◌>>=◌}
use usbover_ip.Base.Exec.Triple.{
  Triple, Outcome, Triple-bind, Triple-pure, Triple-raise, Triple-if, Triple-weaken, Triple-attempt,
  Triple-gets,
}
use usbover_ip.Outside.{Env, Call, returned, raised}
use usbover_ip.Client.State.{App, Client, Config, Keys, Server, outcome, outside, read, update}
use usbover_ip.Client.Remote.{check_status}
use usbover_ip.Client.Tunnels.{
  Answer, KeyResponse, KeyReply, unreachable, answered, Tools, box, save_keys, registered,
  register_wireguard, keys_made, own_keys,
}
use usbover_ip.Client.Tunnels.Wired.{
  Wired, answer, bearer, Both, on_machine-Both, apart_cfg, base_url-Both, address,
}
use usbover_ip.Wireguard.Local.{generate_keypair-Keeps}
use usbover_ip.Server.State as Remote
use usbover_ip.Server.Host.{Host}
use usbover_ip.Server.Tunnel.{Registration, post_wireguard_register}
use usbover_ip.Server.Tunnel.Addresses.{Numbered}
use usbover_ip.Server.Tunnel.Assigned.{Well}
use usbover_ip.Server.Tunnel.Owned.{AnsweredTo, route-Triple}

module _ ⦃env : Env⦄ (tools : Tools) ⦃senv : Remote.Env⦄ (host : Host) (numbered : Numbered)
    (wired : Wired tools host) (S : Dict Server) where
  open wired use {process, serves}

  abbrev pub With : (Config → Type 0) → (Remote.Config → Type 0) → Client env.World → Type 0
  With = Both tools host wired

  -- The servers on record are these.
  abbrev pub Servers : Config → Type 0
  Servers d = d.servers ≡ S

  abbrev pub Own : Keys → Config → Type 0
  Own keys d = Servers d × (d.wireguard ≡ keys)

  abbrev pub Left : Exc → Client env.World → Type 0
  Left e s = Servers s.cfg

  abbrev pub Before : Remote.Config → Type 0
  Before d = Well d × DistinctKeys d.clients

  pub save_keys-Triple :
      (D : Remote.Config → Type 0) (keys : String × String)
      → Triple (With Servers D) (update (save_keys keys)) (λ _. With Servers D) Left
  unfolding update save_keys ◌>>=◌
  save_keys-Triple D keys = record { at = λ s h. h }

  pub either :
      (C : Config → Type 0) (D : Remote.Config → Type 0) {A : Type 0} (r : Result A)
      (s : Client env.World)
      → Outcome (λ _. With C D) (λ _. With C D) r s
      → With C D s
  either C D (ok a) s h = h
  either C D (err e) s h = h

  pub keys_made-Triple :
      (D : Remote.Config → Type 0) (r : Result (String × String))
      → Triple (With Servers D) (keys_made tools r) (λ keys. With (Own keys) D) Left
  unfolding keys_made read
  keys_made-Triple D (ok keys) = Triple-bind (save_keys-Triple D keys) λ _.
      Triple-bind (Triple-gets (λ s. s.cfg)) λ d.
        Triple-pure d.wireguard
          (λ s h. ((h.0.0, ap (λ (x : Config). x.wireguard) (sym h.1)), h.0.1))
  keys_made-Triple D (err (wireguard_error m)) = Triple-raise _ (λ s h. h.0)
  keys_made-Triple D (err e) = Triple-raise e (λ s h. h.0)

  pub own_keys-Triple :
      (D : Remote.Config → Type 0) (wg : Keys)
      → Triple (With (Own wg) D) (own_keys tools wg) (λ keys. With (Own keys) D) Left
  unfolding own_keys
  own_keys-Triple D wg =
      Triple-if (truthy_text wg.private_key) (λ _. Triple-pure wg (λ s h. h))
        λ _.
          Triple-bind
            (Triple-attempt (
              on_machine-Both tools host wired (Own wg) D
                (generate_keypair-Keeps (box tools) (apart_cfg tools host wired (Own wg) D))))
            λ r.
              Triple-weaken (keys_made-Triple D r)
                (λ s h. let x = either (Own wg) D r s h in (x.0.0, x.1)) (λ _ s h. h) (λ _ s h. h)

  -- The answer is that of a registration that is on record at the server, for the client with the
  -- token.
  abbrev pub Answering : String → Keys → Answer → Remote.Config → Type 0
  Answering token keys a d =
      (reg : Registration) × (a ≡ answer reg)
      × AnsweredTo host numbered (senv.strip token) (senv.strip keys.public_key) reg d

  pub status_ok :
      (status_code : ℕ) (detail : Call String)
      → check_status status_code detail ≡ ok tt
      → eqb status_code 200 ≡ true
  unfolding check_status
  status_ok status_code detail h = ground arith

  abbrev asked : String → Keys → String → App Answer
  asked token keys base =
      outside (tools.post_key (base <> "/api/wireguard/register") token keys.public_key)
      >>= λ reply. lift (registered tools reply)

  pub post-Triple :
      (token : String) (keys : Keys)
      → Triple
          (With (Own keys) Before)
          (asked token keys wired.origin)
          (λ a. With (Own keys) (Answering token keys a))
          Left
  unfolding outside ◌>>=◌ registered
  post-Triple token keys = record {
    at = λ s h.
        go s h
          (tools.post_key (wired.origin <> "/api/wireguard/register") token keys.public_key
            s.world).0
          refl;
  }
    where
      url : String
      url = wired.origin <> "/api/wireguard/register"

      after : Client env.World → Client env.World
      after s = record s { world = (tools.post_key url token keys.public_key s.world).1 }

      Goal : Client env.World → Result Answer → Type 0
      Goal s r = Outcome (λ a. With (Own keys) (Answering token keys a)) Left r (after s)

      bodied :
          (s : Client env.World) (r : KeyResponse)
          → With (Own keys) Before s
          → (tools.post_key url token keys.public_key s.world).0 ≡ answered r
          → eqb r.status_code 200 ≡ true
          → (json : Call Answer) → r.json ≡ json
          → Goal s (outcome json)
      bodied s r h e good (raised m) j = h.0.0
      bodied s r h e good (returned a) j =
          let run = serves token keys.public_key s.world r a e good j in
          let done =
            (route-Triple host numbered (bearer token) keys.public_key wired.client_suffix refl).at
              (process s.world) h.1 in
          (
            h.0,
            (
              run.0,
              run.2,
              subst
                  (λ x.
                    Outcome
                      (λ reg x'.
                        AnsweredTo host numbered (senv.strip token) (senv.strip keys.public_key) reg
                          x'.cfg)
                      (λ _ _. Unit) x.0 x.1)
                  run.1
                  (subst
                    (λ searched.
                      Outcome
                        (λ reg x'.
                          AnsweredTo host numbered (senv.strip searched)
                            (senv.strip keys.public_key) reg x'.cfg)
                        (λ _ _. Unit)
                        (post_wireguard_register host (bearer token) keys.public_key
                          (process s.world)).0
                        (post_wireguard_register host (bearer token) keys.public_key
                          (process s.world)).1)
                    (wired.bearer_suffix token) done),
            ),
          )

      checked :
          (s : Client env.World) (r : KeyResponse)
          → With (Own keys) Before s
          → (tools.post_key url token keys.public_key s.world).0 ≡ answered r
          → (u : Result (Unit {0})) → check_status r.status_code r.detail ≡ u
          → Goal s (elim u [ ok x ↦ outcome r.json | err e ↦ err e ])
      checked s r h e (err x) c = h.0.0
      checked s r h e (ok u) c = bodied s r h e (status_ok r.status_code r.detail c) r.json refl

      go :
          (s : Client env.World)
          → With (Own keys) Before s
          → (reply : KeyReply) → (tools.post_key url token keys.public_key s.world).0 ≡ reply
          → Goal s (registered tools reply)
      go s h (unreachable m) e = h.0.0
      go s h (answered r) e = checked s r h e (check_status r.status_code r.detail) refl

  pub register-Triple :
      (h : String) (p : ℕ) (token : String) (keys : Keys)
      → address h p ≡ wired.origin
      → Triple
          (With (Own keys) Before)
          (register_wireguard tools h p token keys.public_key)
          (λ a. With (Own keys) (Answering token keys a))
          Left
  unfolding register_wireguard
  register-Triple h p token keys located =
      Triple-bind {E = Left}
        (Triple-weaken (base_url-Both tools host wired (Own keys) Before h p) (λ s x. x)
          (λ _ s x. x) (λ _ s x. x.0.0))
        λ base. record {
          at = λ s x.
              subst
                (λ b.
                  Outcome (λ a. With (Own keys) (Answering token keys a)) Left
                    (asked token keys b s).0 (asked token keys b s).1)
                (sym (x.1 ∙ located)) ((post-Triple token keys).at s x.0);
        }
