-- ===== src/Server/Tunnel/Owned.antt =====
-- The route of the registration for a bearer token: the peer is that of the client with the token.
use usbover_ip.Base.{
  String, ◌<>◌, ◌≡◌, refl, ◌∙◌, ap, subst, sym, false, Option, none, some, eq_refl, not, truthy,
  truthy_text,
}
use text.Mathlib.Text.{starts_with}
use usbover_ip.Base.Dict.{Dict, DistinctKeys, lookup, lookup-insert}
use usbover_ip.Base.Exec.{Result, ok, err, lift, ◌>>=◌}
use usbover_ip.Base.Exec.Triple.{
  Triple, Keeps, Triple-bind, Triple-pure, Triple-raise, Triple-if, Triple-attempt, Triple-gets,
  Triple-weaken, Triple-both,
}
use usbover_ip.Server.State.{Env, ClientRecord, Config, Wireguard, outside, read, update}
use usbover_ip.Server.Frame.{On, outside-On, on_machine-On, log_event-On}
use usbover_ip.Server.Host.{Host}
use usbover_ip.Server.Clients.{
  require_bearer_or_session, accept_client, client_of_token, set_client, set_found,
}
use usbover_ip.Server.Clients.Tokens.{Owner, client_of_token_sound}
use usbover_ip.Server.Tunnel.{
  Registration, save_peer, kept_address, assign, register_peer, api_wireguard_register,
  post_wireguard_register,
}
use usbover_ip.Server.Tunnel.Addresses.{Numbered}
use usbover_ip.Server.Tunnel.Assigned.{Well}
use usbover_ip.Server.Tunnel.Registered.{
  Answered, key_failure-Triple, tunnel_failure-Triple, register-Triple, caller-Triple,
}
use usbover_ip.Validate.{validate_wg_key}
use usbover_ip.Web.{Request}

module _ ⦃env : Env⦄ where
  -- A claim on the registered clients alone.
  abbrev Clients : (Dict ClientRecord → Type 0) → Config → Type 0
  Clients K d = K d.clients

  module _ (K : Dict ClientRecord → Type 0) where
    assign-Clients :
        (client_id pubkey : String) (wg : Wireguard) (o : Option String)
        → Keeps (On (Clients K)) (assign client_id pubkey wg o)
    unfolding assign update save_peer ◌>>=◌ outside
    assign-Clients client_id pubkey wg none = record { at = λ s h. h }
    assign-Clients client_id pubkey wg (some address) = record { at = λ s h. h }

    register_peer-Clients :
        (host : Host) (caller client_id pubkey : String)
        → Keeps (On (Clients K)) (register_peer host caller client_id pubkey)
    unfolding register_peer read
    register_peer-Clients host caller client_id pubkey =
        let C = Clients K in
        Triple-bind (key_failure-Triple C (validate_wg_key pubkey)) λ _.
          Triple-bind (Triple-gets (λ s. s.cfg)) λ d.
            Triple-if (truthy_text d.wireguard.private_key)
              (λ _.
                Triple-bind
                  (Triple-weaken
                    (assign-Clients client_id pubkey d.wireguard
                      (kept_address pubkey (lookup client_id d.wireguard.peers)))
                    (λ s h. h.0) (λ _ s h. h) (λ _ s h. h))
                  λ wg_ip. Triple-bind (Triple-attempt (on_machine-On C _)) λ r.
                    Triple-bind (tunnel_failure-Triple C C r (λ x h. h))
                      λ _. Triple-bind (log_event-On C _) (λ _. Triple-pure _ (λ s h. h)))
              (λ _. Triple-raise _ (λ s h. h.0))

    register-Clients :
        (host : Host) (caller body_pubkey : String)
        → Keeps (On (Clients K)) (api_wireguard_register host caller body_pubkey)
    unfolding api_wireguard_register
    register-Clients host caller body_pubkey =
        Triple-if (not (starts_with caller "client:")) (λ _. Triple-raise _ (λ s h. h))
          λ _. Triple-bind (outside-On (Clients K) env.wireguard_available) λ available.
            Triple-if available (λ _. register_peer-Clients host caller _ _)
              (λ _. Triple-raise _ (λ s h. h))

  -- The caller is the client with the token.
  abbrev Calls : String → String → Dict ClientRecord → Type 0
  Calls token caller clients =
      (client_id : String) × (caller ≡ ("client:" <> client_id)) × Owner token client_id clients

  seen-Owner :
      (token client_id : String) (last_seen : Option String) (d : Config)
      → Owner token client_id d.clients
      → Owner token client_id
          (set_client client_id (λ client. record client { last_seen = last_seen }) d).clients
  unfolding set_client set_found
  seen-Owner token client_id last_seen d (client, found, same, nonempty) =
      rw found
        (record client { last_seen = last_seen }, rw (lookup-insert, eq_refl), same, nonempty)

  accept-Calls :
      (token : String) (o : Option String) (r : Result (Option String))
      → r ≡ ok o
      → Triple
          (λ s. DistinctKeys s.cfg.clients × (client_of_token token s.cfg.clients ≡ r))
          (accept_client o)
          (λ caller. On (Clients (Calls token caller)))
          (λ _ _. Unit)
  unfolding accept_client update ◌>>=◌
  accept-Calls token none r e = record { at = λ s h. tt }
  accept-Calls token (some client_id) r e = Triple-bind (outside-On (λ d. _) _) λ now. record {
    at = λ s h. (
      client_id,
      refl,
      seen-Owner token client_id _ s.cfg
          (client_of_token_sound token client_id s.cfg.clients h.0 (h.1 ∙ e)),
    );
  }

  found-Calls :
      (token : String) (r : Result (Option String))
      → Triple
          (λ s. DistinctKeys s.cfg.clients × (client_of_token token s.cfg.clients ≡ r))
          (lift r >>= accept_client)
          (λ caller. On (Clients (Calls token caller)))
          (λ _ _. Unit)
  unfolding ◌>>=◌
  found-Calls token (ok o) = record { at = (accept-Calls token o (ok o) refl).at }
  found-Calls token (err e) = record { at = λ s h. tt }

  caller-Calls :
      (request : Request)
      → truthy request.user ≡ false
      → Triple
          (On (Clients DistinctKeys))
          (require_bearer_or_session request)
          (λ caller. On (Clients (Calls (env.strip (env.suffix 7 request.authorization)) caller)))
          (λ _ _. Unit)
  unfolding require_bearer_or_session read
  caller-Calls request nobody =
      let token = env.strip (env.suffix 7 request.authorization) in
      Triple-if (truthy request.user) (λ user. cc)
        λ _.
          Triple-if (starts_with (env.lower request.authorization) "bearer ")
            (λ _. Triple-bind (Triple-gets (λ s. s.cfg)) λ cfg.
              Triple-weaken (found-Calls token (client_of_token token cfg.clients))
                (λ s h. (h.0, ap (λ (d : Config). client_of_token token d.clients) (sym h.1)))
                (λ _ s h. h) (λ _ s h. h))
            (λ _. Triple-raise _ (λ s h. tt))

  module _ (host : Host) (numbered : Numbered) where
    -- The answer agrees with what is on record of the client with the token.
    pub record AnsweredTo (token pubkey : String) (reg : Registration) (d : Config) : Type 0 where
      pub client_id : String
      pub owner : Owner token client_id d.clients
      pub answered : Answered host numbered client_id pubkey reg d

    pub route-Triple :
        (request : Request) (body_pubkey : String)
        → ((client_id : String) → env.suffix 7 ("client:" <> client_id) ≡ client_id)
        → truthy request.user ≡ false
        → Triple
            (λ s. On Well s × DistinctKeys s.cfg.clients)
            (post_wireguard_register host request body_pubkey)
            (λ reg. On (
              AnsweredTo
                (env.strip (env.suffix 7 request.authorization))
                (env.strip body_pubkey)
                reg))
            (λ _ _. Unit)
    unfolding post_wireguard_register
    route-Triple request body_pubkey sliced nobody =
        let token = env.strip (env.suffix 7 request.authorization) in
        Triple-bind {E = λ _ _. Unit}
          (Triple-weaken
            (Triple-both (caller-Triple host numbered request) (caller-Calls request nobody))
            (λ s h. h) (λ _ s h. h) (λ _ s h. tt))
          λ caller.
            Triple-weaken
              (Triple-both (register-Triple host numbered caller body_pubkey)
                (register-Clients (Calls token caller) host caller body_pubkey))
              (λ s h. h)
              (λ reg s h. record {
                client_id = h.1.0;
                owner = h.1.2;
                answered =
                    subst (λ id. Answered host numbered id (env.strip body_pubkey) reg s.cfg)
                      (ap (env.suffix 7) h.1.1 ∙ sliced h.1.0) h.0;
              })
              (λ _ s h. tt)
