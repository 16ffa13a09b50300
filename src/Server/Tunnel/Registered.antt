-- ===== src/Server/Tunnel/Registered.antt =====
-- What the whole registration leaves on record.
use usbover_ip.Base.{String, ◌≡◌, refl, sym, subst, Option, none, some, truthy_text, truthy, not}
use text.Mathlib.Text.{starts_with}
use usbover_ip.Base.Dict.{lookup}
use usbover_ip.Base.Exec.{Result, ok, err, validation_error, wireguard_error, ◌>>=◌}
use usbover_ip.Base.Exec.Triple.{
  Triple, Keeps, Outcome, Triple-bind, Triple-pure, Triple-raise, Triple-if, Triple-attempt,
  Triple-gets, Triple-weaken, Triple-lift,
}
use usbover_ip.Server.State.{Env, Server, ClientRecord, Config, read, update}
use usbover_ip.Server.Frame.{On, outside-On, on_machine-On, log_event-On}
use usbover_ip.Server.Host.{Host}
use usbover_ip.Server.Tunnel.{
  Registration, tunnel_failure, key_failure, register_peer, api_wireguard_register,
}
use usbover_ip.Server.Tunnel.Addresses.{Numbered, WellNumbered}
use usbover_ip.Validate.{validate_wg_key}
use usbover_ip.Web.{Request}
use usbover_ip.Server.Clients.{require_bearer_or_session, accept_client, set_client, set_found}
use usbover_ip.Server.Tunnel.Assigned.{Peered, Well, Assigned, assign-Assigned}

module _ ⦃env : Env⦄ where
  pub tunnel_failure-Triple :
      (A C : Config → Type 0) (r : Result (Unit {0}))
      → ((d : Config) → A d → C d)
      → Triple (Outcome (λ _. On A) (λ _. On A) r) (tunnel_failure r) (λ _. On A) (λ _. On C)
  unfolding tunnel_failure
  tunnel_failure-Triple A C (ok u) weaker = Triple-pure tt (λ s h. h)
  tunnel_failure-Triple A C (err (wireguard_error m)) weaker =
      Triple-raise _ (λ s h. weaker s.cfg h)
  tunnel_failure-Triple A C (err e) weaker = Triple-raise e (λ s h. weaker s.cfg h)

  pub key_failure-Triple : (C : Config → Type 0) (r : Result String) → Keeps (On C) (key_failure r)
  unfolding key_failure
  key_failure-Triple C (ok u) = Triple-pure tt (λ s h. h)
  key_failure-Triple C (err (validation_error m)) = Triple-raise _ (λ s h. h)
  key_failure-Triple C (err e) = Triple-raise e (λ s h. h)

module _ ⦃env : Env⦄ (host : Host) (numbered : Numbered) where
  -- The answer agrees with the configuration.
  pub record Answered (client_id pubkey : String) (reg : Registration) (d : Config) : Type 0 where
    pub well : Well d
    pub peered : Peered client_id pubkey reg.assigned_ip d.wireguard
    pub key : reg.server_pubkey ≡ d.wireguard.public_key
    pub subnet : reg.subnet ≡ d.wireguard.subnet

  register_peer-Triple :
      (caller client_id pubkey : String)
      → Triple
          (On Well)
          (register_peer host caller client_id pubkey)
          (λ reg. On (Answered client_id pubkey reg))
          (λ _. On Well)
  unfolding register_peer read
  register_peer-Triple caller client_id pubkey =
      Triple-bind (key_failure-Triple Well (validate_wg_key pubkey)) λ _.
        Triple-bind (Triple-gets (λ s. s.cfg)) λ d.
          Triple-if (truthy_text d.wireguard.private_key)
            (λ _. Triple-bind (assign-Assigned numbered client_id pubkey d _ refl) λ wg_ip.
              let A = Assigned client_id pubkey d.wireguard wg_ip in
              Triple-bind (Triple-attempt (on_machine-On A _)) λ r.
                Triple-bind (tunnel_failure-Triple A Well r (λ x a. a.well)) λ _.
                  Triple-bind (log_event-On A _) λ _. Triple-pure _ λ s a. record {
                    well = a.well;
                    peered = a.peered;
                    key = a.key;
                    subnet = a.subnet;
                  })
            (λ _. Triple-raise _ (λ s h. h.0))

  pub register-Triple :
      (caller body_pubkey : String)
      → Triple
          (On Well)
          (api_wireguard_register host caller body_pubkey)
          (λ reg. On (Answered (env.suffix 7 caller) (env.strip body_pubkey) reg))
          (λ _. On Well)
  unfolding api_wireguard_register
  register-Triple caller body_pubkey =
      Triple-if (not (starts_with caller "client:")) (λ _. Triple-raise _ (λ s h. h))
        λ _. Triple-bind (outside-On Well env.wireguard_available) λ available.
          Triple-if available (λ _. register_peer-Triple caller _ _)
            (λ _. Triple-raise _ (λ s h. h))

  set_found-wireguard :
      (client_id : String) (f : ClientRecord → ClientRecord) (d : Config) (o : Option ClientRecord)
      → (set_found client_id f d o).wireguard ≡ d.wireguard
  unfolding set_found
  set_found-wireguard client_id f d none = refl
  set_found-wireguard client_id f d (some client) = refl

  seen-Triple :
      (client_id : String) (f : ClientRecord → ClientRecord)
      → Triple (On Well) (update (set_client client_id f)) (λ _. On Well) (λ _. On Well)
  unfolding update set_client ◌>>=◌
  seen-Triple client_id f = record {
    at = λ s h.
        subst WellNumbered
          (sym (set_found-wireguard client_id f s.cfg (lookup client_id s.cfg.clients))) h;
  }

  accept_client-Triple :
      (o : Option String) → Triple (On Well) (accept_client o) (λ _. On Well) (λ _. On Well)
  unfolding accept_client
  accept_client-Triple none = Triple-raise _ (λ s h. h)
  accept_client-Triple (some client_id) =
      Triple-bind (outside-On Well _)
        λ now. Triple-bind (seen-Triple client_id _) (λ _. Triple-pure _ (λ s h. h))

  pub caller-Triple :
      (request : Request)
      → Triple (On Well) (require_bearer_or_session request) (λ _. On Well) (λ _. On Well)
  unfolding require_bearer_or_session read
  caller-Triple request =
      Triple-if (truthy request.user) (λ _. Triple-pure _ (λ s h. h))
        λ _.
          Triple-if (starts_with (env.lower request.authorization) "bearer ")
            (λ _. Triple-bind (Triple-gets (λ s. s.cfg)) λ cfg.
              Triple-bind (Triple-weaken (Triple-lift _) (λ s h. h.0) (λ _ s h. h) (λ _ s h. h))
                (λ found. accept_client-Triple found))
            (λ _. Triple-raise _ (λ s h. h))

  -- Where host numbers are printed differently, and the peers have different addresses with used
  -- host numbers: if the registration answers, the client has a peer with its key and the answered
  -- address, the answered key and subnet are the server's, and the peers have different addresses
  -- with used host numbers again. The last also holds if it raises, at whichever step.
  pub api_wireguard_register-Answered :
      (caller body_pubkey : String) (s : Server env.World)
      → WellNumbered s.cfg.wireguard
      → Outcome
          (λ reg s'. Answered (env.suffix 7 caller) (env.strip body_pubkey) reg s'.cfg)
          (λ _ s'. WellNumbered s'.cfg.wireguard)
          (api_wireguard_register host caller body_pubkey s).0
          (api_wireguard_register host caller body_pubkey s).1
  api_wireguard_register-Answered caller body_pubkey s w =
      (register-Triple caller body_pubkey).at s w
