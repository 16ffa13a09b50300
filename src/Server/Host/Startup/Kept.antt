-- ===== src/Server/Host/Startup/Kept.antt =====
-- What the server's start keeps of its configuration.
use usbover_ip.Base.{ℕ, String, true, false, List, [], ◌∷◌, eqb}
use usbover_ip.Base.Dict.{Dict}
use usbover_ip.Base.Exec.{Result, ok, err, wireguard_error, firewall_error, attempt, ◌>>=◌}
use usbover_ip.Base.Exec.Triple.{
  Keeps, Triple-bind, Triple-pure, Triple-raise, Triple-if, Triple-weaken, Triple-attempt,
  Triple-gets, Triple-lift,
}
use usbover_ip.Server.State.{Env, App, Server, Config, Peer, Wireguard, read}
use usbover_ip.Server.Frame.{On, outside-On, outside_try-On, on_machine-On, log_event-On}
use usbover_ip.Server.Host.{Host, run}
use usbover_ip.Server.Host.Firewall.{disable, validate_ports, check_nft, enable}
use usbover_ip.Server.Host.Startup.{
  interface_raised, peer_applied, reapply_peers, rule_applied, reapply_rule, raise_interface,
  ensure_wireguard_up,
}
use usbover_ip.Server.Host.Startup.Keys.{
  Kept, Kept-refl, either, ensure_keys-Kept, ensure_endpoint-Kept,
}

module _ ⦃env : Env⦄ (host : Host) where
  module _ (c : Config) where
    -- A result that is only logged, or raised again.
    interface_raised-Kept : (r : Result (Unit {0})) → Keeps (On (Kept c)) (interface_raised host r)
    unfolding interface_raised
    interface_raised-Kept (ok u) = Triple-pure true (λ s h. h)
    interface_raised-Kept (err (wireguard_error m)) =
        Triple-bind (log_event-On (Kept c) _) (λ _. Triple-pure false (λ s h. h))
    interface_raised-Kept (err e) = Triple-raise e (λ s h. h)

    peer_applied-Kept :
        (client_id : String) (r : Result (Unit {0}))
        → Keeps (On (Kept c)) (peer_applied host client_id r)
    unfolding peer_applied
    peer_applied-Kept client_id (ok u) = Triple-pure tt (λ s h. h)
    peer_applied-Kept client_id (err (wireguard_error m)) = log_event-On (Kept c) _
    peer_applied-Kept client_id (err e) = Triple-raise e (λ s h. h)

    rule_applied-Kept : (r : Result (Unit {0})) → Keeps (On (Kept c)) (rule_applied host r)
    unfolding rule_applied
    rule_applied-Kept (ok u) = Triple-pure tt (λ s h. h)
    rule_applied-Kept (err (firewall_error m)) = log_event-On (Kept c) _
    rule_applied-Kept (err e) = Triple-raise e (λ s h. h)

    -- `try: m` with a handler
    handled-Kept :
        {A B : Type 0} {m : App A} {f : Result A → App B}
        → Keeps (On (Kept c)) m
        → ((r : Result A) → Keeps (On (Kept c)) (f r))
        → Keeps (On (Kept c)) (attempt m >>= f)
    handled-Kept km kf =
        Triple-bind (Triple-attempt km)
          λ r. Triple-weaken (kf r) (either host c (Kept c) r) (λ _ s h. h) (λ _ s h. h)

    reapply_peers-Kept : (peers : Dict Peer) → Keeps (On (Kept c)) (reapply_peers host peers)
    unfolding reapply_peers
    reapply_peers-Kept [] = Triple-pure tt (λ s h. h)
    reapply_peers-Kept ((client_id, peer) ∷ peers) =
        Triple-bind (Triple-attempt (on_machine-On (Kept c) _)) λ r.
          Triple-bind
            (Triple-weaken (peer_applied-Kept client_id r) (either host c (Kept c) r) (λ _ s h. h)
              (λ _ s h. h))
            (λ _. reapply_peers-Kept peers)

    validate_ports-Kept : (ports : List ℕ) → Keeps (On (Kept c)) (validate_ports host ports)
    unfolding validate_ports
    validate_ports-Kept [] = Triple-pure tt (λ s h. h)
    validate_ports-Kept (p ∷ ports) = Triple-bind (Triple-lift _) (λ _. validate_ports-Kept ports)

    enable-Kept :
        (subnet : String) (ports : List ℕ) → Keeps (On (Kept c)) (enable host subnet ports)
    unfolding enable disable run check_nft
    enable-Kept subnet ports = Triple-bind (Triple-lift _) λ _.
        Triple-bind (validate_ports-Kept ports) λ _.
          Triple-bind (Triple-bind (outside_try-On (Kept c) _) (λ _. Triple-pure tt (λ s h. h)))
            λ _. Triple-bind (outside_try-On (Kept c) _) λ proc.
              Triple-if (eqb proc.returncode 0) (λ _. Triple-pure tt (λ s h. h))
                (λ _. Triple-raise _ (λ s h. h))

    reapply_rule-Kept :
        (cfg : Config) (wg : Wireguard) → Keeps (On (Kept c)) (reapply_rule host cfg wg)
    unfolding reapply_rule
    reapply_rule-Kept cfg wg =
        Triple-if cfg.require_wireguard
          (λ _. Triple-bind (outside-On (Kept c) _) λ installed.
            Triple-if installed (λ _. handled-Kept (enable-Kept _ _) rule_applied-Kept)
              (λ _. Triple-pure tt (λ s h. h)))
          (λ _. Triple-pure tt (λ s h. h))

    raise_interface-Kept :
        (cfg : Config) (wg : Wireguard) → Keeps (On (Kept c)) (raise_interface host cfg wg)
    unfolding raise_interface
    raise_interface-Kept cfg wg = Triple-bind (Triple-attempt (on_machine-On (Kept c) _)) λ r.
        Triple-bind
          (Triple-weaken (interface_raised-Kept r) (either host c (Kept c) r) (λ _ s h. h)
            (λ _ s h. h))
          λ up.
            Triple-if up
              (λ _. Triple-bind (reapply_peers-Kept wg.peers) (λ _. reapply_rule-Kept cfg wg))
              (λ _. Triple-pure tt (λ s h. h))

    ensure-Kept : Keeps (On (Kept c)) (ensure_wireguard_up host)
    unfolding ensure_wireguard_up read
    ensure-Kept = Triple-bind (outside-On (Kept c) _) λ available.
        Triple-if available
          (λ _.
            Triple-bind
              (Triple-weaken (Triple-gets (λ s. s.cfg)) (λ s h. h) (λ a s h. h.0) (λ e s h. h))
              λ cfg. Triple-bind (ensure_keys-Kept host c) λ made.
                Triple-if made
                  (λ _. Triple-bind (ensure_endpoint-Kept host c) λ _.
                    Triple-bind (Triple-gets (λ s. s.cfg)) λ d.
                      Triple-weaken (raise_interface-Kept cfg d.wireguard) (λ s h. h.0) (λ _ s h. h)
                        (λ _ s h. h))
                  (λ _. Triple-pure tt (λ s h. h)))
          (λ _. Triple-pure tt (λ s h. h))

  -- However the start of the tunnel ends, also where it raises: the configuration is the one from
  -- before, but for the server's key pair and the endpoint of the tunnel. The key pair is the one
  -- from before if there was a private key, and the endpoint if there was one.
  pub ensure_wireguard_up-Kept :
      (s : Server env.World) → Kept s.cfg (ensure_wireguard_up host s).1.cfg
  ensure_wireguard_up-Kept s =
      either host s.cfg (Kept s.cfg) (ensure_wireguard_up host s).0 _
        ((ensure-Kept s.cfg).at s (Kept-refl s.cfg))
