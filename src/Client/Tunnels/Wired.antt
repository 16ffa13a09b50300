-- ===== src/Client/Tunnels/Wired.antt =====
-- The server as a process in the world of the client, and code of the client that leaves it alone.
use usbover_ip.Base.{
  ℕ, String, ◌<>◌, ◌≡◌, refl, ap, none, some, true, false, eqb, leb, ◌&&◌, Bool-cases, inl, inr,
}
use usbover_ip.Base.Exec.{Exc, Exec, Result, ok, err, lift, ◌>>=◌}
use usbover_ip.Base.Exec.Triple.{Triple, Keeps, Outcome, Triple-bind, Triple-lift}
use usbover_ip.Outside.{Env, returned}
use usbover_ip.Client.State.{Client, Config, outside, on_machine, log_event}
use usbover_ip.Client.Remote.{base_url}
use usbover_ip.Client.Tunnels.{Answer, KeyResponse, answered, Tools, box}
use usbover_ip.Validate.{validate_hostname, validate_port_number}
use usbover_ip.Web.{Request}
use usbover_ip.Wireguard.Local.{Local}
use usbover_ip.Server.State as Remote
use usbover_ip.Server.Host.{Host}
use usbover_ip.Server.Tunnel.{Registration, post_wireguard_register}

-- A registration as JSON.
abbrev pub answer : Registration → Answer
answer reg = record {
  server_pubkey = some reg.server_pubkey;
  endpoint = some reg.endpoint;
  assigned_ip = some reg.assigned_ip;
  server_wg_ip = some reg.server_wg_ip;
  subnet = some reg.subnet;
}

abbrev pub bearer : String → Request
bearer token = record { user = none; requested_with = none; authorization = "Bearer " <> token }

module _ ⦃env : Env⦄ where
  abbrev pub address : String → ℕ → String
  address host api_port = "http://" <> host <> ":" <> env.str api_port

module _ ⦃env : Env⦄ (tools : Tools) ⦃senv : Remote.Env⦄ (host : Host) where
  -- The server at `origin` is a process in the client's world. A POST to the URL of its route that is
  -- answered with 200 has run the route, and nothing else that the client does on its own machine
  -- touches that process. `suffix 7 s` is `s[7:]`.
  pub record Wired : Type 1 where
    pub process : env.World → Remote.Server senv.World
    pub origin : String
    pub serves :
        (token pubkey : String) (w : env.World) (r : KeyResponse) (a : Answer)
        → (tools.post_key (origin <> "/api/wireguard/register") token pubkey w).0 ≡ answered r
        → eqb r.status_code 200 ≡ true
        → r.json ≡ returned a
        → (reg : Registration) × (post_wireguard_register host (bearer token) pubkey (process w) ≡ (
          ok reg,
          process (tools.post_key (origin <> "/api/wireguard/register") token pubkey w).1,
        ))
          × (a ≡ answer reg)
    pub apart : (I : Remote.Server senv.World → Type 0) → Local (box tools) (λ w. I (process w))
    pub clock_apart :
        (I : Remote.Server senv.World → Type 0) (w : env.World)
        → I (process w)
        → I (process (env.utcnow w).1)
    pub probe_apart :
        (I : Remote.Server senv.World → Type 0) (w : env.World)
        → I (process w)
        → I (process (tools.available w).1)
    pub client_suffix : (client_id : String) → senv.suffix 7 ("client:" <> client_id) ≡ client_id
    pub bearer_suffix : (token : String) → senv.suffix 7 ("Bearer " <> token) ≡ token

  module _ (wired : Wired) where
    open wired use {process, serves, apart}

    -- A claim on the client's configuration, and one on the server's.
    abbrev pub Both : (Config → Type 0) → (Remote.Config → Type 0) → Client env.World → Type 0
    Both C D s = C s.cfg × D (process s.world).cfg

    module _ (C : Config → Type 0) (D : Remote.Config → Type 0) where
      pub on_machine-Both :
          {A : Type 0} {m : Exec env.World A}
          → Keeps (λ w. D (process w).cfg) m
          → Keeps (Both C D) (on_machine m)
      unfolding on_machine
      on_machine-Both {A} {m} k = record {
        at = λ s h. go s (m s.world).0 (m s.world).1 h.0 (k.at s.world h.1);
      }
        where
          go :
              (s : Client env.World) (r : Result A) (w : env.World)
              → C s.cfg
              → Outcome (λ _ v. D (process v).cfg) (λ _ v. D (process v).cfg) r w
              → Outcome (λ _. Both C D) (λ _. Both C D) r (record s { world = w })
          go s (ok a) w c d = (c, d)
          go s (err e) w c d = (c, d)

      pub apart_cfg : Local (box tools) (λ w. D (process w).cfg)
      apart_cfg = apart (λ s. D s.cfg)

      pub log_event-Both :
          {E : Exc → Client env.World → Type 0} (text : String)
          → Triple (Both C D) (log_event text) (λ _. Both C D) E
      unfolding log_event outside ◌>>=◌
      log_event-Both text = record {
        at = λ s h. (h.0, wired.clock_apart (λ x. D x.cfg) s.world h.1);
      }

      pub probe-Both : Keeps (Both C D) (outside tools.available)
      unfolding outside
      probe-Both = record { at = λ s h. (h.0, wired.probe_apart (λ x. D x.cfg) s.world h.1) }

      port-Both :
          (p : ℕ)
          → Triple
              (Both C D)
              (lift (validate_port_number (some (false, p))))
              (λ port s. Both C D s × (port ≡ p))
              (λ _. Both C D)
      unfolding validate_port_number ◌>>=◌
      port-Both p = elim (Bool-cases (leb 1 p && leb p 65535)) [
        | inl good ↦ rw good (record { at = λ s h. (h, refl) })
        | inr bad ↦ rw bad (record { at = λ s h. h })
      ]

      -- The base is the address of the server.
      pub base_url-Both :
          (h : String) (p : ℕ)
          → Triple
              (Both C D)
              (base_url h p)
              (λ base s. Both C D s × (base ≡ address h p))
              (λ _. Both C D)
      unfolding base_url ◌>>=◌
      base_url-Both h p =
          Triple-bind (Triple-lift (validate_hostname h))
            λ _. Triple-bind (port-Both p) λ port. record { at = λ s k. (k.0, ap (address h) k.1) }
