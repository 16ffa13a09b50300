-- ===== src/Server/Tunnel/Assigned.antt =====
-- What giving a client its address in the tunnel leaves on record.
use mathlib.Core.Option.{some-injective}
use usbover_ip.Base.{
  String, ◌≡◌, refl, sym, subst, Option, none, some, Bool-cases, inl, inr, ◌==◌, eq_iff, arith,
}
use usbover_ip.Base.Dict.{lookup}
use usbover_ip.Base.Exec.{◌>>=◌}
use usbover_ip.Base.Exec.Triple.{Triple, Triple-bind, Triple-pure}
use usbover_ip.Server.State.{Env, Config, Peer, Wireguard, update}
use usbover_ip.Server.Frame.{On, outside-On}
use usbover_ip.Server.Tunnel.{host_address, save_peer, kept_address, assign}
use usbover_ip.Server.Tunnel.Addresses.{Numbered, WellNumbered, save_peer-WellNumbered}

-- The client has a peer with this key and this address.
pub record Peered (client_id pubkey address : String) (wg : Wireguard) : Type 0 where
  pub peer : Peer
  pub found : lookup client_id wg.peers ≡ some peer
  pub key : peer.pubkey ≡ pubkey
  pub address_of : peer.wg_ip ≡ address

module _ ⦃env : Env⦄ where
  abbrev pub Well : Config → Type 0
  Well d = WellNumbered d.wireguard

  -- `wg` is the tunnel as it was read.
  pub record Assigned (client_id pubkey : String) (wg : Wireguard) (address : String) (d : Config)
      : Type 0 where
    pub well : Well d
    pub peered : Peered client_id pubkey address d.wireguard
    pub key : wg.public_key ≡ d.wireguard.public_key
    pub subnet : wg.subnet ≡ d.wireguard.subnet

  kept :
      (client_id pubkey address : String) (d : Config)
      → Well d
      → (o : Option Peer) → lookup client_id d.wireguard.peers ≡ o
      → kept_address pubkey o ≡ some address
      → Assigned client_id pubkey d.wireguard address d
  unfolding kept_address
  kept client_id pubkey address d w none e h = cc
  kept client_id pubkey address d w (some p) e h = elim (Bool-cases (p.pubkey == pubkey)) [
    | inl same ↦ record {
      well = w;
      peered = record {
        peer = p;
        found = e;
        key = (eq_iff p.pubkey pubkey).0 same;
        address_of = some-injective _ _ (rw same at h);
      };
      key = refl;
      subnet = refl;
    }
    | inr other ↦ absurd (ground (arith, h, other))
  ]

  module _ (numbered : Numbered) where
    saved :
        (client_id pubkey now : String) (d : Config)
        → Well d
        → Assigned client_id pubkey d.wireguard
            (host_address d.wireguard d.wireguard.next_host)
            (save_peer client_id pubkey now d)
    saved client_id pubkey now d w =
        let r = save_peer-WellNumbered client_id pubkey now d numbered w in
        record {
          well = r.0;
          peered = record { peer = _; found = r.1; key = refl; address_of = refl };
          key = unfold save_peer in refl;
          subnet = unfold save_peer in refl;
        }

    update-Assigned :
        (client_id pubkey now : String) (d : Config)
        → Triple
            (λ s. Well s.cfg × (d ≡ s.cfg))
            (update (save_peer client_id pubkey now))
            (λ _. On (
              Assigned client_id pubkey d.wireguard
                (host_address d.wireguard d.wireguard.next_host)))
            (λ _. On Well)
    unfolding update ◌>>=◌
    update-Assigned client_id pubkey now d = record {
      at = λ s h.
          subst
            (λ x.
              Assigned client_id pubkey x.wireguard (host_address x.wireguard x.wireguard.next_host)
                (save_peer client_id pubkey now s.cfg))
            (sym h.1) (saved client_id pubkey now s.cfg h.0);
    }

    pub assign-Assigned :
        (client_id pubkey : String) (d : Config) (o : Option String)
        → o ≡ kept_address pubkey (lookup client_id d.wireguard.peers)
        → Triple
            (λ s. Well s.cfg × (d ≡ s.cfg))
            (assign client_id pubkey d.wireguard o)
            (λ address. On (Assigned client_id pubkey d.wireguard address))
            (λ _. On Well)
    unfolding assign
    assign-Assigned client_id pubkey d (some address) e = Triple-pure address λ s h.
        subst (λ x. Assigned client_id pubkey d.wireguard address x) h.1
          (kept client_id pubkey address d (subst Well (sym h.1) h.0) _ refl (sym e))
    assign-Assigned client_id pubkey d none e =
        Triple-bind (outside-On (λ x. Well x × (d ≡ x)) _)
          λ now. Triple-bind (update-Assigned client_id pubkey _ d) (λ _. Triple-pure _ (λ s h. h))
