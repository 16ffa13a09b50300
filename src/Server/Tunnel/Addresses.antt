-- ===== src/Server/Tunnel/Addresses.antt =====
-- No two peers of the tunnel have one address.
use mathlib.Core.Option.{some-injective}
use usbover_ip.Base.{
  ℕ, ◌+◌, ◌<◌, String, ◌<>◌, ◌≡◌, ◌≢◌, ap, sym, ◌∙◌, ◌⊎◌, inl, inr, some, arith, if◌then◌else◌,
  ◌==◌, eq_iff, eq_refl, Bool-cases,
}
use usbover_ip.Base.Dict.{lookup, insert, lookup-insert}
use usbover_ip.Server.State.{Env, Config, Peer, Wireguard}
use usbover_ip.Server.Tunnel.{host_address, save_peer}

module _ ⦃env : Env⦄ where
  -- The numbers of hosts have different texts behind one subnet.
  pub record Numbered : Type 0 where
    pub injective :
        (prefix : String) (h k : ℕ)
        → (prefix <> "." <> env.str h) ≡ (prefix <> "." <> env.str k)
        → h ≡ k

  -- Each peer has the address of a host number that is used up, and no two peers have the same.
  pub record WellNumbered (wg : Wireguard) : Type 0 where
    pub used :
        (client_id : String) (p : Peer)
        → lookup client_id wg.peers ≡ some p
        → (h : ℕ) × (h < wg.next_host) × (p.wg_ip ≡ host_address wg h)
    pub distinct :
        (i j : String) (p q : Peer)
        → lookup i wg.peers ≡ some p
        → lookup j wg.peers ≡ some q
        → p.wg_ip ≡ q.wg_ip
        → i ≡ j

  fresh_address :
      Numbered
      → (wg : Wireguard) → WellNumbered wg
      → (j : String) (q : Peer) → lookup j wg.peers ≡ some q
      → host_address wg wg.next_host ≢ q.wg_ip
  unfolding host_address
  fresh_address n wg w j q h e =
      let u = w.used j q h in
      let same : wg.next_host ≡ u.0 =
        n.injective (env.first_three wg.subnet) wg.next_host u.0 (e ∙ u.2) in
      absurd (omega (arith, same, u.1))

  -- Where host numbers are printed differently: if the peers have different addresses with used
  -- host numbers, then so they have after a peer is saved, also where it replaces the client's
  -- earlier one; and the new peer has the address of the first free host number.
  pub save_peer-WellNumbered :
      (client_id pubkey now : String) (d : Config)
      → Numbered
      → WellNumbered d.wireguard
      → WellNumbered (save_peer client_id pubkey now d).wireguard
        × (lookup client_id (save_peer client_id pubkey now d).wireguard.peers
            ≡ some (record {
              pubkey = pubkey;
              wg_ip = host_address d.wireguard d.wireguard.next_host;
              added_at = now;
            }))
  unfolding save_peer
  save_peer-WellNumbered client_id pubkey now d n w =
      (record { used = used'; distinct = distinct' }, rw (lookup-insert, eq_refl))
    where
      wg : Wireguard
      wg = d.wireguard

      new : Peer
      new = record { pubkey = pubkey; wg_ip = host_address wg wg.next_host; added_at = now }

      -- the peers after the change, by the key
      look :
          (j : String)
          → lookup j (insert client_id new wg.peers)
            ≡ (if client_id == j then some new else lookup j wg.peers)
      look j = lookup-insert client_id j new wg.peers

      cases :
          (j : String) (p : Peer)
          → lookup j (insert client_id new wg.peers) ≡ some p
          → ((client_id ≡ j) × (new ≡ p)) ⊎ (lookup j wg.peers ≡ some p)
      cases j p h = elim (Bool-cases (client_id == j)) [
        | inl same ↦
            inl ((eq_iff client_id j).0 same, some-injective _ _ (sym (rw same at (look j)) ∙ h))
        | inr other ↦ inr (sym (rw other at (look j)) ∙ h)
      ]

      used' :
          (j : String) (p : Peer)
          → lookup j (insert client_id new wg.peers) ≡ some p
          → (h : ℕ) × (h < wg.next_host + 1) × (p.wg_ip ≡ host_address wg h)
      used' j p h = elim (cases j p h) [
        | inl c ↦ (wg.next_host, omega arith, ap (λ (x : Peer). x.wg_ip) (sym c.1))
        | inr c ↦ let u = w.used j p c in (u.0, omega (arith, u.1), u.2)
      ]

      distinct' :
          (i j : String) (p q : Peer)
          → lookup i (insert client_id new wg.peers) ≡ some p
          → lookup j (insert client_id new wg.peers) ≡ some q
          → p.wg_ip ≡ q.wg_ip
          → i ≡ j
      distinct' i j p q hi hj e = elim (cases i p hi) [
        | inl a ↦ elim (cases j q hj) [
          | inl b ↦ sym a.0 ∙ b.0
          | inr b ↦ absurd (fresh_address n wg w j q b (ap (λ (x : Peer). x.wg_ip) a.1 ∙ e))
        ]
        | inr a ↦ elim (cases j q hj) [
          | inl b ↦ absurd (fresh_address n wg w i p a (ap (λ (x : Peer). x.wg_ip) b.1 ∙ sym e))
          | inr b ↦ w.distinct i j p q a b e
        ]
      ]
