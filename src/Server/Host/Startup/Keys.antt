-- ===== src/Server/Host/Startup/Keys.antt =====
-- The keys and the endpoint of the tunnel, which the server's start makes if there are none.
use usbover_ip.Base.{String, ◌≡◌, refl, ap, subst, true, false, truthy_text}
use usbover_ip.Base.Exec.{Result, ok, err, wireguard_error, ◌>>=◌}
use usbover_ip.Base.Exec.Triple.{
  Triple, Keeps, Outcome, Triple-bind, Triple-pure, Triple-raise, Triple-if, Triple-weaken,
  Triple-attempt, Triple-gets,
}
use usbover_ip.Server.State.{Env, Server, Config, read, update}
use usbover_ip.Server.Frame.{On, outside-On, on_machine-On, log_event-On}
use usbover_ip.Server.Host.{Host, detect_lan_ip}
use usbover_ip.Server.Host.Startup.{
  save_keys, keys_made, ensure_keys, save_endpoint, ensure_endpoint,
}

-- `d` is `c` but for the keys and the endpoint of the tunnel, which are the same where `c` has them.
pub record Kept (c d : Config) : Type 0 where
  pub private_key :
      truthy_text c.wireguard.private_key ≡ true → d.wireguard.private_key ≡ c.wireguard.private_key
  public_key :
      truthy_text c.wireguard.private_key ≡ true → d.wireguard.public_key ≡ c.wireguard.public_key
  pub endpoint_host :
      truthy_text c.wireguard.endpoint_host ≡ true
      → d.wireguard.endpoint_host ≡ c.wireguard.endpoint_host
  pub rest : d ≡ record c {
    wireguard = record c.wireguard {
      private_key = d.wireguard.private_key;
      public_key = d.wireguard.public_key;
      endpoint_host = d.wireguard.endpoint_host;
    };
  }

pub Kept-refl : (c : Config) → Kept c c
Kept-refl c = record {
  private_key = λ h. refl;
  public_key = λ h. refl;
  endpoint_host = λ h. refl;
  rest = refl;
}

module _ ⦃env : Env⦄ (host : Host) where
  pub Kept-save_keys :
      (c d : Config) (keys : String × String)
      → Kept c d
      → truthy_text d.wireguard.private_key ≡ false
      → Kept c (save_keys host keys d)
  unfolding save_keys
  Kept-save_keys c d keys k none_yet = record {
    private_key = λ h. absurd (made h);
    public_key = λ h. absurd (made h);
    endpoint_host = k.endpoint_host;
    rest = ap (save_keys host keys) k.rest;
  }
    where
      made : truthy_text c.wireguard.private_key ≡ true → ⊥
      made h = cc (k.private_key h)

  pub Kept-save_endpoint :
      (c d : Config) (detected : String)
      → Kept c d
      → truthy_text d.wireguard.endpoint_host ≡ false
      → Kept c (save_endpoint host detected d)
  unfolding save_endpoint
  Kept-save_endpoint c d detected k none_yet = record {
    private_key = k.private_key;
    public_key = k.public_key;
    endpoint_host = λ h. absurd (set h);
    rest = ap (save_endpoint host detected) k.rest;
  }
    where
      set : truthy_text c.wireguard.endpoint_host ≡ true → ⊥
      set h = cc (k.endpoint_host h)

  module _ (c : Config) where
    -- An update that keeps the rest where `lacks` holds of the configuration.
    update-Kept :
        (lacks : Config → Type 0) (f : Config → Config)
        → ((d : Config) → Kept c d → lacks d → Kept c (f d))
        → Triple (On (λ d. Kept c d × lacks d)) (update f) (λ _. On (Kept c)) (λ _. On (Kept c))
    unfolding update ◌>>=◌
    update-Kept lacks f h = record { at = λ s k. h s.cfg k.0 k.1 }

    abbrev Keyless : Config → Type 0
    Keyless d = truthy_text d.wireguard.private_key ≡ false

    keys_made-Kept :
        (r : Result (String × String))
        → Triple
            (On (λ d. Kept c d × Keyless d))
            (keys_made host r)
            (λ _. On (Kept c))
            (λ _. On (Kept c))
    unfolding keys_made
    keys_made-Kept (ok keys) =
        Triple-bind
          (update-Kept Keyless (save_keys host keys) (λ d k n. Kept-save_keys c d keys k n))
          λ _. Triple-bind (log_event-On (Kept c) _) (λ _. Triple-pure true (λ s h. h))
    keys_made-Kept (err (wireguard_error m)) = Triple-pure false (λ s h. h.0)
    keys_made-Kept (err e) = Triple-raise e (λ s h. h.0)

    pub either :
        {A : Type 0} (C : Config → Type 0) (r : Result A) (s : Server env.World)
        → Outcome (λ _. On C) (λ _. On C) r s
        → On C s
    either C (ok a) s h = h
    either C (err e) s h = h

    pub ensure_keys-Kept : Keeps (On (Kept c)) (ensure_keys host)
    unfolding ensure_keys read
    ensure_keys-Kept = Triple-bind (Triple-gets (λ s. s.cfg)) λ d.
        Triple-if (truthy_text d.wireguard.private_key) (λ _. Triple-pure true (λ s h. h.0))
          λ none_yet.
            let C = λ (x : Config). Kept c x × Keyless x in
            Triple-weaken
              (Triple-bind (Triple-attempt (on_machine-On C _))
                λ r. Triple-weaken (keys_made-Kept r) (either C r) (λ _ s h. h) (λ _ s h. h))
              (λ s h. (h.0, subst Keyless h.1 none_yet)) (λ _ s h. h) (λ _ s h. h)

    pub ensure_endpoint-Kept : Keeps (On (Kept c)) (ensure_endpoint host)
    unfolding ensure_endpoint read detect_lan_ip
    ensure_endpoint-Kept = Triple-bind (Triple-gets (λ s. s.cfg)) λ d.
        Triple-if (truthy_text d.wireguard.endpoint_host) (λ _. Triple-pure tt (λ s h. h.0))
          λ none_yet.
            let No = λ (x : Config). truthy_text x.wireguard.endpoint_host ≡ false in
            let C = λ (x : Config). Kept c x × No x in
            Triple-weaken {P' = On C}
              (Triple-bind
                (Triple-weaken {E' = λ _. On C}
                  (Triple-bind (outside-On C _) (λ address. Triple-pure _ (λ s h. h))) (λ s h. h)
                  (λ _ s h. h) (λ _ s h. h.0))
                λ detected.
                  Triple-bind
                    (update-Kept No (save_endpoint host detected)
                      (λ d k n. Kept-save_endpoint c d detected k n))
                    (λ _. log_event-On (Kept c) _))
              (λ s h. (h.0, subst No h.1 none_yet)) (λ _ s h. h) (λ _ s h. h)
