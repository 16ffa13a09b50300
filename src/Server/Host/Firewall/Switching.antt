-- ===== src/Server/Host/Firewall/Switching.antt =====
-- What the calls of `nft` do to the table, and the switch step by step.
use mathlib.Core.List.{append-nil}
use usbover_ip.Base.{
  ℕ, String, ◌≡◌, refl, ◌∙◌, sym, ap, Bool, true, false, List, [], ◌∷◌, some, eqb, if◌then◌else◌,
  subst, ◌++◌, Bool-cases, inl, inr,
}
use usbover_ip.Base.Exec.{Exc, Result, ok, err, firewall_error, ◌>>=◌}
use usbover_ip.Base.Exec.Triple.{
  Triple, Keeps, Outcome, Triple-bind, Triple-pure, Triple-raise, Triple-if, Triple-attempt,
  Triple-gets, Triple-lift, Triple-weaken,
}
use usbover_ip.Outside.{Call, returned, raised, Proc}
use usbover_ip.Server.State.{
  Env, App, Server, Config, outcome, outside, outside_try, read, update, log_event,
}
use usbover_ip.Server.Host.{Host, run}
use usbover_ip.Server.Host.Firewall.{
  table, disable, rules, validate_ports, check_nft, enable, firewall_failure, require_tunnel,
  set_enforced, enforce,
}
use usbover_ip.Validate.{validate_port_number}
use usbover_ip.Validate.Cidr.{validate_ipv4_cidr}

abbrev pub delete_table : List String
delete_table = "nft" ∷ "delete" ∷ "table" ∷ "inet" ∷ table ∷ []

abbrev load_rules : List String
load_rules = "nft" ∷ "-f" ∷ "-" ∷ []

module _ ⦃env : Env⦄ (host : Host) where
  -- The texts of rules that the table in the kernel was made from, in order, with none where there
  -- is no table; and what the calls of `nft` do to it. Rules that are loaded are added to a table
  -- that is there, and a delete that fails changes nothing.
  pub record Nft : Type 0 where
    pub loaded : env.World → List String
    pub delete_done :
        (proc : Proc) (w : env.World)
        → (env.run delete_table w).0 ≡ returned proc
        → eqb proc.returncode 0 ≡ true
        → loaded (env.run delete_table w).1 ≡ []
    pub delete_failed :
        (proc : Proc) (w : env.World)
        → (env.run delete_table w).0 ≡ returned proc
        → eqb proc.returncode 0 ≡ false
        → loaded (env.run delete_table w).1 ≡ loaded w
    pub load_done :
        (text : String) (proc : Proc) (w : env.World)
        → (host.run_input load_rules text w).0 ≡ returned proc
        → eqb proc.returncode 0 ≡ true
        → loaded (host.run_input load_rules text w).1 ≡ loaded w ++ (text ∷ [])
    pub probe_keeps : (w : env.World) → loaded (host.nft_installed w).1 ≡ loaded w
    pub utcnow_keeps : (w : env.World) → loaded (env.utcnow w).1 ≡ loaded w

  -- The rules for a switch that is on, and none for one that is off.
  abbrev pub rules_wanted : Config → Bool → List String
  rules_wanted c true = rules host c.wireguard.subnet (host.usbipd_port ∷ []) ∷ []
  rules_wanted c false = []

  -- What the delete has left of the table.
  abbrev pub left : Proc → List String → List String
  left proc before = if eqb proc.returncode 0 then [] else before

  try-Triple :
      {A : Type 0} {P : Server env.World → Type 0} {Q : A → Server env.World → Type 0}
      {E : Exc → Server env.World → Type 0} (f : env.World → Call A × env.World)
      → ((a : A) (s : Server env.World)
          → (f s.world).0 ≡ returned a
          → P s
          → Q a (record s { world = (f s.world).1 }))
      → ((e : Exc) (s : Server env.World) → P s → E e (record s { world = (f s.world).1 }))
      → Triple P (outside_try f) Q E
  unfolding outside_try
  try-Triple {A} {P} {Q} {E} f good bad = record { at = λ s h. go s h (f s.world).0 refl }
    where
      go :
          (s : Server env.World)
          → P s
          → (c : Call A) → (f s.world).0 ≡ c
          → Outcome Q E (outcome c) (record s { world = (f s.world).1 })
      go s h (returned a) e = good a s e h
      go s h (raised m) e = bad _ s h

  module _ (nft : Nft) (c : Config) (w : env.World) where
    abbrev pub Same : Server env.World → Type 0
    Same s = s.cfg ≡ c

    -- Nothing has been done to the world yet.
    abbrev pub Start : Server env.World → Type 0
    Start s = Same s × (s.world ≡ w)

    -- The configuration is the same, and the table is what the delete has left, with these texts.
    abbrev Holds : List String → Server env.World → Type 0
    Holds texts s =
        Same s
        × ((proc : Proc) × ((env.run delete_table w).0 ≡ returned proc)
            × (nft.loaded s.world ≡ left proc (nft.loaded w) ++ texts))

    deleted :
        (proc : Proc) (v : env.World)
        → (env.run delete_table v).0 ≡ returned proc
        → nft.loaded (env.run delete_table v).1 ≡ left proc (nft.loaded v) ++ []
    deleted proc v e = elim (Bool-cases (eqb proc.returncode 0)) [
      | inl zero ↦ rw zero (nft.delete_done proc v e zero)
      | inr other ↦ rw other (nft.delete_failed proc v e other ∙ sym (append-nil (nft.loaded v)))
    ]

    disable-Triple : Triple Start (disable host) (λ _. Holds []) (λ _. Same)
    unfolding disable run
    disable-Triple =
        Triple-bind {Q = λ _. Holds []}
          (try-Triple (env.run delete_table)
            (λ proc s e h. (
              h.0,
              (
                proc,
                subst (λ v. (env.run delete_table v).0 ≡ returned proc) h.1 e,
                deleted proc s.world e ∙ ap (λ v. left proc (nft.loaded v) ++ []) h.1,
              ),
            ))
            (λ e s h. h.0))
          (λ _. Triple-pure tt (λ s h. h))

    validate_ports-Keeps : (ports : List ℕ) → Keeps Start (validate_ports host ports)
    unfolding validate_ports
    validate_ports-Keeps [] = Triple-pure tt (λ s h. h)
    validate_ports-Keeps (p ∷ ports) =
        Triple-bind (Triple-lift (validate_port_number (some (false, p))))
          (λ _. validate_ports-Keeps ports)

    early : {A : Type 0} {m : App A} → Keeps Start m → Triple Start m (λ _. Start) (λ _. Same)
    early h = Triple-weaken h (λ s k. k) (λ _ s k. k) (λ _ s k. k.0)

    enable-Triple :
        (subnet : String) (ports : List ℕ)
        → Triple Start
            (enable host subnet ports)
            (λ _. Holds (rules host subnet ports ∷ []))
            (λ _. Same)
    unfolding enable check_nft
    enable-Triple subnet ports =
        Triple-bind {E = λ _. Same}
          (early (Triple-lift (validate_ipv4_cidr env.is_digit env.digit_value subnet)))
          λ _. Triple-bind (early (validate_ports-Keeps ports)) λ _. Triple-bind disable-Triple λ _.
            Triple-bind
              {Q = λ proc s.
                Same s × (eqb proc.returncode 0 ≡ true → Holds (rules host subnet ports ∷ []) s)}
              (try-Triple (host.run_input load_rules (rules host subnet ports))
                (λ proc s e h. (
                  h.0,
                  λ zero. (
                    h.0,
                    (
                      h.1.0,
                      h.1.1,
                      nft.load_done (rules host subnet ports) proc s.world e zero
                          ∙ ap (λ x. x ++ (rules host subnet ports ∷ []))
                              (h.1.2 ∙ append-nil (left h.1.0 (nft.loaded w))),
                    ),
                  ),
                ))
                (λ e s h. h.0))
              λ proc.
                Triple-if (eqb proc.returncode 0) (λ zero. Triple-pure tt (λ s h. h.1 zero))
                  (λ _. Triple-raise _ (λ s h. h.0))

    abbrev wanted : Bool → List String
    wanted = rules_wanted c

    abbrev switched : Bool → App Unit
    switched enabled =
        if enabled then enable host c.wireguard.subnet (host.usbipd_port ∷ []) else disable host

    switched-Triple :
        (enabled : Bool) → Triple Start (switched enabled) (λ _. Holds (wanted enabled)) (λ _. Same)
    switched-Triple true = enable-Triple c.wireguard.subnet (host.usbipd_port ∷ [])
    switched-Triple false = disable-Triple

    failure-Triple :
        {Q : Unit → Server env.World → Type 0} (r : Result (Unit {0}))
        → Triple (Outcome Q (λ _. Same) r) (firewall_failure host r) Q (λ _. Same)
    unfolding firewall_failure
    failure-Triple (ok u) = Triple-pure u (λ s h. h)
    failure-Triple (err (firewall_error m)) = Triple-raise _ (λ s h. h)
    failure-Triple (err e) = Triple-raise e (λ s h. h)

    -- The switch is on record.
    abbrev Switched : Bool → Server env.World → Type 0
    Switched enabled s =
        (s.cfg ≡ require_tunnel host enabled c)
        × ((proc : Proc) × ((env.run delete_table w).0 ≡ returned proc)
            × (nft.loaded s.world ≡ left proc (nft.loaded w) ++ wanted enabled))

    update-Triple :
        (enabled : Bool)
        → Triple
            (Holds (wanted enabled))
            (update (require_tunnel host enabled))
            (λ _. Switched enabled)
            (λ _. Same)
    unfolding update ◌>>=◌
    update-Triple enabled = record { at = λ s h. (ap (require_tunnel host enabled) h.0, h.1) }

    log-Triple :
        (enabled : Bool) (line : String)
        → Triple (Switched enabled) (log_event line) (λ _. Switched enabled) (λ _. Same)
    unfolding log_event outside ◌>>=◌
    log-Triple enabled line = record {
      at = λ s h. (h.0, (h.1.0, h.1.1, nft.utcnow_keeps s.world ∙ h.1.2));
    }

    enforce-Triple :
        (enabled : Bool)
        → Triple Start
            (enforce host enabled c)
            (λ b s. (b ≡ enabled) × Switched enabled s)
            (λ _. Same)
    unfolding enforce
    enforce-Triple enabled =
        Triple-bind (Triple-attempt {E' = λ _. Same} (switched-Triple enabled)) λ r.
          Triple-bind (failure-Triple r) λ _.
            Triple-bind (update-Triple enabled)
              λ _. Triple-bind (log-Triple enabled _) (λ _. Triple-pure enabled (λ s h. (refl, h)))

    pub set_enforced-Triple :
        (enabled : Bool)
        → Triple Start
            (set_enforced host enabled)
            (λ b s. (b ≡ enabled) × Switched enabled s)
            (λ _. Same)
    unfolding set_enforced read
    set_enforced-Triple enabled = Triple-bind (Triple-gets (λ s. s.cfg)) λ cfg. record {
      at = λ s h.
          subst
            (λ d.
              Outcome (λ b s'. (b ≡ enabled) × Switched enabled s') (λ _. Same)
                (enforce host enabled d s).0 (enforce host enabled d s).1)
            (sym (h.1 ∙ h.0.0)) ((enforce-Triple enabled).at s h.0);
    }
