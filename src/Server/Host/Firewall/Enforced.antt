-- ===== src/Server/Host/Firewall/Enforced.antt =====
-- What the firewall lets through when the handler has answered.
use usbover_ip.Base.{◌≡◌, refl, ◌∙◌, ap, Bool, ◌++◌}
use usbover_ip.Base.Exec.{Result, lift}
use usbover_ip.Base.Exec.Triple.{
  Triple, Outcome, Triple-bind, Triple-raise, Triple-if, Triple-lift, Triple-weaken,
}
use usbover_ip.Outside.{returned, Proc}
use usbover_ip.Server.State.{Env, Server, outside}
use usbover_ip.Server.Host.{Host}
use usbover_ip.Server.Host.Firewall.{require_tunnel, api_wireguard_require}
use usbover_ip.Web.{Request, require_session_user, require_safe_ajax}
use usbover_ip.Server.Host.Firewall.Switching.{
  delete_table, Nft, left, rules_wanted, Same, Start, set_enforced-Triple,
}

module _ ⦃env : Env⦄ (host : Host) where
  module _ (nft : Nft host) where
    -- From `s` to `s'`, where the delete of the table exited with `proc`: the switch is the one that
    -- was asked for, and the table is what the delete has left, with the rules that are wanted.
    pub record Enforced (enabled : Bool) (s s' : Server env.World) : Type 0 where
      pub proc : Proc
      pub deleting : (env.run delete_table (host.nft_installed s.world).1).0 ≡ returned proc
      pub recorded : s'.cfg ≡ require_tunnel host enabled s.cfg
      pub table_of :
          nft.loaded s'.world
          ≡ left host proc (nft.loaded s.world) ++ rules_wanted host s.cfg enabled

    installed-Triple :
        (s : Server env.World)
        → Triple
            (λ s'. s' ≡ s)
            (outside host.nft_installed)
            (λ _. Start host nft s.cfg (host.nft_installed s.world).1)
            (λ _. Same host nft s.cfg (host.nft_installed s.world).1)
    unfolding outside
    installed-Triple s = record {
      at = λ s' h. (
        ap (λ (x : Server env.World). x.cfg) h,
        ap (λ (x : Server env.World). (host.nft_installed x.world).1) h,
      );
    }

    checked :
        {A : Type 0} (s : Server env.World) (r : Result A)
        → Triple (λ s'. s' ≡ s) (lift r) (λ _ s'. s' ≡ s) (λ _ s'. s'.cfg ≡ s.cfg)
    checked s r =
        Triple-weaken (Triple-lift r) (λ s' h. h) (λ _ s' h. h)
          (λ _ s' h. ap (λ (x : Server env.World). x.cfg) h)

    require-Triple :
        (request : Request) (enabled : Bool) (s : Server env.World)
        → Triple
            (λ s'. s' ≡ s)
            (api_wireguard_require host request enabled)
            (λ b s'. (b ≡ enabled) × Enforced enabled s s')
            (λ _ s'. s'.cfg ≡ s.cfg)
    unfolding api_wireguard_require
    require-Triple request enabled s = Triple-bind (checked s (require_session_user request)) λ _.
        Triple-bind (checked s (require_safe_ajax request)) λ _.
          Triple-bind (installed-Triple s) λ installed.
            Triple-if installed
              (λ _.
                Triple-weaken
                  (set_enforced-Triple host nft s.cfg (host.nft_installed s.world).1 enabled)
                  (λ s' h. h)
                  (λ b s' h. (
                    h.0,
                    record {
                      proc = h.1.1.0;
                      deleting = h.1.1.1;
                      recorded = h.1.0;
                      table_of =
                          h.1.1.2
                          ∙ ap (λ x. left host h.1.1.0 x ++ rules_wanted host s.cfg enabled)
                              (nft.probe_keeps s.world);
                    },
                  ))
                  (λ _ s' h. h))
              (λ _. Triple-raise _ (λ s' h. h.0))

  -- If the handler returns, the switch on record is the one that was asked for and the rest of the
  -- configuration is unchanged. The table in the kernel is then what the delete of the table has
  -- left, that is no table where it exited with 0 and else the table from before, if there was one;
  -- and where the switch is on, the rules for the subnet and the port of the daemon are added to
  -- it. If the handler raises, at whichever step, the configuration is unchanged.
  pub api_wireguard_require-Enforced :
      (nft : Nft host) (request : Request) (enabled : Bool) (s : Server env.World)
      → Outcome
          (λ b s'. (b ≡ enabled) × Enforced nft enabled s s')
          (λ _ s'. s'.cfg ≡ s.cfg)
          (api_wireguard_require host request enabled s).0
          (api_wireguard_require host request enabled s).1
  api_wireguard_require-Enforced nft request enabled s =
      (require-Triple nft request enabled s).at s refl
