-- ===== src/Server/Share/Effects.antt =====
-- What the handlers on devices leave in the configuration, whether they return or raise.
use usbover_ip.Base.{
  ◌<>◌, String, ◌≡◌, refl, not, ◌&&◌, ◌||◌, List, [], ◌∷◌, Option, arith, ◌==◌, eq_iff, ap, ◌∙◌,
}
use usbover_ip.Base.Lists.{contains}
use usbover_ip.Base.Exec.{Exc, Result, ok, err, ◌>>=◌, validation_error, runtime_error}
use usbover_ip.Base.Exec.Triple.{
  Triple, Keeps, Outcome, Triple-bind, Triple-pure, Triple-raise, Triple-if, Triple-weaken,
  Triple-attempt, Triple-gets, Triple-lift,
}
use usbover_ip.Server.State.{Env, Server, Config, update, read}
use usbover_ip.Server.Notify.{notify_clients_device_available}
use usbover_ip.Server.Share.{
  without, mark_unshared, mark_shared, refuse, announce, api_share, api_unshare, api_rebind,
  unbind_and_bind, notify_if_shared,
}
use usbover_ip.Server.Frame.{
  On, log_event-On, notify-On, get_device_serial-On, bind_device-On, unbind_device-On,
}
use usbover_ip.Validate.{validate_busid}
use usbover_ip.Web.{Request, require_session_user, require_safe_ajax}

contains-without :
    (busid b : String) (bs : List String)
    → contains (without busid bs) b ≡ (contains bs b && not (b == busid))
unfolding contains without
contains-without busid b [] = refl
contains-without busid b (c ∷ bs) =
    ground (arith, eq_iff c busid, eq_iff c b, eq_iff b busid, contains-without busid b bs)

module _ ⦃env : Env⦄ where
  refuse-On :
      (C : Config → Type 0) (complaint : String) (r : Result (Unit {0}))
      → Triple (Outcome (λ _. On C) (λ _. On C) r) (refuse complaint r) (λ _. On C) (λ _. On C)
  unfolding refuse
  refuse-On C complaint (ok u) = Triple-pure tt (λ s h. h)
  refuse-On C complaint (err (validation_error m)) = Triple-raise _ (λ s h. h)
  refuse-On C complaint (err (runtime_error m)) =
      Triple-bind (log_event-On C (complaint <> m)) (λ _. Triple-raise _ (λ s h. h))
  refuse-On C complaint (err e) = Triple-raise e (λ s h. h)

  -- A push to the clients returns, whatever they answer, and leaves the configuration alone.
  pub notify_clients_device_available_lem :
      (busid serial : String) (s : Server env.World)
      → ((notify_clients_device_available busid serial s).0 ≡ ok tt)
        × ((notify_clients_device_available busid serial s).1.cfg ≡ s.cfg)
  notify_clients_device_available_lem busid serial s =
      calm (notify_clients_device_available busid serial s).0
        ((notify-On (λ c. c ≡ s.cfg) {E = λ _ _. ⊥} busid serial).at s refl)
    where
      calm :
          (r : Result (Unit {0}))
          → Outcome
              (λ _. On (λ c. c ≡ s.cfg))
              (λ _ _. ⊥)
              r
              (notify_clients_device_available busid serial s).1
          → (r ≡ ok tt) × ((notify_clients_device_available busid serial s).1.cfg ≡ s.cfg)
      calm (ok u) h = (refl, h)
      calm (err e) h = absurd h

  rebind-On : (C : Config → Type 0) (busid : String) → Keeps (On C) (api_rebind busid)
  unfolding api_rebind unbind_and_bind notify_if_shared read
  rebind-On C busid =
      Triple-bind
        (Triple-attempt (
          Triple-bind (Triple-lift (validate_busid env.is_digit busid))
            λ _. Triple-bind (unbind_device-On C busid) (λ _. bind_device-On C busid)))
        λ r. Triple-bind (refuse-On C _ r) λ _. Triple-bind (log_event-On C _) λ _.
          Triple-bind
            (Triple-weaken (Triple-gets (λ s. s.cfg)) (λ s h. h) (λ a s h. h.0) (λ e s h. h))
            λ cfg.
              Triple-if (contains cfg.shared_devices busid)
                (λ _. Triple-bind (get_device_serial-On C busid) (λ _. notify-On C busid _))
                (λ _. Triple-pure tt (λ s h. h))

  -- A forced rebind, whether it returns or raises, leaves the configuration alone.
  pub api_rebind_lem : (busid : String) (s : Server env.World) → (api_rebind busid s).1.cfg ≡ s.cfg
  api_rebind_lem busid s =
      either (api_rebind busid s).0 ((rebind-On (λ c. c ≡ s.cfg) busid).at s refl)
    where
      either :
          (r : Result (Unit {0}))
          → Outcome (λ _. On (λ c. c ≡ s.cfg)) (λ _. On (λ c. c ≡ s.cfg)) r (api_rebind busid s).1
          → (api_rebind busid s).1.cfg ≡ s.cfg
      either (ok u) h = h
      either (err e) h = h

  update-On :
      {E : Exc → Server env.World → Type 0} (C D : Config → Type 0) (f : Config → Config)
      → ((c : Config) → C c → D (f c))
      → Triple (On C) (update f) (λ _. On D) E
  unfolding update ◌>>=◌
  update-On C D f h = record { at = λ s c. h s.cfg c }

  module _ (before : Config) (request : Request) (busid : String) where
    abbrev Same : Config → Type 0
    Same c = c ≡ before

    unshare-On :
        Triple
          (On Same)
          (api_unshare request busid)
          (λ _. On (λ c. c ≡ mark_unshared busid before))
          (λ _. On Same)
    unfolding api_unshare
    unshare-On = Triple-bind (Triple-lift (require_session_user request)) λ _.
        Triple-bind (Triple-lift (require_safe_ajax request)) λ _.
          Triple-bind
            (Triple-attempt (
              Triple-bind (Triple-lift (validate_busid env.is_digit busid))
                (λ _. unbind_device-On Same busid)))
            λ r. Triple-bind (refuse-On Same _ r) λ _.
              Triple-bind
                (update-On Same (λ c. c ≡ mark_unshared busid before) (mark_unshared busid)
                  (λ c e. ap (mark_unshared busid) e))
                (λ _. log_event-On (λ c. c ≡ mark_unshared busid before) _)

    abbrev Shared : Config → Type 0
    Shared c = (serial : Option String) × (c ≡ mark_shared busid serial before)

    share-On : Triple (On Same) (api_share request busid) (λ _. On Shared) (λ _. On Same)
    unfolding api_share announce
    share-On = Triple-bind (Triple-lift (require_session_user request)) λ _.
        Triple-bind (Triple-lift (require_safe_ajax request)) λ _.
          Triple-bind
            (Triple-attempt (
              Triple-bind (Triple-lift (validate_busid env.is_digit busid))
                (λ _. bind_device-On Same busid)))
            λ r. Triple-bind (refuse-On Same _ r) λ _.
              Triple-bind (get_device_serial-On Same busid) λ serial.
                Triple-bind
                  (update-On Same Shared (mark_shared busid serial)
                    (λ c e. (serial, ap (mark_shared busid serial) e)))
                  λ _. Triple-bind (log_event-On Shared _) (λ _. notify-On Shared busid _)

  -- `sorted(set(busids))` has the bus ids that the list has.
  pub record SameElements : Type 0 where
    pub same : (bs : List String) (b : String) → contains (env.sorted_set bs) b ≡ contains bs b

  module _ (request : Request) (busid : String) (s : Server env.World) where
    -- When the request to unshare a device returns, the list of shared devices has the bus ids that
    -- it had, but this one, and the labels are what they were.
    pub api_unshare_lem :
        (api_unshare request busid s).0 ≡ ok tt
        → (b : String)
        → (contains (api_unshare request busid s).1.cfg.shared_devices b
            ≡ (contains s.cfg.shared_devices b && not (b == busid)))
          × ((api_unshare request busid s).1.cfg.device_labels ≡ s.cfg.device_labels)
    unfolding mark_unshared without
    api_unshare_lem returns b =
        done (api_unshare request busid s).0 returns ((unshare-On s.cfg request busid).at s refl)
      where
        after : Config
        after = (api_unshare request busid s).1.cfg

        done :
            (r : Result (Unit {0}))
            → r ≡ ok tt
            → Outcome
                (λ _. On (λ c. c ≡ mark_unshared busid s.cfg))
                (λ _. On (λ c. c ≡ s.cfg))
                r
                (api_unshare request busid s).1
            → (contains after.shared_devices b
                ≡ (contains s.cfg.shared_devices b && not (b == busid)))
              × (after.device_labels ≡ s.cfg.device_labels)
        done (err e) returns h = cc
        done (ok u) returns h = (
          ap (λ (c : Config). contains c.shared_devices b) h
              ∙ contains-without busid b s.cfg.shared_devices,
          ap (λ (c : Config). c.device_labels) h,
        )

    -- Where `sorted(set(...))` has what its list has: after a device is shared, the list of shared
    -- devices has its bus id and those that it had, and no others.
    pub api_share_lem :
        (api_share request busid s).0 ≡ ok tt
        → SameElements
        → (b : String)
        → contains (api_share request busid s).1.cfg.shared_devices b
          ≡ (busid == b || contains s.cfg.shared_devices b)
    unfolding mark_shared contains
    api_share_lem returns law b =
        done (api_share request busid s).0 returns ((share-On s.cfg request busid).at s refl)
      where
        after : Config
        after = (api_share request busid s).1.cfg

        done :
            (r : Result (Unit {0}))
            → r ≡ ok tt
            → Outcome
                (λ _. On (Shared s.cfg request busid))
                (λ _. On (λ c. c ≡ s.cfg))
                r
                (api_share request busid s).1
            → contains after.shared_devices b ≡ (busid == b || contains s.cfg.shared_devices b)
        done (err e) returns h = cc
        done (ok u) returns h =
            ap (λ (c : Config). contains c.shared_devices b) h.1
            ∙ law.same (busid ∷ s.cfg.shared_devices) b

    -- When the request to share a device raises, the configuration is what it was.
    pub api_share-err :
        (e : Exc)
        → (api_share request busid s).0 ≡ err e
        → (api_share request busid s).1.cfg ≡ s.cfg
    api_share-err e raises =
        done (api_share request busid s).0 raises ((share-On s.cfg request busid).at s refl)
      where
        done :
            (r : Result (Unit {0}))
            → r ≡ err e
            → Outcome
                (λ _. On (Shared s.cfg request busid))
                (λ _. On (λ c. c ≡ s.cfg))
                r
                (api_share request busid s).1
            → (api_share request busid s).1.cfg ≡ s.cfg
        done (ok u) raises h = cc
        done (err x) raises h = h
