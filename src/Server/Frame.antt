-- ===== src/Server/Frame.antt =====
-- Code of the server that leaves the configuration alone: the event log, the pushes, the commands and
-- the scan of the devices. The first two never raise, so they allow any claim on exceptions.
use usbover_ip.Base.{String, Option, none, some, List, [], ◌∷◌, truthy_text, eqb, not, ℕ}
use usbover_ip.Base.Dict.{Dict}
use usbover_ip.Base.Exec.{Exc, Exec, Result, ok, err, pure, ◌>>=◌}
use usbover_ip.Base.Exec.Triple.{
  Triple, Keeps, Outcome, Triple-bind, Triple-pure, Triple-raise, Triple-if, Triple-weaken,
  Triple-attempt, Triple-gets, Triple-lift, Triple-for_each,
}
use usbover_ip.Outside.{Proc, Call, returned, raised}
use usbover_ip.Server.State.{
  Env, Server, Config, ClientRecord, outcome, outside, outside_try, on_machine, read, log_event,
}
use usbover_ip.Server.Devices.{
  UsbDevice, bind_device, unbind_device, get_device_serial, list_local_devices, scan_lines,
  scan_device, read_status, read_serial, check_proc,
}
use usbover_ip.Server.Notify.{notify_clients_device_available, push_to, report_push}
use usbover_ip.Validate.{validate_busid}

module _ ⦃env : Env⦄ where
  abbrev pub On : (Config → Type 0) → Server env.World → Type 0
  On C s = C s.cfg

  module _ (C : Config → Type 0) where
    pub outside-On :
        {A : Type 0} {E : Exc → Server env.World → Type 0} (f : env.World → A × env.World)
        → Triple (On C) (outside f) (λ _. On C) E
    unfolding outside
    outside-On f = record { at = λ s h. h }

    pub outside_try-On :
        {A : Type 0} (f : env.World → Call A × env.World) → Keeps (On C) (outside_try f)
    unfolding outside_try
    outside_try-On f = record { at = λ s h. go (f s.world).0 (outside_try f s).1 h }
      where
        go :
            {A : Type 0} (c : Call A) (s : Server env.World)
            → C s.cfg
            → Outcome (λ _. On C) (λ _. On C) (outcome c) s
        go (returned a) s h = h
        go (raised m) s h = h

    pub on_machine-On : {A : Type 0} (m : Exec env.World A) → Keeps (On C) (on_machine m)
    unfolding on_machine
    on_machine-On m = record { at = λ s h. go (m s.world).0 (on_machine m s).1 h }
      where
        go :
            {A : Type 0} (r : Result A) (s : Server env.World)
            → C s.cfg
            → Outcome (λ _. On C) (λ _. On C) r s
        go (ok a) s h = h
        go (err e) s h = h

    module _ {E : Exc → Server env.World → Type 0} where
      pub log_event-On : (text : String) → Triple (On C) (log_event text) (λ _. On C) E
      unfolding log_event ◌>>=◌ outside
      log_event-On text = record { at = λ s h. h }

      report_push-On :
          (client : ClientRecord) (busid : String) (r : Result ℕ)
          → Triple (On C) (report_push client busid r) (λ _. On C) E
      unfolding report_push
      report_push-On client busid (ok status) =
          Triple-if (not (eqb status 200)) (λ _. log_event-On _) (λ _. Triple-pure tt (λ s h. h))
      report_push-On client busid (err e) = log_event-On _

      push_to-On :
          (busid serial : String) (entry : String × ClientRecord)
          → Triple (On C) (push_to busid serial entry) (λ _. On C) E
      unfolding push_to
      push_to-On busid serial (client_id, client) =
          Triple-if (truthy_text client.token)
            (λ _. Triple-bind (Triple-attempt (outside_try-On _)) λ r.
              Triple-weaken (report_push-On client busid r) (either r) (λ _ s h. h) (λ _ s h. h))
            (λ _. Triple-pure tt (λ s h. h))
        where
          either :
              (r : Result ℕ) (s : Server env.World) → Outcome (λ _. On C) (λ _. On C) r s → C s.cfg
          either (ok n) s h = h
          either (err e) s h = h

      pub notify-On :
          (busid serial : String)
          → Triple (On C) (notify_clients_device_available busid serial) (λ _. On C) E
      unfolding notify_clients_device_available read
      notify-On busid serial =
          Triple-bind
            (Triple-weaken (Triple-gets {E = E} (λ s. s.cfg)) (λ s h. h) (λ a s h. h.0)
              (λ e s h. h))
            λ cfg. Triple-for_each cfg.clients (push_to-On busid serial)

    read_status-On :
        {E : Exc → Server env.World → Type 0} (busid : String)
        → Triple (On C) (read_status busid) (λ _. On C) E
    unfolding read_status
    read_status-On busid = Triple-bind (outside-On _) (λ _. Triple-pure _ (λ s h. h))

    read_serial-On :
        {E : Exc → Server env.World → Type 0} (busid : String)
        → Triple (On C) (read_serial busid) (λ _. On C) E
    unfolding read_serial
    read_serial-On busid = Triple-bind (outside-On _) (λ _. Triple-pure _ (λ s h. h))

    scan_device-On :
        (labels : Dict String) (ids : String × String × String) (rest : List String)
        → Keeps (On C) (scan_device labels ids rest)
    unfolding scan_device
    scan_device-On labels (busid, vid, pid) rest =
        Triple-bind (read_status-On busid)
          λ _. Triple-bind (read_serial-On busid) (λ _. Triple-pure _ (λ s h. h))

    scan_lines-On :
        (labels : Dict String) (lines : List String) → Keeps (On C) (scan_lines labels lines)
    unfolding scan_lines
    scan_lines-On labels [] = Triple-pure [] (λ s h. h)
    scan_lines-On labels (line ∷ []) = last (env.match_busid_line line)
      where
        last :
            (o : Option (String × String × String))
            → Keeps {A = List UsbDevice} (On C) (elim o [
              | none ↦ pure []
              | some ids ↦ (do device ← scan_device labels ids []; pure (device ∷ []))
            ])
        last none = Triple-pure [] (λ s h. h)
        last (some ids) = Triple-bind (scan_device-On labels ids []) (λ _. Triple-pure _ (λ s h. h))
    scan_lines-On labels (line ∷ next ∷ rest) =
        more (scan_lines-On labels (next ∷ rest)) (scan_lines-On labels rest)
          (env.match_busid_line line)
      where
        more :
            Keeps (On C) (scan_lines labels (next ∷ rest))
            → Keeps (On C) (scan_lines labels rest)
            → (o : Option (String × String × String))
            → Keeps (On C) (elim o [
              | none ↦ scan_lines labels (next ∷ rest)
              | some ids ↦ do
                device ← scan_device labels ids (next ∷ rest)
                devices ← scan_lines labels rest
                pure (device ∷ devices)
            ])
        more one two none = one
        more one two (some ids) =
            Triple-bind (scan_device-On labels ids (next ∷ rest))
              λ _. Triple-bind two (λ _. Triple-pure _ (λ s h. h))

    pub get_device_serial-On : (busid : String) → Keeps (On C) (get_device_serial busid)
    unfolding get_device_serial list_local_devices
    get_device_serial-On busid =
        Triple-bind
          (Triple-bind (outside_try-On _) (λ proc. scan_lines-On [] (env.splitlines proc.stdout)))
          (λ _. Triple-pure _ (λ s h. h))

    check_proc-On : (proc : Proc) (failure : String) → Keeps (On C) (check_proc proc failure)
    unfolding check_proc
    check_proc-On proc failure =
        Triple-if (not (eqb proc.returncode 0)) (λ _. Triple-raise _ (λ s h. h))
          (λ _. Triple-pure tt (λ s h. h))

    pub bind_device-On : (busid : String) → Keeps (On C) (bind_device busid)
    unfolding bind_device
    bind_device-On busid =
        Triple-bind (Triple-lift (validate_busid env.is_digit busid))
          λ _. Triple-bind (outside_try-On _) (λ proc. check_proc-On proc _)

    pub unbind_device-On : (busid : String) → Keeps (On C) (unbind_device busid)
    unfolding unbind_device
    unbind_device-On busid =
        Triple-bind (Triple-lift (validate_busid env.is_digit busid))
          λ _. Triple-bind (outside_try-On _) (λ proc. check_proc-On proc _)
