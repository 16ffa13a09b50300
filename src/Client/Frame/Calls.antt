-- ===== src/Client/Frame/Calls.antt =====
-- The calls to a server and to `usbip` are such code.
use usbover_ip.Base.{ℕ, zero, suc, String, refl, Bool, Option, none, some, List, [], ◌∷◌, arith}
use usbover_ip.Base.Exec.{pure, Result, ok, err, usbip_error}
use usbover_ip.Outside.{Env, Reply, request_error, response}
use usbover_ip.Validate.{
  validate_hostname, validate_port_number, validate_busid, validate_container_name,
  validate_service_name,
}
use usbover_ip.Client.State.{App, Action}
use usbover_ip.Client.Frame.{
  Frame, ForeignResult, Frame-bind, Frame-try, Frame-pure, Frame-raise, Frame-if, Frame-outside,
  Frame-for_each, Frame-log_event, frame_rules, outcome-foreign,
}
use usbover_ip.Client.Remote.{
  base_url, devices_of, fetch_devices, accepted, post_device, request_rebind,
}
use usbover_ip.Client.Usbip.{
  AttachedPort, run, list_ports_via_cli, ports_or_cli, list_ports, live_port_map, fresh_ports, poll,
  choose_port, attach, detach,
}
use usbover_ip.Client.Restart.{
  check_proc, restart_container, restart_service, report_restart, run_action, run_restart_actions,
}

validate_hostname-foreign : (s : String) → ForeignResult (validate_hostname s)
unfolding validate_hostname
validate_hostname-foreign s = ground arith

validate_container_name-foreign : (s : String) → ForeignResult (validate_container_name s)
unfolding validate_container_name
validate_container_name-foreign s = ground arith

validate_service_name-foreign : (s : String) → ForeignResult (validate_service_name s)
unfolding validate_service_name
validate_service_name-foreign s = ground arith

validate_port_number-foreign : (p : Option (Bool × ℕ)) → ForeignResult (validate_port_number p)
unfolding validate_port_number
validate_port_number-foreign none = refl
validate_port_number-foreign (some (negative, p)) = ground arith

validate_busid-foreign : (digit : ℕ → Bool) (s : String) → ForeignResult (validate_busid digit s)
unfolding validate_busid
validate_busid-foreign digit s = ground arith

ruleset validators = (
  validate_hostname-foreign, validate_container_name-foreign, validate_service_name-foreign,
  validate_port_number-foreign, validate_busid-foreign,
)

module _ ⦃env : Env⦄ where
  devices_of-foreign : (r : Reply) → ForeignResult (devices_of r)
  unfolding devices_of
  devices_of-foreign (request_error e) = refl
  devices_of-foreign (response r) = ground (arith, outcome-foreign r.devices)

  accepted-foreign : (r : Reply) → ForeignResult (accepted r)
  unfolding accepted
  accepted-foreign (request_error e) = refl
  accepted-foreign (response r) = ground arith

  base_url-Frame : (host : String) (port : ℕ) → Frame (base_url host port)
  unfolding base_url
  base_url-Frame host port = search (frame_rules, validators)

  pub fetch_devices-Frame :
      (host : String) (port : ℕ) (token : String) → Frame (fetch_devices host port token)
  unfolding fetch_devices
  fetch_devices-Frame host port token = search (frame_rules, base_url-Frame, devices_of-foreign)

  post_device-Frame :
      (action host : String) (port : ℕ) (token busid : String)
      → Frame (post_device action host port token busid)
  unfolding post_device
  post_device-Frame action host port token busid =
      search (frame_rules, validators, base_url-Frame, accepted-foreign)

  pub request_rebind-Frame :
      (host : String) (port : ℕ) (token busid : String)
      → Frame (request_rebind host port token busid)
  unfolding request_rebind
  request_rebind-Frame = post_device-Frame "/rebind"

  pub run-Frame : (args : List String) → Frame (run args)
  unfolding run
  run-Frame args = search frame_rules

  ports_or_cli-Frame : (files : List (Option (List String))) → Frame (ports_or_cli files)
  unfolding ports_or_cli list_ports_via_cli
  ports_or_cli-Frame [] = search (frame_rules, run-Frame)
  ports_or_cli-Frame (file ∷ files) = search frame_rules

  pub list_ports-Frame : Frame list_ports
  unfolding list_ports
  list_ports-Frame = search (frame_rules, ports_or_cli-Frame)

  pub live_port_map-Frame : Frame live_port_map
  unfolding live_port_map
  live_port_map-Frame = search (frame_rules, list_ports-Frame)

  poll-Frame : (n : ℕ) (before : List String) → Frame (poll n before)
  unfolding poll
  poll-Frame zero before = search frame_rules
  poll-Frame (suc n) before = Frame-bind list_ports-Frame λ after.
      go (fresh_ports before after) (Frame-bind (Frame-outside _) (λ _. poll-Frame n before))
    where
      go :
          (new : List AttachedPort) {more : App (List AttachedPort)}
          → Frame more
          → Frame (elim new [ [] ↦ more | p ∷ ports ↦ pure (p ∷ ports) ])
      go [] h = h
      go (p ∷ ports) h = Frame-pure _

  choose_port-Frame :
      (output : String) (ports : List AttachedPort) → Frame (choose_port output ports)
  unfolding choose_port
  choose_port-Frame output [] = Frame-raise _ refl
  choose_port-Frame output (p ∷ ports) = Frame-pure _

  pub attach-Frame : (host : String) (port : ℕ) (busid : String) → Frame (attach host port busid)
  unfolding attach
  attach-Frame host port busid =
      search
        (
          frame_rules,
          validators,
          list_ports-Frame,
          run-Frame,
          poll-Frame,
          choose_port-Frame,
          Frame-raise (usbip_error _) refl,
        )
        depth 12

  pub detach-Frame : (port : String) → Frame (detach port)
  unfolding detach
  detach-Frame port =
      Frame-if _ (Frame-raise _ refl)
        (Frame-bind (run-Frame _) (λ proc. Frame-if _ (Frame-raise _ refl) (Frame-pure tt)))

  check_proc-Frame : (proc : _) (failure : String) → Frame (check_proc proc failure)
  unfolding check_proc
  check_proc-Frame proc failure = Frame-if _ (Frame-raise _ refl) (Frame-pure tt)

  restart_container-Frame : (name : String) → Frame (restart_container name)
  unfolding restart_container
  restart_container-Frame name = search (frame_rules, validators, run-Frame, check_proc-Frame)

  restart_service-Frame : (name : String) → Frame (restart_service name)
  unfolding restart_service
  restart_service-Frame name = search (frame_rules, validators, run-Frame, check_proc-Frame)

  report_restart-Frame : (kind name : String) (r : Result Unit) → Frame (report_restart kind name r)
  unfolding report_restart
  report_restart-Frame kind name (ok _) = Frame-log_event _
  report_restart-Frame kind name (err e) = Frame-log_event _

  run_action-Frame : (kind : Option String) (name : String) → Frame (run_action kind name)
  unfolding run_action
  run_action-Frame none name = Frame-log_event _
  run_action-Frame (some kind) name =
      Frame-if _
        (Frame-try (restart_container-Frame name) (λ r _. report_restart-Frame kind name r))
        (Frame-if _
          (Frame-try (restart_service-Frame name) (λ r _. report_restart-Frame kind name r))
          (Frame-log_event _))

  pub run_restart_actions-Frame :
      (actions : Option (List Action)) → Frame (run_restart_actions actions)
  unfolding run_restart_actions
  run_restart_actions-Frame actions =
      Frame-for_each _ (λ action. Frame-if _ (run_action-Frame _ _) (Frame-pure tt))
