-- ===== src/Client/Proxmox/Frames.antt =====
-- The commands of a passthrough leave the configuration alone.
use usbover_ip.Base.{String, refl, Option, none, some, List, arith}
use usbover_ip.Base.Exec.{Result, ok, err, proxmox_error}
use usbover_ip.Outside.{Env, Proc}
use usbover_ip.Client.State.{Attachment}
use usbover_ip.Client.Usbip.{AttachedPort}
use usbover_ip.Client.Frame.{
  Frame, frame_rules, Frame-bind, Frame-pure, Frame-raise, Frame-lift, Frame-try, ForeignResult,
  Frame-if,
}
use usbover_ip.Client.Frame.Calls.{run-Frame, list_ports-Frame}
use usbover_ip.Client.Proxmox.{
  Lines, first_free, slots, run_on_host, check_proc, used_usb_slots, chosen, next_free_slot,
  attach_usb_to_vm, proxmox_failure, busid_of_port, pass_port,
}
use usbover_ip.Validate.{validate_busid, validate_vmid}

module _ ⦃env : Env⦄ (text : Lines) where
  run_on_host-Frame : (args : List String) → Frame (run_on_host text args)
  unfolding run_on_host
  run_on_host-Frame args = run-Frame _

  check_proc-Frame : (fallback : String) (proc : Proc) → Frame (check_proc text fallback proc)
  unfolding check_proc
  check_proc-Frame fallback proc = Frame-if _ (Frame-pure tt) (Frame-raise _ refl)

  used_usb_slots-Frame : (vmid : String) → Frame (used_usb_slots text vmid)
  unfolding used_usb_slots
  used_usb_slots-Frame vmid = search (frame_rules, run_on_host-Frame, check_proc-Frame)

  chosen-Frame : (o : Option String) → Frame (chosen text o)
  unfolding chosen
  chosen-Frame none = Frame-raise _ refl
  chosen-Frame (some slot) = Frame-pure slot

  next_free_slot-Frame : (vmid : String) → Frame (next_free_slot text vmid)
  unfolding next_free_slot
  next_free_slot-Frame vmid =
      Frame-bind (used_usb_slots-Frame vmid) (λ used. chosen-Frame (first_free used slots))

  vmid-foreign : (vmid : String) → ForeignResult (validate_vmid env.is_digit vmid)
  unfolding validate_vmid
  vmid-foreign vmid = ground arith

  busid-foreign : (busid : String) → ForeignResult (validate_busid env.is_digit busid)
  unfolding validate_busid
  busid-foreign busid = ground arith

  attach_usb_to_vm-Frame : (vmid busid : String) → Frame (attach_usb_to_vm text vmid busid)
  unfolding attach_usb_to_vm
  attach_usb_to_vm-Frame vmid busid = Frame-bind (Frame-lift _ (vmid-foreign vmid)) λ v.
      Frame-bind (Frame-lift _ (busid-foreign busid))
        λ _. search (frame_rules, next_free_slot-Frame, run_on_host-Frame, check_proc-Frame)

  proxmox_failure-Frame :
      {A : Type 0} (r : Result A) → ForeignResult r → Frame (proxmox_failure text r)
  unfolding proxmox_failure
  proxmox_failure-Frame (ok a) h = Frame-pure a
  proxmox_failure-Frame (err (proxmox_error m)) h = Frame-raise _ refl
  proxmox_failure-Frame (err e) h = Frame-raise e h

  busid_of_port-Frame : (p : Option AttachedPort) → Frame (busid_of_port text p)
  unfolding busid_of_port
  busid_of_port-Frame none = Frame-raise _ refl
  busid_of_port-Frame (some p) = Frame-if _ (Frame-pure _) (Frame-raise _ refl)

  pub pass_port-Frame : (vmid : String) (att : Attachment) → Frame (pass_port text vmid att)
  unfolding pass_port
  pass_port-Frame vmid att = Frame-bind list_ports-Frame λ ports.
      Frame-bind (busid_of_port-Frame _)
        λ busid. Frame-try (attach_usb_to_vm-Frame vmid busid) proxmox_failure-Frame
