-- ===== src/Client/Proxmox.antt =====
-- client/app/proxmox.py, and the handlers that pass a device through to a virtual machine.
pub mod Slots
pub mod Frames
pub mod Recording
use usbover_ip.Base.{
  String, ◌<>◌, Bool, false, not, Option, none, some, List, [], ◌∷◌, ◌++◌, eqb, if◌then◌else◌,
  truthy, truthy_text, or_text, or_default, ℕ,
}
use usbover_ip.Base.Lists.{contains}
use usbover_ip.Base.Dict.{lookup}
use usbover_ip.Base.Exec.{
  Result, ok, err, proxmox_error, http_error, pure, raise, lift, attempt, ◌>>=◌, ◌>>◌,
}
use usbover_ip.Outside.{Env, Proc}
use usbover_ip.Client.State.{App, Attachment, Passthrough, read, update_attachments, log_event}
use usbover_ip.Client.Usbip.{AttachedPort, run, list_ports}
use usbover_ip.Client.Nodes.{adjust, find_port}
use usbover_ip.Client.Api.Servers.{guard_browser}
use usbover_ip.Validate.{validate_busid, validate_vmid, validate_usb_slot}
use usbover_ip.Web.{Request}

-- Methods of `str`, and the digit that `_USB_SLOT_LINE_RE.match` finds in a line.
pub record Lines : Type 0 where
  pub splitlines : String → List String
  pub split : String → List String
  pub match_usb_slot : String → Option String

-- A virtual machine of the host.
pub record Vm : Type 0 where
  pub vmid : String
  pub name : String
  pub status : String

-- usb0 to usb4
abbrev pub slots : List String
slots = "usb0" ∷ "usb1" ∷ "usb2" ∷ "usb3" ∷ "usb4" ∷ []

unfoldable pub first_free : List String → List String → Option String
first_free used [] = none
first_free used (slot ∷ rest) = if contains used slot then first_free used rest else some slot

unfoldable pub vm_of_parts : List String → List Vm
vm_of_parts (vmid ∷ name ∷ status ∷ more) =
    record { vmid = vmid; name = name; status = status } ∷ []
vm_of_parts parts = []

unfoldable pub vms_of_lines : Lines → List String → List Vm
unfolding vm_of_parts
vms_of_lines text [] = []
vms_of_lines text (line ∷ lines) = vm_of_parts (text.split line) ++ vms_of_lines text lines

abbrev tail_of : List String → List String
tail_of [] = []
tail_of (line ∷ lines) = lines

unfoldable pub slots_of_lines : Lines → List String → List String
slots_of_lines text [] = []
slots_of_lines text (line ∷ lines) = elim (text.match_usb_slot line) [
  | none ↦ slots_of_lines text lines
  | some digit ↦ ("usb" <> digit) ∷ slots_of_lines text lines
]

module _ ⦃env : Env⦄ (text : Lines) where
  unfoldable pub run_on_host : List String → App Proc
  run_on_host args = run (
      "nsenter" ∷ "--target" ∷ "1" ∷ "--mount" ∷ "--uts" ∷ "--ipc" ∷ "--net" ∷ "--pid" ∷ "--"
      ∷ args)

  unfoldable pub available : App Bool
  available = do
    proc ← run_on_host ("which" ∷ "qm" ∷ [])
    pure (if eqb proc.returncode 0 then truthy_text (env.strip proc.stdout) else false)

  -- A command that fails is a ProxmoxError.
  unfoldable pub check_proc : String → Proc → App Unit
  check_proc fallback proc =
      if eqb proc.returncode 0
      then pure tt
      else raise (proxmox_error (env.strip (or_text (some proc.stderr) fallback)))

  unfoldable pub list_vms : App (List Vm)
  list_vms = do
    proc ← run_on_host ("qm" ∷ "list" ∷ [])
    check_proc "qm list failed" proc
    pure (vms_of_lines text (tail_of (text.splitlines proc.stdout)))

  unfoldable pub used_usb_slots : String → App (List String)
  used_usb_slots vmid = do
    proc ← run_on_host ("qm" ∷ "config" ∷ vmid ∷ [])
    check_proc ("qm config " <> vmid <> " failed") proc
    pure (slots_of_lines text (text.splitlines proc.stdout))

  unfoldable pub chosen : Option String → App String
  chosen none = raise (proxmox_error "no free usb slot (usb0-usb4 all in use) on this VM")
  chosen (some slot) = pure slot

  unfoldable pub next_free_slot : String → App String
  unfolding chosen
  next_free_slot vmid = do used ← used_usb_slots vmid; chosen (first_free used slots)

  unfoldable pub attach_usb_to_vm : String → String → App String
  attach_usb_to_vm vmid busid = do
    vmid' ← lift (validate_vmid env.is_digit vmid)
    lift (validate_busid env.is_digit busid)
    slot ← next_free_slot vmid'
    proc ← run_on_host ("qm" ∷ "set" ∷ vmid' ∷ ("-" <> slot) ∷ ("host=" <> busid) ∷ [])
    check_proc (or_text (some proc.stdout) "qm set failed") proc
    pure slot

  unfoldable pub detach_usb_from_vm : String → String → App Unit
  detach_usb_from_vm vmid slot = do
    vmid' ← lift (validate_vmid env.is_digit vmid)
    lift (validate_usb_slot env.is_digit slot)
    proc ← run_on_host ("qm" ∷ "set" ∷ vmid' ∷ "-delete" ∷ slot ∷ [])
    check_proc (or_text (some proc.stdout) "qm set -delete failed") proc

  unfoldable pub proxmox_failure : {A : Type 0} → Result A → App A
  proxmox_failure (ok a) = pure a
  proxmox_failure (err (proxmox_error m)) = raise (http_error 502 m)
  proxmox_failure (err e) = raise e

  unfoldable pub api_proxmox_vms : Result String → App (List Vm)
  api_proxmox_vms user = do lift user; r ← attempt list_vms; proxmox_failure r

  -- `local_port.local_busid`, where the port is there and it is not empty
  unfoldable pub busid_of_port : Option AttachedPort → App String
  busid_of_port none = raise (http_error 502 "could not resolve local bus id for this port")
  busid_of_port (some p) =
      if truthy p.local_busid
      then pure (or_default p.local_busid "")
      else raise (http_error 502 "could not resolve local bus id for this port")

  -- The port of a record without one is none of the list.
  abbrev port_of : Attachment → List AttachedPort → Option AttachedPort
  port_of att ports = elim att.port [ none ↦ none | some port ↦ find_port port ports ]

  unfoldable pub pass_port : String → Attachment → App String
  pass_port vmid att = do
    ports ← list_ports
    busid ← busid_of_port (port_of att ports)
    r ← attempt (attach_usb_to_vm vmid busid)
    proxmox_failure r

  unfoldable pub with_slot : String → String → Attachment → Attachment
  with_slot vmid slot att = record att { proxmox = some (record { vmid = vmid; slot = slot }) }

  unfoldable pub pass_through : String → String → Option Attachment → App Passthrough
  pass_through att_id vmid none = raise (http_error 404 "no such attachment")
  pass_through att_id vmid (some att) = do
    slot ← pass_port vmid att
    update_attachments (adjust att_id (with_slot vmid slot))
    log_event (
        "port " <> or_default att.port "None" <> " passed through to VM " <> vmid <> " as " <> slot)
    pure (record { vmid = vmid; slot = slot })

  unfoldable pub api_proxmox_attach : Request → String → String → App Passthrough
  api_proxmox_attach request att_id vmid = do
    guard_browser request
    cfg ← read
    pass_through att_id vmid (lookup att_id cfg.attachments)

  unfoldable pub recorded : Option Attachment → Option Passthrough
  recorded none = none
  recorded (some att) = att.proxmox

  unfoldable pub take_back : String → Option Passthrough → App Unit
  take_back att_id none = raise (http_error 404 "no proxmox passthrough recorded for this port")
  take_back att_id (some passed) = do
    r ← attempt (detach_usb_from_vm passed.vmid passed.slot)
    proxmox_failure r
    update_attachments (adjust att_id (λ att. record att { proxmox = none }))

  unfoldable pub api_proxmox_detach : Request → String → App Unit
  api_proxmox_detach request att_id = do
    guard_browser request
    cfg ← read
    take_back att_id (recorded (lookup att_id cfg.attachments))
