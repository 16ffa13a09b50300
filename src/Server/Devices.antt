-- ===== src/Server/Devices.antt =====
-- server/app/usb_devices.py: listing, binding and unbinding the local devices.
use usbover_ip.Base.{
  String, not, Option, none, some, List, [], ◌∷◌, ◌==◌, eqb, if◌then◌else◌, or_text, or_default,
}
use usbover_ip.Base.Dict.{Dict, lookup}
use usbover_ip.Base.Exec.{runtime_error, pure, raise, lift, ◌>>=◌, ◌>>◌}
use usbover_ip.Outside.{Proc}
use usbover_ip.Server.State.{Env, App, outside, outside_try}
use usbover_ip.Validate.{validate_busid}

pub record UsbDevice : Type 0 where
  pub busid : String
  pub vendor_id : String
  pub product_id : String
  pub description : String
  pub status : String
  pub label : String
  pub serial : String

-- `STATUS_MAP`
unfoldable pub status_of_value : String → String
status_of_value value =
    if value == "1" then "shared_idle" else if value == "2" then "shared_in_use" else "unknown"

module _ ⦃env : Env⦄ where
  unfoldable pub read_status : String → App String
  read_status busid = do
    content ← outside (env.read_usbip_status busid)
    pure (elim content [ none ↦ "unshared" | some text ↦ status_of_value (env.strip text) ])

  unfoldable pub read_serial : String → App String
  read_serial busid = do
    content ← outside (env.read_serial_file busid)
    pure (elim content [ none ↦ "" | some text ↦ env.strip text ])

  unfoldable pub describe : String → String → List String → String
  describe vid pid [] = ""
  describe vid pid (line ∷ rest) = env.drop_ids vid pid (env.strip line)

  unfoldable pub scan_device : Dict String → String × String × String → List String → App UsbDevice
  scan_device labels (busid, vid, pid) rest = do
    status ← read_status busid
    serial ← read_serial busid
    pure (record {
      busid = busid;
      vendor_id = env.lower vid;
      product_id = env.lower pid;
      description = describe (env.lower vid) (env.lower pid) rest;
      status = status;
      label = or_default (lookup busid labels) "";
      serial = serial;
    })

  -- The loop over the lines: after a device the line below it, its description, is passed over.
  unfoldable pub scan_lines : Dict String → List String → App (List UsbDevice)
  scan_lines labels [] = pure []
  scan_lines labels (line ∷ []) = elim (env.match_busid_line line) [
    | none ↦ pure []
    | some ids ↦ (do device ← scan_device labels ids []; pure (device ∷ []))
  ]
  scan_lines labels (line ∷ next ∷ rest) = elim (env.match_busid_line line) [
    | none ↦ scan_lines labels (next ∷ rest)
    | some ids ↦ do
      device ← scan_device labels ids (next ∷ rest)
      devices ← scan_lines labels rest
      pure (device ∷ devices)
  ]

  unfoldable pub list_local_devices : Dict String → App (List UsbDevice)
  list_local_devices labels = do
    proc ← outside_try (env.run ("usbip" ∷ "list" ∷ "-l" ∷ []))
    scan_lines labels (env.splitlines proc.stdout)

  unfoldable pub check_proc : Proc → String → App Unit
  check_proc proc failure =
      if not (eqb proc.returncode 0)
      then raise (
          runtime_error
            (env.strip (or_text (some proc.stderr) (or_text (some proc.stdout) failure))))
      else pure tt

  unfoldable pub bind_device : String → App Unit
  bind_device busid = do
    lift (validate_busid env.is_digit busid)
    proc ← outside_try (env.run ("usbip" ∷ "bind" ∷ "-b" ∷ busid ∷ []))
    check_proc proc "usbip bind failed"

  unfoldable pub unbind_device : String → App Unit
  unbind_device busid = do
    lift (validate_busid env.is_digit busid)
    proc ← outside_try (env.run ("usbip" ∷ "unbind" ∷ "-b" ∷ busid ∷ []))
    check_proc proc "usbip unbind failed"

  -- `_get_device_serial` of server/app/main.py
  unfoldable pub serial_of : String → List UsbDevice → Option String
  serial_of busid [] = none
  serial_of busid (d ∷ devices) =
      if d.busid == busid
      then (if d.serial == "" then none else some d.serial)
      else serial_of busid devices

  unfoldable pub get_device_serial : String → App (Option String)
  get_device_serial busid = do devices ← list_local_devices []; pure (serial_of busid devices)
