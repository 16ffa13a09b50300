-- ===== src/Server/Rename.antt =====
-- The relocation of shared devices in `_ensure_shared_devices_bound` of server/app/main.py: which
-- bus ids moved, and what becomes of the lists that name them.
pub mod Laws
use mathlib.Core.List.{foldl}
use usbover_ip.Base.{
  String, Bool, not, ◌&&◌, Option, none, some, List, [], ◌∷◌, ◌++◌, ◌==◌, contains, if◌then◌else◌,
  truthy,
}
use usbover_ip.Base.Dict.{Dict, lookup, insert, erase}
use usbover_ip.Server.State.{Config}
use usbover_ip.Server.Devices.{UsbDevice}

-- `{d.busid: d for d in current}`, and by serial, which leaves out devices that report none. The
-- last device of a key is the one that stays.
unfoldable pub by_busid : List UsbDevice → Dict UsbDevice
by_busid devices = foldl (λ d dev. insert dev.busid dev d) [] devices

unfoldable pub by_serial : List UsbDevice → Dict UsbDevice
by_serial devices =
    foldl (λ d dev. if dev.serial == "" then d else insert dev.serial dev d) [] devices

-- `by_serial.get(remembered) if remembered else None`
unfoldable pub moved_device : Dict UsbDevice → Option String → Option UsbDevice
moved_device serials none = none
moved_device serials (some remembered) =
    if truthy (some remembered) then lookup remembered serials else none

-- Where a shared bus id moved to, if it did.
unfoldable pub rename_of : List UsbDevice → Dict String → List String → String → Option String
unfolding moved_device
rename_of current known shared busid = elim (lookup busid (by_busid current)) [
  | some present ↦ none
  | none ↦ elim (moved_device (by_serial current) (lookup busid known)) [
    | none ↦ none
    | some moved ↦ if contains shared moved.busid then none else some moved.busid
  ]
]

-- The loop that fills `renames`.
unfoldable pub plan_renames : List UsbDevice → Dict String → List String → List String → Dict String
plan_renames current known shared [] = []
plan_renames current known shared (busid ∷ rest) =
    let later = plan_renames current known shared rest in
    elim (rename_of current known shared busid) [ none ↦ later | some new ↦ (busid, new) ∷ later ]

-- `slist.remove(old)` of a list that has it: the first one goes.
unfoldable pub remove_first : String → List String → List String
remove_first old [] = []
remove_first old (b ∷ bs) = if b == old then bs else b ∷ remove_first old bs

unfoldable pub append_new : String → List String → List String
append_new new slist = if contains slist new then slist else slist ++ (new ∷ [])

unfoldable pub rename_shared : String → String → List String → List String
unfolding remove_first append_new
rename_shared old new slist = append_new new (remove_first old slist)

-- A label moves along, unless the new bus id has one.
unfoldable pub rename_label : String → String → Dict String → Dict String
rename_label old new labels = elim (lookup old labels) [
  | none ↦ labels
  | some label ↦ elim (lookup new labels) [
    | some taken ↦ labels
    | none ↦ insert new label (erase old labels)
  ]
]

unfoldable pub apply_rename : Config → String × String → Config
unfolding rename_shared rename_label
apply_rename d (old, new) = record d {
  shared_devices = rename_shared old new d.shared_devices;
  device_labels = rename_label old new d.device_labels;
}

unfoldable pub apply_renames : Dict String → Config → Config
apply_renames renames d = foldl apply_rename d renames
