-- ===== src/Client/Files/Paths.antt =====
-- `resolve_device_paths`: which nodes in /dev a device has.
use usbover_ip.Base.{
  ℕ, String, ◌<>◌, Option, none, some, List, [], ◌∷◌, ◌==◌, if◌then◌else◌, truthy_text,
}
use usbover_ip.Base.Exec.{Result, ok, err, is_os_error, pure, raise, attempt, ◌>>=◌}
use usbover_ip.Outside.{Env}
use usbover_ip.Client.Files.{DevPaths, Files, os, sys}

abbrev pub no_paths : DevPaths
no_paths = record { tty = none; by_id = []; raw = none }

module _ ⦃env : Env⦄ where
  unfoldable pub device_dir : String → String
  device_dir local_busid = "/sys/bus/usb/devices/" <> local_busid

  -- The directories of the tty, in one of the two layouts.
  unfoldable pub tty_dirs : String → Files (List String)
  unfolding device_dir
  tty_dirs local_busid = do
    flat ← sys (env.glob (device_dir local_busid <> ":*/tty?*"))
    elim flat [
      | [] ↦ sys (env.glob (device_dir local_busid <> ":*/tty/tty?*"))
      | d ∷ dirs ↦ pure (d ∷ dirs)
    ]

  unfoldable pub tty_of_dirs : List String → Option String
  tty_of_dirs [] = none
  tty_of_dirs (d ∷ dirs) = some ("/dev/" <> env.last_part (env.rstrip_slash d))

  -- The number in a file, if it can be read and is one.
  unfoldable pub number_of_text : Result String → Files (Option ℕ)
  number_of_text (ok text) = pure (env.parse_int (env.strip text))
  number_of_text (err e) = if is_os_error e then pure none else raise e

  unfoldable pub read_number : String → Files (Option ℕ)
  unfolding number_of_text
  read_number path = do r ← attempt (os (env.read_file path)); number_of_text r

  unfoldable pub raw_node : String → Files (Option String)
  unfolding read_number device_dir
  raw_node local_busid = do
    busnum ← read_number (device_dir local_busid <> "/busnum")
    elim busnum [
      | none ↦ pure none
      | some bus ↦ do
        devnum ← read_number (device_dir local_busid <> "/devnum")
        elim devnum [
          | none ↦ pure none
          | some dev ↦ pure (some ("/dev/bus/usb/" <> env.pad3 bus <> "/" <> env.pad3 dev))
        ]
    ]

  unfoldable pub add_link : String → String → List String → Result String → Files (List String)
  add_link target link rest (ok path) =
      if env.last_part path == target then pure (link ∷ rest) else pure rest
  add_link target link rest (err e) = if is_os_error e then pure rest else raise e

  -- The links that lead to the tty, in the order of the listing.
  unfoldable pub links_to : String → List String → Files (List String)
  unfolding add_link
  links_to target [] = pure []
  links_to target (link ∷ links) = do
    r ← attempt (os (env.realpath link))
    rest ← links_to target links
    add_link target link rest r

  unfoldable pub links_of_tty : Option String → Files (List String)
  unfolding links_to
  links_of_tty none = pure []
  links_of_tty (some tty) = do
    links ← sys (env.glob "/dev/serial/by-id/*")
    links_to (env.last_part tty) links

  unfoldable pub resolve_device_paths : String → Files DevPaths
  unfolding tty_dirs tty_of_dirs raw_node links_of_tty
  resolve_device_paths local_busid =
      if truthy_text local_busid
      then (do
        dirs ← tty_dirs local_busid
        raw ← raw_node local_busid
        by_id ← links_of_tty (tty_of_dirs dirs)
        pure (record { tty = tty_of_dirs dirs; by_id = by_id; raw = raw }))
      else pure no_paths
