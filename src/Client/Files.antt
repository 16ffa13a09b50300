-- ===== src/Client/Files.antt =====
-- The stable device nodes of client/app/usbip_client.py: what a device has in /dev, and a node of the
-- client's own that mirrors it at a path that stays.
pub mod Paths
pub mod Place
pub mod Tmpfiles
use usbover_ip.Base.{ℕ, String, List, ◌<>◌, ◌/◌, ◌%◌, Bool, Option, none, some, eqb, or_default}
use usbover_ip.Base.Exec.{Exec, Result, ok, err, file_not_found, permission_error, os_error}
use usbover_ip.Outside.{Env, Os, done, not_found, not_permitted, failed}

-- `resolve_device_paths`: the nodes of a device in /dev
pub record DevPaths : Type 0 where
  pub tty : Option String
  pub by_id : List String
  pub raw : Option String

pub record StableNode : Type 0 where
  pub target : String
  pub major : ℕ
  pub minor : ℕ
  pub mode : ℕ
  pub uid : ℕ
  pub gid : ℕ

-- The record of a node in the configuration. A number is missing, or is `none` if `int` raises.
pub record NodeRecord : Type 0 where
  pub target : Option String
  pub major : Option (Option ℕ)
  pub minor : Option (Option ℕ)
  pub mode : Option (Option ℕ)
  pub uid : Option (Option ℕ)
  pub gid : Option (Option ℕ)

unfoldable pub to_record : StableNode → NodeRecord
to_record n = record {
  target = some n.target;
  major = some (some n.major);
  minor = some (some n.minor);
  mode = some (some n.mode);
  uid = some (some n.uid);
  gid = some (some n.gid);
}

unfoldable pub required : Option (Option ℕ) → Option ℕ
required none = none
required (some number) = number

unfoldable pub optional : ℕ → Option (Option ℕ) → Option ℕ
optional default none = some default
optional default (some number) = number

unfoldable pub from_numbers :
    String → Option ℕ → Option ℕ → Option ℕ → Option ℕ → Option ℕ → Option StableNode
from_numbers target (some major) (some minor) (some mode) (some uid) (some gid) =
    some
      (record { target = target; major = major; minor = minor; mode = mode; uid = uid; gid = gid })
from_numbers target major minor mode uid gid = none

-- 432 is 0o660
unfoldable pub from_record : Option NodeRecord → Option StableNode
unfolding required optional from_numbers
from_record none = none
from_record (some rec) =
    from_numbers (or_default rec.target "") (required rec.major) (required rec.minor)
      (optional 432 rec.mode) (optional 0 rec.uid) (optional 0 rec.gid)

abbrev pub node_dir : String
node_dir = "/dev/usbip-web"

unfoldable pub node_path : String → String
node_path key = node_dir <> "/" <> key

-- `stat.S_IMODE`, `stat.S_ISCHR` and `stat.S_ISLNK`
unfoldable pub s_imode : ℕ → ℕ
s_imode mode = mode % 4096

unfoldable pub s_ischr : ℕ → Bool
s_ischr mode = eqb (mode / 4096 % 16) 2

unfoldable pub s_islnk : ℕ → Bool
s_islnk mode = eqb (mode / 4096 % 16) 10

module _ ⦃env : Env⦄ where
  abbrev pub Files : Type 0 → Type 0
  Files = Exec env.World

  abbrev pub result {ℓ} : {A : Type ℓ} → Os A → Result A
  result (done a) = ok a
  result (not_found m) = err (file_not_found m)
  result (not_permitted m) = err (permission_error m)
  result (failed m) = err (os_error m)

  -- A call of the `os` module as an action.
  unfoldable pub os : {A : Type 0} → (env.World → Os A × env.World) → Files A
  os f w = (result (f w).0, (f w).1)

  -- A call that raises no exception.
  unfoldable pub sys : {A : Type 0} → (env.World → A × env.World) → Files A
  sys f w = (ok (f w).0, (f w).1)
