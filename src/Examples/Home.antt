-- ===== src/Examples/Home.antt =====
-- A client with one server and one group. The world counts the devices that are attached; numbers
-- are printed with one stroke each.
use text.Mathlib.TextLemmas.{cons-append, cons-ne-nil}
use usbover_ip.Base.{
  ◌+◌, ◌*◌, ◌/◌, ◌%◌, ℕ, zero, suc, String, ◌<>◌, Bool, true, false, ◌&&◌, none, some, List, [],
  ◌∷◌, ◌==◌, leb, if◌then◌else◌, ◌≡◌, refl, ap, not, eq_iff, sym, ◌∙◌, Bool-cases, inl, inr,
}
use usbover_ip.Outside.{Env, Call, returned, raised, Proc, Device, response, done, not_found, Stat}
use usbover_ip.Client.State.{Server, Group, Attachment, Config, Client}
use usbover_ip.Client.Backoff.Delay.{IsoClock}

abbrev pub strokes : ℕ → String
strokes zero = ""
strokes (suc n) = String.◌∷◌ "1" (strokes n)

abbrev pub size : String → ℕ
size String.[] = 0
size (String.◌∷◌ c s) = suc (size s)

pub size-strokes : (n : ℕ) → size (strokes n) ≡ n
size-strokes zero = refl
size-strokes (suc n) = ap suc (size-strokes n)

abbrev pub drop_z : String → String
drop_z String.[] = ""
drop_z (String.◌∷◌ c s) =
    let r = drop_z s in if String.◌∷◌ c String.[] == "Z" && r == "" then "" else String.◌∷◌ c r

drop_z-strokes : (n : ℕ) → drop_z (strokes n <> "Z") ≡ strokes n
drop_z-strokes zero = refl
drop_z-strokes (suc n) =
    ap drop_z (cons-append "1" (strokes n) "Z")
    ∙ ap (λ (x : String). String.◌∷◌ "1" x) (drop_z-strokes n)

not_empty : (t : ℕ) → ((strokes t <> "Z") == "") ≡ false
not_empty zero = refl
not_empty (suc t) = elim (Bool-cases ((strokes (suc t) <> "Z") == "")) [
  | inl same ↦ absurd (
      cons-ne-nil "1" (strokes t <> "Z")
        (sym (cons-append "1" (strokes t) "Z") ∙ (eq_iff (strokes (suc t) <> "Z") "").0 same))
  | inr differ ↦ differ
]

-- `usbip attach` plugs a device in at the next port, and `usbip detach` changes nothing.
abbrev pub Plugged : Type 0
Plugged = ℕ

abbrev pub is_attach : List String → Bool
is_attach (program ∷ option ∷ rest) = program == "usbip" && option == "--tcp-port"
is_attach _ = false

abbrev pub run_command : List String → Plugged → Call Proc × Plugged
run_command args n = (
  returned (record { returncode = 0; stdout = ""; stderr = "" }),
  (if is_attach args then suc n else n),
)

abbrev pub port_lines : ℕ → List String
port_lines zero = []
port_lines (suc n) = strokes n ∷ port_lines n

abbrev pub devices : List Device
devices =
    record { busid = "1-1"; status = "shared_in_use"; serial = some "A"; label = none }
    ∷ record { busid = "1-2"; status = "shared_idle"; serial = some "B"; label = none }
    ∷ []

abbrev pub digits : ℕ → Bool
digits c = leb b'0' c && leb c b'9'

-- a character device with the mode 0o660
abbrev pub node : Stat
node = record { st_mode = 8624; st_rdev = 258; st_uid = 0; st_gid = 20; st_ino = 5 }

-- A box whose files never change, with these commands, these lines of the kernel and this clock.
abbrev pub still_box :
    (W : Type 0) → (List String → W → Call Proc × W) → (W → List String) → (W → ℕ) → Env
still_box W command lines time = record {
  World = W;
  run = command;
  status_files = λ n. (some ("hub port" ∷ lines n) ∷ [], n);
  match_status_line = λ line. some (line, "3-1");
  find_port_blocks = λ text. [];
  sleep = λ t n. n;
  utcnow = λ n. (time n, n);
  monotonic = λ n. (time n, n);
  new_id = λ n. ("new", n);
  http = λ request n. (
    response (record { status_code = 200; devices = returned devices; detail = raised "no JSON" }),
    n,
  );
  is_digit = digits;
  int = size;
  str = strokes;
  isdigit = λ s. true;
  strip = λ s. s;
  lower = λ s. s;
  prefix = λ n s. s;
  suffix = λ n s. s;
  repr = λ s. s;
  isoformat = strokes;
  fromisoformat = λ s. some (size s);
  rstrip_z = drop_z;
  parse_int = λ s. some (size s);
  pad3 = strokes;
  octal4 = strokes;
  last_part = λ s. s;
  rstrip_slash = λ s. s;
  sorted = λ s. s;
  glob = λ pattern n. ([], n);
  read_file = λ path n. (not_found path, n);
  write_file = λ path text n. (done tt, n);
  realpath = λ path n. (done path, n);
  stat = λ path n. (done node, n);
  lstat = λ path n. (done node, n);
  makedirs = λ path n. (done tt, n);
  chmod = λ path mode n. (done tt, n);
  chown = λ path uid gid n. (done tt, n);
  mknod = λ path mode rdev n. (done tt, n);
  symlink = λ target path n. (done tt, n);
  replace = λ source path n. (done tt, n);
  remove = λ path n. (done tt, n);
  writable_dir = λ path n. (true, n);
  getpid = 7;
  makedev = λ major minor. 256 * major + minor;
  major = λ rdev. rdev / 256;
  minor = λ rdev. rdev % 256;
}

instance abbrev pub Home : Env
Home = still_box Plugged run_command port_lines (λ n. n)

pub clock : IsoClock
clock = record {
  read_back = λ t. ap (λ x. some (size x)) (drop_z-strokes t) ∙ ap some (size-strokes t);
  not_empty = λ t. ap not (not_empty t);
}

abbrev pub hub : Server
hub = record {
  id = "hub";
  name = "hub";
  host = "10.0.0.5";
  api_port = 8000;
  usbip_port = 3240;
  token = "t";
  role = some "primary";
  wireguard = none;
}

abbrev pub dongle : Attachment
dongle = record {
  id = some "a";
  server_id = "hub";
  busid = "1-2";
  serial = some "B";
  label = none;
  group_id = none;
  attached_at = none;
  auto_failover = some true;
  auto_rebind_on_backoff = none;
  restart_actions = some [];
  port = some "1";
  local_busid = none;
  failure_count = some 2;
  next_retry_at = none;
  stable_node = none;
  proxmox = none;
}

-- the first candidate is in use
abbrev pub scanners : Group
scanners = record {
  id = "g";
  name = "scanners";
  candidates =
      record { server_id = "hub"; busid = "1-1"; label = none }
      ∷ record { server_id = "hub"; busid = "1-2"; label = none }
      ∷ [];
  auto_failover = none;
  restart_actions = none;
}

abbrev pub config : Config
config = record {
  wireguard = record { private_key = ""; public_key = "" };
  servers = ("hub", hub) ∷ [];
  groups = ("g", scanners) ∷ [];
  attachments = ("a", dongle) ∷ [];
}

abbrev pub client : Client Plugged
client = record { cfg = config; events = []; rebind_requested = []; started = 0; world = 3 }
