-- ===== src/Examples/Disk.antt =====
-- Nodes on a small file system, in a container that may not make device nodes.
use usbover_ip.Base.{
  ℕ, String, ◌+◌, ◌*◌, ◌/◌, ◌%◌, ◌≡◌, ◌≢◌, refl, ◌∙◌, ap, true, Option, none, some, [], ◌==◌,
  if◌then◌else◌, Bool-cases, inl, inr, eq_iff, eq_refl, arith, eqb,
}
use usbover_ip.Base.Exec.{ok, ◌>>=◌, try_except}
use usbover_ip.Outside.{Env, Stat, Os, done, not_found, not_permitted}
use usbover_ip.Client.Files.{StableNode, DevPaths, node_path, s_ischr, s_islnk, os}
use usbover_ip.Client.Files.Place.{
  place_node, place_over, replace_node, make_node_or_link, make_node, temporary, is_mirror,
  update_attachment_node,
}
use usbover_ip.Client.Files.Place.Posix.{Posix, SameDevice, Entry}
use usbover_ip.Client.Files.Place.Mirror.{place_node-IsMirror, IsMirror}
use usbover_ip.Client.Files.Place.Keeps.{place_node-fails, place_node-SameDevice}
use usbover_ip.Client.Files.Place.Total.{update_attachment_node-Mirrored, Answer}
use usbover_ip.Examples.Home

abbrev FileSystem : Type 0
FileSystem = String → Option Stat

abbrev put : String → Option Stat → FileSystem → FileSystem
put p o w q = if q == p then o else w q

put-same : (p : String) (o : Option Stat) (w : FileSystem) → put p o w p ≡ o
put-same p o w = ap (λ b. if b then o else w p) (eq_refl p)

put-other : (p q : String) (o : Option Stat) (w : FileSystem) → q ≢ p → put p o w q ≡ w q
put-other p q o w differs = elim (Bool-cases (q == p)) [
  | inl same ↦ absurd (differs ((eq_iff q p).0 same))
  | inr other ↦ ap (λ b. if b then o else w q) other
]

abbrev owned_by : ℕ → ℕ → Option Stat → Option Stat
owned_by u g none = none
owned_by u g (some st) = some (record st { st_uid = u; st_gid = g })

-- only the bits of the access are changed
abbrev accessed_by : ℕ → Option Stat → Option Stat
accessed_by m none = none
accessed_by m (some st) = some (record st { st_mode = st.st_mode / 4096 * 4096 + m % 4096 })

abbrev find : String → Option Stat → Os Stat
find p none = not_found p
find p (some st) = done st

-- a call that needs its file
abbrev needing : String → Option Stat → FileSystem → FileSystem → Os (Unit {0}) × FileSystem
needing p none w w' = (not_found p, w)
needing p (some st) w w' = (done tt, w')

-- the device of a serial adapter, and a mirror of it
abbrev tty : Stat
tty = record { st_mode = 8624; st_rdev = 48128; st_uid = 0; st_gid = 20; st_ino = 5 }

abbrev link : Stat
link = record { st_mode = 41471; st_rdev = 0; st_uid = 0; st_gid = 0; st_ino = 9 }

abbrev adapter : StableNode
adapter = record { target = "/dev/ttyUSB0"; major = 188; minor = 0; mode = 432; uid = 0; gid = 20 }

abbrev unlinked : StableNode
unlinked = record adapter { target = "" }

abbrev new_disk : FileSystem
new_disk path = if path == "/dev/ttyUSB0" then some tty else none

-- with a mirror of an adapter that another group may use
abbrev used_disk : FileSystem
used_disk = put "/dev/usbip-web/g" (some (record tty { st_gid = 5; st_ino = 8 })) new_disk

abbrev other_disk : FileSystem
other_disk = put "/dev/usbip-web/g" (some (record tty { st_rdev = 48129 })) new_disk

instance abbrev Disk : Env
Disk = record {
  World = FileSystem;
  run = λ args w. ((Home.Home.run args 0).0, w);
  status_files = λ w. ([], w);
  match_status_line = Home.Home.match_status_line;
  find_port_blocks = Home.Home.find_port_blocks;
  sleep = λ t w. w;
  utcnow = λ w. (0, w);
  monotonic = λ w. (0, w);
  new_id = λ w. ("new", w);
  http = λ request w. ((Home.Home.http request 0).0, w);
  is_digit = Home.Home.is_digit;
  int = Home.Home.int;
  str = Home.Home.str;
  isdigit = Home.Home.isdigit;
  strip = Home.Home.strip;
  lower = Home.Home.lower;
  prefix = Home.Home.prefix;
  suffix = Home.Home.suffix;
  repr = Home.Home.repr;
  isoformat = Home.Home.isoformat;
  fromisoformat = Home.Home.fromisoformat;
  rstrip_z = Home.Home.rstrip_z;
  parse_int = Home.Home.parse_int;
  pad3 = Home.Home.pad3;
  octal4 = Home.Home.octal4;
  last_part = Home.Home.last_part;
  rstrip_slash = Home.Home.rstrip_slash;
  sorted = Home.Home.sorted;
  glob = λ pattern w. ([], w);
  read_file = λ path w. (not_found path, w);
  write_file = λ path text w. (done tt, w);
  realpath = λ path w. (done path, w);
  stat = λ path w. (find path (w path), w);
  lstat = λ path w. (find path (w path), w);
  makedirs = λ path w. (done tt, w);
  chmod = λ path mode w. needing path (w path) w (put path (accessed_by mode (w path)) w);
  chown = λ path uid gid w. needing path (w path) w (put path (owned_by uid gid (w path)) w);
  mknod = λ path mode rdev w. (not_permitted path, w);
  symlink = λ target path w. (done tt, put path (some link) w);
  replace = λ source path w. needing source (w source) w (put path (w source) (put source none w));
  remove = λ path w. needing path (w path) w (put path none w);
  writable_dir = λ path w. (true, w);
  getpid = 7;
  makedev = Home.Home.makedev;
  major = Home.Home.major;
  minor = Home.Home.minor;
}

needing-other :
    (p q : String) (o o' : Option Stat) (w : FileSystem)
    → q ≢ p
    → (needing p o w (put p o' w)).1 q ≡ w q
needing-other p q none o' w differs = refl
needing-other p q (some st) o' w differs = put-other p q o' w differs

accessed-same :
    (m : ℕ) (st : Stat) → s_ischr (st.st_mode / 4096 * 4096 + m % 4096) ≡ s_ischr st.st_mode
unfolding s_ischr
accessed-same m st =
    let same : (st.st_mode / 4096 * 4096 + m % 4096) / 4096 ≡ st.st_mode / 4096 = omega arith in
    ap (λ n. eqb (n % 16) 2) same

abbrev disk : Posix
unfolding s_islnk
disk = record {
  entry = λ w p. w p;
  lstat_keeps = λ p q w. refl;
  lstat_done = λ p st w e. found p (w p) e;
  lstat_not_found = λ p m w e. missing p m (w p) e;
  makedirs_keeps = λ d q st w h. h;
  mknod_other = λ p q m r w differs. refl;
  mknod_done = λ p m r w e. cc;
  chmod_other = λ p q m w differs. needing-other p q (w p) (accessed_by m (w p)) w differs;
  chmod_same = λ p m st w h. (
    record st { st_mode = st.st_mode / 4096 * 4096 + m % 4096 },
    ap (λ o. (needing p o w (put p (accessed_by m o) w)).1 p) h
        ∙ put-same p (accessed_by m (some st)) w,
    record { same_kind = accessed-same m st; same_rdev = refl; same_ino = refl },
  );
  chown_other = λ p q u g w differs. needing-other p q (w p) (owned_by u g (w p)) w differs;
  chown_same = λ p u g st w h. (
    record st { st_uid = u; st_gid = g },
    ap (λ o. (needing p o w (put p (owned_by u g o) w)).1 p) h
        ∙ put-same p (owned_by u g (some st)) w,
    record { same_kind = refl; same_rdev = refl; same_ino = refl },
  );
  symlink_other = λ t p q w differs. put-other p q (some link) w differs;
  symlink_done = λ t p w e. (link, put-same p (some link) w, refl);
  replace_done = λ s d w e. moved (w s) s d w e;
  replace_not_done = λ s d w e. stays (w s) s d w e;
  remove_other = λ p q w differs. needing-other p q (w p) none w differs;
}
  where
    found : (p : String) (o : Option Stat) {st : Stat} → find p o ≡ done st → o ≡ some st
    found p none e = cc
    found p (some st) e = cc

    missing : (p m : String) (o : Option Stat) → find p o ≡ not_found m → o ≡ none
    missing p m none e = refl
    missing p m (some st) e = cc

    moved :
        (o : Option Stat) (s d : String) (w : FileSystem)
        → (needing s o w (put d o (put s none w))).0 ≡ done tt
        → (needing s o w (put d o (put s none w))).1 d ≡ o
    moved none s d w e = cc
    moved (some st) s d w e = put-same d (some st) (put s none w)

    stays :
        (o : Option Stat) (s d : String) (w : FileSystem)
        → (needing s o w (put d o (put s none w))).0 ≢ done tt
        → (needing s o w (put d o (put s none w))).1 d ≡ w d
    stays none s d w e = refl
    stays (some st) s d w e = absurd (e refl)

linked : (place_node "g" adapter new_disk).0 ≡ ok (some "/dev/usbip-web/g")
unfolding place_node ◌>>=◌ os place_over replace_node try_except make_node_or_link make_node
    temporary node_path
linked = refl

place_node-IsMirror_example :
    ("/dev/usbip-web/g" ≡ node_path "g")
    × Entry disk (node_path "g") (IsMirror disk adapter) (place_node "g" adapter new_disk).1
place_node-IsMirror_example =
    place_node-IsMirror disk adapter "g" "/dev/usbip-web/g" new_disk linked

refused : (place_node "g" unlinked other_disk).0 ≡ ok none
unfolding place_node ◌>>=◌ os place_over is_mirror s_ischr replace_node try_except make_node_or_link
    make_node temporary node_path
refused = refl

there : other_disk (node_path "g") ≡ some (record tty { st_rdev = 48129 })
unfolding node_path
there = refl

place_node-fails_example :
    (place_node "g" unlinked other_disk).1 (node_path "g") ≡ some (record tty { st_rdev = 48129 })
unfolding disk node_path
place_node-fails_example =
    place_node-fails disk unlinked "g" (record tty { st_rdev = 48129 }) other_disk there refused

abbrev mirror : Stat
mirror = record tty { st_gid = 5; st_ino = 8 }

used : used_disk (node_path "g") ≡ some mirror
unfolding node_path
used = refl

is_one : is_mirror adapter mirror ≡ true
unfolding is_mirror s_ischr
is_one = refl

place_node-SameDevice_example :
    Entry disk (node_path "g") (SameDevice mirror) (place_node "g" adapter used_disk).1
unfolding disk
place_node-SameDevice_example = place_node-SameDevice disk adapter "g" mirror is_one used_disk used

abbrev adapter_paths : DevPaths
adapter_paths = record { raw = some "/dev/bus/usb/003/002"; tty = some "/dev/ttyUSB0"; by_id = [] }

update_attachment_node-Mirrored_example :
    (o : Option (String × StableNode)) × ((update_attachment_node "g" adapter_paths new_disk).0
      ≡ ok o)
    × Answer disk "g" "/dev/ttyUSB0" o (update_attachment_node "g" adapter_paths new_disk).1
update_attachment_node-Mirrored_example =
    update_attachment_node-Mirrored disk "g" adapter_paths new_disk
