-- ===== src/Outside.antt =====
-- What the program uses and does not implement: the operating system, the clock, the network and
-- Python's standard library. Each is a function on an unknown state of the world.
use usbover_ip.Base.{ℕ, String, Bool, Option, List}

-- A call of code outside: it returns, or it raises an exception that the program nowhere names, such
-- as `subprocess.TimeoutExpired`.
pub data Call {ℓ} (A : Type ℓ) : Type ℓ where
  returned : A → Call A
  raised : String → Call A

-- `subprocess.CompletedProcess`; the exit status 0 is success
pub record Proc : Type 0 where
  pub returncode : ℕ
  pub stdout : String
  pub stderr : String

-- An entry of the list that a server's GET /api/devices returns, as the client reads it.
pub record Device : Type 0 where
  pub busid : String
  pub status : String
  pub serial : Option String
  pub label : Option String

pub data Method : Type 0 where
  get post : Method

-- A request without a body, and its bearer token if it has one.
pub record Request : Type 0 where
  pub method : Method
  pub url : String
  pub token : Option String
  pub timeout : ℕ

-- `httpx` raises a `RequestError`, or there is a response. `devices` is `resp.json()["devices"]`,
-- and `detail` is `resp.json().get("detail", "")`; both may raise.
pub record Response : Type 0 where
  pub status_code : ℕ
  pub devices : Call (List Device)
  pub detail : Call String

pub data Reply : Type 0 where
  request_error : String → Reply
  response : Response → Reply

-- A call of the `os` module, or of `open`: it returns, or it raises an `OSError` of one of the kinds
-- that the program tells apart.
pub data Os {ℓ} (A : Type ℓ) : Type ℓ where
  done : A → Os A
  not_found not_permitted failed : String → Os A

-- `os.stat_result`, as far as it is read
pub record Stat : Type 0 where
  pub st_mode : ℕ
  pub st_rdev : ℕ
  pub st_uid : ℕ
  pub st_gid : ℕ
  pub st_ino : ℕ

-- Points in time and spans of it are counted in microseconds.
pub record Env : Type 1 where
  pub World : Type 0
  -- `subprocess.run` of a list of arguments; it raises at a timeout or if there is no such program
  pub run : List String → World → Call Proc × World
  -- the lines of each vhci_hcd status file in order of their paths, `none` if it cannot be read
  pub status_files : World → List (Option (List String)) × World
  -- the groups `port` and `busid` of `_STATUS_LINE_RE.match`
  pub match_status_line : String → Option (String × String)
  -- the groups `port` and `local_busid` of each match of `_PORT_BLOCK_RE`
  pub find_port_blocks : String → List (String × String)
  pub sleep : ℕ → World → World
  pub utcnow : World → ℕ × World
  pub monotonic : World → ℕ × World
  -- `uuid.uuid4().hex[:8]`
  pub new_id : World → String × World
  pub http : Request → World → Reply × World
  -- `\d` of a regular expression
  pub is_digit : ℕ → Bool
  -- `int(s)` of a text of digits, and `str(n)`
  pub int : String → ℕ
  pub str : ℕ → String
  pub isdigit : String → Bool
  pub strip : String → String
  pub lower : String → String
  -- `s[:n]` and `s[n:]`
  pub prefix : ℕ → String → String
  pub suffix : ℕ → String → String
  pub repr : String → String
  pub isoformat : ℕ → String
  pub fromisoformat : String → Option ℕ
  -- `s.rstrip("Z")`
  pub rstrip_z : String → String
  -- `int(s)` where it may raise a ValueError, f"{n:03d}" and f"{n:04o}"
  pub parse_int : String → Option ℕ
  pub pad3 : ℕ → String
  pub octal4 : ℕ → String
  -- `path.rsplit("/", 1)[-1]`, and `path.rstrip("/")`
  pub last_part : String → String
  pub rstrip_slash : String → String
  pub sorted : List String → List String
  pub glob : String → World → List String × World
  -- `open(path).read()`, and `open(path, "w")` with one `write`
  pub read_file : String → World → Os String × World
  pub write_file : String → String → World → Os (Unit {0}) × World
  pub realpath : String → World → Os String × World
  pub stat : String → World → Os Stat × World
  pub lstat : String → World → Os Stat × World
  pub makedirs : String → World → Os (Unit {0}) × World
  pub chmod : String → ℕ → World → Os (Unit {0}) × World
  pub chown : String → ℕ → ℕ → World → Os (Unit {0}) × World
  -- `os.mknod(path, stat.S_IFCHR | mode, rdev)`
  pub mknod : String → ℕ → ℕ → World → Os (Unit {0}) × World
  -- `os.symlink(target, path)`, and `os.replace(source, path)`
  pub symlink : String → String → World → Os (Unit {0}) × World
  pub replace : String → String → World → Os (Unit {0}) × World
  pub remove : String → World → Os (Unit {0}) × World
  -- `os.path.isdir(path) and os.access(path, os.W_OK)`
  pub writable_dir : String → World → Bool × World
  pub getpid : ℕ
  -- `os.makedev`, `os.major` and `os.minor`
  pub makedev : ℕ → ℕ → ℕ
  pub major : ℕ → ℕ
  pub minor : ℕ → ℕ

abbrev pub second : ℕ
second = 1000000
