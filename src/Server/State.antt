-- ===== src/Server/State.antt =====
-- The records of server_config.json (server/app/config.py), the state of the server's process, and
-- the world outside it.
use usbover_ip.Base.{ℕ, String, Bool, Option, List, ◌∷◌, take, ◌<>◌}
use usbover_ip.Base.Dict.{Dict}
use usbover_ip.Base.Exec.{Result, ok, err, other, Exec, ◌>>=◌, gets, modify}
use usbover_ip.Outside.{Call, returned, raised, Proc}

pub record ClientRecord : Type 0 where
  pub id : String
  pub name : String
  pub host : String
  pub api_port : ℕ
  pub token : String
  pub created_at : String
  pub last_seen : Option String

pub record Peer : Type 0 where
  pub pubkey : String
  pub wg_ip : String
  pub added_at : String

pub record Wireguard : Type 0 where
  pub private_key : String
  pub public_key : String
  pub listen_port : ℕ
  pub address : String
  pub subnet : String
  pub next_host : ℕ
  pub peers : Dict Peer
  pub endpoint_host : String

pub record Config : Type 0 where
  pub server_name : String
  pub clients : Dict ClientRecord
  pub shared_devices : List String
  pub device_labels : Dict String
  pub known_serials : Dict String
  pub wireguard : Wireguard
  pub require_wireguard : Bool

-- One push to a client: POST to the URL with the bearer token and the serial as JSON.
pub record Push : Type 0 where
  pub url : String
  pub token : String
  pub serial : String

pub record Env : Type 1 where
  pub World : Type 0
  -- `subprocess.run` of a list of arguments
  pub run : List String → World → Call Proc × World
  pub splitlines : String → List String
  -- the groups `busid`, `vid` and `pid` of `_BUSID_LINE.match`
  pub match_busid_line : String → Option (String × String × String)
  -- the text without a last `(vid:pid)`, as `re.sub` leaves it
  pub drop_ids : String → String → String → String
  -- the contents of usbip_status and of serial below /sys/bus/usb/devices, if they can be read
  pub read_usbip_status : String → World → Option String × World
  pub read_serial_file : String → World → Option String × World
  pub utcnow : World → ℕ × World
  pub isoformat : ℕ → String
  -- `uuid.uuid4().hex[:8]` and `generate_token()`
  pub new_id : World → String × World
  pub new_token : World → String × World
  -- the status code of the answer to a push
  pub post : Push → World → Call ℕ × World
  -- are wireguard-tools installed
  pub wireguard_available : World → Bool × World
  pub is_digit : ℕ → Bool
  pub digit_value : ℕ → ℕ
  pub str : ℕ → String
  pub strip : String → String
  pub lower : String → String
  -- `s[:n]`
  pub prefix : ℕ → String → String
  -- `s[n:]`
  pub suffix : ℕ → String → String
  -- `sorted(set(busids))`
  pub sorted_set : List String → List String
  -- `".".join(subnet.split(".")[:3])`, and `address.split("/")[0]`
  pub first_three : String → String
  pub before_slash : String → String

pub record Event : Type 0 where
  pub time : String
  pub text : String

pub record Server (W : Type 0) : Type 0 where
  pub cfg : Config
  pub events : List Event
  pub world : W

abbrev pub outcome {ℓ} : {A : Type ℓ} → Call A → Result A
outcome (returned a) = ok a
outcome (raised m) = err (other m)

module _ ⦃env : Env⦄ where
  abbrev pub App : Type 0 → Type 0
  App = Exec (Server env.World)

  -- A call of the outside world, which may raise in the second form.
  unfoldable pub outside : {A : Type 0} → (env.World → A × env.World) → App A
  outside f s = (ok (f s.world).0, record s { world = (f s.world).1 })

  unfoldable pub outside_try : {A : Type 0} → (env.World → Call A × env.World) → App A
  outside_try f s = (outcome (f s.world).0, record s { world = (f s.world).1 })

  -- Code of a library that knows only the machine.
  unfoldable pub on_machine : {A : Type 0} → Exec env.World A → App A
  on_machine m s = ((m s.world).0, record s { world = (m s.world).1 })

  -- `config.store.read()` and `config.store.update(mutate)`
  unfoldable pub read : App Config
  read = gets (λ s. s.cfg)

  unfoldable pub update : (Config → Config) → App Unit
  update f = modify (λ s. record s { cfg = f s.cfg })

  -- `log_event` of server/app/events.py
  unfoldable pub log_event : String → App Unit
  log_event text = do
    now ← outside env.utcnow
    modify λ s. record s {
      events = take 50 (record { time = env.isoformat now <> "Z"; text = text } ∷ s.events);
    }
