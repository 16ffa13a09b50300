-- ===== src/Client/State.antt =====
-- The records of client_config.json (client/app/config.py) and the state of the client's process.
-- A key that some records lack is an `Option`.
use usbover_ip.Base.{ℕ, String, Bool, Option, List, ◌∷◌, take, ◌<>◌}
use usbover_ip.Base.Dict.{Dict}
use usbover_ip.Base.Exec.{message, Result, ok, err, other, Exec, ◌>>=◌, gets, modify}
use usbover_ip.Outside.{Env, Call, returned, raised}
use usbover_ip.Client.Files.{NodeRecord, Files}

pub record Action : Type 0 where
  pub kind : Option String
  pub name : Option String

pub record Passthrough : Type 0 where
  pub vmid : String
  pub slot : String

pub record Tunnel : Type 0 where
  pub server_pubkey : String
  pub endpoint : String
  pub assigned_ip : String
  pub server_wg_ip : String
  pub subnet : String
  pub interface : String

pub record Server : Type 0 where
  pub id : String
  pub name : String
  pub host : String
  pub api_port : ℕ
  pub usbip_port : ℕ
  pub token : String
  pub role : Option String
  pub wireguard : Option Tunnel

pub record Candidate : Type 0 where
  pub server_id : String
  pub busid : String
  pub label : Option String

pub record Group : Type 0 where
  pub id : String
  pub name : String
  pub candidates : List Candidate
  pub auto_failover : Option Bool
  pub restart_actions : Option (List Action)

pub record Attachment : Type 0 where
  pub id : Option String
  pub server_id : String
  pub busid : String
  pub serial : Option String
  pub label : Option String
  pub group_id : Option String
  pub attached_at : Option String
  pub auto_failover : Option Bool
  pub auto_rebind_on_backoff : Option Bool
  pub restart_actions : Option (List Action)
  pub port : Option String
  pub local_busid : Option String
  pub failure_count : Option ℕ
  pub next_retry_at : Option String
  pub stable_node : Option NodeRecord
  pub proxmox : Option Passthrough

-- The key pair of this box, one for all tunnels; the empty text is none yet.
pub record Keys : Type 0 where
  pub private_key : String
  pub public_key : String

pub record Config : Type 0 where
  pub wireguard : Keys
  pub servers : Dict Server
  pub groups : Dict Group
  pub attachments : Dict Attachment

pub record Event : Type 0 where
  pub time : String
  pub text : String

-- `events` is `EVENTS`, newest first; `rebind_requested` is `_startup_rebind_requested`; `started`
-- is `_PROCESS_STARTED`.
pub record Client (W : Type 0) : Type 0 where
  pub cfg : Config
  pub events : List Event
  pub rebind_requested : List String
  pub started : ℕ
  pub world : W

abbrev pub outcome {ℓ} : {A : Type ℓ} → Call A → Result A
outcome (returned a) = ok a
outcome (raised m) = err (other m)

abbrev pub call {ℓ} : {A : Type ℓ} → Result A → Call A
call (ok a) = returned a
call (err e) = raised (message e)

module _ ⦃env : Env⦄ where
  abbrev pub App : Type 0 → Type 0
  App = Exec (Client env.World)

  -- A call of the outside world, which may raise in the second form.
  unfoldable pub outside : {A : Type 0} → (env.World → A × env.World) → App A
  outside f s = (ok (f s.world).0, record s { world = (f s.world).1 })

  unfoldable pub outside_try : {A : Type 0} → (env.World → Call A × env.World) → App A
  outside_try f s = (outcome (f s.world).0, record s { world = (f s.world).1 })

  -- Code of a library that knows only the machine.
  unfoldable pub on_machine : {A : Type 0} → Exec env.World A → App A
  on_machine m s = ((m s.world).0, record s { world = (m s.world).1 })

  -- A function on the files. The callers name no kind of `OSError`.
  abbrev pub files : {A : Type 0} → Files A → App A
  files m = outside_try (λ w. (call (m w).0, (m w).1))

  -- `config.store.read()`, and `config.store.update` of the attachments
  unfoldable pub read : App Config
  read = gets (λ s. s.cfg)

  unfoldable pub update_attachments : (Dict Attachment → Dict Attachment) → App Unit
  update_attachments f =
      modify (λ s. record s { cfg = record s.cfg { attachments = f s.cfg.attachments } })

  -- `config.store.update(mutate)`
  unfoldable pub update : (Config → Config) → App Unit
  update f = modify (λ s. record s { cfg = f s.cfg })

  unfoldable pub log_event : String → App Unit
  log_event text = do
    now ← outside env.utcnow
    modify λ s. record s {
      events = take 50 (record { time = env.isoformat now <> "Z"; text = text } ∷ s.events);
    }
