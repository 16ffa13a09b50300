-- ===== src/Client/Tunnels.antt =====
-- The tunnels of the client: `register_wireguard` of client/app/remote_client.py and
-- `api_enable_wireguard` of client/app/main.py.
pub mod Restored
pub mod Raising
pub mod Wired
pub mod Registering
pub mod Recording
pub mod Joined
use usbover_ip.Base.{
  ℕ, String, ◌<>◌, Bool, Option, none, some, List, [], ◌∷◌, if◌then◌else◌, truthy_text,
}
use usbover_ip.Base.Dict.{Dict, lookup}
use usbover_ip.Base.Exec.{
  Result, ok, err, remote_error, wireguard_error, validation_error, http_error, other, pure, raise,
  lift, attempt, ◌>>=◌, ◌>>◌,
}
use usbover_ip.Outside.{
  Env, Call, returned, raised, Proc, Os, done, not_found, not_permitted, failed,
}
use usbover_ip.Client.State.{
  App, Config, Keys, Server, Tunnel, outcome, outside, on_machine, read, update, log_event,
}
use usbover_ip.Client.Remote.{base_url, check_status}
use usbover_ip.Client.Api.Servers.{put_server, guard_browser}
use usbover_ip.Web.{Request}
use usbover_ip.Wireguard.{Box, generate_keypair, ensure_interface_up, apply_peer}

-- The body of an answer to a registration: the value of each key, where it has it.
pub record Answer : Type 0 where
  pub server_pubkey : Option String
  pub endpoint : Option String
  pub assigned_ip : Option String
  pub server_wg_ip : Option String
  pub subnet : Option String

-- `json` is `resp.json()`, and `detail` is `resp.json().get("detail", "")`; both may raise.
pub record KeyResponse : Type 0 where
  pub status_code : ℕ
  pub json : Call Answer
  pub detail : Call String

pub data KeyReply : Type 0 where
  unreachable : String → KeyReply
  answered : KeyResponse → KeyReply

-- Calls of the system that only the tunnels need.
pub record Tools ⦃env : Env⦄ : Type 1 where
  -- are wireguard-tools installed
  pub available : env.World → Bool × env.World
  pub run_input : List String → String → env.World → Call Proc × env.World
  pub mkstemp : String → String → env.World → Call String × env.World
  pub write_text : String → String → env.World → Call (Unit {0}) × env.World
  pub exists : String → env.World → Bool × env.World
  pub unlink : String → env.World → Call (Unit {0}) × env.World
  pub split_lines : String → List String
  pub split_tabs : String → List String
  pub digit_value : ℕ → ℕ
  -- POST of a public key as JSON to the URL, with the bearer token
  pub post_key : String → String → String → env.World → KeyReply × env.World

abbrev os_call : {A : Type 0} → Os A → Call A
os_call (done a) = returned a
os_call (not_found m) = raised m
os_call (not_permitted m) = raised m
os_call (failed m) = raised m

unfoldable pub save_keys : String × String → Config → Config
save_keys (private_key, public_key) d = record d {
  wireguard = record { private_key = private_key; public_key = public_key };
}

-- `reg[key]`, which raises a KeyError where the key is missing
unfoldable pub item : String → Option String → Result String
item key none = err (other key)
item key (some value) = ok value

module _ ⦃env : Env⦄ (tools : Tools) where
  -- The machine of the client, as common/wireguard_helper.py uses it. 384 is 0o600.
  abbrev pub box : Box env.World
  box = record {
    run = env.run;
    run_input = tools.run_input;
    available = tools.available;
    makedirs = λ path w. (os_call (env.makedirs path w).0, (env.makedirs path w).1);
    mkstemp = tools.mkstemp;
    write_text = tools.write_text;
    chmod = λ path w. (os_call (env.chmod path 384 w).0, (env.chmod path 384 w).1);
    replace =
        λ source path w. (os_call (env.replace source path w).0, (env.replace source path w).1);
    exists = tools.exists;
    unlink = tools.unlink;
    split_lines = tools.split_lines;
    split_tabs = tools.split_tabs;
    isdigit = env.isdigit;
    int = env.int;
    str = env.str;
    strip = env.strip;
    is_digit = env.is_digit;
    digit_value = tools.digit_value;
  }

  unfoldable pub registered : KeyReply → Result Answer
  registered (unreachable e) = err (remote_error ("could not reach server: " <> e))
  registered (answered r) = elim (check_status r.status_code r.detail) [
    | ok u ↦ outcome r.json
    | err e ↦ err e
  ]

  unfoldable pub register_wireguard : String → ℕ → String → String → App Answer
  register_wireguard host api_port token pubkey = do
    base ← base_url host api_port
    reply ← outside (tools.post_key (base <> "/api/wireguard/register") token pubkey)
    lift (registered reply)

  unfoldable pub keys_made : Result (String × String) → App Keys
  keys_made (ok keys) = do update (save_keys keys); d ← read; pure d.wireguard
  keys_made (err (wireguard_error m)) = raise (http_error 502 ("could not generate keypair: " <> m))
  keys_made (err e) = raise e

  -- The keys are made the first time, and used again for every server.
  unfoldable pub own_keys : Keys → App Keys
  own_keys wg =
      if truthy_text wg.private_key
      then pure wg
      else (do r ← attempt (on_machine (generate_keypair box)); keys_made r)

  unfoldable pub remote_failure : Result Answer → App Answer
  remote_failure (ok reg) = pure reg
  remote_failure (err (remote_error m)) = raise (http_error 502 m)
  remote_failure (err e) = raise e

  unfoldable pub raise_tunnel : Keys → Answer → String → App Unit
  raise_tunnel keys reg interface = do
    assigned_ip ← lift (item "assigned_ip" reg.assigned_ip)
    on_machine (ensure_interface_up box keys.private_key (assigned_ip <> "/32") none interface)
    server_pubkey ← lift (item "server_pubkey" reg.server_pubkey)
    server_wg_ip ← lift (item "server_wg_ip" reg.server_wg_ip)
    endpoint ← lift (item "endpoint" reg.endpoint)
    on_machine (apply_peer box server_pubkey (server_wg_ip <> "/32") (some endpoint) interface)

  unfoldable pub tunnel_failure : Result (Unit {0}) → App Unit
  tunnel_failure (ok u) = pure u
  tunnel_failure (err (wireguard_error m)) =
      raise (http_error 502 ("tunnel came up on the server but failed locally: " <> m))
  tunnel_failure (err (validation_error m)) =
      raise (http_error 502 ("tunnel came up on the server but failed locally: " <> m))
  tunnel_failure (err e) = raise e

  unfoldable pub tunnel_of : Answer → String → App Tunnel
  tunnel_of reg interface = do
    server_pubkey ← lift (item "server_pubkey" reg.server_pubkey)
    endpoint ← lift (item "endpoint" reg.endpoint)
    assigned_ip ← lift (item "assigned_ip" reg.assigned_ip)
    server_wg_ip ← lift (item "server_wg_ip" reg.server_wg_ip)
    subnet ← lift (item "subnet" reg.subnet)
    pure (record {
      server_pubkey = server_pubkey;
      endpoint = endpoint;
      assigned_ip = assigned_ip;
      server_wg_ip = server_wg_ip;
      subnet = subnet;
      interface = interface;
    })

  -- `d["servers"][server_id].__setitem__("wireguard", s)`
  unfoldable pub put_tunnel : String → Tunnel → Option Server → App Unit
  put_tunnel server_id t none = raise (other server_id)
  put_tunnel server_id t (some server) =
      update (put_server server_id (record server { wireguard = some t }))

  unfoldable pub save_tunnel : String → Tunnel → App Unit
  save_tunnel server_id t = do d ← read; put_tunnel server_id t (lookup server_id d.servers)

  unfoldable pub enable_found : String → Config → Option Server → App Tunnel
  enable_found server_id cfg none = raise (http_error 404 "unknown server")
  enable_found server_id cfg (some server) = do
    keys ← own_keys cfg.wireguard
    r ← attempt (register_wireguard server.host server.api_port server.token keys.public_key)
    reg ← remote_failure r
    let interface = "wg-" <> server_id
    up ← attempt (raise_tunnel keys reg interface)
    tunnel_failure up
    t ← tunnel_of reg interface
    save_tunnel server_id t
    log_event (
        "wireguard: tunnel enabled for " <> server.name <> " (" <> interface <> ", "
        <> t.assigned_ip <> ")")
    pure t

  unfoldable pub api_enable_wireguard : Request → String → App Tunnel
  api_enable_wireguard request server_id = do
    guard_browser request
    available ← outside tools.available
    if available
        then (do cfg ← read; enable_found server_id cfg (lookup server_id cfg.servers))
        else raise (http_error 501 "wireguard-tools not installed on this client")
