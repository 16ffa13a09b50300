-- ===== src/Examples/Walls.antt =====
-- A server with a firewall: the world is the texts that its table was loaded from.
use usbover_ip.Base.{
  String, ◌≡◌, refl, Bool, true, false, ◌&&◌, none, List, [], ◌∷◌, ◌==◌, if◌then◌else◌, ◌++◌,
}
use usbover_ip.Base.Exec.Triple.{Outcome}
use usbover_ip.Outside.{returned, Proc}
use usbover_ip.Server.State
use usbover_ip.Server.Host.{Host}
use usbover_ip.Server.Host.Startup.{ensure_wireguard_up}
use usbover_ip.Server.Host.Startup.Kept.{ensure_wireguard_up-Kept}
use usbover_ip.Server.Host.Startup.Keys.{Kept}
use usbover_ip.Server.Host.Firewall.{api_wireguard_require}
use usbover_ip.Server.Host.Firewall.Switching.{Nft}
use usbover_ip.Server.Host.Firewall.Enforced.{Enforced, api_wireguard_require-Enforced}
use usbover_ip.Examples.Home.{strokes, size, digits}
use usbover_ip.Examples.Gateway.{browser, server_config}

abbrev is_delete : List String → Bool
is_delete (program ∷ action ∷ rest) = program == "nft" && action == "delete"
is_delete _ = false

abbrev done_proc : Proc
done_proc = record { returncode = 0; stdout = ""; stderr = "" }

instance abbrev Walled : State.Env
Walled = record {
  World = List String;
  run = λ args w. (returned done_proc, (if is_delete args then [] else w));
  splitlines = λ text. text ∷ [];
  match_busid_line = λ line. none;
  drop_ids = λ text vid pid. text;
  read_usbip_status = λ busid w. (none, w);
  read_serial_file = λ busid w. (none, w);
  utcnow = λ w. (7, w);
  isoformat = strokes;
  new_id = λ w. ("new", w);
  new_token = λ w. ("token", w);
  post = λ push w. (returned 200, w);
  wireguard_available = λ w. (true, w);
  is_digit = digits;
  digit_value = λ c. c;
  str = strokes;
  strip = λ s. s;
  lower = λ s. s;
  prefix = λ n s. s;
  suffix = λ n s. s;
  sorted_set = λ busids. busids;
  first_three = λ s. "10.77.0";
  before_slash = λ s. s;
}

abbrev box : Host
box = record {
  run_input = λ args text w. (returned done_proc, w ++ (text ∷ []));
  nft_installed = λ w. (true, w);
  route_address = λ w. (none, w);
  makedirs = λ path w. (returned tt, w);
  mkstemp = λ dir prefix w. (returned prefix, w);
  write_text = λ path text w. (returned tt, w);
  chmod = λ path w. (returned tt, w);
  replace = λ source path w. (returned tt, w);
  exists = λ path w. (false, w);
  unlink = λ path w. (returned tt, w);
  split_lines = λ s. s ∷ [];
  split_tabs = λ s. s ∷ [];
  isdigit = λ s. true;
  int = size;
  usbipd_port = 3240;
}

abbrev tables : Nft box
tables = record {
  loaded = λ w. w;
  delete_done = λ proc w e zero. refl;
  delete_failed = λ proc w e other. cc;
  load_done = λ text proc w e zero. refl;
  probe_keeps = λ w. refl;
  utcnow_keeps = λ w. refl;
}

abbrev unguarded : State.Server (List String)
unguarded = record { cfg = server_config; events = []; world = [] }

api_wireguard_require-Enforced_example :
    Outcome
      (λ b s. (b ≡ true) × Enforced box tables true unguarded s)
      (λ _ s. s.cfg ≡ server_config)
      (api_wireguard_require box browser true unguarded).0
      (api_wireguard_require box browser true unguarded).1
api_wireguard_require-Enforced_example =
    api_wireguard_require-Enforced box tables browser true unguarded

ensure_wireguard_up-Kept_example : Kept server_config (ensure_wireguard_up box unguarded).1.cfg
ensure_wireguard_up-Kept_example = ensure_wireguard_up-Kept box unguarded
