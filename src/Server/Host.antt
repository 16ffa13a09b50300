-- ===== src/Server/Host.antt =====
-- The box of the server, as common/wireguard_helper.py and server/app/firewall_helper.py use it, and
-- `detect_lan_ip` of common/wireguard_helper.py.
pub mod Startup
pub mod Firewall
use text.Mathlib.TextEquality.{eq_iff}
use usbover_ip.Base.{
  ℕ, String, ◌<>◌, Bool, true, false, not, Option, none, some, List, [], ◌∷◌, ◌++◌, eqb, ◌==◌,
  if◌then◌else◌, or_text, truthy_text, ltb, length,
}
use usbover_ip.Base.Exec.{
  Exc, Result, ok, err, wireguard_error, pure, raise, lift, attempt, ◌>>=◌, ◌>>◌,
}
use usbover_ip.Outside.{Call, Proc}
use usbover_ip.Wireguard.{Box}
use usbover_ip.Server.State.{Env, App, outside, outside_try}
use usbover_ip.Validate.{validate_wg_key}
use usbover_ip.Validate.Cidr.{validate_ipv4_cidr}

-- Calls of the system that only the tunnel and the firewall need.
pub record Host ⦃env : Env⦄ : Type 1 where
  -- `subprocess.run` with a text as its input
  pub run_input : List String → String → env.World → Call Proc × env.World
  -- is the program `nft` installed
  pub nft_installed : env.World → Bool × env.World
  -- the address that a UDP socket to 10.255.255.255 has, `none` for an OSError
  pub route_address : env.World → Option String × env.World
  pub makedirs : String → env.World → Call (Unit {0}) × env.World
  pub mkstemp : String → String → env.World → Call String × env.World
  pub write_text : String → String → env.World → Call (Unit {0}) × env.World
  -- `os.chmod(path, 0o600)`
  pub chmod : String → env.World → Call (Unit {0}) × env.World
  pub replace : String → String → env.World → Call (Unit {0}) × env.World
  pub exists : String → env.World → Bool × env.World
  pub unlink : String → env.World → Call (Unit {0}) × env.World
  -- `s.split("\n")`, `s.split("\t")`, `s.isdigit()` and `int(s)`
  pub split_lines : String → List String
  pub split_tabs : String → List String
  pub isdigit : String → Bool
  pub int : String → ℕ
  pub usbipd_port : ℕ

module _ ⦃env : Env⦄ (host : Host) where
  unfoldable pub run : List String → App Proc
  run args = outside_try (env.run args)

  unfoldable pub detect_lan_ip : App String
  detect_lan_ip = do
    address ← outside host.route_address
    pure (elim address [ none ↦ "127.0.0.1" | some a ↦ a ])

  -- The machine of the server, as common/wireguard_helper.py uses it.
  abbrev pub box : Box env.World
  box = record {
    run = env.run;
    run_input = host.run_input;
    available = env.wireguard_available;
    makedirs = host.makedirs;
    mkstemp = host.mkstemp;
    write_text = host.write_text;
    chmod = host.chmod;
    replace = host.replace;
    exists = host.exists;
    unlink = host.unlink;
    split_lines = host.split_lines;
    split_tabs = host.split_tabs;
    isdigit = host.isdigit;
    int = host.int;
    str = env.str;
    strip = env.strip;
    is_digit = env.is_digit;
    digit_value = env.digit_value;
  }
