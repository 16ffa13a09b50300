-- ===== src/Server/Host/Firewall.antt =====
-- server/app/firewall_helper.py, and `api_wireguard_require` of server/app/main.py.
pub mod Switching
pub mod Enforced
use usbover_ip.Base.{
  ℕ, String, ◌<>◌, Bool, true, false, List, [], ◌∷◌, Option, some, eqb, if◌then◌else◌, or_text, not,
}
use usbover_ip.Base.Exec.{
  Result, ok, err, firewall_error, http_error, pure, raise, lift, attempt, ◌>>=◌, ◌>>◌,
}
use usbover_ip.Outside.{Proc}
use usbover_ip.Server.State.{Env, App, Config, outside, outside_try, read, update, log_event}
use usbover_ip.Server.Host.{Host, run}
use usbover_ip.Validate.{validate_port_number}
use usbover_ip.Validate.Cidr.{validate_ipv4_cidr}
use usbover_ip.Web.{Request, require_session_user, require_safe_ajax}

abbrev pub table : String
table = "usbip_web"

module _ ⦃env : Env⦄ (host : Host) where
  unfoldable pub is_enabled : App Bool
  is_enabled = do
    proc ← run host ("nft" ∷ "list" ∷ "table" ∷ "inet" ∷ table ∷ [])
    pure (eqb proc.returncode 0)

  -- That there is no table is no failure.
  unfoldable pub disable : App Unit
  disable = do run host ("nft" ∷ "delete" ∷ "table" ∷ "inet" ∷ table ∷ []); pure tt

  -- `", ".join(str(p) for p in ports)`
  unfoldable pub port_list : List ℕ → String
  port_list [] = ""
  port_list (p ∷ []) = env.str p
  port_list (p ∷ q ∷ ports) = env.str p <> ", " <> port_list (q ∷ ports)

  unfoldable pub rules : String → List ℕ → String
  unfolding port_list
  rules subnet ports =
      "table inet usbip_web {\n    chain input {\n"
      <> "        type filter hook input priority filter; policy accept;\n"
      <> "        tcp dport { "
      <> port_list ports
      <> " } ip saddr "
      <> subnet
      <> " accept\n        tcp dport { "
      <> port_list ports
      <> " } ip saddr 127.0.0.1 accept\n        tcp dport { "
      <> port_list ports
      <> " } drop\n    }\n}\n"

  unfoldable pub validate_ports : List ℕ → App Unit
  validate_ports [] = pure tt
  validate_ports (p ∷ ports) = do
    lift (validate_port_number (some (false, p)))
    validate_ports ports

  unfoldable pub check_nft : Proc → App Unit
  check_nft proc =
      if eqb proc.returncode 0
      then pure tt
      else raise (
          firewall_error (
            env.strip (or_text (some proc.stderr) (or_text (some proc.stdout) "nft apply failed"))))

  unfoldable pub enable : String → List ℕ → App Unit
  enable subnet ports = do
    lift (validate_ipv4_cidr env.is_digit env.digit_value subnet)
    validate_ports ports
    disable
    proc ← outside_try (host.run_input ("nft" ∷ "-f" ∷ "-" ∷ []) (rules subnet ports))
    check_nft proc

  unfoldable pub firewall_failure : Result (Unit {0}) → App Unit
  firewall_failure (ok u) = pure u
  firewall_failure (err (firewall_error m)) = raise (http_error 502 m)
  firewall_failure (err e) = raise e

  unfoldable pub require_tunnel : Bool → Config → Config
  require_tunnel enabled d = record d { require_wireguard = enabled }

  unfoldable pub enforce : Bool → Config → App Bool
  enforce enabled cfg = do
    r ← attempt (if enabled then enable cfg.wireguard.subnet (host.usbipd_port ∷ []) else disable)
    firewall_failure r
    update (require_tunnel enabled)
    log_event (
        "wireguard: tunnel-only enforcement for port "
        <> env.str host.usbipd_port
        <> " "
        <> (if enabled then "enabled" else "disabled"))
    pure enabled

  unfoldable pub set_enforced : Bool → App Bool
  set_enforced enabled = do cfg ← read; enforce enabled cfg

  unfoldable pub api_wireguard_require : Request → Bool → App Bool
  api_wireguard_require request enabled = do
    lift (require_session_user request)
    lift (require_safe_ajax request)
    installed ← outside host.nft_installed
    if installed
        then set_enforced enabled
        else raise (http_error 501 "nftables not installed on this server")
