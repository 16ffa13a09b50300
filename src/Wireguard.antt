-- ===== src/Wireguard.antt =====
-- common/wireguard_helper.py: the interface of a tunnel, its keys, its file and its peers. Both
-- programs call it, each on its own box.
pub mod Status
pub mod Local
pub mod Links
pub mod Raised
use usbover_ip.Base.{
  ℕ, String, ◌<>◌, Bool, true, false, Option, none, some, List, [], ◌∷◌, ◌++◌, eqb, ◌==◌,
  if◌then◌else◌, or_text, truthy_text,
}
use usbover_ip.Base.Exec.{
  Result, ok, err, wireguard_error, Exec, pure, raise, lift, attempt, ◌>>=◌, ◌>>◌, other,
}
use usbover_ip.Outside.{Call, returned, raised, Proc}
use usbover_ip.Validate.{validate_wg_key, validate_endpoint}
use usbover_ip.Validate.Cidr.{validate_ipv4_cidr}

abbrev pub conf_dir : String
conf_dir = "/etc/wireguard"

-- What the module calls of the machine it runs on, whose state is in `W`.
pub record Box (W : Type 0) : Type 0 where
  -- `subprocess.run` of a list of arguments, and with a text as its input
  pub run : List String → W → Call Proc × W
  pub run_input : List String → String → W → Call Proc × W
  -- `shutil.which("wg") and shutil.which("wg-quick")`
  pub available : W → Bool × W
  pub makedirs : String → W → Call (Unit {0}) × W
  pub mkstemp : String → String → W → Call String × W
  pub write_text : String → String → W → Call (Unit {0}) × W
  -- `os.chmod(path, 0o600)`
  pub chmod : String → W → Call (Unit {0}) × W
  pub replace : String → String → W → Call (Unit {0}) × W
  pub exists : String → W → Bool × W
  pub unlink : String → W → Call (Unit {0}) × W
  -- `s.split("\n")`, `s.split("\t")`, `s.isdigit()`, `int(s)`, `str(n)` and `s.strip()`
  pub split_lines : String → List String
  pub split_tabs : String → List String
  pub isdigit : String → Bool
  pub int : String → ℕ
  pub str : ℕ → String
  pub strip : String → String
  pub is_digit : ℕ → Bool
  pub digit_value : ℕ → ℕ

abbrev pub outcome : {A : Type 0} → Call A → Result A
outcome (returned a) = ok a
outcome (raised m) = err (other m)

module _ {W : Type 0} where
  unfoldable pub ask : {A : Type 0} → (W → A × W) → Exec W A
  ask f w = (ok (f w).0, (f w).1)

  unfoldable pub call : {A : Type 0} → (W → Call A × W) → Exec W A
  call f w = (outcome (f w).0, (f w).1)

module _ {W : Type 0} (box : Box W) where
  unfoldable pub run : List String → Exec W Proc
  run args = call (box.run args)

  -- A command that fails is a WireguardError.
  unfoldable pub check_wg : String → Proc → Exec W Unit
  check_wg fallback proc =
      if eqb proc.returncode 0
      then pure tt
      else raise (wireguard_error (box.strip (or_text (some proc.stderr) fallback)))

  unfoldable pub generate_keypair : Exec W (String × String)
  unfolding check_wg
  generate_keypair = do
    priv ← run ("wg" ∷ "genkey" ∷ [])
    check_wg "wg genkey failed" priv
    key ← call (box.run_input ("wg" ∷ "pubkey" ∷ []) (box.strip priv.stdout))
    check_wg "wg pubkey failed" key
    pure (box.strip priv.stdout, box.strip key.stdout)

  -- A port of 0 is none.
  unfoldable pub port_line : Option ℕ → String
  port_line none = ""
  port_line (some port) = if eqb port 0 then "" else "ListenPort = " <> box.str port <> "\n"

  unfoldable pub interface_text : String → String → Option ℕ → String
  unfolding port_line
  interface_text private_key address listen_port =
      "[Interface]\n"
      <> "PrivateKey = "
      <> private_key
      <> "\n"
      <> "Address = "
      <> address
      <> "\n"
      <> port_line listen_port

  -- `except BaseException`
  unfoldable pub clean_up : String → Result (Unit {0}) → Exec W Unit
  clean_up tmp_path (ok u) = pure u
  clean_up tmp_path (err e) = do
    left ← ask (box.exists tmp_path)
    if left then (do call (box.unlink tmp_path); raise e) else raise e

  unfoldable pub write_interface_conf : String → String → Option ℕ → String → Exec W Unit
  unfolding interface_text clean_up
  write_interface_conf private_key address listen_port interface = do
    lift (validate_wg_key private_key)
    lift (validate_ipv4_cidr box.is_digit box.digit_value address)
    call (box.makedirs conf_dir)
    tmp_path ← call (box.mkstemp conf_dir (".tmp-" <> interface <> "-"))
    r ← attempt (do
      call (box.write_text tmp_path (interface_text private_key address listen_port))
      call (box.chmod tmp_path)
      call (box.replace tmp_path (conf_dir <> "/" <> interface <> ".conf")))
    clean_up tmp_path r

  unfoldable pub interface_exists : String → Exec W Bool
  interface_exists interface = do
    proc ← run ("ip" ∷ "link" ∷ "show" ∷ interface ∷ [])
    pure (eqb proc.returncode 0)

  unfoldable pub ensure_interface_up : String → String → Option ℕ → String → Exec W Unit
  ensure_interface_up private_key address listen_port interface = do
    write_interface_conf private_key address listen_port interface
    there ← interface_exists interface
    if there then pure tt else do
      proc ← run ("wg-quick" ∷ "up" ∷ interface ∷ [])
      check_wg (or_text (some proc.stdout) "wg-quick up failed") proc

  unfoldable pub tear_down : String → Exec W Unit
  tear_down interface = do
    there ← interface_exists interface
    if there
        then (do
          proc ← run ("wg-quick" ∷ "down" ∷ interface ∷ [])
          check_wg (or_text (some proc.stdout) "wg-quick down failed") proc)
        else pure tt

  -- `endpoint` is None or a text; an empty text is none either. A route that is not installed is only
  -- logged, so `apply_peer` returns.
  unfoldable pub set_peer : String → String → List String → String → Exec W Unit
  set_peer pubkey allowed_ips more interface = do
    proc ←
        run
          (("wg" ∷ "set" ∷ interface ∷ "peer" ∷ pubkey ∷ "allowed-ips" ∷ allowed_ips ∷ []) ++ more)
    check_wg (or_text (some proc.stdout) "wg set failed") proc
    run ("ip" ∷ "route" ∷ "replace" ∷ allowed_ips ∷ "dev" ∷ interface ∷ [])
    pure tt

  unfoldable pub endpoint_args : Option String → Result (List String)
  endpoint_args none = ok []
  endpoint_args (some endpoint) =
      if truthy_text endpoint
      then elim (validate_endpoint box.is_digit endpoint) [
        | ok accepted ↦ ok ("endpoint" ∷ endpoint ∷ [])
        | err e ↦ err e
      ]
      else ok []

  unfoldable pub apply_peer : String → String → Option String → String → Exec W Unit
  apply_peer pubkey allowed_ips endpoint interface = do
    lift (validate_wg_key pubkey)
    lift (validate_ipv4_cidr box.is_digit box.digit_value allowed_ips)
    more ← lift (endpoint_args endpoint)
    set_peer pubkey allowed_ips more interface

  unfoldable pub remove_peer : String → String → Exec W Unit
  remove_peer pubkey interface = do
    lift (validate_wg_key pubkey)
    run ("wg" ∷ "set" ∷ interface ∷ "peer" ∷ pubkey ∷ "remove" ∷ [])
    pure tt
