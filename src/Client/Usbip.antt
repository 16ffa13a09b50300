-- ===== src/Client/Usbip.antt =====
-- client/app/usbip_client.py: attaching and detaching devices, and the ports in use.
use mathlib.Core.List.{tail, foldl}
use usbover_ip.Base.{
  ℕ, zero, suc, String, ◌<>◌, false, not, Option, none, some, List, [], ◌∷◌, ◌++◌, map, ◌==◌, ltb,
  eqb, if◌then◌else◌, or_text, contains,
}
use usbover_ip.Base.Dict.{Dict, insert}
use usbover_ip.Base.Exec.{usbip_error, pure, raise, lift, ◌>>=◌, ◌>>◌}
use usbover_ip.Outside.{Env, Proc}
use usbover_ip.Client.State.{App, outside, outside_try}
use usbover_ip.Validate.{validate_hostname, validate_port_number, validate_busid}

pub record AttachedPort : Type 0 where
  pub port : String
  pub local_busid : Option String

module _ ⦃env : Env⦄ where
  unfoldable pub run : List String → App Proc
  run args = outside_try (env.run args)

  -- An empty slot shows the bus id 0-0.
  unfoldable pub port_of_match : Option (String × String) → List AttachedPort
  port_of_match none = []
  port_of_match (some (port, busid)) =
      if busid == "0-0"
      then []
      else record { port = env.str (env.int port); local_busid = some busid } ∷ []

  unfoldable pub ports_of_lines : List String → List AttachedPort
  unfolding port_of_match
  ports_of_lines [] = []
  ports_of_lines (line ∷ lines) = port_of_match (env.match_status_line line) ++ ports_of_lines lines

  -- A file that cannot be read is skipped, and so is the header of one that can.
  unfoldable pub ports_of_files : List (Option (List String)) → List AttachedPort
  unfolding ports_of_lines
  ports_of_files [] = []
  ports_of_files (none ∷ files) = ports_of_files files
  ports_of_files (some lines ∷ files) = ports_of_lines (tail lines) ++ ports_of_files files

  unfoldable pub list_ports_via_cli : App (List AttachedPort)
  list_ports_via_cli = do
    proc ← run ("usbip" ∷ "port" ∷ [])
    pure (
        map (λ (port, busid). record { port = env.str (env.int port); local_busid = some busid })
          (env.find_port_blocks proc.stdout))

  -- `_list_ports_via_sysfs`, and `list_ports`, which falls back on the command
  unfoldable pub ports_or_cli : List (Option (List String)) → App (List AttachedPort)
  ports_or_cli [] = list_ports_via_cli
  ports_or_cli (file ∷ files) = pure (ports_of_files (file ∷ files))

  unfoldable pub list_ports : App (List AttachedPort)
  list_ports = do files ← outside env.status_files; ports_or_cli files

  unfoldable pub live_port_map : App (Dict (Option String))
  live_port_map = do
    ports ← list_ports
    pure (foldl (λ d p. insert p.port p.local_busid d) [] ports)

-- `[p for p in after_ports if p.port not in before_ports]`
unfoldable pub fresh_ports : List String → List AttachedPort → List AttachedPort
fresh_ports before [] = []
fresh_ports before (p ∷ ports) =
    let rest = fresh_ports before ports in if contains before p.port then rest else p ∷ rest

module _ ⦃env : Env⦄ where
  -- The first of the sort by number, which is stable.
  unfoldable pub lowest : AttachedPort → List AttachedPort → AttachedPort
  lowest p [] = p
  lowest p (q ∷ ports) = lowest (if ltb (env.int q.port) (env.int p.port) then q else p) ports

  -- Up to n looks at the ports, 0.3 seconds apart, until a new one shows.
  unfoldable pub poll : ℕ → List String → App (List AttachedPort)
  poll zero before = pure []
  poll (suc n) before = do
    after ← list_ports
    elim (fresh_ports before after) [
      | [] ↦ (do outside (λ w. (tt, env.sleep 300000 w)); poll n before)
      | p ∷ ports ↦ pure (p ∷ ports)
    ]

  unfoldable pub choose_port : String → List AttachedPort → App AttachedPort
  choose_port output [] = raise (
      usbip_error
        ("usbip attach reported success but no new local port appeared: " <> env.strip output))
  choose_port output (p ∷ ports) = pure (lowest p ports)

  unfoldable pub attach : String → ℕ → String → App AttachedPort
  attach host usbip_port busid = do
    lift (validate_hostname host)
    port ← lift (validate_port_number (some (false, usbip_port)))
    lift (validate_busid env.is_digit busid)
    before ← list_ports
    proc ← run ("usbip" ∷ "--tcp-port" ∷ env.str port ∷ "attach" ∷ "-r" ∷ host ∷ "-b" ∷ busid ∷ [])
    let output = proc.stdout <> "\n" <> proc.stderr
    if not (eqb proc.returncode 0)
        then raise (usbip_error (or_text (some (env.strip output)) "usbip attach failed"))
        else do ports ← poll 10 (map (λ p. p.port) before); choose_port output ports

  unfoldable pub detach : String → App Unit
  detach local_port =
      if not (env.isdigit local_port)
      then raise (usbip_error ("invalid local port: " <> env.repr local_port))
      else do
        proc ← run ("usbip" ∷ "detach" ∷ "-p" ∷ local_port ∷ [])
        if not (eqb proc.returncode 0)
            then raise (
                usbip_error (
                  env.strip (
                    or_text (some proc.stderr) (or_text (some proc.stdout) "usbip detach failed"))))
            else pure tt
