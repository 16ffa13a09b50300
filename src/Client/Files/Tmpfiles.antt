-- ===== src/Client/Files/Tmpfiles.antt =====
-- `tmpfiles_available` and `write_tmpfiles_conf`: the lines of systemd-tmpfiles that make the nodes
-- again at boot.
use usbover_ip.Base.{
  String, ◌<>◌, Bool, true, false, none, some, List, [], ◌∷◌, ◌++◌, ◌==◌, if◌then◌else◌,
  truthy_text,
}
use usbover_ip.Base.Dict.{Dict, lookup}
use usbover_ip.Base.Exec.{
  Result, ok, err, is_os_error, pure, raise, attempt, try_except, ◌>>=◌, ◌>>◌,
}
use usbover_ip.Outside.{Env}
use usbover_ip.Client.Files.{StableNode, Files, os, sys, node_dir}

abbrev pub tmpfiles_dir : String
tmpfiles_dir = "/etc/tmpfiles.d"

abbrev pub tmpfiles_path : String
tmpfiles_path = "/etc/tmpfiles.d/usbip-web.conf"

-- `"\n".join(lines) + "\n"`, of at least one line
unfoldable pub unlines : List String → String
unlines [] = ""
unlines (line ∷ lines) = line <> "\n" <> unlines lines

unfoldable pub keys_of {ℓ} : {V : Type ℓ} → Dict V → List String
keys_of [] = []
keys_of ((key, n) ∷ nodes) = key ∷ keys_of nodes

module _ ⦃env : Env⦄ where
  unfoldable pub node_lines : String → StableNode → List String
  node_lines key n =
      let entry =
        "c "
        <> node_dir
        <> "/"
        <> key
        <> " "
        <> env.octal4 n.mode
        <> " "
        <> env.str n.uid
        <> " "
        <> env.str n.gid
        <> " - "
        <> env.str n.major
        <> ":"
        <> env.str n.minor in
      if truthy_text n.target
      then ("# " <> key <> ": last mirrored " <> n.target) ∷ entry ∷ []
      else entry ∷ []

  unfoldable pub keyed_lines : Dict StableNode → List String → List String
  unfolding node_lines
  keyed_lines nodes [] = []
  keyed_lines nodes (key ∷ keys) =
      elim (lookup key nodes) [ none ↦ [] | some n ↦ node_lines key n ] ++ keyed_lines nodes keys

  unfoldable pub tmpfiles_content : Dict StableNode → String
  unfolding keyed_lines keys_of unlines
  tmpfiles_content nodes = unlines (
      "# Managed by usbip-web-client - do not edit; rewritten whenever an attachment changes."
      ∷ "# Recreates this client's stable USB device nodes at boot, before Docker starts,"
      ∷ "# so downstream containers with devices: mappings on these paths can start even"
      ∷ "# though the usbip attach itself happens later. See usbip-web README."
      ∷ ("d " <> node_dir <> " 0755 root root -")
      ∷ keyed_lines nodes (env.sorted (keys_of nodes)))

  unfoldable pub tmpfiles_available : Files Bool
  tmpfiles_available = sys (env.writable_dir tmpfiles_dir)

  unfoldable pub tmpfiles_temporary : String
  tmpfiles_temporary = tmpfiles_path <> ".tmp-" <> env.str env.getpid

  unfoldable pub rewrite : String → Files Bool
  rewrite content = do
    os (env.write_file tmpfiles_temporary content)
    os (env.replace tmpfiles_temporary tmpfiles_path)
    pure true

  -- A file that holds the text already is left alone; one that cannot be read is written.
  unfoldable pub write_if_changed : String → Result String → Files Bool
  write_if_changed content (ok text) = if text == content then pure true else rewrite content
  write_if_changed content (err e) = if is_os_error e then rewrite content else raise e

  unfoldable pub write_tmpfiles_conf : Dict StableNode → Files Bool
  write_tmpfiles_conf nodes = do
    available ← tmpfiles_available
    if available
        then try_except
            (do
              r ← attempt (os (env.read_file tmpfiles_path))
              write_if_changed (tmpfiles_content nodes) r)
            is_os_error (λ e. pure false)
        else pure false
