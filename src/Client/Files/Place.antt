-- ===== src/Client/Files/Place.antt =====
-- `_place_node`, `update_attachment_node`, `place_persisted_node`, `attachment_node_path` and
-- `remove_attachment_node`: the client's node at the path of a key.
pub mod Posix
pub mod Mirror
pub mod Replacing
pub mod Keeps
pub mod Total
use usbover_ip.Base.{
  ℕ, String, ◌<>◌, Bool, not, ◌&&◌, ◌||◌, Option, none, some, eqb, if◌then◌else◌, truthy_text,
  or_text,
}
use usbover_ip.Base.Exec.{
  Exc, file_not_found, Result, ok, err, is_os_error, is_permission_error, pure, raise, attempt,
  try_except, ◌>>=◌, ◌>>◌,
}
use usbover_ip.Outside.{Env, Stat}
use usbover_ip.Client.Files.{
  DevPaths, StableNode, Files, os, node_dir, node_path, s_imode, s_ischr, s_islnk,
}

module _ ⦃env : Env⦄ where
  -- A character device with the numbers of the node.
  unfoldable pub is_mirror : StableNode → Stat → Bool
  is_mirror node cur = s_ischr cur.st_mode && eqb cur.st_rdev (env.makedev node.major node.minor)

  unfoldable pub same_access : StableNode → Stat → Bool
  same_access node cur =
      eqb (s_imode cur.st_mode) node.mode && eqb cur.st_uid node.uid && eqb cur.st_gid node.gid

  -- An existing node keeps its inode; an access that cannot be changed stays.
  unfoldable pub refresh_access : String → StableNode → Stat → Files Unit
  refresh_access path node cur =
      if same_access node cur
      then pure tt
      else try_except (do os (env.chmod path node.mode); os (env.chown path node.uid node.gid))
          is_os_error (λ e. pure tt)

  unfoldable pub make_node : String → StableNode → Files Unit
  make_node tmp_path node = do
    os (env.mknod tmp_path node.mode (env.makedev node.major node.minor))
    os (env.chmod tmp_path node.mode)
    os (env.chown tmp_path node.uid node.gid)

  -- Where the container may not make nodes, a symbolic link.
  unfoldable pub make_node_or_link : String → StableNode → Files Unit
  make_node_or_link tmp_path node =
      try_except (make_node tmp_path node) is_permission_error
        (λ e. if truthy_text node.target then os (env.symlink node.target tmp_path) else raise e)

  unfoldable pub temporary : String → String
  temporary path = path <> ".tmp-" <> env.str env.getpid

  unfoldable pub replace_node : String → StableNode → Files (Option String)
  replace_node path node =
      try_except
        (do
          make_node_or_link (temporary path) node
          os (env.replace (temporary path) path)
          pure (some path))
        is_os_error
        (λ e. do
          try_except (os (env.remove (temporary path))) is_os_error (λ e. pure tt)
          pure none)

  unfoldable pub place_over : String → StableNode → Result Stat → Files (Option String)
  place_over path node (ok cur) =
      if is_mirror node cur
      then (do refresh_access path node cur; pure (some path))
      else replace_node path node
  place_over path node (err (file_not_found m)) = replace_node path node
  place_over path node (err e) = raise e

  unfoldable pub place_node : String → StableNode → Files (Option String)
  place_node key node = do
    os (env.makedirs node_dir)
    r ← attempt (os (env.lstat (node_path key)))
    place_over (node_path key) node r

  unfoldable pub mirror_of : String → Stat → StableNode
  mirror_of target st = record {
    target = target;
    major = env.major st.st_rdev;
    minor = env.minor st.st_rdev;
    mode = s_imode st.st_mode;
    uid = st.st_uid;
    gid = st.st_gid;
  }

  unfoldable pub mirror_stat : String → String → Result Stat → Files (Option (String × StableNode))
  mirror_stat key target (ok st) =
      if s_ischr st.st_mode
      then (do
        placed ← try_except (place_node key (mirror_of target st)) is_os_error (λ e. pure none)
        pure (elim placed [ none ↦ none | some path ↦ some (path, mirror_of target st) ]))
      else pure none
  mirror_stat key target (err e) = if is_os_error e then pure none else raise e

  unfoldable pub update_attachment_node : String → DevPaths → Files (Option (String × StableNode))
  update_attachment_node key dev_paths =
      let target = or_text dev_paths.tty (or_text dev_paths.raw "") in
      if truthy_text target
      then (do r ← attempt (os (env.stat target)); mirror_stat key target r)
      else pure none

  unfoldable pub place_persisted_node : String → StableNode → Files (Option String)
  place_persisted_node key node = try_except (place_node key node) is_os_error (λ e. pure none)

  unfoldable pub path_if_node : String → Result Stat → Files (Option String)
  path_if_node path (ok st) =
      if s_ischr st.st_mode || s_islnk st.st_mode then pure (some path) else pure none
  path_if_node path (err e) = if is_os_error e then pure none else raise e

  unfoldable pub attachment_node_path : String → Files (Option String)
  attachment_node_path key = do
    r ← attempt (os (env.lstat (node_path key)))
    path_if_node (node_path key) r

  unfoldable pub remove_attachment_node : String → Files Unit
  remove_attachment_node key =
      try_except (os (env.remove (node_path key))) is_os_error (λ e. pure tt)
