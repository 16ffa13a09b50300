-- ===== src/Client/Docker.antt =====
-- client/app/docker_helper.py and the handlers of docker, and what client/app/systemd_helper.py asks.
use usbover_ip.Base.{
  String, Bool, false, not, ◌&&◌, List, [], ◌∷◌, ◌++◌, eqb, if◌then◌else◌, truthy_text,
}
use usbover_ip.Base.Exec.{
  Result, ok, err, validation_error, runtime_error, http_error, pure, raise, lift, attempt, ◌>>=◌,
  ◌>>◌,
}
use usbover_ip.Outside.{Env, Proc}
use usbover_ip.Client.State.{App, outside}
use usbover_ip.Client.Usbip.{run}
use usbover_ip.Client.Restart.{restart_container}
use usbover_ip.Client.Api.Servers.{guard_browser}
use usbover_ip.Web.{Request, require_session_user}

pub record Container : Type 0 where
  pub id : String
  pub name : String
  pub status : String
  pub image : String

-- `_SOCK_PATH.exists()`, `shutil.which("docker") is not None`, `s.splitlines()` and
-- `s.split("|", 3)`.
pub record Docker ⦃env : Env⦄ : Type 1 where
  pub sock_exists : env.World → Bool × env.World
  pub docker_installed : env.World → Bool × env.World
  pub splitlines : String → List String
  pub split_bar : String → List String

unfoldable pub container_of_parts : List String → List Container
container_of_parts (id ∷ name ∷ status ∷ image ∷ []) =
    record { id = id; name = name; status = status; image = image } ∷ []
container_of_parts parts = []

module _ ⦃env : Env⦄ (docker : Docker) where
  unfoldable pub available : App Bool
  available = do
    sock ← outside docker.sock_exists
    if sock then outside docker.docker_installed else pure false

  unfoldable pub containers_of_lines : List String → List Container
  unfolding container_of_parts
  containers_of_lines [] = []
  containers_of_lines (line ∷ lines) =
      container_of_parts (docker.split_bar line) ++ containers_of_lines lines

  unfoldable pub containers_of : Proc → List Container
  unfolding containers_of_lines
  containers_of proc =
      if not (eqb proc.returncode 0)
      then []
      else containers_of_lines (docker.splitlines proc.stdout)

  unfoldable pub list_containers : App (List Container)
  list_containers = do
    found ← available
    if found
        then (do
          proc ← run (
              "docker" ∷ "ps" ∷ "-a" ∷ "--format" ∷ "{{.ID}}|{{.Names}}|{{.Status}}|{{.Image}}"
              ∷ [])
          pure (containers_of proc))
        else pure []

  unfoldable pub api_docker_available : Request → App Bool
  api_docker_available request = do lift (require_session_user request); available

  unfoldable pub api_docker_containers : Request → App (List Container)
  api_docker_containers request = do lift (require_session_user request); list_containers

  unfoldable pub docker_failure : Result (Unit {0}) → App Unit
  docker_failure (ok u) = pure u
  docker_failure (err (validation_error m)) = raise (http_error 502 m)
  docker_failure (err (runtime_error m)) = raise (http_error 502 m)
  docker_failure (err e) = raise e

  unfoldable pub api_docker_restart : Request → String → App Unit
  api_docker_restart request name = do
    guard_browser request
    r ← attempt (restart_container name)
    docker_failure r

  -- `available` of systemd_helper.py
  unfoldable pub systemd_available : App Bool
  systemd_available = do
    proc ← run (
        "nsenter" ∷ "--target" ∷ "1" ∷ "--mount" ∷ "--uts" ∷ "--ipc" ∷ "--net" ∷ "--pid" ∷ "--"
        ∷ "which" ∷ "systemctl" ∷ [])
    pure (eqb proc.returncode 0 && truthy_text (env.strip proc.stdout))
