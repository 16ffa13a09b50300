-- ===== src/Client/Restart.antt =====
-- The restart of a consumer: client/app/docker_helper.py, client/app/systemd_helper.py and
-- `run_restart_actions` of client/app/groups.py.
use usbover_ip.Base.{
  String, ◌<>◌, not, Option, none, some, List, [], ◌∷◌, ◌==◌, eqb, if◌then◌else◌, or_text,
  or_default, truthy,
}
use usbover_ip.Base.Exec.{
  Result, ok, err, message, runtime_error, pure, raise, lift, attempt, ◌>>=◌, ◌>>◌, for_each,
}
use usbover_ip.Outside.{Env, Proc}
use usbover_ip.Client.State.{App, Action, log_event}
use usbover_ip.Client.Usbip.{run}
use usbover_ip.Validate.{validate_container_name, validate_service_name}

module _ ⦃env : Env⦄ where
  unfoldable pub check_proc : Proc → String → App Unit
  check_proc proc failure =
      if not (eqb proc.returncode 0)
      then raise (
          runtime_error
            (env.strip (or_text (some proc.stderr) (or_text (some proc.stdout) failure))))
      else pure tt

  unfoldable pub restart_container : String → App Unit
  restart_container name = do
    lift (validate_container_name name)
    proc ← run ("docker" ∷ "restart" ∷ name ∷ [])
    check_proc proc "docker restart failed"

  unfoldable pub restart_service : String → App Unit
  restart_service name = do
    lift (validate_service_name name)
    proc ← run (
        "nsenter" ∷ "--target" ∷ "1" ∷ "--mount" ∷ "--uts" ∷ "--ipc" ∷ "--net" ∷ "--pid" ∷ "--"
        ∷ "systemctl" ∷ "restart" ∷ name ∷ [])
    check_proc proc "systemctl restart failed"

  -- The `except Exception` of the loop, around the restart and the event that reports it.
  unfoldable pub report_restart : String → String → Result (Unit {0}) → App Unit
  report_restart kind name (ok _) = log_event ("restarted " <> kind <> " '" <> name <> "'")
  report_restart kind name (err e) =
      log_event ("failed to restart " <> kind <> " '" <> name <> "': " <> message e)

  unfoldable pub run_action : Option String → String → App Unit
  run_action none name = log_event "skipping restart action with unknown type None"
  run_action (some kind) name =
      if kind == "docker"
      then (do r ← attempt (restart_container name); report_restart kind name r)
      else if kind == "systemd"
      then (do r ← attempt (restart_service name); report_restart kind name r)
      else log_event ("skipping restart action with unknown type " <> env.repr kind)

  unfoldable pub run_restart_actions : Option (List Action) → App Unit
  run_restart_actions actions = for_each (or_default actions []) λ action.
      if truthy action.name then run_action action.kind (or_default action.name "") else pure tt
