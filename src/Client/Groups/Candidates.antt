-- ===== src/Client/Groups/Candidates.antt =====
-- What `attach_group` does before and after it adds a record leaves the configuration alone.
use usbover_ip.Base.{String, Option, none, some, List}
use usbover_ip.Base.Exec.{Result, ok, err, remote_error, group_error}
use usbover_ip.Outside.{Env, Device}
use usbover_ip.Client.State.{Server}
use usbover_ip.Client.Frame.{
  ForeignResult, Frame, Frame-pure, Frame-raise, Frame-try, Frame-log_event,
}
use usbover_ip.Client.Frame.Calls.{fetch_devices-Frame}
use usbover_ip.Client.Groups.{availability, candidate_status, log_stable_path}

module _ ⦃env : Env⦄ where
  availability-Frame :
      (busid : String) (r : Result (List Device)) → ForeignResult r → Frame (availability busid r)
  unfolding availability
  availability-Frame busid (ok devices) h = Frame-pure _
  availability-Frame busid (err (remote_error m)) h = Frame-pure _
  availability-Frame busid (err (group_error m)) h = Frame-raise _ h
  availability-Frame busid (err _) h = Frame-raise _ h

  pub candidate_status-Frame :
      (server : Server) (busid : String) → Frame (candidate_status server busid)
  unfolding candidate_status
  candidate_status-Frame server busid =
      Frame-try (fetch_devices-Frame _ _ _) (availability-Frame busid)

  pub log_stable_path-Frame :
      (prefix : String) (path : Option String) → Frame (log_stable_path prefix path)
  unfolding log_stable_path
  log_stable_path-Frame prefix none = Frame-pure _
  log_stable_path-Frame prefix (some path) = Frame-log_event _
