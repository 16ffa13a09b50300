-- ===== src/Client/Backoff.antt =====
-- Failed reconnects in client/app/groups.py: the count, the backoff of the watchdog, and the request
-- for a forced rebind.
pub mod Delay
pub mod Records
use usbover_ip.Base.{
  ℕ, ◌+◌, ◌-◌, ◌*◌, ◌^◌, min, String, ◌<>◌, Bool, true, false, not, ◌&&◌, ◌||◌, Option, none, some,
  List, ◌∷◌, contains, ltb, leb, eqb, if◌then◌else◌, or_text, or_default, truthy,
}
use usbover_ip.Base.Dict.{Dict, lookup, insert}
use usbover_ip.Base.Exec.{
  Result, ok, err, remote_error, pure, raise, attempt, modify, ◌>>=◌, ◌>>◌, gets,
}
use text.Mathlib.Text.{find?}
use usbover_ip.Outside.{Env, second}
use usbover_ip.Client.State.{
  App, Attachment, Server, Client, outside, read, update_attachments, log_event,
}
use usbover_ip.Client.Remote.{request_rebind}

abbrev pub backoff_threshold : ℕ
backoff_threshold = 3

abbrev pub backoff_base_seconds : ℕ
backoff_base_seconds = 60

abbrev pub backoff_max_seconds : ℕ
backoff_max_seconds = 1800

abbrev pub force_rebind_after_failures : ℕ
force_rebind_after_failures = 6

abbrev pub startup_rebind_grace_seconds : ℕ
startup_rebind_grace_seconds = 180

-- The seconds of the pause after `count` failures, from the threshold on.
unfoldable pub backoff_delay : ℕ → ℕ
backoff_delay count =
    min (backoff_base_seconds * 2 ^ (count - backoff_threshold)) backoff_max_seconds

unfoldable pub reset_failures : String → Dict Attachment → Dict Attachment
reset_failures att_id d = elim (lookup att_id d) [
  | none ↦ d
  | some att ↦
      if not (eqb (or_default att.failure_count 0) 0) || truthy att.next_retry_at
      then insert att_id (record att { failure_count = some 0; next_retry_at = none }) d
      else d
]

-- A text that is no date does not stop the watchdog.
unfoldable pub still_ahead : Option ℕ → ℕ → Bool
still_ahead none now = false
still_ahead (some t) now = ltb now t

module _ ⦃env : Env⦄ where
  -- `isoformat() + "Z"` of a point in time
  abbrev pub stamp : ℕ → String
  stamp t = env.isoformat t <> "Z"

  -- The two ways to count a failure: below the threshold, and from it on.
  unfoldable pub count_only : String → Attachment → ℕ → App ℕ
  count_only att_id att count = do
    update_attachments (insert att_id (record att { failure_count = some count }))
    pure count

  unfoldable pub count_and_back_off : String → Attachment → ℕ → App ℕ
  count_and_back_off att_id att count = do
    let delay = backoff_delay count
    now ← outside env.utcnow
    log_event (
        or_text att.label att.busid
        <> ": "
        <> env.str count
        <> " consecutive reconnect failures, backing off the watchdog for "
        <> env.str delay
        <> "s (a server push still retries immediately)")
    update_attachments (
        insert att_id (record att {
          failure_count = some count;
          next_retry_at = some (stamp (now + delay * second));
        }))
    pure count

  unfoldable pub bump : String → Attachment → App ℕ
  bump att_id att =
      let count = or_default att.failure_count 0 + 1 in
      if leb backoff_threshold count
      then count_and_back_off att_id att count
      else count_only att_id att count

  unfoldable pub bump_found : String → Option Attachment → App ℕ
  bump_found att_id none = pure 0
  bump_found att_id (some att) = bump att_id att

  unfoldable pub note_reconnect_failure : String → App ℕ
  note_reconnect_failure att_id = do cfg ← read; bump_found att_id (lookup att_id cfg.attachments)

  unfoldable pub note_reconnect_success : String → App Unit
  note_reconnect_success att_id = update_attachments (reset_failures att_id)

  unfoldable pub watchdog_should_skip : Attachment → App Bool
  watchdog_should_skip att = elim att.next_retry_at [
    | none ↦ pure false
    | some text ↦
        if truthy (some text)
        then (do
          now ← outside env.utcnow
          pure (still_ahead (env.fromisoformat (env.rstrip_z text)) now))
        else pure false
  ]

  unfoldable pub is_busy_error : String → Bool
  is_busy_error error = elim (find? (env.lower error) "busy") [ none ↦ false | some i ↦ true ]

  unfoldable pub report_rebind : String → String → Server → Result (Unit {0}) → App Unit
  report_rebind label why server (ok _) = log_event (
      label <> ": " <> why <> ", requested a force unbind/rebind on " <> server.name
      <> " to clear a possible stale export")
  report_rebind label why server (err (remote_error m)) =
      log_event (label <> ": force rebind request to " <> server.name <> " failed: " <> m)
  report_rebind label why server (err e) = raise e

  unfoldable pub force_rebind : String → String → Server → String → App Unit
  force_rebind label why server busid = do
    r ← attempt (request_rebind server.host server.api_port server.token busid)
    report_rebind label why server r

  -- The startup path: once for an attachment in the life of the process.
  unfoldable pub startup_rebind : String → String → Server → String → App Unit
  startup_rebind att_id label server busid = do
    requested ← gets (λ s. s.rebind_requested)
    if contains requested att_id then pure tt else do
      now ← outside env.monotonic
      started ← gets (λ s. s.started)
      if ltb now (started + startup_rebind_grace_seconds * second)
          then (do
            modify (λ s. record s { rebind_requested = att_id ∷ s.rebind_requested })
            force_rebind label
                "'device busy' right after this client started (stale export from before a reboot)"
                server busid)
          else pure tt

  unfoldable pub maybe_force_rebind : Attachment → String → Server → String → ℕ → String → App Unit
  maybe_force_rebind att att_id server busid failure_count error =
      let label = or_text att.label busid in
      if not (or_default att.auto_rebind_on_backoff false)
      then pure tt
      else if eqb failure_count force_rebind_after_failures
      then force_rebind label (env.str failure_count <> " consecutive failures") server busid
      else if is_busy_error error
      then startup_rebind att_id label server busid
      else pure tt
