-- ===== src/Server/Notify.antt =====
-- `notify_clients_device_available` of server/app/main.py: a push to every registered client.
use usbover_ip.Base.{ℕ, String, ◌<>◌, not, eqb, if◌then◌else◌, truthy_text}
use usbover_ip.Base.Exec.{Result, ok, err, message, pure, attempt, ◌>>=◌, for_each}
use usbover_ip.Server.State.{Env, App, ClientRecord, outside_try, read, log_event}

module _ ⦃env : Env⦄ where
  unfoldable pub report_push : ClientRecord → String → Result ℕ → App Unit
  report_push client busid (ok status) =
      if not (eqb status 200)
      then log_event ("notify " <> client.name <> " about " <> busid <> ": HTTP " <> env.str status)
      else pure tt
  report_push client busid (err e) =
      log_event ("could not notify " <> client.name <> " about " <> busid <> ": " <> message e)

  unfoldable pub push_to : String → String → String × ClientRecord → App Unit
  push_to busid serial (client_id, client) =
      if truthy_text client.token
      then (do
        r ← attempt (
            outside_try (
              env.post (record {
                url =
                    "http://"
                    <> client.host
                    <> ":"
                    <> env.str client.api_port
                    <> "/api/remote/devices/"
                    <> busid
                    <> "/reconnect";
                token = client.token;
                serial = serial;
              })))
        report_push client busid r)
      else pure tt

  unfoldable pub notify_clients_device_available : String → String → App Unit
  notify_clients_device_available busid serial = do
    cfg ← read
    for_each cfg.clients (push_to busid serial)
