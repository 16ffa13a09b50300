-- ===== src/Client/Startup.antt =====
-- `on_startup` of client/app/main.py, and the loop of `watchdog_loop` that it starts.
pub mod Started
use usbover_ip.Base.{ℕ, zero, suc, ◌*◌, Option, some}
use usbover_ip.Base.Exec.{Exec, ok, pure, attempt, ◌>>◌}
use usbover_ip.Outside.{Env, second}
use usbover_ip.Client.State.{App, Client, outside}
use usbover_ip.Client.Nodes.{restore_persisted_nodes}
use usbover_ip.Client.Watchdog.{watchdog_tick}
use usbover_ip.Client.Tunnels.{Tools}
use usbover_ip.Client.Tunnels.Restored.{ensure_wireguard_tunnels_up}
use usbover_ip.Client.Api.Attachments.{migrate_attachments_to_id_keys}

module _ ⦃env : Env⦄ where
  -- The body of `while True`, with the default interval.
  unfoldable pub watchdog_turn : App Unit
  watchdog_turn = do attempt watchdog_tick; outside (λ w. (tt, env.sleep (15 * second) w))

  -- The first turns of the loop, which has no end.
  unfoldable pub watchdog_turns : ℕ → App Unit
  watchdog_turns zero = pure tt
  watchdog_turns (suc n) = do watchdog_turn; watchdog_turns n

-- What `asyncio.create_task` is given.
pub data Task : Type 0 where
  watchdog_loop : Task

module _ ⦃env : Env⦄ where
  -- The client with `app.state.watchdog_task`.
  pub record Program : Type 0 where
    pub client : Client env.World
    pub watchdog_task : Option Task

  -- A task runs from the next await on; these are its first turns.
  unfoldable pub run_task : Task → ℕ → App Unit
  run_task watchdog_loop n = watchdog_turns n

  unfoldable pub on_client : {A : Type 0} → App A → Exec Program A
  on_client m p = ((m p.client).0, record p { client = (m p.client).1 })

  unfoldable pub start_watchdog : Exec Program Unit
  start_watchdog p = (ok tt, record p { watchdog_task = some watchdog_loop })

module _ ⦃env : Env⦄ (tools : Tools) where
  -- Each `except Exception` only logs.
  unfoldable pub on_startup : Exec Program Unit
  on_startup = do
    attempt (on_client migrate_attachments_to_id_keys)
    attempt (on_client restore_persisted_nodes)
    attempt (on_client (ensure_wireguard_tunnels_up tools))
    start_watchdog
