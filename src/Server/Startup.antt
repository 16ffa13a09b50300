-- ===== src/Server/Startup.antt =====
-- `on_startup` of server/app/main.py after the daemon has started, and the loop that it starts.
use usbover_ip.Base.{ℕ, zero, suc, true, false}
use usbover_ip.Base.Exec.{pure, attempt, ◌>>◌}
use usbover_ip.Server.State.{Env, App, outside}
use usbover_ip.Server.Bound.{ensure_shared_devices_bound}
use usbover_ip.Server.Host.{Host}
use usbover_ip.Server.Host.Startup.{ensure_wireguard_up}

module _ ⦃env : Env⦄ (host : Host) where
  -- The daemon's start stands with the supervisor. `except Exception` only logs.
  unfoldable pub on_startup : App Unit
  on_startup = do ensure_shared_devices_bound true; attempt (ensure_wireguard_up host); pure tt

-- `sleep` waits for 15 seconds.
module _ ⦃env : Env⦄ (sleep : env.World → env.World) where
  -- The body of `while True`.
  unfoldable pub watchdog_turn : App Unit
  watchdog_turn = do
    outside (λ w. (tt, sleep w))
    attempt (ensure_shared_devices_bound false)
    pure tt

  -- The first turns of the loop, which has no end.
  unfoldable pub watchdog_turns : ℕ → App Unit
  watchdog_turns zero = pure tt
  watchdog_turns (suc n) = do watchdog_turn; watchdog_turns n
