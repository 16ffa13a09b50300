-- ===== src/Examples/Joining.antt =====
-- Runs of the registration, of the joining of a tunnel and of the start of the client.
use usbover_ip.Base.{ℕ, ◌≡◌, refl, ap, sym, none, [], ◌∷◌, some}
use mathlib.Core.Option.{some-injective}
use usbover_ip.Base.Dict.{lookup}
use usbover_ip.Base.Exec.{ok}
use usbover_ip.Base.Exec.Triple.{Outcome}
use usbover_ip.Client.State.{Client, Server}
use usbover_ip.Client.Tunnels.{api_enable_wireguard}
use usbover_ip.Client.Startup.{Program, watchdog_loop, run_task, on_startup}
use usbover_ip.Client.Startup.Started.{Started, on_startup-Started}
use usbover_ip.Client.Tunnels.Wired.{address}
use usbover_ip.Client.Tunnels.Joined.{Joined, api_enable_wireguard-Joined}
use usbover_ip.Server.State as Remote
use usbover_ip.Server.Tunnel.{host_address, api_wireguard_register}
use usbover_ip.Server.Tunnel.Addresses.{Numbered, WellNumbered}
use usbover_ip.Server.Tunnel.Registered.{Answered, api_wireguard_register-Answered}
use usbover_ip.Examples.Raising.{Machine, bare}
use usbover_ip.Examples.Home.{config, hub}
use usbover_ip.Examples.Gateway.{
  browser, server_config, sharing, numbers, tunnel, tunnel-WellNumbered, ann,
}
use usbover_ip.Examples.Town.{key, Registry, Process, Town, host, tools, wired, links, settled}

printed : Numbered
printed = record { injective = numbers.injective }

abbrev keyed : Remote.Wireguard
keyed = record tunnel { public_key = key; listen_port = 3 }

well : WellNumbered keyed
unfolding host_address
well = record { used = tunnel-WellNumbered.used; distinct = tunnel-WellNumbered.distinct }

-- the token of the client `ann` at the server is "t"
abbrev process : Process
process = record sharing {
  cfg = record server_config {
    clients = ("ann", record ann { token = "t" }) ∷ [];
    wireguard = keyed;
  };
}

abbrev here : Client (Process × Machine)
here = record {
  cfg = config;
  events = [];
  rebind_requested = [];
  started = 0;
  world = (process, bare);
}

api_wireguard_register-Answered_example :
    Outcome
      (λ reg s. Answered host printed "ann" key reg s.cfg)
      (λ _ s. WellNumbered s.cfg.wireguard)
      (api_wireguard_register host "client:ann" key process).0
      (api_wireguard_register host "client:ann" key process).1
api_wireguard_register-Answered_example =
    api_wireguard_register-Answered host printed "client:ann" key process well

located :
    (server : Server)
    → lookup "hub" config.servers ≡ some server
    → address server.host server.api_port ≡ "http://10.0.0.5:8000"
unfolding lookup
located server e =
    ap (λ (x : Server). address x.host x.api_port) (sym (some-injective hub server e))

api_enable_wireguard-Joined_example :
    Outcome
      (Joined tools host printed wired config.servers "hub" links settled)
      (λ _ s. s.cfg.servers ≡ config.servers)
      (api_enable_wireguard tools browser "hub" here).0
      (api_enable_wireguard tools browser "hub" here).1
api_enable_wireguard-Joined_example =
    api_enable_wireguard-Joined tools host printed wired browser "hub" links settled here located
      well (unfold lookup in (refl, tt))

-- a tunnel to bring up again
abbrev tunneled : Client (Process × Machine)
tunneled = record here {
  cfg = record config {
    wireguard = record { private_key = key; public_key = key };
    servers =
        (
          "hub",
          record hub {
            wireguard = some (record {
              server_pubkey = key;
              endpoint = "10.0.0.5:51820";
              assigned_ip = "10.77.0.2";
              server_wg_ip = "10.77.0.1";
              subnet = "10.77.0.0/24";
              interface = "wg-hub";
            });
          },
        )
        ∷ [];
  };
}

abbrev starting : Program
starting = record { client = tunneled; watchdog_task = none }

on_startup-Started_example :
    ((on_startup tools starting).0 ≡ ok tt)
    × Started starting (on_startup tools starting).1
    × ((n : ℕ) → (run_task watchdog_loop n (on_startup tools starting).1.client).0 ≡ ok tt)
on_startup-Started_example = on_startup-Started tools starting
