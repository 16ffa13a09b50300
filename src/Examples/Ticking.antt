-- ===== src/Examples/Ticking.antt =====
-- A tick of the watchdog, and the list of groups.
use mathlib.Core.Bool.{false≢true}
use usbover_ip.Base.{String, ◌≡◌, refl, true, Option, some, [], ◌∷◌, eq_iff, arith}
use usbover_ip.Base.Dict.{Dict, DistinctKeys, lookup, insert}
use usbover_ip.Base.Exec.{ok, ◌>>=◌}
use usbover_ip.Client.State.{Client, Config, outside}
use usbover_ip.Client.Usbip.{
  live_port_map, list_ports, ports_or_cli, ports_of_files, ports_of_lines, port_of_match,
}
use usbover_ip.Client.Groups.{active_attachment_for_group, is_text}
use usbover_ip.Client.Groups.Members.{Unique, members}
use usbover_ip.Client.Watchdog.{watchdog_tick, is_live}
use usbover_ip.Client.Watchdog.Tick.{watchdog_tick-Unique, watchdog_tick-live}
use usbover_ip.Client.Watchdog.Entries.{FreshIds}
use usbover_ip.Client.Api.Views.{active_port, active_ports}
use usbover_ip.Client.Api.Views.Agreement.{port_found, active_port-eq-active_attachment_for_group}
use usbover_ip.Examples.Home.{Home, Plugged, client, config, dongle}
use usbover_ip.Examples.Groups.{config-Unique}

fresh : FreshIds config.attachments
fresh = (λ w e. false≢true ((eq_iff "new" "a").1 e), tt)

distinct : DistinctKeys config.attachments
unfolding lookup
distinct = (refl, tt)

-- no port is in use, so the attachment has dropped
abbrev unplugged : Client Plugged
unplugged = record client { world = 0 }

watchdog_tick-Unique_example : Unique (watchdog_tick unplugged).1.cfg
watchdog_tick-Unique_example = watchdog_tick-Unique unplugged fresh distinct config-Unique

abbrev live_ports : Dict (Option String)
live_ports = ("11", some "3-1") ∷ ("1", some "3-1") ∷ ("", some "3-1") ∷ []

ports_read : (live_port_map client).0 ≡ ok live_ports
unfolding live_port_map list_ports ports_or_cli ports_of_files ports_of_lines port_of_match outside
    ◌>>=◌ insert
ports_read = refl

dongle_live : is_live live_ports dongle ≡ true
unfolding is_live lookup
dongle_live = refl

dongle_there : lookup "a" config.attachments ≡ some dongle
unfolding lookup
dongle_there = refl

watchdog_tick-live_example : lookup "a" (watchdog_tick client).1.cfg.attachments ≡ some dongle
watchdog_tick-live_example =
    watchdog_tick-live client fresh distinct live_ports "a" dongle ports_read dongle_live
      dongle_there

-- the attachment is the group's
abbrev grouped : Config
grouped = record config { attachments = ("a", record dongle { group_id = some "g" }) ∷ [] }

grouped-Unique : Unique grouped
unfolding is_text members
grouped-Unique g = ground arith

active_port-eq-active_attachment_for_group_example :
    active_port "g" (active_ports grouped.attachments)
    ≡ port_found (active_attachment_for_group "g" grouped.attachments)
active_port-eq-active_attachment_for_group_example =
    active_port-eq-active_attachment_for_group grouped "g" grouped-Unique refl
