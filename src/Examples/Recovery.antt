-- ===== src/Examples/Recovery.antt =====
-- Runs of the backoff and of the recovery.
use mathlib.Core.Bool.{false≢true}
use usbover_ip.Base.{eq_iff, ◌+◌, ◌*◌, ◌≤◌, String, ◌≡◌, ◌≢◌, refl, some, none, arith, ltb, min}
use usbover_ip.Base.Exec.{ok, ◌>>=◌, for_each}
use usbover_ip.Base.Lists.{contains}
use usbover_ip.Base.Dict.{lookup, insert}
use usbover_ip.Outside.{second}
use usbover_ip.Client.State.{Attachment, read, log_event, update_attachments, outside, outside_try}
use usbover_ip.Client.Backoff.{
  backoff_delay, note_reconnect_failure, note_reconnect_success, reset_failures,
  watchdog_should_skip,
}
use usbover_ip.Client.Backoff.Delay.{backoff_delay_lem, note_reconnect_failure-skip}
use usbover_ip.Client.Backoff.Records.{Has}
use usbover_ip.Client.Usbip.{
  attach, list_ports, ports_or_cli, ports_of_files, run, poll, fresh_ports, choose_port, lowest,
}
use usbover_ip.Client.Nodes.{update_node_for_port, find_port, device_paths, persist_node}
use usbover_ip.Client.Files.{sys, os}
use usbover_ip.Client.Files.Paths.{resolve_device_paths}
use usbover_ip.Client.Files.Place.{update_attachment_node}
use usbover_ip.Client.Restart.{run_restart_actions}
use usbover_ip.Client.Groups.{log_stable_path}
use usbover_ip.Client.Groups.Members.{Unique}
use usbover_ip.Client.Restore.{
  reattached, restore_direct, restore_dropped_attachment, with_server, after_first_attach, reattach,
}
use usbover_ip.Client.Restore.Outcomes.{restore-Settled, restore-Unique}
use usbover_ip.Client.Restore.Settling.{Settled}
use usbover_ip.Client.Restore.Others.{restore_direct-others}
use usbover_ip.Validate.{
  validate_hostname, validate_port_number, validate_busid, name_like, host_char, busid_like,
}
use usbover_ip.Examples.Home.{Home, clock, client, config, dongle}
use usbover_ip.Examples.Groups.{config-Unique}

backoff_delay_lem_example :
    (backoff_delay 3 ≡ 60)
    × (backoff_delay 6 ≡ min (2 * backoff_delay 5) 1800)
    × (60 ≤ backoff_delay 5)
    × (backoff_delay 5 ≤ 1800)
backoff_delay_lem_example = backoff_delay_lem 5 (omega arith)

dongle-Has : Has "a" dongle config
unfolding lookup
dongle-Has = refl

note_reconnect_failure-skip_example :
    (a : Attachment) × (lookup "a" (note_reconnect_failure "a" client).1.cfg.attachments ≡ some a)
    × ((watchdog_should_skip a client).0 ≡ ok (ltb 3 (3 + backoff_delay 3 * second)))
note_reconnect_failure-skip_example =
    note_reconnect_failure-skip "a" dongle client dongle-Has clock (omega arith) client

restored : (restore_dropped_attachment "a" dongle client).0 ≡ ok (reattached "111" none "hub" "1-2")
unfolding restore_dropped_attachment restore_direct with_server after_first_attach reattach read
    ◌>>=◌ lookup insert attach validate_hostname validate_port_number validate_busid list_ports
    ports_or_cli ports_of_files run poll fresh_ports choose_port lowest log_event log_stable_path
    update_node_for_port find_port device_paths persist_node resolve_device_paths sys os
    update_attachment_node run_restart_actions update_attachments outside outside_try contains
    name_like host_char busid_like for_each note_reconnect_success reset_failures
restored = refl

restore-Settled_example :
    Settled "a" dongle
      (reattached "111" none "hub" "1-2")
      (restore_dropped_attachment "a" dongle client).1.cfg
restore-Settled_example =
    restore-Settled "a" dongle client dongle-Has (reattached "111" none "hub" "1-2") restored

restore-Unique_example : Unique (restore_dropped_attachment "a" dongle client).1.cfg
restore-Unique_example = restore-Unique "a" dongle client dongle-Has config-Unique

restore_direct-others_example :
    ((a : Attachment) × (lookup "a" (restore_direct "a" dongle client).1.cfg.attachments ≡ some a)
      × (a.server_id ≡ "hub"))
    × (lookup "b" (restore_direct "a" dongle client).1.cfg.attachments
        ≡ lookup "b" config.attachments)
    × ((restore_direct "a" dongle client).1.cfg.servers ≡ config.servers)
    × ((restore_direct "a" dongle client).1.cfg.groups ≡ config.groups)
restore_direct-others_example = restore_direct-others "a" dongle client dongle-Has "b" other_key
  where
    other_key : ◌≢◌ {A = String} "b" "a"
    other_key e = false≢true ((eq_iff "b" "a").1 e)
