-- ===== src/Examples/Groups.antt =====
-- Runs of `attach_group`.
use usbover_ip.Base.{◌≡◌, refl, some, [], ◌∷◌, arith}
use usbover_ip.Base.Exec.{ok, err, group_error, ◌>>=◌, for_each}
use usbover_ip.Base.Lists.{contains}
use usbover_ip.Base.Dict.{lookup, insert}
use usbover_ip.Client.State.{
  Client, Config, read, log_event, update_attachments, outside, outside_try,
}
use usbover_ip.Client.Groups.{
  attach_group, is_text, active_attachment_for_group, try_candidates, try_candidate,
  candidate_status, availability, status_of, after_attach, join_group, group_record,
  log_stable_path,
}
use usbover_ip.Client.Remote.{base_url, fetch_devices, devices_of}
use usbover_ip.Validate.{
  validate_hostname, validate_port_number, validate_busid, name_like, host_char, busid_like,
}
use usbover_ip.Client.Usbip.{
  attach, list_ports, ports_or_cli, ports_of_files, run, poll, fresh_ports, choose_port, lowest,
}
use usbover_ip.Client.Nodes.{update_node_for_port, find_port, device_paths, persist_node}
use usbover_ip.Client.Files.{sys, os}
use usbover_ip.Client.Files.Paths.{resolve_device_paths}
use usbover_ip.Client.Files.Place.{update_attachment_node}
use usbover_ip.Client.Restart.{run_restart_actions}
use usbover_ip.Client.Groups.Members.{Unique, members}
use usbover_ip.Client.Groups.Unique.{
  attach_group-Unique, attach_group-refused, attach_group-Recorded, Recorded,
}
use usbover_ip.Examples.Home.{Home, client, config, dongle, Plugged}

pub config-Unique : Unique config
unfolding is_text members
config-Unique g = omega arith

attach_group-Unique_example : Unique (attach_group "g" client).1.cfg
attach_group-Unique_example = attach_group-Unique "g" client config-Unique

attached :
    (attach_group "g" client).0
    ≡ ok (record { port = "111"; server_id = "hub"; server = "hub"; busid = "1-2" })
unfolding attach_group read ◌>>=◌ lookup insert active_attachment_for_group is_text try_candidates
    try_candidate candidate_status fetch_devices base_url devices_of availability status_of attach
    validate_hostname validate_port_number validate_busid list_ports ports_or_cli ports_of_files run
    poll fresh_ports choose_port lowest after_attach join_group group_record log_event
    log_stable_path update_node_for_port find_port device_paths persist_node resolve_device_paths
    sys os update_attachment_node run_restart_actions update_attachments outside outside_try
    contains name_like host_char busid_like for_each
attached = refl

attach_group-Recorded_example :
    Recorded "g"
      (record { port = "111"; server_id = "hub"; server = "hub"; busid = "1-2" })
      (attach_group "g" client).1.cfg
attach_group-Recorded_example = attach_group-Recorded "g" _ client attached

abbrev scanning : Config
scanning = record config { attachments = ("a", record dongle { group_id = some "g" }) ∷ [] }

abbrev busy : Client Plugged
busy = record client { cfg = scanning }

refused : (attach_group "g" busy).0 ≡ err (group_error "group is already attached")
unfolding attach_group read ◌>>=◌ lookup active_attachment_for_group is_text
refused = refl

attach_group-refused_example : (attach_group "g" busy).1.cfg ≡ scanning
attach_group-refused_example = attach_group-refused "g" "group is already attached" busy refused
