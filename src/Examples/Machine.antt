-- ===== src/Examples/Machine.antt =====
-- A device passed through to a virtual machine whose first slot is taken.
use usbover_ip.Base.{◌≡◌, refl, none, some, [], ◌∷◌, ◌==◌, if◌then◌else◌}
use usbover_ip.Base.Lists.{contains}
use usbover_ip.Base.Exec.{ok, ◌>>=◌}
use usbover_ip.Base.Exec.Triple.{Outcome}
use usbover_ip.Client.State.{outside_try}
use usbover_ip.Client.Usbip.{run}
use usbover_ip.Client.Proxmox.{
  Lines, first_free, slots_of_lines, run_on_host, check_proc, used_usb_slots, chosen,
  next_free_slot, api_proxmox_attach,
}
use usbover_ip.Client.Proxmox.Recording.{Passed, api_proxmox_attach-Passed}
use usbover_ip.Examples.Home.{Home, client, config}
use usbover_ip.Examples.Gateway.{browser}

abbrev lines : Lines
lines = record {
  splitlines = λ s. "name: attic" ∷ "usb0: host=1-4" ∷ [];
  split = λ s. s ∷ [];
  match_usb_slot = λ line. if line == "usb0: host=1-4" then some "0" else none;
}

free_slot : (next_free_slot lines "100" client).0 ≡ ok "usb1"
unfolding next_free_slot used_usb_slots run_on_host run outside_try ◌>>=◌ check_proc slots_of_lines
    first_free contains chosen
free_slot = refl

api_proxmox_attach-Passed_example :
    Outcome
      (λ p s. Passed lines "a" config p s.cfg)
      (λ _ s. s.cfg ≡ config)
      (api_proxmox_attach lines browser "a" "100" client).0
      (api_proxmox_attach lines browser "a" "100" client).1
api_proxmox_attach-Passed_example = api_proxmox_attach-Passed lines browser "a" "100" client
