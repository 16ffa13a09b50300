-- ===== src/Wireguard/Status.antt =====
-- `interface_status` of common/wireguard_helper.py: what `wg show` prints, read field by field.
use usbover_ip.Base.{
  ℕ, String, Bool, true, false, Option, none, some, List, [], ◌∷◌, ◌++◌, eqb, ◌==◌, if◌then◌else◌,
  truthy_text,
}
use usbover_ip.Base.Exec.{Exec, pure, ◌>>=◌}
use usbover_ip.Outside.{Proc}
use usbover_ip.Wireguard.{Box, run, interface_exists}

-- A peer as `wg show` prints it.
pub record PeerStatus : Type 0 where
  pub public_key : String
  pub endpoint : Option String
  pub allowed_ips : String
  pub latest_handshake : ℕ
  pub transfer_rx : ℕ
  pub transfer_tx : ℕ

pub record InterfaceStatus : Type 0 where
  pub up : Bool
  pub public_key : String
  pub listen_port : Option ℕ
  pub peers : List PeerStatus

abbrev pub is_down : InterfaceStatus
is_down = record { up = false; public_key = ""; listen_port = none; peers = [] }

module _ {W : Type 0} (box : Box W) where
  abbrev number : String → ℕ
  number s = if box.isdigit s then box.int s else 0

  -- A line of fewer than seven fields is no peer.
  unfoldable pub peer_of_fields : List String → List PeerStatus
  peer_of_fields (key ∷ psk ∷ endpoint ∷ allowed ∷ handshake ∷ rx ∷ tx ∷ more) =
      record {
        public_key = key;
        endpoint = if endpoint == "(none)" then none else some endpoint;
        allowed_ips = allowed;
        latest_handshake = number handshake;
        transfer_rx = number rx;
        transfer_tx = number tx;
      }
      ∷ []
  peer_of_fields fields = []

  unfoldable pub peers_of_lines : List String → List PeerStatus
  unfolding peer_of_fields
  peers_of_lines [] = []
  peers_of_lines (line ∷ lines) = peer_of_fields (box.split_tabs line) ++ peers_of_lines lines

  unfoldable pub key_field : List String → String
  key_field (private_key ∷ public_key ∷ more) = public_key
  key_field fields = ""

  unfoldable pub port_field : List String → Option ℕ
  port_field (private_key ∷ public_key ∷ port ∷ more) =
      if box.isdigit port then some (box.int port) else none
  port_field fields = none

  unfoldable pub filled : List String → List String
  filled [] = []
  filled (line ∷ lines) = let rest = filled lines in if truthy_text line then line ∷ rest else rest

  unfoldable pub status_of_lines : List String → InterfaceStatus
  unfolding peers_of_lines key_field port_field
  status_of_lines [] = record is_down { up = true }
  status_of_lines (line ∷ lines) = record {
    up = true;
    public_key = key_field (box.split_tabs line);
    listen_port = port_field (box.split_tabs line);
    peers = peers_of_lines lines;
  }

  unfoldable pub dumped : Proc → InterfaceStatus
  unfolding status_of_lines filled
  dumped proc =
      if eqb proc.returncode 0
      then status_of_lines (filled (box.split_lines proc.stdout))
      else is_down

  unfoldable pub interface_status : String → Exec W InterfaceStatus
  interface_status interface = do
    there ← interface_exists box interface
    if there
        then (do proc ← run box ("wg" ∷ "show" ∷ interface ∷ "dump" ∷ []); pure (dumped proc))
        else pure is_down
