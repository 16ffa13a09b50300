-- ===== src/Validate.antt =====
-- The validators of common/procutil.py. A regular expression is a matcher over code points; `$`
-- holds at the end and before one line feed that ends the text, as in Python's `re`. `\d` is the
-- parameter `digit`, since it takes every decimal digit of Unicode, and `int` is `to_int`.
pub mod Shape
pub mod Cidr
use mathlib.Core.List.{foldl}
use Prim.Native.Char.{code}
use usbover_ip.Base.{
  ℕ, zero, suc, ◌+◌, String, ◌<>◌, Bool, true, false, ◌&&◌, ◌||◌, Option, none, some, List, [], ◌∷◌,
  leb, eqb, if◌then◌else◌,
}
use usbover_ip.Base.Exec.{Result, ok, err, validation_error}

abbrev pub codes : String → List ℕ
codes String.[] = []
codes (String.◌∷◌ c s) = code c ∷ codes s

-- [A-Za-z0-9]
unfoldable pub is_alnum : ℕ → Bool
is_alnum c = leb b'0' c && leb c b'9' || leb b'A' c && leb c b'Z' || leb b'a' c && leb c b'z'

abbrev pub line_feed : ℕ
line_feed = 10

-- `$`
unfoldable pub at_end : List ℕ → Bool
at_end [] = true
at_end (c ∷ []) = eqb c line_feed
at_end (c ∷ d ∷ s) = false

-- `[class]{0,n}$`, for a class without the line feed
unfoldable pub up_to : (ℕ → Bool) → ℕ → List ℕ → Bool
unfolding at_end
up_to member zero s = at_end s
up_to member (suc n) [] = true
up_to member (suc n) (c ∷ s) = if member c then up_to member n s else at_end (c ∷ s)

-- `^[A-Za-z0-9][class]{0,n}$`
unfoldable pub name_like : (ℕ → Bool) → ℕ → List ℕ → Bool
unfolding up_to is_alnum
name_like member n [] = false
name_like member n (c ∷ s) = is_alnum c && up_to member n s

-- the classes of HOSTNAME_RE, CONTAINER_NAME_RE and SERVICE_NAME_RE
unfoldable pub host_char : ℕ → Bool
unfolding is_alnum
host_char c = is_alnum c || eqb c b'.' || eqb c b'-'

unfoldable pub container_char : ℕ → Bool
unfolding host_char
container_char c = host_char c || eqb c b'_'

unfoldable pub service_char : ℕ → Bool
unfolding container_char
service_char c = container_char c || eqb c b'@'

-- WG_KEY_RE: n characters of base64, then `=$`
unfoldable pub key_like : ℕ → List ℕ → Bool
unfolding at_end is_alnum
key_like zero [] = false
key_like zero (c ∷ s) = eqb c b'=' && at_end s
key_like (suc n) [] = false
key_like (suc n) (c ∷ s) = (is_alnum c || eqb c b'+' || eqb c b'/') && key_like n s

-- `r` is the text's `repr`.
abbrev accept : Bool → String → String → Result String
accept b s complaint = if b then ok s else err (validation_error complaint)

unfoldable pub validate_hostname : String → Result String
unfolding name_like host_char
validate_hostname host =
    accept (name_like host_char 253 (codes host)) host ("invalid host: " <> host)

unfoldable pub validate_container_name : String → Result String
unfolding name_like container_char
validate_container_name name =
    accept (name_like container_char 127 (codes name)) name ("invalid container name: " <> name)

unfoldable pub validate_service_name : String → Result String
unfolding name_like service_char
validate_service_name name =
    accept (name_like service_char 127 (codes name)) name ("invalid systemd service name: " <> name)

unfoldable pub validate_wg_key : String → Result String
unfolding key_like
validate_wg_key key = accept (key_like 43 (codes key)) key "invalid WireGuard key"

-- `port` is what `int(port)` gives: nothing if it raises, else the number and whether it is below 0
unfoldable pub validate_port_number : Option (Bool × ℕ) → Result ℕ
validate_port_number none = err (validation_error "invalid port")
validate_port_number (some (negative, p)) =
    if negative
    then err (validation_error "invalid port")
    else if leb 1 p && leb p 65535
    then ok p
    else err (validation_error "invalid port")

-- The states of BUSID_RE, `^\d+-\d+(\.\d+)*$`. `bus` and `port` have read a digit of their number,
-- `start`, `dash` and `dot` still want one; `ended` has read the line feed that `$` allows.
pub data BusState : Type 0 where
  start bus dash port dot ended stuck : BusState

module _ (digit : ℕ → Bool) where
  unfoldable pub bus_step : BusState → ℕ → BusState
  bus_step start c = if digit c then bus else stuck
  bus_step bus c = if digit c then bus else if eqb c b'-' then dash else stuck
  bus_step dash c = if digit c then port else stuck
  bus_step port c =
      if digit c then port else if eqb c b'.' then dot else if eqb c line_feed then ended else stuck
  bus_step dot c = if digit c then port else stuck
  bus_step ended c = stuck
  bus_step stuck c = stuck

  unfoldable pub bus_accepts : BusState → Bool
  bus_accepts port = true
  bus_accepts ended = true
  bus_accepts _ = false

  unfoldable pub busid_like : List ℕ → Bool
  unfolding bus_step bus_accepts
  busid_like s = bus_accepts (foldl bus_step start s)

  unfoldable pub validate_busid : String → Result String
  unfolding busid_like
  validate_busid busid = accept (busid_like (codes busid)) busid ("invalid USB bus id: " <> busid)

  -- VMID_RE, `^\d{1,6}$`
  unfoldable pub vmid_like : List ℕ → Bool
  unfolding up_to
  vmid_like [] = false
  vmid_like (c ∷ s) = digit c && up_to digit 5 s

  unfoldable pub validate_vmid : String → Result String
  unfolding vmid_like
  validate_vmid s = accept (vmid_like (codes s)) s ("invalid Proxmox VM id: " <> s)

  -- USBSLOT_RE, `^usb\d$`
  unfoldable pub slot_like : List ℕ → Bool
  unfolding at_end
  slot_like (u ∷ s ∷ b ∷ d ∷ rest) =
      eqb u b'u' && eqb s b's' && eqb b b'b' && digit d && at_end rest
  slot_like _ = false

  unfoldable pub validate_usb_slot : String → Result String
  unfolding slot_like
  validate_usb_slot slot = accept (slot_like (codes slot)) slot ("invalid usb slot: " <> slot)

  -- ENDPOINT_RE, `^[A-Za-z0-9][A-Za-z0-9.\-]{0,253}:\d{1,5}$`, after the first character; no
  -- character of the host is a colon
  unfoldable pub endpoint_rest : ℕ → List ℕ → Bool
  unfolding up_to host_char
  endpoint_rest n [] = false
  endpoint_rest zero (c ∷ s) =
      eqb c b':' && elim s [ [] ↦ false | d ∷ more ↦ digit d && up_to digit 4 more ]
  endpoint_rest (suc n) (c ∷ s) =
      let rest = endpoint_rest n s in
      if eqb c b':'
      then elim s [ [] ↦ false | d ∷ more ↦ digit d && up_to digit 4 more ]
      else host_char c && rest

  unfoldable pub endpoint_like : List ℕ → Bool
  unfolding endpoint_rest
  endpoint_like [] = false
  endpoint_like (c ∷ s) = is_alnum c && endpoint_rest 253 s

  unfoldable pub validate_endpoint : String → Result String
  unfolding endpoint_like
  validate_endpoint endpoint =
      accept (endpoint_like (codes endpoint)) endpoint ("invalid endpoint: " <> endpoint)
