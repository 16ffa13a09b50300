-- ===== src/Examples/Gateway.antt =====
-- A server with two clients, and the handlers of both programs that edit records.
use mathlib.Core.Bool.{false≢true}
use mathlib.Core.Option.{some-injective}
use text.Mathlib.TextLemmas.{append_cancel_left}
use usbover_ip.Base.{
  ℕ, suc, String, ◌<>◌, ◌≡◌, ◌≢◌, refl, ap, sym, ◌∙◌, some, none, [], ◌∷◌, true, false, ◌==◌, arith,
  Bool-cases, inl, inr, ◌⊎◌, eq_iff,
}
use usbover_ip.Base.Dict.{lookup, DistinctKeys}
use usbover_ip.Outside.{returned}
use usbover_ip.Web.{Request}
use usbover_ip.Client.State.{Attachment}
use usbover_ip.Client.Api.Servers.{api_delete_server}
use usbover_ip.Client.Api.Servers.Links.{Linked, api_delete_server-Linked}
use usbover_ip.Server.Share.Effects.{SameElements}
use usbover_ip.Server.State.{Server as Sharing, Env, ClientRecord, Config, Peer, Wireguard}
use usbover_ip.Base.Exec.{Exc, ok, err}
use usbover_ip.Web.{compare_digest, is_ascii}
use usbover_ip.Server.Clients.{client_of_token, set_token}
use usbover_ip.Server.Clients.Tokens.{OwnTokens, client_of_token_sound, set_token-revokes}
use usbover_ip.Server.Tunnel.{host_address}
use usbover_ip.Server.Tunnel.Addresses.{Numbered, WellNumbered}
use usbover_ip.Examples.Home.{Home, digits, client, config, hub, strokes, size, size-strokes}

abbrev pub browser : Request
browser = record { user = some "admin"; requested_with = some "usbip-web"; authorization = "" }

config-Linked : Linked config
unfolding lookup
config-Linked k a e = elim (Bool-cases ("a" == k)) [
  | inl same ↦ (
    hub,
    rw (sym (ap (λ (x : Attachment). x.server_id) (some-injective _ _ (rw same at e)))) refl,
  )
  | inr other ↦ absurd (ground (arith, e, other))
]

api_delete_server-Linked_example : Linked (api_delete_server browser "hub" client).1.cfg
api_delete_server-Linked_example = api_delete_server-Linked browser "hub" client config-Linked

-- Only the numbers are printed; nothing else of this world is used here.
abbrev pub gateway : Env
gateway = record {
  World = ℕ;
  run = λ args n. (returned (record { returncode = 0; stdout = ""; stderr = "" }), n);
  splitlines = λ text. text ∷ [];
  match_busid_line = λ line. none;
  drop_ids = λ text vid pid. text;
  read_usbip_status = λ busid n. (none, n);
  read_serial_file = λ busid n. (none, n);
  utcnow = λ n. (n, n);
  isoformat = strokes;
  new_id = λ n. ("new", n);
  new_token = λ n. (strokes n, suc n);
  post = λ push n. (returned 200, n);
  wireguard_available = λ n. (true, n);
  is_digit = digits;
  digit_value = λ c. c;
  str = strokes;
  strip = λ s. s;
  lower = λ s. s;
  prefix = λ n s. s;
  suffix = λ n s. s;
  sorted_set = λ busids. busids;
  first_three = λ s. "10.77.0";
  before_slash = λ s. s;
}

instance abbrev pub Gateway : Env
Gateway = gateway

pub numbers : Numbered
numbers = record {
  injective = λ prefix h k e.
      sym (size-strokes h)
      ∙ ap size (
          append_cancel_left "." (strokes h) (strokes k)
            (append_cancel_left prefix ("." <> strokes h) ("." <> strokes k) e))
      ∙ size-strokes k;
}

abbrev first_peer : Peer
first_peer = record { pubkey = "K"; wg_ip = "10.77.0.11"; added_at = "" }

abbrev pub tunnel : Wireguard
tunnel = record {
  private_key = "P";
  public_key = "Q";
  listen_port = 51820;
  address = "10.77.0.1/24";
  subnet = "10.77.0.0/24";
  next_host = 3;
  peers = ("ann", first_peer) ∷ [];
  endpoint_host = "10.0.0.5";
}

abbrev pub ann : ClientRecord
ann = record {
  id = "ann";
  name = "Ann";
  host = "10.0.0.7";
  api_port = 8001;
  token = "old";
  created_at = "";
  last_seen = none;
}

abbrev bob : ClientRecord
bob = record ann { id = "bob"; name = "Bob"; token = "other" }

abbrev pub server_config : Config
server_config = record {
  server_name = "hub";
  clients = ("ann", ann) ∷ ("bob", bob) ∷ [];
  shared_devices = "1-1" ∷ "1-2" ∷ [];
  device_labels = [];
  known_serials = [];
  wireguard = tunnel;
  require_wireguard = false;
}

abbrev pub stranger : Request
stranger = record browser { user = none }

abbrev pub sharing : Sharing ℕ
sharing = record { cfg = server_config; events = []; world = 0 }

pub same_elements : SameElements
same_elements = record { same = λ bs b. refl }

one_peer : (i : String) (p : Peer) → lookup i tunnel.peers ≡ some p → ("ann" ≡ i) × (first_peer ≡ p)
unfolding lookup
one_peer i p e = elim (Bool-cases ("ann" == i)) [
  | inl same ↦ ((eq_iff "ann" i).0 same, some-injective _ _ (rw same at e))
  | inr other ↦ absurd (ground (arith, e, other))
]

pub tunnel-WellNumbered : WellNumbered tunnel
unfolding host_address
tunnel-WellNumbered = record {
  used = λ i p e. (2, omega arith, ap (λ (x : Peer). x.wg_ip) (sym (one_peer i p e).1));
  distinct = λ i j p q hi hj e. sym (one_peer i p hi).0 ∙ (one_peer j q hj).0;
}

clients-DistinctKeys : DistinctKeys server_config.clients
unfolding lookup
clients-DistinctKeys = (refl, (refl, tt))

two_clients :
    (i : String) (c : ClientRecord)
    → lookup i server_config.clients ≡ some c
    → (("ann" ≡ i) × (ann ≡ c)) ⊎ (("bob" ≡ i) × (bob ≡ c))
unfolding lookup
two_clients i c e = elim (Bool-cases ("ann" == i)) [
  | inl same ↦ inl ((eq_iff "ann" i).0 same, some-injective _ _ (rw same at e))
  | inr other ↦ elim (Bool-cases ("bob" == i)) [
    | inl same ↦ inr ((eq_iff "bob" i).0 same, some-injective _ _ (rw (other, same) at e))
    | inr none_left ↦ absurd (ground (arith, e, other, none_left))
  ]
]

tokens_differ : ◌≢◌ {A = String} "old" "other"
tokens_differ e = false≢true ((eq_iff "old" "other").1 e)

token : ClientRecord → String
token c = c.token

clients-OwnTokens : OwnTokens server_config.clients
unfolding token
clients-OwnTokens i j a b hi hj e = elim (two_clients i a hi) [
  | inl x ↦ elim (two_clients j b hj) [
    | inl y ↦ sym x.0 ∙ y.0
    | inr y ↦ absurd (tokens_differ (ap token x.1 ∙ e ∙ sym (ap token y.1)))
  ]
  | inr x ↦ elim (two_clients j b hj) [
    | inl y ↦ absurd (tokens_differ (ap token y.1 ∙ sym e ∙ sym (ap token x.1)))
    | inr y ↦ sym x.0 ∙ y.0
  ]
]

bobs_token : client_of_token "other" server_config.clients ≡ ok (some "bob")
unfolding client_of_token compare_digest is_ascii
bobs_token = refl

client_of_token_sound_example :
    (c : ClientRecord) × (lookup "bob" server_config.clients ≡ some c)
    × (c.token ≡ "other")
    × (◌≢◌ {A = String} "other" "")
client_of_token_sound_example =
    client_of_token_sound "other" "bob" server_config.clients clients-DistinctKeys bobs_token

anns_record : lookup "ann" server_config.clients ≡ some ann
unfolding lookup
anns_record = refl

fresh_token : ◌≢◌ {A = String} "old" "fresh"
fresh_token e = false≢true ((eq_iff "old" "fresh").1 e)

set_token-revokes_example :
    (client_of_token "old" (set_token "ann" "fresh" server_config).clients ≡ ok none)
    ⊎ ((e : Exc) × (client_of_token "old" (set_token "ann" "fresh" server_config).clients ≡ err e))
set_token-revokes_example =
    set_token-revokes "ann" "fresh" ann server_config clients-DistinctKeys clients-OwnTokens
      anns_record fresh_token
