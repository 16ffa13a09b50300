-- ===== src/Examples/Town.antt =====
-- A client's machine with a server as a process beside it: a POST runs the server's route.
use usbover_ip.Base.{
  ◌-◌, ℕ, zero, suc, String, ◌≡◌, ◌≢◌, ◌&&◌, Bool, List, arith, refl, ap, sym, ◌∙◌, ◌<>◌, true,
  false, none, [], ◌∷◌, ◌==◌, if◌then◌else◌, eqb, some,
}
use text.Mathlib.TextLemmas.{nil-append, cons-append}
use usbover_ip.Base.Exec.{Result, ok, err, message}
use usbover_ip.Outside.{Env, Call, done, returned, raised, Proc}
use usbover_ip.Client.Tunnels.{
  Answer, KeyResponse, KeyReply, answered, unreachable, Tools, box as tunnel_box,
}
use usbover_ip.Client.Tunnels.Wired.{Wired, answer, bearer}
use usbover_ip.Server.State as Remote
use usbover_ip.Server.Host.{Host}
use usbover_ip.Server.Tunnel.{Registration, post_wireguard_register}
use usbover_ip.Client.Tunnels.Raising.{Settled}
use usbover_ip.Wireguard.Links.{Links}
use usbover_ip.Examples.Raising.{Machine, put, is_raise, private_file, put_same, put_other}
use mathlib.Core.Bool.{false≢true}
use text.Mathlib.TextEquality.{eq_iff}
use usbover_ip.Examples.Home.{strokes, still_box, size}
use usbover_ip.Examples.Gateway.{gateway}

abbrev pub key : String
key = "AAAAAAAAAAAAAAAAAAAAAAAAAAAAAAAAAAAAAAAAAAA="

-- every command succeeds and prints a key
abbrev pub done_proc : Proc
done_proc = record { returncode = 0; stdout = key; stderr = "" }

abbrev pub drop_chars : ℕ → String → String
drop_chars zero s = s
drop_chars (suc n) String.[] = ""
drop_chars (suc n) (String.◌∷◌ c s) = drop_chars n s

pub dropped : (p s : String) → drop_chars (size p) (p <> s) ≡ s
dropped String.[] s = nil-append s
dropped (String.◌∷◌ c p) s = ap (drop_chars (suc (size p))) (cons-append c p s) ∙ dropped p s

instance abbrev pub Registry : Remote.Env
Registry = record gateway {
  digit_value = λ c. c - 48;
  lower = λ s. if s == "Bearer t" then "bearer t" else s;
  suffix = drop_chars;
  before_slash = λ s. if s == "10.77.0.1/24" then "10.77.0.1" else s;
}

abbrev pub Process : Type 0
Process = Remote.Server ℕ

-- The client's machine beside the server's process. `ip link show` fails while there is no link.
abbrev pub is_show : List String → Bool
is_show (program ∷ action ∷ rest) = program == "ip" && action == "link"
is_show _ = false

abbrev pub command : List String → Process × Machine → Call Proc × (Process × Machine)
command args w = (
  returned
      (record done_proc { returncode = if is_show args then if w.1.link then 0 else 1 else 0 }),
  (w.0, record w.1 { link = if is_raise args then true else w.1.link }),
)

instance abbrev pub Town : Env
Town = record (still_box (Process × Machine) command (λ w. []) (λ w. 0)) {
  chmod = λ path mode w. (done tt, (w.0, put path (private_file (w.1.files path)) w.1));
  replace = λ source path w. (done tt, (w.0, put path (w.1.files source) w.1));
  str = λ n. if eqb n 8000 then "8000" else strokes n;
}

abbrev pub host : Host
host = record {
  run_input = λ args text w. (returned done_proc, w);
  nft_installed = λ w. (true, w);
  route_address = λ w. (none, w);
  makedirs = λ path w. (returned tt, w);
  mkstemp = λ dir prefix w. (returned prefix, w);
  write_text = λ path text w. (returned tt, w);
  chmod = λ path w. (returned tt, w);
  replace = λ source path w. (returned tt, w);
  exists = λ path w. (false, w);
  unlink = λ path w. (returned tt, w);
  split_lines = λ s. s ∷ [];
  split_tabs = λ s. s ∷ [];
  isdigit = λ s. true;
  int = size;
  usbipd_port = 3240;
}

abbrev pub reply_of : Result Registration → KeyReply
reply_of (ok reg) =
    answered (record { status_code = 200; json = returned (answer reg); detail = returned "" })
reply_of (err e) =
    answered
      (record { status_code = 500; json = raised (message e); detail = returned (message e) })

-- the URL of the route at the server `hub`
abbrev pub route : String
route = "http://10.0.0.5:8000/api/wireguard/register"

abbrev pub tools : Tools
tools = record {
  available = λ w. (true, w);
  run_input = λ args text w. (returned done_proc, w);
  mkstemp = λ dir prefix w. (returned "/etc/wireguard/.tmp-wg-hub-x", w);
  write_text = λ path text w.
      (returned tt, (w.0, put path (some (record { text = text; private = false })) w.1));
  exists = λ path w. (false, w);
  unlink = λ path w. (returned tt, (w.0, put path none w.1));
  split_lines = λ s. s ∷ [];
  split_tabs = λ s. s ∷ [];
  digit_value = λ c. c - 48;
  post_key = λ url token pubkey w.
      let r = post_wireguard_register host (bearer token) pubkey w.0 in
      if url == route then (reply_of r.0, (r.1, w.1)) else (unreachable "no such server", w);
}

pub served :
    (x : Result Registration × Process) (r : KeyResponse) (a : Answer)
    → reply_of x.0 ≡ answered r
    → eqb r.status_code 200 ≡ true
    → r.json ≡ returned a
    → (reg : Registration) × (x ≡ (ok reg, x.1)) × (a ≡ answer reg)
served (ok reg, s) r a e good j = (reg, refl, cc)
served (err m, s) r a e good j = cc

-- the text behind a prefix of seven letters
pub sliced : (p : String) → size p ≡ 7 → (s : String) → drop_chars 7 (p <> s) ≡ s
sliced p e s = ap (λ n. drop_chars n (p <> s)) (sym e) ∙ dropped p s

abbrev pub wired : Wired tools host
wired = record {
  process = λ w. w.0;
  origin = "http://10.0.0.5:8000";
  serves = λ token pubkey w r a e good j.
      served (post_wireguard_register host (bearer token) pubkey w.0) r a e good j;
  apart = λ I. record {
    run = λ args w i. i;
    run_input = λ args text w i. i;
    makedirs = λ path w i. i;
    mkstemp = λ dir prefix w i. i;
    write_text = λ path text w i. i;
    chmod = λ path w i. i;
    replace = λ source path w i. i;
    exists = λ path w i. i;
    unlink = λ path w i. i;
  };
  clock_apart = λ I w i. i;
  probe_apart = λ I w i. i;
  client_suffix = sliced "client:" refl;
  bearer_suffix = sliced "Bearer " refl;
}

pub temporary_other :
    (t : String)
    → ◌≡◌ {A = Call String} (returned "/etc/wireguard/.tmp-wg-hub-x") (returned t)
    → t ≢ "/etc/wireguard/wg-hub.conf"
temporary_other t e q =
    let same : ◌≡◌ {A = String} "/etc/wireguard/.tmp-wg-hub-x" "/etc/wireguard/wg-hub.conf" = cc in
    false≢true ((eq_iff "/etc/wireguard/.tmp-wg-hub-x" "/etc/wireguard/wg-hub.conf").1 same)

abbrev pub links : Links (tunnel_box tools) "wg-hub"
links = record {
  up = λ w. w.1.link;
  file = λ w. w.1.files;
  show_sound = λ w p e z. ground (arith, e, z);
  raise_sound = λ w p e z. refl;
  show_keeps = λ w path. refl;
  raise_keeps = λ w path. refl;
  makedirs_keeps = λ w path. refl;
  mkstemp_other = λ w t e. temporary_other t e;
  mkstemp_keeps = λ w. refl;
  write_done = λ w t text e. (record { text = text; private = false }, put_same t _ w.1, refl);
  write_keeps = λ w t text path ne. put_other t path _ w.1 ne;
  chmod_done = λ w t f e h. put_same t _ w.1 ∙ ap private_file h;
  chmod_keeps = λ w t path ne. put_other t path _ w.1 ne;
  replace_done = λ w t path e. put_same path _ w.1;
  replace_failed = λ w t path x e. cc;
  exists_keeps = λ w t path. refl;
  unlink_keeps = λ w t path ne. put_other t path _ w.1 ne;
}

pub settled : Settled tools links
settled = record {
  set_still = λ args w. (refl, refl);
  route_still = λ args w. (refl, refl);
  clock_still = λ w. (refl, refl);
}
