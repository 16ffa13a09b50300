-- ===== src/Examples/Raising.antt =====
-- A box with the files of one directory and one interface.
use text.Mathlib.TextEquality.{eq_iff}
use mathlib.Core.Bool.{false≢true}
use usbover_ip.Base.{
  String, ◌≡◌, ◌≢◌, refl, ◌⊎◌, Bool, true, false, Option, none, some, List, [], ◌∷◌, ◌==◌,
  if◌then◌else◌, arith, eq_refl, ap, ◌∙◌, ◌-◌,
}
use usbover_ip.Base.Exec.Triple.{Outcome}
use usbover_ip.Outside.{Call, returned, Proc}
use usbover_ip.Wireguard.{Box, ensure_interface_up}
use usbover_ip.Wireguard.Links.{File, Links}
use usbover_ip.Wireguard.Raised.{conf_file, ensure_interface_up-Raised}
use usbover_ip.Examples.Home.{digits, size, strokes}

-- The text of each path, and whether there is a link.
pub record Machine : Type 0 where
  pub files : String → Option File
  pub link : Bool

abbrev pub put : String → Option File → Machine → Machine
put path f m = record m { files = λ p. if path == p then f else m.files p }

abbrev status_of : Bool → Proc
status_of there = record { returncode = if there then 0 else 1; stdout = ""; stderr = "" }

abbrev pub is_raise : List String → Bool
is_raise (program ∷ rest) = program == "wg-quick"
is_raise [] = false

abbrev pub private_file : Option File → Option File
private_file none = none
private_file (some f) = some (record f { private = true })

abbrev machine : Box Machine
machine = record {
  run = λ args m. (
    returned (status_of (if is_raise args then true else m.link)),
    record m { link = if is_raise args then true else m.link },
  );
  run_input = λ args text m. (returned (status_of true), m);
  available = λ m. (true, m);
  makedirs = λ path m. (returned tt, m);
  mkstemp = λ dir prefix m. (returned "/etc/wireguard/.tmp-wg0-x", m);
  write_text =
      λ path text m. (returned tt, put path (some (record { text = text; private = false })) m);
  chmod = λ path m. (returned tt, put path (private_file (m.files path)) m);
  replace = λ source path m. (returned tt, put path (m.files source) m);
  exists = λ path m. (false, m);
  unlink = λ path m. (returned tt, put path none m);
  split_lines = λ s. s ∷ [];
  split_tabs = λ s. s ∷ [];
  isdigit = λ s. true;
  int = size;
  str = strokes;
  strip = λ s. s;
  is_digit = digits;
  digit_value = λ c. c - 48;
}

pub put_same : (path : String) (f : Option File) (m : Machine) → (put path f m).files path ≡ f
put_same path f m = rw eq_refl refl

pub put_other :
    (path q : String) (f : Option File) (m : Machine)
    → path ≢ q
    → (put path f m).files q ≡ m.files q
put_other path q f m h = ground (arith, eq_iff path q, h)

temporary_other :
    (t : String)
    → ◌≡◌ {A = Call String} (returned "/etc/wireguard/.tmp-wg0-x") (returned t)
    → t ≢ "/etc/wireguard/wg0.conf"
temporary_other t e q =
    let same : ◌≡◌ {A = String} "/etc/wireguard/.tmp-wg0-x" "/etc/wireguard/wg0.conf" = cc in
    false≢true ((eq_iff "/etc/wireguard/.tmp-wg0-x" "/etc/wireguard/wg0.conf").1 same)

abbrev links : Links machine "wg0"
links = record {
  up = λ m. m.link;
  file = λ m. m.files;
  show_sound = λ m p e z. ground (arith, e, z);
  raise_sound = λ m p e z. refl;
  show_keeps = λ m path. refl;
  raise_keeps = λ m path. refl;
  makedirs_keeps = λ m path. refl;
  mkstemp_other = λ m t e. temporary_other t e;
  mkstemp_keeps = λ m. refl;
  write_done = λ m t text e. (record { text = text; private = false }, put_same t _ m, refl);
  write_keeps = λ m t text path ne. put_other t path _ m ne;
  chmod_done = λ m t f e h. put_same t _ m ∙ ap private_file h;
  chmod_keeps = λ m t path ne. put_other t path _ m ne;
  replace_done = λ m t path e. put_same path _ m;
  replace_failed = λ m t path x e. cc;
  exists_keeps = λ m t path. refl;
  unlink_keeps = λ m t path ne. put_other t path _ m ne;
}

abbrev key : String
key = "AAAAAAAAAAAAAAAAAAAAAAAAAAAAAAAAAAAAAAAAAAA="

abbrev pub bare : Machine
bare = record { files = λ path. none; link = false }

ensure_interface_up-Raised_example :
    Outcome
      (λ _ m.
        (m.files "/etc/wireguard/wg0.conf" ≡ some (conf_file machine key "10.99.0.1/24" (some 3)))
        × (m.link ≡ true))
      (λ _ m.
        (m.files "/etc/wireguard/wg0.conf" ≡ none)
        ⊎ (m.files "/etc/wireguard/wg0.conf"
            ≡ some (conf_file machine key "10.99.0.1/24" (some 3))))
      (ensure_interface_up machine key "10.99.0.1/24" (some 3) "wg0" bare).0
      (ensure_interface_up machine key "10.99.0.1/24" (some 3) "wg0" bare).1
ensure_interface_up-Raised_example =
    ensure_interface_up-Raised machine key "10.99.0.1/24" (some 3) "wg0" links bare
