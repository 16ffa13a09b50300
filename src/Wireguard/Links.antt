-- ===== src/Wireguard/Links.antt =====
-- What the calls of a box do to the file and the link of one interface.
use usbover_ip.Base.{String, ◌<>◌, ◌≡◌, ◌≢◌, refl, Bool, true, Option, some, List, [], ◌∷◌, eqb}
use usbover_ip.Base.Exec.{Exc}
use usbover_ip.Base.Exec.Triple.{Triple, Outcome}
use usbover_ip.Outside.{Call, returned, raised, Proc}
use usbover_ip.Wireguard.{Box, ask, call, outcome, conf_dir}

abbrev pub conf_path : String → String
conf_path interface = conf_dir <> "/" <> interface <> ".conf"

abbrev pub shows : String → List String
shows interface = "ip" ∷ "link" ∷ "show" ∷ interface ∷ []

abbrev pub raises : String → List String
raises interface = "wg-quick" ∷ "up" ∷ interface ∷ []

-- A file: its text, and whether its owner alone may read it.
pub record File : Type 0 where
  pub text : String
  pub private : Bool

-- The links and the files of the box, and what its calls do to those of one interface. A call that
-- raises has done nothing to the file.
pub record Links {W : Type 0} (box : Box W) (interface : String) : Type 0 where
  pub up : W → Bool
  pub file : W → String → Option File
  pub show_sound :
      (w : W) (p : Proc)
      → (box.run (shows interface) w).0 ≡ returned p
      → eqb p.returncode 0 ≡ true
      → up (box.run (shows interface) w).1 ≡ true
  pub raise_sound :
      (w : W) (p : Proc)
      → (box.run (raises interface) w).0 ≡ returned p
      → eqb p.returncode 0 ≡ true
      → up (box.run (raises interface) w).1 ≡ true
  pub show_keeps : (w : W) (path : String) → file (box.run (shows interface) w).1 path ≡ file w path
  pub raise_keeps :
      (w : W) (path : String) → file (box.run (raises interface) w).1 path ≡ file w path
  pub makedirs_keeps : (w : W) (path : String) → file (box.makedirs conf_dir w).1 path ≡ file w path
  -- the name that mkstemp makes begins with the prefix
  pub mkstemp_other :
      (w : W) (t : String)
      → (box.mkstemp conf_dir (".tmp-" <> interface <> "-") w).0 ≡ returned t
      → t ≢ conf_path interface
  pub mkstemp_keeps :
      (w : W)
      → file (box.mkstemp conf_dir (".tmp-" <> interface <> "-") w).1 (conf_path interface)
        ≡ file w (conf_path interface)
  pub write_done :
      (w : W) (t text : String)
      → (box.write_text t text w).0 ≡ returned tt
      → (f : File) × (file (box.write_text t text w).1 t ≡ some f) × (f.text ≡ text)
  pub write_keeps :
      (w : W) (t text path : String)
      → t ≢ path
      → file (box.write_text t text w).1 path ≡ file w path
  pub chmod_done :
      (w : W) (t : String) (f : File)
      → (box.chmod t w).0 ≡ returned tt
      → file w t ≡ some f
      → file (box.chmod t w).1 t ≡ some (record f { private = true })
  pub chmod_keeps : (w : W) (t path : String) → t ≢ path → file (box.chmod t w).1 path ≡ file w path
  pub replace_done :
      (w : W) (t path : String)
      → (box.replace t path w).0 ≡ returned tt
      → file (box.replace t path w).1 path ≡ file w t
  pub replace_failed :
      (w : W) (t path m : String)
      → (box.replace t path w).0 ≡ raised m
      → file (box.replace t path w).1 path ≡ file w path
  pub exists_keeps : (w : W) (t path : String) → file (box.exists t w).1 path ≡ file w path
  pub unlink_keeps :
      (w : W) (t path : String) → t ≢ path → file (box.unlink t w).1 path ≡ file w path

module _ {W : Type 0} {P : W → Type 0} where
  pub call-Triple :
      {A : Type 0} {Q : A → W → Type 0} {E : Exc → W → Type 0} (f : W → Call A × W)
      → ((a : A) (w : W) → (f w).0 ≡ returned a → P w → Q a (f w).1)
      → ((m : String) (e : Exc) (w : W) → (f w).0 ≡ raised m → P w → E e (f w).1)
      → Triple P (call f) Q E
  unfolding call
  call-Triple {A} {Q} {E} f good bad = record { at = λ w h. go w h (f w).0 refl }
    where
      go : (w : W) → P w → (c : Call A) → (f w).0 ≡ c → Outcome Q E (outcome c) (f w).1
      go w h (returned a) e = good a w e h
      go w h (raised m) e = bad m _ w e h

  pub ask-Triple :
      {A : Type 0} {Q : A → W → Type 0} {E : Exc → W → Type 0} (f : W → A × W)
      → ((w : W) → P w → Q (f w).0 (f w).1)
      → Triple P (ask f) Q E
  unfolding ask
  ask-Triple f h = record { at = h }
