-- ===== src/Wireguard/Local.antt =====
-- What the helper keeps of the world: it touches nothing but what the calls of the box touch.
use usbover_ip.Base.{String, Option, List, eqb, ℕ}
use usbover_ip.Base.Exec.{Result, ok, err}
use usbover_ip.Base.Exec.Triple.{
  Keeps, Outcome, Triple-bind, Triple-pure, Triple-raise, Triple-if, Triple-weaken, Triple-attempt,
  Triple-lift,
}
use usbover_ip.Outside.{Call, returned, raised, Proc}
use usbover_ip.Wireguard.{
  Box, ask, call, outcome, run, check_wg, generate_keypair, clean_up, write_interface_conf,
  interface_exists, ensure_interface_up, set_peer, endpoint_args, apply_peer, conf_dir,
}
use usbover_ip.Validate.{validate_wg_key}
use usbover_ip.Validate.Cidr.{validate_ipv4_cidr}

-- Each call keeps `I`.
pub record Local {W : Type 0} (box : Box W) (I : W → Type 0) : Type 0 where
  pub run : (args : List String) (w : W) → I w → I (box.run args w).1
  pub run_input :
      (args : List String) (text : String) (w : W) → I w → I (box.run_input args text w).1
  pub makedirs : (path : String) (w : W) → I w → I (box.makedirs path w).1
  pub mkstemp : (dir prefix : String) (w : W) → I w → I (box.mkstemp dir prefix w).1
  pub write_text : (path text : String) (w : W) → I w → I (box.write_text path text w).1
  pub chmod : (path : String) (w : W) → I w → I (box.chmod path w).1
  pub replace : (source path : String) (w : W) → I w → I (box.replace source path w).1
  pub exists : (path : String) (w : W) → I w → I (box.exists path w).1
  pub unlink : (path : String) (w : W) → I w → I (box.unlink path w).1

module _ {W : Type 0} {I : W → Type 0} where
  ask-Keeps : {A : Type 0} (f : W → A × W) → ((w : W) → I w → I (f w).1) → Keeps I (ask f)
  unfolding ask
  ask-Keeps f h = record { at = h }

  call-Keeps : {A : Type 0} (f : W → Call A × W) → ((w : W) → I w → I (f w).1) → Keeps I (call f)
  unfolding call
  call-Keeps f h = record { at = λ w i. go (f w).0 (f w).1 (h w i) }
    where
      go : {A : Type 0} (c : Call A) (w : W) → I w → Outcome (λ _. I) (λ _. I) (outcome c) w
      go (returned a) w i = i
      go (raised m) w i = i

module _ {W : Type 0} (box : Box W) {I : W → Type 0} (keeps : Local box I) where
  run-Keeps : (args : List String) → Keeps I (run box args)
  unfolding run
  run-Keeps args = call-Keeps (box.run args) (keeps.run args)

  check_wg-Keeps : (fallback : String) (proc : Proc) → Keeps I (check_wg box fallback proc)
  unfolding check_wg
  check_wg-Keeps fallback proc =
      Triple-if (eqb proc.returncode 0) (λ _. Triple-pure tt (λ w i. i))
        (λ _. Triple-raise _ (λ w i. i))

  pub generate_keypair-Keeps : Keeps I (generate_keypair box)
  unfolding generate_keypair
  generate_keypair-Keeps = Triple-bind (run-Keeps _) λ priv.
      Triple-bind (check_wg-Keeps _ priv) λ _.
        Triple-bind (call-Keeps _ (keeps.run_input _ _))
          λ key. Triple-bind (check_wg-Keeps _ key) (λ _. Triple-pure _ (λ w i. i))

  either : (r : Result (Unit {0})) (w : W) → Outcome (λ _. I) (λ _. I) r w → I w
  either (ok u) w i = i
  either (err e) w i = i

  clean_up-Keeps : (tmp_path : String) (r : Result (Unit {0})) → Keeps I (clean_up box tmp_path r)
  unfolding clean_up
  clean_up-Keeps tmp_path (ok u) = Triple-pure u (λ w i. i)
  clean_up-Keeps tmp_path (err e) = Triple-bind (ask-Keeps _ (keeps.exists tmp_path)) λ left.
      Triple-if left
        (λ _. Triple-bind (call-Keeps _ (keeps.unlink tmp_path)) (λ _. Triple-raise e (λ w i. i)))
        (λ _. Triple-raise e (λ w i. i))

  write_interface_conf-Keeps :
      (private_key address : String) (listen_port : Option ℕ) (interface : String)
      → Keeps I (write_interface_conf box private_key address listen_port interface)
  unfolding write_interface_conf
  write_interface_conf-Keeps private_key address listen_port interface =
      Triple-bind (Triple-lift (validate_wg_key private_key)) λ _.
        Triple-bind (Triple-lift (validate_ipv4_cidr box.is_digit box.digit_value address)) λ _.
          Triple-bind (call-Keeps _ (keeps.makedirs conf_dir)) λ _.
            Triple-bind (call-Keeps _ (keeps.mkstemp conf_dir _)) λ tmp_path.
              Triple-bind
                (Triple-attempt (
                  Triple-bind (call-Keeps _ (keeps.write_text tmp_path _)) λ _.
                    Triple-bind (call-Keeps _ (keeps.chmod tmp_path))
                      λ _. call-Keeps _ (keeps.replace tmp_path _)))
                λ r. Triple-weaken (clean_up-Keeps tmp_path r) (either r) (λ _ w i. i) (λ _ w i. i)

  interface_exists-Keeps : (interface : String) → Keeps I (interface_exists box interface)
  unfolding interface_exists
  interface_exists-Keeps interface = Triple-bind (run-Keeps _) (λ _. Triple-pure _ (λ w i. i))

  pub ensure_interface_up-Keeps :
      (private_key address : String) (listen_port : Option ℕ) (interface : String)
      → Keeps I (ensure_interface_up box private_key address listen_port interface)
  unfolding ensure_interface_up
  ensure_interface_up-Keeps private_key address listen_port interface =
      Triple-bind (write_interface_conf-Keeps private_key address listen_port interface) λ _.
        Triple-bind (interface_exists-Keeps interface) λ there.
          Triple-if there (λ _. Triple-pure tt (λ w i. i))
            (λ _. Triple-bind (run-Keeps _) (λ proc. check_wg-Keeps _ proc))

  pub apply_peer-Keeps :
      (pubkey allowed_ips : String) (endpoint : Option String) (interface : String)
      → Keeps I (apply_peer box pubkey allowed_ips endpoint interface)
  unfolding apply_peer set_peer
  apply_peer-Keeps pubkey allowed_ips endpoint interface =
      Triple-bind (Triple-lift (validate_wg_key pubkey)) λ _.
        Triple-bind (Triple-lift (validate_ipv4_cidr box.is_digit box.digit_value allowed_ips)) λ _.
          Triple-bind (Triple-lift (endpoint_args box endpoint)) λ more.
            Triple-bind (run-Keeps _) λ proc.
              Triple-bind (check_wg-Keeps _ proc)
                λ _. Triple-bind (run-Keeps _) (λ _. Triple-pure tt (λ w i. i))
