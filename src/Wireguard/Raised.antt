-- ===== src/Wireguard/Raised.antt =====
-- What bringing an interface up leaves: the file of the interface, its mode, and the link.
use usbover_ip.Base.{ℕ, String, ◌≡◌, ◌≢◌, refl, ◌∙◌, ◌⊎◌, inl, inr, true, Option, some, eqb, ap}
use usbover_ip.Base.Exec.{Result, ok, err, attempt, ◌>>=◌}
use usbover_ip.Base.Exec.Triple.{
  Triple, Outcome, Triple-bind, Triple-pure, Triple-raise, Triple-if, Triple-weaken, Triple-attempt,
  Triple-lift,
}
use usbover_ip.Wireguard.{
  Box, call, run, check_wg, interface_text, clean_up, write_interface_conf, interface_exists,
  ensure_interface_up,
}
use usbover_ip.Validate.{validate_wg_key}
use usbover_ip.Validate.Cidr.{validate_ipv4_cidr}
use usbover_ip.Wireguard.Links.{conf_path, raises, File, Links, call-Triple, ask-Triple}

module _ {W : Type 0} (box : Box W) (interface : String) (links : Links box interface)
    (before : Option File) (text : String) where
  open links use {up, file}

  -- The file of the interface is as it was.
  abbrev Old : W → Type 0
  Old w = file w (conf_path interface) ≡ before

  -- The file is the whole new text, and private.
  abbrev New : W → Type 0
  New w = file w (conf_path interface) ≡ some (record { text = text; private = true })

  abbrev Whole : W → Type 0
  Whole w = Old w ⊎ New w

  -- The temporary file, when it is ready.
  abbrev Ready : String → W → Type 0
  Ready t w = Old w × (file w t ≡ some (record { text = text; private = true }))

  module _ (t : String) (apart : t ≢ conf_path interface) where
    written-Triple :
        Triple Old
          (call (box.write_text t text))
          (λ _ w. Old w × ((f : File) × (file w t ≡ some f) × (f.text ≡ text)))
          (λ _. Old)
    written-Triple =
        call-Triple (box.write_text t text)
          (λ u w e h. (links.write_keeps w t text _ apart ∙ h, links.write_done w t text e))
          (λ m e w r h. links.write_keeps w t text _ apart ∙ h)

    chmod-Triple :
        Triple
          (λ w. Old w × ((f : File) × (file w t ≡ some f) × (f.text ≡ text)))
          (call (box.chmod t))
          (λ _. Ready t)
          (λ _. Old)
    chmod-Triple =
        call-Triple (box.chmod t)
          (λ u w e h. (
            links.chmod_keeps w t _ apart ∙ h.0,
            links.chmod_done w t h.1.0 e h.1.1
                ∙ ap (λ x. some (record { text = x; private = true })) h.1.2,
          ))
          (λ m e w r h. links.chmod_keeps w t _ apart ∙ h.0)

    replace-Triple :
        Triple (Ready t) (call (box.replace t (conf_path interface))) (λ _. New) (λ _. Old)
    replace-Triple =
        call-Triple (box.replace t (conf_path interface))
          (λ u w e h. links.replace_done w t _ e ∙ h.1)
          (λ m e w r h. links.replace_failed w t _ m r ∙ h.0)

    clean_up-Triple :
        (r : Result (Unit {0}))
        → Triple (Outcome (λ _. New) (λ _. Old) r) (clean_up box t r) (λ _. New) (λ _. Old)
    unfolding clean_up
    clean_up-Triple (ok u) = Triple-pure u (λ w h. h)
    clean_up-Triple (err e) =
        Triple-bind {Q = λ _. Old} (ask-Triple _ (λ w h. links.exists_keeps w t _ ∙ h)) λ left.
          Triple-if left
            (λ _.
              Triple-bind {Q = λ _. Old}
                (call-Triple _ (λ u w r h. links.unlink_keeps w t _ apart ∙ h)
                  (λ m x w r h. links.unlink_keeps w t _ apart ∙ h))
                (λ _. Triple-raise e (λ w h. h)))
            (λ _. Triple-raise e (λ w h. h))

  -- The file is written anew as a whole, or not at all.
  pub write_interface_conf-Triple :
      (private_key address : String) (listen_port : Option ℕ)
      → interface_text box private_key address listen_port ≡ text
      → Triple Old
          (write_interface_conf box private_key address listen_port interface)
          (λ _. New)
          (λ _. Old)
  unfolding write_interface_conf
  write_interface_conf-Triple private_key address listen_port e =
      Triple-bind (Triple-lift (validate_wg_key private_key)) λ _.
        Triple-bind (Triple-lift (validate_ipv4_cidr box.is_digit box.digit_value address)) λ _.
          Triple-bind {Q = λ _. Old}
            (call-Triple _ (λ u w r h. links.makedirs_keeps w _ ∙ h)
              (λ m x w r h. links.makedirs_keeps w _ ∙ h))
            λ _.
              Triple-bind {Q = λ t w. Old w × (t ≢ conf_path interface)}
                (call-Triple _ (λ t w r h. (links.mkstemp_keeps w ∙ h, links.mkstemp_other w t r))
                  (λ m x w r h. links.mkstemp_keeps w ∙ h))
                λ t. record { at = λ w h. (rest t h.1).at w h.0 }
    where
      rest :
          (t : String) (apart : t ≢ conf_path interface)
          → Triple Old
              (attempt (
                  call (box.write_text t (interface_text box private_key address listen_port))
                  >>= λ _. (call (box.chmod t) >>= λ _. call (box.replace t (conf_path interface))))
                >>= λ r. clean_up box t r)
              (λ _. New)
              (λ _. Old)
      rest t apart = rw e (
          Triple-bind
            (Triple-attempt (
              Triple-bind (written-Triple t apart)
                λ _. Triple-bind (chmod-Triple t apart) (λ _. replace-Triple t apart)))
            (λ r. clean_up-Triple t apart r))

  -- The link, whose file stays.
  exists-Triple :
      Triple New
        (interface_exists box interface)
        (λ there w. New w × (there ≡ true → up w ≡ true))
        (λ _. New)
  unfolding interface_exists run
  exists-Triple =
      Triple-bind {Q = λ proc w. New w × (eqb proc.returncode 0 ≡ true → up w ≡ true)}
        (call-Triple _ (λ p w r h. (links.show_keeps w _ ∙ h, links.show_sound w p r))
          (λ m x w r h. links.show_keeps w _ ∙ h))
        (λ proc. Triple-pure _ (λ w h. h))

  quick-Triple :
      Triple New
        (run box (raises interface))
        (λ proc w. New w × (eqb proc.returncode 0 ≡ true → up w ≡ true))
        (λ _. New)
  unfolding run
  quick-Triple =
      call-Triple _ (λ p w r h. (links.raise_keeps w _ ∙ h, links.raise_sound w p r))
        (λ m x w r h. links.raise_keeps w _ ∙ h)

  up-Triple :
      (private_key address : String) (listen_port : Option ℕ)
      → interface_text box private_key address listen_port ≡ text
      → Triple Old
          (ensure_interface_up box private_key address listen_port interface)
          (λ _ w. New w × (up w ≡ true))
          (λ _. Whole)
  unfolding ensure_interface_up check_wg
  up-Triple private_key address listen_port e =
      Triple-bind
        (Triple-weaken (write_interface_conf-Triple private_key address listen_port e) (λ w h. h)
          (λ _ w h. h) (λ _ w h. inl h))
        λ _.
          Triple-weaken
            (Triple-bind exists-Triple λ there.
              Triple-if there (λ y. Triple-pure tt (λ w h. (h.0, h.1 y)))
                λ _.
                  Triple-bind (Triple-weaken quick-Triple (λ w h. h.0) (λ _ w h. h) (λ _ w h. h))
                    λ proc.
                      Triple-if (eqb proc.returncode 0) (λ z. Triple-pure tt (λ w h. (h.0, h.1 z)))
                        (λ _. Triple-raise _ (λ w h. h.0)))
            (λ w h. h) (λ _ w h. h) (λ _ w h. inr h)

-- The file of an interface, as only its owner may read it.
abbrev pub conf_file : {W : Type 0} → Box W → String → String → Option ℕ → File
conf_file box private_key address listen_port = record {
  text = interface_text box private_key address listen_port;
  private = true;
}

-- What the calls of the box do to the link and the file of the interface is `Links`. If bringing an
-- interface up returns, the link is up, and its file has exactly the text for the key, the address
-- and the port, which only its owner may read. If it raises, at whichever step, the file is the one
-- from before or that new one as a whole.
pub ensure_interface_up-Raised :
    {W : Type 0} (box : Box W) (private_key address : String) (listen_port : Option ℕ)
    (interface : String) (links : Links box interface) (w : W)
    → Outcome
        (λ _ w'.
          (links.file w' (conf_path interface)
            ≡ some (conf_file box private_key address listen_port))
          × (links.up w' ≡ true))
        (λ _ w'.
          (links.file w' (conf_path interface) ≡ links.file w (conf_path interface))
          ⊎ (links.file w' (conf_path interface)
              ≡ some (conf_file box private_key address listen_port)))
        (ensure_interface_up box private_key address listen_port interface w).0
        (ensure_interface_up box private_key address listen_port interface w).1
ensure_interface_up-Raised box private_key address listen_port interface links w =
    (up-Triple box interface links (links.file w (conf_path interface)) _ private_key address
        listen_port refl).at
      w refl
