-- ===== src/Client/Files/Place/Total.antt =====
-- What `update_attachment_node` answers: it raises nothing, and names a node that is there.
use mathlib.Core.Option.{some-injective}
use mathlib.Core.Bool.{false≢true}
use usbover_ip.Base.{
  String, ◌≡◌, refl, ◌∙◌, sym, Option, none, some, truthy_text, or_text, ◌⊎◌, inl, inr,
}
use usbover_ip.Base.Exec.{Result, ok, err, is_os_error, pure}
use usbover_ip.Base.Exec.Triple.{
  Triple, Outcome, Triple-bind, Triple-pure, Triple-raise, Triple-if, Triple-weaken, Triple-attempt,
  Triple-try_except,
}
use usbover_ip.Outside.{Env, Stat}
use usbover_ip.Client.Files.{DevPaths, StableNode, node_path, s_ischr}
use usbover_ip.Client.Files.Place.{mirror_of, mirror_stat, update_attachment_node}
use usbover_ip.Client.Files.Place.Posix.{Posix, IsOs, os-Triple, Entry}
use usbover_ip.Client.Files.Place.Mirror.{IsMirror, Placed, place_node-Triple}

module _ ⦃env : Env⦄ (fs : Posix) where
  -- A node of the target, at the path of the key.
  pub record Mirrored (key target : String) (a : String × StableNode) (w : env.World) : Type 0 where
    pub at_path : a.0 ≡ node_path key
    pub of_target : a.1.target ≡ target
    pub there : Entry fs (node_path key) (IsMirror fs a.1) w

  abbrev pub Answer : String → String → Option (String × StableNode) → env.World → Type 0
  Answer key target o w =
      (o ≡ none) ⊎ ((a : String × StableNode) × (o ≡ some a) × Mirrored key target a w)

  Placed-Triple :
      (key target : String) (st : Stat) (o : Option String)
      → Triple
          (Placed fs (mirror_of target st) (node_path key) o)
          (pure (elim o [ none ↦ none | some path ↦ some (path, mirror_of target st) ]))
          (Answer key target)
          (λ _ _. ⊥)
  unfolding mirror_of
  Placed-Triple key target st none = Triple-pure none (λ w h. inl refl)
  Placed-Triple key target st (some path) = Triple-pure (some (path, mirror_of target st)) λ w h.
      inr (
        (path, mirror_of target st),
        refl,
        elim h [
          | inl n ↦ cc
          | inr p ↦ record { at_path = some-injective _ _ p.0; of_target = refl; there = p.1 }
        ],
      )

  mirror_stat-Triple :
      (key target : String) (r : Result Stat)
      → Triple
          (Outcome (λ _ _. Unit) (λ e w. IsOs e) r)
          (mirror_stat key target r)
          (Answer key target)
          (λ _ _. ⊥)
  unfolding mirror_stat
  mirror_stat-Triple key target (ok st) =
      Triple-if (s_ischr st.st_mode)
        (λ _.
          Triple-bind
            (Triple-try_except {E' = λ e w. IsOs e} is_os_error
              (Triple-weaken (place_node-Triple fs (mirror_of target st) key) (λ w h. tt)
                (λ a w h. h) (λ e w h. h))
              (λ e named. Triple-pure none (λ w h. inl refl))
              (λ e n w h. absurd (false≢true (sym n ∙ h))))
            (Placed-Triple key target st))
        (λ _. Triple-pure none (λ w h. inl refl))
  mirror_stat-Triple key target (err e) =
      Triple-if (is_os_error e) (λ _. Triple-pure none (λ w h. inl refl))
        (λ n. Triple-raise e (λ w h. absurd (false≢true (sym n ∙ h))))

  abbrev pub target_of : DevPaths → String
  target_of dev_paths = or_text dev_paths.tty (or_text dev_paths.raw "")

  update-Triple :
      (key : String) (dev_paths : DevPaths)
      → Triple
          (λ _. Unit)
          (update_attachment_node key dev_paths)
          (Answer key (target_of dev_paths))
          (λ _ _. ⊥)
  unfolding update_attachment_node
  update-Triple key dev_paths =
      Triple-if (truthy_text (target_of dev_paths))
        (λ _.
          Triple-bind
            (Triple-attempt
              (os-Triple (env.stat (target_of dev_paths)) (λ a w e h. tt) (λ o m w e b i h. i)))
            (mirror_stat-Triple key (target_of dev_paths)))
        (λ _. Triple-pure none (λ w h. inl refl))

  -- `update_attachment_node` raises no exception, whatever the calls of `os` answer: it returns
  -- nothing, or the path of the key and a node of the device's own path, and that node, or a
  -- symbolic link, is at the path then.
  pub update_attachment_node-Mirrored :
      (key : String) (dev_paths : DevPaths) (w : env.World)
      → (o : Option (String × StableNode)) × ((update_attachment_node key dev_paths w).0 ≡ ok o)
        × Answer key (target_of dev_paths) o (update_attachment_node key dev_paths w).1
  update_attachment_node-Mirrored key dev_paths w =
      returns (update_attachment_node key dev_paths w).0 ((update-Triple key dev_paths).at w tt)
    where
      returns :
          (r : Result (Option (String × StableNode))) {v : env.World}
          → Outcome (Answer key (target_of dev_paths)) (λ _ _. ⊥) r v
          → (o : Option (String × StableNode)) × (r ≡ ok o) × Answer key (target_of dev_paths) o v
      returns (ok o) h = (o, refl, h)
      returns (err e) h = absurd h
