-- ===== src/Client/Files/Place/Keeps.antt =====
-- What `_place_node` leaves alone of a file that is at its path.
use mathlib.Core.Bool.{false≢true}
use mathlib.Core.Option.{some-injective, none-ne-some}
use usbover_ip.Base.{String, ◌≡◌, refl, ◌∙◌, sym, ap, true, Option, none, some}
use usbover_ip.Base.Exec.{Result, ok, err, file_not_found}
use usbover_ip.Base.Exec.Triple.{
  Triple, Outcome, Outcome-ok, Triple-bind, Triple-pure, Triple-raise, Triple-if, Triple-weaken,
  Triple-attempt,
}
use usbover_ip.Outside.{Env, Stat}
use usbover_ip.Client.Files.{StableNode, node_dir, node_path}
use usbover_ip.Client.Files.Place.{is_mirror, replace_node, place_over, place_node}
use usbover_ip.Client.Files.Place.Posix.{
  Posix, SameDevice, IsOs, os-Triple, Entry, SameDevice-trans,
}
use usbover_ip.Client.Files.Place.Mirror.{
  lstat-Triple, refresh_access-Triple, is_mirror-of, IsDevice-of,
}
use usbover_ip.Client.Files.Place.Replacing.{replace_node-fails}

module _ ⦃env : Env⦄ (fs : Posix) (node : StableNode) where
  module _ (key : String) (st0 : Stat) where
    abbrev Here : env.World → Type 0
    Here w = fs.entry w (node_path key) ≡ some st0

    found : Triple Here (place_node key node) (λ o w. o ≡ none → Here w) (λ _ _. Unit)
    unfolding place_node place_over
    found =
        Triple-bind {Q = λ _. Here}
          (os-Triple (env.makedirs node_dir)
            (λ a w e h. fs.makedirs_keeps node_dir (node_path key) st0 w h) (λ o m w e b i h. tt))
          λ _.
            Triple-bind
              (Triple-attempt {E' = λ _ _. Unit} (
                lstat-Triple fs node (node_path key)
                  (λ w h. fs.lstat_keeps (node_path key) (node_path key) w ∙ h)))
              over
      where
        replaced :
            {P : env.World → Type 0}
            → ((w : env.World) → P w → Here w)
            → Triple P (replace_node (node_path key) node) (λ o w. o ≡ none → Here w) (λ _ _. Unit)
        replaced here =
            Triple-weaken (replace_node-fails fs node {F = λ st. st ≡ st0} (node_path key))
              (λ w h. (st0, here w h, refl)) (λ o w h e. let r = h e in r.1 ∙ ap some r.2)
              (λ e w h. tt)

        over :
            (r : Result Stat)
            → Triple
                (Outcome
                  (λ st w. Here w × (fs.entry w (node_path key) ≡ some st))
                  (λ e w.
                    IsOs e
                    × Here w
                    × ((m : String) → e ≡ file_not_found m → fs.entry w (node_path key) ≡ none))
                  r)
                (place_over (node_path key) node r)
                (λ o w. o ≡ none → Here w)
                (λ _ _. Unit)
        over (ok cur) =
            Triple-if (is_mirror node cur)
              (λ y.
                Triple-bind
                  (Triple-weaken {Q = λ _ _. Unit}
                    (refresh_access-Triple fs node {F = λ _. Unit} (node_path key) cur
                      (λ _ _ _ _. tt))
                    (λ w h. (st0, h.0, tt)) (λ a w h. tt) (λ e w h. tt))
                  (λ _. Triple-pure (some (node_path key)) (λ w h e. cc)))
              (λ n. replaced (λ w h. h.0))
        over (err (file_not_found m)) = replaced (λ w h. h.1)
        over (err e) = Triple-raise e (λ w h. tt)

    -- Where `_place_node` gives up, the file that was at the path is there as it was: its kind, its
    -- numbers, its access and its inode.
    pub place_node-fails :
        (w : env.World)
        → Here w
        → (place_node key node w).0 ≡ ok none
        → Here (place_node key node w).1
    place_node-fails w here fails =
        Outcome-ok (λ o w. o ≡ none → Here w) (λ _ _. Unit) (place_node key node w).0
          (found.at w here) fails refl

    module _ (mirror : is_mirror node st0 ≡ true) where
      abbrev Kept : env.World → Type 0
      Kept = Entry fs (node_path key) (SameDevice st0)

      kept : Triple Kept (place_node key node) (λ _. Kept) (λ _. Kept)
      unfolding place_node place_over
      kept =
          Triple-bind {Q = λ _. Kept}
            (os-Triple (env.makedirs node_dir)
              (λ a w e h. (h.0, fs.makedirs_keeps node_dir (node_path key) h.0 w h.1, h.2))
              (λ o m w e b i h. (h.0, fs.makedirs_keeps node_dir (node_path key) h.0 w h.1, h.2)))
            λ _.
              Triple-bind
                (Triple-attempt {E' = λ _. Kept} (
                  lstat-Triple fs node (node_path key)
                    (λ w h. (h.0, fs.lstat_keeps (node_path key) (node_path key) w ∙ h.1, h.2))))
                over
        where
          still : (st : Stat) → SameDevice st0 st → is_mirror node st ≡ true
          still st same =
              let d = IsDevice-of fs node st0 mirror in
              is_mirror-of fs node st (same.same_kind ∙ d.0, same.same_rdev ∙ d.1)

          over :
              (r : Result Stat)
              → Triple
                  (Outcome
                    (λ st w. Kept w × (fs.entry w (node_path key) ≡ some st))
                    (λ e w.
                      IsOs e
                      × Kept w
                      × ((m : String) → e ≡ file_not_found m → fs.entry w (node_path key) ≡ none))
                    r)
                  (place_over (node_path key) node r)
                  (λ _. Kept)
                  (λ _. Kept)
          over (ok cur) =
              Triple-if (is_mirror node cur)
                (λ y.
                  Triple-bind
                    (Triple-weaken
                      (refresh_access-Triple fs node {F = SameDevice st0} (node_path key) cur
                        (λ st st' s s0. SameDevice-trans s0 s))
                      (λ w h. h.0) (λ a w h. h) (λ e w h. absurd h))
                    (λ _. Triple-pure (some (node_path key)) (λ w h. h)))
                (λ n. record {
                  at = λ w h. absurd (
                      false≢true (
                        sym n
                        ∙ ap (is_mirror node) (some-injective _ _ (sym h.1 ∙ h.0.1))
                        ∙ still h.0.0 h.0.2));
                })
          over (err (file_not_found m)) = record {
            at = λ w h. absurd (none-ne-some _ (sym (h.2 m refl) ∙ h.1.1));
          }
          over (err e) = Triple-raise e (λ w h. h.1)

      -- A node that is the device already stays: whatever the calls answer, and also where
      -- `_place_node` raises, the path has the same inode, device numbers and kind afterwards.
      pub place_node-SameDevice :
          (w : env.World) → fs.entry w (node_path key) ≡ some st0 → Kept (place_node key node w).1
      place_node-SameDevice w here =
          either (place_node key node w).0
            (kept.at w (st0, here, record { same_kind = refl; same_rdev = refl; same_ino = refl }))
        where
          either :
              (r : Result (Option String)) {v : env.World}
              → Outcome (λ _. Kept) (λ _. Kept) r v
              → Kept v
          either (ok a) h = h
          either (err e) h = h
