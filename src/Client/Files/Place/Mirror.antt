-- ===== src/Client/Files/Place/Mirror.antt =====
-- What `_place_node` leaves at its path, from what the calls of the `os` module promise.
use mathlib.Core.Option.{some-injective}
use mathlib.Core.Bool.{false≢true}
use usbover_ip.Client.Files.Place.{
  is_mirror, refresh_access, make_node, make_node_or_link, temporary, replace_node, place_over,
  place_node, same_access,
}
use usbover_ip.Base.{
  ℕ, String, ◌≡◌, refl, ◌∙◌, true, Option, none, some, sym, ap, ◌&&◌, ◌⊎◌, inl, inr, eqb,
  truthy_text, and_true, eqb-true, eqb_refl,
}
use usbover_ip.Base.Exec.{Exc, err, Result, ok, is_os_error, is_permission_error, file_not_found}
use usbover_ip.Base.Exec.Triple.{
  Triple, Outcome, Triple-bind, Triple-pure, Triple-raise, Triple-if, Triple-weaken, Triple-attempt,
  Triple-try_except, Outcome-ok,
}
use usbover_ip.Outside.{Env, Stat, Os, done, not_found, not_permitted, failed}
use usbover_ip.Client.Files.{result, os, s_ischr, s_islnk, StableNode, node_dir, node_path}
use usbover_ip.Client.Files.Place.Posix.{Posix, SameDevice, IsOs, os-Triple, os-same, Entry}

module _ ⦃env : Env⦄ (fs : Posix) (node : StableNode) where
  abbrev rdev : ℕ
  rdev = env.makedev node.major node.minor

  -- A device with the node's numbers.
  abbrev pub IsDevice : Stat → Type 0
  IsDevice st = (s_ischr st.st_mode ≡ true) × (st.st_rdev ≡ env.makedev node.major node.minor)

  -- Or, where no node may be made, a symbolic link.
  abbrev pub IsMirror : Stat → Type 0
  IsMirror st = IsDevice st ⊎ (s_islnk st.st_mode ≡ true)

  IsDevice-same : (st st' : Stat) → SameDevice st st' → IsDevice st → IsDevice st'
  IsDevice-same st st' s d = (s.same_kind ∙ d.0, s.same_rdev ∙ d.1)

  make_node-Triple :
      (tmp : String)
      → Triple (λ _. Unit) (make_node tmp node) (λ _. Entry fs tmp IsDevice) (λ e w. IsOs e)
  unfolding make_node
  make_node-Triple tmp =
      Triple-bind
        (os-Triple (env.mknod tmp node.mode rdev)
          (λ a w e h. let r = fs.mknod_done tmp node.mode rdev w e in (r.0, r.1, (r.2, r.3)))
          (λ o m w e b i h. i))
        λ _.
          Triple-bind
            (Triple-weaken
              (os-same fs {F = IsDevice} (env.chmod tmp node.mode) tmp
                (λ st w h. fs.chmod_same tmp node.mode st w h) IsDevice-same)
              (λ w h. h) (λ a w h. h) (λ e w h. h.0))
            λ _.
              Triple-weaken
                (os-same fs {F = IsDevice} (env.chown tmp node.uid node.gid) tmp
                  (λ st w h. fs.chown_same tmp node.uid node.gid st w h) IsDevice-same)
                (λ w h. h) (λ a w h. h) (λ e w h. h.0)

  make_node_or_link-Triple :
      (tmp : String)
      → Triple (λ _. Unit) (make_node_or_link tmp node) (λ _. Entry fs tmp IsMirror) (λ e w. IsOs e)
  unfolding make_node_or_link
  make_node_or_link-Triple tmp =
      Triple-try_except is_permission_error
        (Triple-weaken (make_node-Triple tmp) (λ w h. h) (λ a w h. (h.0, h.1, inl h.2))
          (λ e w h. h))
        (λ e named.
          Triple-if (truthy_text node.target)
            (λ _.
              os-Triple (env.symlink node.target tmp)
                (λ a w e h. let r = fs.symlink_done node.target tmp w e in (r.0, r.1, inr r.2))
                (λ o m w e b i h. i))
            (λ _. Triple-raise e (λ w h. h)))
        (λ e n w h. h)

  -- The answer names the path, and then there is the node, or it is `none`.
  abbrev pub Placed : String → Option String → env.World → Type 0
  Placed path o w = (o ≡ none) ⊎ ((o ≡ some path) × Entry fs path IsMirror w)

  replace_node-Triple :
      (path : String) → Triple (λ _. Unit) (replace_node path node) (Placed path) (λ _ _. ⊥)
  unfolding replace_node
  replace_node-Triple path =
      Triple-try_except {E' = λ e w. IsOs e} is_os_error
        (Triple-bind (make_node_or_link-Triple (temporary path)) λ _.
          Triple-bind
            (os-Triple {Q = λ _. Entry fs path IsMirror} (env.replace (temporary path) path)
              (λ a w e h. (h.0, fs.replace_done (temporary path) path w e ∙ h.1, h.2))
              (λ o m w e b i h. i))
            (λ _. Triple-pure (some path) (λ w h. inr (refl, h))))
        (λ e named.
          Triple-bind {Q = λ _ _. Unit}
            (Triple-try_except {E' = λ e w. IsOs e} is_os_error
              (os-Triple (env.remove (temporary path)) (λ a w e h. tt) (λ o m w e b i h. i))
              (λ e named. Triple-pure tt (λ w h. tt)) (λ e n w h. absurd (false≢true (sym n ∙ h))))
            (λ _. Triple-pure none (λ w h. inl refl)))
        (λ e n w h. absurd (false≢true (sym n ∙ h)))

  pub IsDevice-of : (st : Stat) → is_mirror node st ≡ true → IsDevice st
  unfolding is_mirror
  IsDevice-of st m =
      let d = and_true (s_ischr st.st_mode) (eqb st.st_rdev rdev) m in
      (d.0, eqb-true st.st_rdev rdev d.1)

  pub is_mirror-of : (st : Stat) → IsDevice st → is_mirror node st ≡ true
  unfolding is_mirror
  is_mirror-of st d =
      ap (λ b. b && eqb st.st_rdev rdev) d.0 ∙ ap (λ r. eqb r rdev) d.1 ∙ eqb_refl rdev

  -- The access is refreshed on the same node, which stays whatever the calls answer.
  pub refresh_access-Triple :
      {F : Stat → Type 0} (path : String) (cur : Stat)
      → ((st st' : Stat) → SameDevice st st' → F st → F st')
      → Triple (Entry fs path F) (refresh_access path node cur) (λ _. Entry fs path F) (λ _ _. ⊥)
  unfolding refresh_access
  refresh_access-Triple {F} path cur stable =
      Triple-if (same_access node cur) (λ _. Triple-pure tt (λ w h. h))
        λ _.
          Triple-try_except {E' = λ e w. IsOs e × Entry fs path F w} is_os_error
            (Triple-bind
              (os-same fs (env.chmod path node.mode) path
                (λ st w h. fs.chmod_same path node.mode st w h) stable)
              (λ _.
                os-same fs (env.chown path node.uid node.gid) path
                  (λ st w h. fs.chown_same path node.uid node.gid st w h) stable))
            (λ e named. Triple-pure tt (λ w h. h.1)) (λ e n w h. absurd (false≢true (sym n ∙ h.0)))

  -- What the second look at the path finds.
  pub lstat-Triple :
      {P : env.World → Type 0} (path : String)
      → ((w : env.World) → P w → P (env.lstat path w).1)
      → Triple P
          (os (env.lstat path))
          (λ st w. P w × (fs.entry w path ≡ some st))
          (λ e w. IsOs e × P w × ((m : String) → e ≡ file_not_found m → fs.entry w path ≡ none))
  lstat-Triple path keeps =
      os-Triple (env.lstat path)
        (λ st w e h. (keeps w h, fs.lstat_keeps path path w ∙ fs.lstat_done path st w e))
        (λ o m w e b i h. (i, keeps w h, missing o w e b))
    where
      missing :
          (o : Os Stat) {m : Exc} (w : env.World)
          → (env.lstat path w).0 ≡ o
          → result o ≡ err m
          → (n : String) → m ≡ file_not_found n
          → fs.entry (env.lstat path w).1 path ≡ none
      missing (done a) w e b n c = cc
      missing (not_found k) w e b n c = fs.lstat_keeps path path w ∙ fs.lstat_not_found path k w e
      missing (not_permitted k) w e b n c = cc
      missing (failed k) w e b n c = cc

  place_over-Triple :
      (path : String) (r : Result Stat)
      → Triple
          (Outcome (λ st w. Unit × (fs.entry w path ≡ some st)) (λ e w. IsOs e) r)
          (place_over path node r)
          (Placed path)
          (λ e w. IsOs e)
  unfolding place_over
  place_over-Triple path (ok cur) =
      Triple-if (is_mirror node cur)
        (λ y.
          Triple-bind
            (Triple-weaken (refresh_access-Triple {F = IsDevice} path cur IsDevice-same)
              (λ w h. (cur, h.1, IsDevice-of cur y)) (λ a w h. h) (λ e w h. absurd h))
            (λ _. Triple-pure (some path) (λ w h. inr (refl, (h.0, h.1, inl h.2)))))
        (λ n. Triple-weaken (replace_node-Triple path) (λ w h. tt) (λ a w h. h) (λ e w h. absurd h))
  place_over-Triple path (err (file_not_found m)) =
      Triple-weaken (replace_node-Triple path) (λ w h. tt) (λ a w h. h) (λ e w h. absurd h)
  place_over-Triple path (err e) = Triple-raise e (λ w h. h)

  pub place_node-Triple :
      (key : String)
      → Triple (λ _. Unit) (place_node key node) (Placed (node_path key)) (λ e w. IsOs e)
  unfolding place_node
  place_node-Triple key =
      Triple-bind {Q = λ _ _. Unit}
        (os-Triple (env.makedirs node_dir) (λ a w e h. tt) (λ o m w e b i h. i))
        λ _.
          Triple-bind
            (Triple-attempt {E' = λ e w. IsOs e} (
              Triple-weaken (lstat-Triple (node_path key) (λ w h. tt)) (λ w h. h) (λ st w h. h)
                (λ e w h. h.0)))
            (λ r. place_over-Triple (node_path key) r)

  -- Where `_place_node` returns a path, it is the path of the key, and there is a character device
  -- with the node's numbers, or a symbolic link, whatever was there before.
  pub place_node-IsMirror :
      (key path : String) (w : env.World)
      → (place_node key node w).0 ≡ ok (some path)
      → (path ≡ node_path key) × Entry fs (node_path key) IsMirror (place_node key node w).1
  place_node-IsMirror key path w returns =
      elim (Outcome-ok (Placed (node_path key)) (λ e w. IsOs e) (place_node key node w).0
        ((place_node-Triple key).at w tt) returns) [
          | inl none_is ↦ cc
          | inr placed ↦ (some-injective _ _ placed.0, placed.1)
        ]
