-- ===== src/Client/Files/Place/Replacing.antt =====
-- A replacement that fails leaves the file at its path alone.
use mathlib.Core.Bool.{false≢true}
use usbover_ip.Base.{String, ◌≡◌, ◌∙◌, sym, none, some, truthy_text, ◌≢◌}
use usbover_ip.Base.Exec.{Exc, err, is_os_error, is_permission_error}
use usbover_ip.Base.Exec.Triple.{
  Triple, Triple-bind, Triple-pure, Triple-raise, Triple-if, Triple-weaken, Triple-try_except,
}
use usbover_ip.Outside.{Env, Stat, Os, done}
use usbover_ip.Client.Files.{result, StableNode}
use usbover_ip.Client.Files.Place.{make_node, make_node_or_link, temporary, replace_node}
use usbover_ip.Client.Files.Place.Posix.{
  Posix, IsOs, os-Triple, os-other, Entry, KeepsEntry, temporary-ne,
}

module _ ⦃env : Env⦄ (fs : Posix) (node : StableNode) where
  module _ {F : Stat → Type 0} (path : String) where
    -- Nothing that is done under another name changes the file at the path.
    make_node-other : (tmp : String) → path ≢ tmp → KeepsEntry fs path F (make_node tmp node)
    unfolding make_node
    make_node-other tmp differs =
        Triple-bind
          (os-other fs (env.mknod tmp node.mode (env.makedev node.major node.minor)) path
            (λ w. fs.mknod_other tmp path node.mode (env.makedev node.major node.minor) w differs))
          λ _.
            Triple-bind
              (os-other fs (env.chmod tmp node.mode) path
                (λ w. fs.chmod_other tmp path node.mode w differs))
              λ _.
                os-other fs (env.chown tmp node.uid node.gid) path
                  (λ w. fs.chown_other tmp path node.uid node.gid w differs)

    make_node_or_link-other :
        (tmp : String) → path ≢ tmp → KeepsEntry fs path F (make_node_or_link tmp node)
    unfolding make_node_or_link
    make_node_or_link-other tmp differs =
        Triple-try_except {E' = λ e w. IsOs e × Entry fs path F w} is_permission_error
          (make_node-other tmp differs)
          (λ e named.
            Triple-if (truthy_text node.target)
              (λ _.
                Triple-weaken
                  (os-other fs (env.symlink node.target tmp) path
                    (λ w. fs.symlink_other node.target tmp path w differs))
                  (λ w h. h.1) (λ a w h. h) (λ e w h. h))
              (λ _. Triple-raise e (λ w h. h)))
          (λ e n w h. h)

    -- A replacement that fails has not touched the file.
    pub replace_node-fails :
        Triple
          (Entry fs path F)
          (replace_node path node)
          (λ o w. o ≡ none → Entry fs path F w)
          (λ _ _. ⊥)
    unfolding replace_node
    replace_node-fails =
        Triple-try_except {E' = λ e w. IsOs e × Entry fs path F w} is_os_error
          (Triple-bind (make_node_or_link-other (temporary path) (temporary-ne fs path)) λ _.
            Triple-bind {Q = λ _ _. Unit}
              (os-Triple (env.replace (temporary path) path) (λ a w e h. tt)
                (λ o m w e b i h. (
                  i,
                  (
                    h.0,
                    fs.replace_not_done (temporary path) path w (λ d. not_done e b d) ∙ h.1,
                    h.2,
                  ),
                )))
              (λ _. Triple-pure (some path) (λ w h e. cc)))
          (λ e named.
            Triple-bind {Q = λ _. Entry fs path F}
              (Triple-try_except {E' = λ e w. IsOs e × Entry fs path F w} is_os_error
                (Triple-weaken
                  (os-other fs (env.remove (temporary path)) path
                    (λ w. fs.remove_other (temporary path) path w (temporary-ne fs path)))
                  (λ w h. h.1) (λ a w h. h) (λ e w h. h))
                (λ e named. Triple-pure tt (λ w h. h.1))
                (λ e n w h. absurd (false≢true (sym n ∙ h.0))))
              (λ _. Triple-pure none (λ w h e. h)))
          (λ e n w h. absurd (false≢true (sym n ∙ h.0)))
      where
        not_done :
            {A : Type 0} {o r : Os A} {a : A} {m : Exc} → r ≡ o → result o ≡ err m → r ≡ done a → ⊥
        not_done {o = done a} e b d = cc
        not_done {o} e b d = cc
