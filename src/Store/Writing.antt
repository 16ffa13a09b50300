-- ===== src/Store/Writing.antt =====
-- A write of the store: the new document is in the file, or the file is as it was.
use usbover_ip.Store.Laws.{Laws, call-Triple}
use usbover_ip.Base.{String, ◌≡◌, ◌≢◌, ◌∙◌, Option, some}
use usbover_ip.Base.Dict.{Dict}
use usbover_ip.Base.Exec.{Exc, Result, ok, err, ◌>>=◌, attempt, ◌>>◌}
use usbover_ip.Base.Exec.Triple.{
  Triple, Outcome, Triple-bind, Triple-pure, Triple-raise, Triple-if, Triple-weaken, Triple-attempt,
}
use usbover_ip.Store.{Volume, plain, clean_up, finish, write}

module _ ⦃volume : Volume⦄ (laws : Laws) where
  -- The file's text, or that there is no file.
  abbrev pub Holds : Option volume.Text → volume.World → Type 0
  Holds c w = laws.content w ≡ c

  plain-Triple :
      {A : Type 0} {c : Option volume.Text} {E : Exc → volume.World → Type 0}
      (f : volume.World → A × volume.World)
      → ((w : volume.World) → laws.content (f w).1 ≡ laws.content w)
      → Triple (Holds c) (plain f) (λ _. Holds c) E
  unfolding plain
  plain-Triple f keeps = record { at = λ w h. keeps w ∙ h }

  clean_up-Triple :
      {c : Option volume.Text} (tmp : String) (e : Exc)
      → tmp ≢ volume.path
      → Triple (Holds c) (clean_up tmp e) (λ _ _. ⊥) (λ _. Holds c)
  unfolding clean_up
  clean_up-Triple {c} tmp e new =
      Triple-bind (plain-Triple (volume.exists tmp) (laws.exists_keeps tmp)) λ left.
        Triple-if left
          (λ _.
            Triple-bind {Q = λ _. Holds c}
              (call-Triple (volume.unlink tmp) (λ u w r h. laws.unlink_keeps tmp w new ∙ h)
                (λ x w r h. laws.unlink_keeps tmp w new ∙ h))
              (λ _. Triple-raise e (λ w h. h)))
          (λ _. Triple-raise e (λ w h. h))

  finish-Triple :
      {c : Option volume.Text} {Q : Unit → volume.World → Type 0} (tmp : String) (r : Result Unit)
      → tmp ≢ volume.path
      → Triple (Outcome Q (λ _. Holds c) r) (finish tmp r) Q (λ _. Holds c)
  unfolding finish
  finish-Triple tmp (ok u) new = Triple-pure u (λ w h. h)
  finish-Triple tmp (err e) new =
      Triple-weaken (clean_up-Triple tmp e new) (λ w h. h) (λ u w h. absurd h) (λ x w h. h)

  -- The document is in the file, or the file is as it was.
  pub write-Triple :
      {c : Option volume.Text} (doc : Dict volume.Value)
      → Triple (Holds c) (write doc) (λ _. Holds (some (volume.dumps doc))) (λ _. Holds c)
  unfolding write
  write-Triple {c} doc =
      Triple-bind {Q = λ tmp w. (tmp ≢ volume.path) × Holds c w}
        (call-Triple volume.mkstemp
          (λ tmp w r h. (laws.mkstemp_new tmp w r, laws.mkstemp_keeps w ∙ h))
          (λ x w r h. laws.mkstemp_keeps w ∙ h))
        written
    where
      Filled : String → volume.World → Type 0
      Filled tmp w = (laws.held w tmp ≡ some (volume.dumps doc)) × Holds c w

      put :
          (tmp : String)
          → tmp ≢ volume.path
          → Triple
              (Holds c)
              (do volume.write_text tmp (volume.dumps doc); volume.chmod tmp; volume.replace tmp)
              (λ _. Holds (some (volume.dumps doc)))
              (λ _. Holds c)
      put tmp new =
          Triple-bind {Q = λ _. Filled tmp}
            (call-Triple (volume.write_text tmp (volume.dumps doc))
              (λ u w r h. (
                laws.write_text_done tmp (volume.dumps doc) w r,
                laws.write_text_keeps tmp (volume.dumps doc) w new ∙ h,
              ))
              (λ x w r h. laws.write_text_keeps tmp (volume.dumps doc) w new ∙ h))
            λ _.
              Triple-bind {Q = λ _. Filled tmp}
                (call-Triple (volume.chmod tmp)
                  (λ u w r h. (laws.chmod_held tmp w ∙ h.0, laws.chmod_keeps tmp w ∙ h.1))
                  (λ x w r h. laws.chmod_keeps tmp w ∙ h.1))
                λ _.
                  call-Triple (volume.replace tmp) (λ u w r h. laws.replace_done tmp w r ∙ h.0)
                    (λ x w r h. laws.replace_failed tmp x w r ∙ h.1)

      written :
          (tmp : String)
          → Triple
              (λ w. (tmp ≢ volume.path) × Holds c w)
              (attempt (do
                volume.write_text tmp (volume.dumps doc)
                volume.chmod tmp
                volume.replace tmp)
                >>= finish tmp)
              (λ _. Holds (some (volume.dumps doc)))
              (λ _. Holds c)
      written tmp = record {
        at = λ w h.
            (Triple-bind (Triple-attempt {E' = λ _. Holds c} (put tmp h.0))
                (λ r. finish-Triple tmp r h.0)).at
              w h.1;
      }
