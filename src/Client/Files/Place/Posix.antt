-- ===== src/Client/Files/Place/Posix.antt =====
-- What `_place_node` uses of the calls of the `os` module: what they do to the entry at a path.
use text.Mathlib.TextLemmas.{cons-ne-nil, cons-append, append_cancel_left, append-nil}
use usbover_ip.Client.Files.Place.{temporary}
use usbover_ip.Base.{ℕ, String, ◌≡◌, ◌≢◌, refl, ◌∙◌, true, Option, none, some, ◌<>◌, sym}
use usbover_ip.Base.Exec.{Exc, err, is_os_error}
use usbover_ip.Base.Exec.Triple.{Triple, Outcome}
use usbover_ip.Outside.{Env, Stat, Os, done, not_found, not_permitted, failed}
use usbover_ip.Client.Files.{result, os, s_ischr, s_islnk, Files}

module _ ⦃env : Env⦄ where
  -- Device, inode and kind are the same.
  pub record SameDevice (st st' : Stat) : Type 0 where
    pub same_kind : s_ischr st'.st_mode ≡ s_ischr st.st_mode
    pub same_rdev : st'.st_rdev ≡ st.st_rdev
    pub same_ino : st'.st_ino ≡ st.st_ino

  pub SameDevice-trans :
      {st1 st2 st3 : Stat} → SameDevice st1 st2 → SameDevice st2 st3 → SameDevice st1 st3
  SameDevice-trans a b = record {
    same_kind = b.same_kind ∙ a.same_kind;
    same_rdev = b.same_rdev ∙ a.same_rdev;
    same_ino = b.same_ino ∙ a.same_ino;
  }

  -- What the file system has at a path, the last part of which is not followed, and what the calls
  -- do to it.
  pub record Posix : Type 0 where
    pub entry : env.World → String → Option Stat
    pub lstat_keeps : (p q : String) (w : env.World) → entry (env.lstat p w).1 q ≡ entry w q
    pub lstat_done :
        (p : String) (st : Stat) (w : env.World) → (env.lstat p w).0 ≡ done st → entry w p ≡ some st
    pub lstat_not_found :
        (p m : String) (w : env.World) → (env.lstat p w).0 ≡ not_found m → entry w p ≡ none
    -- a file that is there stays
    pub makedirs_keeps :
        (d q : String) (st : Stat) (w : env.World)
        → entry w q ≡ some st
        → entry (env.makedirs d w).1 q ≡ some st
    pub mknod_other :
        (p q : String) (m r : ℕ) (w : env.World) → q ≢ p → entry (env.mknod p m r w).1 q ≡ entry w q
    pub mknod_done :
        (p : String) (m r : ℕ) (w : env.World)
        → (env.mknod p m r w).0 ≡ done tt
        → (st : Stat) × (entry (env.mknod p m r w).1 p ≡ some st)
          × (s_ischr st.st_mode ≡ true)
          × (st.st_rdev ≡ r)
    pub chmod_other :
        (p q : String) (m : ℕ) (w : env.World) → q ≢ p → entry (env.chmod p m w).1 q ≡ entry w q
    pub chmod_same :
        (p : String) (m : ℕ) (st : Stat) (w : env.World)
        → entry w p ≡ some st
        → (st' : Stat) × (entry (env.chmod p m w).1 p ≡ some st') × SameDevice st st'
    pub chown_other :
        (p q : String) (u g : ℕ) (w : env.World) → q ≢ p → entry (env.chown p u g w).1 q ≡ entry w q
    pub chown_same :
        (p : String) (u g : ℕ) (st : Stat) (w : env.World)
        → entry w p ≡ some st
        → (st' : Stat) × (entry (env.chown p u g w).1 p ≡ some st') × SameDevice st st'
    pub symlink_other :
        (t p q : String) (w : env.World) → q ≢ p → entry (env.symlink t p w).1 q ≡ entry w q
    pub symlink_done :
        (t p : String) (w : env.World)
        → (env.symlink t p w).0 ≡ done tt
        → (st : Stat) × (entry (env.symlink t p w).1 p ≡ some st) × (s_islnk st.st_mode ≡ true)
    -- a rename is done as a whole or not at all
    pub replace_done :
        (s d : String) (w : env.World)
        → (env.replace s d w).0 ≡ done tt
        → entry (env.replace s d w).1 d ≡ entry w s
    pub replace_not_done :
        (s d : String) (w : env.World)
        → (env.replace s d w).0 ≢ done tt
        → entry (env.replace s d w).1 d ≡ entry w d
    pub remove_other :
        (p q : String) (w : env.World) → q ≢ p → entry (env.remove p w).1 q ≡ entry w q

  abbrev pub IsOs : Exc → Type 0
  IsOs e = is_os_error e ≡ true

  pub os-Triple :
      {A : Type 0} {P : env.World → Type 0} {Q : A → env.World → Type 0}
      {E : Exc → env.World → Type 0} (f : env.World → Os A × env.World)
      → ((a : A) (w : env.World) → (f w).0 ≡ done a → P w → Q a (f w).1)
      → ((o : Os A) (m : Exc) (w : env.World)
          → (f w).0 ≡ o
          → result o ≡ err m
          → IsOs m
          → P w
          → E m (f w).1)
      → Triple P (os f) Q E
  unfolding os
  os-Triple {A} {P} {Q} {E} f good bad = record { at = λ w h. go w h (f w).0 refl }
    where
      go : (w : env.World) → P w → (o : Os A) → (f w).0 ≡ o → Outcome Q E (result o) (f w).1
      go w h (done a) e = good a w e h
      go w h (not_found m) e = bad (not_found m) _ w e refl refl h
      go w h (not_permitted m) e = bad (not_permitted m) _ w e refl refl h
      go w h (failed m) e = bad (failed m) _ w e refl refl h

  module _ (fs : Posix) where
    -- There is a file at a path, and what it is like.
    abbrev pub Entry : String → (Stat → Type 0) → env.World → Type 0
    Entry p F w = (st : Stat) × (fs.entry w p ≡ some st) × F st

    -- A block keeps a property of the file at a path, and raises `OSError`s at most.
    abbrev pub KeepsEntry : {A : Type 0} → String → (Stat → Type 0) → Files A → Type 0
    KeepsEntry p F m = Triple (Entry p F) m (λ _. Entry p F) (λ e w. IsOs e × Entry p F w)

    -- What is at another path stays.
    pub os-other :
        {A : Type 0} {F : Stat → Type 0} (f : env.World → Os A × env.World) (q : String)
        → ((w : env.World) → fs.entry (f w).1 q ≡ fs.entry w q)
        → KeepsEntry q F (os f)
    os-other f q same =
        os-Triple f (λ a w e h. (h.0, same w ∙ h.1, h.2))
          (λ o m w e b i h. (i, (h.0, same w ∙ h.1, h.2)))

    -- The temporary file stands at another path.
    pub temporary-ne : (path : String) → path ≢ temporary path
    unfolding temporary
    temporary-ne path e =
        let rest = env.str env.getpid in
        let e' : ◌≡◌ {A = String} "" (".tmp-" <> rest) =
          append_cancel_left path "" (".tmp-" <> rest) (append-nil path ∙ e) in
        absurd (cons-ne-nil "." ("tmp-" <> rest) (sym (cons-append "." "tmp-" rest) ∙ sym e'))

    -- A step that changes the device at a path in its access alone.
    pub os-same :
        {A : Type 0} {F : Stat → Type 0} (f : env.World → Os A × env.World) (p : String)
        → ((st : Stat) (w : env.World)
            → fs.entry w p ≡ some st
            → (st' : Stat) × (fs.entry (f w).1 p ≡ some st') × SameDevice st st')
        → ((st st' : Stat) → SameDevice st st' → F st → F st')
        → KeepsEntry p F (os f)
    os-same f p same stable =
        os-Triple f (λ a w e h. let r = same h.0 w h.1 in (r.0, r.1, stable h.0 r.0 r.2 h.2))
          (λ o m w e b i h. let r = same h.0 w h.1 in (i, (r.0, r.1, stable h.0 r.0 r.2 h.2)))
