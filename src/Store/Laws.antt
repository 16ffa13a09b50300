-- ===== src/Store/Laws.antt =====
-- What the store relies on: dicts with the defaults under them, and what the system's calls do.
use usbover_ip.Base.{String, ◌≡◌, ◌≢◌, refl, ◌∙◌, Option, none, some, [], ◌∷◌, eq_iff, arith}
use usbover_ip.Base.Dict.{Dict, lookup, insert, lookup-insert}
use usbover_ip.Base.Exec.{Exc, Result, ok, err, file_not_found, ◌>>=◌, lift}
use usbover_ip.Base.Exec.Triple.{Triple, Outcome}
use usbover_ip.Store.{object, Volume, merge}

module _ {V : Type 0} where
  -- Each key stands once.
  abbrev pub Distinct : Dict V → Type 0
  Distinct [] = Unit
  Distinct ((k, v) ∷ doc) = (lookup k doc ≡ none) × Distinct doc

  -- The keys of the file, and those of the defaults that it lacks.
  pub lookup-merge :
      (k : String) (base doc : Dict V)
      → Distinct doc
      → lookup k (merge base doc) ≡ elim (lookup k doc) [ none ↦ lookup k base | some v ↦ some v ]
  unfolding merge lookup
  lookup-merge k base [] distinct = refl
  lookup-merge k base ((j, v) ∷ doc) distinct =
      lookup-merge k (insert j v base) doc distinct.1
      ∙ ground (arith, lookup-insert j k v base, eq_iff j k, distinct.0)

-- What the system's calls promise of the file at the store's path.
pub record Laws ⦃volume : Volume⦄ : Type 0 where
  -- the text of the file, and that of a temporary file
  pub content : volume.World → Option volume.Text
  pub held : volume.World → String → Option volume.Text
  pub loads_dumps : (doc : Dict volume.Value) → volume.loads (volume.dumps doc) ≡ object doc
  pub defaults_keeps : (w : volume.World) → content (volume.defaults w).1 ≡ content w
  pub open_keeps : (w : volume.World) → content (volume.open_read w).1 ≡ content w
  pub open_done :
      (text : volume.Text) (w : volume.World)
      → (volume.open_read w).0 ≡ ok text
      → content w ≡ some text
  pub open_missing :
      (m : String) (w : volume.World)
      → (volume.open_read w).0 ≡ err (file_not_found m)
      → content w ≡ none
  pub mkstemp_keeps : (w : volume.World) → content (volume.mkstemp w).1 ≡ content w
  pub mkstemp_new :
      (tmp : String) (w : volume.World) → (volume.mkstemp w).0 ≡ ok tmp → tmp ≢ volume.path
  pub write_text_keeps :
      (tmp : String) (text : volume.Text) (w : volume.World)
      → tmp ≢ volume.path
      → content (volume.write_text tmp text w).1 ≡ content w
  pub write_text_done :
      (tmp : String) (text : volume.Text) (w : volume.World)
      → (volume.write_text tmp text w).0 ≡ ok tt
      → held (volume.write_text tmp text w).1 tmp ≡ some text
  pub chmod_keeps : (tmp : String) (w : volume.World) → content (volume.chmod tmp w).1 ≡ content w
  pub chmod_held : (tmp : String) (w : volume.World) → held (volume.chmod tmp w).1 tmp ≡ held w tmp
  pub replace_done :
      (tmp : String) (w : volume.World)
      → (volume.replace tmp w).0 ≡ ok tt
      → content (volume.replace tmp w).1 ≡ held w tmp
  -- a rename that fails has changed nothing
  pub replace_failed :
      (tmp : String) (e : Exc) (w : volume.World)
      → (volume.replace tmp w).0 ≡ err e
      → content (volume.replace tmp w).1 ≡ content w
  pub exists_keeps : (tmp : String) (w : volume.World) → content (volume.exists tmp w).1 ≡ content w
  pub unlink_keeps :
      (tmp : String) (w : volume.World)
      → tmp ≢ volume.path
      → content (volume.unlink tmp w).1 ≡ content w

module _ ⦃volume : Volume⦄ where
  pub call-Triple :
      {A : Type 0} {P : volume.World → Type 0} {Q : A → volume.World → Type 0}
      {E : Exc → volume.World → Type 0} (f : volume.World → Result A × volume.World)
      → ((a : A) (w : volume.World) → (f w).0 ≡ ok a → P w → Q a (f w).1)
      → ((e : Exc) (w : volume.World) → (f w).0 ≡ err e → P w → E e (f w).1)
      → Triple P f Q E
  call-Triple {A} {P} {Q} {E} f good bad = record { at = λ w h. go w h (f w).0 refl }
    where
      go : (w : volume.World) → P w → (r : Result A) → (f w).0 ≡ r → Outcome Q E r (f w).1
      go w h (ok a) e = good a w e h
      go w h (err x) e = bad x w e h

  pub lift-Triple :
      {A : Type 0} {P : volume.World → Type 0} (r : Result A)
      → Triple P (lift r) (λ a w. P w × (r ≡ ok a)) (λ _. P)
  unfolding ◌>>=◌
  lift-Triple (ok a) = record { at = λ w h. (h, refl) }
  lift-Triple (err e) = record { at = λ w h. h }
