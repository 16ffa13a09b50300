-- ===== src/Store/Cell.antt =====
-- The store as one cell: what a call leaves in the file, from what the system's calls promise.
use usbover_ip.Store.Laws.{Distinct, lookup-merge, Laws, call-Triple, lift-Triple}
use mathlib.Core.Option.{some-injective}
use usbover_ip.Base.{String, ◌≡◌, refl, ◌∙◌, sym, Option, none, some, ap, subst}
use usbover_ip.Base.Dict.{Dict, lookup}
use usbover_ip.Base.Exec.{Result, ok, err, file_not_found, ◌>>=◌}
use usbover_ip.Base.Exec.Triple.{
  Triple, Outcome, Triple-bind, Triple-pure, Triple-raise, Triple-weaken, Triple-attempt,
  Outcome-ok,
}
use usbover_ip.Store.{
  Parsed, object, not_object, not_json, Volume, merge, plain, merged, loaded, load, read, update,
}
use usbover_ip.Store.Writing.{Holds, write-Triple}

module _ ⦃volume : Volume⦄ (laws : Laws) where
  -- The defaults of some moment under the keys that the document lacks.
  abbrev pub Backfilled : Dict volume.Value → Dict volume.Value → Type 0
  Backfilled doc r =
      (w : volume.World) × ((k : String)
        → lookup k r
          ≡ elim (lookup k doc) [ none ↦ lookup k (volume.defaults w).0 | some v ↦ some v ])

  abbrev pub Default : Dict volume.Value → Type 0
  Default r = (w : volume.World) × (r ≡ (volume.defaults w).0)

  abbrev ReadAs : Parsed volume.Value → Dict volume.Value → Type 0
  ReadAs (object doc) r = Distinct doc → Backfilled doc r
  ReadAs not_object r = ⊥
  ReadAs not_json r = Default r

  -- What the store reads a file as: no file and a text that is no JSON are the defaults.
  abbrev pub Loaded : Option volume.Text → Dict volume.Value → Type 0
  Loaded none r = Default r
  Loaded (some text) r = ReadAs (volume.loads text) r

  merged-Triple :
      {c : Option volume.Text} (p : Parsed volume.Value)
      → Triple (Holds laws c) (merged p) (λ r w. Holds laws c w × ReadAs p r) (λ _. Holds laws c)
  unfolding merged plain ◌>>=◌
  merged-Triple (object doc) = record {
    at = λ w h. (
      laws.defaults_keeps w ∙ h,
      λ distinct. (w, λ k. lookup-merge k (volume.defaults w).0 doc distinct),
    );
  }
  merged-Triple not_object = record { at = λ w h. laws.defaults_keeps w ∙ h }
  merged-Triple not_json = record { at = λ w h. (laws.defaults_keeps w ∙ h, (w, refl)) }

  load-Triple :
      {c : Option volume.Text}
      → Triple (Holds laws c) load (λ r w. Holds laws c w × Loaded c r) (λ _. Holds laws c)
  unfolding load loaded plain
  load-Triple {c} =
      Triple-bind
        (Triple-attempt {E' = λ _. Holds laws c} (
          call-Triple {Q = λ text w. Holds laws c w × (c ≡ some text)}
            {E = λ e w. Holds laws c w × ((m : String) → e ≡ file_not_found m → c ≡ none)}
            volume.open_read
            (λ text w r h. (laws.open_keeps w ∙ h, sym h ∙ laws.open_done text w r))
            (λ e w r h.
              (laws.open_keeps w ∙ h, λ m same. sym h ∙ laws.open_missing m w (r ∙ ap err same)))))
        outcome
    where
      outcome :
          (r : Result volume.Text)
          → Triple
              (Outcome
                (λ text w. Holds laws c w × (c ≡ some text))
                (λ e w. Holds laws c w × ((m : String) → e ≡ file_not_found m → c ≡ none))
                r)
              (loaded r)
              (λ r w. Holds laws c w × Loaded c r)
              (λ _. Holds laws c)
      outcome (ok text) = record {
        at = λ w h.
            (Triple-weaken (merged-Triple {c = c} (volume.loads text)) (λ w h. h)
                (λ r w g. (g.0, subst (λ o. Loaded o r) (sym h.1) g.1)) (λ e w g. g)).at
              w h.0;
      }
      outcome (err (file_not_found m)) = record {
        at = λ w h. (
          laws.defaults_keeps w ∙ h.0,
          subst (λ o. Loaded o (volume.defaults w).0) (sym (h.1 m refl)) (w, refl),
        );
      }
      outcome (err e) = Triple-raise e (λ w h. h.0)

  -- The document that is in the file now, from one that the file was read as.
  abbrev pub Changed :
      (Dict volume.Value → Result (Dict volume.Value))
      → Option volume.Text
      → Dict volume.Value
      → volume.World
      → Type 0
  Changed mutate c r w =
      Holds laws (some (volume.dumps r)) w
      × (base : Dict volume.Value) × Loaded c base
      × (mutate base ≡ ok r)

  update-Triple :
      {c : Option volume.Text} (mutate : Dict volume.Value → Result (Dict volume.Value))
      → Triple (Holds laws c) (update mutate) (Changed mutate c) (λ _. Holds laws c)
  unfolding update
  update-Triple {c} mutate = Triple-bind load-Triple λ base.
      Triple-bind {Q = λ r w. Holds laws c w × Loaded c base × (mutate base ≡ ok r)}
        (Triple-weaken (lift-Triple (mutate base)) (λ w h. h) (λ r w h. (h.0.0, h.0.1, h.1))
          (λ x w h. h.0))
        λ r. record {
          at = λ w h.
              (Triple-bind {Q = λ _. Holds laws (some (volume.dumps r))}
                  (write-Triple laws {c = c} r)
                  (λ _. Triple-pure r (λ w g. (g, base, h.1, h.2)))).at
                w h.0;
        }

  -- A call of `update` is atomic. If it returns a document, the file holds that document, and it
  -- is what `mutate` makes of a document that the file before is read as; if it raises, at
  -- whichever step, the file is as it was. A file whose keys are distinct is read as these keys
  -- over those of the defaults, and no file, and a text that is no JSON, as the defaults.
  pub update-Cell :
      (c : Option volume.Text) (mutate : Dict volume.Value → Result (Dict volume.Value))
      (w : volume.World)
      → laws.content w ≡ c
      → Outcome (Changed mutate c) (λ _. Holds laws c) (update mutate w).0 (update mutate w).1
  update-Cell c mutate w holds = (update-Triple {c = c} mutate).at w holds

  update-holds :
      (mutate : Dict volume.Value → Result (Dict volume.Value)) (w : volume.World)
      (r : Dict volume.Value)
      → (update mutate w).0 ≡ ok r
      → laws.content (update mutate w).1 ≡ some (volume.dumps r)
  update-holds mutate w r returns =
      (Outcome-ok (Changed mutate (laws.content w)) (λ _. Holds laws (laws.content w))
        (update mutate w).0 (update-Cell (laws.content w) mutate w refl) returns).0

  -- What `update` returned is read again: if its keys are distinct and the file can be opened,
  -- `read` returns a document, and it has each key that was written, with its value.
  pub update-read :
      (mutate : Dict volume.Value → Result (Dict volume.Value)) (w : volume.World)
      (r : Dict volume.Value)
      → (update mutate w).0 ≡ ok r
      → Distinct r
      → (text : volume.Text) → (volume.open_read (update mutate w).1).0 ≡ ok text
      → (d : Dict volume.Value) × ((read (update mutate w).1).0 ≡ ok d)
        × ((k : String) (v : volume.Value) → lookup k r ≡ some v → lookup k d ≡ some v)
  unfolding read load loaded merged plain ◌>>=◌
  update-read mutate w r returns distinct text opens =
      let written : text ≡ volume.dumps r =
        some-injective _ _
          (sym (laws.open_done text (update mutate w).1 opens) ∙ update-holds mutate w r returns) in
      let after : volume.World = (volume.open_read (update mutate w).1).1 in
      (
        merge (volume.defaults after).0 r,
        ap (λ o. (loaded o after).0) opens
            ∙ ap (λ p. (merged p after).0) (ap volume.loads written ∙ laws.loads_dumps r),
        λ k v h.
            lookup-merge k (volume.defaults after).0 r distinct
            ∙ ap (λ o. elim o [ none ↦ lookup k (volume.defaults after).0 | some u ↦ some u ]) h,
      )
