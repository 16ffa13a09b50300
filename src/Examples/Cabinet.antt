-- ===== src/Examples/Cabinet.antt =====
-- A store in memory: a file holds a document or something that is no JSON.
use mathlib.Core.Bool.{false≢true}
use usbover_ip.Base.{
  String, ◌≡◌, refl, Bool, true, false, Option, none, some, [], ◌∷◌, ap, ◌==◌, ◌∙◌,
}
use usbover_ip.Base.Dict.{Dict, lookup, insert}
use usbover_ip.Base.Exec.{Result, ok, err, file_not_found, other, ◌>>=◌, ok-injective}
use usbover_ip.Base.Exec.Triple.{Outcome}
use usbover_ip.Store.{
  Parsed, object, Volume, merge, plain, finish, write, merged, loaded, load, read, update,
}
use usbover_ip.Store.Laws.{Laws}
use usbover_ip.Store.Writing.{Holds}
use usbover_ip.Store.Cell.{Changed, update-Cell, update-read}

-- the file, the temporary file, and whether the disk is full
pub record Drawer : Type 0 where
  pub file : Option (Parsed String)
  pub temporary : Option (Parsed String)
  pub full : Bool

abbrev opened : Option (Parsed String) → Result (Parsed String)
opened none = err (file_not_found "config.json")
opened (some text) = ok text

abbrev written : Parsed String → Drawer → Bool → Result (Unit {0}) × Drawer
written text w true = (err (other "No space left on device"), w)
written text w false = (ok tt, record w { temporary = some text })

instance abbrev Cabinet : Volume
Cabinet = record {
  Value = String;
  Text = Parsed String;
  World = Drawer;
  path = "config.json";
  loads = λ text. text;
  dumps = object;
  defaults = λ w. (("session_secret", "new") ∷ ("wireguard", "") ∷ [], w);
  open_read = λ w. (opened w.file, w);
  path_exists = λ w. (elim w.file [ none ↦ false | some text ↦ true ], w);
  mkdir = λ w. (ok tt, w);
  mkstemp = λ w. (ok ".tmp-1", w);
  write_text = λ tmp text w. written text w w.full;
  chmod = λ tmp w. (ok tt, w);
  replace = λ tmp w. (ok tt, record w { file = w.temporary; temporary = none });
  exists = λ tmp w. (elim w.temporary [ none ↦ false | some text ↦ true ], w);
  unlink = λ tmp w. (ok tt, record w { temporary = none });
}

abbrev cabinet : Laws
cabinet = record {
  content = λ w. w.file;
  held = λ w tmp. w.temporary;
  loads_dumps = λ doc. refl;
  defaults_keeps = λ w. refl;
  open_keeps = λ w. refl;
  open_done = λ text w e. there w.file text e;
  open_missing = λ m w e. missing w.file m e;
  mkstemp_keeps = λ w. refl;
  mkstemp_new =
      λ tmp w e same. absurd (false≢true (ap (λ t. t == "config.json") (ok-injective e ∙ same)));
  write_text_keeps = λ tmp text w new. kept text w w.full;
  write_text_done = λ tmp text w e. done_text text w w.full e;
  chmod_keeps = λ tmp w. refl;
  chmod_held = λ tmp w. refl;
  replace_done = λ tmp w e. refl;
  replace_failed = λ tmp x w e. cc;
  exists_keeps = λ tmp w. refl;
  unlink_keeps = λ tmp w new. refl;
}
  where
    there : (o : Option (Parsed String)) (text : Parsed String) → opened o ≡ ok text → o ≡ some text
    there none text e = cc
    there (some t) text e = ap some (ok-injective e)

    missing :
        (o : Option (Parsed String)) (m : String) → opened o ≡ err (file_not_found m) → o ≡ none
    missing none m e = refl
    missing (some t) m e = cc

    kept : (text : Parsed String) (w : Drawer) (b : Bool) → (written text w b).1.file ≡ w.file
    kept text w true = refl
    kept text w false = refl

    done_text :
        (text : Parsed String) (w : Drawer) (b : Bool)
        → (written text w b).0 ≡ ok tt
        → (written text w b).1.temporary ≡ some text
    done_text text w true e = cc
    done_text text w false e = refl

abbrev old : Dict String
old = ("admin_password_hash", "$2b$") ∷ ("session_secret", "s") ∷ []

abbrev drawer : Drawer
drawer = record { file = some (object old); temporary = none; full = false }

abbrev rename : Dict String → Result (Dict String)
rename doc = ok (insert "server_name" "attic" doc)

update-Cell_example :
    Outcome
      (Changed cabinet rename (some (object old)))
      (λ _. Holds cabinet (some (object old)))
      (update rename drawer).0
      (update rename drawer).1
unfolding cabinet
update-Cell_example = update-Cell cabinet (some (object old)) rename drawer refl

abbrev new : Dict String
new =
    ("session_secret", "s")
    ∷ ("wireguard", "")
    ∷ ("admin_password_hash", "$2b$")
    ∷ ("server_name", "attic")
    ∷ []

updated : (update rename drawer).0 ≡ ok new
unfolding update load loaded merged merge write finish plain ◌>>=◌ insert
updated = refl

update-read_example :
    (d : Dict String) × ((read (update rename drawer).1).0 ≡ ok d)
    × ((k : String) (v : String) → lookup k new ≡ some v → lookup k d ≡ some v)
unfolding update load loaded merged merge write finish plain ◌>>=◌ insert lookup
update-read_example =
    update-read cabinet rename drawer new updated (refl, (refl, (refl, (refl, tt)))) (object new)
      refl
