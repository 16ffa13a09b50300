-- ===== src/Store.antt =====
-- common/config_store.py: the file of a configuration, and the calls that read and change it. The
-- lock of the store makes each call one step; what the calls of the system answer is unknown.
pub mod Laws
pub mod Writing
pub mod Cell
use usbover_ip.Base.{String, Bool, List, [], ◌∷◌, if◌then◌else◌}
use usbover_ip.Base.Dict.{Dict, insert}
use usbover_ip.Base.Exec.{
  Exc, Exec, Result, ok, err, file_not_found, other, pure, raise, lift, attempt, ◌>>=◌, ◌>>◌,
}

-- What `json.load` makes of a text: items that `dict.update` takes, a value that it refuses, or a
-- JSONDecodeError.
pub data Parsed {ℓ} (V : Type ℓ) : Type ℓ where
  object : Dict V → Parsed V
  not_object not_json : Parsed V

-- `Value` are the JSON values under the keys, and `Text` what is in a file. `path` is the store's
-- file.
pub record Volume : Type 1 where
  pub Value : Type 0
  pub Text : Type 0
  pub World : Type 0
  pub path : String
  pub loads : Text → Parsed Value
  -- `json.dumps(data, indent=2)`
  pub dumps : Dict Value → Text
  -- `_defaults`; the secret of the session is new each time
  pub defaults : World → Dict Value × World
  -- `open(self.path)` and reading it, and `self.path.exists()`
  pub open_read : World → Result Text × World
  pub path_exists : World → Bool × World
  -- the parent's `mkdir`, and `tempfile.mkstemp` in it
  pub mkdir : World → Result (Unit {0}) × World
  pub mkstemp : World → Result String × World
  -- writing a text to a temporary file, which may stop half way
  pub write_text : String → Text → World → Result (Unit {0}) × World
  pub chmod : String → World → Result (Unit {0}) × World
  -- `os.replace(tmp_path, self.path)`
  pub replace : String → World → Result (Unit {0}) × World
  pub exists : String → World → Bool × World
  pub unlink : String → World → Result (Unit {0}) × World

module _ {V : Type 0} where
  -- `merged.update(data)`
  unfoldable pub merge : Dict V → Dict V → Dict V
  merge base [] = base
  merge base ((k, v) ∷ doc) = merge (insert k v base) doc

module _ ⦃volume : Volume⦄ where
  abbrev pub Stored : Type 0 → Type 0
  Stored = Exec volume.World

  -- A call that raises nothing.
  unfoldable pub plain : {A : Type 0} → (volume.World → A × volume.World) → Stored A
  plain f w = (ok (f w).0, (f w).1)

  -- `except BaseException`: the temporary file goes, and the exception is raised again.
  unfoldable pub clean_up : String → Exc → Stored Unit
  clean_up tmp_path e = do
    left ← plain (volume.exists tmp_path)
    if left then (do volume.unlink tmp_path; raise e) else raise e

  unfoldable pub finish : String → Result (Unit {0}) → Stored Unit
  unfolding clean_up
  finish tmp_path (ok u) = pure u
  finish tmp_path (err e) = clean_up tmp_path e

  unfoldable pub write : Dict volume.Value → Stored Unit
  unfolding finish
  write doc = do
    tmp_path ← volume.mkstemp
    r ← attempt (do
      volume.write_text tmp_path (volume.dumps doc)
      volume.chmod tmp_path
      volume.replace tmp_path)
    finish tmp_path r

  unfoldable pub merged : Parsed volume.Value → Stored (Dict volume.Value)
  merged (object doc) = do base ← plain volume.defaults; pure (merge base doc)
  merged not_object = do base ← plain volume.defaults; raise (other "dict.update")
  merged not_json = plain volume.defaults

  unfoldable pub loaded : Result volume.Text → Stored (Dict volume.Value)
  unfolding merged
  loaded (ok text) = merged (volume.loads text)
  loaded (err (file_not_found m)) = plain volume.defaults
  loaded (err e) = raise e

  unfoldable pub load : Stored (Dict volume.Value)
  load = do r ← attempt volume.open_read; loaded r

  unfoldable pub read : Stored (Dict volume.Value)
  read = load

  -- `mutate` may raise too.
  unfoldable pub update :
      (Dict volume.Value → Result (Dict volume.Value)) → Stored (Dict volume.Value)
  update mutate = do doc ← load; changed ← lift (mutate doc); write changed; pure changed

  unfoldable pub init : Stored Unit
  init = do
    volume.mkdir
    there ← plain volume.path_exists
    if there then pure tt else (do base ← plain volume.defaults; write base)
