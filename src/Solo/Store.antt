-- ===== src/Solo/Store.antt =====
-- cli/internal/solo/state.go: the StateStore. Parameters: the file system, with the state `D` of the
-- disk, and encoding/json. WithLock, which lets one Update run at a time, is taken as given.
pub mod Atomic
pub mod Outcome
use devopsellence.Base.{
  Bool, not, Option, none, some, List, [], ◌∷◌, Text, codes, trim, is_empty, nat_eq, ℤ, pos, Result,
  ok, err, ◌>>=◌, ◌>>◌, reject_if, if◌then◌else◌, ◌||◌,
}
use devopsellence.Release.Types.{Times}
use devopsellence.Config.Store.{FileRead, missing, failed, contents}
use devopsellence.Config.Validate.{is_current}
use devopsellence.Config.Defaults.{is_zero}
use devopsellence.Solo.Types.{
  State, StateError, disk_failed, decode_failed, store_path_required, schema_version_unsupported,
  new_state,
}
use devopsellence.Solo.Keys.{Paths}
use devopsellence.Solo.Normalize.{normalize_state}

-- Package os as the store uses it: an operation leaves a disk and an error, if there is one.
pub record Disk (D : Type 0) : Type 0 where
  pub dir : Text → Text
  pub read_file : D → Text → FileRead
  pub mkdir_all : D → Text → D × Option Text
  pub create_temp : D → (dir : Text) → D × Result Text Text
  pub write : D → (path text : Text) → D × Option Text
  pub chmod : D → Text → D × Option Text
  pub sync : D → Text → D × Option Text
  pub close : D → Text → D × Option Text
  pub rename : D → (source target : Text) → D × Option Text
  pub remove : D → Text → D
  pub sync_dir : D → Text → D

-- encoding/json
pub record Json : Type 0 where
  pub unmarshal : Text → Result Text State
  pub marshal_indent : State → Result Text Text

-- What follows an operation: `fail` with its error, or `next`, on the disk that it left.
unfoldable pub after {ℓ} :
    {D : Type ℓ}
    → D × Option Text
    → (fail : Text → D → D × Option Text) → (next : D → D × Option Text) → D × Option Text
after (disk, none) fail next = next disk
after (disk, some e) fail next = fail e disk

-- `return err`
abbrev pub failing {ℓ} : {D : Type ℓ} → Text → D → D × Option Text
failing e disk = (disk, some e)

module _ {D : Type 0} (fs : Disk D) where
  -- The deferred os.Remove of the temporary file.
  abbrev pub cleaned : Text → Text → D → D × Option Text
  cleaned temp e disk = (fs.remove disk temp, some e)

  -- The same, after closing the file.
  abbrev pub closed_and_cleaned : Text → Text → D → D × Option Text
  closed_and_cleaned temp e disk = (fs.remove (fs.close disk temp).0 temp, some e)

  -- What follows os.CreateTemp.
  unfoldable pub write_temp : (path text temp : Text) → D → D × Option Text
  unfolding after
  write_temp path text temp disk = after (fs.chmod disk temp) (closed_and_cleaned temp) (λ d1.
      after (fs.write d1 temp text) (closed_and_cleaned temp) (λ d2.
        after (fs.sync d2 temp) (closed_and_cleaned temp) (λ d3.
          after (fs.close d3 temp) (cleaned temp) (λ d4.
            after (fs.rename d4 temp path) (cleaned temp)
              (λ d5. fs.chmod (fs.sync_dir d5 (fs.dir path)) path)))))

  unfoldable pub write_created : (path text : Text) → D × Result Text Text → D × Option Text
  unfolding write_temp
  write_created path text (disk, ok temp) = write_temp path text temp disk
  write_created path text (disk, err e) = (disk, some e)

  unfoldable pub write_file_atomic_private : (path text : Text) → D → D × Option Text
  unfolding after write_created
  write_file_atomic_private path text disk =
      after (fs.mkdir_all disk (fs.dir path)) failing
        (λ d. write_created path text (fs.create_temp d (fs.dir path)))

-- `case 0, soloStateSchemaVersion`
abbrev pub is_supported_version : ℤ → Bool
is_supported_version version = is_zero version || is_current version

module _ {D : Type 0} (fs : Disk D) (json : Json) (paths : Paths) (times : Times) where
  -- validateStateSchemaVersion, the version and the maps set, and normalizeState.
  unfoldable pub prepared : State → Result StateError State
  unfolding normalize_state
  prepared state =
      reject_if (not (is_supported_version state.schema_version))
        (schema_version_unsupported state.schema_version)
      >> normalize_state paths times (record state { schema_version = pos 1 })

  unfoldable pub decoded : Result Text State → Result StateError State
  unfolding prepared
  decoded (ok state) = prepared state
  decoded (err e) = err (decode_failed e)

  unfoldable pub read_found : FileRead → Result StateError State
  unfolding decoded new_state
  read_found missing = ok new_state
  read_found (failed e) = err (disk_failed e)
  read_found (contents text) = decoded (json.unmarshal text)

  unfoldable pub read : Text → D → Result StateError State
  unfolding read_found new_state
  read path disk =
      if is_empty (trim path) then ok new_state else read_found (fs.read_file disk path)

  abbrev pub state_error : D × Option Text → D × Option StateError
  state_error (disk, none) = (disk, none)
  state_error (disk, some e) = (disk, some (disk_failed e))

  unfoldable pub write_marshalled : Text → Result Text Text → D → D × Option StateError
  unfolding write_file_atomic_private
  write_marshalled path (err e) disk = (disk, some (decode_failed e))
  write_marshalled path (ok text) disk = state_error (write_file_atomic_private fs path text disk)

  unfoldable pub write_in_dir : Text → State → D × Option Text → D × Option StateError
  unfolding write_marshalled
  write_in_dir path state (disk, some e) = (disk, some (disk_failed e))
  write_in_dir path state (disk, none) = write_marshalled path (json.marshal_indent state) disk

  unfoldable pub write_prepared : Text → Result StateError State → D → D × Option StateError
  unfolding write_in_dir
  write_prepared path (err e) disk = (disk, some e)
  write_prepared path (ok state) disk = write_in_dir path state (fs.mkdir_all disk (fs.dir path))

  unfoldable pub write_state : Text → State → D → D × Option StateError
  unfolding prepared write_prepared
  write_state path state disk =
      if is_empty (trim path)
      then (disk, some store_path_required)
      else write_prepared path (prepared state) disk

  -- The rest of Update, with what the change made of the state that was read.
  unfoldable pub update_changed : Text → Result StateError State → D → D × Option StateError
  unfolding write_state
  update_changed path (err e) disk = (disk, some e)
  update_changed path (ok state) disk = write_state path state disk

  -- Update, under its lock.
  unfoldable pub update :
      Text → (change : State → Result StateError State) → D → D × Option StateError
  unfolding read update_changed
  update path change disk = update_changed path (read path disk >>= change) disk
