-- ===== src/Solo/Store/Outcome.antt =====
-- cli/internal/solo/state.go: what StateStore.Update leaves on the disk, whatever the change does.
use devopsellence.Base.{
  not, ◌≡◌, refl, ◌∙◌, Option, none, some, Text, trim, is_empty, pos, Result, ok, err, ◌>>=◌,
  reject_if-ok, Bool-cases, arith, inl, inr, ◌⊎◌,
}
use devopsellence.Release.Types.{Times}
use devopsellence.Config.Store.{FileRead, contents}
use devopsellence.Solo.Types.{
  State, StateError, disk_failed, schema_version_unsupported, store_path_required,
}
use devopsellence.Solo.Keys.{Paths}
use devopsellence.Solo.Normalize.Normal.{IsNormal, normalize_state-IsNormal}
use devopsellence.Solo.Store.{
  Disk, Json, is_supported_version, prepared, read, state_error, write_file_atomic_private,
  write_marshalled, write_in_dir, write_prepared, write_state, update_changed, update,
}
use devopsellence.Solo.Store.Atomic.{IsDisk, IsOldOrNew, write_file_atomic_private-IsOldOrNew}

-- The file holds the document of a normal state.
pub record IsWritten (json : Json) (now : FileRead) : Type 0 where
  pub state : State
  pub normal : IsNormal state
  pub text : Text
  pub document : json.marshal_indent state ≡ ok text
  pub stored : now ≡ contents text

-- Without an error the file holds the document of a normal state; with one it is as before, or
-- holds such a document.
pub record IsUpdated (json : Json) (before now : FileRead) (error : Option StateError)
    : Type 0 where
  pub on_success : error ≡ none → IsWritten json now
  pub always : (now ≡ before) ⊎ IsWritten json now

module _ {D : Type 0} (fs : Disk D) (json : Json) (paths : Paths) (times : Times) (path : Text)
    (laws : IsDisk fs path) (before : FileRead) where
  abbrev Outcome : D × Option StateError → Type 0
  Outcome r = IsUpdated json before (fs.read_file r.0 path) r.1

  old : (d : D) (e : StateError) → fs.read_file d path ≡ before → Outcome (d, some e)
  old d e same = record { on_success = λ h. absurd (ground arith); always = inl same }

  new : (d : D) (e : Option StateError) → IsWritten json (fs.read_file d path) → Outcome (d, e)
  new d e w = record { on_success = λ h. w; always = inr w }

  written-Outcome :
      (state : State) (text : Text) (r : D × Option Text)
      → IsNormal state
      → json.marshal_indent state ≡ ok text
      → IsOldOrNew before text (fs.read_file r.0 path) r.1
      → Outcome (state_error fs json paths times r)
  written-Outcome state text (d, none) normal m o = new d none (record {
    state = state;
    normal = normal;
    text = text;
    document = m;
    stored = o.on_success refl;
  })
  written-Outcome state text (d, some e) normal m o = record {
    on_success = λ h. absurd (ground arith);
    always = elim o.always [
      | inl same ↦ inl same
      | inr stored ↦
          inr
            (record { state = state; normal = normal; text = text; document = m; stored = stored })
    ];
  }

  marshalled-Outcome :
      (state : State) (marshalled : Result Text Text) (d : D)
      → IsNormal state
      → json.marshal_indent state ≡ marshalled
      → fs.read_file d path ≡ before
      → Outcome (write_marshalled fs json paths times path marshalled d)
  unfolding write_marshalled
  marshalled-Outcome state (err e) d normal m same = old d _ same
  marshalled-Outcome state (ok text) d normal m same =
      written-Outcome state text (write_file_atomic_private fs path text d) normal m
        (write_file_atomic_private-IsOldOrNew fs path text laws before d same)

  in_dir-Outcome :
      (state : State) (r : D × Option Text)
      → IsNormal state
      → fs.read_file r.0 path ≡ before
      → Outcome (write_in_dir fs json paths times path state r)
  unfolding write_in_dir
  in_dir-Outcome state (d, some e) normal same = old d (disk_failed e) same
  in_dir-Outcome state (d, none) normal same =
      marshalled-Outcome state (json.marshal_indent state) d normal refl same

  prepared-IsNormal :
      (state normal : State) → prepared fs json paths times state ≡ ok normal → IsNormal normal
  unfolding prepared
  prepared-IsNormal state normal h =
      normalize_state-IsNormal paths times (record state { schema_version = pos 1 }) normal
        (reject_if-ok (not (is_supported_version state.schema_version))
          (schema_version_unsupported state.schema_version) _ normal h).1

  prepared-Outcome :
      (state : State) (r : Result StateError State) (d : D)
      → prepared fs json paths times state ≡ r
      → fs.read_file d path ≡ before
      → Outcome (write_prepared fs json paths times path r d)
  unfolding write_prepared
  prepared-Outcome state (err e) d p same = old d e same
  prepared-Outcome state (ok normal) d p same =
      in_dir-Outcome normal (fs.mkdir_all d (fs.dir path)) (prepared-IsNormal state normal p)
        (laws.mkdir_all_keeps d (fs.dir path) ∙ same)

  write_state-Outcome :
      (state : State) (d : D)
      → fs.read_file d path ≡ before
      → Outcome (write_state fs json paths times path state d)
  unfolding write_state
  write_state-Outcome state d same = elim (Bool-cases (is_empty (trim path))) [
    | inl e ↦ rw e (old d store_path_required same)
    | inr e ↦ rw e (prepared-Outcome state (prepared fs json paths times state) d refl same)
  ]

  changed-Outcome :
      (r : Result StateError State) (d : D)
      → fs.read_file d path ≡ before
      → Outcome (update_changed fs json paths times path r d)
  unfolding update_changed
  changed-Outcome (err e) d same = old d e same
  changed-Outcome (ok state) d same = write_state-Outcome state d same

-- Whatever the change makes of the state, and wherever the update fails: if Update returns no error,
-- the file holds the document of a normal state, and if it returns one, the file is as it was before
-- or holds such a document. This is for a disk on which only a rename onto the file changes it.
pub update-IsUpdated :
    {D : Type 0} (fs : Disk D) (json : Json) (paths : Paths) (times : Times) (path : Text)
    → IsDisk fs path
    → (change : State → Result StateError State) (disk : D)
    → IsUpdated json
        (fs.read_file disk path)
        (fs.read_file (update fs json paths times path change disk).0 path)
        (update fs json paths times path change disk).1
unfolding update
update-IsUpdated fs json paths times path laws change disk =
    changed-Outcome fs json paths times path laws (fs.read_file disk path)
      (read fs json paths times path disk >>= change) disk refl
