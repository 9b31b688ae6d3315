-- ===== src/Stored/Cache.antt =====
-- agent/internal/desiredstatecache/store.go and override.go. Parameters: package os (Stored.Files),
-- encoding/json and protojson; the time of a save is the text of time.RFC3339. The mutex is taken as
-- given.
use devopsellence.Base.{
  Bool, false, not, ◌≡◌, refl, sym, ap, ◌∙◌, Option, none, some, Text, trim, is_empty, ℤ, pos, Dict,
  Result, ok, err, ◌>>=◌, ◌>>◌, reject_if, Result-cases, inl, inr, if◌then◌else◌, arith,
}
use devopsellence.Config.Store.{FileRead, missing, failed, contents}
use devopsellence.Config.Validate.{is_current}
use devopsellence.DesiredState.Types.{DesiredState}
use devopsellence.Stored.Files.{
  FileSystem, IsFileSystem, unless_failed, unless_failed-none, replace_file, read-replace_file,
}

-- auth.DesiredStateTarget and auth.DesiredStateSnapshot
pub record DesiredStateTarget : Type 0 where
  pub mode : Text
  pub uri : Text
  pub inline : Text
  pub organization_bundle_token : Text
  pub environment_bundle_token : Text
  pub node_bundle_token : Text

pub record DesiredStateSnapshot : Type 0 where
  pub node_id : ℤ
  pub environment_id : ℤ
  pub sequence_floor : ℤ
  pub target : DesiredStateTarget

pub record Entry : Type 0 where
  pub schema_version : ℤ
  pub saved_at : Text
  pub mode : Text
  pub uri : Text
  pub sequence : ℤ
  pub node_id : ℤ
  pub environment_id : ℤ
  pub organization_bundle_token : Text
  pub environment_bundle_token : Text
  pub node_bundle_token : Text
  pub desired_state_json : Text

abbrev pub schema_version : ℤ
schema_version = pos 1

-- The errors of the cache and of the override, with the error that they wrap.
pub data CacheError : Type 0 where
  payload_marshal_failed entry_marshal_failed mkdir_failed write_failed replace_failed read_failed :
      Text → CacheError
  entry_parse_failed payload_parse_failed : Text → CacheError
  version_unsupported : ℤ → CacheError
  payload_missing empty_override override_path_required : CacheError

-- encoding/json, on entries and on an override's document (its top-level values as raw JSON, and a
-- raw value as a Boolean), and protojson, with unknown fields discarded.
pub record Codec : Type 0 where
  pub marshal_entry : Entry → Result Text Text
  pub unmarshal_entry : Text → Result Text Entry
  pub marshal_desired : DesiredState → Result Text Text
  pub unmarshal_desired : Text → Result Text DesiredState
  pub unmarshal_document : Text → Result Text (Dict Text)
  pub unmarshal_bool : Text → Result Text Bool

-- New: a store is nil where the path is blank.
unfoldable pub new : Text → Option Text
new path = if is_empty (trim path) then none else some (trim path)

abbrev pub entry_of : DesiredStateSnapshot → (sequence : ℤ) → (saved_at desired_json : Text) → Entry
entry_of snapshot sequence saved_at desired_json = record {
  schema_version = schema_version;
  saved_at = saved_at;
  mode = snapshot.target.mode;
  uri = snapshot.target.uri;
  sequence = sequence;
  node_id = snapshot.node_id;
  environment_id = snapshot.environment_id;
  organization_bundle_token = snapshot.target.organization_bundle_token;
  environment_bundle_token = snapshot.target.environment_bundle_token;
  node_bundle_token = snapshot.target.node_bundle_token;
  desired_state_json = desired_json;
}

-- `return fmt.Errorf(…, err)`
abbrev pub wrapped : {A : Type 0} → (Text → CacheError) → Result Text A → Result CacheError A
wrapped wrap (ok a) = ok a
wrapped wrap (err e) = err (wrap e)

module _ {D : Type 0} (fs : FileSystem D) (codec : Codec) where
  -- The directory with 0o700, and the file.
  unfoldable pub put_file : (path text : Text) → D → D × Option CacheError
  unfolding unless_failed replace_file
  put_file path text disk =
      unless_failed (fs.mkdir_all disk (fs.dir path) 448) mkdir_failed
        (replace_file fs write_failed replace_failed path text)

  unfoldable pub put_marshalled : Text → Result CacheError Text → D → D × Option CacheError
  unfolding put_file
  put_marshalled path (err e) disk = (disk, some e)
  put_marshalled path (ok text) disk = put_file path text disk

  -- The entry's document.
  unfoldable pub entry_document :
      DesiredStateSnapshot
      → (sequence : ℤ) → (saved_at : Text) → DesiredState
      → Result CacheError Text
  entry_document snapshot sequence saved_at desired =
      wrapped payload_marshal_failed (codec.marshal_desired desired) >>= λ desired_json.
      wrapped entry_marshal_failed
        (codec.marshal_entry (entry_of snapshot sequence saved_at desired_json))

  unfoldable pub save :
      Option Text
      → DesiredStateSnapshot
      → (sequence : ℤ) → (saved_at : Text) → Option DesiredState
      → D
      → D × Option CacheError
  unfolding put_marshalled entry_document
  save none snapshot sequence saved_at desired disk = (disk, none)
  save (some path) snapshot sequence saved_at none disk = (disk, none)
  save (some path) snapshot sequence saved_at (some desired) disk =
      put_marshalled path (entry_document snapshot sequence saved_at desired) disk

  -- What Load makes of an entry.
  unfoldable pub accepted_entry : Entry → Result CacheError (Option (Entry × DesiredState))
  accepted_entry entry =
      reject_if (not (is_current entry.schema_version)) (version_unsupported entry.schema_version)
      >> reject_if (is_empty (trim entry.desired_state_json)) payload_missing
      >> (wrapped payload_parse_failed (codec.unmarshal_desired entry.desired_state_json)
          >>= λ desired. ok (some (entry, desired)))

  unfoldable pub load_read : FileRead → Result CacheError (Option (Entry × DesiredState))
  unfolding accepted_entry
  load_read missing = ok none
  load_read (failed e) = err (read_failed e)
  load_read (contents text) =
      wrapped entry_parse_failed (codec.unmarshal_entry text) >>= accepted_entry

  unfoldable pub load : Option Text → D → Result CacheError (Option (Entry × DesiredState))
  unfolding load_read
  load none disk = ok none
  load (some path) disk = load_read (fs.read_file disk path)

-- What the libraries keep of what is saved: the documents of the desired state and of its entry are
-- read back, and that of the desired state is not blank.
pub record IsCodec (codec : Codec) (snapshot : DesiredStateSnapshot) (sequence : ℤ)
    (saved_at : Text) (desired : DesiredState) : Type 0 where
  pub entry :
      (desired_json text : Text)
      → codec.marshal_desired desired ≡ ok desired_json
      → codec.marshal_entry (entry_of snapshot sequence saved_at desired_json) ≡ ok text
      → codec.unmarshal_entry text ≡ ok (entry_of snapshot sequence saved_at desired_json)
  pub payload :
      (text : Text)
      → codec.marshal_desired desired ≡ ok text
      → (is_empty (trim text) ≡ false) × (codec.unmarshal_desired text ≡ ok desired)

wrapped-ok :
    {A : Type 0} (wrap : Text → CacheError) (r : Result Text A) (a : A)
    → wrapped wrap r ≡ ok a
    → r ≡ ok a
wrapped-ok wrap (ok b) a h = ap (λ r. elim r [ ok x ↦ ok x | err e ↦ ok a ]) h
wrapped-ok wrap (err e) a h = absurd (ground arith)

module _ {D : Type 0} (fs : FileSystem D) (codec : Codec) (path : Text)
    (laws : IsFileSystem fs path) where
  -- What a write without an error leaves in the file.
  put-written :
      (document : Result CacheError Text) (disk : D)
      → (put_marshalled fs codec path document disk).1 ≡ none
      → (text : Text) × ((document ≡ ok text)
          × (fs.read_file (put_marshalled fs codec path document disk).0 path ≡ contents text))
  unfolding put_marshalled put_file
  put-written (err e) disk h = absurd (ground arith)
  put-written (ok text) disk h =
      let (d, (made, rest)) =
        unless_failed-none (fs.mkdir_all disk (fs.dir path) 448) mkdir_failed _ h in
      (
        text,
        (
          refl,
          ap (λ r. fs.read_file r.0 path) rest
              ∙ read-replace_file fs path text laws write_failed replace_failed d
                  (sym (ap (λ r. r.1) rest) ∙ h),
        ),
      )

  -- The two documents of an entry that could be written.
  document-ok :
      (snapshot : DesiredStateSnapshot) (sequence : ℤ) (saved_at : Text) (desired : DesiredState)
      (text : Text)
      → entry_document fs codec snapshot sequence saved_at desired ≡ ok text
      → (desired_json : Text) × ((codec.marshal_desired desired ≡ ok desired_json)
          × (codec.marshal_entry (entry_of snapshot sequence saved_at desired_json) ≡ ok text))
  unfolding entry_document
  document-ok snapshot sequence saved_at desired text h =
      elim (Result-cases (codec.marshal_desired desired)) [
        | inl (json, e) ↦ (json, (e, wrapped-ok entry_marshal_failed _ text (rw e at h)))
        | inr (x, e) ↦ absurd (ground arith)
      ]

  -- What Save wrote without an error, Load reads back: an entry with the snapshot's target and ids
  -- and with the sequence, and the desired state itself. This is for a disk that keeps what is
  -- written and renamed, and for libraries that read their documents back.
  pub load-save :
      (snapshot : DesiredStateSnapshot) (sequence : ℤ) (saved_at : Text) (desired : DesiredState)
      (disk : D)
      → IsCodec codec snapshot sequence saved_at desired
      → (save fs codec (some path) snapshot sequence saved_at (some desired) disk).1 ≡ none
      → (desired_json : Text) × (load fs codec
            (some path)
            (save fs codec (some path) snapshot sequence saved_at (some desired) disk).0
          ≡ ok (some (entry_of snapshot sequence saved_at desired_json, desired)))
  unfolding save load load_read accepted_entry
  load-save snapshot sequence saved_at desired disk kept h =
      let (text, (document, stored)) =
        put-written (entry_document fs codec snapshot sequence saved_at desired) disk h in
      let (json, (payload, entry)) = document-ok snapshot sequence saved_at desired text document in
      let (full, again) = kept.payload json payload in
      (json, rw (stored, kept.entry json text payload entry, full, again) refl)
