-- ===== src/Stored/Override.antt =====
-- agent/internal/desiredstatecache/override.go: the local override of the desired state.
use devopsellence.Base.{
  Bool, false, not, Option, none, some, Text, codes, trim, is_empty, Dict, lookup, Result, ok, err,
  ◌>>=◌, if◌then◌else◌,
}
use devopsellence.Config.Store.{FileRead, missing, failed, contents}
use devopsellence.DesiredState.Types.{DesiredState}
use devopsellence.Stored.Files.{FileSystem}
use devopsellence.Stored.Cache.{
  CacheError, empty_override, override_path_required, read_failed, payload_parse_failed, Codec,
  wrapped, put_file,
}

-- `"enabled": false`; a value that is no Boolean does not count.
unfoldable pub is_false : Result Text Bool → Bool
is_false (ok enabled) = not enabled
is_false (err e) = false

unfoldable pub is_disabled_value : Codec → Option Text → Bool
unfolding is_false
is_disabled_value codec none = false
is_disabled_value codec (some raw) = is_false (codec.unmarshal_bool raw)

unfoldable pub is_disabled : Codec → Result Text (Dict Text) → Bool
unfolding is_disabled_value
is_disabled codec (err e) = false
is_disabled codec (ok document) = is_disabled_value codec (lookup (codes "enabled") document)

-- The raw `desired_state`, or all of the data where there is none.
unfoldable pub payload_value : (data' : Text) → Option Text → Text
payload_value data' none = data'
payload_value data' (some raw) = if is_empty raw then data' else raw

unfoldable pub payload_of : (data' : Text) → Result Text (Dict Text) → Text
unfolding payload_value
payload_of data' (err e) = data'
payload_of data' (ok document) = payload_value data' (lookup (codes "desired_state") document)

module _ (codec : Codec) where
  -- ParseOverride; `none` is the answer that no desired state is present.
  unfoldable pub parse_override : Text → Result CacheError (Option DesiredState)
  unfolding is_disabled payload_of
  parse_override data' =
      let document = codec.unmarshal_document data' in
      if is_empty data'
      then err empty_override
      else if is_disabled codec document
      then ok none
      else (wrapped payload_parse_failed (codec.unmarshal_desired (payload_of data' document))
          >>= λ desired. ok (some desired))

  unfoldable pub override_read : FileRead → Result CacheError (Option DesiredState)
  unfolding parse_override
  override_read missing = ok none
  override_read (failed e) = err (read_failed e)
  override_read (contents data') = parse_override data'

  unfoldable pub load_override :
      {D : Type 0} → FileSystem D → Text → D → Result CacheError (Option DesiredState)
  unfolding override_read
  load_override fs path disk =
      if is_empty (trim path) then ok none else override_read (fs.read_file disk (trim path))

  unfoldable pub write_override :
      {D : Type 0} → FileSystem D → (path data' : Text) → D → D × Option CacheError
  unfolding put_file
  write_override fs path data' disk =
      if is_empty (trim path)
      then (disk, some override_path_required)
      else put_file fs codec (trim path) data' disk
