-- ===== src/Solo/Attachments.antt =====
-- cli/internal/solo/state.go: which nodes are attached to the environment of a workspace. An
-- operation returns the new state beside what it returns in Go.
pub mod Attaching
use devopsellence.Base.{
  Bool, true, false, not, nat_eq, Option, none, some, List, [], ◌∷◌, ◌++◌, map, keep, any, Text,
  ◌==◌, trim, is_empty, length, contains, keys, Dict, lookup, insert, remove, has_key, sort_texts,
  or_value, Result, ok, err, ◌>>=◌, ◌>>◌, reject_if, if◌then◌else◌,
}
use devopsellence.Plan.Schedule.{trimmed_distinct, default_environment_name}
use devopsellence.Solo.Types.{AttachmentRecord, State, StateError, node_unknown, empty_attachment}
use devopsellence.Solo.Keys.{
  Paths, environment_state_key, split_environment_state_key, first_non_empty,
}

-- normalizeNodeNames, which is normalizeStringSet too.
unfoldable pub normalize_node_names : List Text → List Text
normalize_node_names names = sort_texts (trimmed_distinct names)

-- The names of a record, if there is one.
abbrev pub names_of : Option AttachmentRecord → List Text
names_of none = []
names_of (some found) = found.node_names

-- The record that AttachNode stores under the key.
unfoldable pub attached_record :
    (root environment node key : Text) → AttachmentRecord → AttachmentRecord
unfolding normalize_node_names
attached_record root environment node key old =
    let parts = split_environment_state_key key in
    record {
      workspace_root = first_non_empty (old.workspace_root ∷ trim root ∷ parts.0 ∷ []);
      workspace_key = parts.0;
      environment =
          if is_empty (trim environment)
          then default_environment_name parts.1
          else default_environment_name environment;
      node_names = normalize_node_names (old.node_names ++ node ∷ []);
    }

-- The rest of AttachNode, under a key and with what was found there: the record, whether the number
-- of names changed, and the state.
unfoldable pub attach_found :
    (root environment node key : Text)
    → Option AttachmentRecord
    → State
    → AttachmentRecord × Bool × State
unfolding attached_record
attach_found root environment node key found state =
    let old = or_value empty_attachment found in
    let new = attached_record root environment node key old in
    let changed = not (nat_eq (length new.node_names) (length old.node_names)) in
    (new, changed, record state { attachments = insert key new state.attachments })

-- What DetachNode makes of a record.
unfoldable pub detached_record : Text → AttachmentRecord → AttachmentRecord
unfolding normalize_node_names
detached_record node old = record old {
  node_names =
      normalize_node_names (keep (λ current. not (trim current == trim node)) old.node_names);
}

-- The rest of DetachNode, under a key and with what was found there.
unfoldable pub detach_found :
    Text → Text → Option AttachmentRecord → State → AttachmentRecord × Bool × State
unfolding detached_record
detach_found node key none state = (empty_attachment, false, state)
detach_found node key (some old) state =
    let new = detached_record node old in
    let changed = any (λ current. trim current == trim node) old.node_names in
    if is_empty new.node_names
    then (empty_attachment, changed, record state { attachments = remove key state.attachments })
    else (new, changed, record state { attachments = insert key new state.attachments })

module _ (paths : Paths) where
  -- State.Attachment
  unfoldable pub attachment :
      State → (root environment : Text) → Result StateError (Text × Option AttachmentRecord)
  attachment state root environment =
      environment_state_key paths root environment >>= λ key. ok (key, lookup key state.attachments)

  unfoldable pub attach_node :
      (root environment node : Text) → State → Result StateError (AttachmentRecord × Bool × State)
  unfolding attachment attach_found
  attach_node root environment node state = do
    let name = trim node
    reject_if (not (has_key name state.nodes)) (node_unknown name)
    found ← attachment state root environment
    ok (attach_found root environment name found.0 found.1 state)

  unfoldable pub detach_node :
      (root environment node : Text) → State → Result StateError (AttachmentRecord × Bool × State)
  unfolding attachment detach_found
  detach_node root environment node state =
      attachment state root environment >>= λ found. ok (detach_found node found.0 found.1 state)

  -- State.AttachedNodeNames
  unfoldable pub attached_node_names :
      State → (root environment : Text) → Result StateError (List Text)
  unfolding attachment
  attached_node_names state root environment =
      attachment state root environment >>= λ found. ok (names_of found.1)

unfoldable pub attachment_keys_for_node : State → Text → List Text
attachment_keys_for_node state node = sort_texts (
    keys
      (keep (λ entry. any (λ current. current == trim node) entry.1.node_names) state.attachments))

-- A key of the state has a record.
unfoldable pub attachments_for_node : State → Text → List AttachmentRecord
unfolding attachment_keys_for_node
attachments_for_node state node =
    map (λ key. or_value empty_attachment (lookup key state.attachments))
      (attachment_keys_for_node state node)

unfoldable pub node_has_attachments : State → Text → Bool
unfolding attachment_keys_for_node
node_has_attachments state node = not (is_empty (attachment_keys_for_node state node))
