-- ===== src/Samples/Solos.antt =====
-- A workspace with one node, one release and one secret, and a disk of files by their paths.
use devopsellence.Base.{
  false, ◌≡◌, refl, sym, ap, ◌∙◌, none, some, [], ◌∷◌, ◌++◌, Text, codes, trim, ◌==◌, lookup,
  insert, remove, lookup-insert, lookup-remove, lookup_inserted, has_key, sort_texts, has_prefix,
  pos, ok, err, Result, Dict, Option, arith,
}
use devopsellence.Plan.Types.{NodeConfig, DeploySnapshot}
use devopsellence.Release.Types.{Release}
use devopsellence.Config.Store.{FileRead, missing, contents}
use devopsellence.Config.Defaults.{service_names}
use devopsellence.Solo.Types.{State, StateError, SecretRecord, SecretMaterial, StoredDeployment}
use devopsellence.Plan.Schedule.{ascii_lower}
use devopsellence.Release.Create.{is_supported_kind}
use devopsellence.Solo.Keys.{
  Paths, canonical_workspace_key, environment_state_key, normalize_workspace_identity,
  environment_of,
}
use devopsellence.Solo.Nodes.{set_node, normalize_and_validate_node}
use devopsellence.Solo.Releases.{save_release, current_release, snapshot, keyed_release}
use devopsellence.Solo.Releases.Saving.{save_release-current_release}
use devopsellence.Solo.Secrets.{set_secret, delete_secret}
use devopsellence.Solo.Secrets.Kept.{IsScope, set_secret-delete_secret}
use devopsellence.Solo.Normalize.{normalize_state}
use devopsellence.Solo.Normalize.Normal.{IsNormal, normalize_state-IsNormal}
use devopsellence.Solo.Attachments.{attach_node}
use devopsellence.Solo.Attachments.Attaching.{
  Operation, attach, run, key_of, done, step, is_attached, apply_all, Steps-apply_all,
}
use devopsellence.Solo.Snapshot.{
  SnapshotError, SnapshotInput, build_deploy_snapshot, redact_deploy_snapshot_secrets,
}
use devopsellence.Solo.Snapshot.Redacted.{redact_deploy_snapshot_secrets_lem}
use devopsellence.Solo.Store.{Disk, Json, update}
use devopsellence.Solo.Store.Atomic.{IsDisk}
use devopsellence.Solo.Store.Outcome.{IsUpdated, update-IsUpdated}
use devopsellence.Samples.Values.{web_snapshot, web_release, sample_times, web_node}
use devopsellence.Samples.Configs.{project}

abbrev plain_paths : Paths
plain_paths = record {
  abs = λ path. ok path;
  eval_symlinks = λ path. err (codes "no such file");
  clean = λ path. path;
}

abbrev reached_node : NodeConfig
reached_node = record (web_node (codes "n1")).config { user = codes "root" }

abbrev with_node : State
with_node = record {
  schema_version = pos 1;
  nodes = (codes "n1", reached_node) ∷ [];
  attachments = [];
  snapshots = [];
  releases = [];
  current = [];
  deployments = [];
  secrets = [];
  ingress_checks = [];
}

abbrev first_release : Release
first_release = web_release (codes "r1") (codes "1")

abbrev state_of : Result StateError (Text × State) → State
state_of (ok out) = out.1
state_of (err e) = with_node

released : State
unfolding save_release
released = state_of (save_release plain_paths first_release with_node)

abbrev release_key : Text
release_key = codes "/w" ++ 10 ∷ codes "p"

saved_release_example :
    (current_release plain_paths released (codes "/w") (codes "p")
      ≡ ok (release_key, some (keyed_release release_key first_release)))
    × (snapshot plain_paths released (codes "/w") (codes "p")
        ≡ ok (release_key, some (keyed_release release_key first_release).snapshot))
unfolding released save_release trim environment_state_key
saved_release_example =
    save_release-current_release plain_paths first_release with_node released release_key refl refl

abbrev material : SecretMaterial
material = record { store = codes "OP"; value = []; reference = codes "op://vault/key" }

abbrev kept_of : Result StateError (SecretRecord × State) → SecretRecord × State
kept_of (ok out) = out
kept_of (err e) = (
  record {
    workspace_root = [];
    workspace_key = [];
    environment = [];
    service_name = [];
    name = [];
    store = [];
    value = [];
    reference = [];
    updated_at = [];
  },
  with_node,
)

kept : SecretRecord × State
unfolding set_secret
kept = kept_of (
    set_secret plain_paths (codes "now") (codes "/w") [] (codes "web") (codes "KEY") material
      released)

deleted_example :
    (key : Text) × (IsScope plain_paths (codes "/w") [] (codes "web") (codes "KEY") key kept.0
      × (delete_secret plain_paths (codes "/w") [] (codes "web") (codes "KEY") kept.1
          ≡ ok (kept.0, record released { secrets = remove key released.secrets })))
unfolding kept set_secret trim ◌==◌ canonical_workspace_key ascii_lower has_prefix
deleted_example =
    set_secret-delete_secret plain_paths (codes "now") (codes "/w") [] (codes "web") (codes "KEY")
      material released kept.1 kept.0 refl

abbrev deployment : StoredDeployment
deployment = record {
  id = codes "d1";
  environment_id = release_key;
  release_id = codes "r1";
  kind = codes "deploy";
  sequence = pos 1;
  target_node_ids = [];
  status = codes "settled";
  status_message = [];
  created_at = [];
  finished_at = [];
  command_result = none;
  publication_result = none;
}

stored : State
unfolding kept
stored = record kept.1 { deployments = (codes "d1", deployment) ∷ [] }

abbrev normal_of : Result StateError State → State
normal_of (ok state) = state
normal_of (err e) = with_node

normal : State
unfolding normalize_state
normal = normal_of (normalize_state plain_paths sample_times stored)

normal_example : IsNormal normal
unfolding normal stored canonical_workspace_key trim ascii_lower ◌==◌ has_prefix released
    environment_state_key normalize_and_validate_node insert normalize_workspace_identity has_key
    lookup environment_of is_supported_kind
normal_example = normalize_state-IsNormal plain_paths sample_times stored normal refl

abbrev attach_one : Operation
attach_one = attach (codes "/w") [] (codes " n1 ")

abbrev default_key : Text
default_key = codes "/w" ++ 10 ∷ codes "production"

abbrev ran : Result StateError State → State
ran (ok state) = state
ran (err e) = with_node

attached : State
unfolding run
attached = ran (run plain_paths attach_one with_node)

key_of_one : key_of plain_paths attach_one ≡ ok default_key
unfolding key_of environment_state_key trim
key_of_one = refl

ran_one : run plain_paths attach_one with_node ≡ ok attached
unfolding attached attach_node has_key ◌==◌ trim environment_state_key
ran_one = refl

attached_example :
    is_attached attached default_key (codes "n1")
    ≡ apply_all ((default_key, attach_one) ∷ []) (is_attached with_node) default_key (codes "n1")
attached_example =
    Steps-apply_all plain_paths with_node attached ((default_key, attach_one) ∷ []) default_key
      (codes "n1")
      (step {middle = attached} {key = default_key} {op = attach_one} key_of_one ran_one done)

abbrev snapshot_input : SnapshotInput
snapshot_input = record {
  config = project;
  workspace_root = codes "/w";
  config_path = codes "devopsellence.yml";
  image_tag = codes "shop:1";
  revision = codes "r1";
  updated_at = codes "now";
}

abbrev secret_of : Text → Text → Dict Text
secret_of value service = (codes "KEY", value) ∷ []

abbrev snapshot_or : Result SnapshotError DeploySnapshot → DeploySnapshot
snapshot_or (ok s) = s
snapshot_or (err e) = web_snapshot

built_with : Text → DeploySnapshot
unfolding build_deploy_snapshot
built_with value = snapshot_or (build_deploy_snapshot plain_paths snapshot_input (secret_of value))

redacted_example :
    redact_deploy_snapshot_secrets (built_with (codes "one")) project
    ≡ redact_deploy_snapshot_secrets (built_with (codes "two")) project
unfolding built_with canonical_workspace_key service_names sort_texts lookup ◌==◌
redacted_example =
    redact_deploy_snapshot_secrets_lem plain_paths snapshot_input (secret_of (codes "one"))
      (secret_of (codes "two")) (built_with (codes "one")) (built_with (codes "two")) refl refl

abbrev found_file : Option Text → FileRead
found_file none = missing
found_file (some text) = contents text

-- A rename of a file that is not there fails.
abbrev moved : Text → Text → Option Text → Dict Text → Dict Text × Option Text
moved source target none files = (files, some (codes "no such file"))
moved source target (some text) files = (insert target text files, none)

disk : Disk (Dict Text)
disk = record {
  dir = λ path. path;
  read_file = λ files path. found_file (lookup path files);
  mkdir_all = λ files path. (files, none);
  create_temp = λ files dir. (files, ok (codes "temp"));
  write = λ files path text. (insert path text files, none);
  chmod = λ files path. (files, none);
  sync = λ files path. (files, none);
  close = λ files path. (files, none);
  rename = λ files source target. moved source target (lookup source files) files;
  remove = λ files path. remove path files;
  sync_dir = λ files path. files;
}

abbrev state_path : Text
state_path = codes "state.json"

none_ne : {a : Text} → ¬ (none ≡ some a)
none_ne h = ground arith

temp_value : {a b : Text} → ◌≡◌ {A = Result Text Text} (ok a) (ok b) → a ≡ b
temp_value {a = a} h = ap (λ r. elim r [ ok x ↦ x | err e ↦ a ]) h

temp_other :
    (d d' : Dict Text) (temp : Text)
    → ◌≡◌ {A = Dict Text × Result Text Text} (d, ok (codes "temp")) (d', ok temp)
    → (temp == state_path) ≡ false
unfolding ◌==◌
temp_other d d' temp h = ap (λ t. t == state_path) (sym (temp_value (ap (λ r. r.1) h)))

not_moved :
    (source e : Text) (found : Option Text) (d d' : Dict Text)
    → moved source state_path found d ≡ (d', some e)
    → found_file (lookup state_path d') ≡ found_file (lookup state_path d)
not_moved source e none d d' h = ap (λ r. found_file (lookup state_path r.0)) (sym h)
not_moved source e (some text) d d' h = absurd (none_ne (ap (λ r. r.1) h))

was_moved :
    (source : Text) (found : Option Text) (d d' : Dict Text)
    → lookup source d ≡ found
    → moved source state_path found d ≡ (d', none)
    → found_file (lookup state_path d') ≡ found_file (lookup source d)
was_moved source none d d' f h = absurd (none_ne (sym (ap (λ r. r.1) h)))
was_moved source (some text) d d' f h =
    ap (λ r. found_file (lookup state_path r.0)) (sym h)
    ∙ (ap found_file (lookup_inserted state_path text d) ∙ ap found_file (sym f))

disk-IsDisk : IsDisk disk state_path
unfolding disk
disk-IsDisk = record {
  mkdir_all_keeps = λ d dir. refl;
  create_temp_keeps = λ d dir. refl;
  create_temp_other = λ d d' dir temp h. temp_other d d' temp h;
  write_keeps = λ d file text o. ap found_file (lookup-insert file state_path text d ∙ rw o refl);
  write_writes = λ d d' file text h.
      ap (λ files. found_file (lookup file files)) (sym (ap (λ r. r.0) h))
      ∙ ap found_file (lookup_inserted file text d);
  chmod_keeps = λ d file other. refl;
  sync_keeps = λ d file other. refl;
  close_keeps = λ d file other. refl;
  sync_dir_keeps = λ d dir other. refl;
  remove_keeps = λ d file o. ap found_file (lookup-remove file state_path d ∙ rw o refl);
  rename_fails = λ d d' source e h. not_moved source e (lookup source d) d d' h;
  rename_moves = λ d d' source h. was_moved source (lookup source d) d d' refl h;
}

one_json : Json
one_json = record { unmarshal = λ text. ok normal; marshal_indent = λ state. ok (codes "document") }

update_example :
    IsUpdated one_json missing
      (disk.read_file
        (update disk one_json plain_paths sample_times state_path
          (set_node (codes "n2") reached_node)
          []).0
        state_path)
      (update disk one_json plain_paths sample_times state_path
        (set_node (codes "n2") reached_node)
        []).1
unfolding disk lookup
update_example =
    update-IsUpdated disk one_json plain_paths sample_times state_path disk-IsDisk
      (set_node (codes "n2") reached_node) []
