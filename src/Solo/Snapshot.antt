-- ===== src/Solo/Snapshot.antt =====
-- cli/internal/solo/state.go: the snapshot that a deployment is made of, and its redaction. The time
-- of the snapshot is an argument.
pub mod Redacted
use devopsellence.Base.{
  Bool, not, Option, none, some, List, [], ◌∷◌, ◌++◌, map, keep, Text, ◌==◌, trim, is_empty,
  distinct, Dict, lookup, insert, remove, merge, or_value, Result, ok, err, ◌>>=◌, if◌then◌else◌,
}
use devopsellence.Config.Types.{ServiceConfig, SecretRef, TaskConfig, IngressConfig, ProjectConfig}
use devopsellence.Config.Defaults.{inferred_service_kind, service_names}
use devopsellence.Plan.Types.{ServiceJson, TaskJson, IngressJson, DeploySnapshot}
use devopsellence.Plan.Schedule.{default_environment_name, trimmed_distinct}
use devopsellence.Plan.Build.{BuildError, build_service, build_release_task, build_ingress}
use devopsellence.Solo.Types.{StateError}
use devopsellence.Solo.Keys.{Paths, canonical_workspace_key}

pub data SnapshotError : Type 0 where
  of_state : StateError → SnapshotError
  of_build : BuildError → SnapshotError

abbrev pub or_state_error {ℓ} : {A : Type ℓ} → Result StateError A → Result SnapshotError A
or_state_error (ok a) = ok a
or_state_error (err e) = err (of_state e)

abbrev pub or_build_error {ℓ} : {A : Type ℓ} → Result BuildError A → Result SnapshotError A
or_build_error (ok a) = ok a
or_build_error (err e) = err (of_build e)

-- What a snapshot is built from.
pub record SnapshotInput : Type 0 where
  pub config : ProjectConfig
  pub workspace_root : Text
  pub config_path : Text
  pub image_tag : Text
  pub revision : Text
  pub updated_at : Text

-- The trimmed names of a service's secrets, without the empty ones.
unfoldable pub secret_ref_names : List SecretRef → List Text
secret_ref_names refs = keep (λ name. not (is_empty name)) (map (λ ref. trim ref.name) refs)

-- What the loop over the services gathers: the services and the names of their secrets.
pub record Gathered : Type 0 where
  pub services : List ServiceJson
  pub secret_refs : Dict (List Text)

-- `m[name] = append(m[name], …)` for each of the names, in the order of the services.
unfoldable pub with_refs : Text → List Text → Dict (List Text) → Dict (List Text)
with_refs service [] refs = refs
with_refs service (name ∷ names) refs = (service, name ∷ names) ∷ refs

module _ (config : ProjectConfig) (image_tag : Text) (secrets_for_service : Text → Dict Text) where
  -- One service, before what the later ones gather.
  unfoldable pub gather_service :
      Text → Option ServiceConfig → Result BuildError Gathered → Result BuildError Gathered
  unfolding build_service with_refs secret_ref_names
  gather_service name none rest = rest
  gather_service name (some service) rest =
      build_service name service image_tag (secrets_for_service name) >>= λ rendered.
      rest >>= λ later. ok (record {
        services = rendered ∷ later.services;
        secret_refs = with_refs name (secret_ref_names service.secret_refs) later.secret_refs;
      })

  unfoldable pub gather_services : List Text → Result BuildError Gathered
  unfolding gather_service
  gather_services [] = ok (record { services = []; secret_refs = [] })
  gather_services (name ∷ names) =
      gather_service name (lookup name config.services) (gather_services names)

  unfoldable pub gather_task : Option TaskConfig → Result BuildError (Option TaskJson)
  unfolding build_release_task
  gather_task none = ok none
  gather_task (some release) =
      build_release_task config.services release image_tag (secrets_for_service release.service)
      >>= λ task. ok (some task)

abbrev pub task_service : Option TaskConfig → Text
task_service none = []
task_service (some release) = release.service

-- The kind of a configured service, or nothing.
abbrev pub kind_in : Dict ServiceConfig → Text → Text
unfolding inferred_service_kind
kind_in services name = elim (lookup name services) [
  | none ↦ []
  | some service ↦ inferred_service_kind name service
]

abbrev pub task_kind : Dict ServiceConfig → Option TaskConfig → Text
unfolding kind_in
task_kind services none = []
task_kind services (some release) = kind_in services release.service

-- ingressSnapshotService: the service that all the rules target, if there is one such.
unfoldable pub ingress_snapshot_service : Option IngressConfig → Option Text
ingress_snapshot_service none = none
ingress_snapshot_service (some ingress) =
    elim (trimmed_distinct (map (λ r. r.target.service) ingress.rules)) [
      | [] ↦ none
      | name ∷ [] ↦ some name
      | a ∷ b ∷ rest ↦ none
    ]

abbrev pub ingress_kind : Dict ServiceConfig → Option Text → Text
unfolding kind_in
ingress_kind services none = []
ingress_kind services (some name) = kind_in services name

abbrev pub snapshot_ingress : Option IngressConfig → Text → Option IngressJson
unfolding build_ingress
snapshot_ingress none environment = none
snapshot_ingress (some ingress) environment = build_ingress ingress environment

-- The snapshot of what was gathered.
unfoldable pub assembled_snapshot :
    SnapshotInput → (workspace_key : Text) → Gathered → Option TaskJson → DeploySnapshot
unfolding task_kind ingress_snapshot_service ingress_kind snapshot_ingress default_environment_name
assembled_snapshot input workspace_key gathered task =
    let cfg = input.config in
    let environment = default_environment_name cfg.default_environment in
    let ingress_service = ingress_snapshot_service cfg.ingress in
    record {
      workspace_root = input.workspace_root;
      workspace_key = workspace_key;
      environment = environment;
      revision = trim input.revision;
      image = trim input.image_tag;
      services = gathered.services;
      release_task = task;
      release_service = task_service cfg.tasks.release;
      release_service_kind = task_kind cfg.services cfg.tasks.release;
      ingress = snapshot_ingress cfg.ingress environment;
      ingress_service = or_value [] ingress_service;
      ingress_service_kind = ingress_kind cfg.services ingress_service;
      secret_refs = gathered.secret_refs;
      metadata = record {
        config_path = trim input.config_path;
        project = trim cfg.project;
        updated_at = input.updated_at;
      };
    }

unfoldable pub build_deploy_snapshot :
    Paths
    → SnapshotInput
    → (secrets_for_service : Text → Dict Text) → Result SnapshotError DeploySnapshot
unfolding gather_services gather_task assembled_snapshot
build_deploy_snapshot paths input secrets_for_service = do
  workspace_key ← or_state_error (canonical_workspace_key paths input.workspace_root)
  gathered ← or_build_error (
      gather_services input.config input.image_tag secrets_for_service (service_names input.config))
  task ←
      or_build_error
        (gather_task input.config input.image_tag secrets_for_service input.config.tasks.release)
  ok (assembled_snapshot input workspace_key gathered task)

-- The loop of redactedEnv.
unfoldable pub delete_names : List Text → Dict Text → Dict Text
delete_names [] env = env
delete_names (name ∷ names) env = delete_names names (remove name env)

unfoldable pub redacted_env : Dict Text → List Text → Dict Text
unfolding delete_names
redacted_env env names = if is_empty env then env else delete_names names env

-- The names of the secrets of a service of the configuration.
abbrev pub refs_found : Option ServiceConfig → List Text
refs_found none = []
refs_found (some service) = map (λ ref. ref.name) service.secret_refs

abbrev pub secret_names : ProjectConfig → Text → List Text
secret_names cfg name = refs_found (lookup name cfg.services)

unfoldable pub redacted_service : ProjectConfig → ServiceJson → ServiceJson
unfolding redacted_env
redacted_service cfg service = record service {
  env = redacted_env service.env (secret_names cfg service.name);
}

unfoldable pub redacted_task : ProjectConfig → Option TaskConfig → Option TaskJson → Option TaskJson
unfolding redacted_env
redacted_task cfg none task = task
redacted_task cfg (some release) none = none
redacted_task cfg (some release) (some task) =
    some (record task { env = redacted_env task.env (secret_names cfg release.service) })

-- RedactDeploySnapshotSecrets, for a configuration that is not nil.
unfoldable pub redact_deploy_snapshot_secrets : DeploySnapshot → ProjectConfig → DeploySnapshot
unfolding redacted_service redacted_task
redact_deploy_snapshot_secrets snapshot cfg = record snapshot {
  services = map (redacted_service cfg) snapshot.services;
  release_task = redacted_task cfg cfg.tasks.release snapshot.release_task;
}
