-- ===== src/Plan/Build.antt =====
-- deployment-core/pkg/deploycore/desiredstate/desiredstate.go: the desired state of a node that runs
-- one environment, out of its project configuration. The JSON encoder is a parameter.
pub mod Env
pub mod Complete
pub mod Scheduled
pub mod Serving
use devopsellence.Base.{
  Bool, true, false, not, ◌&&◌, ◌||◌, Option, none, some, List, [], ◌∷◌, ◌++◌, map, all, Text, ◌==◌,
  codes, trim, is_empty, ℤ, pos, sort_texts, Dict, lookup, has_key, insert, merge, or_value, Result,
  ok, err, ◌>>=◌, if◌then◌else◌,
}
use devopsellence.Config.Types.{
  SecretRef, HttpHealthcheck, ServicePort, Volume, ServiceConfig, TaskConfig, IngressConfig,
  IngressRuleConfig, ProjectConfig,
}
use devopsellence.Config.Defaults.{inferred_service_kind, service_names}
use devopsellence.Plan.Types.{
  ServiceJson, ServicePortJson, HealthcheckJson, VolumeMountJson, TaskJson, EnvironmentJson,
  IngressJson, IngressRouteJson, DesiredStateJson, NodePeer,
}
use devopsellence.Plan.Schedule.{
  or_default, default_environment_name, should_schedule_service, build_node_peers, trimmed_distinct,
}
use devopsellence.Plan.Publication.{Encoder}

pub data BuildError : Type 0 where
  service_secrets_missing : (service : Text) → List Text → BuildError
  task_secrets_missing : List Text → BuildError
  task_service_unknown : Text → BuildError
  marshal_failed : Text → BuildError

-- ScopedSecrets.ValuesForService: those of every service, then those of the service.
unfoldable pub values_for_service : Dict (Dict Text) → Text → Dict Text
values_for_service secrets service =
    merge (merge [] (or_value [] (lookup [] secrets))) (or_value [] (lookup service secrets))

-- One step of mergeEnv's loop: what follows if the secret is not there, or with its value.
unfoldable pub put_secret :
    Text
    → Option Text
    → Dict Text × List Text
    → (Text → Dict Text × List Text)
    → Dict Text × List Text
put_secret name none rest found = (rest.0, name ∷ rest.1)
put_secret name (some value) rest found = found value

-- The loop of mergeEnv over the references, with what it put and what it missed.
unfoldable pub put_secrets : Dict Text → Dict Text → List SecretRef → Dict Text × List Text
unfolding put_secret
put_secrets secrets merged [] = (merged, [])
put_secrets secrets merged (ref ∷ refs) =
    put_secret ref.name (lookup ref.name secrets) (put_secrets secrets merged refs)
      (λ value. put_secrets secrets (insert ref.name value merged) refs)

unfoldable pub unless_missing : Dict Text × List Text → Result (List Text) (Dict Text)
unless_missing (merged, []) = ok merged
unless_missing (merged, m ∷ ms) = err (m ∷ ms)

-- The error carries the missing names.
unfoldable pub merge_env : Dict Text → List SecretRef → Dict Text → Result (List Text) (Dict Text)
unfolding put_secrets unless_missing
merge_env env refs secrets = unless_missing (put_secrets secrets (merge [] env) refs)

unfoldable pub healthcheck_json : HttpHealthcheck → HealthcheckJson
healthcheck_json h = record {
  path = h.path;
  port = h.port;
  interval_seconds = pos 5;
  timeout_seconds = pos 2;
  retries = pos 3;
  start_period_seconds = pos 1;
}

unfoldable pub healthcheck_if_any : Option HttpHealthcheck → Option HealthcheckJson
unfolding healthcheck_json
healthcheck_if_any none = none
healthcheck_if_any (some h) = some (healthcheck_json h)

abbrev pub port_json : ServicePort → ServicePortJson
port_json p = record { name = p.name; port = p.port }

abbrev pub mount_json : Volume → VolumeMountJson
mount_json v = record { source = v.source; target = v.target }

-- The service, with the environment that was merged for it.
unfoldable pub rendered_service : Text → ServiceConfig → Text → Dict Text → ServiceJson
unfolding healthcheck_if_any
rendered_service name service image_tag env = record {
  name = name;
  kind = inferred_service_kind name service;
  image = or_default (trim service.image) image_tag;
  entrypoint = service.command;
  command = service.args;
  env = env;
  healthcheck = healthcheck_if_any service.healthcheck;
  ports = map port_json service.ports;
  volume_mounts = map mount_json service.volumes;
}

abbrev pub within {ℓ} :
    {A : Type ℓ} → (List Text → BuildError) → Result (List Text) A → Result BuildError A
within f (ok a) = ok a
within f (err e) = err (f e)

unfoldable pub build_service :
    Text → ServiceConfig → Text → Dict Text → Result BuildError ServiceJson
unfolding merge_env rendered_service
build_service name service image_tag secrets =
    within (service_secrets_missing name) (merge_env service.env service.secret_refs secrets)
    >>= λ env. ok (rendered_service name service image_tag env)

-- `if len(a) > 0 { a } else if len(b) > 0 { b }`
abbrev pub or_list : List Text → List Text → List Text
or_list a b = if is_empty a then b else a

unfoldable pub rendered_task : ServiceConfig → TaskConfig → Text → Dict Text → TaskJson
rendered_task service release image_tag env = record {
  name = codes "release";
  image = or_default (trim service.image) image_tag;
  entrypoint = or_list release.command service.command;
  command = or_list release.args service.args;
  env = env;
  volume_mounts = map mount_json service.volumes;
}

unfoldable pub build_task_of :
    TaskConfig → Text → Dict Text → Option ServiceConfig → Result BuildError TaskJson
unfolding merge_env rendered_task
build_task_of release image_tag secrets none = err (task_service_unknown release.service)
build_task_of release image_tag secrets (some service) =
    within task_secrets_missing
      (merge_env (merge (merge [] service.env) release.env) service.secret_refs secrets)
    >>= λ env. ok (rendered_task service release image_tag env)

-- buildReleaseTask, for a configured task.
unfoldable pub build_release_task :
    Dict ServiceConfig → TaskConfig → Text → Dict Text → Result BuildError TaskJson
unfolding build_task_of
build_release_task services release image_tag secrets =
    build_task_of release image_tag secrets (lookup release.service services)

unfoldable pub built_route : Text → IngressRuleConfig → IngressRouteJson
built_route environment rule = record {
  match = record {
    hostname = trim rule.match.host;
    path_prefix = or_default (trim rule.match.path_prefix) (codes "/");
  };
  target = record {
    environment = environment;
    service = trim rule.target.service;
    port = trim rule.target.port;
  };
}

-- buildIngress, for an ingress that is not nil.
unfoldable pub build_ingress : IngressConfig → Text → Option IngressJson
unfolding built_route
build_ingress ingress environment =
    if is_empty ingress.hosts || is_empty ingress.rules
    then none
    else some (record {
      hosts = ingress.hosts;
      mode = codes "public";
      tls = record {
        mode = or_default (trim ingress.tls.mode) (codes "auto");
        email = trim ingress.tls.email;
        ca_directory_url = trim ingress.tls.ca_directory_url;
      };
      redirect_http = or_value true ingress.redirect_http;
      routes = map (built_route environment) ingress.rules;
    })

unfoldable pub ingress_target_service_names : IngressConfig → List Text
ingress_target_service_names ingress =
    sort_texts (trimmed_distinct (map (λ r. r.target.service) ingress.rules))

abbrev pub schedules_found : Option (List Text) → Text → Option ServiceConfig → Bool
schedules_found labels name none = false
schedules_found labels name (some service) =
    should_schedule_service labels (inferred_service_kind name service)

-- The service is configured, and its kind is one that the labels run.
unfoldable pub schedules_service : Option (List Text) → Dict ServiceConfig → Text → Bool
schedules_service labels services name = schedules_found labels name (lookup name services)

-- shouldScheduleIngress, for an ingress that is not nil.
unfoldable pub should_schedule_ingress :
    Option (List Text) → Dict ServiceConfig → IngressConfig → Bool
unfolding ingress_target_service_names schedules_service
should_schedule_ingress labels services ingress =
    let names = ingress_target_service_names ingress in
    if is_empty names then false else all (schedules_service labels services) names

-- What a node's desired state is built from.
pub record NodeInput : Type 0 where
  pub config : ProjectConfig
  pub image_tag : Text
  pub revision : Text
  pub secrets_for_service : Text → Dict Text
  pub labels : Option (List Text)
  pub ingress_node : Bool
  pub include_release_task : Bool
  pub node_peers : List NodePeer

-- The body of the loop over the services, with what the later ones give.
unfoldable pub build_listed_service :
    NodeInput
    → Text
    → Option ServiceConfig
    → Result BuildError (List ServiceJson)
    → Result BuildError (List ServiceJson)
unfolding build_service
build_listed_service input name none rest = rest
build_listed_service input name (some service) rest =
    if should_schedule_service input.labels (inferred_service_kind name service)
    then (build_service name service input.image_tag (input.secrets_for_service name)
        >>= λ rendered. rest >>= λ later. ok (rendered ∷ later))
    else rest

unfoldable pub build_services : NodeInput → List Text → Result BuildError (List ServiceJson)
unfolding build_listed_service
build_services input [] = ok []
build_services input (name ∷ names) =
    build_listed_service input name (lookup name input.config.services) (build_services input names)

unfoldable pub planned_ingress : NodeInput → Text → Option IngressConfig → Option IngressJson
unfolding should_schedule_ingress build_ingress
planned_ingress input environment none = none
planned_ingress input environment (some ingress) =
    if input.ingress_node && should_schedule_ingress input.labels input.config.services ingress
    then build_ingress ingress environment
    else none

unfoldable pub planned_tasks : NodeInput → Option TaskConfig → Result BuildError (List TaskJson)
unfolding schedules_service build_release_task
planned_tasks input none = ok []
planned_tasks input (some release) =
    if input.include_release_task
      && schedules_service input.labels input.config.services release.service
    then (build_release_task input.config.services release input.image_tag
          (input.secrets_for_service release.service)
        >>= λ task. ok (task ∷ []))
    else ok []

-- The document of buildDesiredStateForNode.
unfoldable pub node_document : NodeInput → Result BuildError DesiredStateJson
unfolding build_services planned_ingress planned_tasks
node_document input = do
  let environment = default_environment_name input.config.default_environment
  services ← build_services input (service_names input.config)
  tasks ← planned_tasks input input.config.tasks.release
  ok (record {
    schema_version = pos 2;
    revision = input.revision;
    environments =
        record { name = environment; revision = input.revision; services = services; tasks = tasks }
        ∷ [];
    ingress = planned_ingress input environment input.config.ingress;
    node_peers = build_node_peers input.node_peers;
  })

abbrev pub marshalled : Result Text Text → Result BuildError Text
marshalled (ok text) = ok text
marshalled (err e) = err (marshal_failed e)

unfoldable pub build_desired_state_for_node : Encoder → NodeInput → Result BuildError Text
unfolding node_document
build_desired_state_for_node encoder input =
    node_document input >>= λ document. marshalled (encoder.marshal_indent document)

-- `cfg.ReleaseTask() != nil`
abbrev pub has_task : Option TaskConfig → Bool
has_task none = false
has_task (some release) = true

-- What the exported functions pass on: without node peers there are none.
module _ (encoder : Encoder) (config : ProjectConfig) (image_tag revision : Text) where
  unfoldable pub build_desired_state_for_labels :
      (secrets : Dict Text)
      → Option (List Text)
      → (include_release_task : Bool) → Result BuildError Text
  unfolding build_desired_state_for_node
  build_desired_state_for_labels secrets labels include_release_task =
      build_desired_state_for_node encoder (record {
        config = config;
        image_tag = image_tag;
        revision = revision;
        secrets_for_service = λ service. secrets;
        labels = labels;
        ingress_node = false;
        include_release_task = include_release_task;
        node_peers = [];
      })

  unfoldable pub build_desired_state : (secrets : Dict Text) → Result BuildError Text
  unfolding build_desired_state_for_labels
  build_desired_state secrets =
      build_desired_state_for_labels secrets none (has_task config.tasks.release)

  unfoldable pub build_desired_state_with_scoped_secrets : Dict (Dict Text) → Result BuildError Text
  unfolding build_desired_state_for_node values_for_service
  build_desired_state_with_scoped_secrets secrets = build_desired_state_for_node encoder (record {
    config = config;
    image_tag = image_tag;
    revision = revision;
    secrets_for_service = values_for_service secrets;
    labels = none;
    ingress_node = false;
    include_release_task = has_task config.tasks.release;
    node_peers = [];
  })
