-- ===== src/Samples/Configs.antt =====
-- A project configuration with two services, an ingress, a release task and an overlay, and what is
-- built from it.
use mathlib.Core.Option
use devopsellence.Base.{
  all, map, keep, ◌&&◌, ◌++◌, sym, ap, ◌∙◌, lookup_inserted, has_key_of_lookup, true, false, ◌≡◌,
  refl, none, some, Option, [], ◌∷◌, All, Text, codes, trim, is_space, lookup, insert, contains,
  sort_texts, distinct, has_key, ◌==◌, merge, map_values, is_distinct, pos, ok, Result, Dict, arith,
  has_prefix,
}
use devopsellence.Plan.Schedule.{ascii_lower, should_schedule_service}
use devopsellence.Config.Types.{
  ServiceConfig, EnvironmentOverlay, ProjectConfig, empty_service, web, default_build_platforms,
}
use devopsellence.Config.Defaults.{
  http, apply_defaults, default_service, inferred_service_kind, service_names, auto,
}
use devopsellence.Config.Defaults.Idempotent.{IsToLower}
use devopsellence.Config.Resolve.{resolve_environment_config, selected_environment}
use devopsellence.Config.Resolve.Services.{lookup-resolve_environment_config, combined}
use devopsellence.Config.Resolved.Rules.{IsSound}
use devopsellence.Config.Resolved.{validate_resolved_project_config}
use devopsellence.Config.Validate.{validate}
use devopsellence.Config.Store.{FileRead, missing, contents, FileSystem, Yaml, write, fetch}
use devopsellence.Config.Store.RoundTrip.{IsFileSystem, fetch-write}
use devopsellence.Config.Validate.Environments.{validate-IsSound}
use devopsellence.Config.Validate.Overlays.{validate-services}
use devopsellence.Plan.Types.{EnvironmentJson, IngressJson, DesiredStateJson}
use devopsellence.Plan.Build.{NodeInput, node_document, merge_env, schedules_service}
use devopsellence.Plan.Build.Complete.{
  is_ok, has_its_secrets, tasks_have_secrets, is_ok-node_document,
}
use devopsellence.Plan.Build.Env.{IsMerged, merge_env-IsMerged}
use devopsellence.Plan.Build.Scheduled.{IsRendered, node_document-AreRendered}
use devopsellence.Plan.Build.Serving.{IsRoutedTo, IsServed, node_document-IsServed}

abbrev pub web_service : ServiceConfig
web_service = record empty_service {
  env = (codes "PORT", codes "3000") ∷ [];
  secret_refs = record { name = codes "KEY"; secret = codes "key" } ∷ [];
  ports = record { name = http; port = pos 3000 } ∷ [];
  healthcheck = some (record { path = codes "/up"; port = pos 3000 });
}

abbrev pub worker_service : ServiceConfig
worker_service = record empty_service { command = codes "work" ∷ [] }

abbrev staging : EnvironmentOverlay
staging = record {
  ingress = none;
  services =
      (
        web,
        record {
          image = some (codes "shop:staging");
          command = none;
          args = none;
          env = some ((codes "PORT", codes "4000") ∷ []);
          secret_refs = none;
          ports = none;
          healthcheck = none;
          volumes = none;
        },
      )
      ∷ [];
  tasks = none;
}

abbrev pub project : ProjectConfig
project = record {
  schema_version = pos 1;
  organization = codes "acme";
  project = codes "shop";
  default_environment = codes "production";
  build = record {
    context = codes ".";
    dockerfile = codes "Dockerfile";
    platforms = default_build_platforms;
  };
  services = (web, web_service) ∷ (codes "jobs", worker_service) ∷ [];
  tasks = record {
    release = some (record { service = web; command = codes "migrate" ∷ []; args = []; env = [] });
  };
  ingress = some (record {
    hosts = codes "shop.test" ∷ [];
    rules =
        record {
          match = record { host = codes "Shop.test"; path_prefix = [] };
          target = record { service = web; port = http };
        }
        ∷ [];
    tls = record { mode = auto; email = []; ca_directory_url = [] };
    redirect_http = none;
  });
  environments = (codes "staging", staging) ∷ [];
}

project_valid : validate ascii_lower project ≡ ok tt
unfolding validate trim has_key ◌==◌ validate_resolved_project_config resolve_environment_config
    lookup map_values insert service_names sort_texts inferred_service_kind merge contains
    ascii_lower has_prefix
project_valid = refl

staging_example :
    IsSound ascii_lower (resolve_environment_config ascii_lower project (codes "staging"))
unfolding ◌==◌ trim
staging_example = validate-IsSound ascii_lower project (codes "staging") project_valid refl

services_example :
    has_key (codes "db") (resolve_environment_config ascii_lower project (codes "staging")).services
    ≡ has_key (codes "db") project.services
services_example =
    validate-services ascii_lower project (codes "staging") (codes "db") project_valid

ascii_lower-IsToLower : IsToLower ascii_lower
unfolding ascii_lower is_space
ascii_lower-IsToLower = record { idem = λ c. ground arith; keeps_space = λ c. ground arith }

overlay_example :
    lookup web (resolve_environment_config ascii_lower project (codes "staging")).services
    ≡ Option.map default_service (combined (some web_service) (lookup web staging.services))
unfolding selected_environment lookup ◌==◌ trim is_distinct
overlay_example = lookup-resolve_environment_config ascii_lower project (codes "staging") web refl

-- Files by their paths.
abbrev file_read : Option Text → FileRead
file_read none = missing
file_read (some text) = contents text

files : FileSystem (Dict Text)
files = record {
  join = λ root name. root ++ codes "/" ++ name;
  dir = λ path. path;
  exists = λ disk path. has_key path disk;
  read_file = λ disk path. file_read (lookup path disk);
  mkdir_all = λ disk path. (disk, none);
  write_file = λ disk path text. (insert path text disk, none);
}

pair_first : {a b : Dict Text × Option Text} → a ≡ b → a.0 ≡ b.0
pair_first h = ap (λ p. p.0) h

files-IsFileSystem : IsFileSystem files
unfolding files
files-IsFileSystem = record {
  written = λ disk disk' path text h. (
    ap (λ d. file_read (lookup path d)) (sym (pair_first h))
        ∙ ap file_read (lookup_inserted path text disk),
    ap (has_key path) (sym (pair_first h))
        ∙ has_key_of_lookup path (insert path text disk) text (lookup_inserted path text disk),
  );
}

saved : ProjectConfig
unfolding apply_defaults
saved = apply_defaults ascii_lower project

one_document : Yaml
one_document = record { decode = λ text. ok saved; encode = λ cfg. ok (codes "document") }

saved_disk : Dict Text
saved_disk = (codes "/shop/devopsellence.yml", codes "document") ∷ []

fetched_example : fetch files one_document ascii_lower saved_disk (codes "/shop") ≡ ok saved
unfolding saved one_document files saved_disk write validate trim has_key map_values ◌==◌
    validate_resolved_project_config resolve_environment_config lookup insert service_names
    sort_texts inferred_service_kind merge contains ascii_lower has_prefix apply_defaults
fetched_example =
    fetch-write files one_document ascii_lower ascii_lower-IsToLower files-IsFileSystem []
      saved_disk (codes "/shop") project saved (λ text h. refl) refl

abbrev web_input : NodeInput
web_input = record {
  config = resolve_environment_config ascii_lower project (codes "staging");
  image_tag = codes "shop:1";
  revision = codes "r1";
  secrets_for_service = λ name. (codes "KEY", codes "s3cret") ∷ [];
  labels = some (web ∷ []);
  ingress_node = true;
  include_release_task = true;
  node_peers = [];
}

abbrev empty_document : DesiredStateJson
empty_document = record {
  schema_version = pos 0;
  revision = [];
  environments = [];
  ingress = none;
  node_peers = [];
}

-- The document of a web node that has the secret.
built : DesiredStateJson
unfolding node_document
built = elim (node_document web_input) [ ok document ↦ document | Result.err e ↦ empty_document ]

built_ok : node_document web_input ≡ ok built
unfolding built service_names sort_texts resolve_environment_config map_values lookup ◌==◌ trim
    insert should_schedule_service inferred_service_kind contains
built_ok = refl

document_example :
    (environment : EnvironmentJson) × ((built.environments ≡ environment ∷ [])
      × ((map (λ s. s.name) environment.services
            ≡ keep
                (schedules_service web_input.labels web_input.config.services)
                (service_names web_input.config))
          × All (IsRendered web_input) environment.services))
document_example = node_document-AreRendered web_input built built_ok

abbrev or_no_ingress : Option IngressJson → IngressJson
or_no_ingress none = record {
  hosts = [];
  mode = [];
  tls = record { mode = []; email = []; ca_directory_url = [] };
  redirect_http = false;
  routes = [];
}
or_no_ingress (some ingress) = ingress

served_example :
    (environment : EnvironmentJson) × ((built.environments ≡ environment ∷ [])
      × (All (IsServed environment.services) (or_no_ingress built.ingress).routes
          × All (IsRoutedTo environment) (or_no_ingress built.ingress).routes))
unfolding built service_names sort_texts resolve_environment_config map_values lookup ◌==◌ trim
    insert should_schedule_service inferred_service_kind contains distinct
served_example =
    node_document-IsServed ascii_lower web_input built (or_no_ingress built.ingress) staging_example
      built_ok refl

complete_example : is_ok (node_document web_input) ≡ (
    all
      (λ name. has_its_secrets web_input name (lookup name web_input.config.services))
      (service_names web_input.config)
    && tasks_have_secrets web_input web_input.config.tasks.release)
complete_example = is_ok-node_document web_input

merge_env_example :
    IsMerged web_service.env web_service.secret_refs []
      (merge_env web_service.env web_service.secret_refs [])
unfolding is_distinct
merge_env_example = merge_env-IsMerged web_service.env web_service.secret_refs [] refl
