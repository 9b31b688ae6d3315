-- ===== src/Config/Resolve.antt =====
-- deployment-core/pkg/deploycore/config/config.go: ResolveEnvironmentConfig and the merges of an
-- overlay into a base. A clone of a value is that value here.
pub mod Services
use mathlib.Core.Option
use devopsellence.Base.{
  ℕ, Bool, Option, none, some, List, [], ◌∷◌, Text, trim, is_empty, ℤ, Dict, merge, lookup, insert,
  or_value, if◌then◌else◌,
}
use devopsellence.Plan.Schedule.{or_default, production}
use devopsellence.Config.Types.{
  HttpHealthcheck, HttpHealthcheckOverlay, ServiceConfig, ServiceConfigOverlay, TaskConfig,
  TaskConfigOverlay, TasksConfig, TasksConfigOverlay, IngressConfig, IngressConfigOverlay,
  IngressTlsConfig, IngressTlsConfigOverlay, EnvironmentOverlay, ProjectConfig, empty_service,
  empty_task, empty_ingress,
}
use devopsellence.Config.Defaults.{apply_defaults}

-- `if overlay != nil { base = *overlay }`, without and with strings.TrimSpace.
abbrev pub override {ℓ} : {A : Type ℓ} → A → Option A → A
override base none = base
override base (some a) = a

abbrev pub override_trimmed : Text → Option Text → Text
override_trimmed base none = base
override_trimmed base (some s) = trim s

abbrev pub override_env : Dict Text → Option (Dict Text) → Dict Text
override_env base none = base
override_env base (some env) = merge (merge [] base) env

unfoldable pub merge_healthcheck :
    Option HttpHealthcheck → Option HttpHealthcheckOverlay → Option HttpHealthcheck
merge_healthcheck base none = base
merge_healthcheck none (some overlay) =
    some
      (record { path = override_trimmed [] overlay.path; port = override (ℤ.pos 0) overlay.port })
merge_healthcheck (some h) (some overlay) =
    some
      (record { path = override_trimmed h.path overlay.path; port = override h.port overlay.port })

unfoldable pub merge_service_config : ServiceConfig → ServiceConfigOverlay → ServiceConfig
unfolding merge_healthcheck
merge_service_config base overlay = record {
  image = override_trimmed base.image overlay.image;
  command = override base.command overlay.command;
  args = override base.args overlay.args;
  env = override_env base.env overlay.env;
  secret_refs = override base.secret_refs overlay.secret_refs;
  ports = override base.ports overlay.ports;
  healthcheck = merge_healthcheck base.healthcheck overlay.healthcheck;
  volumes = override base.volumes overlay.volumes;
}

unfoldable pub merge_task : TaskConfig → TaskConfigOverlay → TaskConfig
merge_task base overlay = record {
  service = override_trimmed base.service overlay.service;
  command = override base.command overlay.command;
  args = override base.args overlay.args;
  env = override_env base.env overlay.env;
}

abbrev pub or_empty_task : Option TaskConfig → TaskConfig
or_empty_task none = empty_task
or_empty_task (some task) = task

-- mergeTasksConfig, for an overlay that is not nil.
unfoldable pub merge_tasks_config : TasksConfig → TasksConfigOverlay → TasksConfig
unfolding merge_task
merge_tasks_config base overlay = elim overlay.release [
  | none ↦ base
  | some release ↦ record { release = some (merge_task (or_empty_task base.release) release) }
]

unfoldable pub merge_tls : IngressTlsConfig → Option IngressTlsConfigOverlay → IngressTlsConfig
merge_tls base none = base
merge_tls base (some overlay) = record {
  mode = override_trimmed base.mode overlay.mode;
  email = override_trimmed base.email overlay.email;
  ca_directory_url = override_trimmed base.ca_directory_url overlay.ca_directory_url;
}

abbrev pub or_empty_ingress : Option IngressConfig → IngressConfig
or_empty_ingress none = empty_ingress
or_empty_ingress (some ingress) = ingress

abbrev pub override_flag : Option Bool → Option Bool → Option Bool
override_flag base none = base
override_flag base (some b) = some b

-- mergeIngressConfig, for an overlay that is not nil.
unfoldable pub merge_ingress_config : Option IngressConfig → IngressConfigOverlay → IngressConfig
unfolding merge_tls
merge_ingress_config base overlay =
    let merged = or_empty_ingress base in
    record {
      hosts = override merged.hosts overlay.hosts;
      rules = override merged.rules overlay.rules;
      tls = merge_tls merged.tls overlay.tls;
      redirect_http = override_flag merged.redirect_http overlay.redirect_http;
    }

-- The loop over the overlay's services.
unfoldable pub merge_services : Dict ServiceConfig → Dict ServiceConfigOverlay → Dict ServiceConfig
unfolding merge_service_config
merge_services services [] = services
merge_services services ((name, entry) ∷ rest) =
    merge_services
      (insert name (merge_service_config (or_value empty_service (lookup name services)) entry)
        services)
      rest

unfoldable pub merged_ingress :
    Option IngressConfig → Option IngressConfigOverlay → Option IngressConfig
unfolding merge_ingress_config
merged_ingress base none = base
merged_ingress base (some overlay) = some (merge_ingress_config base overlay)

unfoldable pub merged_tasks : TasksConfig → Option TasksConfigOverlay → TasksConfig
unfolding merge_tasks_config
merged_tasks base none = base
merged_tasks base (some overlay) = merge_tasks_config base overlay

-- What an overlay changes before the defaults are applied.
unfoldable pub overlaid : ProjectConfig → EnvironmentOverlay → ProjectConfig
unfolding merge_services merged_ingress merged_tasks
overlaid cfg overlay = record cfg {
  ingress = merged_ingress cfg.ingress overlay.ingress;
  services = merge_services cfg.services overlay.services;
  tasks = merged_tasks cfg.tasks overlay.tasks;
}

-- The name that is selected: the given one, the configured default, or `production`.
unfoldable pub selected_environment : ProjectConfig → Text → Text
selected_environment base name =
    or_default (trim name) (or_default (trim base.default_environment) production)

unfoldable pub overlaid_if_any : ProjectConfig → Option EnvironmentOverlay → ProjectConfig
unfolding overlaid
overlaid_if_any cfg none = cfg
overlaid_if_any cfg (some overlay) = overlaid cfg overlay

-- The configuration under the selected name.
unfoldable pub resolve_selected : (ℕ → ℕ) → ProjectConfig → Text → ProjectConfig
unfolding apply_defaults overlaid_if_any
resolve_selected lower base env_name = apply_defaults lower (
    overlaid_if_any (record base { default_environment = env_name })
      (lookup env_name base.environments))

-- Its error is always nil.
unfoldable pub resolve_environment_config : (ℕ → ℕ) → ProjectConfig → Text → ProjectConfig
unfolding selected_environment resolve_selected
resolve_environment_config lower base name =
    resolve_selected lower base (selected_environment base name)
