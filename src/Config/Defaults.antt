-- ===== src/Config/Defaults.antt =====
-- deployment-core/pkg/deploycore/config/config.go: applyDefaults and the helpers on services and
-- ports. Parameter: unicode.ToLower, which strings.ToLower applies to each rune.
pub mod Idempotent
use mathlib.Core.Option
use devopsellence.Base.{
  ℕ, Bool, true, false, not, ◌&&◌, ◌||◌, Option, none, some, List, [], ◌∷◌, map, keep, any, Text,
  ◌==◌, codes, trim, is_empty, contains, ℤ, pos, is_positive, keys, Dict, merge, map_values,
  sort_texts, lookup, if◌then◌else◌,
}
use devopsellence.Plan.Schedule.{or_default, production}
use devopsellence.Config.Types.{
  SecretRef, HttpHealthcheck, ServicePort, ServiceConfig, TaskConfig, TasksConfig, BuildConfig,
  IngressConfig, IngressRuleConfig, IngressMatchConfig, IngressTargetConfig, IngressTlsConfig,
  ProjectConfig, current_schema_version, default_build_platforms, default_web_port, web, worker,
  empty_service,
}

abbrev pub is_zero : ℤ → Bool
is_zero (pos ℕ.zero) = true
is_zero _ = false

-- strings.ToLower of strings.TrimSpace
unfoldable pub normalized_ingress_host : (ℕ → ℕ) → Text → Text
normalized_ingress_host lower host = map lower (trim host)

unfoldable pub normalize_ingress_host_list : (ℕ → ℕ) → List Text → List Text
unfolding normalized_ingress_host
normalize_ingress_host_list lower [] = []
normalize_ingress_host_list lower (value ∷ values) =
    let host = normalized_ingress_host lower value in
    let rest = normalize_ingress_host_list lower values in
    if is_empty host then rest else host ∷ rest

unfoldable pub normalize_string_list_keep_order : List Text → List Text
normalize_string_list_keep_order = map trim

-- The loop of normalizeServicePorts: `seen` holds the names in the output.
unfoldable pub collect_ports : List Text → List ServicePort → List ServicePort
collect_ports seen [] = []
collect_ports seen (port ∷ ports) =
    let name = trim port.name in
    let skipped = collect_ports seen ports in
    let kept = record { name = name; port = port.port } ∷ collect_ports (name ∷ seen) ports in
    if is_empty name || contains seen name then skipped else kept

unfoldable pub normalize_service_ports : List ServicePort → List ServicePort
unfolding collect_ports
normalize_service_ports ports = collect_ports [] ports

abbrev pub http : Text
http = codes "http"

-- ServiceConfig.HTTPPort, on the service's ports.
unfoldable pub http_port : List ServicePort → ℤ → ℤ
http_port [] fallback = fallback
http_port (port ∷ ports) fallback =
    let rest = http_port ports fallback in
    if trim port.name == http && is_positive port.port then port.port else rest

-- ServiceConfig.HasPortNamed, on the service's ports.
unfoldable pub has_port_named : List ServicePort → Text → Bool
has_port_named ports name = any (λ port. trim port.name == trim name && is_positive port.port) ports

abbrev pub has_healthcheck : Option HttpHealthcheck → Bool
has_healthcheck none = false
has_healthcheck (some h) = true

unfoldable pub inferred_service_kind : Text → ServiceConfig → Text
unfolding has_port_named
inferred_service_kind name service =
    if has_port_named service.ports http
      || (has_healthcheck service.healthcheck || trim name == web)
    then web
    else worker

unfoldable pub default_healthcheck : List ServicePort → HttpHealthcheck → HttpHealthcheck
unfolding http_port
default_healthcheck ports h = record {
  path = or_default (trim h.path) (codes "/up");
  port = if is_zero h.port then http_port ports default_web_port else h.port;
}

-- The body of the loop over the services.
unfoldable pub default_service : ServiceConfig → ServiceConfig
unfolding normalize_service_ports default_healthcheck
default_service service =
    let ports = normalize_service_ports service.ports in
    record service {
      ports = ports;
      healthcheck = Option.map (default_healthcheck ports) service.healthcheck;
    }

unfoldable pub default_task : TaskConfig → TaskConfig
unfolding normalize_string_list_keep_order
default_task task = record {
  service = trim task.service;
  command = normalize_string_list_keep_order task.command;
  args = normalize_string_list_keep_order task.args;
  env = merge [] task.env;
}

unfoldable pub default_rule : (ℕ → ℕ) → IngressRuleConfig → IngressRuleConfig
unfolding normalized_ingress_host
default_rule lower rule = record {
  match = record {
    host = normalized_ingress_host lower rule.match.host;
    path_prefix = or_default (trim rule.match.path_prefix) (codes "/");
  };
  target = record { service = trim rule.target.service; port = trim rule.target.port };
}

abbrev pub auto : Text
auto = codes "auto"

unfoldable pub default_redirect : Text → Option Bool → Option Bool
default_redirect mode none = if mode == auto then some true else none
default_redirect mode (some b) = some b

unfoldable pub default_ingress : (ℕ → ℕ) → IngressConfig → IngressConfig
unfolding normalize_ingress_host_list default_rule default_redirect
default_ingress lower ingress =
    let mode = or_default (trim ingress.tls.mode) auto in
    record {
      hosts = normalize_ingress_host_list lower ingress.hosts;
      rules = map (default_rule lower) ingress.rules;
      tls = record {
        mode = mode;
        email = trim ingress.tls.email;
        ca_directory_url = trim ingress.tls.ca_directory_url;
      };
      redirect_http = default_redirect mode ingress.redirect_http;
    }

-- `if strings.TrimSpace(s) == "" { s = d }`: the text itself stays untrimmed.
abbrev pub unless_blank : Text → Text → Text
unless_blank s d = if is_empty (trim s) then d else s

unfoldable pub default_build : BuildConfig → BuildConfig
default_build build = record {
  context = unless_blank build.context (codes ".");
  dockerfile = unless_blank build.dockerfile (codes "Dockerfile");
  platforms = if is_empty build.platforms then default_build_platforms else build.platforms;
}

unfoldable pub default_tasks : TasksConfig → TasksConfig
unfolding default_task
default_tasks tasks = record { release = Option.map default_task tasks.release }

unfoldable pub apply_defaults : (ℕ → ℕ) → ProjectConfig → ProjectConfig
unfolding default_build default_service default_tasks default_ingress
apply_defaults lower cfg = record cfg {
  schema_version =
      if is_zero cfg.schema_version then current_schema_version else cfg.schema_version;
  default_environment = unless_blank cfg.default_environment production;
  build = default_build cfg.build;
  services = map_values default_service cfg.services;
  tasks = default_tasks cfg.tasks;
  ingress = Option.map (default_ingress lower) cfg.ingress;
}

unfoldable pub service_names : ProjectConfig → List Text
service_names cfg = sort_texts (keys cfg.services)

-- `InferredServiceKind(name, cfg.Services[name]) == ServiceKindWeb`, for a name in the map.
unfoldable pub is_web_service : ProjectConfig → Text → Bool
unfolding inferred_service_kind
is_web_service cfg name = elim (lookup name cfg.services) [
  | none ↦ false
  | some service ↦ inferred_service_kind name service == web
]

unfoldable pub primary_web_service_name : ProjectConfig → Option Text
unfolding service_names is_web_service
primary_web_service_name cfg = elim (keep (is_web_service cfg) (service_names cfg)) [
  | [] ↦ none
  | name ∷ [] ↦ some name
  | a ∷ b ∷ rest ↦ if is_web_service cfg web then some web else none
]
