-- ===== src/Config/Resolved.antt =====
-- deployment-core/pkg/deploycore/config/config.go: validateResolvedProjectConfig, the checks
-- of one resolved environment. An error is a value with what its
-- message names; where the code ranges over a map, the first error in the order of the list is
-- reported.
pub mod Sound
pub mod Rules
use devopsellence.Base.{
  ℕ, suc, Bool, true, false, not, ◌&&◌, ◌||◌, Option, none, some, List, [], ◌∷◌, ◌++◌, map, Text,
  ◌==◌, codes, trim, is_empty, contains, has_prefix, ℤ, is_positive, keys, Dict, lookup, has_key,
  Result, ok, err, ◌>>=◌, ◌>>◌, reject_if, for_each, if◌then◌else◌,
}
use devopsellence.Plan.Schedule.{or_default}
use devopsellence.Config.Types.{
  Volume, SecretRef, HttpHealthcheck, ServicePort, ServiceConfig, TaskConfig, IngressConfig,
  IngressRuleConfig, ProjectConfig, BuildConfig, web,
}
use devopsellence.Config.Defaults.{
  normalized_ingress_host, http_port, has_port_named, inferred_service_kind, service_names,
}

pub data ConfigError : Type 0 where
  schema_version_unsupported organization_required project_required : ConfigError
  default_environment_required : ConfigError
  build_context_required build_dockerfile_required : ConfigError
  build_platforms_required build_platform_blank : ConfigError
  services_required : ConfigError
  command_blank args_blank env_key_blank secret_name_required secret_required : Text → ConfigError
  volume_source_required volume_target_required volume_target_relative : Text → ConfigError
  port_name_required http_port_required healthcheck_required : Text → ConfigError
  healthcheck_path_required healthcheck_port_not_positive : Text → ConfigError
  port_not_positive port_duplicate : (service port : Text) → ConfigError
  task_service_required task_command_required task_command_blank : ConfigError
  task_args_blank task_env_key_blank : ConfigError
  task_service_unknown : Text → ConfigError
  hosts_required host_blank rules_required tls_mode_unsupported : ConfigError
  host_duplicate : Text → ConfigError
  rule_host_required rule_host_unknown rule_path_relative rule_service_required : ℕ → ConfigError
  rule_port_required : ℕ → ConfigError
  rule_service_unknown : ℕ → Text → ConfigError
  rule_port_unknown : ℕ → (service port : Text) → ConfigError
  route_duplicate : (host path : Text) → ConfigError
  environment_key_blank : ConfigError
  overlay_tls_blank : (environment field : Text) → ConfigError
  overlay_service_unknown overlay_image_blank : (environment service : Text) → ConfigError
  overlay_healthcheck_port_not_positive : (environment service : Text) → ConfigError
  overlay_task_service_blank : Text → ConfigError
  in_environment : Text → ConfigError → ConfigError

abbrev pub Check : Type 0
Check = Result ConfigError (Unit {0})

-- `if strings.TrimSpace(s) == "" { return e }`
unfoldable pub require : ConfigError → Text → Check
require e s = reject_if (is_empty (trim s)) e

unfoldable pub check_secret_ref : Text → SecretRef → Check
unfolding require
check_secret_ref service ref =
    require (secret_name_required service) ref.name >> require (secret_required service) ref.secret

-- The last test is filepath.IsAbs.
unfoldable pub check_volume : Text → Volume → Check
unfolding require
check_volume service volume =
    require (volume_source_required service) volume.source
    >> (require (volume_target_required service) volume.target
        >> reject_if (not (has_prefix volume.target (codes "/"))) (volume_target_relative service))

unfoldable pub check_ports : Text → (seen : List Text) → List ServicePort → Check
unfolding require
check_ports service seen [] = ok tt
check_ports service seen (port ∷ ports) = do
  require (port_name_required service) port.name
  reject_if (not (is_positive port.port)) (port_not_positive service port.name)
  reject_if (contains seen port.name) (port_duplicate service port.name)
  check_ports service (port.name ∷ seen) ports

unfoldable pub check_healthcheck : Text → Option HttpHealthcheck → Check
unfolding require
check_healthcheck service none = err (healthcheck_required service)
check_healthcheck service (some h) =
    require (healthcheck_path_required service) h.path
    >> reject_if (not (is_positive h.port)) (healthcheck_port_not_positive service)

-- What a service of the kind `web` needs.
unfoldable pub check_web : Text → ServiceConfig → Check
unfolding check_healthcheck
check_web name service =
    reject_if (not (is_positive (http_port service.ports (ℤ.pos 0)))) (http_port_required name)
    >> check_healthcheck name service.healthcheck

unfoldable pub validate_service : Text → ServiceConfig → Check
unfolding require check_secret_ref check_volume check_ports check_web
validate_service name service = do
  for_each (require (command_blank name)) service.command
  for_each (require (args_blank name)) service.args
  for_each (require (env_key_blank name)) (keys service.env)
  for_each (check_secret_ref name) service.secret_refs
  for_each (check_volume name) service.volumes
  check_ports name [] service.ports
  if inferred_service_kind name service == web then check_web name service else ok tt

unfoldable pub validate_task : Dict ServiceConfig → TaskConfig → Check
unfolding require
validate_task services release = do
  let name = trim release.service
  reject_if (is_empty name) task_service_required
  reject_if (not (has_key name services)) (task_service_unknown name)
  reject_if (is_empty release.command && is_empty release.args) task_command_required
  for_each (require task_command_blank) release.command
  for_each (require task_args_blank) release.args
  for_each (require task_env_key_blank) (keys release.env)

unfoldable pub validate_task_if_any : Dict ServiceConfig → Option TaskConfig → Check
unfolding validate_task
validate_task_if_any services none = ok tt
validate_task_if_any services (some release) = validate_task services release

unfoldable pub validate_tasks : ProjectConfig → Check
unfolding validate_task_if_any
validate_tasks cfg = validate_task_if_any cfg.services cfg.tasks.release

unfoldable pub check_hosts : (seen : List Text) → List Text → Check
check_hosts seen [] = ok tt
check_hosts seen (value ∷ values) = do
  let host = trim value
  reject_if (is_empty host) host_blank
  reject_if (contains seen host) (host_duplicate host)
  check_hosts (host ∷ seen) values

unfoldable pub check_target : ℕ → (service port : Text) → Option ServiceConfig → Check
check_target i service port none = err (rule_service_unknown i service)
check_target i service port (some target) =
    reject_if (is_empty port) (rule_port_required i)
    >> reject_if (not (has_port_named target.ports port)) (rule_port_unknown i service port)

-- `host + "\n" + pathPrefix`
abbrev pub route_key : (host path : Text) → Text
route_key host path = host ++ 10 ∷ path

-- The loop of validateIngressRules.
unfoldable pub check_rules :
    (ℕ → ℕ)
    → Dict ServiceConfig
    → (hosts : List Text) → ℕ
    → (seen : List Text) → List IngressRuleConfig
    → Check
unfolding check_target
check_rules lower services hosts i seen [] = ok tt
check_rules lower services hosts i seen (rule ∷ rules) = do
  let host = normalized_ingress_host lower rule.match.host
  let path = or_default (trim rule.match.path_prefix) (codes "/")
  let service = trim rule.target.service
  reject_if (is_empty host) (rule_host_required i)
  reject_if (not (contains hosts host)) (rule_host_unknown i)
  reject_if (not (has_prefix path (codes "/"))) (rule_path_relative i)
  reject_if (is_empty service) (rule_service_required i)
  check_target i service (trim rule.target.port) (lookup service services)
  reject_if (contains seen (route_key host path)) (route_duplicate host path)
  check_rules lower services hosts (suc i) (route_key host path ∷ seen) rules

unfoldable pub is_tls_mode : Text → Bool
is_tls_mode mode =
    is_empty mode || mode == codes "auto" || mode == codes "off" || mode == codes "manual"

unfoldable pub validate_ingress : (ℕ → ℕ) → Dict ServiceConfig → IngressConfig → Check
unfolding check_hosts check_rules is_tls_mode
validate_ingress lower services ingress = do
  reject_if (is_empty ingress.hosts) hosts_required
  check_hosts [] ingress.hosts
  reject_if (is_empty ingress.rules) rules_required
  check_rules lower services (map (normalized_ingress_host lower) ingress.hosts) 0 [] ingress.rules
  reject_if (not (is_tls_mode (trim ingress.tls.mode))) tls_mode_unsupported

unfoldable pub validate_ingress_if_any : (ℕ → ℕ) → Dict ServiceConfig → Option IngressConfig → Check
unfolding validate_ingress
validate_ingress_if_any lower services none = ok tt
validate_ingress_if_any lower services (some ingress) = validate_ingress lower services ingress

unfoldable pub validate_build : BuildConfig → Check
unfolding require
validate_build build = do
  require build_context_required build.context
  require build_dockerfile_required build.dockerfile
  reject_if (is_empty build.platforms) build_platforms_required
  for_each (require build_platform_blank) build.platforms

-- The body of the loop over the services' names.
unfoldable pub validate_named_service : Dict ServiceConfig → Text → Check
unfolding validate_service
validate_named_service services name = elim (lookup name services) [
  | none ↦ ok tt
  | some service ↦ validate_service name service
]

unfoldable pub validate_resolved_project_config : (ℕ → ℕ) → ProjectConfig → Check
unfolding validate_build validate_named_service validate_tasks validate_ingress_if_any
validate_resolved_project_config lower cfg = do
  validate_build cfg.build
  reject_if (is_empty cfg.services) services_required
  for_each (validate_named_service cfg.services) (service_names cfg)
  validate_tasks cfg
  validate_ingress_if_any lower cfg.services cfg.ingress
