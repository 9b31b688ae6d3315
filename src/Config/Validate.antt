-- ===== src/Config/Validate.antt =====
-- deployment-core/pkg/deploycore/config/config.go: Validate, validateEnvironmentOverlays and
-- validateEnvironmentOverlay.
pub mod Environments
pub mod Overlays
use devopsellence.Base.{
  ℕ, Bool, false, not, nat_eq, Option, none, some, List, Text, codes, trim, is_empty, is_positive,
  Dict, has_key, Result, ok, err, ◌>>=◌, ◌>>◌, reject_if, for_each, ℤ,
}
use devopsellence.Config.Types.{
  ServiceConfig, ServiceConfigOverlay, HttpHealthcheckOverlay, IngressTlsConfigOverlay,
  IngressConfigOverlay, TasksConfigOverlay, EnvironmentOverlay, ProjectConfig,
}
use devopsellence.Config.Resolve.{resolve_environment_config}
use devopsellence.Config.Resolved.{
  ConfigError, schema_version_unsupported, organization_required, project_required,
  default_environment_required, environment_key_blank, overlay_tls_blank, overlay_service_unknown,
  overlay_image_blank, overlay_healthcheck_port_not_positive, overlay_task_service_blank,
  in_environment, Check, require, validate_resolved_project_config,
}

-- `if value != nil && strings.TrimSpace(*value) == "" { return e }`
unfoldable pub require_if_set : ConfigError → Option Text → Check
unfolding require
require_if_set e none = ok tt
require_if_set e (some s) = require e s

unfoldable pub check_overlay_tls : Text → Option IngressConfigOverlay → Check
unfolding require_if_set
check_overlay_tls env none = ok tt
check_overlay_tls env (some ingress) = elim ingress.tls [
  | none ↦ ok tt
  | some tls ↦
      require_if_set (overlay_tls_blank env (codes "mode")) tls.mode
      >> (require_if_set (overlay_tls_blank env (codes "email")) tls.email
          >> require_if_set (overlay_tls_blank env (codes "ca_directory_url")) tls.ca_directory_url)
]

-- `h != nil && h.Port != nil && *h.Port <= 0`
unfoldable pub check_overlay_port : ConfigError → Option HttpHealthcheckOverlay → Check
check_overlay_port e none = ok tt
check_overlay_port e (some h) = elim h.port [
  | none ↦ ok tt
  | some port ↦ reject_if (not (is_positive port)) e
]

-- The body of the loop over the overlay's services.
unfoldable pub check_overlay_service :
    Text → Dict ServiceConfig → Text × ServiceConfigOverlay → Check
unfolding require_if_set check_overlay_port
check_overlay_service env services (name, service) =
    reject_if (not (has_key name services)) (overlay_service_unknown env name)
    >> (require_if_set (overlay_image_blank env name) service.image
        >> check_overlay_port (overlay_healthcheck_port_not_positive env name) service.healthcheck)

unfoldable pub check_overlay_tasks : Text → Option TasksConfigOverlay → Check
unfolding require_if_set
check_overlay_tasks env none = ok tt
check_overlay_tasks env (some tasks) = elim tasks.release [
  | none ↦ ok tt
  | some release ↦ require_if_set (overlay_task_service_blank env) release.service
]

unfoldable pub validate_environment_overlay : Text → EnvironmentOverlay → ProjectConfig → Check
unfolding check_overlay_tls check_overlay_service check_overlay_tasks
validate_environment_overlay env overlay cfg = do
  check_overlay_tls env overlay.ingress
  for_each (check_overlay_service env cfg.services) overlay.services
  check_overlay_tasks env overlay.tasks

-- fmt.Errorf("environments.%s: %w", name, err)
unfoldable pub within_environment : Text → Check → Check
within_environment name (ok a) = ok a
within_environment name (err e) = err (in_environment name e)

-- `version == SchemaVersion`
abbrev pub is_current : ℤ → Bool
is_current (ℤ.pos n) = nat_eq n 1
is_current (ℤ.negsuc n) = false

module _ (lower : ℕ → ℕ) where
  -- The body of the loop of validateEnvironmentOverlays.
  unfoldable pub check_environment : ProjectConfig → Text × EnvironmentOverlay → Check
  unfolding validate_environment_overlay within_environment
  check_environment cfg (key, overlay) = do
    let name = trim key
    reject_if (is_empty name) environment_key_blank
    validate_environment_overlay name overlay cfg
    within_environment name
        (validate_resolved_project_config lower (resolve_environment_config lower cfg name))

  unfoldable pub validate_environment_overlays : ProjectConfig → Check
  unfolding check_environment
  validate_environment_overlays cfg = for_each (check_environment cfg) cfg.environments

  -- Validate, for a configuration that is not nil.
  unfoldable pub validate : ProjectConfig → Check
  unfolding require validate_environment_overlays
  validate cfg = do
    reject_if (not (is_current cfg.schema_version)) schema_version_unsupported
    require organization_required cfg.organization
    require project_required cfg.project
    require default_environment_required cfg.default_environment
    validate_environment_overlays cfg
    validate_resolved_project_config lower
        (resolve_environment_config lower cfg cfg.default_environment)
