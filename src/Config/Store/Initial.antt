-- ===== src/Config/Store/Initial.antt =====
-- deployment-core/pkg/deploycore/config/config.go: the configuration that a project starts with.
use devopsellence.Base.{
  lookup, map_values, sort_texts, ◌==◌, contains, trim_by, trim_left, trim_right, is_space, ℕ,
  false, ◌≡◌, refl, Text, trim, is_empty, ok, Bool-cases, ◌>>◌, inl, inr,
}
use devopsellence.Plan.Schedule.{production}
use devopsellence.Config.Defaults.{
  inferred_service_kind, service_names, unless_blank, apply_defaults,
}
use devopsellence.Config.Resolve.{resolve_environment_config}
use devopsellence.Config.Resolved.{
  organization_required, project_required, require, validate_resolved_project_config,
}
use devopsellence.Config.Validate.{validate_environment_overlays, validate}
use devopsellence.Config.Store.{default_project_config}

production_named : is_empty (trim production) ≡ false
unfolding trim trim_by trim_left trim_right is_space
production_named = refl

environment_named :
    (environment : Text) → is_empty (trim (unless_blank environment production)) ≡ false
environment_named environment = elim (Bool-cases (is_empty (trim environment))) [
  | inl e ↦ rw e production_named
  | inr e ↦ rw (e, e) refl
]

resolved_valid :
    (lower : ℕ → ℕ) (organization project environment name : Text)
    → validate_resolved_project_config lower (
        resolve_environment_config lower
          (default_project_config lower organization project environment)
          name)
      ≡ ok tt
unfolding validate_resolved_project_config trim resolve_environment_config lookup
    default_project_config map_values service_names sort_texts ◌==◌ contains inferred_service_kind
resolved_valid lower organization project environment name = refl

-- The configuration that `init` writes is valid exactly if the organization and the project are
-- named; a blank environment is taken as `production`.
pub validate-default_project_config :
    (lower : ℕ → ℕ) (organization project environment : Text)
    → validate lower (default_project_config lower organization project environment)
      ≡ require organization_required organization >> require project_required project
unfolding validate validate_environment_overlays require default_project_config apply_defaults
validate-default_project_config lower organization project environment =
    rw
      (
        environment_named environment,
        resolved_valid lower organization project environment (unless_blank environment production),
      )
      (elim (Bool-cases (is_empty (trim organization))) [
        | inl e ↦ rw e refl
        | inr e ↦ elim (Bool-cases (is_empty (trim project))) [
          | inl k ↦ rw (e, k) refl
          | inr k ↦ rw (e, k) refl
        ]
      ])
