-- ===== src/Config/Validate/Environments.antt =====
-- deployment-core/pkg/deploycore/config/config.go: what every environment of an accepted
-- configuration resolves to.
use devopsellence.Base.{
  ℕ, Bool, true, not, ◌||◌, ◌≡◌, ◌∙◌, ap, subst, List, [], ◌∷◌, All, Text, trim, is_empty, ok,
  Result-cases, for_each, for_each-All, reject_if-ok, bind-ok, arith, any, inl, inr, Bool-cases,
  ◌==◌,
}
use devopsellence.Base.TextLaws.{trim_idem, eq_sound}
use devopsellence.Plan.Schedule.{or_default, production}
use devopsellence.Config.Types.{EnvironmentOverlay, ProjectConfig}
use devopsellence.Config.Resolve.{
  resolve_selected, selected_environment, resolve_environment_config,
}
use devopsellence.Config.Resolved.{
  schema_version_unsupported, organization_required, project_required, default_environment_required,
  environment_key_blank, require, validate_resolved_project_config,
}
use devopsellence.Config.Resolved.Rules.{IsSound, validate_resolved-IsSound}
use devopsellence.Config.Validate.{
  is_current, within_environment, check_environment, validate_environment_overlay,
  validate_environment_overlays, validate,
}

-- The name, trimmed, is one that the configuration declares an environment under, or the default
-- environment's.
abbrev pub is_declared : ProjectConfig → Text → Bool
is_declared cfg name =
    any (λ e. trim e.0 == trim name) cfg.environments || trim cfg.default_environment == trim name

module _ (lower : ℕ → ℕ) (cfg : ProjectConfig) where
  -- Resolving reads only the trimmed name.
  pub resolve-trimmed :
      (a b : Text)
      → trim a ≡ trim b
      → resolve_environment_config lower cfg a ≡ resolve_environment_config lower cfg b
  unfolding resolve_environment_config selected_environment
  resolve-trimmed a b e =
      ap
        (λ t.
          resolve_selected lower cfg
            (or_default t (or_default (trim cfg.default_environment) production)))
        e

  within-ok :
      (name : Text)
      → within_environment name
          (validate_resolved_project_config lower (resolve_environment_config lower cfg name))
        ≡ ok tt
      → validate_resolved_project_config lower (resolve_environment_config lower cfg name) ≡ ok tt
  unfolding within_environment
  within-ok name h =
      elim (Result-cases
        (validate_resolved_project_config lower (resolve_environment_config lower cfg name))) [
          | inl (tt, e) ↦ e
          | inr (x, e) ↦ absurd (ground (arith, rw e at h))
        ]

  environment-IsSound :
      (entry : Text × EnvironmentOverlay)
      → check_environment lower cfg entry ≡ ok tt
      → IsSound lower (resolve_environment_config lower cfg (trim entry.0))
  unfolding check_environment
  environment-IsSound (key, overlay) h =
      let h1 = reject_if-ok (is_empty (trim key)) environment_key_blank _ tt h in
      let h2 = bind-ok (validate_environment_overlay (trim key) overlay cfg) _ tt h1.1 in
      validate_resolved-IsSound lower _ (within-ok (trim key) h2.1.1)

  declared-IsSound :
      (entries : List (Text × EnvironmentOverlay)) (name : Text)
      → All (λ e. check_environment lower cfg e ≡ ok tt) entries
      → any (λ e. trim e.0 == trim name) entries ≡ true
      → IsSound lower (resolve_environment_config lower cfg name)
  declared-IsSound [] name a h = absurd (ground arith)
  declared-IsSound (e ∷ es) name a h = elim (Bool-cases (trim e.0 == trim name)) [
    | inl same ↦
        subst (IsSound lower)
          (resolve-trimmed (trim e.0) name (trim_idem e.0 ∙ eq_sound (trim e.0) (trim name) same))
          (environment-IsSound e a.0)
    | inr other ↦ declared-IsSound es name a.1 (ground arith)
  ]

-- Validate accepts a configuration only if each environment that it declares, and the default one,
-- resolves to a sound one: it has services, each with distinct ports of positive numbers and
-- absolute volume targets, the web services with an HTTP port and a health check; a release task
-- runs on one of them with a command or arguments; an ingress has distinct hosts and rules with
-- different hosts or paths, each for one of the hosts and to a port of one of the services.
pub validate-IsSound :
    (lower : ℕ → ℕ) (cfg : ProjectConfig) (name : Text)
    → validate lower cfg ≡ ok tt
    → is_declared cfg name ≡ true
    → IsSound lower (resolve_environment_config lower cfg name)
unfolding validate validate_environment_overlays
validate-IsSound lower cfg name h declared =
    let h1 = reject_if-ok (not (is_current cfg.schema_version)) schema_version_unsupported _ tt h in
    let h2 = bind-ok (require organization_required cfg.organization) _ tt h1.1 in
    let h3 = bind-ok (require project_required cfg.project) _ tt h2.1.1 in
    let h4 = bind-ok (require default_environment_required cfg.default_environment) _ tt h3.1.1 in
    let h5 = bind-ok (for_each (check_environment lower cfg) cfg.environments) _ tt h4.1.1 in
    elim (Bool-cases (trim cfg.default_environment == trim name)) [
      | inl same ↦
          subst (IsSound lower)
            (resolve-trimmed lower cfg cfg.default_environment name
              (eq_sound (trim cfg.default_environment) (trim name) same))
            (validate_resolved-IsSound lower _ h5.1.1)
      | inr other ↦
          declared-IsSound lower cfg cfg.environments name
            (for_each-All (check_environment lower cfg) cfg.environments h5.1.0) (ground arith)
    ]
