-- ===== src/Config/Validate/Overlays.antt =====
-- deployment-core/pkg/deploycore/config/config.go: the overlays of an accepted configuration change
-- services, and never add one.
use devopsellence.Base.{
  ℕ, not, ◌||◌, ◌≡◌, refl, ◌∙◌, ap, subst, Option, none, some, [], ◌∷◌, All, In, here, there, Text,
  ◌==◌, trim, is_empty, Dict, lookup, has_key, has_key-keys, keys-map_values, map_values, ok,
  for_each, for_each-All, reject_if-ok, bind-ok, arith, inl, inr, Bool-cases,
}
use devopsellence.Base.TextLaws.{eq_sound}
use devopsellence.Base.Filtering.{All-In}
use devopsellence.Config.Types.{
  EnvironmentOverlay, ServiceConfig, ServiceConfigOverlay, ProjectConfig,
}
use devopsellence.Config.Defaults.{apply_defaults, default_service}
use devopsellence.Config.Resolve.{
  overlaid, overlaid_if_any, selected_environment, resolve_selected, resolve_environment_config,
}
use devopsellence.Config.Resolve.Services.{has_key-merge_services}
use devopsellence.Config.Resolved.{
  schema_version_unsupported, organization_required, project_required, default_environment_required,
  environment_key_blank, overlay_service_unknown, require,
}
use devopsellence.Config.Validate.{
  is_current, check_overlay_tls, check_overlay_service, check_environment,
  validate_environment_overlay, validate_environment_overlays, validate,
}

lookup-In {ℓ} :
    {V : Type ℓ} (key : Text) (entries : Dict V) (v : V)
    → lookup key entries ≡ some v
    → In (key, v) entries
unfolding lookup
lookup-In key [] v h = absurd (ground arith)
lookup-In key ((k, w) ∷ rest) v h = elim (Bool-cases (k == key)) [
  | inl e ↦
      subst (λ t. In (t, v) ((k, w) ∷ rest)) (eq_sound k key e)
        (here (ap (λ x. (k, x)) (ground arith)))
  | inr e ↦ there (lookup-In key rest v (ground arith))
]

-- The services that an overlay names are there.
known-services :
    (env name : Text) (services : Dict ServiceConfig) (entries : Dict ServiceConfigOverlay)
    → All (λ e. check_overlay_service env services e ≡ ok tt) entries
    → (has_key name entries || has_key name services) ≡ has_key name services
unfolding has_key check_overlay_service
known-services env name services [] a = refl
known-services env name services ((n, entry) ∷ rest) a =
    let known = reject_if-ok (not (has_key n services)) (overlay_service_unknown env n) _ tt a.0 in
    elim (Bool-cases (n == name)) [
      | inl e ↦ ground (arith, known.0, eq_sound n name e)
      | inr e ↦ ground (arith, known-services env name services rest a.1)
    ]

module _ (lower : ℕ → ℕ) (cfg : ProjectConfig) where
  has_key-overlaid :
      (base : ProjectConfig) (name : Text) (overlay : Option EnvironmentOverlay)
      → has_key name (apply_defaults lower (overlaid_if_any base overlay)).services
        ≡ has_key name (overlaid_if_any base overlay).services
  unfolding apply_defaults
  has_key-overlaid base name overlay =
      let services = (overlaid_if_any base overlay).services in
      ground (
        arith,
        has_key-keys name services,
        has_key-keys name (map_values default_service services),
        keys-map_values default_service services,
      )

  overlay-known :
      (key name : Text) (overlay : EnvironmentOverlay)
      → check_environment lower cfg (key, overlay) ≡ ok tt
      → (has_key name overlay.services || has_key name cfg.services) ≡ has_key name cfg.services
  unfolding check_environment validate_environment_overlay
  overlay-known key name overlay h =
      let h1 = reject_if-ok (is_empty (trim key)) environment_key_blank _ tt h in
      let h2 = bind-ok (validate_environment_overlay (trim key) overlay cfg) _ tt h1.1 in
      let h3 = bind-ok (check_overlay_tls (trim key) overlay.ingress) _ tt h2.1.0 in
      let h4 =
        bind-ok (for_each (check_overlay_service (trim key) cfg.services) overlay.services) _ tt
          h3.1.1 in
      known-services (trim key) name cfg.services overlay.services
        (for_each-All (check_overlay_service (trim key) cfg.services) overlay.services h4.1.0)

  same-services :
      (base : ProjectConfig) (env name : Text) (overlay : Option EnvironmentOverlay)
      → base.services ≡ cfg.services
      → All (λ e. check_environment lower cfg e ≡ ok tt) cfg.environments
      → lookup env cfg.environments ≡ overlay
      → has_key name (overlaid_if_any base overlay).services ≡ has_key name cfg.services
  unfolding overlaid overlaid_if_any
  same-services base env name none s a e = ap (has_key name) s
  same-services base env name (some overlay) s a e =
      has_key-merge_services base.services overlay.services name
      ∙ (ap (λ l. has_key name overlay.services || has_key name l) s
          ∙ overlay-known env name overlay (
              All-In (λ x. check_environment lower cfg x ≡ ok tt)
                (lookup-In env cfg.environments overlay e) a))

-- Every environment of an accepted configuration, declared or not, has the services of the base
-- and no other.
pub validate-services :
    (lower : ℕ → ℕ) (cfg : ProjectConfig) (env name : Text)
    → validate lower cfg ≡ ok tt
    → has_key name (resolve_environment_config lower cfg env).services ≡ has_key name cfg.services
unfolding validate validate_environment_overlays resolve_environment_config resolve_selected
validate-services lower cfg env name h =
    let selected = selected_environment cfg env in
    let base = record cfg { default_environment = selected } in
    let h1 = reject_if-ok (not (is_current cfg.schema_version)) schema_version_unsupported _ tt h in
    let h2 = bind-ok (require organization_required cfg.organization) _ tt h1.1 in
    let h3 = bind-ok (require project_required cfg.project) _ tt h2.1.1 in
    let h4 = bind-ok (require default_environment_required cfg.default_environment) _ tt h3.1.1 in
    let h5 = bind-ok (for_each (check_environment lower cfg) cfg.environments) _ tt h4.1.1 in
    has_key-overlaid lower cfg base name (lookup selected cfg.environments)
    ∙ same-services lower cfg base selected name (lookup selected cfg.environments) refl
        (for_each-All (check_environment lower cfg) cfg.environments h5.1.0) refl
