-- ===== src/Config/Resolve/Services.antt =====
-- deployment-core/pkg/deploycore/config/config.go: which services an environment has, and what
-- each of them is made of.
use mathlib.Core.Option
use devopsellence.Base.{
  ℕ, ◌||◌, ◌≡◌, refl, sym, ◌∙◌, ap, Option, none, some, [], ◌∷◌, Text, ◌==◌, is_distinct, IsMap,
  Dict, lookup, insert, lookup-insert, has_key, has_key-insert, has_key-keys, lookup-map_values,
  lookup_of_missing, or_value, arith, Bool-cases, inl, inr,
}
use devopsellence.Base.TextLaws.{eq_sound}
use devopsellence.Config.Types.{
  ServiceConfig, ServiceConfigOverlay, EnvironmentOverlay, ProjectConfig, empty_service,
}
use devopsellence.Config.Defaults.{default_service, apply_defaults}
use devopsellence.Config.Resolve.{
  merge_service_config, merge_services, overlaid, overlaid_if_any, selected_environment,
  resolve_selected, resolve_environment_config,
}

-- A base service and an overlay of it, where either may be missing.
unfoldable pub combined : Option ServiceConfig → Option ServiceConfigOverlay → Option ServiceConfig
unfolding merge_service_config
combined base none = base
combined base (some entry) = some (merge_service_config (or_value empty_service base) entry)

pub has_key-merge_services :
    (services : Dict ServiceConfig) (entries : Dict ServiceConfigOverlay) (name : Text)
    → has_key name (merge_services services entries)
      ≡ (has_key name entries || has_key name services)
unfolding merge_services has_key
has_key-merge_services services [] name = refl
has_key-merge_services services ((n, entry) ∷ rest) name =
    let merged = merge_service_config (or_value empty_service (lookup n services)) entry in
    ground (
      arith,
      has_key-merge_services (insert n merged services) rest name,
      has_key-insert n name merged services,
    )

lookup-merge_services :
    (services : Dict ServiceConfig) (entries : Dict ServiceConfigOverlay) (name : Text)
    → IsMap entries
    → lookup name (merge_services services entries)
      ≡ combined (lookup name services) (lookup name entries)
unfolding merge_services lookup is_distinct combined
lookup-merge_services services [] name d = refl
lookup-merge_services services ((n, entry) ∷ rest) name d =
    let merged = merge_service_config (or_value empty_service (lookup n services)) entry in
    let later = lookup-merge_services (insert n merged services) rest name (ground arith) in
    let put = lookup-insert n name merged services in
    elim (Bool-cases (n == name)) [
      | inl e ↦
          let missing = lookup_of_missing n rest (ground (arith, has_key-keys n rest)) in
          let same = eq_sound n name e in later ∙ rw (put, e, sym same, missing) refl
      | inr e ↦ later ∙ rw (put, e) refl
    ]

-- The overlay of a service in an environment.
abbrev service_overlay : Text → Option EnvironmentOverlay → Option ServiceConfigOverlay
service_overlay name none = none
service_overlay name (some overlay) = lookup name overlay.services

-- A map of overlays in the Go program has each name once.
abbrev pub IsOverlayMap : Option EnvironmentOverlay → Type 0
IsOverlayMap none = Unit
IsOverlayMap (some overlay) = IsMap overlay.services

lookup-overlaid :
    (lower : ℕ → ℕ) (cfg : ProjectConfig) (name : Text) (overlay : Option EnvironmentOverlay)
    → IsOverlayMap overlay
    → lookup name (apply_defaults lower (overlaid_if_any cfg overlay)).services
      ≡ Option.map default_service
          (combined (lookup name cfg.services) (service_overlay name overlay))
unfolding apply_defaults overlaid overlaid_if_any combined
lookup-overlaid lower cfg name none d = lookup-map_values default_service name cfg.services
lookup-overlaid lower cfg name (some overlay) d =
    lookup-map_values default_service name (merge_services cfg.services overlay.services)
    ∙ ap (Option.map default_service) (lookup-merge_services cfg.services overlay.services name d)

-- A service of a resolved environment is made of the base service and the environment's overlay
-- of that name (of the overlay alone, on an empty service, where the base has none) and then gets
-- the defaults; a name that neither has is not there.
pub lookup-resolve_environment_config :
    (lower : ℕ → ℕ) (cfg : ProjectConfig) (env name : Text)
    → IsOverlayMap (lookup (selected_environment cfg env) cfg.environments)
    → lookup name (resolve_environment_config lower cfg env).services
      ≡ Option.map default_service (
          combined
            (lookup name cfg.services)
            (service_overlay name (lookup (selected_environment cfg env) cfg.environments)))
unfolding resolve_environment_config resolve_selected
lookup-resolve_environment_config lower cfg env name d =
    let selected = selected_environment cfg env in
    lookup-overlaid lower (record cfg { default_environment = selected }) name
      (lookup selected cfg.environments) d
