-- ===== src/Plan/Build/Scheduled.antt =====
-- deployment-core/pkg/deploycore/desiredstate/desiredstate.go: which services a node's document has.
use devopsellence.Base.{
  ◌≡◌, refl, sym, ◌∙◌, ap, subst, Option, none, some, List, [], ◌∷◌, map, keep, All, Text, Dict,
  lookup, Result, ok, err, ◌>>=◌, bind-ok, Bool-cases, inl, inr, if◌then◌else◌,
}
use devopsellence.Config.Types.{ServiceConfig}
use devopsellence.Config.Defaults.{inferred_service_kind, service_names}
use devopsellence.Plan.Types.{ServiceJson, DesiredStateJson, EnvironmentJson}
use devopsellence.Plan.Schedule.{should_schedule_service}
use devopsellence.Plan.Build.{
  BuildError, service_secrets_missing, within, merge_env, build_service, rendered_service,
  schedules_service, schedules_found, NodeInput, build_listed_service, build_services,
  planned_tasks, node_document,
}

-- The value of an `ok`.
pub ok-value {ℓ} : {A : Type ℓ} {a b : A} → ◌≡◌ {A = Result BuildError A} (ok a) (ok b) → a ≡ b
ok-value {a = a} h = ap (λ r. elim r [ ok x ↦ x | err e ↦ a ]) h

-- The service as it is rendered for the node, out of the configured one.
abbrev pub IsRendered : NodeInput → ServiceJson → Type 0
IsRendered input rendered =
    (service : ServiceConfig) × ((lookup rendered.name input.config.services ≡ some service)
      × (build_service rendered.name service input.image_tag
            (input.secrets_for_service rendered.name)
          ≡ ok rendered))

build_service-name :
    (name tag : Text) (service : ServiceConfig) (secrets : Dict Text) (rendered : ServiceJson)
    → build_service name service tag secrets ≡ ok rendered
    → name ≡ rendered.name
unfolding build_service rendered_service
build_service-name name tag service secrets rendered h =
    let (env, (e, r)) =
      bind-ok
        (within (service_secrets_missing name) (merge_env service.env service.secret_refs secrets))
        _ rendered h in
    ap (λ s. s.name) (ok-value r)

abbrev AreRendered : NodeInput → List Text → List ServiceJson → Type 0
AreRendered input names services =
    (map (λ s. s.name) services ≡ names) × All (IsRendered input) services

module _ (input : NodeInput) where
  rendered-listed :
      (name : Text) (names : List Text) (service : ServiceConfig)
      (rest : Result BuildError (List ServiceJson)) (services : List ServiceJson)
      → lookup name input.config.services ≡ some service
      → ((later : List ServiceJson) → rest ≡ ok later → AreRendered input names later)
      → (build_service name service input.image_tag (input.secrets_for_service name) >>= λ rendered.
          rest >>= λ later. ok (rendered ∷ later))
        ≡ ok services
      → AreRendered input (name ∷ names) services
  rendered-listed name names service rest services found ih h =
      let (rendered, (built, h1)) =
        bind-ok (build_service name service input.image_tag (input.secrets_for_service name)) _
          services h in
      let (later, (r, h2)) = bind-ok rest _ services h1 in
      let named =
        build_service-name name input.image_tag service (input.secrets_for_service name) rendered
          built in
      let these = ih later r in
      subst (AreRendered input (name ∷ names)) (ok-value h2) (
        ap (λ n. n ∷ map (λ s. s.name) later) (sym named) ∙ ap (λ l. name ∷ l) these.0,
        (
          (
            service,
            (
              subst (λ n. lookup n input.config.services ≡ some service) named found,
              subst
                  (λ n.
                    build_service n service input.image_tag (input.secrets_for_service n)
                    ≡ ok rendered)
                  named built,
            ),
          ),
          these.1,
        ),
      )

  listed :
      (name : Text) (names : List Text) (found : Option ServiceConfig)
      (rest : Result BuildError (List ServiceJson)) (services : List ServiceJson)
      → lookup name input.config.services ≡ found
      → ((later : List ServiceJson) → rest ≡ ok later → AreRendered input names later)
      → build_listed_service input name found rest ≡ ok services
      → AreRendered input
          (if schedules_found input.labels name found then name ∷ names else names)
          services
  unfolding build_listed_service
  listed name names none rest services found ih h = ih services h
  listed name names (some service) rest services found ih h =
      elim (Bool-cases
        (should_schedule_service input.labels (inferred_service_kind name service))) [
          | inl e ↦ rw e (rendered-listed name names service rest services found ih (rw e at h))
          | inr e ↦ rw e (ih services (rw e at h))
        ]

  build_services-AreRendered :
      (names : List Text) (services : List ServiceJson)
      → build_services input names ≡ ok services
      → AreRendered input
          (keep (schedules_service input.labels input.config.services) names)
          services
  unfolding build_services schedules_service
  build_services-AreRendered [] services h = subst (AreRendered input []) (ok-value h) (refl, tt)
  build_services-AreRendered (name ∷ names) services h =
      listed name _ (lookup name input.config.services) (build_services input names) services refl
        (build_services-AreRendered names) h

-- A node's document has one environment, whose services are the configured ones that the node's
-- labels run, in the order of their names, each rendered from its configuration with the image tag
-- and the secrets of its name.
pub node_document-AreRendered :
    (input : NodeInput) (document : DesiredStateJson)
    → node_document input ≡ ok document
    → (environment : EnvironmentJson) × ((document.environments ≡ environment ∷ [])
        × ((map (λ s. s.name) environment.services
              ≡ keep
                  (schedules_service input.labels input.config.services)
                  (service_names input.config))
            × All (IsRendered input) environment.services))
unfolding node_document
node_document-AreRendered input document h =
    let (services, (s, h1)) =
      bind-ok (build_services input (service_names input.config)) _ document h in
    let (tasks, (t, h2)) = bind-ok (planned_tasks input input.config.tasks.release) _ document h1 in
    (
      _,
      (
        sym (ap (λ d. d.environments) (ok-value h2)),
        build_services-AreRendered input (service_names input.config) services s,
      ),
    )
