-- ===== src/Plan/Build/Serving.antt =====
-- deployment-core/pkg/deploycore/desiredstate/desiredstate.go: a node's routes lead to services that
-- the node runs, for a configuration that Validate accepts.
use devopsellence.Base.{
  ℕ, Bool, true, false, ◌&&◌, ◌||◌, ◌≡◌, refl, sym, ◌∙◌, ap, subst, Option, none, some,
  Option-cases, List, [], ◌∷◌, map, keep, any, all, All, In, here, there, Text, ◌==◌, trim,
  is_empty, is_positive, contains, contains-distinct, contains-keep, keys, Dict, lookup, has_key,
  has_key-keys, has_key_of_lookup, sort_texts, ok, bind-ok, arith, Bool-cases, inl, inr,
  if◌then◌else◌,
}
use devopsellence.Base.TextLaws.{eq_refl, eq_sound}
use devopsellence.Base.SortLaws.{contains-sort}
use devopsellence.Base.Filtering.{All-In}
use devopsellence.Config.Types.{ServiceConfig, ServicePort, IngressConfig, IngressRuleConfig}
use devopsellence.Config.Defaults.{has_port_named, service_names}
use devopsellence.Config.Resolved.Rules.{IsSound, IsSoundRule, reaches_port}
use devopsellence.Plan.Types.{
  ServiceJson, EnvironmentJson, IngressJson, IngressRouteJson, DesiredStateJson,
}
use devopsellence.Plan.Schedule.{default_environment_name}
use devopsellence.Plan.Build.{
  service_secrets_missing, within, merge_env, build_service, rendered_service, port_json,
  schedules_service, NodeInput, build_services, built_route, build_ingress,
  ingress_target_service_names, should_schedule_ingress, planned_ingress, planned_tasks,
  node_document,
}
use devopsellence.Plan.Build.Scheduled.{IsRendered, ok-value, node_document-AreRendered}

-- Some service of the list has the route's name, and a port of the route's.
abbrev pub IsServed : List ServiceJson → IngressRouteJson → Type 0
IsServed services route =
    (s : ServiceJson) × (In s services
      × ((s.name ≡ route.target.service)
          × (any (λ p. trim p.name == trim route.target.port && is_positive p.port) s.ports
              ≡ true)))

-- The route's target is in the environment.
abbrev pub IsRoutedTo : EnvironmentJson → IngressRouteJson → Type 0
IsRoutedTo environment route = route.target.environment ≡ environment.name

all-contains :
    (p : Text → Bool) (xs : List Text) (v : Text)
    → all p xs ≡ true
    → contains xs v ≡ true
    → p v ≡ true
unfolding contains
all-contains p [] v a c = absurd (ground arith)
all-contains p (x ∷ xs) v a c = elim (Bool-cases (x == v)) [
  | inl e ↦ ap p (sym (eq_sound x v e)) ∙ ground arith
  | inr e ↦ all-contains p xs v (ground arith) (ground arith)
]

In-named :
    (services : List ServiceJson) (name : Text)
    → contains (map (λ s. s.name) services) name ≡ true
    → (s : ServiceJson) × (In s services × (s.name ≡ name))
unfolding contains
In-named [] name c = absurd (ground arith)
In-named (s ∷ ss) name c = elim (Bool-cases (s.name == name)) [
  | inl e ↦ (s, (here refl, eq_sound s.name name e))
  | inr e ↦ let (t, (i, n)) = In-named ss name (ground arith) in (t, (there i, n))
]

any-port_json :
    (name : Text) (ports : List ServicePort)
    → any (λ p. trim p.name == trim name && is_positive p.port) (map port_json ports)
      ≡ has_port_named ports name
unfolding has_port_named
any-port_json name [] = refl
any-port_json name (p ∷ ps) =
    ap (λ b. (trim p.name == trim name && is_positive p.port) || b) (any-port_json name ps)

contains-target_names :
    (ingress : IngressConfig) (name : Text)
    → is_empty name ≡ false
    → contains (ingress_target_service_names ingress) name
      ≡ contains (map trim (map (λ r. r.target.service) ingress.rules)) name
unfolding ingress_target_service_names contains
contains-target_names ingress name n =
    let targets = map trim (map (λ r. r.target.service) ingress.rules) in
    contains-sort _ name
    ∙ (contains-distinct [] _ name
        ∙ ground (arith, contains-keep (λ x. if is_empty x then false else true) targets name))

contains-target :
    (rules : List IngressRuleConfig) (rule : IngressRuleConfig)
    → In rule rules
    → contains (map trim (map (λ r. r.target.service) rules)) (trim rule.target.service) ≡ true
unfolding contains
contains-target [] rule i = elim i [ ]
contains-target (r ∷ rs) rule (here e) = rw e (ground (arith, eq_refl (trim r.target.service)))
contains-target (r ∷ rs) rule (there i) = ground (arith, contains-target rs rule i)

rendered_ports :
    (name tag : Text) (service : ServiceConfig) (secrets : Dict Text) (rendered : ServiceJson)
    → build_service name service tag secrets ≡ ok rendered
    → map port_json service.ports ≡ rendered.ports
unfolding build_service rendered_service
rendered_ports name tag service secrets rendered h =
    let (env, (e, r)) =
      bind-ok
        (within (service_secrets_missing name) (merge_env service.env service.secret_refs secrets))
        _ rendered h in
    ap (λ s. s.ports) (ok-value r)

some-value {ℓ} : {A : Type ℓ} {a b : A} → some a ≡ some b → a ≡ b
some-value {a = a} h = ap (λ o. elim o [ none ↦ a | some x ↦ x ]) h

-- What holds of the image of each element holds of the mapped list.
All-mapped {ℓ κ μ} :
    {A : Type ℓ} {B : Type μ} (P : B → Type κ) (f : A → B) (xs : List A)
    → ((x : A) → In x xs → P (f x))
    → All P (map f xs)
All-mapped P f [] h = tt
All-mapped P f (x ∷ xs) h = (h x (here refl), All-mapped P f xs (λ y i. h y (there i)))

module _ (input : NodeInput) (services : List ServiceJson) where
  -- A service that the node runs is in the document, with the ports of its configuration.
  service-present :
      (name : Text)
      → map (λ s. s.name) services
        ≡ keep (schedules_service input.labels input.config.services) (service_names input.config)
      → All (IsRendered input) services
      → schedules_service input.labels input.config.services name ≡ true
      → has_key name input.config.services ≡ true
      → (s : ServiceJson) × (In s services
          × ((s.name ≡ name)
              × ((c : ServiceConfig) × ((lookup name input.config.services ≡ some c)
                    × (map port_json c.ports ≡ s.ports)))))
  unfolding service_names
  service-present name listed rendered runs known =
      let there =
        ap (λ l. contains l name) listed
        ∙ (contains-keep (schedules_service input.labels input.config.services)
              (sort_texts (keys input.config.services)) name
            ∙ ground (
              arith,
              contains-sort (keys input.config.services) name,
              has_key-keys name input.config.services,
            )) in
      let (s, (i, n)) = In-named services name there in
      let (c, (found, built)) = All-In (IsRendered input) i rendered in
      (
        s,
        (
          i,
          (
            n,
            (
              c,
              (
                subst (λ m. lookup m input.config.services ≡ some c) n found,
                rendered_ports s.name input.image_tag c (input.secrets_for_service s.name) s built,
              ),
            ),
          ),
        ),
      )

  route-IsServed :
      (lower : ℕ → ℕ) (environment : Text) (ingress : IngressConfig) (rule : IngressRuleConfig)
      → map (λ s. s.name) services
        ≡ keep (schedules_service input.labels input.config.services) (service_names input.config)
      → All (IsRendered input) services
      → all
          (schedules_service input.labels input.config.services)
          (ingress_target_service_names ingress)
        ≡ true
      → In rule ingress.rules
      → (hosts : List Text) → IsSoundRule lower input.config.services hosts rule
      → IsServed services (built_route environment rule)
  unfolding built_route reaches_port
  route-IsServed lower environment ingress rule listed rendered scheduled i hosts sound =
      let name = trim rule.target.service in
      let port = trim rule.target.port in
      let runs =
        all-contains (schedules_service input.labels input.config.services)
          (ingress_target_service_names ingress) name scheduled
          (contains-target_names ingress name sound.service_named
            ∙ contains-target ingress.rules rule i) in
      elim (Option-cases (lookup name input.config.services)) [
        | inl e ↦ absurd (ground (arith, rw (reaches_port, e) at sound.target_reached))
        | inr (c, e) ↦
            let (s, (j, (n, (c', (found, ports))))) =
              service-present name listed rendered runs
                (has_key_of_lookup name input.config.services c e) in
            let same = some-value (sym e ∙ found) in
            (
              s,
              (
                j,
                (
                  n,
                  ap (λ l. any (λ p. trim p.name == trim port && is_positive p.port) l) (sym ports)
                      ∙ (any-port_json port c'.ports
                          ∙ (ap (λ x. has_port_named x.ports port) (sym same)
                              ∙ (rw (reaches_port, e) at sound.target_reached))),
                ),
              ),
            )
      ]

planned-built :
    (input : NodeInput) (environment : Text) (ingress : IngressConfig) (planned : IngressJson)
    → planned_ingress input environment (some ingress) ≡ some planned
    → (all
          (schedules_service input.labels input.config.services)
          (ingress_target_service_names ingress)
        ≡ true)
      × (map (built_route environment) ingress.rules ≡ planned.routes)
unfolding planned_ingress should_schedule_ingress build_ingress
planned-built input environment ingress planned h =
    elim (Bool-cases
      (input.ingress_node && should_schedule_ingress input.labels input.config.services ingress)) [
        | inl e ↦ (
          ground arith,
          elim (Bool-cases (is_empty ingress.hosts || is_empty ingress.rules)) [
            | inl k ↦ absurd (ground (arith, rw (e, k) at h))
            | inr k ↦ ap (λ p. p.routes) (some-value (rw (e, k) at h))
          ],
        )
        | inr e ↦ absurd (ground (arith, rw e at h))
      ]

routes-IsServed :
    (lower : ℕ → ℕ) (input : NodeInput) (services : List ServiceJson) (environment : Text)
    (configured : Option IngressConfig) (planned : IngressJson)
    → input.config.ingress ≡ configured
    → IsSound lower input.config
    → map (λ s. s.name) services
      ≡ keep (schedules_service input.labels input.config.services) (service_names input.config)
    → All (IsRendered input) services
    → planned_ingress input environment configured ≡ some planned
    → All (IsServed services) planned.routes
unfolding planned_ingress
routes-IsServed lower input services environment none planned c sound listed rendered h =
    absurd (ground arith)
routes-IsServed lower input services environment (some ingress) planned c sound listed rendered h =
    let (scheduled, routes) = planned-built input environment ingress planned h in
    let rules = (sound.ingress_sound ingress c).rules_sound in
    subst (All (IsServed services)) routes (
      All-mapped (IsServed services) (built_route environment) ingress.rules (λ rule i.
        route-IsServed input services lower environment ingress rule listed rendered scheduled i _
          (All-In (IsSoundRule lower input.config.services _) i rules)))

document-ingress :
    (input : NodeInput) (document : DesiredStateJson)
    → node_document input ≡ ok document
    → planned_ingress input
        (default_environment_name input.config.default_environment)
        input.config.ingress
      ≡ document.ingress
unfolding node_document
document-ingress input document h =
    let (services, (s, h1)) =
      bind-ok (build_services input (service_names input.config)) _ document h in
    let (tasks, (t, h2)) = bind-ok (planned_tasks input input.config.tasks.release) _ document h1 in
    ap (λ d. d.ingress) (ok-value h2)

planned-routed :
    (input : NodeInput) (environment : Text) (configured : Option IngressConfig)
    (planned : IngressJson)
    → planned_ingress input environment configured ≡ some planned
    → All (λ r. r.target.environment ≡ environment) planned.routes
unfolding planned_ingress built_route
planned-routed input environment none planned h = absurd (ground arith)
planned-routed input environment (some ingress) planned h =
    subst (All (λ (r : IngressRouteJson). r.target.environment ≡ environment))
      (planned-built input environment ingress planned h).1
      (All-mapped (λ (r : IngressRouteJson). r.target.environment ≡ environment)
        (built_route environment) ingress.rules (λ rule i. refl))

-- The name of the one environment.
document-named :
    (input : NodeInput) (document : DesiredStateJson) (environment : EnvironmentJson)
    → node_document input ≡ ok document
    → document.environments ≡ environment ∷ []
    → default_environment_name input.config.default_environment ≡ environment.name
unfolding node_document
document-named input document environment h only =
    let (services, (s, h1)) =
      bind-ok (build_services input (service_names input.config)) _ document h in
    let (tasks, (t, h2)) = bind-ok (planned_tasks input input.config.tasks.release) _ document h1 in
    first_name (ap (λ d. d.environments) (ok-value h2) ∙ only)
  where
    first_name : {a b : EnvironmentJson} → a ∷ [] ≡ b ∷ [] → a.name ≡ b.name
    first_name {a = a} e = ap (λ l. elim l [ [] ↦ a.name | x ∷ xs ↦ x.name ]) e

-- In the document of a node for a sound configuration, such as Validate accepts, every route of the
-- ingress names the document's one environment, a service of that environment, and a port of a
-- positive number that this service has: nothing that the node does not run is routed to.
pub node_document-IsServed :
    (lower : ℕ → ℕ) (input : NodeInput) (document : DesiredStateJson) (ingress : IngressJson)
    → IsSound lower input.config
    → node_document input ≡ ok document
    → document.ingress ≡ some ingress
    → (environment : EnvironmentJson) × ((document.environments ≡ environment ∷ [])
        × (All (IsServed environment.services) ingress.routes
            × All (IsRoutedTo environment) ingress.routes))
node_document-IsServed lower input document ingress sound h i =
    let (environment, (only, (listed, rendered))) = node_document-AreRendered input document h in
    (
      environment,
      (
        only,
        (
          routes-IsServed lower input environment.services
              (default_environment_name input.config.default_environment) input.config.ingress
              ingress refl sound listed rendered (document-ingress input document h ∙ i),
          subst (λ name. All (λ (r : IngressRouteJson). r.target.environment ≡ name) ingress.routes)
              (document-named input document environment h only)
              (planned-routed input (default_environment_name input.config.default_environment)
                input.config.ingress ingress (document-ingress input document h ∙ i)),
        ),
      ),
    )
