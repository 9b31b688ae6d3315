-- ===== src/DesiredState/Validate/Routes.antt =====
-- agent/internal/desiredstate/validate.go: what the routes of an ingress have that validateIngress
-- accepts.
use devopsellence.Base.{
  nat_eq, ℕ, suc, Bool, true, false, not, ◌&&◌, ◌≡◌, refl, sym, ap, subst, ◌∙◌, ◌⊎◌, inl, inr,
  Option, none, some, List, [], ◌∷◌, map, all, All, In, here, there, is_empty, Text, codes, ◌==◌,
  trim, contains, is_distinct, has_prefix, Dict, lookup, insert, lookup-insert, Result, ok, err,
  reject_if, reject_if-ok, bind-ok, arith, Bool-cases, if◌then◌else◌,
}
use devopsellence.Base.TextLaws.{eq_sound, eq_sym, trim_idem}
use devopsellence.Plan.Schedule.{or_default}
use devopsellence.DesiredState.Types.{
  DesiredState, Service, Ingress, IngressRoute, IngressMatch, IngressTarget,
}
use devopsellence.DesiredState.Names.{scoped_key}
use devopsellence.DesiredState.Names.Keys.{scoped_key-injective}
use devopsellence.DesiredState.Runtime.{current_schema_version, RuntimeService, runtime_services}
use devopsellence.DesiredState.Validate.{
  revision_required, schema_version_unsupported, none_seen, validate_environments,
  validate_ingress_if_any, in_ingress, validate,
}
use devopsellence.DesiredState.Validate.Ingress.{
  has_web_service, web_service_required, IngressError, hostname_required, hostname_unlisted,
  path_prefix_relative, environment_required, service_required, port_required, duplicate_route,
  hosts_required, ingress_hosts, service_has_port, target_services, check_match, check_port,
  check_target, match_key, validate_route, validate_routes, validate_ingress,
}

-- A service of the list stands under the key.
abbrev Provides : List RuntimeService → Text → Service → Type 0
Provides services key service =
    (s : RuntimeService) × (In s services
      × ((scoped_key (s.environment_name ∷ s.service_name ∷ []) ≡ key) × (s.service ≡ service)))

target_services-Provides :
    (found : Dict Service) (services : List RuntimeService) (key : Text) (service : Service)
    → lookup key (target_services found services) ≡ some service
    → Provides services key service ⊎ (lookup key found ≡ some service)
unfolding target_services
target_services-Provides found [] key service h = inr h
target_services-Provides found (s ∷ ss) key service h =
    let k = scoped_key (s.environment_name ∷ s.service_name ∷ []) in
    elim (target_services-Provides (insert k s.service found) ss key service h) [
      | inl (t, (i, (named, same))) ↦ inl (t, (there i, (named, same)))
      | inr later ↦
          let split = sym (lookup-insert k key s.service found) ∙ later in
          elim (Bool-cases (k == key)) [
            | inl e ↦ inl (s, (here refl, (eq_sound k key e, ground (arith, rw e at split))))
            | inr e ↦ inr (rw e at split)
          ]
    ]

-- The service that a target names, with the port that it names.
pub record IsServed (state : DesiredState) (t : IngressTarget) : Type 0 where
  pub service : RuntimeService
  pub running : In service (runtime_services state)
  pub same_environment : trim service.environment_name ≡ trim t.environment
  pub same_service : trim service.service_name ≡ trim t.service
  pub has_port : service_has_port service.service (trim t.port) ≡ true

check_port-ok :
    (i : ℕ) (environment service_name port : Text) (found : Option Service)
    → check_port i environment service_name port found ≡ ok tt
    → (s : Service) × ((found ≡ some s) × (service_has_port s port ≡ true))
unfolding check_port
check_port-ok i environment service_name port none h = absurd (ground arith)
check_port-ok i environment service_name port (some s) h =
    let h1 = (reject_if-ok (is_empty port) (port_required i) _ tt h).1 in
    (s, (refl, ground (arith, h1)))

check_target-IsServed :
    (state : DesiredState) (i : ℕ) (t : IngressTarget)
    → check_target (target_services [] (runtime_services state)) i (some t) ≡ ok tt
    → IsServed state t
unfolding check_target lookup
check_target-IsServed state i t h =
    let environment = trim t.environment in
    let service_name = trim t.service in
    let key = scoped_key (environment ∷ service_name ∷ []) in
    let targets = target_services [] (runtime_services state) in
    let h1 = (reject_if-ok (is_empty environment) (environment_required i) _ tt h).1 in
    let h2 = (reject_if-ok (is_empty service_name) (service_required i) _ tt h1).1 in
    let (s, (found, port)) =
      check_port-ok i environment service_name (trim t.port) (lookup key targets) h2 in
    elim (target_services-Provides [] (runtime_services state) key s found) [
      | inr never ↦ absurd (ground (arith, never))
      | inl (r, (running, (named, same))) ↦
          let parts =
            scoped_key-injective (r.environment_name ∷ r.service_name ∷ [])
              (environment ∷ service_name ∷ []) named in
          record {
            service = r;
            running = running;
            same_environment = ground (arith, parts, trim_idem t.environment);
            same_service = ground (arith, parts, trim_idem t.service);
            has_port = ap (λ x. service_has_port x (trim t.port)) same ∙ port;
          }
    ]

-- The host and the path prefix of a match, and of a route.
abbrev pub matched : Option IngressMatch → Text × Text
matched none = ([], [])
matched (some m) = (trim m.hostname, or_default (trim m.path_prefix) (codes "/"))

abbrev pub match_of : Option IngressRoute → Text × Text
match_of none = ([], [])
match_of (some r) = matched r.match

-- A route that is there, whose host is listed, whose path prefix is absolute, and whose target is
-- served.
pub record IsSoundRoute (state : DesiredState) (hosts : List Text) (route : Option IngressRoute)
    : Type 0 where
  pub host_listed : contains hosts (match_of route).0 ≡ true
  pub prefix_absolute : has_prefix (match_of route).1 (codes "/") ≡ true
  pub present : IngressRoute
  pub is_present : route ≡ some present
  pub target : IngressTarget
  pub has_target : present.target ≡ some target
  pub served : IsServed state target

check_match-ok :
    (hosts : List Text) (i : ℕ) (m : Option IngressMatch) (key : Text × Text)
    → check_match hosts i m ≡ ok key
    → (contains hosts key.0 ≡ true) × ((has_prefix key.1 (codes "/") ≡ true) × (key ≡ matched m))
unfolding check_match
check_match-ok hosts i none key h = absurd (ground arith)
check_match-ok hosts i (some m) key h =
    let (hostname, path_prefix) = matched (some m) in
    let h1 = (reject_if-ok (is_empty hostname) (hostname_required i) _ key h).1 in
    let h2 = reject_if-ok (not (contains hosts hostname)) (hostname_unlisted i hostname) _ key h1 in
    let h3 =
      reject_if-ok (not (has_prefix path_prefix (codes "/"))) (path_prefix_relative i) _ key h2.1 in
    let same : key ≡ (hostname, path_prefix) = ground (arith, h3.1) in
    (
      ap (λ k. contains hosts k.0) same ∙ ground (arith, h2.0),
      (ap (λ k. has_prefix k.1 (codes "/")) same ∙ ground (arith, h3.0), same),
    )

check_target-ok :
    (state : DesiredState) (i : ℕ) (t : Option IngressTarget)
    → check_target (target_services [] (runtime_services state)) i t ≡ ok tt
    → (target : IngressTarget) × ((t ≡ some target) × IsServed state target)
unfolding check_target
check_target-ok state i none h = absurd (ground arith)
check_target-ok state i (some t) h = (t, (refl, check_target-IsServed state i t h))

validate_route-ok :
    (state : DesiredState) (hosts : List Text) (i : ℕ) (seen seen' : List Text)
    (route : Option IngressRoute)
    → validate_route hosts (target_services [] (runtime_services state)) i seen route ≡ ok seen'
    → IsSoundRoute state hosts route
      × ((contains seen (match_key (match_of route)) ≡ false)
          × (match_key (match_of route) ∷ seen ≡ seen'))
unfolding validate_route
validate_route-ok state hosts i seen seen' none h = absurd (ground arith)
validate_route-ok state hosts i seen seen' (some r) h =
    let (key, (checked, h1)) = bind-ok (check_match hosts i r.match) _ seen' h in
    let targets = target_services [] (runtime_services state) in
    let h2 = bind-ok (check_target targets i r.target) _ seen' h1 in
    let h3 =
      reject_if-ok (contains seen (match_key key)) (duplicate_route i key.0 key.1) _ seen' h2.1.1 in
    let (listed, (absolute, same)) = check_match-ok hosts i r.match key checked in
    let (target, (given, served)) = check_target-ok state i r.target h2.1.0 in
    (
      record {
        host_listed = subst (λ k. contains hosts k.0 ≡ true) same listed;
        prefix_absolute = subst (λ k. has_prefix k.1 (codes "/") ≡ true) same absolute;
        present = r;
        is_present = refl;
        target = target;
        has_target = given;
        served = served;
      },
      (
        subst (λ k. contains seen (match_key k) ≡ false) same h3.0,
        subst (λ k. match_key k ∷ seen ≡ seen') same (ground (arith, h3.1)),
      ),
    )

-- No text of the list is among the others.
abbrev apart : List Text → List Text → Bool
apart seen texts = all (λ t. not (contains seen t)) texts

apart-cons :
    (k : Text) (seen texts : List Text)
    → apart (k ∷ seen) texts ≡ (not (contains texts k) && apart seen texts)
unfolding contains
apart-cons k seen [] = refl
apart-cons k seen (t ∷ ts) = ground (arith, apart-cons k seen ts, eq_sym k t)

abbrev pub route_keys : List (Option IngressRoute) → List Text
route_keys routes = map (λ r. match_key (match_of r)) routes

validate_routes-ok :
    (state : DesiredState) (hosts : List Text) (i : ℕ) (seen : List Text)
    (routes : List (Option IngressRoute))
    → validate_routes hosts (target_services [] (runtime_services state)) i seen routes ≡ ok tt
    → All (IsSoundRoute state hosts) routes
      × ((is_distinct (route_keys routes) ≡ true) × (apart seen (route_keys routes) ≡ true))
unfolding validate_routes is_distinct
validate_routes-ok state hosts i seen [] h = (tt, (refl, refl))
validate_routes-ok state hosts i seen (r ∷ rs) h =
    let targets = target_services [] (runtime_services state) in
    let (seen', (passed, h1)) = bind-ok (validate_route hosts targets i seen r) _ tt h in
    let (sound, (new, grown)) = validate_route-ok state hosts i seen seen' r passed in
    let (rest, (distinct_rest, apart_rest)) = validate_routes-ok state hosts (suc i) seen' rs h1 in
    let split =
      sym (apart-cons (match_key (match_of r)) seen (route_keys rs))
      ∙ (ap (λ l. apart l (route_keys rs)) grown ∙ apart_rest) in
    (
      (sound, rest),
      (ground (arith, new, distinct_rest, split), ground (arith, new, distinct_rest, split)),
    )

-- The routes as the ingress has them: checked, or none.
given_routes-ok :
    (state : DesiredState) (hosts : List Text) (routes : List (Option IngressRoute))
    (otherwise : Result IngressError (Unit {0}))
    → (if is_empty routes
        then otherwise
        else validate_routes hosts (target_services [] (runtime_services state)) 0 [] routes)
      ≡ ok tt
    → All (IsSoundRoute state hosts) routes × (is_distinct (route_keys routes) ≡ true)
unfolding is_distinct
given_routes-ok state hosts [] otherwise h = (tt, refl)
given_routes-ok state hosts (r ∷ rs) otherwise h =
    let (sound, (different, new)) = validate_routes-ok state hosts 0 [] (r ∷ rs) h in
    (sound, different)

validate_ingress-IsSoundRoute :
    (state : DesiredState) (ingress : Ingress)
    → validate_ingress state ingress ≡ ok tt
    → (is_empty (ingress_hosts ingress) ≡ false)
      × (All (IsSoundRoute state (ingress_hosts ingress)) ingress.routes
          × (is_distinct (route_keys ingress.routes) ≡ true))
unfolding validate_ingress
validate_ingress-IsSoundRoute state ingress h =
    let hosts = ingress_hosts ingress in
    let h1 = reject_if-ok (is_empty hosts) hosts_required _ tt h in
    let h2 =
      bind-ok
        (if is_empty ingress.routes
          then reject_if (not (has_web_service state)) web_service_required
          else validate_routes hosts (target_services [] (runtime_services state)) 0 []
              ingress.routes)
        _ tt h1.1 in
    (h1.0, given_routes-ok state hosts ingress.routes _ h2.1.0)

in_ingress-ok : (r : Result IngressError (Unit {0})) → in_ingress r ≡ ok tt → r ≡ ok tt
unfolding in_ingress
in_ingress-ok (ok tt) h = refl
in_ingress-ok (err e) h = absurd (ground arith)

-- When Validate accepts a state with an ingress, the ingress has a host. Every route of it is
-- there, names a listed host and an absolute path prefix, and targets a service that runs in the
-- state, in the environment of the target, with the port that the target names; no two routes
-- have the same key of host and path prefix.
pub validate-IsSoundRoute :
    (state : DesiredState) (ingress : Ingress)
    → validate state ≡ ok tt
    → state.ingress ≡ some ingress
    → (is_empty (ingress_hosts ingress) ≡ false)
      × (All (IsSoundRoute state (ingress_hosts ingress)) ingress.routes
          × (is_distinct (route_keys ingress.routes) ≡ true))
unfolding validate validate_ingress_if_any
validate-IsSoundRoute state ingress h given =
    let h1 = (reject_if-ok (is_empty state.revision) revision_required _ tt h).1 in
    let h2 =
      (reject_if-ok (not (nat_eq state.schema_version current_schema_version))
        schema_version_unsupported _ tt h1).1 in
    let h3 = (bind-ok (validate_environments 0 none_seen state.environments) _ tt h2).1.1 in
    validate_ingress-IsSoundRoute state ingress (
      in_ingress-ok (validate_ingress state ingress)
        (subst (λ o. validate_ingress_if_any state o ≡ ok tt) given h3))
