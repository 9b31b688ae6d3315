-- ===== src/DesiredState/Validate/Ingress.antt =====
-- agent/internal/desiredstate/validate.go: the checks of the ingress against the services.
use devopsellence.Base.{
  ℕ, suc, Bool, not, ◌&&◌, ◌||◌, Option, none, some, List, [], ◌∷◌, ◌++◌, map, keep, any, Text,
  codes, ◌==◌, trim, is_empty, nat_eq, contains, has_prefix, Dict, lookup, insert, Result, ok, err,
  ◌>>=◌, ◌>>◌, reject_if, if◌then◌else◌,
}
use devopsellence.Plan.Schedule.{or_default}
use devopsellence.DesiredState.Types.{
  DesiredState, Service, Ingress, IngressTls, IngressRoute, IngressMatch, IngressTarget,
}
use devopsellence.DesiredState.Names.{scoped_key}
use devopsellence.DesiredState.Runtime.{RuntimeService, runtime_services, present, kind_web}

pub data IngressError : Type 0 where
  hosts_required web_service_required : IngressError
  tls_mode_unsupported mode_unsupported : Text → IngressError
  route_required match_required hostname_required : ℕ → IngressError
  hostname_unlisted : ℕ → Text → IngressError
  path_prefix_relative target_required environment_required service_required : ℕ → IngressError
  service_missing : ℕ → (environment service : Text) → IngressError
  port_required : ℕ → IngressError
  port_missing : ℕ → (environment service port : Text) → IngressError
  duplicate_route : ℕ → (hostname path_prefix : Text) → IngressError

unfoldable pub ingress_hosts : Ingress → List Text
ingress_hosts ingress = keep (λ h. not (is_empty h)) (map trim ingress.hosts)

unfoldable pub service_has_port : Service → Text → Bool
service_has_port s name = any (λ p. trim p.name == name && not (nat_eq p.port 0)) (present s.ports)

unfoldable pub has_web_service : DesiredState → Bool
has_web_service state = any (λ s. s.service_kind == kind_web) (runtime_services state)

-- The services by their scoped keys; a later one of a key wins.
unfoldable pub target_services : Dict Service → List RuntimeService → Dict Service
target_services found [] = found
target_services found (s ∷ ss) =
    target_services (insert (scoped_key (s.environment_name ∷ s.service_name ∷ [])) s.service found)
      ss

-- The hostname and path prefix of a checked route: its key.
unfoldable pub check_match : List Text → ℕ → Option IngressMatch → Result IngressError (Text × Text)
check_match hosts i none = err (match_required i)
check_match hosts i (some m) = do
  let hostname = trim m.hostname
  reject_if (is_empty hostname) (hostname_required i)
  reject_if (not (contains hosts hostname)) (hostname_unlisted i hostname)
  let path_prefix = or_default (trim m.path_prefix) (codes "/")
  reject_if (not (has_prefix path_prefix (codes "/"))) (path_prefix_relative i)
  ok (hostname, path_prefix)

unfoldable pub check_port :
    ℕ → (environment service_name : Text) → Text → Option Service → Result IngressError (Unit {0})
check_port i environment service_name port none = err (service_missing i environment service_name)
check_port i environment service_name port (some s) =
    reject_if (is_empty port) (port_required i)
    >> reject_if (not (service_has_port s port)) (port_missing i environment service_name port)

unfoldable pub check_target :
    Dict Service → ℕ → Option IngressTarget → Result IngressError (Unit {0})
unfolding check_port
check_target targets i none = err (target_required i)
check_target targets i (some t) = do
  let environment = trim t.environment
  let service_name = trim t.service
  reject_if (is_empty environment) (environment_required i)
  reject_if (is_empty service_name) (service_required i)
  check_port i environment service_name (trim t.port)
      (lookup (scoped_key (environment ∷ service_name ∷ [])) targets)

abbrev pub match_key : Text × Text → Text
match_key (hostname, path_prefix) = hostname ++ 0 ∷ path_prefix

-- The body of the loop over the routes; `seen` are the keys before.
unfoldable pub validate_route :
    List Text → Dict Service → ℕ → List Text → Option IngressRoute → Result IngressError (List Text)
unfolding check_match check_target
validate_route hosts targets i seen none = err (route_required i)
validate_route hosts targets i seen (some r) = do
  key ← check_match hosts i r.match
  check_target targets i r.target
  reject_if (contains seen (match_key key)) (duplicate_route i key.0 key.1)
  ok (match_key key ∷ seen)

unfoldable pub validate_routes :
    List Text
    → Dict Service
    → ℕ
    → List Text
    → List (Option IngressRoute)
    → Result IngressError (Unit {0})
unfolding validate_route
validate_routes hosts targets i seen [] = ok tt
validate_routes hosts targets i seen (r ∷ rs) = validate_route hosts targets i seen r >>= λ seen'.
    validate_routes hosts targets (suc i) seen' rs

unfoldable pub normalized_ingress_mode : Ingress → Text
normalized_ingress_mode ingress = or_default (trim ingress.mode) (codes "public")

unfoldable pub is_known_tls_mode : Text → Bool
is_known_tls_mode mode =
    is_empty mode || mode == codes "auto" || mode == codes "manual" || mode == codes "off"

unfoldable pub validate_tls : Option IngressTls → Result IngressError (Unit {0})
unfolding is_known_tls_mode
validate_tls none = ok tt
validate_tls (some tls) =
    reject_if (not (is_known_tls_mode (trim tls.mode))) (tls_mode_unsupported tls.mode)

-- validateIngress, for an ingress that is not nil.
unfoldable pub validate_ingress : DesiredState → Ingress → Result IngressError (Unit {0})
unfolding ingress_hosts has_web_service target_services validate_routes validate_tls
    normalized_ingress_mode
validate_ingress state ingress = do
  let hosts = ingress_hosts ingress
  reject_if (is_empty hosts) hosts_required
  if is_empty ingress.routes
      then reject_if (not (has_web_service state)) web_service_required
      else validate_routes hosts (target_services [] (runtime_services state)) 0 [] ingress.routes
  if normalized_ingress_mode ingress == codes "public"
      then validate_tls ingress.tls
      else err (mode_unsupported ingress.mode)
