-- ===== src/DesiredState/Validate.antt =====
-- agent/internal/desiredstate/validate.go. An error is a value with what its message names; where the
-- code ranges over a map, the first error in the order of the list is reported.
pub mod Service
pub mod Ingress
pub mod Sound
pub mod Routes
use devopsellence.Base.{
  ℕ, suc, Bool, true, false, not, ◌&&◌, ◌||◌, Option, none, some, List, [], ◌∷◌, map, Text, ◌==◌,
  trim, is_empty, nat_eq, Dict, lookup, insert, has_key, Result, ok, err, ◌>>=◌, ◌>>◌, reject_if,
  for_each,
}
use devopsellence.DesiredState.Types.{
  DesiredState, Environment, Service as ServiceMessage, Task, Ingress as IngressMessage,
}
use devopsellence.DesiredState.Names.{sanitize}
use devopsellence.DesiredState.Runtime.{current_schema_version}
use Service.{ServiceError, validate_service, validate_task}
use Ingress.{IngressError, validate_ingress}

pub data ValidationError : Type 0 where
  revision_required : ValidationError
  schema_version_unsupported : ValidationError
  environment_required : ℕ → ValidationError
  environment_name_required : ℕ → ValidationError
  environment_name_unsafe : Text → ValidationError
  environment_duplicate : Text → ValidationError
  environment_collides : (name existing : Text) → ValidationError
  service_required : (environment : Text) (index : ℕ) → ValidationError
  service_invalid : (environment service : Text) → ServiceError → ValidationError
  service_duplicate : (environment service : Text) → ValidationError
  service_collides : (environment service existing : Text) → ValidationError
  task_invalid : (environment : Text) → ServiceError → ValidationError
  ingress_invalid : IngressError → ValidationError

-- The names that were seen, and for each sanitized name its owner.
pub record Seen : Type 0 where
  pub names : Dict (Unit {0})
  pub sanitized : Dict Text

abbrev pub none_seen : Seen
none_seen = record { names = []; sanitized = [] }

-- Records the name, unless it was seen or its sanitized form was.
unfoldable pub claim_name {ℓ} :
    {E : Type ℓ} → (duplicate : E) → (collides : Text → E) → Seen → Text → Result E Seen
claim_name duplicate collides seen name =
    reject_if (has_key name seen.names) duplicate >> elim (lookup (sanitize name) seen.sanitized) [
      | some existing ↦ err (collides existing)
      | none ↦ ok (record {
        names = insert name tt seen.names;
        sanitized = insert (sanitize name) name seen.sanitized;
      })
    ]

-- The error of a service's or a task's own check, in its place.
unfoldable pub in_service {ℓ} :
    {A : Type ℓ} → (environment service : Text) → Result ServiceError A → Result ValidationError A
in_service environment service (ok a) = ok a
in_service environment service (err e) = err (service_invalid environment service e)

unfoldable pub in_task : Text → Result ServiceError (Unit {0}) → Result ValidationError (Unit {0})
in_task environment (ok a) = ok a
in_task environment (err e) = err (task_invalid environment e)

-- The body of the loop over an environment's services.
unfoldable pub validate_listed_service :
    Text → ℕ → Seen → Option ServiceMessage → Result ValidationError Seen
unfolding in_service claim_name
validate_listed_service env index seen none = err (service_required env index)
validate_listed_service env index seen (some s) = do
  let name = trim s.name
  in_service env name (validate_service s)
  reject_if (is_empty (sanitize name)) (service_invalid env name ServiceError.name_unsafe)
  claim_name (service_duplicate env name) (service_collides env name) seen name

unfoldable pub validate_services :
    Text → ℕ → Seen → List (Option ServiceMessage) → Result ValidationError (Unit {0})
unfolding validate_listed_service
validate_services env index seen [] = ok tt
validate_services env index seen (s ∷ ss) =
    validate_listed_service env index seen s >>= λ seen'. validate_services env (suc index) seen' ss

unfoldable pub validate_listed_task : Text → Option Task → Result ValidationError (Unit {0})
unfolding in_task
validate_listed_task env none = ok tt
validate_listed_task env (some task) = in_task env (validate_task task)

-- The body of the loop over the environments.
unfoldable pub validate_environment : ℕ → Seen → Option Environment → Result ValidationError Seen
unfolding claim_name validate_services validate_listed_task
validate_environment index seen none = err (environment_required index)
validate_environment index seen (some env) = do
  let name = trim env.name
  reject_if (is_empty name) (environment_name_required index)
  reject_if (is_empty (sanitize name)) (environment_name_unsafe name)
  seen' ← claim_name (environment_duplicate name) (environment_collides name) seen name
  validate_services name 0 none_seen env.services
  for_each (validate_listed_task name) env.tasks
  ok seen'

unfoldable pub validate_environments :
    ℕ → Seen → List (Option Environment) → Result ValidationError (Unit {0})
unfolding validate_environment
validate_environments index seen [] = ok tt
validate_environments index seen (e ∷ es) =
    validate_environment index seen e >>= λ seen'. validate_environments (suc index) seen' es

unfoldable pub in_ingress : Result IngressError (Unit {0}) → Result ValidationError (Unit {0})
in_ingress (ok a) = ok a
in_ingress (err e) = err (ingress_invalid e)

unfoldable pub validate_ingress_if_any :
    DesiredState → Option IngressMessage → Result ValidationError (Unit {0})
unfolding in_ingress
validate_ingress_if_any state none = ok tt
validate_ingress_if_any state (some ingress) = in_ingress (validate_ingress state ingress)

-- Validate, for a state that is not nil.
unfoldable pub validate : DesiredState → Result ValidationError (Unit {0})
unfolding validate_environments validate_ingress_if_any
validate state = do
  reject_if (is_empty state.revision) revision_required
  reject_if (not (nat_eq state.schema_version current_schema_version)) schema_version_unsupported
  validate_environments 0 none_seen state.environments
  validate_ingress_if_any state state.ingress
