-- ===== src/DesiredState/Runtime.antt =====
-- agent/internal/desiredstate/runtime.go: the services and tasks of all environments, and the
-- defaults of a service. The state is not nil.
use devopsellence.Base.{
  ℕ, ◌%◌, not, ◌&&◌, Option, none, some, List, [], ◌∷◌, ◌++◌, Text, codes, ◌==◌, trim, is_empty,
  nat_eq, if◌then◌else◌,
}
use devopsellence.Plan.Schedule.{or_default}
use devopsellence.DesiredState.Types.{
  DesiredState, Environment, Service, ServicePort, Task, IngressTarget,
}

abbrev pub current_schema_version : ℕ
current_schema_version = 2

abbrev pub kind_web : Text
kind_web = codes "web"

abbrev pub kind_worker : Text
kind_worker = codes "worker"

abbrev pub kind_accessory : Text
kind_accessory = codes "accessory"

abbrev pub default_http_port_name : Text
default_http_port_name = codes "http"

pub record RuntimeService : Type 0 where
  pub environment_name : Text
  pub environment_revision : Text
  pub service_name : Text
  pub service_kind : Text
  pub service : Service

pub record RuntimeTask : Type 0 where
  pub environment_name : Text
  pub environment_revision : Text
  pub task : Task

-- The elements that are not nil.
abbrev pub present {ℓ} : {A : Type ℓ} → List (Option A) → List A
present [] = []
present (none ∷ xs) = present xs
present (some x ∷ xs) = x ∷ present xs

unfoldable pub normalized_service_kind : Service → Text
normalized_service_kind s =
    let kind = trim s.kind in
    if not (is_empty kind) then kind else if trim s.name == kind_web then kind_web else kind_worker

unfoldable pub environment_revision_of : DesiredState → Environment → Text
environment_revision_of state env = or_default (trim env.revision) (trim state.revision)

-- The loop over the services of one environment.
unfoldable pub environment_services :
    DesiredState → Environment → List Service → List RuntimeService
unfolding normalized_service_kind environment_revision_of
environment_services state env [] = []
environment_services state env (s ∷ ss) =
    record {
      environment_name = trim env.name;
      environment_revision = environment_revision_of state env;
      service_name = trim s.name;
      service_kind = normalized_service_kind s;
      service = s;
    }
    ∷ environment_services state env ss

unfoldable pub services_of : DesiredState → List Environment → List RuntimeService
unfolding environment_services
services_of state [] = []
services_of state (e ∷ es) =
    environment_services state e (present e.services) ++ services_of state es

unfoldable pub runtime_services : DesiredState → List RuntimeService
unfolding services_of
runtime_services state = services_of state (present state.environments)

unfoldable pub environment_tasks : DesiredState → Environment → List Task → List RuntimeTask
unfolding environment_revision_of
environment_tasks state env [] = []
environment_tasks state env (t ∷ ts) =
    record {
      environment_name = trim env.name;
      environment_revision = environment_revision_of state env;
      task = t;
    }
    ∷ environment_tasks state env ts

unfoldable pub tasks_of : DesiredState → List Environment → List RuntimeTask
unfolding environment_tasks
tasks_of state [] = []
tasks_of state (e ∷ es) = environment_tasks state e (present e.tasks) ++ tasks_of state es

unfoldable pub runtime_tasks : DesiredState → List RuntimeTask
unfolding tasks_of
runtime_tasks state = tasks_of state (present state.environments)

-- uint16(port)
abbrev pub to_uint16 : ℕ → ℕ
to_uint16 n = n % 65536

-- The first port of the name `http` that is not 0.
unfoldable pub named_http_port : List ServicePort → Option ℕ
named_http_port [] = none
named_http_port (p ∷ ps) =
    if not (nat_eq p.port 0) && trim p.name == default_http_port_name
    then some (to_uint16 p.port)
    else named_http_port ps

unfoldable pub first_port : List ServicePort → Option ℕ
first_port [] = none
first_port (p ∷ ps) = if not (nat_eq p.port 0) then some (to_uint16 p.port) else first_port ps

unfoldable pub service_http_port : Service → ℕ → ℕ
unfolding named_http_port first_port
service_http_port s fallback = elim (named_http_port (present s.ports)) [
  | some p ↦ p
  | none ↦ elim (first_port (present s.ports)) [ some p ↦ p | none ↦ fallback ]
]

unfoldable pub ingress_target_port : Option IngressTarget → Text
ingress_target_port none = default_http_port_name
ingress_target_port (some t) = or_default (trim t.port) default_http_port_name
