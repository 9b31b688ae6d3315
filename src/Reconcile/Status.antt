-- ===== src/Reconcile/Status.antt =====
-- agent/internal/reconcile/status.go: the status that the agent reports of its services. The engine's
-- answers to Inspect depend on the names asked for before, which stand newest first; the hash that a
-- service's container should have is a parameter.
pub mod Phases
use devopsellence.Base.{
  ℕ, suc, Bool, true, false, not, ◌&&◌, ◌||◌, Option, none, some, List, [], ◌∷◌, ◌++◌, keep, Text,
  codes, ◌==◌, trim, is_empty, ltb, Result, ok, err, ◌>>=◌, if◌then◌else◌,
}
use devopsellence.Engine.{ContainerState, ContainerInfo}
use devopsellence.DesiredState.Types.{DesiredState, Environment, Service}
use devopsellence.DesiredState.Names.{scoped_key}
use devopsellence.DesiredState.Runtime.{normalized_service_kind}

pub data Phase : Type 0 where
  reconciling settled error : Phase

pub record Summary : Type 0 where
  pub environments : ℕ
  pub services : ℕ
  pub unhealthy_services : ℕ

pub record ServiceStatus : Type 0 where
  pub name : Text
  pub kind : Text
  pub phase : Phase
  pub container : Text
  pub container_revision : Text
  pub revision_status : Text
  pub revision_message : Text
  pub state : Text
  pub health : Text
  pub hash : Text

pub record EnvironmentStatus : Type 0 where
  pub name : Text
  pub revision : Text
  pub phase : Phase
  pub services : List ServiceStatus

pub record Observer : Type 0 where
  pub list_managed : Result Text (List ContainerState)
  pub inspect : List Text → Text → Result Text ContainerInfo
  pub expected_hash : (environment service : Text) → Service → Text

unfoldable pub phase_severity : Phase → ℕ
phase_severity error = 2
phase_severity reconciling = 1
phase_severity settled = 0

unfoldable pub runtime_service_key : (environment_name service_name : Text) → Text
runtime_service_key environment_name service_name =
    let environment = trim environment_name in
    scoped_key ((if is_empty environment then codes "default" else environment) ∷ service_name ∷ [])

unfoldable pub container_service_key : ContainerState → Text
unfolding runtime_service_key
container_service_key c = runtime_service_key c.environment c.service

-- The containers of a service, as existingByService holds them.
unfoldable pub containers_of : Text → List ContainerState → List ContainerState
unfolding container_service_key
containers_of key = keep (λ c. not (is_empty c.service) && container_service_key c == key)

unfoldable pub pick_loop : ContainerState → List ContainerState → ContainerState
pick_loop best [] = best
pick_loop best (c ∷ cs) = pick_loop (if c.running && not best.running then c else best) cs

unfoldable pub pick_current_container : List ContainerState → Option ContainerState
unfolding pick_loop
pick_current_container [] = none
pick_current_container (c ∷ cs) = some (pick_loop c (c ∷ cs))

unfoldable pub environment_revision : DesiredState → Environment → Text
environment_revision desired environment =
    if not (is_empty environment.revision) then environment.revision else desired.revision

-- The status and the message of a container's revision.
unfoldable pub service_revision_status :
    ContainerState → (environment_revision expected_hash : Text) → Text × Text
service_revision_status current environment_revision expected_hash =
    let container = trim current.revision in
    let environment = trim environment_revision in
    let expected = trim expected_hash in
    if is_empty container || is_empty environment || container == environment
    then ([], [])
    else if not (is_empty expected) && trim current.hash == expected
    then (
      codes "reused_from_previous_release",
      codes
          "container was reused from an earlier release because this service config did not change; environment revision is the current rollout revision",
    )
    else (
      codes "previous_release",
      codes
          "container is still labeled with an earlier release revision; environment revision is the current desired rollout revision",
    )

-- What the health that the engine reports makes of the status.
unfoldable pub with_health : Text → ServiceStatus → ServiceStatus
with_health health s =
    if is_empty health
    then s
    else if health == codes "starting"
    then record s { health = health; state = codes "starting"; phase = reconciling }
    else if health == codes "unhealthy"
    then record s { health = health; state = codes "unhealthy"; phase = error }
    else record s { health = health }

abbrev with_info : Result Text ContainerInfo → ServiceStatus → ServiceStatus
with_info (err e) s = s
with_info (ok info) s = with_health info.health s

-- The status of a service whose container is there, and the names inspected.
unfoldable pub container_status :
    Observer
    → List Text
    → ServiceStatus
    → ContainerState
    → (environment_revision expected_hash : Text) → ServiceStatus × List Text
unfolding service_revision_status with_health
container_status observer inspected missing c environment_revision expected_hash =
    let about = service_revision_status c environment_revision expected_hash in
    let found = record missing {
      container = c.name;
      container_revision = trim c.revision;
      hash = c.hash;
      revision_status = about.0;
      revision_message = about.1;
    } in
    let stopped = record found { state = codes "stopped"; phase = error } in
    let running = record found { state = codes "running"; phase = settled } in
    if c.running
    then (with_info (observer.inspect inspected c.name) running, c.name ∷ inspected)
    else (stopped, inspected)

unfoldable pub service_status :
    Observer
    → List Text
    → Service
    → Option ContainerState
    → (environment_revision expected_hash : Text) → ServiceStatus × List Text
unfolding container_status
service_status observer inspected service current environment_revision expected_hash =
    let missing : ServiceStatus = record {
      name = service.name;
      kind = normalized_service_kind service;
      phase = reconciling;
      container = [];
      container_revision = [];
      revision_status = [];
      revision_message = [];
      state = codes "missing";
      health = [];
      hash = [];
    } in
    elim current [
      | none ↦ (missing, inspected)
      | some c ↦ container_status observer inspected missing c environment_revision expected_hash
    ]

-- What the loops carry: the counts, the environment in work, and the names inspected.
pub record Progress : Type 0 where
  pub summary : Summary
  pub status : EnvironmentStatus
  pub inspected : List Text

abbrev is_error : Phase → Bool
is_error error = true
is_error _ = false

-- Records the status of one service.
unfoldable pub add_status : ServiceStatus → List Text → Progress → Progress
unfolding phase_severity
add_status s inspected p =
    let worse = ltb (phase_severity p.status.phase) (phase_severity s.phase) in
    let unhealthy = p.summary.unhealthy_services in
    record {
      summary = record (p.summary) {
        services = suc p.summary.services;
        unhealthy_services = if is_error s.phase then suc unhealthy else unhealthy;
      };
      status = record (p.status) {
        phase = if worse then s.phase else p.status.phase;
        services = p.status.services ++ s ∷ [];
      };
      inspected = inspected;
    }

module _ (observer : Observer) (existing : List ContainerState) where
  -- The body of the loop over an environment's services.
  unfoldable pub add_service : (environment_name : Text) → Option Service → Progress → Progress
  unfolding service_status containers_of pick_current_container
  add_service environment_name none p = p
  add_service environment_name (some s) p =
      let key = runtime_service_key environment_name s.name in
      let made =
        service_status observer p.inspected s (pick_current_container (containers_of key existing))
          p.status.revision (observer.expected_hash environment_name s.name s) in
      add_status made.0 made.1 p

  unfoldable pub add_services :
      (environment_name : Text) → List (Option Service) → Progress → Progress
  unfolding add_service
  add_services environment_name [] p = p
  add_services environment_name (s ∷ ss) p =
      add_services environment_name ss (add_service environment_name s p)

  abbrev pub started : DesiredState → Environment → Summary → List Text → Progress
  started desired e summary inspected = record {
    summary = record summary { environments = suc summary.environments };
    status = record {
      name = e.name;
      revision = environment_revision desired e;
      phase = settled;
      services = [];
    };
    inspected = inspected;
  }

  -- The loop over the environments.
  unfoldable pub add_environments :
      DesiredState
      → List (Option Environment)
      → Summary
      → List EnvironmentStatus
      → List Text
      → Summary × List EnvironmentStatus
  unfolding add_services environment_revision
  add_environments desired [] summary done inspected = (summary, done)
  add_environments desired (none ∷ es) summary done inspected =
      add_environments desired es summary done inspected
  add_environments desired (some e ∷ es) summary done inspected =
      let p = add_services e.name e.services (started desired e summary inspected) in
      add_environments desired es p.summary (done ++ p.status ∷ []) p.inspected

-- CurrentStatus, for a desired state that is not nil.
unfoldable pub current_status :
    Observer → DesiredState → Result Text (Summary × List EnvironmentStatus)
unfolding add_environments
current_status observer desired = observer.list_managed >>= λ existing. ok (
    add_environments observer existing desired desired.environments
      (record { environments = 0; services = 0; unhealthy_services = 0 }) [] [])
