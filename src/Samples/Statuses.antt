-- ===== src/Samples/Statuses.antt =====
-- A node with a web service that runs and a worker that is missing.
use devopsellence.Base.{
  ◌≡◌, refl, Bool, true, false, any, trim, ◌==◌, byte_len, none, some, List, [], ◌∷◌, In, Text,
  codes, ok, err,
}
use devopsellence.Engine.{ContainerState}
use devopsellence.DesiredState.Names.{scoped_key}
use devopsellence.DesiredState.Runtime.{normalized_service_kind}
use devopsellence.DesiredState.Types.{DesiredState, Service}
use devopsellence.Reconcile.Status.{
  Observer, Summary, EnvironmentStatus, settled, reconciling, containers_of, container_service_key,
  pick_current_container, add_status, current_status,
}
use devopsellence.Reconcile.Status.Phases.{
  Agrees, current_status-Agrees, pick_current_container_lem,
}

abbrev container : (service : Text) → Bool → ContainerState
container service running = record {
  name = service;
  image = codes "app";
  running = running;
  managed = true;
  hash = codes "h";
  revision = codes "v1";
  environment = codes "p";
  service = service;
  service_kind = [];
  system = [];
}

abbrev containers : List ContainerState
containers = container (codes "web") false ∷ container (codes "web") true ∷ []

abbrev observer : Observer
observer = record {
  list_managed = ok containers;
  inspect = λ before name. err (codes "gone");
  expected_hash = λ environment service s. codes "h";
}

abbrev service : Text → Service
service name = record {
  name = name;
  kind = name;
  image = codes "app";
  entrypoint = [];
  command = [];
  env = [];
  secret_refs = [];
  healthcheck = none;
  ports = [];
  volume_mounts = [];
}

abbrev desired : DesiredState
desired = record {
  revision = codes "v1";
  ingress = none;
  node_peers = [];
  schema_version = 2;
  environments =
      some (record {
        name = codes "p";
        revision = [];
        services = some (service (codes "web")) ∷ none ∷ some (service (codes "job")) ∷ [];
        tasks = [];
      })
      ∷ [];
}

abbrev reported : EnvironmentStatus
reported = record {
  name = codes "p";
  revision = codes "v1";
  phase = reconciling;
  services =
      record {
        name = codes "web";
        kind = codes "web";
        phase = settled;
        container = codes "web";
        container_revision = codes "v1";
        revision_status = [];
        revision_message = [];
        state = codes "running";
        health = [];
        hash = codes "h";
      }
      ∷ record {
        name = codes "job";
        kind = codes "job";
        phase = reconciling;
        container = [];
        container_revision = [];
        revision_status = [];
        revision_message = [];
        state = codes "missing";
        health = [];
        hash = [];
      }
      ∷ [];
}

abbrev counts : Summary
counts = record { environments = 1; services = 2; unhealthy_services = 0 }

status_example : Agrees counts (reported ∷ [])
unfolding current_status add_status ◌==◌ scoped_key byte_len trim normalized_service_kind
status_example = current_status-Agrees observer desired counts (reported ∷ []) refl

abbrev web_key : Text
web_key = container_service_key (container (codes "web") true)

picked_example :
    (In (container (codes "web") true) containers
      × ((container_service_key (container (codes "web") true) == web_key) ≡ true))
    × (true ≡ any (λ x. x.running) (containers_of web_key containers))
unfolding containers_of pick_current_container ◌==◌ scoped_key byte_len trim
picked_example = pick_current_container_lem containers web_key (container (codes "web") true) refl
