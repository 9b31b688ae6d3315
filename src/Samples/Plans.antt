-- ===== src/Samples/Plans.antt =====
-- A plan for one node, and a state whose ingress is accepted.
use devopsellence.Base.{
  ◌≡◌, refl, true, false, is_empty, is_distinct, byte_len, has_key, lookup, insert, contains,
  has_prefix, trim, ◌==◌, none, some, [], ◌∷◌, All, codes, pos, ok,
}
use devopsellence.Plan.Publication.{Encoder, NodePublicationInput, NodePublication}
use devopsellence.DesiredState.Types.{DesiredState, Service, Ingress}
use devopsellence.DesiredState.Names.{sanitize, scoped_key}
use devopsellence.DesiredState.Runtime.{
  normalized_service_kind, service_http_port, runtime_services,
}
use devopsellence.DesiredState.Validate.{validate}
use devopsellence.DesiredState.Validate.Service.{validate_service}
use devopsellence.DesiredState.Validate.Ingress.{ingress_hosts, validate_ingress, service_has_port}
use devopsellence.DesiredState.Validate.Routes.{IsSoundRoute, route_keys, validate-IsSoundRoute}
use devopsellence.Samples.Values.{web_snapshot, web_node}

abbrev sample_encoder : Encoder
sample_encoder = record {
  marshal = λ d. ok (codes "{}");
  marshal_indent = λ d. ok (codes "{}");
  sha256_hex = λ t. codes "00112233";
}

abbrev plan_request : NodePublicationInput
plan_request = record {
  node_name = codes "n1";
  current_node = (web_node (codes "n1")).config;
  snapshots = web_snapshot ∷ [];
  release_nodes = [];
  node_peers = [];
}

abbrev planned : NodePublication
planned = record { node_name = codes "n1"; desired_state_json = codes "{}" }

abbrev web : Service
web = record {
  name = codes "web";
  kind = codes "web";
  image = codes "app";
  entrypoint = [];
  command = [];
  env = [];
  secret_refs = [];
  healthcheck = some (record {
    interval_seconds = pos 1;
    timeout_seconds = pos 1;
    retries = pos 1;
    start_period_seconds = pos 1;
    path = codes "/up";
    port = 3000;
  });
  ports = some (record { name = codes "http"; port = 3000 }) ∷ [];
  volume_mounts = [];
}

abbrev ingress : Ingress
ingress = record {
  hosts = codes "a" ∷ [];
  mode = [];
  tls = none;
  redirect_http = true;
  routes =
      some (record {
        match = some (record { hostname = codes "a"; path_prefix = [] });
        target =
            some (record { environment = codes "p"; service = codes "web"; port = codes "http" });
      })
      ∷ [];
}

abbrev state : DesiredState
state = record {
  revision = codes "v1";
  ingress = some ingress;
  node_peers = [];
  schema_version = 2;
  environments =
      some (record { name = codes "p"; revision = []; services = some web ∷ []; tasks = [] }) ∷ [];
}

routes_example :
    (is_empty (ingress_hosts ingress) ≡ false)
    × (All (IsSoundRoute state (ingress_hosts ingress)) ingress.routes
        × (is_distinct (route_keys ingress.routes) ≡ true))
unfolding validate trim sanitize has_key lookup validate_service ◌==◌ normalized_service_kind
    service_http_port validate_ingress contains has_prefix runtime_services insert scoped_key
    byte_len service_has_port
routes_example = validate-IsSoundRoute state ingress refl refl
