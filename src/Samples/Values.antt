-- ===== src/Samples/Values.antt =====
-- A small project: two releases of one environment on two nodes, and a clock that reads a time as
-- the length of its text.
use devopsellence.Base.{true, none, some, List, [], ◌∷◌, Text, codes, pos, length}
use devopsellence.Plan.Types.{DeploySnapshot, ServiceJson, TaskJson, IngressJson, IngressRouteJson}
use devopsellence.Release.Types.{Release, Node, Environment, Times}

abbrev pub sample_times : Times
sample_times = record {
  now = 5;
  format_rfc3339 = λ n. codes "t";
  format_rfc3339_nano = λ n. codes "t";
  parse_rfc3339 = λ text. some (length text);
}

abbrev pub web_service : ServiceJson
web_service = record {
  name = codes "web";
  kind = codes "web";
  image = codes "app";
  entrypoint = [];
  command = [];
  env = [];
  healthcheck = none;
  ports = record { name = codes "http"; port = pos 3000 } ∷ [];
  volume_mounts = [];
}

abbrev pub migrate : TaskJson
migrate = record {
  name = codes "migrate";
  image = codes "app";
  entrypoint = [];
  command = codes "up" ∷ [];
  env = [];
  volume_mounts = [];
}

abbrev pub web_route : Text → IngressRouteJson
web_route host = record {
  match = record { hostname = host; path_prefix = codes "/" };
  target = record { environment = codes "p"; service = codes "web"; port = codes "http" };
}

abbrev pub web_ingress : IngressJson
web_ingress = record {
  hosts = codes "b" ∷ codes "a" ∷ codes "b" ∷ [];
  mode = [];
  tls = record { mode = []; email = []; ca_directory_url = [] };
  redirect_http = true;
  routes = web_route (codes "b") ∷ web_route (codes "a") ∷ [];
}

abbrev pub web_snapshot : DeploySnapshot
web_snapshot = record {
  workspace_root = codes "/w";
  workspace_key = codes "w";
  environment = codes "p";
  revision = codes "v";
  image = codes "app";
  services = web_service ∷ [];
  release_task = some migrate;
  release_service = codes "web";
  release_service_kind = codes "web";
  ingress = some web_ingress;
  ingress_service = codes "web";
  ingress_service_kind = codes "web";
  secret_refs = [];
  metadata = record { config_path = []; project = codes "p"; updated_at = [] };
}

abbrev pub web_release : (id created_at : Text) → Release
web_release id created_at = record {
  id = id;
  environment_id = codes "e";
  revision = id;
  config_digest = [];
  snapshot = web_snapshot;
  image = record { repository = []; digest = []; reference = codes "app" };
  target_node_ids = [];
  created_at = created_at;
  command_result = none;
}

abbrev pub old_release : Release
old_release = web_release (codes "r1") (codes "1")

abbrev pub new_release_value : Release
new_release_value = web_release (codes "r2") (codes "22")

abbrev pub two_releases : List Release
two_releases = old_release ∷ new_release_value ∷ []

abbrev pub web_node : Text → Node
web_node name = record {
  id = name;
  name = name;
  config = record {
    host = name;
    user = [];
    port = pos 22;
    ssh_key = [];
    agent_state_dir = [];
    labels = some (codes "web" ∷ []);
    provider = [];
    provider_server_id = [];
    provider_region = [];
    provider_size = [];
    provider_image = [];
  };
}

abbrev pub two_nodes : List Node
two_nodes = web_node (codes "n2") ∷ web_node (codes "n1") ∷ []

abbrev pub the_environment : Environment
the_environment = record {
  id = codes "e";
  name = codes "p";
  current_release_id = codes "r2";
  node_ids = codes "n1" ∷ codes "n2" ∷ [];
}
