-- ===== src/Samples/Documents.antt =====
-- A desired state that is accepted, and names and keys that are made.
use devopsellence.Base.{
  ◌≡◌, ◌≤◌, true, false, refl, is_empty, nat_eq, is_distinct, map, trim, ◌==◌, none, some, [], ◌∷◌,
  All, Text, ok, arith, ◌↔◌, codes, byte_len, has_key, lookup, insert,
}
use devopsellence.DesiredState.Types.{DesiredState, Service}
use devopsellence.DesiredState.Names.{
  is_safe, sanitize, service_container_name, environment_network_name, scoped_key,
}
use devopsellence.DesiredState.Names.Sanitized.{sanitize-IsSafe}
use devopsellence.DesiredState.Names.Containers.{
  IsSafe, Fits, IsContainerName, service_container_name-IsContainerName,
}
use devopsellence.DesiredState.Names.Lengths.{environment_network_name-short}
use devopsellence.DesiredState.Names.Keys.{scoped_key-injective}
use devopsellence.DesiredState.Runtime.{normalized_service_kind, current_schema_version}
use devopsellence.DesiredState.Validate.{validate}
use devopsellence.DesiredState.Validate.Service.{validate_service, is_absolute}
use devopsellence.DesiredState.Validate.Sound.{IsSoundEnvironment, environment_key, validate_sound}

safe_example : All (λ c. is_safe c ≡ true) (sanitize (codes " Web App "))
safe_example = sanitize-IsSafe (codes " Web App ")

hexadecimal : IsSafe (codes "0011223344")
unfolding is_safe
hexadecimal = ground arith

-- The premise can be met.
container_named :
    service_container_name (codes "Prod") (codes "web") (codes "v1") (codes "0011223344")
    ≡ ok (codes "svc-prod-web-v1-00112233")
unfolding service_container_name trim byte_len
container_named = refl

container_example :
    (((name : Text) × (service_container_name
            (codes "Prod")
            (codes "web")
            (codes "v1")
            (codes "0011223344")
          ≡ ok name))
      ↔ Fits (codes "Prod") (codes "web") (codes "v1") (codes "0011223344") hexadecimal)
    × ((name : Text)
        → service_container_name (codes "Prod") (codes "web") (codes "v1") (codes "0011223344")
          ≡ ok name
        → IsContainerName (codes "0011223344") name)
container_example =
    service_container_name-IsContainerName (codes "Prod") (codes "web") (codes "v1")
      (codes "0011223344") hexadecimal

network_example : byte_len (codes "net-env-prod") ≤ 255
unfolding environment_network_name trim byte_len
network_example =
    environment_network_name-short (λ t. codes "00112233") (codes "net") (codes "Prod")
      (codes "net-env-prod") refl

keys_example : map trim (codes "p" ∷ codes " web" ∷ []) ≡ map trim (codes "p " ∷ codes "web" ∷ [])
unfolding scoped_key trim
keys_example =
    scoped_key-injective (codes "p" ∷ codes " web" ∷ []) (codes "p " ∷ codes "web" ∷ []) refl

abbrev worker : Text → Service
worker name = record {
  name = name;
  kind = codes "worker";
  image = codes "app";
  entrypoint = [];
  command = [];
  env = (codes "A", codes "1") ∷ [];
  secret_refs = (codes "B", codes "s") ∷ [];
  healthcheck = none;
  ports = [];
  volume_mounts = record { source = codes "d"; target = codes "/d" } ∷ [];
}

abbrev production_state : DesiredState
production_state = record {
  revision = codes "v1";
  ingress = none;
  node_peers = [];
  schema_version = 2;
  environments =
      some (record {
        name = codes "p";
        revision = codes "v1";
        services = some (worker (codes "a")) ∷ some (worker (codes "b")) ∷ [];
        tasks = [];
      })
      ∷ [];
}

accepted_example :
    (nat_eq production_state.schema_version current_schema_version ≡ true)
    × ((is_empty production_state.revision ≡ false)
        × (All IsSoundEnvironment production_state.environments
            × (is_distinct (map environment_key production_state.environments) ≡ true)))
unfolding validate trim has_key lookup insert ◌==◌ sanitize validate_service is_absolute
    normalized_service_kind
accepted_example = validate_sound production_state refl
