-- ===== src/DesiredState/Validate/Service.antt =====
-- agent/internal/desiredstate/validate.go: the checks of one service and of one task.
use devopsellence.Base.{
  Bool, false, not, ◌&&◌, ◌||◌, Option, none, some, List, [], ◌∷◌, Text, ◌==◌, trim, is_empty,
  nat_eq, Dict, lookup, insert, has_key, Result, ok, err, ◌>>=◌, ◌>>◌, reject_if, for_each,
  if◌then◌else◌,
}
use devopsellence.DesiredState.Types.{Service, ServicePort, Task, VolumeMount, Healthcheck}
use devopsellence.DesiredState.Names.{sanitize}
use devopsellence.DesiredState.Runtime.{
  normalized_service_kind, service_http_port, present, kind_web, kind_worker, kind_accessory,
}

pub data ServiceError : Type 0 where
  name_required name_unsafe image_required : ServiceError
  kind_unsupported : Text → ServiceError
  env_key_empty secret_key_empty : ServiceError
  secret_empty secret_conflict : Text → ServiceError
  mount_source_required mount_target_required mount_target_relative : ServiceError
  port_name_required : ServiceError
  port_name_unsafe port_number_required port_duplicate : Text → ServiceError
  port_collides : (name existing : Text) → ServiceError
  http_port_required healthcheck_required healthcheck_path_required : ServiceError
  healthcheck_port_required command_required : ServiceError

unfoldable pub validate_env_key : Text × Text → Result ServiceError (Unit {0})
validate_env_key (key, value) = reject_if (is_empty key) env_key_empty

unfoldable pub validate_secret_ref : Dict Text → Text × Text → Result ServiceError (Unit {0})
validate_secret_ref env (key, value) =
    reject_if (is_empty key) secret_key_empty
    >> (reject_if (is_empty value) (secret_empty key)
        >> reject_if (has_key key env) (secret_conflict key))

-- `target[0] == '/'`
unfoldable pub is_absolute : Text → Bool
is_absolute [] = false
is_absolute (c ∷ s) = nat_eq c 47

unfoldable pub validate_mount : VolumeMount → Result ServiceError (Unit {0})
validate_mount mount =
    reject_if (is_empty mount.source) mount_source_required
    >> (reject_if (is_empty mount.target) mount_target_required
        >> reject_if (not (is_absolute mount.target)) mount_target_relative)

unfoldable pub validate_port : ServicePort → Result ServiceError (Unit {0})
validate_port port =
    let name = trim port.name in
    reject_if (is_empty name) port_name_required
    >> (reject_if (is_empty (sanitize name)) (port_name_unsafe name)
        >> reject_if (nat_eq port.port 0) (port_number_required port.name))

unfoldable pub validate_unique_port :
    Dict (Unit {0}) → Dict Text → ServicePort → Result ServiceError (Dict (Unit {0}) × Dict Text)
validate_unique_port seen sanitized port =
    let name = trim port.name in
    reject_if (has_key name seen) (port_duplicate name)
    >> (reject_if (is_empty (sanitize name)) (port_name_unsafe name)
        >> elim (lookup (sanitize name) sanitized) [
          | some existing ↦ err (port_collides name existing)
          | none ↦ ok (insert name tt seen, insert (sanitize name) name sanitized)
        ])

unfoldable pub validate_unique_port_names :
    Dict (Unit {0}) → Dict Text → List ServicePort → Result ServiceError (Unit {0})
unfolding validate_unique_port
validate_unique_port_names seen sanitized [] = ok tt
validate_unique_port_names seen sanitized (p ∷ ps) =
    validate_unique_port seen sanitized p >>= λ s. validate_unique_port_names s.0 s.1 ps

unfoldable pub validate_healthcheck : Option Healthcheck → Result ServiceError (Unit {0})
validate_healthcheck none = err healthcheck_required
validate_healthcheck (some h) =
    reject_if (is_empty h.path) healthcheck_path_required
    >> reject_if (nat_eq h.port 0) healthcheck_port_required

-- What a service of the kind `web` needs.
unfoldable pub validate_web : Service → Result ServiceError (Unit {0})
unfolding validate_healthcheck
validate_web s =
    reject_if (nat_eq (service_http_port s 0) 0) http_port_required
    >> validate_healthcheck s.healthcheck

unfoldable pub is_known_kind : Text → Bool
is_known_kind kind =
    is_empty kind || kind == kind_web || kind == kind_worker || kind == kind_accessory

-- validateService, for a service that is not nil.
unfoldable pub validate_service : Service → Result ServiceError (Unit {0})
unfolding validate_env_key validate_secret_ref validate_mount validate_port
    validate_unique_port_names validate_web is_known_kind
validate_service s = do
  let name = trim s.name
  reject_if (is_empty name) name_required
  reject_if (is_empty (sanitize name)) name_unsafe
  reject_if (is_empty s.image) image_required
  reject_if (not (is_known_kind (trim s.kind))) (kind_unsupported s.kind)
  for_each validate_env_key s.env
  for_each (validate_secret_ref s.env) s.secret_refs
  for_each validate_mount s.volume_mounts
  for_each validate_port (present s.ports)
  validate_unique_port_names [] [] (present s.ports)
  if normalized_service_kind s == kind_web then validate_web s else ok tt

-- validateTask, for a task that is not nil.
unfoldable pub validate_task : Task → Result ServiceError (Unit {0})
unfolding validate_env_key validate_secret_ref validate_mount
validate_task t = do
  reject_if (is_empty t.name) name_required
  reject_if (is_empty t.image) image_required
  reject_if (is_empty t.entrypoint && is_empty t.command) command_required
  for_each validate_env_key t.env
  for_each (validate_secret_ref t.env) t.secret_refs
  for_each validate_mount t.volume_mounts
