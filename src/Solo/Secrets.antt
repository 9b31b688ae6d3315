-- ===== src/Solo/Secrets.antt =====
-- cli/internal/solo/secrets.go: the secrets of the state. strings.ToLower is the Unicode lower case as
-- far as it gives an ASCII letter, which is what the comparisons with ASCII texts see of it.
pub mod Kept
use devopsellence.Base.{
  Bool, true, false, not, ◌&&◌, ◌||◌, Option, none, some, List, [], ◌∷◌, map, keep, Text, ◌==◌,
  codes, text_lt, trim, is_empty, has_prefix, sort_by, Dict, lookup, insert, remove, or_value,
  Result, ok, err, ◌>>=◌, ◌>>◌, reject_if, if◌then◌else◌,
}
use devopsellence.Plan.Schedule.{or_default, default_environment_name, ascii_lower}
use devopsellence.Solo.Types.{
  SecretRecord, SecretMaterial, State, StateError, service_name_required, secret_name_required,
  secret_value_required, secret_value_stored, secret_reference_required, secret_reference_invalid,
  secret_store_unsupported, secret_unknown,
}
use devopsellence.Solo.Keys.{Paths, canonical_workspace_key, secret_key}

abbrev pub plaintext : Text
plaintext = codes "plaintext"

abbrev pub one_password : Text
one_password = codes "1password"

-- The values of a service by their names; the key of the outer map is the service.
abbrev pub ScopedSecrets : Type 0
ScopedSecrets = Dict (Dict Text)

-- ScopedSecrets.ValuesForService
unfoldable pub values_for_service : ScopedSecrets → Text → Dict Text
values_for_service secrets service = or_value [] (lookup (trim service) secrets)

-- ScopedSecrets.Value
unfoldable pub value : ScopedSecrets → (service name : Text) → Text
unfolding values_for_service
value secrets service name = or_value [] (lookup (trim name) (values_for_service secrets service))

-- ScopedSecrets.Set
unfoldable pub set_value : ScopedSecrets → (service name value : Text) → ScopedSecrets
set_value secrets service name value =
    if is_empty (trim service) || is_empty (trim name)
    then secrets
    else insert (trim service)
        (insert (trim name) value (or_value [] (lookup (trim service) secrets))) secrets

unfoldable pub normalize_secret_store : Text → Result StateError Text
normalize_secret_store store =
    let name = trim (map ascii_lower store) in
    if is_empty name || name == plaintext
    then ok plaintext
    else if name == one_password || (name == codes "onepassword" || name == codes "op")
    then ok one_password
    else err (secret_store_unsupported store)

-- The result is the reference, trimmed.
unfoldable pub validate_secret_material : (store value reference : Text) → Result StateError Text
validate_secret_material store value reference =
    let kept = trim reference in
    if store == plaintext
    then (reject_if (is_empty (trim value)) secret_value_required >> ok kept)
    else if store == one_password
    then (reject_if (not (is_empty (trim value))) secret_value_stored
        >> (reject_if (is_empty kept) secret_reference_required
            >> (reject_if (not (has_prefix (map ascii_lower kept) (codes "op://")))
                  secret_reference_invalid
                >> ok kept)))
    else err (secret_store_unsupported store)

unfoldable pub secret_less : SecretRecord → SecretRecord → Bool
secret_less a b =
    if a.service_name == b.service_name
    then text_lt a.name b.name
    else text_lt a.service_name b.service_name

abbrev pub is_of : (workspace environment : Text) → SecretRecord → Bool
is_of workspace environment r = r.workspace_key == workspace && r.environment == environment

abbrev pub is_wanted : (workspace environment service : Text) → SecretRecord → Bool
is_wanted workspace environment service r =
    is_of workspace environment r && (is_empty service || r.service_name == service)

abbrev pub without_value : SecretRecord → SecretRecord
without_value r = record r { value = [] }

-- The loop of ScopedSecretValues.
unfoldable pub collect_values : ScopedSecrets → List SecretRecord → ScopedSecrets
unfolding set_value
collect_values values [] = values
collect_values values (r ∷ rs) =
    let skipped = collect_values values rs in
    let kept = collect_values (set_value values r.service_name r.name r.value) rs in
    if r.store == plaintext then kept else skipped

-- The rest of DeleteSecret, for the key and the record of a scope and with what was found there.
unfoldable pub delete_found :
    Text × SecretRecord → Option SecretRecord → State → Result StateError (SecretRecord × State)
delete_found scope none state =
    err (secret_unknown scope.1.name scope.1.service_name scope.1.environment)
delete_found scope (some existing) state =
    ok (existing, record state { secrets = remove scope.0 state.secrets })

module _ (paths : Paths) where
  -- The key and the record without its material.
  unfoldable pub build_secret_record_scope :
      (root environment service name : Text) → Result StateError (Text × SecretRecord)
  unfolding default_environment_name
  build_secret_record_scope root environment service name = do
    workspace ← canonical_workspace_key paths root
    let env = default_environment_name environment
    reject_if (is_empty (trim service)) service_name_required
    reject_if (is_empty (trim name)) secret_name_required
    ok (
      secret_key workspace env (trim service) (trim name),
      record {
        workspace_root = or_default (trim root) workspace;
        workspace_key = workspace;
        environment = env;
        service_name = trim service;
        name = trim name;
        store = [];
        value = [];
        reference = [];
        updated_at = [];
      },
    )

  unfoldable pub build_secret_record :
      (root environment service name : Text)
      → SecretMaterial
      → Result StateError (Text × SecretRecord)
  unfolding build_secret_record_scope normalize_secret_store validate_secret_material
  build_secret_record root environment service name material = do
    scope ← build_secret_record_scope root environment service name
    store ← normalize_secret_store material.store
    reference ← validate_secret_material store material.value material.reference
    ok (
      scope.0,
      record scope.1 {
        store = store;
        reference = reference;
        value = if store == plaintext then material.value else [];
      },
    )

  -- `now` is the time in RFC 3339.
  unfoldable pub set_secret :
      (now : Text)
      → (root environment service name : Text) → SecretMaterial
      → State
      → Result StateError (SecretRecord × State)
  unfolding build_secret_record
  set_secret now root environment service name material state =
      build_secret_record root environment service name material >>= λ built.
      let new = record built.1 { updated_at = now } in
      ok (new, record state { secrets = insert built.0 new state.secrets })

  unfoldable pub delete_secret :
      (root environment service name : Text) → State → Result StateError (SecretRecord × State)
  unfolding build_secret_record_scope delete_found
  delete_secret root environment service name state =
      build_secret_record_scope root environment service name >>= λ scope.
      delete_found scope (lookup scope.0 state.secrets) state

  -- State.SecretRecords
  unfoldable pub secret_records :
      State → (root environment : Text) → Result StateError (List SecretRecord)
  unfolding secret_less default_environment_name
  secret_records state root environment = canonical_workspace_key paths root >>= λ workspace. ok (
      sort_by secret_less (
        keep (is_of workspace (default_environment_name environment))
          (map (λ entry. entry.1) state.secrets)))

  -- State.ListSecrets; without a service those of all.
  unfoldable pub list_secrets :
      State → (root environment service : Text) → Result StateError (List SecretRecord)
  unfolding secret_less default_environment_name
  list_secrets state root environment service = canonical_workspace_key paths root >>= λ workspace.
      ok (
        sort_by secret_less (
          map without_value (
            keep (is_wanted workspace (default_environment_name environment) (trim service))
              (map (λ entry. entry.1) state.secrets))))

  unfoldable pub scoped_secret_values :
      State → (root environment : Text) → Result StateError ScopedSecrets
  unfolding secret_records collect_values
  scoped_secret_values state root environment =
      secret_records state root environment >>= λ records. ok (collect_values [] records)
