-- ===== src/Solo/Secrets/Kept.antt =====
-- cli/internal/solo/secrets.go: a secret that was set, deleted again.
use devopsellence.Base.{
  subst, refl, trim, is_empty, reject_if-rest, [], ◌≡◌, sym, ◌∙◌, ap, Text, Dict, lookup, insert,
  lookup_inserted, remove, Result, ok, err, ◌>>=◌, bind-ok, arith, ◌∷◌,
}
use devopsellence.Base.TextLaws.{eq_refl}
use devopsellence.Plan.Schedule.{default_environment_name}
use devopsellence.Solo.Types.{
  service_name_required, secret_name_required, State, StateError, SecretRecord, SecretMaterial,
}
use devopsellence.Solo.Keys.{Paths, canonical_workspace_key, joined_key, secret_key}
use devopsellence.Solo.Secrets.{
  normalize_secret_store, validate_secret_material, build_secret_record_scope, build_secret_record,
  set_secret, delete_found, delete_secret,
}

ok-value {ℓ} : {A : Type ℓ} {a b : A} → ◌≡◌ {A = Result StateError A} (ok a) (ok b) → a ≡ b
ok-value {a = a} h = ap (λ r. elim r [ ok x ↦ x | err e ↦ a ]) h

remove-insert {ℓ} :
    {V : Type ℓ} (key : Text) (value : V) (entries : Dict V)
    → remove key (insert key value entries) ≡ remove key entries
unfolding remove insert
remove-insert key value [] = ground (arith, eq_refl key)
remove-insert key value ((k, v) ∷ rest) = ground (arith, remove-insert key value rest)

-- The key and the record are those of the workspace, the environment, the service and the name: the
-- key is made of all four.
pub record IsScope (paths : Paths) (root environment service name key : Text) (r : SecretRecord)
    : Type 0 where
  pub workspace : canonical_workspace_key paths root ≡ ok r.workspace_key
  pub of_environment : r.environment ≡ default_environment_name environment
  pub of_service : r.service_name ≡ trim service
  pub of_name : r.name ≡ trim name
  pub keyed :
      key
      ≡ joined_key (trim r.workspace_key) (
          joined_key
            (default_environment_name r.environment)
            (joined_key (trim r.service_name) (trim r.name)))

build_secret_record_scope-IsScope :
    (paths : Paths) (root environment service name : Text) (scope : Text × SecretRecord)
    → build_secret_record_scope paths root environment service name ≡ ok scope
    → IsScope paths root environment service name scope.0 scope.1
unfolding build_secret_record_scope secret_key
build_secret_record_scope-IsScope paths root environment service name scope h =
    let (workspace, (canonical, h1)) = bind-ok (canonical_workspace_key paths root) _ scope h in
    let h2 =
      reject_if-rest (is_empty (trim name)) secret_name_required _ scope
        (reject_if-rest (is_empty (trim service)) service_name_required _ scope h1) in
    subst (λ (s : Text × SecretRecord). IsScope paths root environment service name s.0 s.1)
      (ok-value h2)
      (record {
        workspace = canonical;
        of_environment = refl;
        of_service = refl;
        of_name = refl;
        keyed = refl;
      })

-- What was built is for the scope, with its material.
build_secret_record-IsScope :
    (paths : Paths) (root environment service name : Text) (material : SecretMaterial)
    (built : Text × SecretRecord)
    → build_secret_record paths root environment service name material ≡ ok built
    → (scope : Text × SecretRecord) × ((build_secret_record_scope paths root environment service
            name
          ≡ ok scope)
        × ((scope.0 ≡ built.0) × IsScope paths root environment service name built.0 built.1))
unfolding build_secret_record
build_secret_record-IsScope paths root environment service name material built h =
    let (scope, (s, h1)) =
      bind-ok (build_secret_record_scope paths root environment service name) _ built h in
    let (store, (n, h2)) = bind-ok (normalize_secret_store material.store) _ built h1 in
    let (reference, (r, h3)) =
      bind-ok (validate_secret_material store material.value material.reference) _ built h2 in
    let scoped = build_secret_record_scope-IsScope paths root environment service name scope s in
    (
      scope,
      (
        s,
        (
          ap (λ b. b.0) (ok-value h3),
          subst (λ (b : Text × SecretRecord). IsScope paths root environment service name b.0 b.1)
              (ok-value h3)
              (record {
                workspace = scoped.workspace;
                of_environment = scoped.of_environment;
                of_service = scoped.of_service;
                of_name = scoped.of_name;
                keyed = scoped.keyed;
              }),
        ),
      ),
    )

-- What DeleteSecret returns for a scope of which the state has the record.
deleted :
    (paths : Paths) (root environment service name : Text) (scope : Text × SecretRecord)
    (new : SecretRecord) (state : State)
    → build_secret_record_scope paths root environment service name ≡ ok scope
    → delete_secret paths root environment service name
        (record state { secrets = insert scope.0 new state.secrets })
      ≡ ok (new, record state { secrets = remove scope.0 state.secrets })
unfolding delete_secret delete_found
deleted paths root environment service name scope new state e =
    let secrets = insert scope.0 new state.secrets in
    ap (λ r. r >>= λ s. delete_found s (lookup s.0 secrets) (record state { secrets = secrets })) e
    ∙ (ap (λ o. delete_found scope o (record state { secrets = secrets }))
          (lookup_inserted scope.0 new state.secrets)
        ∙ ap (λ m. ok (new, record state { secrets = m }))
            (remove-insert scope.0 new state.secrets))

-- DeleteSecret undoes SetSecret: after a secret was set, deleting it by the same workspace, environment,
-- service and name gives the record that was stored, and a state that is the one before without the
-- secret under one key. That record is of the workspace's canonical key, the environment and the
-- trimmed service and name, and the key is made of these four.
pub set_secret-delete_secret :
    (paths : Paths) (now root environment service name : Text) (material : SecretMaterial)
    (state state' : State) (stored : SecretRecord)
    → set_secret paths now root environment service name material state ≡ ok (stored, state')
    → (key : Text) × (IsScope paths root environment service name key stored
        × (delete_secret paths root environment service name state'
            ≡ ok (stored, record state { secrets = remove key state.secrets })))
unfolding set_secret
set_secret-delete_secret paths now root environment service name material state state' stored h =
    let (built, (b, h1)) =
      bind-ok (build_secret_record paths root environment service name material) _ (stored, state')
        h in
    let (scope, (s, (same, scoped))) =
      build_secret_record-IsScope paths root environment service name material built b in
    let new = record built.1 { updated_at = now } in
    let scoped_new : IsScope paths root environment service name scope.0 new = record {
      workspace = scoped.workspace;
      of_environment = scoped.of_environment;
      of_service = scoped.of_service;
      of_name = scoped.of_name;
      keyed = same ∙ scoped.keyed;
    } in
    (
      scope.0,
      (
        subst (IsScope paths root environment service name scope.0) (ap (λ p. p.0) (ok-value h1))
            scoped_new,
        ap (delete_secret paths root environment service name) (sym (ap (λ p. p.1) (ok-value h1)))
            ∙ (ap
                  (λ k.
                    delete_secret paths root environment service name
                      (record state { secrets = insert k new state.secrets }))
                  (sym same)
                ∙ (deleted paths root environment service name scope new state s
                    ∙ ap (λ r. ok (r, record state { secrets = remove scope.0 state.secrets }))
                        (ap (λ p. p.0) (ok-value h1)))),
      ),
    )
