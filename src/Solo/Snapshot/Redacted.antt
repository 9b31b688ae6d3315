-- ===== src/Solo/Snapshot/Redacted.antt =====
-- cli/internal/solo/state.go: a redacted snapshot does not depend on the secrets.
use devopsellence.Base.{
  true, false, ◌≡◌, refl, sym, ◌∙◌, ap, subst, Option, none, some, Option-cases, List, [], ◌∷◌, map,
  All, Text, ◌==◌, contains, Dict, lookup, insert, remove, merge, Result, ok, err, bind-ok, arith,
  Bool-cases, inl, inr,
}
use devopsellence.Base.TextLaws.{eq_iff, eq_refl, eq_sound}
use devopsellence.Config.Types.{ServiceConfig, SecretRef, TaskConfig, ProjectConfig}
use devopsellence.Config.Defaults.{service_names}
use devopsellence.Plan.Types.{ServiceJson, TaskJson, DeploySnapshot}
use devopsellence.Plan.Build.{
  BuildError, service_secrets_missing, task_secrets_missing, within, put_secret, put_secrets,
  unless_missing, merge_env, rendered_service, rendered_task, build_service, build_task_of,
  build_release_task,
}
use devopsellence.Solo.Keys.{Paths, canonical_workspace_key}
use devopsellence.Solo.Snapshot.{
  or_state_error, or_build_error, SnapshotInput, secret_ref_names, Gathered, with_refs,
  gather_service, gather_services, gather_task, assembled_snapshot, build_deploy_snapshot,
  delete_names, redacted_env, refs_found, redacted_service, redacted_task,
  redact_deploy_snapshot_secrets,
}

remove-insert_same :
    (name value : Text) (env : Dict Text) → remove name (insert name value env) ≡ remove name env
unfolding remove insert
remove-insert_same name value [] = ground (arith, eq_refl name)
remove-insert_same name value ((k, v) ∷ env) = ground (arith, remove-insert_same name value env)

remove-insert_other :
    (other name value : Text) (env : Dict Text)
    → (name == other) ≡ false
    → remove other (insert name value env) ≡ insert name value (remove other env)
unfolding remove insert
remove-insert_other other name value [] h = ground arith
remove-insert_other other name value ((k, v) ∷ env) h = ground (
  arith,
  remove-insert_other other name value env,
  eq_iff k name,
  eq_iff k other,
  eq_iff name other,
)

delete_names-insert :
    (names : List Text) (name value : Text) (env : Dict Text)
    → contains names name ≡ true
    → delete_names names (insert name value env) ≡ delete_names names env
unfolding delete_names contains
delete_names-insert [] name value env c = absurd (ground arith)
delete_names-insert (n ∷ ns) name value env c = elim (Bool-cases (name == n)) [
  | inl e ↦ ap (delete_names ns) (
      subst (λ m. remove m (insert name value env) ≡ remove m env) (eq_sound name n e)
        (remove-insert_same name value env))
  | inr e ↦
      ap (delete_names ns) (remove-insert_other n name value env e)
      ∙ delete_names-insert ns name value (remove n env)
          (ground (arith, eq_iff n name, eq_iff name n))
]

-- The names of all the references are among the names.
abbrev AreNamed : List Text → List SecretRef → Type 0
AreNamed names refs = All (λ r. contains names r.name ≡ true) refs

delete_names-put_secrets :
    (names : List Text) (secrets env : Dict Text) (refs : List SecretRef)
    → AreNamed names refs
    → delete_names names (put_secrets secrets env refs).0 ≡ delete_names names env
unfolding put_secrets put_secret
delete_names-put_secrets names secrets env [] a = refl
delete_names-put_secrets names secrets env (r ∷ rs) a =
    elim (Option-cases (lookup r.name secrets)) [
      | inl e ↦ rw e (delete_names-put_secrets names secrets env rs a.1)
      | inr (v, e) ↦ rw e (
          delete_names-put_secrets names secrets (insert r.name v env) rs a.1
          ∙ delete_names-insert names r.name v env a.0)
    ]

unless_missing-ok :
    (r : Dict Text × List Text) (merged : Dict Text) → unless_missing r ≡ ok merged → r.0 ≡ merged
unfolding unless_missing
unless_missing-ok (env, []) merged h = ap (λ r. elim r [ ok x ↦ x | err e ↦ env ]) h
unless_missing-ok (env, m ∷ ms) merged h = absurd (ground arith)

delete_names-nothing : (names : List Text) → delete_names names [] ≡ []
unfolding delete_names remove
delete_names-nothing [] = refl
delete_names-nothing (n ∷ ns) = delete_names-nothing ns

redacted_env_lem :
    (env : Dict Text) (names : List Text) → redacted_env env names ≡ delete_names names env
unfolding redacted_env
redacted_env_lem [] names = sym (delete_names-nothing names)
redacted_env_lem (e ∷ env) names = refl

-- What is merged for some references is redacted to what is plain.
redacted-merge_env :
    (names : List Text) (env : Dict Text) (refs : List SecretRef) (secrets merged : Dict Text)
    → AreNamed names refs
    → merge_env env refs secrets ≡ ok merged
    → redacted_env merged names ≡ delete_names names (merge [] env)
unfolding merge_env
redacted-merge_env names env refs secrets merged a h =
    redacted_env_lem merged names
    ∙ (sym (
          ap (delete_names names)
            (unless_missing-ok (put_secrets secrets (merge [] env) refs) merged h))
        ∙ delete_names-put_secrets names secrets (merge [] env) refs a)

AreNamed-more :
    (names : List Text) (refs : List SecretRef) (name : Text)
    → AreNamed names refs
    → AreNamed (name ∷ names) refs
unfolding contains
AreNamed-more names [] name a = tt
AreNamed-more names (r ∷ rs) name a = (ground (arith, a.0), AreNamed-more names rs name a.1)

AreNamed-own : (refs : List SecretRef) → AreNamed (map (λ r. r.name) refs) refs
unfolding contains
AreNamed-own [] = tt
AreNamed-own (r ∷ rs) = (
  ground (arith, eq_refl r.name),
  AreNamed-more (map (λ x. x.name) rs) rs r.name (AreNamed-own rs),
)

ok-value {ℓ κ} : {E : Type κ} {A : Type ℓ} {a b : A} → ◌≡◌ {A = Result E A} (ok a) (ok b) → a ≡ b
ok-value {a = a} h = ap (λ r. elim r [ ok x ↦ x | err e ↦ a ]) h

within-ok {ℓ} :
    {A : Type ℓ} (f : List Text → BuildError) (r : Result (List Text) A) (a : A)
    → within f r ≡ ok a
    → r ≡ ok a
within-ok f (ok x) a h = ap ok (ok-value h)
within-ok f (err e) a h = absurd (ground arith)

-- The service without its secrets.
abbrev pub plain_service : Text → ServiceConfig → Text → ServiceJson
unfolding rendered_service delete_names merge
plain_service name service tag =
    rendered_service name service tag
      (delete_names (map (λ ref. ref.name) service.secret_refs) (merge [] service.env))

module _ (cfg : ProjectConfig) (tag : Text) (secrets_for_service : Text → Dict Text) where
  redacted-build_service :
      (name : Text) (service : ServiceConfig) (rendered : ServiceJson)
      → lookup name cfg.services ≡ some service
      → build_service name service tag (secrets_for_service name) ≡ ok rendered
      → redacted_service cfg rendered ≡ plain_service name service tag
  unfolding build_service redacted_service plain_service rendered_service
  redacted-build_service name service rendered found h =
      let secrets = secrets_for_service name in
      let names = map (λ ref. ref.name) service.secret_refs in
      let (env, (m, r)) =
        bind-ok
          (within (service_secrets_missing name)
            (merge_env service.env service.secret_refs secrets))
          _ rendered h in
      let merged =
        within-ok (service_secrets_missing name) (merge_env service.env service.secret_refs secrets)
          env m in
      ap (redacted_service cfg) (sym (ok-value r))
      ∙ (ap (λ o. rendered_service name service tag (redacted_env env (refs_found o))) found
          ∙ ap (rendered_service name service tag) (
              redacted-merge_env names service.env service.secret_refs secrets env
                (AreNamed-own service.secret_refs) merged))

abbrev gathered_more : Text → List Text → ServiceJson → Gathered → Gathered
unfolding with_refs
gathered_more name refs service later = record {
  services = service ∷ later.services;
  secret_refs = with_refs name refs later.secret_refs;
}

abbrev plain_listed : Text → Text → Option ServiceConfig → Gathered → Gathered
unfolding plain_service with_refs secret_ref_names
plain_listed tag name none rest = rest
plain_listed tag name (some service) rest = record {
  services = plain_service name service tag ∷ rest.services;
  secret_refs = with_refs name (secret_ref_names service.secret_refs) rest.secret_refs;
}

-- What is gathered, without the secrets: no secret is an argument.
abbrev plain_gathered : ProjectConfig → Text → List Text → Gathered
unfolding plain_listed
plain_gathered cfg tag [] = record { services = []; secret_refs = [] }
plain_gathered cfg tag (name ∷ names) =
    plain_listed tag name (lookup name cfg.services) (plain_gathered cfg tag names)

abbrev redacted_gathered : ProjectConfig → Gathered → Gathered
redacted_gathered cfg g = record {
  services = map (redacted_service cfg) g.services;
  secret_refs = g.secret_refs;
}

abbrev plain_task_of : ProjectConfig → Text → TaskConfig → Option ServiceConfig → Option TaskJson
unfolding rendered_task delete_names merge
plain_task_of cfg tag release none = none
plain_task_of cfg tag release (some service) = some (
    rendered_task service release tag (
      delete_names (map (λ ref. ref.name) service.secret_refs)
        (merge [] (merge (merge [] service.env) release.env))))

abbrev plain_task : ProjectConfig → Text → Option TaskConfig → Option TaskJson
unfolding plain_task_of
plain_task cfg tag none = none
plain_task cfg tag (some release) =
    plain_task_of cfg tag release (lookup release.service cfg.services)

module _ (cfg : ProjectConfig) (tag : Text) (secrets_for_service : Text → Dict Text) where
  redacted-gather_service :
      (name : Text) (found : Option ServiceConfig) (rest : Result BuildError Gathered)
      (plain g : Gathered)
      → lookup name cfg.services ≡ found
      → ((later : Gathered) → rest ≡ ok later → redacted_gathered cfg later ≡ plain)
      → gather_service cfg tag secrets_for_service name found rest ≡ ok g
      → redacted_gathered cfg g ≡ plain_listed tag name found plain
  unfolding gather_service plain_listed gathered_more
  redacted-gather_service name none rest plain g found ih h = ih g h
  redacted-gather_service name (some service) rest plain g found ih h =
      let (rendered, (b, h1)) =
        bind-ok (build_service name service tag (secrets_for_service name)) _ g h in
      let (later, (r, h2)) = bind-ok rest _ g h1 in
      let refs = secret_ref_names service.secret_refs in
      ap (redacted_gathered cfg) (sym (ok-value h2))
      ∙ (ap (λ s. gathered_more name refs s (redacted_gathered cfg later))
            (redacted-build_service cfg tag secrets_for_service name service rendered found b)
          ∙ ap (λ l. gathered_more name refs (plain_service name service tag) l) (ih later r))

  redacted-gather_services :
      (names : List Text) (g : Gathered)
      → gather_services cfg tag secrets_for_service names ≡ ok g
      → redacted_gathered cfg g ≡ plain_gathered cfg tag names
  unfolding gather_services plain_gathered
  redacted-gather_services [] g h = ap (redacted_gathered cfg) (sym (ok-value h))
  redacted-gather_services (name ∷ names) g h =
      redacted-gather_service name (lookup name cfg.services)
        (gather_services cfg tag secrets_for_service names) (plain_gathered cfg tag names) g refl
        (redacted-gather_services names) h

  redacted-build_task :
      (release : TaskConfig) (found : Option ServiceConfig) (task : TaskJson)
      → lookup release.service cfg.services ≡ found
      → build_task_of release tag (secrets_for_service release.service) found ≡ ok task
      → redacted_task cfg (some release) (some task) ≡ plain_task_of cfg tag release found
  unfolding build_task_of redacted_task plain_task_of rendered_task
  redacted-build_task release none task found h = absurd (ground arith)
  redacted-build_task release (some service) task found h =
      let secrets = secrets_for_service release.service in
      let base = merge (merge [] service.env) release.env in
      let (env, (m, r)) =
        bind-ok (within task_secrets_missing (merge_env base service.secret_refs secrets)) _ task
          h in
      let merged =
        within-ok task_secrets_missing (merge_env base service.secret_refs secrets) env m in
      ap (λ t. redacted_task cfg (some release) (some t)) (sym (ok-value r))
      ∙ (ap (λ o. some (rendered_task service release tag (redacted_env env (refs_found o)))) found
          ∙ ap (λ e. some (rendered_task service release tag e))
              (redacted-merge_env (map (λ ref. ref.name) service.secret_refs) base
                service.secret_refs secrets env (AreNamed-own service.secret_refs) merged))

  redacted-gather_task :
      (release : Option TaskConfig) (task : Option TaskJson)
      → gather_task cfg tag secrets_for_service release ≡ ok task
      → redacted_task cfg release task ≡ plain_task cfg tag release
  unfolding gather_task redacted_task plain_task build_release_task
  redacted-gather_task none task h = sym (ok-value h)
  redacted-gather_task (some release) task h =
      let (built, (b, r)) =
        bind-ok (build_release_task cfg.services release tag (secrets_for_service release.service))
          _ task h in
      ap (redacted_task cfg (some release)) (sym (ok-value r))
      ∙ redacted-build_task release (lookup release.service cfg.services) built refl b

or_build_error-ok {ℓ} :
    {A : Type ℓ} (r : Result BuildError A) (a : A) → or_build_error r ≡ ok a → r ≡ ok a
or_build_error-ok (ok x) a h = ap ok (ok-value h)
or_build_error-ok (err e) a h = absurd (ground arith)

-- The snapshot without the secrets.
abbrev plain_snapshot : SnapshotInput → Text → DeploySnapshot
unfolding plain_gathered plain_task assembled_snapshot
plain_snapshot input key =
    assembled_snapshot input key
      (plain_gathered input.config input.image_tag (service_names input.config))
      (plain_task input.config input.image_tag input.config.tasks.release)

redacted-plain :
    (paths : Paths) (input : SnapshotInput) (secrets : Text → Dict Text) (s : DeploySnapshot)
    → build_deploy_snapshot paths input secrets ≡ ok s
    → (key : Text) × ((or_state_error (canonical_workspace_key paths input.workspace_root) ≡ ok key)
        × (redact_deploy_snapshot_secrets s input.config ≡ plain_snapshot input key))
unfolding build_deploy_snapshot redact_deploy_snapshot_secrets plain_snapshot assembled_snapshot
redacted-plain paths input secrets s h =
    let cfg = input.config in
    let tag = input.image_tag in
    let (key, (k, h1)) =
      bind-ok (or_state_error (canonical_workspace_key paths input.workspace_root)) _ s h in
    let (g, (gathered, h2)) =
      bind-ok (or_build_error (gather_services cfg tag secrets (service_names cfg))) _ s h1 in
    let (t, (task, h3)) =
      bind-ok (or_build_error (gather_task cfg tag secrets cfg.tasks.release)) _ s h2 in
    (
      key,
      (
        k,
        ap (λ x. redact_deploy_snapshot_secrets x cfg) (sym (ok-value h3))
            ∙ (ap (λ x. assembled_snapshot input key x (redacted_task cfg cfg.tasks.release t))
                  (redacted-gather_services cfg tag secrets (service_names cfg) g (
                    or_build_error-ok (gather_services cfg tag secrets (service_names cfg)) g
                      gathered))
                ∙ ap (assembled_snapshot input key (plain_gathered cfg tag (service_names cfg))) (
                    redacted-gather_task cfg tag secrets cfg.tasks.release t
                      (or_build_error-ok (gather_task cfg tag secrets cfg.tasks.release) t task))),
      ),
    )

-- A redacted snapshot holds nothing of the secrets' values: two snapshots of one configuration that
-- were built with different secrets are redacted to the same snapshot.
pub redact_deploy_snapshot_secrets_lem :
    (paths : Paths) (input : SnapshotInput) (secrets other : Text → Dict Text)
    (s s' : DeploySnapshot)
    → build_deploy_snapshot paths input secrets ≡ ok s
    → build_deploy_snapshot paths input other ≡ ok s'
    → redact_deploy_snapshot_secrets s input.config ≡ redact_deploy_snapshot_secrets s' input.config
redact_deploy_snapshot_secrets_lem paths input secrets other s s' h h' =
    let (key, (k, plain)) = redacted-plain paths input secrets s h in
    let (key', (k', plain')) = redacted-plain paths input other s' h' in
    plain ∙ (ap (plain_snapshot input) (ok-value (sym k ∙ k')) ∙ sym plain')
