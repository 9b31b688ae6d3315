-- ===== src/Plan/Build/Complete.antt =====
-- deployment-core/pkg/deploycore/desiredstate/desiredstate.go: when a node's document can be built.
use devopsellence.Base.{
  Bool, true, false, not, ◌&&◌, ◌||◌, ◌≡◌, refl, ◌∙◌, ap, Option, none, some, List, [], ◌∷◌, all,
  Text, is_empty, Dict, lookup, merge, Result, ok, err, ◌>>=◌, arith, Bool-cases, inl, inr,
  if◌then◌else◌,
}
use devopsellence.Config.Types.{ServiceConfig, TaskConfig, SecretRef}
use devopsellence.Config.Defaults.{inferred_service_kind, service_names}
use devopsellence.Plan.Types.{ServiceJson}
use devopsellence.Plan.Schedule.{should_schedule_service}
use devopsellence.Plan.Build.{
  BuildError, service_secrets_missing, task_secrets_missing, rendered_task, within, merge_env,
  build_service, rendered_service, schedules_service, NodeInput, build_listed_service,
  build_services, planned_tasks, build_task_of, schedules_found, build_release_task, node_document,
  unless_missing, put_secrets,
}
use devopsellence.Plan.Build.Env.{missing_secrets, put_secrets-missing}

abbrev pub is_ok {ℓ κ} : {E : Type κ} {A : Type ℓ} → Result E A → Bool
is_ok (ok a) = true
is_ok (err e) = false

is_ok-unless_missing : (r : Dict Text × List Text) → is_ok (unless_missing r) ≡ is_empty r.1
unfolding unless_missing
is_ok-unless_missing (merged, []) = refl
is_ok-unless_missing (merged, name ∷ names) = refl

is_ok-merge_env :
    (env : Dict Text) (refs : List SecretRef) (secrets : Dict Text)
    → is_ok (merge_env env refs secrets) ≡ is_empty (missing_secrets refs secrets)
unfolding merge_env
is_ok-merge_env env refs secrets =
    is_ok-unless_missing (put_secrets secrets (merge [] env) refs)
    ∙ ap is_empty (put_secrets-missing secrets (merge [] env) refs)

is_ok-within {ℓ} :
    {A B : Type ℓ} (f : List Text → BuildError) (g : A → B) (r : Result (List Text) A)
    → is_ok (within f r >>= λ a. ok (g a)) ≡ is_ok r
is_ok-within f g (ok a) = refl
is_ok-within f g (err e) = refl

is_ok-cons {ℓ} :
    {A : Type ℓ} (first : Result BuildError A) (rest : Result BuildError (List A))
    → is_ok (first >>= λ a. rest >>= λ later. ok (a ∷ later)) ≡ (is_ok first && is_ok rest)
is_ok-cons (ok a) (ok later) = refl
is_ok-cons (ok a) (err e) = refl
is_ok-cons (err e) rest = refl

is_ok-twice {ℓ} :
    {A B : Type ℓ} (f : List Text → BuildError) (g : A → B) (r : Result (List Text) A)
    → is_ok ((within f r >>= λ a. ok (g a)) >>= λ b. ok (b ∷ [])) ≡ is_ok r
is_ok-twice f g (ok a) = refl
is_ok-twice f g (err e) = refl

-- The service is not for this node, or has the secrets that it names.
abbrev pub has_its_secrets : NodeInput → Text → Option ServiceConfig → Bool
has_its_secrets input name none = true
has_its_secrets input name (some service) =
    not (should_schedule_service input.labels (inferred_service_kind name service))
    || is_empty (missing_secrets service.secret_refs (input.secrets_for_service name))

-- The task does not run here, or its service has the secrets that it names.
abbrev pub task_has_secrets : NodeInput → TaskConfig → Option ServiceConfig → Bool
task_has_secrets input release none = true
task_has_secrets input release (some service) =
    not (
      input.include_release_task
      && should_schedule_service input.labels (inferred_service_kind release.service service))
    || is_empty (missing_secrets service.secret_refs (input.secrets_for_service release.service))

abbrev pub tasks_have_secrets : NodeInput → Option TaskConfig → Bool
tasks_have_secrets input none = true
tasks_have_secrets input (some release) =
    task_has_secrets input release (lookup release.service input.config.services)

is_ok-listed :
    (input : NodeInput) (name : Text) (found : Option ServiceConfig)
    (rest : Result BuildError (List ServiceJson))
    → is_ok (build_listed_service input name found rest)
      ≡ (has_its_secrets input name found && is_ok rest)
unfolding build_listed_service build_service
is_ok-listed input name none rest = refl
is_ok-listed input name (some service) rest =
    let secrets = input.secrets_for_service name in
    elim (Bool-cases (should_schedule_service input.labels (inferred_service_kind name service))) [
      | inl e ↦ rw e (
          is_ok-cons (build_service name service input.image_tag secrets) rest
          ∙ ap (λ b. b && is_ok rest)
              (is_ok-within (service_secrets_missing name)
                  (rendered_service name service input.image_tag)
                  (merge_env service.env service.secret_refs secrets)
                ∙ is_ok-merge_env service.env service.secret_refs secrets))
      | inr e ↦ rw e refl
    ]

is_ok-build_services :
    (input : NodeInput) (names : List Text)
    → is_ok (build_services input names)
      ≡ all (λ name. has_its_secrets input name (lookup name input.config.services)) names
unfolding build_services
is_ok-build_services input [] = refl
is_ok-build_services input (name ∷ names) =
    let found = lookup name input.config.services in
    is_ok-listed input name found (build_services input names)
    ∙ ap (λ b. has_its_secrets input name found && b) (is_ok-build_services input names)

is_ok-task :
    (input : NodeInput) (release : TaskConfig) (found : Option ServiceConfig)
    → is_ok (
        if input.include_release_task && schedules_found input.labels release.service found
        then (build_task_of release input.image_tag
              (input.secrets_for_service release.service)
              found
            >>= λ task. ok (task ∷ []))
        else ok [])
      ≡ task_has_secrets input release found
unfolding build_task_of
is_ok-task input release none = ground arith
is_ok-task input release (some service) =
    let secrets = input.secrets_for_service release.service in
    let runs =
      input.include_release_task
      && should_schedule_service input.labels (inferred_service_kind release.service service) in
    elim (Bool-cases runs) [
      | inl e ↦ rw e (
          is_ok-twice task_secrets_missing (rendered_task service release input.image_tag)
            (merge_env (merge (merge [] service.env) release.env) service.secret_refs secrets)
          ∙ is_ok-merge_env (merge (merge [] service.env) release.env) service.secret_refs secrets)
      | inr e ↦ rw e refl
    ]

is_ok-planned_tasks :
    (input : NodeInput) (task : Option TaskConfig)
    → is_ok (planned_tasks input task) ≡ tasks_have_secrets input task
unfolding planned_tasks schedules_service build_release_task
is_ok-planned_tasks input none = refl
is_ok-planned_tasks input (some release) =
    is_ok-task input release (lookup release.service input.config.services)

is_ok-document {ℓ} :
    {A B C : Type ℓ} (first : Result BuildError A) (second : Result BuildError B) (f : A → B → C)
    → is_ok (first >>= λ a. second >>= λ b. ok (f a b)) ≡ (is_ok first && is_ok second)
is_ok-document (ok a) (ok b) f = refl
is_ok-document (ok a) (err e) f = refl
is_ok-document (err e) second f = refl

-- A node's document is built exactly if every service that the node runs has all the secrets that
-- it names, and so does the service of the release task where the task runs on the node. Nothing
-- else makes it fail.
pub is_ok-node_document :
    (input : NodeInput)
    → is_ok (node_document input) ≡ (
        all
          (λ name. has_its_secrets input name (lookup name input.config.services))
          (service_names input.config)
        && tasks_have_secrets input input.config.tasks.release)
unfolding node_document
is_ok-node_document input =
    let services = build_services input (service_names input.config) in
    let tasks = planned_tasks input input.config.tasks.release in
    is_ok-document services tasks _
    ∙ (ap (λ b. b && is_ok tasks) (is_ok-build_services input (service_names input.config))
        ∙ ap
            (λ b.
              all (λ name. has_its_secrets input name (lookup name input.config.services))
                (service_names input.config)
              && b)
            (is_ok-planned_tasks input input.config.tasks.release))
