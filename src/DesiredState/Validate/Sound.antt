-- ===== src/DesiredState/Validate/Sound.antt =====
-- agent/internal/desiredstate/validate.go: what a state has that `Validate` accepts.
use devopsellence.Base.{
  reject_if-ok, bind-ok, ℕ, suc, Bool, true, false, not, ◌&&◌, ◌≡◌, refl, sym, ap, ◌∙◌, Option,
  none, some, Option-cases, List, [], ◌∷◌, map, all, All, is_empty, Text, trim, contains,
  is_distinct, nat_eq, Dict, lookup, insert, has_key, has_key-insert, has_key-lookup, Result, ok,
  err, for_each, for_each-All, arith, inl, inr,
}
use devopsellence.Base.TextLaws.{eq_sym}
use devopsellence.Base.Filtering.{All-map}
use devopsellence.DesiredState.Types.{DesiredState, Environment, Service, VolumeMount, ServicePort}
use devopsellence.DesiredState.Names.{sanitize}
use devopsellence.DesiredState.Runtime.{present, current_schema_version}
use devopsellence.DesiredState.Validate.{
  ValidationError, revision_required, schema_version_unsupported, environment_name_required,
  environment_name_unsafe, environment_duplicate, environment_collides, service_invalid,
  service_duplicate, service_collides, Seen, none_seen, claim_name, in_service,
  validate_listed_service, validate_services, validate_listed_task, validate_environment,
  validate_environments, validate,
}
use devopsellence.DesiredState.Validate.Service.{
  ServiceError, name_required, name_unsafe, image_required, kind_unsupported, secret_key_empty,
  secret_empty, mount_source_required, mount_target_required, port_name_required, port_name_unsafe,
  validate_env_key, validate_secret_ref, is_absolute, validate_mount, validate_port, is_known_kind,
  validate_service,
}

-- No name of the list is a key.
abbrev fresh : Dict Text → List Text → Bool
fresh m names = all (λ n. not (has_key n m)) names

fresh-insert :
    (k v : Text) (m : Dict Text) (names : List Text)
    → fresh (insert k v m) names ≡ (not (contains names k) && fresh m names)
unfolding contains
fresh-insert k v m [] = refl
fresh-insert k v m (n ∷ ns) =
    ground (arith, fresh-insert k v m ns, has_key-insert k n v m, eq_sym k n)

claim_name-ok :
    (d : ValidationError) (c : Text → ValidationError) (seen seen' : Seen) (name : Text)
    → claim_name d c seen name ≡ ok seen'
    → (has_key (sanitize name) seen.sanitized ≡ false)
      × (seen'.sanitized ≡ insert (sanitize name) name seen.sanitized)
unfolding claim_name
claim_name-ok d c seen seen' name h =
    let h' = (reject_if-ok (has_key name seen.names) d _ seen' h).1 in
    elim (Option-cases (lookup (sanitize name) seen.sanitized)) [
      | inl e ↦ (
        has_key-lookup (sanitize name) seen.sanitized e,
        ap (λ r. elim r [ ok s ↦ s.sanitized | err x ↦ seen.sanitized ]) (sym (rw e at h')),
      )
      | inr (o, e) ↦ absurd (ground (arith, rw e at h'))
    ]

-- What the checks of one service promise: an image, mounts at absolute paths, no secret under the
-- name of a plain variable, and ports with a number.
pub record IsRunnable (s : Service) : Type 0 where
  pub named : is_empty (sanitize (trim s.name)) ≡ false
  pub has_image : is_empty s.image ≡ false
  pub secrets_apart : All (λ kv. has_key kv.0 s.env ≡ false) s.secret_refs
  pub mounts_absolute : All (λ m. is_absolute m.target ≡ true) s.volume_mounts
  pub ports_numbered : All (λ p. nat_eq p.port 0 ≡ false) (present s.ports)

secret_ref-apart :
    (env : Dict Text) (kv : Text × Text)
    → validate_secret_ref env kv ≡ ok tt
    → has_key kv.0 env ≡ false
unfolding validate_secret_ref
secret_ref-apart env (k, v) h =
    let h1 = (reject_if-ok (is_empty k) secret_key_empty _ tt h).1 in
    let h2 = (reject_if-ok (is_empty v) (secret_empty k) _ tt h1).1 in ground (arith, h2)

mount-absolute : (m : VolumeMount) → validate_mount m ≡ ok tt → is_absolute m.target ≡ true
unfolding validate_mount
mount-absolute m h =
    let h1 = (reject_if-ok (is_empty m.source) mount_source_required _ tt h).1 in
    let h2 = (reject_if-ok (is_empty m.target) mount_target_required _ tt h1).1 in
    ground (arith, h2)

port-numbered : (p : ServicePort) → validate_port p ≡ ok tt → nat_eq p.port 0 ≡ false
unfolding validate_port
port-numbered p h =
    let h1 = (reject_if-ok (is_empty (trim p.name)) port_name_required _ tt h).1 in
    let h2 =
      (reject_if-ok (is_empty (sanitize (trim p.name))) (port_name_unsafe (trim p.name)) _ tt
        h1).1 in
    ground (arith, h2)

checked-All {ℓ} :
    {A : Type ℓ} (P : A → Type 0) (f : A → Result ServiceError (Unit {0}))
    → ((a : A) → f a ≡ ok tt → P a)
    → (xs : List A) → for_each f xs ≡ ok tt
    → All P xs
checked-All P f g xs h = All-map (λ a. f a ≡ ok tt) P g xs (for_each-All f xs h)

validate_service-IsRunnable : (s : Service) → validate_service s ≡ ok tt → IsRunnable s
unfolding validate_service
validate_service-IsRunnable s h =
    let h1 = (reject_if-ok (is_empty (trim s.name)) name_required _ tt h).1 in
    let h2 = reject_if-ok (is_empty (sanitize (trim s.name))) name_unsafe _ tt h1 in
    let h3 = reject_if-ok (is_empty s.image) image_required _ tt h2.1 in
    let h4 =
      (reject_if-ok (not (is_known_kind (trim s.kind))) (kind_unsupported s.kind) _ tt h3.1).1 in
    let h5 = (bind-ok (for_each validate_env_key s.env) _ tt h4).1.1 in
    let h6 = bind-ok (for_each (validate_secret_ref s.env) s.secret_refs) _ tt h5 in
    let h7 = bind-ok (for_each validate_mount s.volume_mounts) _ tt h6.1.1 in
    let h8 = bind-ok (for_each validate_port (present s.ports)) _ tt h7.1.1 in
    record {
      named = h2.0;
      has_image = h3.0;
      secrets_apart =
          checked-All (λ kv. has_key kv.0 s.env ≡ false) (validate_secret_ref s.env)
            (secret_ref-apart s.env) s.secret_refs h6.1.0;
      mounts_absolute =
          checked-All (λ m. is_absolute m.target ≡ true) validate_mount mount-absolute
            s.volume_mounts h7.1.0;
      ports_numbered =
          checked-All (λ p. nat_eq p.port 0 ≡ false) validate_port port-numbered (present s.ports)
            h8.1.0;
    }

abbrev pub IsListedService : Option Service → Type 0
IsListedService none = ⊥
IsListedService (some s) = IsRunnable s

abbrev pub listed_name : Option Service → Text
listed_name none = []
listed_name (some s) = sanitize (trim s.name)

in_service-ok {ℓ} :
    {A : Type ℓ} (env name : Text) (r : Result ServiceError A) (a : A)
    → in_service env name r ≡ ok a
    → r ≡ ok a
unfolding in_service
in_service-ok env name (ok b) a h = ground (arith, h)
in_service-ok env name (err e) a h = absurd (ground (arith, h))

validate_listed_service-ok :
    (env : Text) (i : ℕ) (seen seen' : Seen) (s : Option Service)
    → validate_listed_service env i seen s ≡ ok seen'
    → IsListedService s
      × ((has_key (listed_name s) seen.sanitized ≡ false)
          × ((v : Text) × (seen'.sanitized ≡ insert (listed_name s) v seen.sanitized)))
unfolding validate_listed_service
validate_listed_service-ok env i seen seen' none h = absurd (ground (arith, h))
validate_listed_service-ok env i seen seen' (some s) h =
    let name = trim s.name in
    let h1 = bind-ok (in_service env name (validate_service s)) _ seen' h in
    let valid =
      validate_service-IsRunnable s (in_service-ok env name (validate_service s) tt h1.1.0) in
    let h2 =
      (reject_if-ok (is_empty (sanitize name)) (service_invalid env name name_unsafe) _ seen'
        h1.1.1).1 in
    let claimed =
      claim_name-ok (service_duplicate env name) (service_collides env name) seen seen' name h2 in
    (valid, (claimed.0, (name, claimed.1)))

validate_services-ok :
    (env : Text) (i : ℕ) (seen : Seen) (ss : List (Option Service))
    → validate_services env i seen ss ≡ ok tt
    → All IsListedService ss
      × ((is_distinct (map listed_name ss) ≡ true)
          × (fresh seen.sanitized (map listed_name ss) ≡ true))
unfolding validate_services is_distinct
validate_services-ok env i seen [] h = (tt, (refl, refl))
validate_services-ok env i seen (s ∷ ss) h =
    let first = bind-ok (validate_listed_service env i seen s) _ tt h in
    let seen' = first.0 in
    let here = validate_listed_service-ok env i seen seen' s first.1.0 in
    let later = validate_services-ok env (suc i) seen' ss first.1.1 in
    let grown = fresh-insert (listed_name s) here.1.1.0 seen.sanitized (map listed_name ss) in
    let kept = ap (λ m. fresh m (map listed_name ss)) here.1.1.1 in
    (
      (here.0, later.0),
      (
        ground (arith, here.1.0, later.1.0, later.1.1, grown, kept),
        ground (arith, here.1.0, later.1.0, later.1.1, grown, kept),
      ),
    )

-- An environment whose services are all runnable and have pairwise different sanitized names.
abbrev pub IsSoundEnvironment : Option Environment → Type 0
IsSoundEnvironment none = ⊥
IsSoundEnvironment (some env) =
    All IsListedService env.services × (is_distinct (map listed_name env.services) ≡ true)

abbrev pub environment_key : Option Environment → Text
environment_key none = []
environment_key (some env) = sanitize (trim env.name)

validate_environment-ok :
    (i : ℕ) (seen seen' : Seen) (e : Option Environment)
    → validate_environment i seen e ≡ ok seen'
    → IsSoundEnvironment e
      × ((has_key (environment_key e) seen.sanitized ≡ false)
          × ((v : Text) × (seen'.sanitized ≡ insert (environment_key e) v seen.sanitized)))
unfolding validate_environment
validate_environment-ok i seen seen' none h = absurd (ground (arith, h))
validate_environment-ok i seen seen' (some env) h =
    let name = trim env.name in
    let h1 = (reject_if-ok (is_empty name) (environment_name_required i) _ seen' h).1 in
    let h2 =
      (reject_if-ok (is_empty (sanitize name)) (environment_name_unsafe name) _ seen' h1).1 in
    let h3 =
      bind-ok (claim_name (environment_duplicate name) (environment_collides name) seen name) _
        seen' h2 in
    let h4 = bind-ok (validate_services name 0 none_seen env.services) _ seen' h3.1.1 in
    let h5 = bind-ok (for_each (validate_listed_task name) env.tasks) _ seen' h4.1.1 in
    let same : h3.0 ≡ seen' = ground (arith, h5.1.1) in
    let claimed =
      claim_name-ok (environment_duplicate name) (environment_collides name) seen seen' name
        (h3.1.0 ∙ ap ok same) in
    let services = validate_services-ok name 0 none_seen env.services h4.1.0 in
    ((services.0, services.1.0), (claimed.0, (name, claimed.1)))

validate_environments-ok :
    (i : ℕ) (seen : Seen) (es : List (Option Environment))
    → validate_environments i seen es ≡ ok tt
    → All IsSoundEnvironment es
      × ((is_distinct (map environment_key es) ≡ true)
          × (fresh seen.sanitized (map environment_key es) ≡ true))
unfolding validate_environments is_distinct
validate_environments-ok i seen [] h = (tt, (refl, refl))
validate_environments-ok i seen (e ∷ es) h =
    let first = bind-ok (validate_environment i seen e) _ tt h in
    let seen' = first.0 in
    let here = validate_environment-ok i seen seen' e first.1.0 in
    let later = validate_environments-ok (suc i) seen' es first.1.1 in
    let grown =
      fresh-insert (environment_key e) here.1.1.0 seen.sanitized (map environment_key es) in
    let kept = ap (λ m. fresh m (map environment_key es)) here.1.1.1 in
    (
      (here.0, later.0),
      (
        ground (arith, here.1.0, later.1.0, later.1.1, grown, kept),
        ground (arith, here.1.0, later.1.0, later.1.1, grown, kept),
      ),
    )

-- A state that Validate accepts has the current schema version and a revision. Its environments
-- are all present and have pairwise different sanitized names. So have the services of each of
-- them, and every service is runnable: it has a name that stays, an image, mounts at absolute
-- paths, ports with a number, and no secret under the name of a plain variable.
pub validate_sound :
    (state : DesiredState)
    → validate state ≡ ok tt
    → (nat_eq state.schema_version current_schema_version ≡ true)
      × ((is_empty state.revision ≡ false)
          × (All IsSoundEnvironment state.environments
              × (is_distinct (map environment_key state.environments) ≡ true)))
unfolding validate
validate_sound state h =
    let h1 = reject_if-ok (is_empty state.revision) revision_required _ tt h in
    let h2 =
      reject_if-ok (not (nat_eq state.schema_version current_schema_version))
        schema_version_unsupported _ tt h1.1 in
    let h3 = bind-ok (validate_environments 0 none_seen state.environments) _ tt h2.1 in
    let environments = validate_environments-ok 0 none_seen state.environments h3.1.0 in
    (ground (arith, h2.0), (h1.0, (environments.0, environments.1.0)))
