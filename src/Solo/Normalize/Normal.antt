-- ===== src/Solo/Normalize/Normal.antt =====
-- cli/internal/solo/state.go: what a state has that normalizeState returns.
use devopsellence.Base.{
  Bool, true, false, not, ◌&&◌, ◌||◌, ◌≡◌, refl, sym, ap, subst, Option, none, some, List, [], ◌∷◌,
  All, Text, ◌==◌, codes, trim, is_empty, is_positive, has_prefix, map, Dict, lookup, insert,
  has_key, Result, ok, err, bind-ok, reject_if-ok, arith, Bool-cases, inl, inr,
}
use devopsellence.Base.TextLaws.{eq_sound}
use devopsellence.Plan.Types.{NodeConfig}
use devopsellence.Plan.Schedule.{ascii_lower}
use devopsellence.Release.Types.{Release, Times}
use devopsellence.Release.Create.{is_supported_kind}
use devopsellence.Solo.Types.{
  SecretRecord, StoredDeployment, State, StateError, release_id_missing,
  release_environment_missing, release_revision_missing, release_duplicate,
  current_release_elsewhere, deployment_id_missing, deployment_environment_missing,
  deployment_release_missing, deployment_kind_unsupported, deployment_status_unsupported,
  deployment_duplicate, service_name_required, secret_name_required, node_name_required,
  node_host_required, node_user_required, node_port_invalid, secret_value_required,
  secret_value_stored, secret_reference_required, secret_reference_invalid,
}
use devopsellence.Solo.Keys.{
  Paths, joined_key, first_non_empty, normalize_workspace_identity, environment_of,
  split_secret_state_key,
}
use devopsellence.Solo.Nodes.{normalize_node, is_port, normalize_and_validate_node}
use devopsellence.Solo.Releases.{parsed_or_error}
use devopsellence.Solo.Secrets.{
  plaintext, one_password, normalize_secret_store, validate_secret_material,
}
use devopsellence.Solo.Normalize.{
  fold_entries, sorted_entries, fold_sorted, add_node, normalize_snapshot_record, normalize_release,
  add_release, put_current, add_current, trimmed_deployment, check_deployed, check_deployment,
  add_deployment, is_status, normalize_secret_record, add_secret, add_attachment, add_snapshot,
  add_ingress_check, normalize_state,
}

-- Every entry of the map has the property, which may depend on the key.
abbrev pub Every {ℓ κ} : {V : Type ℓ} → (Text → V → Type κ) → Dict V → Type κ
Every P entries = All (λ e. P e.0 e.1) entries

Every-insert {ℓ κ} :
    {V : Type ℓ} (P : Text → V → Type κ) (key : Text) (value : V) (entries : Dict V)
    → P key value
    → Every P entries
    → Every P (insert key value entries)
unfolding insert
Every-insert P key value [] p a = (p, tt)
Every-insert P key value ((k, v) ∷ rest) p a = elim (Bool-cases (k == key)) [
  | inl e ↦ rw e (subst (λ t. P t value) (sym (eq_sound k key e)) p, a.1)
  | inr e ↦ rw e (a.0, Every-insert P key value rest p a.1)
]

ok-value {ℓ} : {A : Type ℓ} {a b : A} → ◌≡◌ {A = Result StateError A} (ok a) (ok b) → a ≡ b
ok-value {a = a} h = ap (λ r. elim r [ ok x ↦ x | err e ↦ a ]) h

module _ {ℓ κ μ} {V : Type ℓ} {W : Type κ} (P : Text → W → Type μ)
    (step : Text → V → Dict W → Result StateError (Dict W))
    (keeps : (key : Text) (value : V) (before after : Dict W)
      → step key value before ≡ ok after
      → Every P before
      → Every P after) where
  fold_entries-Every :
      (entries : List (Text × V)) (before after : Dict W)
      → fold_entries step entries before ≡ ok after
      → Every P before
      → Every P after
  fold_entries-Every [] before after h a = subst (Every P) (ok-value h) a
  fold_entries-Every ((k, v) ∷ rest) before after h a =
      let (middle, (s, later)) = bind-ok (step k v before) _ after h in
      fold_entries-Every rest middle after later (keeps k v before middle s a)

  -- A loop over a map gives entries with a property that each step keeps.
  fold_sorted-Every :
      (entries : Dict V) (after : Dict W) → fold_sorted step entries ≡ ok after → Every P after
  unfolding fold_sorted
  fold_sorted-Every entries after h = fold_entries-Every (sorted_entries entries) [] after h tt

-- A node that the command line can reach.
pub record IsReachable (node : NodeConfig) : Type 0 where
  pub has_host : is_empty (trim node.host) ≡ false
  pub has_user : is_empty (trim node.user) ≡ false
  pub has_port : is_port node.port ≡ true

normalize_and_validate_node-IsReachable :
    (name : Text) (node normalized : NodeConfig)
    → normalize_and_validate_node name node ≡ ok normalized
    → IsReachable normalized
unfolding normalize_and_validate_node
normalize_and_validate_node-IsReachable name node normalized h =
    let new = normalize_node node in
    let h1 = reject_if-ok (is_empty (trim name)) node_name_required _ normalized h in
    let h2 =
      reject_if-ok (is_empty (trim new.host)) (node_host_required (trim name)) _ normalized h1.1 in
    let h3 =
      reject_if-ok (is_empty (trim new.user)) (node_user_required (trim name)) _ normalized h2.1 in
    let h4 =
      reject_if-ok (not (is_port new.port)) (node_port_invalid (trim name)) _ normalized h3.1 in
    subst IsReachable (ok-value h4.1)
      (record { has_host = h2.0; has_user = h3.0; has_port = ground (arith, h4.0) })

add_node-Every :
    (key : Text) (node : NodeConfig) (before after : Dict NodeConfig)
    → add_node key node before ≡ ok after
    → Every (λ k n. IsReachable n) before
    → Every (λ k n. IsReachable n) after
unfolding add_node
add_node-Every key node before after h a =
    let (n, (v, s)) = bind-ok (normalize_and_validate_node key node) _ after h in
    subst (Every (λ k m. IsReachable m)) (ok-value s) (
      Every-insert (λ k m. IsReachable m) key n before
        (normalize_and_validate_node-IsReachable key node n v) a)

-- A release under its own id, with a revision that its snapshot has too.
pub record IsStored (key : Text) (release : Release) : Type 0 where
  pub own_key : key ≡ release.id
  pub has_id : is_empty release.id ≡ false
  pub has_revision : is_empty release.revision ≡ false
  pub same_revision : release.snapshot.revision ≡ release.revision

module _ (paths : Paths) (times : Times) where
  normalize_release-IsStored :
      (key : Text) (release new : Release)
      → normalize_release paths times key release ≡ ok new
      → IsStored new.id new
  unfolding normalize_release
  normalize_release-IsStored key release new h =
      let id = first_non_empty (release.id ∷ key ∷ []) in
      let h1 = reject_if-ok (is_empty id) (release_id_missing key) _ new h in
      let h2 =
        reject_if-ok (is_empty (trim release.environment_id)) (release_environment_missing key) _
          new h1.1 in
      let h3 =
        reject_if-ok (is_empty (trim release.revision)) (release_revision_missing key) _ new h2.1 in
      let (at, (p, h4)) =
        bind-ok (parsed_or_error key (times.parse_rfc3339 (trim release.created_at))) _ new h3.1 in
      let (s, (n, h5)) =
        bind-ok (normalize_snapshot_record paths (trim release.environment_id) release.snapshot) _
          new h4 in
      subst (λ r. IsStored r.id r) (ok-value h5)
        (record { own_key = refl; has_id = h1.0; has_revision = h3.0; same_revision = refl })

  add_release-Every :
      (key : Text) (release : Release) (before after : Dict Release)
      → add_release paths times key release before ≡ ok after
      → Every IsStored before
      → Every IsStored after
  unfolding add_release
  add_release-Every key release before after h a =
      let (new, (n, h1)) = bind-ok (normalize_release paths times key release) _ after h in
      let h2 = reject_if-ok (has_key new.id before) (release_duplicate new.id) _ after h1 in
      subst (Every IsStored) (ok-value h2.1)
        (Every-insert IsStored new.id new before (normalize_release-IsStored key release new n) a)

-- The current release of a key is one of the releases, and is the key's.
abbrev pub IsCurrent : Dict Release → Text → Text → Type 0
IsCurrent releases key id =
    (release : Release) × ((lookup id releases ≡ some release) × (release.environment_id ≡ key))

put_current-Every :
    (releases : Dict Release) (key normalized_key id : Text) (found : Option Release)
    (existing : Option Text) (before after : Dict Text)
    → lookup id releases ≡ found
    → put_current key normalized_key id found existing before ≡ ok after
    → Every (IsCurrent releases) before
    → Every (IsCurrent releases) after
unfolding put_current
put_current-Every releases key nk id none existing before after f h a = absurd (ground arith)
put_current-Every releases key nk id (some release) none before after f h a =
    let h1 =
      reject_if-ok (not (release.environment_id == nk)) (current_release_elsewhere key id) _ after
        h in
    subst (Every (IsCurrent releases)) (ok-value h1.1) (
      Every-insert (IsCurrent releases) nk id before
        (release, (f, eq_sound release.environment_id nk (ground (arith, h1.0)))) a)
put_current-Every releases key nk id (some release) (some other) before after f h a =
    let h1 =
      reject_if-ok (not (release.environment_id == nk)) (current_release_elsewhere key id) _ after
        h in
    elim (Bool-cases (other == id)) [
      | inl e ↦ subst (Every (IsCurrent releases)) (ok-value (rw e at h1.1)) a
      | inr e ↦ absurd (ground (arith, rw e at h1.1))
    ]

add_current-Every :
    (paths : Paths) (releases : Dict Release) (key value : Text) (before after : Dict Text)
    → add_current paths releases key value before ≡ ok after
    → Every (IsCurrent releases) before
    → Every (IsCurrent releases) after
unfolding add_current
add_current-Every paths releases key value before after h a =
    let (identity, (i, h1)) = bind-ok (normalize_workspace_identity paths key [] []) _ after h in
    let nk = joined_key identity.1 (environment_of key []) in
    elim (Bool-cases (is_empty (trim value))) [
      | inl e ↦ subst (Every (IsCurrent releases)) (ok-value (rw e at h1)) a
      | inr e ↦
          put_current-Every releases key nk (trim value) (lookup (trim value) releases)
            (lookup nk before) before after refl (rw e at h1) a
    ]

-- A deployment under its own id, of a release of its environment, with a known kind and status.
pub record IsDeployed (releases : Dict Release) (key : Text) (d : StoredDeployment) : Type 0 where
  pub own_key : key ≡ d.id
  pub has_release :
      (release : Release) × ((lookup d.release_id releases ≡ some release)
        × (release.environment_id ≡ d.environment_id))
  pub kind_known : is_supported_kind d.kind ≡ true
  pub status_known : is_status d.status ≡ true
  pub sequence_positive : is_positive d.sequence ≡ true

deployed-release :
    (releases : Dict Release) (key : Text) (d : StoredDeployment) (found : Option Release)
    → lookup d.release_id releases ≡ found
    → check_deployed key d found ≡ ok tt
    → (release : Release) × ((lookup d.release_id releases ≡ some release)
        × (release.environment_id ≡ d.environment_id))
unfolding check_deployed
deployed-release releases key d none f h = absurd (ground arith)
deployed-release releases key d (some release) f h =
    (release, (f, eq_sound release.environment_id d.environment_id (ground (arith, h))))

check_deployment-IsDeployed :
    (releases : Dict Release) (key : Text) (d : StoredDeployment)
    → check_deployment releases key d ≡ ok tt
    → IsDeployed releases d.id d
unfolding check_deployment
check_deployment-IsDeployed releases key d h =
    let h1 = reject_if-ok (is_empty d.id) (deployment_id_missing key) _ tt h in
    let h2 =
      reject_if-ok (is_empty d.environment_id) (deployment_environment_missing key) _ tt h1.1 in
    let h3 = reject_if-ok (is_empty d.release_id) (deployment_release_missing key) _ tt h2.1 in
    let h4 = bind-ok (check_deployed key d (lookup d.release_id releases)) _ tt h3.1 in
    let h5 =
      reject_if-ok (not (is_supported_kind d.kind)) (deployment_kind_unsupported key d.kind) _ tt
        h4.1.1 in
    let h6 =
      reject_if-ok (not (is_status d.status)) (deployment_status_unsupported key d.status) _ tt
        h5.1 in
    record {
      own_key = refl;
      has_release = deployed-release releases key d (lookup d.release_id releases) refl h4.1.0;
      kind_known = ground (arith, h5.0);
      status_known = ground (arith, h6.0);
      sequence_positive = ground (arith, h6.1);
    }

add_deployment-Every :
    (releases : Dict Release) (key : Text) (deployment : StoredDeployment)
    (before after : Dict StoredDeployment)
    → add_deployment releases key deployment before ≡ ok after
    → Every (IsDeployed releases) before
    → Every (IsDeployed releases) after
unfolding add_deployment
add_deployment-Every releases key deployment before after h a =
    let d = trimmed_deployment key deployment in
    let h1 = bind-ok (check_deployment releases key d) _ after h in
    let h2 = reject_if-ok (has_key d.id before) (deployment_duplicate d.id) _ after h1.1.1 in
    subst (Every (IsDeployed releases)) (ok-value h2.1) (
      Every-insert (IsDeployed releases) d.id d before
        (check_deployment-IsDeployed releases key d h1.1.0) a)

-- A plaintext secret has a value, and one that 1Password keeps has none here but a reference to it.
abbrev pub is_kept : SecretRecord → Bool
is_kept s =
    (s.store == plaintext && not (is_empty (trim s.value)))
    || (s.store == one_password
        && (is_empty (trim s.value) && has_prefix (map ascii_lower s.reference) (codes "op://")))

material-kept :
    (store value reference kept : Text)
    → validate_secret_material store value reference ≡ ok kept
    → ((store == plaintext && not (is_empty (trim value)))
        || (store == one_password
            && (is_empty (trim value) && has_prefix (map ascii_lower kept) (codes "op://"))))
      ≡ true
unfolding validate_secret_material
material-kept store value reference kept h = elim (Bool-cases (store == plaintext)) [
  | inl e ↦
      let h1 = reject_if-ok (is_empty (trim value)) secret_value_required _ kept (rw e at h) in
      ground (arith, h1.0)
  | inr e ↦ elim (Bool-cases (store == one_password)) [
    | inl o ↦
        let h1 =
          reject_if-ok (not (is_empty (trim value))) secret_value_stored _ kept (rw (e, o) at h) in
        let h2 = reject_if-ok (is_empty (trim reference)) secret_reference_required _ kept h1.1 in
        let h3 =
          reject_if-ok (not (has_prefix (map ascii_lower (trim reference)) (codes "op://")))
            secret_reference_invalid _ kept h2.1 in
        let same = ap (λ r. has_prefix (map ascii_lower r) (codes "op://")) (ok-value h3.1) in
        ground (arith, h1.0, h3.0, same)
    | inr o ↦ absurd (ground (arith, rw (e, o) at h))
  ]
]

normalize_secret-kept :
    (paths : Paths) (key : Text) (secret : SecretRecord) (new : Text × SecretRecord)
    → normalize_secret_record paths key secret ≡ ok new
    → is_kept new.1 ≡ true
unfolding normalize_secret_record
normalize_secret-kept paths key secret new h =
    let parts = split_secret_state_key key in
    let service = first_non_empty (secret.service_name ∷ parts.service ∷ []) in
    let name = first_non_empty (secret.name ∷ parts.name ∷ []) in
    let (id, (i, h1)) =
      bind-ok (normalize_workspace_identity paths key secret.workspace_root secret.workspace_key) _
        new h in
    let (store, (s, h2)) = bind-ok (normalize_secret_store secret.store) _ new h1 in
    let h3 = reject_if-ok (is_empty service) service_name_required _ new h2 in
    let h4 = reject_if-ok (is_empty name) secret_name_required _ new h3.1 in
    let (reference, (r, h5)) =
      bind-ok (validate_secret_material store secret.value secret.reference) _ new h4.1 in
    subst (λ n. is_kept n.1 ≡ true) (ok-value h5)
      (material-kept store secret.value secret.reference reference r)

add_secret-Every :
    (paths : Paths) (key : Text) (secret : SecretRecord) (before after : Dict SecretRecord)
    → add_secret paths key secret before ≡ ok after
    → Every (λ k s. is_kept s ≡ true) before
    → Every (λ k s. is_kept s ≡ true) after
unfolding add_secret
add_secret-Every paths key secret before after h a =
    let (new, (n, s)) = bind-ok (normalize_secret_record paths key secret) _ after h in
    subst (Every (λ k r. is_kept r ≡ true)) (ok-value s) (
      Every-insert (λ k r. is_kept r ≡ true) new.0 new.1 before
        (normalize_secret-kept paths key secret new n) a)

-- What the stored state promises to every command.
pub record IsNormal (state : State) : Type 0 where
  pub nodes_valid : Every (λ name node. IsReachable node) state.nodes
  pub releases_stored : Every IsStored state.releases
  pub current_known : Every (IsCurrent state.releases) state.current
  pub deployments_known : Every (IsDeployed state.releases) state.deployments
  pub secrets_kept : Every (λ key secret. is_kept secret ≡ true) state.secrets

-- normalizeState returns only states in which every node has a host, a user and a valid port; every
-- release stands under its own id, with a revision that its snapshot has too; the current release of
-- a key is there and belongs to that key; every deployment is of a release that is there and belongs
-- to the deployment's environment, with a known kind and status and a positive sequence; and a
-- plaintext secret has a value, while one in 1Password has a reference and no value.
pub normalize_state-IsNormal :
    (paths : Paths) (times : Times) (state normal : State)
    → normalize_state paths times state ≡ ok normal
    → IsNormal normal
unfolding normalize_state
normalize_state-IsNormal paths times state normal h =
    let (nodes, (n, h1)) = bind-ok (fold_sorted add_node state.nodes) _ normal h in
    let (attachments, (a, h2)) =
      bind-ok (fold_sorted (add_attachment paths) state.attachments) _ normal h1 in
    let (snapshots, (s, h3)) =
      bind-ok (fold_sorted (add_snapshot paths) state.snapshots) _ normal h2 in
    let (releases, (r, h4)) =
      bind-ok (fold_sorted (add_release paths times) state.releases) _ normal h3 in
    let (current, (c, h5)) =
      bind-ok (fold_sorted (add_current paths releases) state.current) _ normal h4 in
    let (deployments, (d, h6)) =
      bind-ok (fold_sorted (add_deployment releases) state.deployments) _ normal h5 in
    let (secrets, (k, h7)) = bind-ok (fold_sorted (add_secret paths) state.secrets) _ normal h6 in
    let (checks, (i, h8)) =
      bind-ok (fold_sorted (add_ingress_check paths) state.ingress_checks) _ normal h7 in
    subst IsNormal (ok-value h8) (record {
      nodes_valid =
          fold_sorted-Every (λ k m. IsReachable m) add_node add_node-Every state.nodes nodes n;
      releases_stored =
          fold_sorted-Every IsStored (add_release paths times) (add_release-Every paths times)
            state.releases releases r;
      current_known =
          fold_sorted-Every (IsCurrent releases) (add_current paths releases)
            (add_current-Every paths releases) state.current current c;
      deployments_known =
          fold_sorted-Every (IsDeployed releases) (add_deployment releases)
            (add_deployment-Every releases) state.deployments deployments d;
      secrets_kept =
          fold_sorted-Every (λ j x. is_kept x ≡ true) (add_secret paths) (add_secret-Every paths)
            state.secrets secrets k;
    })
