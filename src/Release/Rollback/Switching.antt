-- ===== src/Release/Rollback/Switching.antt =====
-- deployment-core/pkg/deploycore/release/service.go: when Rollback makes a release current.
use devopsellence.Base.{
  ◌≡◌, ◌≢◌, refl, ap, ◌∙◌, none, Option-cases, List, [], ◌∷◌, ◌++◌, map, All, In, here, there, Text,
  codes, Result, ok, Result-cases, arith, inl, inr,
}
use devopsellence.Base.Filtering.{All-map}
use devopsellence.Release.Types.{
  Environment, Node, Release, Deployment, DeploymentCreateInput, DeploymentStatus,
  DesiredStatePublication, kind_rollback,
}
use devopsellence.Release.Create.{new_deployment}
use devopsellence.Release.Select.{select_rollback_release}
use devopsellence.Release.Targets.{target_nodes_for_release, release_nodes_for_publication}
use devopsellence.Release.Rollback.Cases.{publish_cases}
use devopsellence.Release.Transaction.{
  Event, environment_read, releases_read, nodes_read, deployment_created, deployment_updated,
  state_published, current_release_set, Log, Tx, Env, RollbackInput, Outcome, PublicationPlan,
}
use devopsellence.Release.Rollback.{
  publish_nodes, fail_deployment, settle_deployment, switch_release, after_publishing,
  publish_release, deploy_release, create_and_deploy, with_nodes, with_release, rollback_locked,
  plan_for, select_and_continue,
}

-- The calls that make a release current: the environments and the releases.
unfoldable pub switches : Log → List (Text × Text)
switches [] = []
switches (current_release_set environment release answer ∷ log) =
    (environment, release) ∷ switches log
switches (_ ∷ log) = switches log

-- The node got a desired state that the store accepted.
abbrev pub IsPublished : Log → Node → Type 0
IsPublished log node =
    (plan : PublicationPlan) × (publication : DesiredStatePublication) × In
      (state_published node plan (ok publication)) log

later : (e : Event) (log : Log) (n : Node) → IsPublished log n → IsPublished (e ∷ log) n
later e log n (p, q, i) = (p, q, there i)

module _ (env : Env) (tx : Tx) (input : RollbackInput) where
  publish_nodes-keeps :
      (plan : Node → Result Text PublicationPlan) (done : List DesiredStatePublication)
      (nodes : List Node) (log : Log) (e : Event)
      → In e log
      → In e (publish_nodes env tx input plan done nodes log).log
  unfolding publish_nodes
  publish_nodes-keeps plan done [] log e i = i
  publish_nodes-keeps plan done (n ∷ ns) log e i =
      publish_cases env tx input (λ r. In e r.log) plan done n ns log (λ _ _. i)
        (λ p x _ _. there i) (λ p d _ _. publish_nodes-keeps plan (done ++ d ∷ []) ns _ e (there i))

  switches-publish_nodes :
      (plan : Node → Result Text PublicationPlan) (done : List DesiredStatePublication)
      (nodes : List Node) (log : Log)
      → switches (publish_nodes env tx input plan done nodes log).log ≡ switches log
  unfolding publish_nodes switches
  switches-publish_nodes plan done [] log = refl
  switches-publish_nodes plan done (n ∷ ns) log =
      publish_cases env tx input (λ r. switches r.log ≡ switches log) plan done n ns log
        (λ _ _. refl) (λ p x _ _. refl)
        (λ p d _ _.
          switches-publish_nodes plan (done ++ d ∷ []) ns (state_published n p (ok d) ∷ log))

  publish_nodes-IsPublished :
      (plan : Node → Result Text PublicationPlan) (done : List DesiredStatePublication)
      (nodes : List Node) (log : Log)
      → (publish_nodes env tx input plan done nodes log).error ≡ none
      → All (IsPublished (publish_nodes env tx input plan done nodes log).log) nodes
  unfolding publish_nodes
  publish_nodes-IsPublished plan done [] log = λ h. tt
  publish_nodes-IsPublished plan done (n ∷ ns) log =
      publish_cases env tx input (λ r. r.error ≡ none → All (IsPublished r.log) (n ∷ ns)) plan done
        n ns log (λ e _ h. absurd (ground arith)) (λ p e _ _ h. absurd (ground arith))
        (λ p d _ _ h. (
          (p, d, publish_nodes-keeps plan (done ++ d ∷ []) ns _ _ (here refl)),
          publish_nodes-IsPublished plan (done ++ d ∷ []) ns _ h,
        ))

  -- What a complete publication adds to the log.
  record Extends (id : Text) (selected : Release) (log : Log) (o : Outcome) : Type 0 where
    kept : (x : Event) → In x log → In x o.log
    switched : switches o.log ≡ (id, selected.id) ∷ switches log

  switch_release-Extends :
      (id : Text) (selected : Release) (d : Deployment) (pubs : List DesiredStatePublication)
      (log : Log)
      → Extends id selected log (switch_release env tx input id selected d pubs log)
  unfolding switch_release switches fail_deployment settle_deployment
  switch_release-Extends id selected d pubs log =
      elim (Result-cases (tx.set_current_release log id selected.id)) [
        | inl (u, e) ↦
            rw (e, switch_release) (record { kept = λ x i. there (there i); switched = refl })
        | inr (m, e) ↦
            rw (e, switch_release) (record { kept = λ x i. there (there i); switched = refl })
      ]

  -- Either no release was made current, or it was this one and every target had been published.
  data Guarded (id : Text) (selected : Release) (targets : List Node) (log : Log) (o : Outcome)
      : Type 0 where
    unswitched :
        switches o.log ≡ switches log
        → ((x : Event) → In x log → In x o.log)
        → Guarded id selected targets log o
    guarded :
        switches o.log ≡ (id, selected.id) ∷ switches log
        → ((x : Event) → In x log → In x o.log)
        → All (IsPublished o.log) targets
        → Guarded id selected targets log o

  after_publishing-Guarded :
      (id : Text) (selected : Release) (d : Deployment) (plan : Node → Result Text PublicationPlan)
      (targets : List Node) (log : Log)
      → Guarded id selected targets log (
          after_publishing env tx input id selected d
            (publish_nodes env tx input plan [] targets log))
  unfolding after_publishing fail_deployment switches
  after_publishing-Guarded id selected d plan targets log =
      let r = publish_nodes env tx input plan [] targets log in
      elim (Option-cases r.error) [
        | inr (m, e) ↦
            rw (e, after_publishing)
              (unswitched (switches-publish_nodes plan [] targets log)
                (λ x i. there (publish_nodes-keeps plan [] targets log x i)))
        | inl e ↦
            let x = switch_release-Extends id selected d r.publications r.log in
            rw (e, after_publishing)
              (guarded
                (x.switched
                  ∙ ap (◌∷◌ (id, selected.id)) (switches-publish_nodes plan [] targets log))
                (λ v i. x.kept v (publish_nodes-keeps plan [] targets log v i))
                (All-map (IsPublished r.log) _ (λ n (p, q, i). (p, q, x.kept _ i)) targets
                  (publish_nodes-IsPublished plan [] targets log e)))
      ]

  Guarded-cons :
      {id : Text} {selected : Release} {targets : List Node} {log : Log} {o : Outcome} (x : Event)
      → switches (x ∷ log) ≡ switches log
      → Guarded id selected targets (x ∷ log) o
      → Guarded id selected targets log o
  Guarded-cons {id} {selected} x e (unswitched s k) = unswitched (s ∙ e) (λ y i. k y (there i))
  Guarded-cons {id} {selected} x e (guarded s k a) =
      guarded (s ∙ ap (◌∷◌ (id, selected.id)) e) (λ y i. k y (there i)) a

  deploy_release-Guarded :
      (id : Text) (selected : Release) (nodes targets : List Node) (d : Deployment) (log : Log)
      → Guarded id selected targets log
          (deploy_release env tx input id selected nodes targets d log)
  unfolding deploy_release fail_deployment publish_release switches
  deploy_release-Guarded id selected nodes [] d log = unswitched refl (λ x i. there i)
  deploy_release-Guarded id selected nodes (n ∷ ns) d log = publishing
    where
      running : Deployment
      running = record d {
        status = DeploymentStatus.running;
        status_message = codes "publishing desired state";
      }

      publishing :
          Guarded id selected
            (n ∷ ns)
            log
            (publish_release env tx input id selected nodes (n ∷ ns) d log)
      publishing = elim (Result-cases (tx.update_deployment log running)) [
        | inr (m, e) ↦ rw (e, publish_release) (unswitched refl (λ x i. there i))
        | inl (u, e) ↦
            rw (e, publish_release)
              (Guarded-cons (deployment_updated running (ok u)) refl (
                after_publishing-Guarded id selected running
                  (plan_for env tx input selected (release_nodes_for_publication selected (n ∷ ns))
                    nodes)
                  (n ∷ ns) _))
      ]

-- Why a release was made current: it was selected from the releases that the store lists for the
-- environment, and every node that it targets had a desired state accepted by the store.
pub record IsJustified (env : Env) (input : RollbackInput) (log : Log) : Type 0 where
  pub environment : Environment
  pub releases : List Release
  pub nodes : List Node
  pub selected : Release
  pub environment_known : In (environment_read input.environment (ok environment)) log
  pub releases_known : In (releases_read environment.id (ok releases)) log
  pub nodes_known : In (nodes_read environment.id (ok nodes)) log
  pub chosen :
      select_rollback_release env.times releases environment.current_release_id input.selector
      ≡ ok selected
  pub switched_once : switches log ≡ (environment.id, selected.id) ∷ []
  pub published : All (IsPublished log) (target_nodes_for_release nodes selected)

module _ (env : Env) (tx : Tx) (input : RollbackInput) where
  create_and_deploy-Guarded :
      (environment : Environment) (selected : Release) (nodes : List Node) (log : Log)
      → Guarded env tx input environment.id selected
          (target_nodes_for_release nodes selected)
          log
          (create_and_deploy env tx input environment selected nodes log)
  unfolding create_and_deploy switches
  create_and_deploy-Guarded environment selected nodes log =
      elim (Result-cases (new_deployment env.times wanted)) [
        | inr (m, e) ↦ rw (e, create_and_deploy) (unswitched refl (λ x i. i))
        | inl (d, e) ↦ elim (Result-cases (tx.create_deployment log d)) [
          | inr (m, f) ↦ rw (e, create_and_deploy) (rw f (unswitched refl (λ x i. there i)))
          | inl (created, f) ↦
              rw (e, create_and_deploy)
                (rw f (
                  Guarded-cons env tx input (deployment_created d (ok created)) refl (
                    deploy_release-Guarded env tx input environment.id selected nodes targets
                      created _)))
        ]
      ]
    where
      targets : List Node
      targets = target_nodes_for_release nodes selected

      wanted : DeploymentCreateInput
      wanted = record {
        id = input.deployment_id;
        environment_id = environment.id;
        release_id = selected.id;
        kind = kind_rollback;
        sequence = input.sequence;
        target_node_ids = map (λ node. node.id) targets;
        created_at = input.now;
      }

  -- The claim about an outcome.
  abbrev Sound : Outcome → Type 0
  Sound o = switches o.log ≢ [] → IsJustified env input o.log

  justify :
      (environment : Environment) (releases : List Release) (nodes : List Node) (selected : Release)
      (log : Log) (o : Outcome)
      → In (environment_read input.environment (ok environment)) log
      → In (releases_read environment.id (ok releases)) log
      → In (nodes_read environment.id (ok nodes)) log
      → select_rollback_release env.times releases environment.current_release_id input.selector
        ≡ ok selected
      → switches log ≡ []
      → Guarded env tx input environment.id selected (target_nodes_for_release nodes selected) log o
      → Sound o
  justify environment releases nodes selected log o i j k chosen none_yet (unswitched s _) h =
      absurd (h (s ∙ none_yet))
  justify environment releases nodes selected log o i j k chosen none_yet (guarded s keeps a) h =
      record {
        environment = environment;
        releases = releases;
        nodes = nodes;
        selected = selected;
        environment_known = keeps _ i;
        releases_known = keeps _ j;
        nodes_known = keeps _ k;
        chosen = chosen;
        switched_once = s ∙ ap (◌∷◌ (environment.id, selected.id)) none_yet;
        published = a;
      }

  with_nodes-Sound :
      (environment : Environment) (releases : List Release) (selected : Release) (log : Log)
      → In (environment_read input.environment (ok environment)) log
      → In (releases_read environment.id (ok releases)) log
      → select_rollback_release env.times releases environment.current_release_id input.selector
        ≡ ok selected
      → switches log ≡ []
      → Sound (with_nodes env tx input environment selected log)
  unfolding with_nodes switches
  with_nodes-Sound environment releases selected log i j chosen none_yet =
      elim (Result-cases (tx.nodes log environment.id)) [
        | inr (m, e) ↦ rw (e, with_nodes) (λ h. absurd (h none_yet))
        | inl (nodes, e) ↦
            rw (e, with_nodes)
              (justify environment releases nodes selected _ _ (there i) (there j) (here refl)
                chosen none_yet (create_and_deploy-Guarded environment selected nodes _))
      ]

  with_release-Sound :
      (environment : Environment) (log : Log)
      → In (environment_read input.environment (ok environment)) log
      → switches log ≡ []
      → Sound (with_release env tx input environment log)
  unfolding with_release switches
  with_release-Sound environment log i none_yet =
      elim (Result-cases (tx.releases log environment.id)) [
        | inr (m, e) ↦ rw (e, with_release) (λ h. absurd (h none_yet))
        | inl (releases, e) ↦
            elim (Result-cases (
              select_rollback_release env.times releases environment.current_release_id
                input.selector)) [
                  | inr (m, f) ↦
                      rw (e, with_release) (rw (f, select_and_continue) (λ h. absurd (h none_yet)))
                  | inl (selected, f) ↦
                      rw (e, with_release)
                        (rw (f, select_and_continue)
                          (with_nodes-Sound environment releases selected _ (there i) (here refl) f
                            none_yet))
                ]
      ]

  -- Rollback makes a release current only when every node that the release targets has been
  -- published: if a call to set the current release was made at all, it was made once, for the
  -- release that was selected from the store's list, and for each target node among the store's
  -- nodes the log holds a publication that the store accepted.
  pub rollback_locked-IsJustified :
      switches (rollback_locked env tx input).log ≢ []
      → IsJustified env input (rollback_locked env tx input).log
  unfolding rollback_locked switches
  rollback_locked-IsJustified = elim (Result-cases (tx.environment [] input.environment)) [
    | inr (m, e) ↦ rw (e, rollback_locked) (λ h. absurd (h refl))
    | inl (environment, e) ↦
        rw (e, rollback_locked) (with_release-Sound environment _ (here refl) refl)
  ]
