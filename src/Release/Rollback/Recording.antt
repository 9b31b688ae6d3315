-- ===== src/Release/Rollback/Recording.antt =====
-- deployment-core/pkg/deploycore/release/service.go: what Rollback records of its deployment.
use devopsellence.Base.{◌≡◌, ◌≢◌, none, some, List, [], ◌∷◌, ◌++◌, map, Text, ok, err}
use devopsellence.Release.Types.{
  Node, Release, Deployment, DeploymentStatus, DeploymentPublicationResult, PublicationStatus,
  DesiredStatePublication,
}
use devopsellence.Release.Targets.{target_nodes_for_release}
use devopsellence.Release.Transaction.{
  nodes_read, state_published, deployment_created, deployment_updated, Log, RollbackResult, Outcome,
}

-- The deployments that the store created.
pub created_in : Log → List Deployment
created_in [] = []
created_in (deployment_created d (ok created) ∷ log) = created ∷ created_in log
created_in (_ ∷ log) = created_in log

-- The nodes that the store listed, for each time that it did.
pub listed_in : Log → List (List Node)
listed_in [] = []
listed_in (nodes_read id (ok nodes) ∷ log) = nodes ∷ listed_in log
listed_in (_ ∷ log) = listed_in log

-- The nodes with the publications that the store accepted for them, oldest first.
pub published_in : Log → List (Node × DesiredStatePublication)
published_in [] = []
published_in (state_published node plan (ok publication) ∷ log) =
    published_in log ++ (node, publication) ∷ []
published_in (_ ∷ log) = published_in log

-- The store listed these nodes, and accepted these publications for these targets.
pub record IsPublishedTo (log : Log) (nodes targets : List Node)
    (publications : List DesiredStatePublication) : Type 0 where
  pub listed : listed_in log ≡ nodes ∷ []
  pub reached : map (λ x. x.0) (published_in log) ≡ targets
  pub accepted : map (λ x. x.1) (published_in log) ≡ publications

-- How the run ended, by its last call and what it returns.
pub data Recorded (o : Outcome) : Type 0 where
  -- No deployment was created: nothing is recorded, and an error is returned.
  never_created : o.error ≢ none → o.result ≡ none → created_in o.log ≡ [] → Recorded o
  -- The store refused the last update: an error is returned, and no result.
  refused :
      (d : Deployment) (e : Text) (log : Log)
      → o.log ≡ deployment_updated d (err e) ∷ log
      → o.error ≢ none
      → o.result ≡ none
      → Recorded o
  -- The deployment is stored as failed, with the failed publication; an error is returned with it.
  failed :
      (d : Deployment) (r : RollbackResult) (p : DeploymentPublicationResult) (log : Log)
      → o.log ≡ deployment_updated d (ok tt) ∷ log
      → d.status ≡ DeploymentStatus.failed
      → d.publication_result ≡ some p
      → p.status ≡ PublicationStatus.failed
      → p.node_results ≡ r.publications
      → o.error ≢ none
      → o.result ≡ some r
      → r.deployment ≡ d
      → Recorded o
  -- The deployment is stored as settled, and what the store accepted in the run is one publication
  -- for each target node, in their order: of the nodes that the store listed, those of the release.
  settled :
      (d : Deployment) (r : RollbackResult) (p : DeploymentPublicationResult) (log : Log)
      (nodes : List Node)
      → o.log ≡ deployment_updated d (ok tt) ∷ log
      → d.status ≡ DeploymentStatus.settled
      → d.publication_result ≡ some p
      → p.status ≡ PublicationStatus.written
      → p.node_results ≡ r.publications
      → IsPublishedTo o.log nodes (target_nodes_for_release nodes r.release) r.publications
      → o.error ≡ none
      → o.result ≡ some r
      → r.deployment ≡ d
      → Recorded o
