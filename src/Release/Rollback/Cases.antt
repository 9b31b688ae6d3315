-- ===== src/Release/Rollback/Cases.antt =====
-- deployment-core/pkg/deploycore/release/service.go: one round of the loop over the nodes, as a rule
-- for proofs.
use devopsellence.Base.{
  ◌≡◌, List, [], ◌∷◌, ◌++◌, Text, Result, ok, err, Result-cases, some, inl, inr,
}
use devopsellence.Release.Types.{Node, DesiredStatePublication}
use devopsellence.Release.Transaction.{
  state_published, Log, Tx, Env, RollbackInput, PublicationPlan,
}
use devopsellence.Release.Rollback.{Published, failed_publication, publish_nodes}

module _ (env : Env) (tx : Tx) (input : RollbackInput) where
  pub publish_cases {ℓ} :
      (Q : Published → Type ℓ) (plan : Node → Result Text PublicationPlan)
      (done : List DesiredStatePublication) (n : Node) (ns : List Node) (log : Log)
      → ((e : Text)
          → plan n ≡ err e
          → Q (record {
            publications = done ++ failed_publication n [] e ∷ [];
            error = some e;
            log = log;
          }))
      → ((p : PublicationPlan) (e : Text)
          → plan n ≡ ok p
          → tx.publish_desired_state log n p ≡ err e
          → Q (record {
            publications = done ++ failed_publication n p.revision e ∷ [];
            error = some e;
            log = state_published n p (err e) ∷ log;
          }))
      → ((p : PublicationPlan) (d : DesiredStatePublication)
          → plan n ≡ ok p
          → tx.publish_desired_state log n p ≡ ok d
          → Q (
              publish_nodes env tx input plan
                (done ++ d ∷ [])
                ns
                (state_published n p (ok d) ∷ log)))
      → Q (publish_nodes env tx input plan done (n ∷ ns) log)
  unfolding publish_nodes
  publish_cases Q plan done n ns log unplanned refused accepted = elim (Result-cases (plan n)) [
    | inr (e, h) ↦ rw (h, publish_nodes) (unplanned e h)
    | inl (p, h) ↦ elim (Result-cases (tx.publish_desired_state log n p)) [
      | inr (e, k) ↦ rw (h, publish_nodes) (rw k (refused p e h k))
      | inl (d, k) ↦ rw (h, publish_nodes) (rw k (accepted p d h k))
    ]
  ]
