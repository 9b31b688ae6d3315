-- ===== src/Plan/Publication/Planned.antt =====
-- deployment-core/pkg/deploycore/desiredstate/desiredstate.go: the document that PlanNodePublication
-- encodes.
use devopsellence.Base.{
  any, pos, true, ◌≡◌, ◌↔◌, Option, some, List, [], ◌∷◌, In, Text, trim, sort_by, ok,
}
use devopsellence.Plan.Types.{
  DesiredStateJson, DeploySnapshot, EnvironmentJson, ServiceJson, TaskJson, IngressJson,
}
use devopsellence.Plan.Schedule.{
  default_environment_name, snapshot_key, should_schedule_service, build_node_peers,
}
use devopsellence.Plan.Ingress.Present.{is_there, has_scheduled_ingress}
use devopsellence.Plan.Ingress.Routes.{IsMerged}
use devopsellence.Plan.Publication.{
  Encoder, NodePublicationInput, NodePublication, snapshot_less, text_at,
  unique_aggregated_environment_name, aggregated_environment_names,
}

module _ (encoder : Encoder) where
  -- The name that the last snapshot of the key gets.
  abbrev Named : List DeploySnapshot → Text → Option Text → Type 0
  Named snapshots key found =
      (s : DeploySnapshot) × (In s snapshots
        × ((snapshot_key s ≡ key)
            × (found
                ≡ some (
                    unique_aggregated_environment_name encoder s
                      (default_environment_name s.environment)))))

  -- The environment that a snapshot becomes on the node.
  pub record IsEnvironmentOf (input : NodePublicationInput) (s : DeploySnapshot)
      (e : EnvironmentJson) : Type 0 where
    pub revision : e.revision ≡ trim s.revision
    pub named : Named input.snapshots (snapshot_key s) (some e.name)
    pub services :
        (service : ServiceJson)
        → In service e.services ↔ (
            In service s.services
            × (should_schedule_service input.current_node.labels service.kind ≡ true))
    pub tasks :
        (task : TaskJson)
        → In task e.tasks
        → (s.release_task ≡ some task)
          × ((trim (text_at (snapshot_key s) input.release_nodes) ≡ input.node_name)
              × (should_schedule_service input.current_node.labels s.release_service_kind ≡ true))

  -- The environments of the snapshots, one for each, in their order.
  abbrev pub AreEnvironmentsOf :
      NodePublicationInput → List DeploySnapshot → List EnvironmentJson → Type 0
  AreEnvironmentsOf input [] [] = Unit {0}
  AreEnvironmentsOf input (s ∷ ss) (e ∷ es) =
      IsEnvironmentOf input s e × AreEnvironmentsOf input ss es
  AreEnvironmentsOf input ss es = ⊥

  -- What is published is the encoding of a document for the snapshots.
  pub record IsPlanned (input : NodePublicationInput) (p : NodePublication) : Type 0 where
    pub document : DesiredStateJson
    pub bytes : Text
    pub encodes : encoder.marshal_indent document ≡ ok p.desired_state_json
    pub hashed : encoder.marshal (record document { revision = [] }) ≡ ok bytes
    pub revision : document.revision ≡ encoder.sha256_hex bytes
    pub peers : document.node_peers ≡ build_node_peers input.node_peers
    pub schema_version : document.schema_version ≡ pos 2
    pub each : AreEnvironmentsOf input (sort_by snapshot_less input.snapshots) document.environments
    pub complete :
        (s : DeploySnapshot)
        → In s input.snapshots
        → (e : EnvironmentJson) × (In e document.environments × IsEnvironmentOf input s e)
    pub only :
        (e : EnvironmentJson)
        → In e document.environments
        → (s : DeploySnapshot) × (In s input.snapshots × IsEnvironmentOf input s e)
    pub ingress_present :
        is_there document.ingress
        ≡ any
            (has_scheduled_ingress input.current_node.labels)
            (sort_by snapshot_less input.snapshots)
    pub ingress :
        (i : IngressJson)
        → document.ingress ≡ some i
        → let attached = sort_by snapshot_less input.snapshots in
          IsMerged input.current_node.labels attached
            (aggregated_environment_names encoder [] attached)
            i
