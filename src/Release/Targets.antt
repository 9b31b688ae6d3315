-- ===== src/Release/Targets.antt =====
-- deployment-core/pkg/deploycore/release/service.go: the nodes of a release, the node that runs its
-- release task, and the peers that a node is told of.
pub mod Peers
pub mod Coverage
use devopsellence.Base.{
  Bool, true, false, not, ◌&&◌, ◌||◌, Option, none, some, List, [], ◌∷◌, ◌++◌, map, keep, any, Text,
  ◌==◌, trim, is_empty, contains, text_lt, sort_by, sort_texts, Dict, lookup, insert, if◌then◌else◌,
}
use devopsellence.Plan.Types.{DeploySnapshot, NodeConfig, NodePeer}
use devopsellence.Plan.Schedule.{or_default, production}
use devopsellence.Release.Types.{Node, Release}

unfoldable pub target_nodes_for_release : List Node → Release → List Node
target_nodes_for_release nodes release =
    if is_empty release.target_node_ids
    then nodes
    else keep (λ node. contains release.target_node_ids node.id) nodes

unfoldable pub node_can_run_kind : NodeConfig → Text → Bool
node_can_run_kind node kind = elim node.labels [
  | none ↦ true
  | some labels ↦ any (λ label. trim label == trim kind) labels
]

unfoldable pub release_snapshot_key : DeploySnapshot → Text
release_snapshot_key s = trim s.workspace_key ++ 10 ∷ or_default (trim s.environment) production

-- The trimmed names of the nodes that have one.
unfoldable pub node_names : List Node → List Text
node_names nodes = keep (λ name. not (is_empty name)) (map (λ node. trim node.name) nodes)

-- nodesByName; a later node of the name wins.
unfoldable pub nodes_by_name : Dict Node → List Node → Dict Node
nodes_by_name found [] = found
nodes_by_name found (node ∷ nodes) =
    let name = trim node.name in
    nodes_by_name (if is_empty name then found else insert name node found) nodes

unfoldable pub can_run_named : Dict Node → Text → Text → Bool
unfolding node_can_run_kind
can_run_named by_name kind name = elim (lookup name by_name) [
  | none ↦ false
  | some node ↦ node_can_run_kind node.config kind
]

-- The first name in the list that can run the kind.
unfoldable pub first_able : Dict Node → Text → List Text → Option Text
first_able by_name kind [] = none
first_able by_name kind (name ∷ names) =
    if can_run_named by_name kind name then some name else first_able by_name kind names

unfoldable pub release_nodes_for_publication : Release → List Node → Dict Text
unfolding release_snapshot_key node_names nodes_by_name can_run_named first_able
release_nodes_for_publication release targets = elim release.snapshot.release_task [
  | none ↦ []
  | some task ↦
      elim (first_able (nodes_by_name [] targets) release.snapshot.release_service_kind
        (sort_texts (node_names targets))) [
          | none ↦ []
          | some name ↦ (release_snapshot_key release.snapshot, name) ∷ []
        ]
]

abbrev labels_of : NodeConfig → List Text
labels_of config = elim config.labels [ none ↦ [] | some labels ↦ labels ]

-- The peer that the node is to the node of the name, if it has a name and a host of its own.
unfoldable pub peer_of : Text → Node → List NodePeer
peer_of current node =
    let name = trim node.name in
    let host = trim node.config.host in
    if is_empty name || name == current || is_empty host
    then []
    else record { name = name; labels = labels_of node.config; public_address = host } ∷ []

unfoldable pub peers_of : Text → List Node → List NodePeer
unfolding peer_of
peers_of current [] = []
peers_of current (node ∷ nodes) = peer_of current node ++ peers_of current nodes

unfoldable pub peer_less : NodePeer → NodePeer → Bool
peer_less a b = text_lt a.name b.name

-- `sort.Slice` as a stable sort: one of the orders it allows among peers of one name.
unfoldable pub node_peers_for_publication : List Node → Text → List NodePeer
unfolding peers_of peer_less
node_peers_for_publication nodes current = sort_by peer_less (peers_of (trim current) nodes)
