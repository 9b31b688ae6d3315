-- ===== src/Release/Targets/Peers.antt =====
-- deployment-core/pkg/deploycore/release/service.go: the peers that a node is told of.
use devopsellence.Base.{
  Bool, not, ◌&&◌, ◌≡◌, refl, subst, List, [], ◌∷◌, map, keep, Perm, Text, trim, is_empty, ◌==◌,
  arith,
}
use devopsellence.Base.SortLaws.{IsSorted, sort_by-IsSorted, sort_by-perm}
use devopsellence.Base.TextLaws.{text_lt_asymm, text_lt_negtrans}
use devopsellence.Plan.Types.{NodePeer}
use devopsellence.Release.Types.{Node}
use devopsellence.Release.Targets.{
  peer_of, peers_of, peer_less, labels_of, node_peers_for_publication,
}

-- The peer that a node with a name and a host is.
abbrev pub peer : Node → NodePeer
peer node = record {
  name = trim node.name;
  labels = labels_of node.config;
  public_address = trim node.config.host;
}

-- The node has a name other than that of the node itself, and a host.
abbrev pub is_peer : (current : Text) → Node → Bool
is_peer current node =
    not (is_empty (trim node.name))
    && not (trim node.name == current)
    && not (is_empty (trim node.config.host))

peers_of-keep :
    (current : Text) (nodes : List Node)
    → peers_of current nodes ≡ map peer (keep (is_peer current) nodes)
unfolding peers_of peer_of
peers_of-keep current [] = refl
peers_of-keep current (n ∷ ns) = ground (arith, peers_of-keep current ns)

-- The peers stand in the order of their names, and are those of the nodes that have a host and a
-- name other than that of the node itself: one for each such node, with its trimmed name and host
-- and its labels, and no other.
pub node_peers_for_publication_lem :
    (nodes : List Node) (current : Text)
    → let peers = node_peers_for_publication nodes current in
      IsSorted peer_less peers × Perm peers (map peer (keep (is_peer (trim current)) nodes))
unfolding node_peers_for_publication
node_peers_for_publication_lem nodes current = (
  sort_by-IsSorted peer_less (λ p q. text_lt_asymm p.name q.name)
      (λ p q r. text_lt_negtrans p.name q.name r.name) (peers_of (trim current) nodes),
  subst (Perm (node_peers_for_publication nodes current)) (peers_of-keep (trim current) nodes)
      (sort_by-perm peer_less (peers_of (trim current) nodes)),
)
