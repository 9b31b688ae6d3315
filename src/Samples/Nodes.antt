-- ===== src/Samples/Nodes.antt =====
-- The nodes of a release, and the ingress of one of them.
use devopsellence.Base.{
  Perm, keep, map, true, sort_texts, distinct, ◌==◌, lookup, insert, refl, none, [], ◌∷◌, codes,
  trim,
}
use devopsellence.Base.SortLaws.{IsSorted}
use devopsellence.Plan.Schedule.{snapshot_should_schedule_ingress, should_schedule_service}
use devopsellence.Plan.Types.{IngressJson}
use devopsellence.Plan.Ingress.{merge_ingress_for_node}
use devopsellence.Plan.Ingress.Routes.{IsMerged, merge_ingress_for_node-IsMerged}
use devopsellence.Release.Targets.{
  nodes_by_name, node_names, release_snapshot_key, release_nodes_for_publication, peer_less,
  node_peers_for_publication,
}
use devopsellence.Release.Targets.Coverage.{RunsOn, release_nodes_for_publication-RunsOn}
use devopsellence.Release.Targets.Peers.{is_peer, peer, node_peers_for_publication_lem}
use devopsellence.Samples.Values.{migrate, old_release, two_nodes, web_snapshot, web_route}

release_nodes_example :
    RunsOn
      (nodes_by_name [] two_nodes)
      (node_names two_nodes)
      old_release.snapshot.release_service_kind
      (release_snapshot_key old_release.snapshot)
      (release_nodes_for_publication old_release two_nodes)
release_nodes_example = release_nodes_for_publication-RunsOn old_release two_nodes migrate refl

peers_example :
    let peers = node_peers_for_publication two_nodes (codes "n1") in
    IsSorted peer_less peers × Perm peers (map peer (keep (is_peer (trim (codes "n1"))) two_nodes))
peers_example = node_peers_for_publication_lem two_nodes (codes "n1")

abbrev merged : IngressJson
merged = record {
  hosts = codes "a" ∷ codes "b" ∷ [];
  mode = [];
  tls = record { mode = []; email = []; ca_directory_url = [] };
  redirect_http = true;
  routes = web_route (codes "a") ∷ web_route (codes "b") ∷ [];
}

merged_example : IsMerged none (web_snapshot ∷ []) [] merged
unfolding merge_ingress_for_node snapshot_should_schedule_ingress sort_texts distinct trim ◌==◌
    lookup insert should_schedule_service
merged_example = merge_ingress_for_node-IsMerged none (web_snapshot ∷ []) [] merged refl
