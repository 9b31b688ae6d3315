-- ===== src/Plan/Ingress/Routes.antt =====
-- deployment-core/pkg/deploycore/desiredstate/desiredstate.go: the hosts and the routes of the merged
-- ingress of a node.
use devopsellence.Base.{
  true, ◌≡◌, refl, ap, subst, ◌∙◌, Option, none, some, Option-cases, List, [], ◌∷◌, map, All, Text,
  contains, is_distinct, Dict, lookup, has_key, ok, Result-cases, arith, Bool-cases, inl, inr,
}
use devopsellence.Base.Filtering.{All-map, In-sort_by_of}
use devopsellence.Base.SortLaws.{Ascending, sort_texts-Ascending, is_distinct-map-sort_by}
use devopsellence.Plan.Types.{DeploySnapshot, IngressJson}
use devopsellence.Plan.Schedule.{snapshot_key, snapshot_should_schedule_ingress}
use devopsellence.Plan.Ingress.Adding.{
  Serves, Agrees, OpenAgrees, add_hosts-Agrees, Keeps, Routed, add_routes-lem,
}
use devopsellence.Plan.Ingress.{
  Merge, Open, route_key, route_target, rename_route, add_host, add_hosts, add_routes, open_merge,
  merge_ingress, merge_snapshot, merge_snapshots, finish_ingress, no_merge, merge_ingress_for_node,
  start_ingress, route_less,
}

-- What the loop over the snapshots keeps.
abbrev MergeAgrees : Option IngressJson → List Text → Dict Text → Type 0
MergeAgrees none hosts routes = (hosts ≡ []) × (routes ≡ [])
MergeAgrees (some i) hosts routes = Agrees i hosts routes

abbrev Consistent : Merge → Type 0
Consistent m = MergeAgrees m.merged m.host_set m.route_set

route_set-add_hosts : (m : Open) (hs : List Text) → (add_hosts m hs).route_set ≡ m.route_set
unfolding add_hosts add_host
route_set-add_hosts m [] = refl
route_set-add_hosts m (h ∷ hs) = route_set-add_hosts (add_host m h) hs ∙ ground arith

start-Agrees : (i : IngressJson) → Agrees (start_ingress i) [] []
unfolding start_ingress contains is_distinct has_key lookup
start-Agrees i = record {
  hosts_known = λ v. refl;
  hosts_distinct = refl;
  routes_known = λ k. refl;
  routes_distinct = refl;
  routes_served = λ k t h. absurd (ground arith);
}

open_merge-none :
    (hosts : List Text) (routes : Dict Text) (i : IngressJson) (m' : Open)
    → open_merge (record { merged = none; host_set = hosts; route_set = routes }) i ≡ ok m'
    → record { ingress = start_ingress i; host_set = hosts; route_set = routes } ≡ m'
unfolding open_merge
open_merge-none hosts routes i m' h = ground arith

open_merge-some :
    (old : IngressJson) (hosts : List Text) (routes : Dict Text) (i : IngressJson) (m' : Open)
    → open_merge (record { merged = some old; host_set = hosts; route_set = routes }) i ≡ ok m'
    → record { ingress = old; host_set = hosts; route_set = routes } ≡ m'
unfolding open_merge
open_merge-some old hosts routes i m' h = ground arith

open_merge-Agrees :
    (old : Option IngressJson) (hosts : List Text) (routes : Dict Text) (i : IngressJson)
    (m' : Open)
    → open_merge (record { merged = old; host_set = hosts; route_set = routes }) i ≡ ok m'
    → (MergeAgrees old hosts routes → OpenAgrees m') × (m'.route_set ≡ routes)
open_merge-Agrees none hosts routes i m' h =
    subst (λ n. ((hosts ≡ []) × (routes ≡ []) → OpenAgrees n) × (n.route_set ≡ routes))
      (open_merge-none hosts routes i m' h)
      ((λ (no_hosts, no_routes). rw (no_hosts, no_routes) (start-Agrees i)), refl)
open_merge-Agrees (some old) hosts routes i m' h =
    subst (λ n. (Agrees old hosts routes → OpenAgrees n) × (n.route_set ≡ routes))
      (open_merge-some old hosts routes i m' h) ((λ a. a), refl)

-- The routes of a snapshot, if its ingress is scheduled on the node.
abbrev pub SnapshotRouted : Option (List Text) → Dict Text → Dict Text → DeploySnapshot → Type 0
SnapshotRouted labels names routes s =
    (g : IngressJson)
    → s.ingress ≡ some g
    → snapshot_should_schedule_ingress labels s g ≡ true
    → All (Routed (lookup (snapshot_key s) names) routes) g.routes

merged_ok :
    (names : Dict Text) (m m' : Merge) (s : DeploySnapshot) (g : IngressJson) (opened added : Open)
    → open_merge m g ≡ ok opened
    → add_routes (lookup (snapshot_key s) names) (add_hosts opened g.hosts) g.routes ≡ ok added
    → merge_ingress names m s g ≡ ok m'
    → record { merged = some added.ingress; host_set = added.host_set; route_set = added.route_set }
      ≡ m'
unfolding merge_ingress
merged_ok names m m' s g opened added e f h = ground arith

merge_ingress-lem :
    (names : Dict Text) (m m' : Merge) (s : DeploySnapshot) (g : IngressJson)
    → merge_ingress names m s g ≡ ok m'
    → (Consistent m → Consistent m')
      × Keeps m.route_set m'.route_set
      × All (Routed (lookup (snapshot_key s) names) m'.route_set) g.routes
unfolding merge_ingress
merge_ingress-lem names m m' s g h = elim (Result-cases (open_merge m g)) [
  | inr (x, e) ↦ absurd (ground arith)
  | inl (opened, e) ↦
      elim (Result-cases
        (add_routes (lookup (snapshot_key s) names) (add_hosts opened g.hosts) g.routes)) [
          | inr (x, f) ↦ absurd (ground arith)
          | inl (added, f) ↦
              let (agrees1, same1) = open_merge-Agrees m.merged m.host_set m.route_set g opened e in
              let (agrees, keeps, routed) = add_routes-lem _ _ added g.routes f in
              let same2 = route_set-add_hosts opened g.hosts in
              subst
                (λ n.
                  (Consistent m → Consistent n)
                  × Keeps m.route_set n.route_set
                  × All (Routed (lookup (snapshot_key s) names) n.route_set) g.routes)
                (merged_ok names m m' s g opened added e f h)
                (
                  (λ a. agrees (add_hosts-Agrees opened g.hosts (agrees1 a))),
                  (λ k t i. keeps k t (rw (same2, same1) i)),
                  routed,
                )
        ]
]

same_ingress :
    (s : DeploySnapshot) (g g' : IngressJson) → s.ingress ≡ some g → s.ingress ≡ some g' → g ≡ g'
same_ingress s g g' p q = ground arith

unchanged :
    (labels : Option (List Text)) (names : Dict Text) (m m' : Merge) (s : DeploySnapshot)
    → m ≡ m'
    → SnapshotRouted labels names m.route_set s
    → (Consistent m → Consistent m')
      × Keeps m.route_set m'.route_set
      × SnapshotRouted labels names m'.route_set s
unchanged labels names m m' s same routed =
    subst
      (λ n.
        (Consistent m → Consistent n)
        × Keeps m.route_set n.route_set
        × SnapshotRouted labels names n.route_set s)
      same ((λ a. a), (λ k t i. i), routed)

merge_snapshot-lem :
    (labels : Option (List Text)) (names : Dict Text) (m m' : Merge) (s : DeploySnapshot)
    → merge_snapshot labels names m s ≡ ok m'
    → (Consistent m → Consistent m')
      × Keeps m.route_set m'.route_set
      × SnapshotRouted labels names m'.route_set s
unfolding merge_snapshot
merge_snapshot-lem labels names m m' s h = elim (Option-cases s.ingress) [
  | inl absent ↦ unchanged labels names m m' s (ground arith) (λ g p q. absurd (ground arith))
  | inr (g, present) ↦ elim (Bool-cases (snapshot_should_schedule_ingress labels s g)) [
    | inr e ↦ unchanged labels names m m' s (ground arith) (λ g' p q.
        let same : g ≡ g' = ground arith in
        absurd (ground (arith, ap (snapshot_should_schedule_ingress labels s) same)))
    | inl e ↦
        let (agrees, keeps, routed) = merge_ingress-lem names m m' s g (ground arith) in
        (
          agrees,
          keeps,
          λ g' p q.
              subst
                (λ (x : IngressJson).
                  All (Routed (lookup (snapshot_key s) names) m'.route_set) x.routes)
                (same_ingress s g g' present p) routed,
        )
  ]
]

merge_snapshots-lem :
    (labels : Option (List Text)) (names : Dict Text) (m m' : Merge) (ss : List DeploySnapshot)
    → merge_snapshots labels names m ss ≡ ok m'
    → (Consistent m → Consistent m')
      × Keeps m.route_set m'.route_set
      × All (SnapshotRouted labels names m'.route_set) ss
unfolding merge_snapshots
merge_snapshots-lem labels names m m' [] h =
    let same : m ≡ m' = ground arith in
    subst (λ n. (Consistent m → Consistent n) × Keeps m.route_set n.route_set × Unit {0}) same
      ((λ a. a), (λ k t i. i), tt)
merge_snapshots-lem labels names m m' (s ∷ ss) h =
    elim (Result-cases (merge_snapshot labels names m s)) [
      | inr (x, e) ↦ absurd (ground arith)
      | inl (m1, e) ↦
          let (agrees1, keeps1, routed1) = merge_snapshot-lem labels names m m1 s e in
          let (agrees, keeps, routed) =
            merge_snapshots-lem labels names m1 m' ss (rw (e, merge_snapshots) at h) in
          (
            (λ a. agrees (agrees1 a)),
            (λ k t i. keeps k t (keeps1 k t i)),
            ((λ g p q. All-map _ _ (λ r i. keeps _ _ i) g.routes (routed1 g p q)), routed),
          )
    ]

-- The merged ingress is in order, and routes what the snapshots ask for.
pub record IsMerged (labels : Option (List Text)) (ss : List DeploySnapshot) (names : Dict Text)
    (i : IngressJson) : Type 0 where
  pub hosts_ascending : Ascending i.hosts
  pub routes_distinct : is_distinct (map route_key i.routes) ≡ true
  pub served :
      All
        (λ s.
          (g : IngressJson)
          → s.ingress ≡ some g
          → snapshot_should_schedule_ingress labels s g ≡ true
          → All
              (λ r.
                let renamed = rename_route (lookup (snapshot_key s) names) r in
                Serves i (route_key renamed) (route_target renamed))
              g.routes)
        ss

Serves-finish : (i : IngressJson) (k t : Text) → Serves i k t → Serves (finish_ingress i) k t
unfolding finish_ingress
Serves-finish i k t (r, m, p, q) = (r, In-sort_by_of route_less i.routes m, p, q)

finish-IsMerged :
    (labels : Option (List Text)) (names : Dict Text) (ss : List DeploySnapshot) (m : Merge)
    (i : IngressJson)
    → Agrees i m.host_set m.route_set
    → All (SnapshotRouted labels names m.route_set) ss
    → IsMerged labels ss names (finish_ingress i)
finish-IsMerged labels names ss m i a routed = record {
  hosts_ascending = unfold finish_ingress in sort_texts-Ascending i.hosts a.hosts_distinct;
  routes_distinct =
      unfold finish_ingress in
      (is_distinct-map-sort_by route_less route_key i.routes ∙ a.routes_distinct);
  served =
      All-map (SnapshotRouted labels names m.route_set) _
        (λ s f g p q.
          All-map (Routed (lookup (snapshot_key s) names) m.route_set) _
            (λ r e. Serves-finish i _ _ (a.routes_served _ _ e)) g.routes (f g p q))
        ss routed;
}

-- When the ingresses of the environments on a node merge, the merged one has its hosts in strictly
-- ascending order, no two routes of one host and path prefix, and, for every snapshot whose ingress
-- is scheduled on the node, each of its routes with its target, renamed to the environment's name
-- on the node.
pub merge_ingress_for_node-IsMerged :
    (labels : Option (List Text)) (snapshots : List DeploySnapshot) (names : Dict Text)
    (i : IngressJson)
    → merge_ingress_for_node labels snapshots names ≡ ok (some i)
    → IsMerged labels snapshots names i
unfolding merge_ingress_for_node
merge_ingress_for_node-IsMerged labels snapshots names i h =
    elim (Result-cases (merge_snapshots labels names no_merge snapshots)) [
      | inr (x, e) ↦ absurd (ground arith)
      | inl (m, e) ↦
          let (agrees, keeps, routed) = merge_snapshots-lem labels names no_merge m snapshots e in
          elim (Option-cases m.merged) [
            | inl absent ↦ absurd (ground arith)
            | inr (j, present) ↦ subst (IsMerged labels snapshots names) (ground arith) (
                finish-IsMerged labels names snapshots m j
                  (subst (λ o. MergeAgrees o m.host_set m.route_set) present (agrees (refl, refl)))
                  routed)
          ]
    ]
