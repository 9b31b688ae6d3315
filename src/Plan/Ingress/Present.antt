-- ===== src/Plan/Ingress/Present.antt =====
-- deployment-core/pkg/deploycore/desiredstate/desiredstate.go: when mergeIngressForNode gives an
-- ingress at all.
use devopsellence.Base.{
  Bool, true, false, ◌||◌, ◌≡◌, refl, sym, ap, ◌∙◌, Option, none, some, Option-cases, List, [], ◌∷◌,
  any, Text, Result, err, Dict, lookup, ok, bind-ok, Bool-cases, arith, inl, inr,
}
use devopsellence.Plan.Types.{DeploySnapshot, IngressJson}
use devopsellence.Plan.Schedule.{snapshot_key, snapshot_should_schedule_ingress}
use devopsellence.Plan.Ingress.{
  Merge, no_merge, MergeError, open_merge, merge_ingress, merge_snapshot, merge_snapshots,
  merge_ingress_for_node, finish_ingress, add_routes, add_hosts,
}

abbrev pub is_there {ℓ} : {A : Type ℓ} → Option A → Bool
is_there none = false
is_there (some a) = true

-- The ingress is there and scheduled on the node.
abbrev pub is_scheduled : Option (List Text) → DeploySnapshot → Option IngressJson → Bool
is_scheduled labels s none = false
is_scheduled labels s (some i) = snapshot_should_schedule_ingress labels s i

abbrev pub has_scheduled_ingress : Option (List Text) → DeploySnapshot → Bool
has_scheduled_ingress labels s = is_scheduled labels s s.ingress

value_of {ℓ} : {A : Type ℓ} {a b : A} → ◌≡◌ {A = Result MergeError A} (ok a) (ok b) → a ≡ b
value_of {a = a} h = ap (λ r. elim r [ ok x ↦ x | err e ↦ a ]) h

-- A merge that is another one has its ingress.
same_there :
    {m m' : Merge}
    → ◌≡◌ {A = Result MergeError Merge} (ok m) (ok m')
    → is_there m'.merged ≡ (is_there m.merged || false)
same_there {m} h = ap (λ n. is_there n.merged) (sym (value_of h)) ∙ ground arith

-- The merged ingress, put in order.
abbrev finished : Option IngressJson → Option IngressJson
finished merged = elim merged [ none ↦ none | some i ↦ some (finish_ingress i) ]

merge_ingress-there :
    (names : Dict Text) (m m' : Merge) (s : DeploySnapshot) (i : IngressJson)
    → merge_ingress names m s i ≡ ok m'
    → is_there m'.merged ≡ true
unfolding merge_ingress
merge_ingress-there names m m' s i h =
    let (opened, (o, h1)) = bind-ok (open_merge m i) _ m' h in
    let (added, (a, h2)) =
      bind-ok (add_routes (lookup (snapshot_key s) names) (add_hosts opened i.hosts) i.routes) _ m'
        h1 in
    ap (λ n. is_there n.merged) (sym (value_of h2))

merge_snapshot-there :
    (labels : Option (List Text)) (names : Dict Text) (m m' : Merge) (s : DeploySnapshot)
    → merge_snapshot labels names m s ≡ ok m'
    → is_there m'.merged ≡ (is_there m.merged || has_scheduled_ingress labels s)
unfolding merge_snapshot snapshot_should_schedule_ingress snapshot_key
merge_snapshot-there labels names m m' s h = elim (Option-cases s.ingress) [
  | inl absent ↦ rw absent (same_there (rw absent at h))
  | inr (i, present) ↦ elim (Bool-cases (snapshot_should_schedule_ingress labels s i)) [
    | inl e ↦
        rw (present, e)
          (merge_ingress-there names m m' s i (rw e at (rw present at h)) ∙ ground arith)
    | inr e ↦ rw (present, e) (same_there (rw e at (rw present at h)))
  ]
]

merge_snapshots-there :
    (labels : Option (List Text)) (names : Dict Text) (m m' : Merge) (ss : List DeploySnapshot)
    → merge_snapshots labels names m ss ≡ ok m'
    → is_there m'.merged ≡ (is_there m.merged || any (has_scheduled_ingress labels) ss)
unfolding merge_snapshots
merge_snapshots-there labels names m m' [] h = same_there h
merge_snapshots-there labels names m m' (s ∷ ss) h =
    let (next, (e, h1)) = bind-ok (merge_snapshot labels names m s) _ m' h in
    ground (
      arith,
      merge_snapshot-there labels names m next s e,
      merge_snapshots-there labels names next m' ss h1,
    )

finished-there : (o : Option IngressJson) → is_there (finished o) ≡ is_there o
finished-there none = refl
finished-there (some i) = refl

-- The node has an ingress exactly if some snapshot has one that is scheduled there.
pub is_there-merge_ingress_for_node :
    (labels : Option (List Text)) (ss : List DeploySnapshot) (names : Dict Text)
    (merged : Option IngressJson)
    → merge_ingress_for_node labels ss names ≡ ok merged
    → is_there merged ≡ any (has_scheduled_ingress labels) ss
unfolding merge_ingress_for_node
is_there-merge_ingress_for_node labels ss names merged h =
    let (m, (e, h1)) = bind-ok (merge_snapshots labels names no_merge ss) _ merged h in
    ap is_there (sym (value_of h1))
    ∙ (finished-there m.merged ∙ merge_snapshots-there labels names no_merge m ss e)
