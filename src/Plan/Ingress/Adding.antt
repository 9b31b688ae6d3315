-- ===== src/Plan/Ingress/Adding.antt =====
-- deployment-core/pkg/deploycore/desiredstate/desiredstate.go: what adding a host or a route to the
-- merged ingress keeps.
use devopsellence.Base.{
  true, ◌≡◌, refl, ap, subst, Option, none, some, Option-cases, List, [], ◌∷◌, ◌++◌, map, All, In,
  here, Text, ◌==◌, contains, contains-append, is_distinct, Dict, lookup, insert, has_key,
  has_key-insert, lookup-insert, has_key-lookup, Result, ok, Result-cases, arith, Bool-cases, inl,
  inr, ◌⊎◌,
}
use devopsellence.Base.Filtering.{In-append_left, In-append_right}
use devopsellence.Base.TextLaws.{eq_refl, eq_iff, eq_sound}
use devopsellence.Base.SortLaws.{is_distinct-snoc}
use devopsellence.Plan.Types.{IngressJson, IngressRouteJson}
use devopsellence.Plan.Ingress.{
  MergeError, Open, route_key, route_target, rename_route, add_host, add_hosts, add_route,
  add_routes,
}

-- A route of the ingress has the key and the target.
abbrev pub Serves : IngressJson → Text → Text → Type 0
Serves i key target =
    (r : IngressRouteJson) × In r i.routes × (route_key r ≡ key) × (route_target r ≡ target)

-- The sets of the loop are those of the ingress, which repeats no host and no route key.
pub record Agrees (i : IngressJson) (hosts : List Text) (routes : Dict Text) : Type 0 where
  pub hosts_known : (v : Text) → contains hosts v ≡ contains i.hosts v
  pub hosts_distinct : is_distinct i.hosts ≡ true
  pub routes_known : (k : Text) → has_key k routes ≡ contains (map route_key i.routes) k
  pub routes_distinct : is_distinct (map route_key i.routes) ≡ true
  pub routes_served : (k t : Text) → lookup k routes ≡ some t → Serves i k t

abbrev pub OpenAgrees : Open → Type 0
OpenAgrees m = Agrees m.ingress m.host_set m.route_set

add_host-Agrees : (m : Open) (h : Text) → OpenAgrees m → OpenAgrees (add_host m h)
unfolding add_host contains
add_host-Agrees m h a = elim (Bool-cases (contains m.host_set h)) [
  | inl e ↦ rw (e, add_host) a
  | inr e ↦
      rw (e, add_host)
        (record {
          hosts_known = λ v. known v;
          hosts_distinct = ground (arith, is_distinct-snoc m.ingress.hosts h, a.hosts_known h);
          routes_known = a.routes_known;
          routes_distinct = a.routes_distinct;
          routes_served = a.routes_served;
        })
]
  where
    known : (v : Text) → contains (h ∷ m.host_set) v ≡ contains (m.ingress.hosts ++ h ∷ []) v
    known v = ground (arith, contains-append m.ingress.hosts (h ∷ []) v, a.hosts_known v)

pub add_hosts-Agrees : (m : Open) (hs : List Text) → OpenAgrees m → OpenAgrees (add_hosts m hs)
unfolding add_hosts
add_hosts-Agrees m [] a = a
add_hosts-Agrees m (h ∷ hs) a = add_hosts-Agrees (add_host m h) hs (add_host-Agrees m h a)

pub ok-injective : {m m' : Open} → ◌≡◌ {A = Result MergeError Open} (ok m) (ok m') → m ≡ m'
ok-injective h = cc

-- The route is new, and is added; or it stands there already.
add_route-ok :
    (m m' : Open) (r : IngressRouteJson)
    → add_route m r ≡ ok m'
    → (lookup (route_key r) m.route_set ≡ some (route_target r)) × (m ≡ m')
      ⊎ ((lookup (route_key r) m.route_set ≡ none)
          × (record m {
            ingress = record (m.ingress) { routes = m.ingress.routes ++ r ∷ [] };
            route_set = insert (route_key r) (route_target r) m.route_set;
          }
              ≡ m'))
unfolding add_route
add_route-ok m m' r h = elim (Option-cases (lookup (route_key r) m.route_set)) [
  | inl e ↦ ground arith
  | inr (t, e) ↦ ground (arith, eq_iff t (route_target r))
]

module _ (m : Open) (r : IngressRouteJson) where
  abbrev with_route : Open
  with_route = record m {
    ingress = record (m.ingress) { routes = m.ingress.routes ++ r ∷ [] };
    route_set = insert (route_key r) (route_target r) m.route_set;
  }

  map-snoc :
      (rs : List IngressRouteJson)
      → map route_key (rs ++ r ∷ []) ≡ map route_key rs ++ route_key r ∷ []
  map-snoc [] = refl
  map-snoc (x ∷ rs) = ap (◌∷◌ (route_key x)) (map-snoc rs)

  Serves-snoc : (k t : Text) → Serves m.ingress k t → Serves with_route.ingress k t
  Serves-snoc k t (x, i, p, q) = (x, In-append_left (r ∷ []) i, p, q)

  with_route-served :
      ((k t : Text) → lookup k m.route_set ≡ some t → Serves m.ingress k t)
      → (k t : Text) → lookup k with_route.route_set ≡ some t
      → Serves with_route.ingress k t
  with_route-served a k t h = elim (Bool-cases (route_key r == k)) [
    | inl e ↦ (
      r,
      In-append_right m.ingress.routes (here refl),
      eq_sound _ k e,
      ground (arith, lookup-insert (route_key r) k (route_target r) m.route_set),
    )
    | inr e ↦
        Serves-snoc k t
          (a k t (ground (arith, lookup-insert (route_key r) k (route_target r) m.route_set)))
  ]

  with_route-Agrees : lookup (route_key r) m.route_set ≡ none → OpenAgrees m → OpenAgrees with_route
  unfolding contains
  with_route-Agrees fresh a = record {
    hosts_known = a.hosts_known;
    hosts_distinct = a.hosts_distinct;
    routes_known = λ k. known k;
    routes_distinct = ground (
      arith,
      map-snoc m.ingress.routes,
      is_distinct-snoc (map route_key m.ingress.routes) (route_key r),
      a.routes_known (route_key r),
      has_key-lookup (route_key r) m.route_set fresh,
      a.routes_distinct,
    );
    routes_served = with_route-served a.routes_served;
  }
    where
      known :
          (k : Text)
          → has_key k with_route.route_set ≡ contains (map route_key with_route.ingress.routes) k
      known k = ground (
        arith,
        map-snoc m.ingress.routes,
        contains-append (map route_key m.ingress.routes) (route_key r ∷ []) k,
        has_key-insert (route_key r) k (route_target r) m.route_set,
        a.routes_known k,
      )

add_route-Agrees :
    (m m' : Open) (r : IngressRouteJson) → add_route m r ≡ ok m' → OpenAgrees m → OpenAgrees m'
add_route-Agrees m m' r h a = elim (add_route-ok m m' r h) [
  | inl (_, same) ↦ subst OpenAgrees same a
  | inr (fresh, added) ↦ subst OpenAgrees added (with_route-Agrees m r fresh a)
]

-- Once a route key has a target, it keeps it.
abbrev pub Keeps : Dict Text → Dict Text → Type 0
Keeps old new = (k t : Text) → lookup k old ≡ some t → lookup k new ≡ some t

add_route-Keeps :
    (m m' : Open) (r : IngressRouteJson)
    → add_route m r ≡ ok m'
    → Keeps m.route_set m'.route_set × (lookup (route_key r) m'.route_set ≡ some (route_target r))
add_route-Keeps m m' r h = elim (add_route-ok m m' r h) [
  | inl (there_already, same) ↦
      subst
        (λ n.
          Keeps m.route_set n.route_set
          × (lookup (route_key r) n.route_set ≡ some (route_target r)))
        same ((λ k t e. e), there_already)
  | inr (fresh, added) ↦
      subst
        (λ n.
          Keeps m.route_set n.route_set
          × (lookup (route_key r) n.route_set ≡ some (route_target r)))
        added
        (
          (λ k t e. ground (
            arith,
            lookup-insert (route_key r) k (route_target r) m.route_set,
            eq_iff (route_key r) k,
            fresh,
          )),
          ground (
            arith,
            lookup-insert (route_key r) (route_key r) (route_target r) m.route_set,
            eq_refl (route_key r),
          ),
        )
]

-- The route with the environment's name on the node is there.
abbrev pub Routed : Option Text → Dict Text → IngressRouteJson → Type 0
Routed name routes r =
    lookup (route_key (rename_route name r)) routes ≡ some (route_target (rename_route name r))

pub add_routes-lem :
    (name : Option Text) (m m' : Open) (rs : List IngressRouteJson)
    → add_routes name m rs ≡ ok m'
    → (OpenAgrees m → OpenAgrees m')
      × Keeps m.route_set m'.route_set
      × All (Routed name m'.route_set) rs
unfolding add_routes
add_routes-lem name m m' [] h =
    let same : m ≡ m' = ok-injective h in
    subst (λ n. (OpenAgrees m → OpenAgrees n) × Keeps m.route_set n.route_set × Unit {0}) same
      ((λ a. a), (λ k t i. i), tt)
add_routes-lem name m m' (r ∷ rs) h = elim (Result-cases (add_route m (rename_route name r))) [
  | inr (x, e) ↦ absurd (ground arith)
  | inl (m1, e) ↦
      let (agrees, keeps, routed) = add_routes-lem name m1 m' rs (rw (e, add_routes) at h) in
      let (keeps1, here_now) = add_route-Keeps m m1 (rename_route name r) e in
      (
        (λ a. agrees (add_route-Agrees m m1 (rename_route name r) e a)),
        (λ k t i. keeps k t (keeps1 k t i)),
        (keeps _ _ here_now, routed),
      )
]
