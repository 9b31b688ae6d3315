-- ===== src/Plan/Ingress.antt =====
-- deployment-core/pkg/deploycore/desiredstate/desiredstate.go: mergeIngressForNode, the one ingress
-- of a node from those of the environments on it. The loops carry `hostSet` and `routeSet`.
mod Adding
pub mod Present
pub mod Routes
use devopsellence.Base.{
  Bool, true, false, not, ◌&&◌, ◌||◌, Option, none, some, List, [], ◌∷◌, ◌++◌, Text, ◌==◌, codes,
  trim, is_empty, contains, Dict, insert, lookup, Result, ok, err, ◌>>=◌, text_lt, sort_by,
  sort_texts, if◌then◌else◌,
}
use devopsellence.Plan.Types.{DeploySnapshot, IngressJson, IngressTlsJson, IngressRouteJson}
use devopsellence.Plan.Schedule.{or_default, snapshot_key, snapshot_should_schedule_ingress}

pub data MergeError : Type 0 where
  -- Whether the TLS, the mode and the redirect differ.
  different_settings : (tls mode redirect_http : Bool) → MergeError
  duplicate_route : (hostname path_prefix : Text) → MergeError

unfoldable pub normalized_ingress_mode : Text → Text
normalized_ingress_mode mode = or_default (trim mode) (codes "public")

unfoldable pub tls_eq : IngressTlsJson → IngressTlsJson → Bool
tls_eq a b = a.mode == b.mode && a.email == b.email && a.ca_directory_url == b.ca_directory_url

unfoldable pub bool_eq : Bool → Bool → Bool
bool_eq true b = b
bool_eq false b = not b

unfoldable pub route_key : IngressRouteJson → Text
route_key r = r.match.hostname ++ 10 ∷ r.match.path_prefix

unfoldable pub route_target : IngressRouteJson → Text
route_target r = r.target.environment ++ 10 ∷ (r.target.service ++ 10 ∷ r.target.port)

pub record Merge : Type 0 where
  pub merged : Option IngressJson
  pub host_set : List Text
  pub route_set : Dict Text

-- A merge whose ingress is there.
pub record Open : Type 0 where
  pub ingress : IngressJson
  pub host_set : List Text
  pub route_set : Dict Text

unfoldable pub add_host : Open → Text → Open
add_host m host = if contains m.host_set host then m else record m {
  ingress = record (m.ingress) { hosts = m.ingress.hosts ++ host ∷ [] };
  host_set = host ∷ m.host_set;
}

unfoldable pub add_hosts : Open → List Text → Open
unfolding add_host
add_hosts m [] = m
add_hosts m (h ∷ hs) = add_hosts (add_host m h) hs

-- The route with the environment's name on the node, if it has one.
unfoldable pub rename_route : Option Text → IngressRouteJson → IngressRouteJson
rename_route none r = r
rename_route (some name) r =
    if is_empty name then r else record r { target = record (r.target) { environment = name } }

unfoldable pub add_route : Open → IngressRouteJson → Result MergeError Open
unfolding route_key route_target
add_route m r = elim (lookup (route_key r) m.route_set) [
  | some existing ↦
      if existing == route_target r
      then ok m
      else err (duplicate_route r.match.hostname r.match.path_prefix)
  | none ↦ ok (record m {
    ingress = record (m.ingress) { routes = m.ingress.routes ++ r ∷ [] };
    route_set = insert (route_key r) (route_target r) m.route_set;
  })
]

unfoldable pub add_routes : Option Text → Open → List IngressRouteJson → Result MergeError Open
unfolding add_route rename_route
add_routes name m [] = ok m
add_routes name m (r ∷ rs) = add_route m (rename_route name r) >>= λ m'. add_routes name m' rs

unfoldable pub start_ingress : IngressJson → IngressJson
start_ingress i = record {
  hosts = [];
  mode = i.mode;
  tls = i.tls;
  redirect_http = i.redirect_http;
  routes = [];
}

-- The merged ingress to add to: a new one with the settings of the first, or the old one if the
-- settings agree.
unfoldable pub open_merge : Merge → IngressJson → Result MergeError Open
unfolding start_ingress normalized_ingress_mode tls_eq bool_eq
open_merge m i = elim m.merged [
  | none ↦ ok (record { ingress = start_ingress i; host_set = m.host_set; route_set = m.route_set })
  | some old ↦
      let same_tls = tls_eq old.tls i.tls in
      let same_mode = normalized_ingress_mode old.mode == normalized_ingress_mode i.mode in
      let same_redirect = bool_eq old.redirect_http i.redirect_http in
      if same_tls && same_redirect && same_mode
      then ok (record { ingress = old; host_set = m.host_set; route_set = m.route_set })
      else err (different_settings (not same_tls) (not same_mode) (not same_redirect))
]

unfoldable pub merge_ingress :
    Dict Text → Merge → DeploySnapshot → IngressJson → Result MergeError Merge
unfolding open_merge add_hosts add_routes
merge_ingress names m snapshot i = do
  opened ← open_merge m i
  added ← add_routes (lookup (snapshot_key snapshot) names) (add_hosts opened i.hosts) i.routes
  ok (record {
    merged = some added.ingress;
    host_set = added.host_set;
    route_set = added.route_set;
  })

-- The body of the loop over the snapshots.
unfoldable pub merge_snapshot :
    Option (List Text) → Dict Text → Merge → DeploySnapshot → Result MergeError Merge
unfolding merge_ingress
merge_snapshot labels names m snapshot = elim snapshot.ingress [
  | none ↦ ok m
  | some i ↦
      if snapshot_should_schedule_ingress labels snapshot i
      then merge_ingress names m snapshot i
      else ok m
]

unfoldable pub merge_snapshots :
    Option (List Text) → Dict Text → Merge → List DeploySnapshot → Result MergeError Merge
unfolding merge_snapshot
merge_snapshots labels names m [] = ok m
merge_snapshots labels names m (s ∷ ss) =
    merge_snapshot labels names m s >>= λ m'. merge_snapshots labels names m' ss

-- Less in the first text that differs.
abbrev then_less : Text → Text → Bool → Bool
then_less a b rest = if a == b then rest else text_lt a b

unfoldable pub route_less : IngressRouteJson → IngressRouteJson → Bool
route_less l r = then_less l.match.hostname r.match.hostname (
    then_less l.target.environment r.target.environment (
      then_less l.target.service r.target.service
        (then_less l.match.path_prefix r.match.path_prefix (text_lt l.target.port r.target.port))))

unfoldable pub finish_ingress : IngressJson → IngressJson
unfolding route_less
finish_ingress i = record i { hosts = sort_texts i.hosts; routes = sort_by route_less i.routes }

abbrev pub no_merge : Merge
no_merge = record { merged = none; host_set = []; route_set = [] }

unfoldable pub merge_ingress_for_node :
    Option (List Text) → List DeploySnapshot → Dict Text → Result MergeError (Option IngressJson)
unfolding merge_snapshots finish_ingress
merge_ingress_for_node labels snapshots names =
    merge_snapshots labels names no_merge snapshots >>= λ m.
    ok (elim m.merged [ none ↦ none | some i ↦ some (finish_ingress i) ])
