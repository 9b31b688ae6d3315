-- ===== src/Plan/Schedule.antt =====
-- deployment-core/pkg/deploycore/desiredstate/desiredstate.go: labels, the keys and names of
-- snapshots, and which services a node runs.
use Prim.Native.Nat.{ℕ}
use devopsellence.Base.{
  Bool, true, false, ◌&&◌, ◌||◌, Option, none, some, List, [], ◌∷◌, ◌++◌, map, Text, ◌==◌, codes,
  trim, trim_by, is_empty, distinct, sort_texts, keep, any, all, Dict, insert, lookup, leb, nat_eq,
  if◌then◌else◌, ◌+◌,
}
use devopsellence.Plan.Types.{DeploySnapshot, IngressJson, ServiceJson, NodePeer, NodePeerJson}

-- config.DefaultEnvironment
abbrev pub production : Text
production = codes "production"

-- A value trimmed, or the default if that is empty.
abbrev pub or_default : Text → Text → Text
or_default s d = if is_empty s then d else s

unfoldable pub default_environment_name : Text → Text
default_environment_name name = or_default (trim name) production

unfoldable pub snapshot_key : DeploySnapshot → Text
unfolding default_environment_name
snapshot_key s = trim s.workspace_key ++ 10 ∷ default_environment_name s.environment

unfoldable pub has_label : List Text → Text → Bool
has_label labels want = any (λ label. trim label == trim want) labels

unfoldable pub should_schedule_service : Option (List Text) → Text → Bool
unfolding has_label
should_schedule_service none kind = true
should_schedule_service (some labels) kind = has_label labels kind

-- Trimmed, without the empty and the repeated ones, in order of first occurrence.
abbrev pub trimmed_distinct : List Text → List Text
trimmed_distinct xs = distinct [] (keep (λ x. if is_empty x then false else true) (map trim xs))

unfoldable pub normalized_labels : List Text → List Text
normalized_labels = trimmed_distinct

build_node_peer : NodePeer → List NodePeerJson
unfolding normalized_labels
build_node_peer peer =
    let name = trim peer.name in
    let address = trim peer.public_address in
    let labels = normalized_labels peer.labels in
    if is_empty name && is_empty address && is_empty labels
    then []
    else record { name = name; labels = labels; public_address = address } ∷ []

unfoldable pub build_node_peers : List NodePeer → List NodePeerJson
unfolding build_node_peer
build_node_peers [] = []
build_node_peers (p ∷ ps) = build_node_peer p ++ build_node_peers ps

unfoldable pub ingress_target_service_names_from_routes : IngressJson → List Text
ingress_target_service_names_from_routes ingress =
    sort_texts (trimmed_distinct (map (λ r. r.target.service) ingress.routes))

-- The kind of each service by its trimmed name; a later service of the name wins.
unfoldable pub service_kinds : Dict Text → List ServiceJson → Dict Text
service_kinds kinds [] = kinds
service_kinds kinds (s ∷ ss) = service_kinds (insert (trim s.name) (trim s.kind) kinds) ss

unfoldable pub schedules_kind_of : Option (List Text) → Dict Text → Text → Bool
schedules_kind_of labels kinds name = elim (lookup name kinds) [
  | none ↦ false
  | some kind ↦ should_schedule_service labels kind
]

-- snapshotShouldScheduleIngress, for a snapshot whose ingress is given.
unfoldable pub snapshot_should_schedule_ingress :
    Option (List Text) → DeploySnapshot → IngressJson → Bool
unfolding ingress_target_service_names_from_routes service_kinds schedules_kind_of
snapshot_should_schedule_ingress labels snapshot ingress =
    let names = ingress_target_service_names_from_routes ingress in
    if is_empty names
    then false
    else all (schedules_kind_of labels (service_kinds [] snapshot.services)) names

-- The Unicode lower case, as far as it gives an ASCII letter.
unfoldable pub ascii_lower : ℕ → ℕ
ascii_lower c =
    if leb 65 c && leb c 90
    then c + 32
    else if nat_eq c 0x130
    then 105
    else if nat_eq c 0x212A
    then 107
    else c

abbrev is_token : ℕ → Bool
is_token c = (leb 97 c && leb c 122) || (leb 48 c && leb c 57)

-- The loop of normalizeEnvironmentNameToken: a run of other runes becomes one dash.
token_runes : Bool → Text → Text
token_runes last_dash [] = []
token_runes last_dash (c ∷ s) =
    let kept = c ∷ token_runes false s in
    let dashed = 45 ∷ token_runes true s in
    let skipped = token_runes true s in
    if is_token c then kept else if last_dash then skipped else dashed

unfoldable pub normalize_environment_name_token : Text → Text
unfolding token_runes ascii_lower
normalize_environment_name_token value =
    trim_by (λ c. nat_eq c 45) (token_runes false (map ascii_lower (trim value)))
