-- ===== src/Solo/Nodes.antt =====
-- cli/internal/solo/state.go: the nodes of the state.
use devopsellence.Base.{
  ℕ, Bool, false, not, Option, some, none, List, [], ◌∷◌, Text, codes, trim, is_empty, ℤ, pos, leb,
  keys, insert, remove, sort_texts, Result, ok, ◌>>=◌, ◌>>◌, reject_if, if◌then◌else◌,
}
use devopsellence.Plan.Types.{NodeConfig}
use devopsellence.Plan.Schedule.{trimmed_distinct}
use devopsellence.Config.Types.{web}
use devopsellence.Config.Defaults.{is_zero, unless_blank}
use devopsellence.Solo.Types.{
  State, StateError, node_name_required, node_host_required, node_user_required, node_port_invalid,
}

abbrev present_labels : Option (List Text) → List Text
present_labels none = []
present_labels (some labels) = labels

-- normalizeNodeLabels, and the default when it leaves none.
unfoldable pub node_labels : Option (List Text) → List Text
node_labels labels =
    let normalized = trimmed_distinct (present_labels labels) in
    if is_empty normalized then web ∷ [] else normalized

unfoldable pub normalize_node : NodeConfig → NodeConfig
unfolding node_labels
normalize_node node = record node {
  port = if is_zero node.port then pos 22 else node.port;
  agent_state_dir = unless_blank node.agent_state_dir (codes "/var/lib/devopsellence");
  labels = some (node_labels node.labels);
}

-- `0 < port && port <= 65535`
abbrev pub is_port : ℤ → Bool
is_port (pos ℕ.zero) = false
is_port (pos (ℕ.suc n)) = leb (ℕ.suc n) 65535
is_port (ℤ.negsuc n) = false

unfoldable pub normalize_and_validate_node : Text → NodeConfig → Result StateError NodeConfig
unfolding normalize_node
normalize_and_validate_node name node = do
  reject_if (is_empty (trim name)) node_name_required
  let normalized = normalize_node node
  reject_if (is_empty (trim normalized.host)) (node_host_required (trim name))
  reject_if (is_empty (trim normalized.user)) (node_user_required (trim name))
  reject_if (not (is_port normalized.port)) (node_port_invalid (trim name))
  ok normalized

-- State.NodeNames
unfoldable pub node_names : State → List Text
node_names state = sort_texts (keys state.nodes)

unfoldable pub set_node : Text → NodeConfig → State → Result StateError State
unfolding normalize_and_validate_node
set_node name node state = normalize_and_validate_node (trim name) node >>= λ normalized.
    ok (record state { nodes = insert (trim name) normalized state.nodes })

unfoldable pub remove_node : Text → State → State
remove_node name state = record state { nodes = remove (trim name) state.nodes }
