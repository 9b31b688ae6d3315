-- ===== src/Lib.antt =====
-- devopsellence deploys an application's services onto nodes. The deployment core (Go) makes
-- releases and deployments, reads a project's configuration, plans the desired state of each node,
-- and rolls an environment back to an earlier release. The command line (Go) keeps, in its solo
-- mode, a state of nodes, attachments, releases and secrets. The agent (Go) on a node takes a
-- desired state, checks it, runs its services in containers, and clears away the images that it does
-- not need any more. This library models these parts and proves what they promise.
--
-- The parts, and the files that model them:
--   Base: what the Go code takes from the language and its standard library. A string is a list of
--     Unicode code points (Text) with `==`, trim and the order of strings; a map is an association
--     list (Dict) in order of first insertion; `(T, error)` is a Result; sort.Strings and
--     sort.SliceStable are insertion sorts.
--   Config: deployment-core/pkg/deploycore/config/config.go. Types has the types, Defaults has
--     applyDefaults, Resolve the overlays of an environment (ResolveEnvironmentConfig), Resolved the
--     checks of one resolved environment, Validate has Validate, Store has Load and Write.
--   Plan: deployment-core/pkg/deploycore/desiredstate/desiredstate.go. Types has the documents,
--     Schedule what runs on a node by its labels (shouldScheduleService and the rest), Ingress the
--     merge of the ingresses (mergeIngressForNode), Publication the whole (PlanNodePublication),
--     Build a node's document out of the configuration (buildDesiredStateForNode).
--   Release: deployment-core/pkg/deploycore/release. Types has the stored values, Create has
--     NewRelease and NewDeployment, Select has SelectRollbackRelease, Targets has the nodes of a
--     release, its release task and its peers, Transaction has the store (store.go) and
--     PlanPublication, Rollback has Service.Rollback.
--   DesiredState: agent/internal/desiredstate. Names has names.go, Runtime has runtime.go, Validate
--     has validate.go; Types has the messages of agent/internal/desiredstatepb.
--   Engine: what agent/internal/engine/engine.go reports of containers and images.
--   DiskCare: agent/internal/diskcare/diskcare.go. Store has the record of releases, Retention what
--     is kept, Planning what a run works with and works out, Run has Manager.Run.
--   Reconcile: agent/internal/reconcile. Status has the status that is reported (status.go).
--   Solo: cli/internal/solo/state.go and secrets.go. Types has the state, Keys the keys of workspaces
--     and environments, Nodes, Attachments, Releases and Secrets the operations on the state,
--     Snapshot has buildDeploySnapshot and RedactDeploySnapshotSecrets, Normalize has normalizeState,
--     Store the file of the state.
--   Stored: agent/internal. Files has modes and owners (fileaccess/permissions.go) and the
--     replacement of a file, Lifecycle the tasks that are done (lifecycle/store.go), Cache and
--     Override the desired states that are kept (desiredstatecache), Fetch the authority that reads
--     one (authority/solo/authority.go).
--   Samples: concrete inputs.
-- A node's document is rendered out of a configuration that Config resolves (Plan.Build), and
-- Solo.Snapshot keeps parts of it; Release has the node's publication worked out by Plan when it
-- publishes; DiskCare uses the runtime view of DesiredState and the engine's reports; Stored.Fetch
-- parses its file by Stored.Override.
--
-- State: Service.Rollback works on a store (Tx), and Manager.Run on an engine. Both are parameters
-- that answer a call from the log of the calls before it, so that the answers may depend on
-- everything that happened; the log, newest first, is part of the result. Nothing is assumed of the
-- answers. Other parameters are the clock and its formats (Times), encoding/json and SHA-256
-- (Encoder, Env, Json), gopkg.in/yaml.v3 (Yaml), unicode.ToLower, path/filepath (Paths), the file
-- systems (FileSystem, Disk), whose operations take a disk to a disk and may fail, the state file and
-- os.Stat (Files), and protojson (Codec). The clock is read once in an operation.
--
-- Recursion is on lists. The only fuel is that of `decimal`, the decimal digits of a number; n + 1 is
-- enough for n, as each step divides by 10.
--
-- Sizes and sums of bytes are numbers without bound; the conversion of a port to 16 bits
-- (to_uint16) and the next sequence of 64 bits (next_int64) are written out. Where the code ranges over a Go map, whose order is not fixed, the list's order
-- stands for it. A nil slice or map is an empty one, except where the code tells them apart. A value
-- that is cloned is that value. sort.Slice, which is not stable, is modelled by the stable order.
--
-- Not modelled: the agent's reconcile loop
-- (the hash that a container should have is a parameter of Reconcile), the remote authority, reports,
-- Envoy and ACME, the clients of HTTP, SSH, Docker, git and the cloud, the commands of the command
-- line, and the control plane in Ruby.
pub mod Base
pub mod Config
pub mod Plan
pub mod Release
pub mod DesiredState
pub mod Engine
pub mod DiskCare
pub mod Reconcile
pub mod Solo
pub mod Stored
pub mod Samples
