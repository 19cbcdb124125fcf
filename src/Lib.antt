-- ===== src/Lib.antt =====
-- KubeOpenCode: the controllers that run Tasks and CronTasks on a Kubernetes cluster.
--
-- A CronTask creates Tasks on a schedule. A Task runs in a Pod, with the configuration of the Agent
-- or the AgentTemplate that it names; it waits in a queue while its Agent is suspended, not ready,
-- busy or over its quota; it ends when its Pod ends, when its user stops it or when its time is
-- over; and it is deleted some time later. The controllers share nothing but the API server: each
-- is called with the name of an object, reads it, and writes what it decides.
--
-- The files and the code that they are about (paths from the repository's root):
--   Api         api/v1alpha1/*_types.go: the objects, with errors and messages.
--   Client      what the controllers run against. `Env` answers every call of the API server, the
--               clock, the OpenCode server and the libraries, as it likes and depending on all
--               earlier calls; a handler is an action of `E`, which returns a result or an error
--               and the list of its calls with their answers. Client/Rules has the rules for
--               statements about every call that an action makes, with the list of the calls that
--               only read or announce (Client/Rules/Reads), and those for its results; Client/Cases
--               has the rules for one run.
--   Config      `ResolveAgentConfig`, `ResolveTemplateToConfig` and the defaults of
--               internal/controller/pod_builder.go, internal/controller/template_merge.go, and
--               `resolveSystemConfig` of internal/controller/task_controller.go.
--   Skills      internal/controller/skill_processor.go: the Git mounts of skills, the names and paths
--               of plugins (Skills/Plugins), and OpenCode's configuration with both injected
--               (Skills/Inject, Skills/Pipeline).
--   Context     internal/controller/context_processor.go: the resolution of one context item and of
--               a list of them. Context/Files puts the results into files, Context/Task is
--               `processAllContexts` of internal/controller/task_controller.go, Context/Init the
--               files' way into the workspace (`buildContextInitContainer` of
--               internal/controller/pod_builder.go, `runContextInit` of
--               cmd/kubeopencode/context_init.go), Context/Server an Agent's ConfigMap and its hash.
--   Cron        internal/controller/crontask_controller.go. Cron/Schedule finds the activation that
--               is due, Cron/Children lists, creates and stops the child Tasks, Cron/Reconcile is
--               `Reconcile`, cut where the code returns early.
--   Task        internal/controller/task_controller.go. Task/Status has the tests on a Task,
--               Task/Quota the sliding window of starts, Task/Queue `handleQueuedTask` with
--               `checkAgentCapacity` and the look-up of Agents, Task/Stop `handleStop`,
--               `handleTimeout` and `updateTaskFailed`, Task/Pods `updateTaskStatusFromPod`,
--               Task/Sessions `resolveSessionInfo` with internal/controller/opencode_client.go,
--               Task/Mounts the keys of files and the check of mount paths, Task/Cleanup
--               `handleTaskCleanup`, Task/Start `initializeTask` up to the running status,
--               Task/Start/Pod the rest of it, Task/Reconcile `Reconcile`. Task/Reads has the rules
--               for the calls that only read.
--   Server      the rest of internal/controller/agent_controller.go as far as it is modelled:
--               Server/Contexts is `processAgentContexts`, Server/Objects `reconcileContextConfigMap`
--               and `reconcileTemplateLabel`, Server/Status `updateAgentStatus`, and
--               Server/Share `reconcileShare` of internal/controller/share.go.
--   Standby     `reconcileStandby` of internal/controller/agent_controller.go with what it calls.
--   Prelude     numbers, lists, strings, maps and sorting.
--   Tests       concrete clusters, and runs on them.
-- A definition has the name of the Go function in lower case; a part of a long function that stands
-- between two of its returns is a definition of its own, under a comment that says which part.
--
-- Conventions. Instants and durations are numbers of nanoseconds, of the type ℤ. A time and what is
-- computed from one, and sums of tokens, stay far from the ends of Go's types, and are not wrapped;
-- `int32(len(x))` and the multiplication of a deadline are. Numbers of which the schema of the API refuses negative
-- ones are ℕ. A formatted text is kept as its format and arguments, and an error among the
-- arguments of an event is left out. `Raw` is the JSON of a field that the modelled code passes on
-- unread; a field that it does not touch at all is left out. Logs and metrics are not modelled.
-- `meta.SetStatusCondition`, `sort.Slice`, the cron parser, `time.LoadLocation`, `%d` and the sum of
-- floating-point costs are fields of `Env`, and theorems that need a law of one have it as a
-- hypothesis: `Sorts` says that a sort keeps the elements and leaves them in order. JSON,
-- `filepath.Join`, `sort.Strings`, `%q` and SHA-256 are fields of `Library`, which is one field of
-- `Env`; `RoundTrips` says that a JSON object is read back as it was printed,
-- and exactly so where its values were read by the same library. A configuration is
-- the text of a JSON value, which in the API is an object.
--
-- Bounds. The loop over missed activations gets 101 rounds, which are enough since the code stops
-- at 100 missed ones (`walk_total` in Cron/Schedule/Recent). The loops that retry a status update of
-- the quota have 3 rounds, the code's own number.
--
-- Not modelled: what is inside of a Pod (`create_pod` is called with the Pod's key alone) and of an
-- Agent's Deployment, which are Kubernetes structures; the `Reconcile` of the Agent
-- controller with the objects that it keeps beside the ConfigMap, the template and registry
-- controllers, git synchronization; the web server
-- and the command-line tools, which are mostly input and output.
pub mod Prelude
pub mod Api
pub mod Client
pub mod Config
pub mod Skills
pub mod Context
pub mod Task
pub mod Cron
pub mod Server
pub mod Standby
pub mod Tests
