-- ===== src/Lib.antt =====
-- The Reloader operator reloads Deployments, StatefulSets and DaemonSets when a Secret or a ConfigMap
-- that concerns them changes. This library models the logic of the operator and proves what keeps it
-- right. Paths are relative to the root of the repository.
--
-- The parts and their files:
--
-- - Kube: the objects of Kubernetes with the fields that the code uses, and errors. Api:
--   api/v1alpha1/reloaderconfig_types.go, the ReloaderConfig resource.
-- - Platform: all that the repository does not hold, as one parameter: the Kubernetes client, the work
--   queue, the clock, the HTTP client, SHA-256, JSON and time formats. Its `World` may change in any way
--   at each call, so other clients may act between two calls. An operation of the operator is a function
--   on a `State`, the world and the calls that left a mark (updates, deletions, queue operations, alerts),
--   the latest first. Platform/Quiet: actions that leave none.
-- - Util: internal/pkg/util. Names, Strategies, Keys, CommaLists, EnvNames, Durations and Sources are
--   helpers.go; Hash is hash.go, Conditions conditions.go, PodReferences pod_references.go, Workloads
--   workload_helpers.go.
-- - Workload: internal/pkg/workload. Target, Annotations (`shouldReloadFromAnnotations`) and Finder are
--   finder.go; Template (the reload strategies), Rollout (the change of the pod template), Updater (triggers
--   and restarts) and Pause (`IsPaused`) are updater.go.
-- - Alerts: internal/pkg/alerts. Message is types.go with the constructors of messages; Slack, Teams and
--   GoogleChat are the payloads of slack.go, teams.go and gchat.go, Senders their types and constructors,
--   and Sending the three `Send`s;
--   Manager is alert_manager.go.
-- - Controller: internal/controller. Events is reconciler_events.go, Discovery reconciler_discovery.go,
--   Reload reconciler_reload.go, Predicates reconciler_predicates.go; WorkItem, StatusQueue and Status
--   are reconciler_status.go; Reconciler, Reconcile, ConfigReconcile and Setup (the runnables and the two
--   watches of `SetupWithManager`) are reloaderconfig_controller.go. Lifetime is the writes of a status by
--   the reconciliation and by the worker, which run side by side: a step relation on the version and the
--   status that the server stores and on the writes that are on their way.
-- - What the code relies on of others is stated in interfaces: Controller/Status/WorkQueue is the work
--   queue as client-go documents it, with Controller/Status/Announced on what `Add` does while the worker
--   rests, and Controller/Status/Store a server that accepts each write.
-- - Cmd: cmd/main.go. Flags, Servers (the options of the servers and the manager), Configure (selectors,
--   ignored namespaces, the reconciler) and Main (the steps of `main` with their exits, and
--   `SetupWithManager`). Process is what they run on: the manager and the parser of label selectors.
-- - Base: names of the libraries and shared lemmas; Go's maps with nil are Base/Maps. Tests: a small
--   cluster and runs of the theorems on it.
--
-- How the parts interact: Reconcile looks a request up as a ReloaderConfig, a Secret, a ConfigMap or a
-- deletion. A changed resource goes to Events, which compares its hash (Util/Hash) with the one in its
-- annotation, asks Discovery for targets (Finder, Annotations, PodReferences), filters them, and hands
-- them to Reload. Reload asks Pause, calls the triggers of Updater, sends alerts, and puts items into the
-- status queue; Status takes them out and writes the status, which Pause reads at the next reload.
--
-- The process starts in Cmd, which makes the reconciler from the flags; Predicates decide with it which
-- events reach Reconcile.
--
-- Go functions keep their names in snake case. A method on a pointer that it changes is a function to the
-- changed value; an error is `Failure` or `Result`; a loop is a recursion on its list. Only the loop of the
-- status worker takes fuel, the number of its rounds: six for each item that waits are enough, as an item
-- is put back five times at most, and one for each is enough where every write is accepted.
-- The server returns the instants of a status in whole seconds, as `metav1.Time` writes them into JSON
-- (Controller/Status/Stored); what the theorems of Lifetime and the other handlers say of a written status
-- is of the value that is handed to the client. 64-bit counters wrap. Instants and durations are unbounded: the overflow of Go's durations is not
-- modelled. The order in which Go meets the pairs of a map is that of the model's list of pairs. Log lines
-- are left out.
--
-- Not modelled: generated code; the parse of the command line, the registration of schemes and the watches
-- that controller-runtime keeps, which are wiring. The senders of an alert run concurrently in Go; a sink
-- has one sender, so they run in their order here.
pub mod Alerts
pub mod Api
pub mod Base
pub mod Cmd
pub mod Controller
pub mod Kube
pub mod Platform
pub mod Tests
pub mod Util
pub mod Workload
