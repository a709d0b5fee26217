-- ===== src/Lib.antt =====
-- Kterodactyl: a Kubernetes operator for game servers, with a REST API for its users.
--
-- The operator watches objects of type GameServer. Each has a state (Creating, Starting, Ready,
-- Allocated, Shutdown, Error) in its status; a reconciliation looks at the object and the cluster, and
-- moves the object to another state. The REST handlers read and write the same objects, so that the
-- two meet only in the API server.
--
-- Prelude: natural numbers, texts, Go's int, maps and the strconv functions.
-- Lifecycle: api/v1alpha1/gameserver_lifecycle.go and backup_lifecycle.go, the states and the tables
-- of transitions (ValidTransitions, IsValidTransition, IsTerminal); Lifecycle/Graph looks at the
-- tables as graphs.
-- Labels: internal/util, the keys of labels and annotations and the names that are built from texts.
-- Kube: what the program sees of Kubernetes. Kube/Objects has the types of api/v1alpha1 and the fields
-- of built-in objects that the program sets; Kube/Exec the actions on the cluster, which pass its
-- state on and keep what was written before an error. Kube/Platform is the interface to code outside
-- the repository (the client of controller-runtime, the event recorder, meta.SetStatusCondition, the
-- finalizer helpers, resource quantities, the gauge): the record Platform holds the calls, and the
-- record Laws what the program relies on. Kube/Memory is one cluster that satisfies the laws, where
-- theorems are applied to concrete data.
-- Controller: internal/controller/gameserver_controller.go. Controller/Config is AdminConfig and
-- LoadAdminConfig; Controller/Pods and Controller/Namespaces the objects that CreateOrUpdate writes;
-- Controller/Conditions the status conditions; Controller/Reconcile the handlers of the states,
-- transitionState, the deletion and Reconcile itself. The other files of Controller are proofs.
-- Backups: internal/controller/backup_controller.go. Backups/Storage is the interface to the S3 client,
-- the commands in a pod, the cron parser, the times and sort.Slice; Backups/Status has
-- transitionBackupState, Backups/Transfer the way of the bytes between pod and storage,
-- Backups/Running the reconciliation of one backup, Backups/Retention enforceRetention, and
-- Backups/Schedule the schedules of game servers and Reconcile. The other files of Backups are proofs.
-- Api: internal/api, the handlers of game servers (handlers_gameserver.go, request.go, response.go,
-- the routes of game servers in routes.go) and the validation of parameters of internal/manifest.
-- Api/Backups, Api/Schedules and Api/Restores are handlers_backups.go, Api/Mods is handlers_mods.go,
-- Api/Pods execInPod and the restart after an upload or a restore, and Api/Extras the routes of both
-- with RequireAdmin. Api/Admin is handlers_admin.go, and Api/Routes has the routes of game servers. The
-- remaining files of Api are proofs.
-- Auth: internal/auth, the check of user names (auth.go), the store of users (store.go) and the
-- invitations (invite.go), where random bytes, times and mail are a record of their own.
-- Examples: runs on concrete data.
--
-- A write stores what was sent: the fields that the API server fills in or admission adds are left
-- out, and so are resource versions. A reconciliation is one action: the time of the call is its
-- argument, and other writers do not run between its API calls. Texts that Go formats are lists of
-- their pieces. Every loop of
-- the program runs over a list; only the printing of a number has fuel, one more than the number, and
-- Prelude/Decimal shows that what is printed reads back. Loggers, the
-- duration histogram, the registration of watches and routes, the JSON codec, the form parser, rate
-- limits and the rest of the middleware are left out, and so are the DNS controller, passwords
-- and tokens, the handlers of login, registration, games, metrics and the console, the loading of
-- manifests and the web front end.
pub mod Prelude
pub mod Lifecycle
pub mod Labels
pub mod Backups
pub mod Kube
pub mod Controller
pub mod Api
pub mod Auth
pub mod Examples
