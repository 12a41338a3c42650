-- ===== src/Lib.antt =====
-- hermes-operator: a Kubernetes operator for HermesInstance, its cluster-wide defaults, and the
-- requests by which an agent changes its own instance.
--
-- The parts and how they interact. The defaulting webhook fills an instance from the
-- HermesClusterDefaults, and the validating webhook admits or denies what results. The controllers
-- then work on what is stored: the sub-controllers of an instance back it up and hold its deletion
-- until the last backup (backup.go), restore it and migrate it once (restore.go, migration.go), and
-- move it to newer tags of its image (autoupdate.go, which asks internal/oci for the tags and backup.go
-- for a backup before an update). The main reconciler (hermesinstance_controller.go) brings the objects
-- of an instance up to date in ordered steps, from what internal/resources builds, then calls these
-- sub-controllers and writes the status; on a deletion it asks backup.go first and then cleans up a
-- Semaphore server. The controller of HermesSelfConfig checks a request of the agent
-- against the policy that the instance states, and applies it by server-side apply.
--
-- Which file models which part (paths from the root of the repository):
--   Api/            api/v1/*_types.go: a record for each struct, with the fields that modelled code
--                   reads or writes; a nil pointer is none, and a nil map is none where nil matters.
--   Kube/           what is used of Kubernetes and of the libraries: objects, errors, the API client
--                   and the helpers on conditions and finalizers. Client, Library and the records
--                   IsApiServer, IsLibrary and KeepsSpec are interfaces: operations over a world that
--                   every call may change, and what their documentation says of them.
--   Controller      what the sub-controllers share, with names and annotations; Controller/Rules and
--                   Controller/After have the rules by which their proofs follow the code.
--   Oci/            internal/oci/client.go: ListTags with its cache, HighestMatching.
--   AutoUpdate/     internal/controller/autoupdate.go: Interval (parsePollInterval), Poll (Reconcile),
--                   Rollout (startRollout), Drive (driveRollout and rollback). AutoUpdate/Tags has the
--                   step relation on the tags of the status that the handlers refine.
--   Backup/         internal/controller/backup.go: Finalizer, CronJob, Deletion (HandleDeletion) and
--                   OneShot (RunOneShot).
--   Latches/        internal/controller/restore.go and migration.go, and Latches/Life: the states of an
--                   instance under admitted updates and turns of both.
--   Webhook/        internal/webhook/webhook_hermesinstance_validate.go in Sanity, Sources, Gateways,
--                   Tailscale and Validate, webhook_hermesinstance_default.go in Defaults, and the
--                   validators of the other two resources in Requests. The module Accepts below
--                   each states, on the spec, what the validator lets pass.
--   SelfConfig/     internal/controller/selfconfig_policy.go (Policy), selfconfig_apply.go (Patches) and
--                   hermesselfconfig_controller.go with its events and counters (Turn, Reconcile).
--   Singleton       internal/controller/hermesclusterdefaults_controller.go.
--   Resources/      internal/resources: Labels (common.go), Workspace, Secret, Config with Yaml and
--                   Gateways, and the Names of the objects. Workspace is shared with SelfConfig.
--   Instance/       internal/controller/hermesinstance_controller.go: Objects (what the steps share),
--                   Steps and Optional (the steps), Status, Reconcile (the turn), over the objects of
--                   Kube/Cluster, where IsCluster says what is documented of the API server and of
--                   controllerutil. Secrets, Tracks, Seeds, Ordered and Deletes have the
--                   theorems.
--   Semaphore/      the same file: Provision (reconcileSemaphore) and Cleanup (semaphoreCleanup). Log
--                   extends the world by the exchanges with the server, which Deletions,
--                   Posts and Creations speak of.
--   Common, Fixtures, Tests   shared helpers, concrete clients and instances, and examples.
--
-- How state and errors are modelled. A handler is a function of the state that it may change: the
-- object in memory, the world behind the client, the events recorded so far and, for requests, the
-- writes issued so far. Common/Flow has its steps, which go on with a value or stop with what the
-- handler returns, so that an early return of the source is one of the model. A Go pair of a value and
-- an error is a Result; an error keeps what the code asks of it (IsNotFound, IsAlreadyExists, errors.Is).
--
-- Bounds and fuel. No definition runs on fuel: every loop of the source runs over a list, and is
-- recursion on it. Times and durations are seconds as natural numbers; replicas, ports and thresholds
-- are natural numbers, of which the code only compares and increments.
--
-- What is left out. The messages of errors, events and conditions, except where a constructor stands
-- for each; logging and metrics other than the counters of requests; the Pod templates of Jobs and
-- CronJobs; set-up of the manager; generated code, charts and configuration. The builders of
-- internal/resources that only fill in API types are a parameter of the main reconciler (Builders), which
-- works with any; so do its theorems. An object has the fields that the reconciler treats one by one, and
-- one part that stands for all that a builder sets as a whole. The API server, the registry, the clock,
-- random bytes, the HTTP client of the Semaphore server, semantic versions, YAML and JSON decoding and
-- glob matching are parameters.
pub mod Common
pub mod Api
pub mod Kube
pub mod Oci
pub mod Controller
pub mod AutoUpdate
pub mod Backup
pub mod Fixtures
pub mod Instance
pub mod Latches
pub mod Resources
pub mod SelfConfig
pub mod Semaphore
pub mod Singleton
pub mod Webhook
