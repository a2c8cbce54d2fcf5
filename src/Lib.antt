-- ===== src/Lib.antt =====
-- Launch Pad: deploys services of several projects to the nodes of a cluster. The modelled part is
-- the logic that decides what runs where and writes it down.
--
-- The program's parts and how they interact:
--   * `buildCandidateNodes` (packages/cli/src/deploy/candidate-nodes.ts, Candidates) reads the
--     registry entry and the desired state of each node and makes the planner's pool.
--   * `planClusterPlacement` (packages/cli/src/deploy/placement.ts, Placement) places the services of
--     a deploy on the pool; `planClusterPlacementAutoAdd` (Placement/AutoAdd) grows the pool by new
--     nodes where it is too small.
--   * `publishDesired` (packages/cli/src/commands/deploy.ts, Publish) reads a node's desired.json,
--     merges the project's services into it (packages/shared/src/merge.ts, Merge), makes the
--     admission check of the node's capacity (packages/shared/src/capacity.ts, Capacity; its input is
--     in Candidates/Admission) and writes the result on condition that nobody wrote in between.
--   * `publishRemoval` (packages/cli/src/commands/destroy.ts), `publishJobRun` and `removeJobRun`
--     (packages/cli/src/commands/job.ts) are the other writers of desired.json (History, with the
--     histories that all writers make).
--   * `planUndeploy` and `servicesAfterRemoval` (packages/shared/src/undeploy.ts, Undeploy) take a
--     project's services away.
--   * `buildProvisionPlan` (packages/cli/src/deploy/provision-plan.ts, Provision) sizes and creates
--     the nodes that a plan needs and the registry lacks.
--   * `planAutoscale` and `scaleOutNodeSpec` (packages/shared/src/autoscale.ts, Autoscale) decide the
--     next action of a pool, and the node that a scale-out creates.
--   * `buildEdgeBackendsFromShards` (packages/shared/src/edge.ts, Edge) makes an edge's routing table.
--   * `diffPlacement` (packages/cli/src/deploy/rebalance-plan.ts, Rebalance) compares a placement with
--     a newly planned one.
--   * `parseCronExpression`, `nextCronFire` and `dueCronFire` (packages/shared/src/cron.ts, Cron) say
--     when a scheduled worker runs.
--   * The config lock (packages/shared/src/config-lock.ts, ConfigLock) compares a config with the
--     snapshot of an earlier deploy, or with one rebuilt from the nodes' desired.json files
--     (packages/cli/src/deploy/deployed-footprint.ts, Footprint); `toServiceConfig` and the gate of a
--     deploy (packages/cli/src/commands/deploy.ts, Deploy) are on its two sides.
--   * The project index (packages/shared/src/project-registry.ts, ProjectIndex) keeps the service
--     names of the components that several repositories deploy.
--   * `recommendIdleNodes` (packages/cli/src/cost/idle.ts, IdleNodes) finds the nodes that cost money
--     without doing work.
--   * The gates of `node destroy` (packages/cli/src/commands/node/index.ts, Evacuation) hold back the
--     nodes whose services or data would be lost.
--   * The schemas of launch-pad.toml (packages/shared/src/config.ts, health.ts, ConfigSchema) say which
--     config a deploy accepts; `expandDatabaseServices` turns managed databases into services, and
--     `resolveServiceDomain` (ConfigSchema/DomainPattern) gives an environment its domain.
--   * `generateNodeNames` (packages/shared/src/node-names.ts, NodeNames) makes the names of
--     new nodes; the planner and the autoscaler take it as a parameter.
--   * S3Keys has the keys of the state bucket (packages/shared/src/s3-keys.ts) and the guards that keep a
--     restored backup inside its cluster and directory (packages/cli/src/backup/plan.ts).
--   * `evaluateAlerts` (packages/cli/src/alerts/evaluate.ts, Alerts) finds what is broken on live nodes.
--   * `collectChangedPaths` and `selectChangedServices` (packages/cli/src/deploy/changed-services.ts,
--     ChangedServices) choose what `deploy --changed` deploys.
-- Config has the records of launch-pad.toml and the names derived from it (packages/shared/src/
-- config.ts, secrets.ts, s3-keys.ts), Service those of desired.json (packages/shared/src/desired.ts,
-- health.ts, secrets.ts, config.ts), Registry those of a node (registry.ts, node-role.ts).
-- Prelude has the shared helpers.
-- A module's children have its lemmas, and Tests the runs on concrete inputs.
--
-- How code corresponds to definitions: a function keeps its name in snake case, a record its fields;
-- a loop is a recursion on its list or on the attempts left, and the state that its body updates is
-- its accumulator; a thrown error is an `err` that holds its kind and numbers without the text for
-- the terminal; a Map or Set is an association list or list in insertion order.
--
-- Numbers: resources and counts are natural numbers, as the schemas demand, differences are
-- integers; sums beyond 2^53, where JavaScript rounds, are not modelled. The quotients that rank two
-- nodes are floating-point, so their operations are a parameter (Prelude/Doubles) without laws.
--
-- Parameters: the ETag of a stored body and its parser, what S3 holds at each request of an attempt,
-- the source of new node names (a name that is not in use), the locale's order of texts, the parser of
-- time stamps, git, node:path, the registry read of a provision plan, and for each listed
-- node its documents and whether its heartbeat is fresh; JavaScript's Date in UTC, and `JSON.stringify`, which the lock's
-- theorems assume to write different values differently. The autoscaler's percents and the monthly
-- estimate of an idle node are floating-point, like the quotients.
--
-- Bounds: the five attempts of a publish are the source's MAX_PUBLISH_RETRIES, and the additions to
-- the pool its maxAdd, the minutes of a cron scan its horizon; all other recursion is structural, but for
-- the number that a used node name gets: its search has one round more than names are in use.
--
-- The config lock leaves a service's `domain` out of its comparison, as its own hint says, though
-- docs/configuration.md and docs/getting-started.md call it locked; the model follows the code.
--
-- Not modelled: AWS access, provisioning scripts, terminal and dashboard, the parsing of TOML and
-- JSON (a schema's checks start from a value of its types), the texts of errors, and
-- the node agent, which is written in Rust.
pub mod Prelude
pub mod Service
pub mod Capacity
pub mod Registry
pub mod Placement
pub mod IdleNodes
pub mod NodeNames
pub mod S3Keys
pub mod Merge
pub mod ChangedServices
pub mod Alerts
pub mod Undeploy
pub mod Candidates
pub mod Publish
pub mod Autoscale
pub mod Edge
pub mod Rebalance
pub mod Config
pub mod ConfigLock
pub mod ConfigSchema
pub mod Cron
pub mod Deploy
pub mod Evacuation
pub mod Footprint
pub mod History
pub mod ProjectIndex
pub mod Provision
pub mod Tests
