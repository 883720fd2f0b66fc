-- ===== src/Lib.antt =====
-- grlx: a server ("farmer") that manages machines ("sprouts"): it accepts their keys, decides
-- who may do what to which of them, sends them recipes and records the jobs that result.
--
-- Parts. internal/pki keeps the key of each sprout in a state. internal/rbac answers whether a
-- role may take an action on a sprout; the scope of a rule may name a cohort, a set of sprouts
-- that the registry of cohorts resolves. internal/cook checks a recipe, and on the sprout runs
-- its steps in the order that their requisites allow, with one completion message to each
-- step. internal/jobs receives these messages, and keeps a log and a status of each job.
-- internal/saasapi sends actions and updates to the sprouts of a tenant in batches, whose
-- items it keeps in a table, and rolls updates out in waves.
--
-- Files. Common has texts, sets, maps, results and Table, the interface of a table of the
-- database with the laws of its statements, which Common/Table/Rows fills in memory. Rbac/Role
-- is internal/rbac/role.go (has_scoped_access is HasScopedAccess, scope_filter is
-- ScopeFilter). Rbac/Cohort and Rbac/Registry are internal/rbac/cohort.go with the rows of
-- internal/rbac/store.go: Registry has the cache and the tenant, and each operation takes the
-- table and returns it. Rbac/Stores is the stores of roles and users of
-- internal/rbac/config.go, each of them its tenant, Rbac/Config is the sections of the
-- configuration in that file, as values that a file may hold, and Rbac/Policy is
-- internal/rbac/policy.go, where a warning has a constructor for its kind. Pki/SproutId and
-- Pki/Keys are internal/pki/pki.go and the statements on pki_nkeys in internal/pki/store.go:
-- World has the rows and the reloads of the message bus so far. Pki/Enroll is
-- internal/pki/enroll.go: Farm has the tables that an enrollment changes, Services what it
-- calls of other packages, and what other calls do to the tables between the choice of an id
-- and the redemption is a function of the farm. Pki/Tenancy is VerifySproutInTenant of
-- internal/pki/store.go. Cook/Steps, Cook/Requisites and Cook/Run are
-- internal/cook/cooktypes.go and sproutcook.go: Run is the state of CookRecipeEnvelope, Event
-- one of its transitions and Reaches the states of its runs. Cook/Trees and Cook/Cycles are
-- internal/cook/rootball.go and summary.go: a search of Cycles passes its maps of marks, and
-- stops at the nil step that a map gives for an unknown id. Cook/Pruning is PruneToTarget of
-- internal/cook/helpers.go. Jobs/StatusIndex is internal/jobs/status_index.go: Statement is a
-- statement of one replica, and a list of them is an interleaving. Jobs/Summary is the status
-- of a job in internal/jobs/store.go, with the placeholders of listener.go.
-- Jobs/StatusIndex/Counters describes the columns of a row by the events of the job.
-- Saas/Items, Saas/Dispatch and Saas/Batches are internal/saasapi/sprout_actions.go with the
-- rows of model.go: update_item is updateItem, and Sending the table of items with the
-- requests sent. Saas/Actions has its checks of requests. Saas/Rollout is
-- fleet_update_dispatch.go: World has the clock, too, and Surroundings what a rollout meets at
-- each time, which are the policy of its tenant, the answers of the farmer, the outcomes of
-- jobs, and requests for the status of the batch, which refresh its rows before and after the
-- requests of a wave are sent and while a poll sleeps, but not within a poll; the goroutines
-- of a wave change one row each and are taken one after the other, at the time at which the
-- wave starts. Saas/PolicyCheck is the checks of that file, and Saas/FleetUpdate its handler
-- CreateFleetUpdateBatch, which takes what it reads as Reads, looks for updates in progress in
-- one pair of tables and writes to another, which racing requests may have changed, and gives
-- the rollout that it starts. Saas/UpdatePolicy is fleet_updates.go. Examples has the theorems
-- on small inputs.
--
-- Fuel. compute_depth of Rbac/Registry takes one more than the number of cohorts, since a path
-- that repeats a name stops; resolve takes 18, since the depth beyond 16 is an error.
-- find_cycle and dfs of Cook/Cycles take one for each call on the stack; how much is enough
-- depends on the recipe. visit of Cook/Pruning takes one more than the number of steps, since
-- each call but the last keeps a new id. run_waves of Saas/Rollout takes one more than the
-- number of items, and poll takes 121 in a wave: a poll sleeps 15 seconds and a wave has 30
-- minutes.
--
-- Not modelled: collations: a table has one row to a key and takes keys that differ for
-- different, as a database does with a binary collation, or with ids in lower case, which
-- newID of internal/saasapi/idgen.go makes; the tenant check of Pki/Tenancy, which is about
-- other collations, does without these laws; failures of the database and of the object
-- storage; the texts of errors, whose sentinel is kept; the JSON columns of rows, which are
-- taken decoded; the order of Go's maps where only membership depends on it (Cook/Run takes
-- any order); the reloads of the message bus beyond the record that they are asked for; what
-- an ingredient does on the machine, which is any completion; the syntax of configuration
-- files and the parsing of recipes; signatures, tokens and files.
pub mod Common
pub mod Rbac
pub mod Pki
pub mod Cook
pub mod Jobs
pub mod Saas
pub mod Examples
